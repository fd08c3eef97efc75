-- ===== src/Progress.antt =====
-- sapphiredb/raft/progress.h and progress.cc: what the leader knows of one follower's log.
-- The getters are the fields; a setter returns the new record.
pub mod Laws
use sapphiredb.Base.{ℕ, ◌+◌, ◌≡◌, Bool, true, false, ltb, if◌then◌else◌, u64}
use Prim.Native.Nat.{max}

-- `progress_state_unset` is the value 0 of an entry that `operator[]` has just inserted.
pub data ProgressStateType : Type 0 where
  progress_state_unset progress_state_probe progress_state_replicate : ProgressStateType
  progress_state_snapshot : ProgressStateType

pub record Progress : Type 0 where
  pub next : ℕ
  pub match : ℕ
  pub state : ProgressStateType
  pub pending_snapshot : ℕ
  pub recent_active : Bool
  pub is_leader : Bool

-- What `operator[]` inserts under a new key: value initialisation sets every field to zero.
abbrev pub zero_progress : Progress
zero_progress = record {
  next = 0;
  match = 0;
  state = progress_state_unset;
  pending_snapshot = 0;
  recent_active = false;
  is_leader = false;
}

unfoldable pub reset_state : ProgressStateType → Progress → Progress
reset_state s p = record p { pending_snapshot = 0; state = s }

become_probe_from : ProgressStateType → Progress → Progress
unfolding reset_state
become_probe_from progress_state_snapshot p = record (reset_state progress_state_probe p) {
  next = max (u64 (p.match + 1)) (u64 (p.pending_snapshot + 1));
}
become_probe_from _ p = record (reset_state progress_state_probe p) { next = u64 (p.match + 1) }

unfoldable pub become_probe : Progress → Progress
unfolding become_probe_from
become_probe p = become_probe_from p.state p

unfoldable pub become_replicate : Progress → Progress
unfolding reset_state
become_replicate p = record (reset_state progress_state_replicate p) { next = u64 (p.match + 1) }

unfoldable pub become_snapshot : ℕ → Progress → Progress
unfolding reset_state
become_snapshot snapshoti p = record (reset_state progress_state_snapshot p) {
  pending_snapshot = snapshoti;
}

unfoldable pub set_recent_active : Progress → Progress
set_recent_active p = record p { recent_active = true }

unfoldable pub reset_recent_active : Progress → Progress
reset_recent_active p = record p { recent_active = false }

unfoldable pub set_match : ℕ → Progress → Progress
set_match m p = record p { match = m }

unfoldable pub set_next : ℕ → Progress → Progress
set_next n p = record p { next = n }

unfoldable pub optimistic_update : ℕ → Progress → Progress
optimistic_update n p = record p { next = u64 (n + 1) }

-- The result of a call, and the record after it.
unfoldable pub maybe_update : ℕ → Progress → Bool × Progress
maybe_update n p =
    let q = record p { next = if ltb p.next (u64 (n + 1)) then u64 (n + 1) else p.next } in
    if ltb p.match n then (true, record q { match = n }) else (false, q)
