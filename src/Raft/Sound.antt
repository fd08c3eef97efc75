-- ===== src/Raft/Sound.antt =====
-- The states of a node in which no message that fits makes raft.cc read what is not there.
pub mod Tables
pub mod Sends
pub mod Roles
pub mod Appends
pub mod Total
pub mod Clock
pub mod Sent
pub mod Kept
pub mod Acknowledged
pub mod Ahead
pub mod Everyone
pub mod Rounds
pub mod Settled
pub mod Round
use sapphiredb.Base.{
  ℕ, zero, suc, ◌+◌, ◌≤◌, ◌<◌, ◌≡◌, ◌≢◌, ◌⊎◌, List, [], ◌∷◌, IsU64, Returns, length,
}
use sapphiredb.Base.Table.{Table}
use sapphiredb.Proto.{Codec, Entry, Message, msg_heartbeat, msg_app, msg_app_resp, msg_prop}
use sapphiredb.Progress.{Progress, progress_state_unset}
use sapphiredb.Storage
use sapphiredb.Storage.{Storage}
use sapphiredb.Raft.{Raft}

-- No entry has an index greater than its place in the log, which starts at `k`.
abbrev pub Indexed : ℕ → List Entry → Type 0
Indexed k [] = Unit {0}
Indexed k (e ∷ es) = (e.index ≤ k) × IsU64 (e.index + 1) × Indexed (suc k) es

-- A progress that points into a log of `n` entries, or right behind it.
pub record Tracks (n : ℕ) (p : Progress) : Type 0 where
  pub next_pos : 0 < p.next
  pub next_le : p.next ≤ n + 1
  pub match_le : p.match ≤ n
  pub match_fits : IsU64 (p.match + 1)
  pub is_set : p.state ≢ progress_state_unset
  pub no_pending : p.pending_snapshot ≡ 0

abbrev pub Tracked : ℕ → Table Progress → Type 0
Tracked n [] = Unit {0}
Tracked n ((id, p) ∷ t) = Tracks n p × Tracked n t

-- The storage answers every question about a term.
abbrev pub Answers : ⦃c : Codec⦄ → Storage → Type 0
Answers s = (i : ℕ) → Returns (λ (_ : ℕ). Unit {0}) (Storage.term i s)

-- The log starts at 1, the storage can be read, the public table is empty, and what is applied and
-- what is known of the peers lies in the log.
pub record Sound ⦃c : Codec⦄ (r : Raft) : Type 0 where
  pub from_one : r.offset ≡ 1
  pub alone : r.public_prs ≡ []
  pub answers : Answers r.storage
  pub applied_le : r.last_applied ≤ length r.entries
  pub applied_fits : IsU64 (r.last_applied + 1)
  pub indexed : Indexed 1 r.entries
  pub tracked : Tracked (length r.entries) r.prs

-- A message that fits a node: a heartbeat does not commit past an empty log, a proposal finds a peer
-- and room, an acknowledgement is of an index in the log, and a `MsgApp` does not shorten the log.
pub record Fits (m : Message) (r : Raft) : Type 0 where
  pub heartbeat : m.type ≡ msg_heartbeat → (0 < length r.entries) ⊎ (m.commit ≤ r.commit_index)
  pub prop : m.type ≡ msg_prop → (0 < length r.prs) × IsU64 (r.last_applied + length m.entries + 1)
  pub app_resp : m.type ≡ msg_app_resp → (m.index ≤ length r.entries) × IsU64 (m.index + 1)
  pub app :
      m.type ≡ msg_app
      → Indexed (suc m.index) m.entries × (length r.entries ≤ m.index + length m.entries)
