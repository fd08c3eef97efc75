-- ===== src/Raft.antt =====
-- sapphiredb/raft/raft.h and raft.cc: the state of a raft node, its roles, and its outgoing queue.
-- A method that changes `this` returns the new record; logging, locks and condition variables are
-- left out. Field `f` is the source's `_f`; `public_prs` is the public member `prs`, and `prs` is
-- `_prs`. `_step` and `_tick` hold one of a few functions, which are named.
pub mod Log
pub mod Replicate
pub mod Members
pub mod Leader
pub mod Step
pub mod Tick
pub mod Mailbox
pub mod Persist
pub mod Frame
pub mod Roles
pub mod Terms
pub mod Election
pub mod Commit
pub mod Sound
pub mod Tally
use sapphiredb.Base.{
  ℕ, ◌+◌, ◌/◌, Bool, false, List, [], ◌∷◌, ◌++◌, Outcome, ok, ◌==◌, leb, if◌then◌else◌, u32, u64,
  length, true,
}
use sapphiredb.Base.Table.{Table}
use sapphiredb.Proto.{Entry, Message, Snapshot}
use sapphiredb.Progress.{Progress}
use sapphiredb.Storage.{Storage}

pub data State : Type 0 where
  state_leader state_candidate state_follower state_locking : State

-- What `_step` and `_tick` hold.
pub data StepFunction : Type 0 where
  step_leader_function step_candidate_function step_follower_function : StepFunction

pub data TickFunction : Type 0 where
  tick_election_function tick_heartbeat_function : TickFunction

-- `Snapshot* _snap`. The constructor does not set it.
pub data SnapPointer : Type 0 where
  snap_unset snap_null : SnapPointer
  snap_at : Snapshot → SnapPointer

-- `draws` are the numbers that the random engine will give. Its distribution is a static local of
-- `rand`, made on the first call: later bounds are ignored, so one sequence serves all calls.
pub record Raft : Type 0 where
  pub public_prs : Table Progress
  pub current_term : ℕ
  pub vote : ℕ
  pub id : ℕ
  pub is_leader : Bool
  pub prs : Table Progress
  pub votes : Table Bool
  pub commit_index : ℕ
  pub last_applied : ℕ
  pub entries : List Entry
  pub snap : SnapPointer
  pub offset : ℕ
  pub storage : Storage
  pub leader : ℕ
  pub state : State
  pub heartbeat_elapsed : ℕ
  pub heartbeat_timeout : ℕ
  pub election_elapsed : ℕ
  pub election_timeout : ℕ
  pub step : StepFunction
  pub tick : TickFunction
  pub randomized_election_timeout : ℕ
  pub check_quorum : Bool
  pub sendmsgs : List Message
  pub recvmsgs : List Message
  pub unknownid : List ℕ
  pub ready : Bool
  pub draws : ℕ → ℕ

abbrev pub is_state_leader : State → Bool
is_state_leader state_leader = true
is_state_leader _ = false

abbrev pub is_state_follower : State → Bool
is_state_follower state_follower = true
is_state_follower _ = false

unfoldable pub reset_randomized_election_timeout : Raft → Raft
reset_randomized_election_timeout r = record r {
  randomized_election_timeout = u32 (r.election_timeout + r.draws 0);
  draws = λ n. r.draws (n + 1);
}

-- The term and the vote that go with it.
set_term : ℕ → Raft → Raft
set_term term r = if r.current_term == term then r else record r { current_term = term; vote = 0 }

unfoldable pub reset : ℕ → Raft → Raft
unfolding set_term reset_randomized_election_timeout
reset term r =
    reset_randomized_election_timeout
      (record (set_term term r) { leader = 0; election_elapsed = 0; heartbeat_elapsed = 0 })

unfoldable pub step_down : ℕ → ℕ → Raft → Raft
unfolding reset
step_down term leader r = record (reset term (record r { step = step_follower_function })) {
  tick = tick_election_function;
  leader = leader;
  state = state_follower;
}

unfoldable pub past_election_timeout : Raft → Bool
past_election_timeout r = leb r.randomized_election_timeout r.election_elapsed

unfoldable pub become_candidate : Raft → Raft
unfolding reset
become_candidate r =
    if is_state_leader r.state
    then r
    else record (reset (u64 (r.current_term + 1)) (record r { step = step_candidate_function })) {
      tick = tick_election_function;
      vote = r.id;
      state = state_candidate;
    }

unfoldable pub become_leader : Raft → Raft
unfolding reset
become_leader r =
    if is_state_follower r.state
    then r
    else record (reset r.current_term (record r { step = step_leader_function })) {
      tick = tick_heartbeat_function;
      leader = r.id;
      state = state_leader;
    }

-- `this->prs.size()`, of the public table.
unfoldable pub quorum : Raft → ℕ
quorum r = u32 (length r.public_prs / 2 + 1)

-- The checks of the term only log.
unfoldable pub send : Message → Raft → Raft
send msg r = record r { sendmsgs = r.sendmsgs ++ msg ∷ [] }

-- `Ready = true`, for the thread that writes the log.
unfoldable pub set_ready : Raft → Raft
set_ready r = record r { ready = true }
