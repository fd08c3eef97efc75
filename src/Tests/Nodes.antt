-- ===== src/Tests/Nodes.antt =====
-- Nodes and messages on which the theorems are tried: node 1, once new and once leader, and its
-- follower, node 2.
use sapphiredb.Base.{ℕ, true, false, none, [], ◌∷◌, arith}
use sapphiredb.Proto.{Entry, Message, entry_trival, empty_message, msg_heartbeat, msg_vote}
use sapphiredb.Progress.{Progress, progress_state_probe, progress_state_replicate}
use sapphiredb.Storage.{Storage}
use sapphiredb.Raft.{
  Raft, state_leader, state_follower, step_leader_function, step_follower_function,
  tick_election_function, tick_heartbeat_function, snap_unset,
}
use sapphiredb.Raft.Replicate.Append.{IsPlain}
use sapphiredb.Poll.{Kernel}
use sapphiredb.Node.Reachable.{Inv}

abbrev pub no_file : Storage
no_file = record { file = none }

abbrev pub fresh : Raft
fresh = record {
  public_prs = [];
  current_term = 1;
  vote = 0;
  id = 1;
  is_leader = false;
  prs = [];
  votes = [];
  commit_index = 0;
  last_applied = 0;
  entries = [];
  snap = snap_unset;
  offset = 1;
  storage = no_file;
  leader = 0;
  state = state_follower;
  heartbeat_elapsed = 0;
  heartbeat_timeout = 2;
  election_elapsed = 0;
  election_timeout = 5;
  step = step_follower_function;
  tick = tick_election_function;
  randomized_election_timeout = 1;
  check_quorum = false;
  sendmsgs = [];
  recvmsgs = [];
  unknownid = [];
  ready = false;
  draws = λ n. n;
}

abbrev pub first_entry : Entry
first_entry = record { type = entry_trival; term = 1; index = 1; bytes = 7 ∷ [] }

abbrev pub second_entry : Entry
second_entry = record { type = entry_trival; term = 2; index = 2; bytes = 8 ∷ 9 ∷ [] }

abbrev pub own_progress : Progress
own_progress = record {
  next = 3;
  match = 2;
  state = progress_state_replicate;
  pending_snapshot = 0;
  recent_active = true;
  is_leader = false;
}

abbrev pub peer_progress : Progress
peer_progress = record {
  next = 2;
  match = 1;
  state = progress_state_probe;
  pending_snapshot = 0;
  recent_active = true;
  is_leader = false;
}

abbrev pub leader : Raft
leader = record fresh {
  current_term = 2;
  prs = (1, own_progress) ∷ (2, peer_progress) ∷ [];
  entries = first_entry ∷ second_entry ∷ [];
  leader = 1;
  state = state_leader;
  step = step_leader_function;
  tick = tick_heartbeat_function;
}

abbrev pub follower : Raft
follower = record fresh { id = 2; leader = 1; entries = first_entry ∷ [] }

abbrev pub beat : Message
beat = record empty_message { type = msg_heartbeat; from = 1; to = 2; term = 2; commit = 1 }

abbrev pub silent_beat : Message
silent_beat = record empty_message { type = msg_heartbeat; from = 3; to = 2 }

abbrev pub vote_of : ℕ → Message
vote_of from = record empty_message {
  type = msg_vote;
  from = from;
  to = 2;
  term = 1;
  index = 1;
  log_term = 1;
}

pub fresh-Inv : Inv fresh fresh
fresh-Inv = ground arith

pub leader-IsPlain : IsPlain leader
leader-IsPlain = ground arith

-- A system in which every call gives 0 and nothing arrives.
abbrev pub quiet : Kernel
quiet = record {
  answer = λ calls. 0;
  reads = λ calls. [];
  writes = λ calls. [];
  events = λ calls. [];
  filters = λ calls. [];
}
