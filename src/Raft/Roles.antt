-- ===== src/Raft/Roles.antt =====
-- The role of a node and the functions that `_step` and `_tick` hold go together.
use sapphiredb.Base.{ℕ, ◌≡◌, Bool, Ensures, arith}
use sapphiredb.Proto.{Codec, Message}
use sapphiredb.Raft.{
  Raft, State, state_leader, state_candidate, state_follower, state_locking, step_leader_function,
  step_candidate_function, step_follower_function, tick_election_function, tick_heartbeat_function,
  step_down, become_candidate, become_leader, send, set_ready,
}
use sapphiredb.Raft.Log.{commit_to}
use sapphiredb.Raft.Members.{grant_me}
use sapphiredb.Raft.Replicate
use sapphiredb.Raft.Step
use sapphiredb.Raft.Step.Basics.{
  Basics, bcast_heartbeat-keeps, append_entry-keeps, handle_app-keeps, bcast_append-keeps,
  leader_peer-keeps,
}
use sapphiredb.Raft.Step.Requests.{hup-keeps}
use sapphiredb.Raft.Step.Rule.{Keeps, general_step-Meets}

abbrev pub Role : State → Raft → Type 0
Role state_leader r =
    (r.step ≡ step_leader_function) × (r.tick ≡ tick_heartbeat_function) × (r.leader ≡ r.id)
Role state_candidate r = (r.step ≡ step_candidate_function) × (r.tick ≡ tick_election_function)
Role state_follower r = (r.step ≡ step_follower_function) × (r.tick ≡ tick_election_function)
Role state_locking r = ⊥

abbrev pub RolesAgree : Raft → Type 0
RolesAgree r = Role r.state r

step_down-RolesAgree : (t l : ℕ) (r : Raft) → RolesAgree (step_down t l r)
unfolding step_down
step_down-RolesAgree t l r = ground arith

become_candidate-RolesAgree : (r : Raft) → RolesAgree r → RolesAgree (become_candidate r)
unfolding become_candidate
become_candidate-RolesAgree r h = ground arith

become_leader-RolesAgree : (r : Raft) → RolesAgree r → RolesAgree (become_leader r)
unfolding become_leader
become_leader-RolesAgree r h = ground arith

send-RolesAgree : (n : Message) (r : Raft) → RolesAgree r → RolesAgree (send n r)
unfolding send
send-RolesAgree n r h = ground arith

grant_me-RolesAgree : (id : ℕ) (v : Bool) (r : Raft) → RolesAgree r → RolesAgree (grant_me id v r).1
unfolding grant_me
grant_me-RolesAgree id v r h = ground arith

hup-RolesAgree : (r : Raft) → RolesAgree r → RolesAgree (Step.hup r)
hup-RolesAgree r h =
    hup-keeps RolesAgree send-RolesAgree grant_me-RolesAgree become_leader-RolesAgree r h
      (become_candidate-RolesAgree r h)

handle_vote-RolesAgree : (m : Message) (r : Raft) → RolesAgree r → RolesAgree (Step.handle_vote m r)
unfolding Step.handle_vote
handle_vote-RolesAgree m r h = ground arith

handle_node-RolesAgree : (m : Message) (r : Raft) → RolesAgree r → RolesAgree (Step.handle_node m r)
unfolding Step.handle_node
handle_node-RolesAgree m r h = ground arith

follow-RolesAgree :
    (m : Message) (r : Raft)
    → r.step ≡ step_follower_function
    → RolesAgree r
    → RolesAgree (Step.follow m r)
unfolding Step.follow
follow-RolesAgree m r e h = ground arith

follow_app-RolesAgree :
    (m : Message) (r : Raft)
    → r.step ≡ step_follower_function
    → RolesAgree r
    → RolesAgree (Step.follow_app m r)
unfolding Step.follow_app
follow_app-RolesAgree m r e h = ground arith

commit_to-RolesAgree : (i : ℕ) (r : Raft) → RolesAgree r → Ensures RolesAgree (commit_to i r)
unfolding commit_to
commit_to-RolesAgree i r h = ground arith

RolesAgree-Basics : Basics RolesAgree
unfolding Replicate.put_progress set_ready
RolesAgree-Basics = record {
  on_send = send-RolesAgree;
  on_progress = λ id p r h. ground arith;
  on_entries = λ es r h. ground arith;
  on_ready = λ r h. ground arith;
  on_commit = commit_to-RolesAgree;
}

RolesAgree-Keeps : ⦃c : Codec⦄ (m : Message) → Keeps Unit m RolesAgree
RolesAgree-Keeps m = record {
  by_step_down = λ t l r _ _. step_down-RolesAgree t l r;
  by_send = send-RolesAgree;
  by_commit_to = λ r _. commit_to-RolesAgree m.commit r;
  by_hup = λ r _. hup-RolesAgree r;
  by_handle_vote = handle_vote-RolesAgree m;
  by_handle_node = handle_node-RolesAgree m;
  by_bcast_heartbeat = bcast_heartbeat-keeps RolesAgree-Basics;
  by_append_entry = λ r _. append_entry-keeps RolesAgree-Basics m.entries r;
  by_bcast_append = bcast_append-keeps RolesAgree-Basics;
  by_leader_peer = λ t r _ _. leader_peer-keeps RolesAgree-Basics m t r;
  by_handle_app = λ r _. handle_app-keeps RolesAgree-Basics m r;
  by_grant_me = λ r v. grant_me-RolesAgree m.from v r;
  by_become_leader = λ r _. become_leader-RolesAgree r;
  by_follow = λ r e _ _. follow-RolesAgree m r e;
  by_follow_app = λ r e. follow_app-RolesAgree m r e;
}

-- A message leaves the node in one of the roles leader, candidate and follower, with the functions
-- of that role in `_step` and `_tick`, and a leader takes itself for the leader: if it was so
-- before.
pub general_step-RolesAgree :
    ⦃c : Codec⦄ (m : Message) (r : Raft) → RolesAgree r → Ensures RolesAgree (Step.general_step m r)
general_step-RolesAgree m r h = general_step-Meets (RolesAgree-Keeps m) r h
