-- ===== src/Raft/Terms.antt =====
-- The term of a node.
use sapphiredb.Base.{ℕ, ◌+◌, ◌≤◌, ◌≡◌, ◌≢◌, Bool, IsU64, Ensures, Returns, arith}
use sapphiredb.Proto.{Codec, Message, msg_heartbeat, msg_hup}
use sapphiredb.Raft.{
  Raft, step_down, become_candidate, become_leader, send, set_ready, step_follower_function,
}
use sapphiredb.Raft.Log.{commit_to}
use sapphiredb.Raft.Members.{grant_me}
use sapphiredb.Raft.Replicate
use sapphiredb.Raft.Step
use sapphiredb.Raft.Step.Basics.{
  Basics, bcast_heartbeat-keeps, append_entry-keeps, handle_app-keeps, bcast_append-keeps,
  leader_peer-keeps,
}
use sapphiredb.Raft.Step.Rule.{Keeps, IsCurrent, general_step-Meets}

module _ (t : ℕ) where
  abbrev AtLeast : Raft → Type 0
  AtLeast r = t ≤ r.current_term

  send-AtLeast : (n : Message) (r : Raft) → AtLeast r → AtLeast (send n r)
  unfolding send
  send-AtLeast n r h = h

  grant_me-AtLeast : (id : ℕ) (v : Bool) (r : Raft) → AtLeast r → AtLeast (grant_me id v r).1
  unfolding grant_me
  grant_me-AtLeast id v r h = h

  become_leader-AtLeast : (r : Raft) → AtLeast r → AtLeast (become_leader r)
  unfolding become_leader
  become_leader-AtLeast r h = ground arith

  become_candidate-AtLeast :
      (r : Raft) → IsU64 (r.current_term + 1) → AtLeast r → AtLeast (become_candidate r)
  unfolding become_candidate
  become_candidate-AtLeast r b h = ground arith

  step_down-AtLeast :
      (t' l : ℕ) (r : Raft) → r.current_term ≤ t' → AtLeast r → AtLeast (step_down t' l r)
  unfolding step_down
  step_down-AtLeast t' l r le h = ground arith

  commit_to-AtLeast : (i : ℕ) (r : Raft) → AtLeast r → Ensures AtLeast (commit_to i r)
  unfolding commit_to
  commit_to-AtLeast i r h = ground arith

  handle_vote-AtLeast : (m : Message) (r : Raft) → AtLeast r → AtLeast (Step.handle_vote m r)
  unfolding Step.handle_vote
  handle_vote-AtLeast m r h = h

  handle_node-AtLeast : (m : Message) (r : Raft) → AtLeast r → AtLeast (Step.handle_node m r)
  unfolding Step.handle_node
  handle_node-AtLeast m r h = ground arith

  follow-AtLeast :
      (m : Message) (r : Raft) → m.term ≢ 0 → IsCurrent m r → AtLeast r → AtLeast (Step.follow m r)
  unfolding Step.follow
  follow-AtLeast m r n i h = ground arith

  follow_app-AtLeast : (m : Message) (r : Raft) → AtLeast r → AtLeast (Step.follow_app m r)
  unfolding Step.follow_app
  follow_app-AtLeast m r h = h

  AtLeast-Basics : Basics AtLeast
  unfolding Replicate.put_progress set_ready
  AtLeast-Basics = record {
    on_send = send-AtLeast;
    on_progress = λ id p r h. h;
    on_entries = λ es r h. h;
    on_ready = λ r h. h;
    on_commit = commit_to-AtLeast;
  }

  AtLeast-Keeps :
      ⦃c : Codec⦄ (m : Message)
      → m.type ≢ msg_hup
      → (m.type ≡ msg_heartbeat → m.term ≢ 0)
      → Keeps Unit m AtLeast
  AtLeast-Keeps m own beat = record {
    by_step_down = step_down-AtLeast;
    by_send = send-AtLeast;
    by_commit_to = λ r _. commit_to-AtLeast m.commit r;
    by_hup = λ r e h. absurd (own e);
    by_handle_vote = handle_vote-AtLeast m;
    by_handle_node = handle_node-AtLeast m;
    by_bcast_heartbeat = bcast_heartbeat-keeps AtLeast-Basics;
    by_append_entry = λ r _. append_entry-keeps AtLeast-Basics m.entries r;
    by_bcast_append = bcast_append-keeps AtLeast-Basics;
    by_leader_peer = λ t r _ _. leader_peer-keeps AtLeast-Basics m t r;
    by_handle_app = λ r _. handle_app-keeps AtLeast-Basics m r;
    by_grant_me = λ r v. grant_me-AtLeast m.from v r;
    by_become_leader = λ r _. become_leader-AtLeast r;
    by_follow = λ r _ e. follow-AtLeast m r (beat e);
    by_follow_app = λ r _. follow_app-AtLeast m r;
  }

-- A message other than a node's own `MsgHup` never takes the term of its receiver back, provided
-- that a heartbeat carries a term, if `generalStep` has a defined result.
pub general_step-current_term_le :
    ⦃c : Codec⦄ (m : Message) (r : Raft)
    → m.type ≢ msg_hup
    → (m.type ≡ msg_heartbeat → m.term ≢ 0)
    → Ensures (λ s. r.current_term ≤ s.current_term) (Step.general_step m r)
general_step-current_term_le m r own beat =
    general_step-Meets (AtLeast-Keeps r.current_term m own beat) r (omega arith)

-- A heartbeat without a term, which is what `bcastHeartbeat_fast` sends, has a defined result at a
-- follower that has another leader, and puts its term back to 0, if the heartbeat's commit index is
-- not above the follower's.
pub heartbeat_without_term :
    ⦃c : Codec⦄ (m : Message) (r : Raft)
    → m.type ≡ msg_heartbeat
    → m.term ≡ 0
    → m.commit ≤ r.commit_index
    → r.step ≡ step_follower_function
    → r.leader ≢ m.from
    → Returns (λ s. s.current_term ≡ 0) (Step.general_step m r)
unfolding Step.general_step Step.dispatch Step.step_follower Step.follower_dispatch commit_to send
heartbeat_without_term m r e z c s l = ground arith
