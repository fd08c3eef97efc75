-- ===== src/Raft/Frame.antt =====
-- What every message leaves alone, and what it only moves forward.
use sapphiredb.Base.{ℕ, ◌≤◌, ◌≡◌, Bool, Ensures, arith}
use sapphiredb.Proto.{Codec, Message}
use sapphiredb.Raft.{Raft, step_down, become_candidate, become_leader, send, set_ready}
use sapphiredb.Raft.Log.{commit_to}
use sapphiredb.Raft.Members.{grant_me}
use sapphiredb.Raft.Replicate
use sapphiredb.Raft.Step
use sapphiredb.Raft.Step.Basics.{
  Basics, bcast_heartbeat-keeps, append_entry-keeps, handle_app-keeps, bcast_append-keeps,
  leader_peer-keeps,
}
use sapphiredb.Raft.Step.Requests.{hup-keeps}
use sapphiredb.Raft.Step.Rule.{Keeps, general_step-Meets}

-- `s` comes after `r`: the commit index has not moved back, and the identity of the node, its
-- settings, its storage and its inbox are the same.
pub record Evolves (r s : Raft) : Type 0 where
  pub commit_le : r.commit_index ≤ s.commit_index
  pub id_eq : s.id ≡ r.id
  pub public_prs_eq : s.public_prs ≡ r.public_prs
  pub check_quorum_eq : s.check_quorum ≡ r.check_quorum
  pub heartbeat_timeout_eq : s.heartbeat_timeout ≡ r.heartbeat_timeout
  pub election_timeout_eq : s.election_timeout ≡ r.election_timeout
  pub last_applied_eq : s.last_applied ≡ r.last_applied
  pub offset_eq : s.offset ≡ r.offset
  pub snap_eq : s.snap ≡ r.snap
  pub storage_eq : s.storage ≡ r.storage
  pub recvmsgs_eq : s.recvmsgs ≡ r.recvmsgs

pub Evolves-refl : (r : Raft) → Evolves r r
Evolves-refl r = ground arith

module _ (r₀ : Raft) where
  send-Evolves : (m : Message) (r : Raft) → Evolves r₀ r → Evolves r₀ (send m r)
  unfolding send
  send-Evolves m r h = ground arith

  commit_to-Evolves : (i : ℕ) (r : Raft) → Evolves r₀ r → Ensures (Evolves r₀) (commit_to i r)
  unfolding commit_to
  commit_to-Evolves i r h = ground arith

  Evolves-Basics : Basics (Evolves r₀)
  unfolding Replicate.put_progress set_ready
  Evolves-Basics = record {
    on_send = send-Evolves;
    on_progress = λ id p r h. ground arith;
    on_entries = λ es r h. ground arith;
    on_ready = λ r h. ground arith;
    on_commit = commit_to-Evolves;
  }

  step_down-Evolves : (t l : ℕ) (r : Raft) → Evolves r₀ r → Evolves r₀ (step_down t l r)
  unfolding step_down
  step_down-Evolves t l r h = ground arith

  become_candidate-Evolves : (r : Raft) → Evolves r₀ r → Evolves r₀ (become_candidate r)
  unfolding become_candidate
  become_candidate-Evolves r h = ground arith

  become_leader-Evolves : (r : Raft) → Evolves r₀ r → Evolves r₀ (become_leader r)
  unfolding become_leader
  become_leader-Evolves r h = ground arith

  grant_me-Evolves : (id : ℕ) (v : Bool) (r : Raft) → Evolves r₀ r → Evolves r₀ (grant_me id v r).1
  unfolding grant_me
  grant_me-Evolves id v r h = ground arith

  handle_vote-Evolves : (m : Message) (r : Raft) → Evolves r₀ r → Evolves r₀ (Step.handle_vote m r)
  unfolding Step.handle_vote
  handle_vote-Evolves m r h = ground arith

  handle_node-Evolves : (m : Message) (r : Raft) → Evolves r₀ r → Evolves r₀ (Step.handle_node m r)
  unfolding Step.handle_node
  handle_node-Evolves m r h = ground arith

  follow-Evolves : (m : Message) (r : Raft) → Evolves r₀ r → Evolves r₀ (Step.follow m r)
  unfolding Step.follow
  follow-Evolves m r h = ground arith

  follow_app-Evolves : (m : Message) (r : Raft) → Evolves r₀ r → Evolves r₀ (Step.follow_app m r)
  unfolding Step.follow_app
  follow_app-Evolves m r h = ground arith

  hup-Evolves : (r : Raft) → Evolves r₀ r → Evolves r₀ (Step.hup r)
  hup-Evolves r h =
      hup-keeps (Evolves r₀) send-Evolves grant_me-Evolves become_leader-Evolves r h
        (become_candidate-Evolves r h)

  Evolves-Keeps : ⦃c : Codec⦄ (m : Message) → Keeps Unit m (Evolves r₀)
  Evolves-Keeps m = record {
    by_step_down = λ t l r _. step_down-Evolves t l r;
    by_send = send-Evolves;
    by_commit_to = λ r _. commit_to-Evolves m.commit r;
    by_hup = λ r _. hup-Evolves r;
    by_handle_vote = handle_vote-Evolves m;
    by_handle_node = handle_node-Evolves m;
    by_bcast_heartbeat = bcast_heartbeat-keeps Evolves-Basics;
    by_append_entry = λ r _. append_entry-keeps Evolves-Basics m.entries r;
    by_bcast_append = bcast_append-keeps Evolves-Basics;
    by_leader_peer = λ t r _ _. leader_peer-keeps Evolves-Basics m t r;
    by_handle_app = λ r _. handle_app-keeps Evolves-Basics m r;
    by_grant_me = λ r v. grant_me-Evolves m.from v r;
    by_become_leader = λ r _. become_leader-Evolves r;
    by_follow = λ r _ _ _. follow-Evolves m r;
    by_follow_app = λ r _. follow_app-Evolves m r;
  }

-- Whatever the message and the role, if `generalStep` has a defined result: the commit index is at
-- least what it was, and the node's id, public table, settings, applied index, offset, snapshot,
-- storage and inbox are unchanged.
pub general_step-Evolves :
    ⦃c : Codec⦄ (m : Message) (r : Raft) → Ensures (Evolves r) (Step.general_step m r)
general_step-Evolves m r = general_step-Meets (Evolves-Keeps r m) r (Evolves-refl r)
