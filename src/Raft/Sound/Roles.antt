-- ===== src/Raft/Sound/Roles.antt =====
-- The handlers of a sound node that only answer, or change its role or its table, leave it sound.
use sapphiredb.Base.{ℕ, inl, inr, Bool, length, arith, Returns, Bool-cases}
use sapphiredb.Base.Table.{contains}
use sapphiredb.Proto.{Codec, Message}
use sapphiredb.Raft.{Raft, set_ready, step_down, become_candidate, become_leader}
use sapphiredb.Raft.Members.{grant_me, add_node, push_unknownid, new_progress}
use sapphiredb.Raft.Replicate.{put_progress, bcast_heartbeat}
use sapphiredb.Raft.Replicate.Heartbeats.{bcast_heartbeat_lem}
use sapphiredb.Raft.Step.{hup, handle_vote, handle_node, follow, follow_app}
use sapphiredb.Raft.Step.Requests.{hup-keeps}
use sapphiredb.Raft.Sound.Tables.{new_progress-Tracks}
use sapphiredb.Raft.Sound.Sends.{Good, send-Good, put_progress-Good}

module _ ⦃c : Codec⦄ (m : Message) where
  pub step_down-Good : (t l : ℕ) (r : Raft) → Good m r → Good m (step_down t l r)
  unfolding step_down
  step_down-Good t l r g = ground arith

  pub become_candidate-Good : (r : Raft) → Good m r → Good m (become_candidate r)
  unfolding become_candidate
  become_candidate-Good r g = ground arith

  pub become_leader-Good : (r : Raft) → Good m r → Good m (become_leader r)
  unfolding become_leader
  become_leader-Good r g = ground arith

  pub grant_me-Good : (id : ℕ) (v : Bool) (r : Raft) → Good m r → Good m (grant_me id v r).1
  unfolding grant_me
  grant_me-Good id v r g = ground arith

  pub hup-Good : (r : Raft) → Good m r → Good m (hup r)
  hup-Good r g =
      hup-keeps (Good m) (send-Good m) grant_me-Good become_leader-Good r g
        (become_candidate-Good r g)

  pub handle_vote-Good : (r : Raft) → Good m r → Good m (handle_vote m r)
  unfolding handle_vote
  handle_vote-Good r g = ground arith

  pub add_node-Good : (id : ℕ) (r : Raft) → Good m r → Good m (add_node id r)
  unfolding add_node
  add_node-Good id r g = elim (Bool-cases (contains id r.prs)) [
    | inl e ↦ rw e g
    | inr e ↦ rw e (
        unfold put_progress in
        put_progress-Good m id (new_progress r.last_applied) r
          (new_progress-Tracks (length r.entries) r.last_applied g.sound.applied_le
            g.sound.applied_fits)
          g)
  ]

  pub push_unknownid-Good : (id : ℕ) (r : Raft) → Good m r → Good m (push_unknownid id r)
  unfolding push_unknownid
  push_unknownid-Good id r g = ground arith

  pub handle_node-Good : (r : Raft) → Good m r → Good m (handle_node m r)
  unfolding handle_node
  handle_node-Good r g = send-Good m _ _ (push_unknownid-Good m.from _ (add_node-Good m.from r g))

  pub bcast_heartbeat-Good : (r : Raft) → Good m r → Returns (Good m) (bcast_heartbeat r)
  bcast_heartbeat-Good r g = rw (bcast_heartbeat_lem r) (ground arith)

  pub follow-Good : (r : Raft) → Good m r → Good m (follow m r)
  unfolding follow
  follow-Good r g = ground arith

  pub follow_app-Good : (r : Raft) → Good m r → Good m (follow_app m r)
  unfolding follow_app
  follow_app-Good r g = ground arith

  pub set_ready-Good : (r : Raft) → Good m r → Good m (set_ready r)
  unfolding set_ready
  set_ready-Good r g = ground arith
