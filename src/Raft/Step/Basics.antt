-- ===== src/Raft/Step/Basics.antt =====
-- Predicates that do not look at the progress of the peers, the entries or the queues: most of a
-- handler keeps them at once.
use sapphiredb.Base.{
  ℕ, List, Ensures, Ensures-bind, arith, inl, inr, ltb, Bool-cases, ◌==◌, Ensures-bind_any,
  if-Ensures, if-keeps, map, leb, length, ◌&&◌,
}
use sapphiredb.Proto.{Bytes, Codec, Entry, Message, MessageType, msg_app_resp, msg_heartbeat_resp}
use sapphiredb.Progress.{Progress}
use sapphiredb.Raft.{Raft, send, set_ready}
use sapphiredb.Raft.Log.{commit_to, maybe_append}
use sapphiredb.Raft.Replicate.{
  put_progress, send_heartbeat, bcast_heartbeat, send_append, bcast_append, maybe_commit,
  append_entry, commit_candidate, commit_at,
}
use sapphiredb.Raft.Replicate.Loops.{bcast_heartbeat-Ensures, bcast_append-Ensures}
use sapphiredb.Raft.Step.{
  commit_and_bcast, leader_app_resp, leader_heartbeat_resp, leader_peer, handle_app, stored_entry,
}

pub record Basics (P : Raft → Type 0) : Type 0 where
  pub on_send : (n : Message) (r : Raft) → P r → P (send n r)
  pub on_progress : (id : ℕ) (p : Progress) (r : Raft) → P r → P (put_progress id p r)
  pub on_entries : (es : List Entry) (r : Raft) → P r → P (record r { entries = es })
  pub on_ready : (r : Raft) → P r → P (set_ready r)
  pub on_commit : (i : ℕ) (r : Raft) → P r → Ensures P (commit_to i r)

module _ (P : Raft → Type 0)
    (on_commit : (i : ℕ) (r : Raft) → P r → Ensures P (commit_to i r)) where
  commit_at-Ensures : (i : ℕ) (r : Raft) → P r → Ensures (λ res. P (res.1)) (commit_at i r)
  unfolding commit_at
  commit_at-Ensures i r h = elim (Bool-cases (ltb r.commit_index i)) [
    | inl e ↦
        rw e (Ensures-bind P (λ res. P (res.1)) (commit_to i r) _ (on_commit i r h) (λ r' k. k))
    | inr e ↦ rw e h
  ]

  pub maybe_commit-Ensures : (r : Raft) → P r → Ensures (λ res. P (res.1)) (maybe_commit r)
  unfolding maybe_commit
  maybe_commit-Ensures r h =
      Ensures-bind_any (λ res. P (res.1)) (commit_candidate r) _ (λ i. commit_at-Ensures i r h)

module _ {P : Raft → Type 0} (b : Basics P) where
  pub send_heartbeat-keeps : (to : ℕ) (ctx : Bytes) (r : Raft) → P r → P (send_heartbeat to ctx r)
  unfolding send_heartbeat
  send_heartbeat-keeps to ctx r h = b.on_send _ _ (b.on_progress to _ r h)

  pub bcast_heartbeat-keeps : (r : Raft) → P r → Ensures P (bcast_heartbeat r)
  bcast_heartbeat-keeps = bcast_heartbeat-Ensures P send_heartbeat-keeps

  maybe_commit-keeps : (r : Raft) → P r → Ensures (λ res. P (res.1)) (maybe_commit r)
  maybe_commit-keeps = maybe_commit-Ensures P b.on_commit

  pub append_entry-keeps : (es : List Entry) (r : Raft) → P r → Ensures P (append_entry es r)
  unfolding append_entry
  append_entry-keeps es r h =
      Ensures-bind (λ res. P (res.1)) P _ _ (maybe_commit-keeps _ (b.on_entries _ r h))
        (λ res k. b.on_ready _ k)

  maybe_append-keeps :
      (i t k : ℕ) (es : List Entry) (r : Raft) → P r → P (maybe_append i t k es r).1
  unfolding maybe_append
  maybe_append-keeps i t k es r h =
      elim (Bool-cases (leb i (length r.entries) && r.current_term == t)) [
        | inl e ↦ rw e (b.on_entries _ r h)
        | inr e ↦ rw e h
      ]

  pub handle_app-keeps : (m : Message) (r : Raft) → P r → P (handle_app m r)
  unfolding handle_app
  handle_app-keeps m r h =
      let h' = maybe_append-keeps m.index m.log_term m.commit (map stored_entry m.entries) r h in
      if-keeps P (ltb m.index r.commit_index) _ _ (b.on_send _ r h)
        (if-keeps P _ _ _ (b.on_ready _ (b.on_send _ _ h')) (b.on_send _ _ h'))

module _ ⦃c : Codec⦄ {P : Raft → Type 0} (b : Basics P) where
  pub send_append-keeps : (to : ℕ) (r : Raft) → P r → Ensures P (send_append to r)
  unfolding send_append
  send_append-keeps to r h = search (Ensures-bind_any, b.on_send, b.on_progress)

  pub bcast_append-keeps : (r : Raft) → P r → Ensures P (bcast_append r)
  bcast_append-keeps = bcast_append-Ensures P send_append-keeps

  pub commit_and_bcast-keeps : (r : Raft) → P r → Ensures P (commit_and_bcast r)
  unfolding commit_and_bcast
  commit_and_bcast-keeps r h =
      Ensures-bind (λ res. P (res.1)) P _ _ (maybe_commit-keeps b r h)
        (λ res k. ground (arith, k, bcast_append-keeps (res.1) k))

  leader_app_resp-keeps : (m : Message) (r : Raft) → P r → Ensures P (leader_app_resp m r)
  unfolding leader_app_resp
  leader_app_resp-keeps m r h = search (if-Ensures, commit_and_bcast-keeps, b.on_progress)

  leader_heartbeat_resp-keeps :
      (m : Message) (r : Raft) → P r → Ensures P (leader_heartbeat_resp m r)
  unfolding leader_heartbeat_resp
  leader_heartbeat_resp-keeps m r h = search (if-Ensures, send_append-keeps, b.on_progress)

  pub leader_peer-keeps :
      (m : Message) (t : MessageType) (r : Raft) → P r → Ensures P (leader_peer t m r)
  unfolding leader_peer
  leader_peer-keeps m msg_app_resp r h =
      Ensures-bind P P _ _ (leader_app_resp-keeps m r h) (leader_heartbeat_resp-keeps m)
  leader_peer-keeps m msg_heartbeat_resp r h = leader_heartbeat_resp-keeps m r h
  leader_peer-keeps m _ r h = h
