-- ===== src/Raft/Step/Rule.antt =====
-- How to show that a message keeps a predicate: it is enough that each part of a handler does.
use sapphiredb.Base.{
  ℕ, ◌≤◌, ◌≡◌, refl, sym, ◌⊎◌, inl, inr, Bool, true, not, Meets, Meets-bind, Bool-cases, arith,
  ◌&&◌, ◌<◌,
}
use sapphiredb.Base.Table.{contains}
use sapphiredb.Proto.{
  Codec, Message, MessageType, msg_heartbeat, msg_vote, msg_vote_resp, msg_app, msg_hup,
  msg_check_quorum, msg_transfer_leader, msg_node, msg_beat, msg_prop,
}
use sapphiredb.Raft.{
  Raft, StepFunction, step_leader_function, step_candidate_function, step_follower_function,
  step_down, become_leader, send,
}
use sapphiredb.Raft.Log.{commit_to}
use sapphiredb.Raft.Members.{grant_me}
use sapphiredb.Raft.Replicate
use sapphiredb.Raft.Step
use sapphiredb.Raft.Step.{call_step, dispatch, general_step}

-- The message carries no term, or the node's.
abbrev pub IsCurrent : Message → Raft → Type 0
IsCurrent m r = (m.term ≡ 0) ⊎ (m.term ≡ r.current_term)

pub record Keeps ⦃c : Codec⦄ (U : Type 0) (m : Message) (P : Raft → Type 0) : Type 0 where
  pub by_step_down : (t l : ℕ) (r : Raft) → r.current_term ≤ t → P r → P (step_down t l r)
  pub by_send : (n : Message) (r : Raft) → P r → P (send n r)
  pub by_commit_to : (r : Raft) → m.type ≡ msg_heartbeat → P r → Meets U P (commit_to m.commit r)
  pub by_hup : (r : Raft) → m.type ≡ msg_hup → P r → P (Step.hup r)
  pub by_handle_vote : (r : Raft) → P r → P (Step.handle_vote m r)
  pub by_handle_node : (r : Raft) → P r → P (Step.handle_node m r)
  pub by_bcast_heartbeat : (r : Raft) → P r → Meets U P (Replicate.bcast_heartbeat r)
  pub by_append_entry :
      (r : Raft) → m.type ≡ msg_prop → P r → Meets U P (Replicate.append_entry m.entries r)
  pub by_bcast_append : (r : Raft) → P r → Meets U P (Replicate.bcast_append r)
  pub by_leader_peer :
      (t : MessageType) (r : Raft)
      → m.type ≡ t
      → contains m.from r.prs ≡ true
      → P r
      → Meets U P (Step.leader_peer t m r)
  pub by_handle_app : (r : Raft) → m.type ≡ msg_app → P r → P (Step.handle_app m r)
  pub by_grant_me : (r : Raft) (v : Bool) → P r → P (grant_me m.from v r).1
  pub by_become_leader : (r : Raft) → r.step ≡ step_candidate_function → P r → P (become_leader r)
  pub by_follow :
      (r : Raft)
      → r.step ≡ step_follower_function
      → m.type ≡ msg_heartbeat
      → IsCurrent m r
      → P r
      → P (Step.follow m r)
  pub by_follow_app : (r : Raft) → r.step ≡ step_follower_function → P r → P (Step.follow_app m r)

pub current_term-step_down : (t l : ℕ) (r : Raft) → (step_down t l r).current_term ≡ t
unfolding step_down
current_term-step_down t l r = ground arith

module _ ⦃c : Codec⦄ {U : Type 0} {m : Message} {P : Raft → Type 0} (k : Keeps U m P) where
  leader_dispatch-Meets :
      (t : MessageType) (r : Raft) → m.type ≡ t → P r → Meets U P (Step.leader_dispatch t m r)
  unfolding Step.leader_dispatch
  leader_dispatch-Meets msg_beat r y h = k.by_bcast_heartbeat r h
  leader_dispatch-Meets msg_prop r y h =
      Meets-bind U P P _ _ (k.by_append_entry r y h) k.by_bcast_append
  leader_dispatch-Meets msg_check_quorum r y h =
      ground (arith, k.by_step_down r.current_term 0 r (omega arith) h)
  leader_dispatch-Meets t r y h = elim (Bool-cases (contains m.from r.prs)) [
    | inl e ↦ rw e (k.by_leader_peer t r y e h)
    | inr e ↦ rw e h
  ]

  candidate_vote_resp-Meets :
      (r : Raft) → r.step ≡ step_candidate_function → P r → Meets U P (Step.candidate_vote_resp m r)
  unfolding Step.candidate_vote_resp
  candidate_vote_resp-Meets r s h =
      let r' = (grant_me m.from (not m.reject) r).1 in
      let h' = k.by_grant_me r (not m.reject) h in
      ground (
        arith,
        k.by_bcast_append (become_leader r') (k.by_become_leader r' (unfold grant_me in s) h'),
        k.by_step_down r'.current_term 0 r' (omega arith) h',
        h',
      )

  candidate_dispatch-Meets :
      (t : MessageType) (r : Raft)
      → m.type ≡ t
      → r.step ≡ step_candidate_function
      → P r
      → Meets U P (Step.candidate_dispatch t m r)
  unfolding Step.candidate_dispatch
  candidate_dispatch-Meets msg_heartbeat r y s h =
      Meets-bind U P P _ _
        (k.by_commit_to _ y (k.by_step_down r.current_term m.from r (omega arith) h))
        (λ r'. k.by_send _ r')
  candidate_dispatch-Meets msg_app r y s h =
      k.by_handle_app _ y (k.by_step_down r.current_term m.from r (omega arith) h)
  candidate_dispatch-Meets msg_vote_resp r y s h = candidate_vote_resp-Meets r s h
  candidate_dispatch-Meets _ r y s h = h

  follower_dispatch-Meets :
      (t : MessageType) (r : Raft)
      → m.type ≡ t
      → r.step ≡ step_follower_function
      → IsCurrent m r
      → P r
      → Meets U P (Step.follower_dispatch t m r)
  unfolding Step.follower_dispatch
  follower_dispatch-Meets msg_heartbeat r e s i h =
      Meets-bind U P P _ _ (k.by_commit_to _ e (k.by_follow r s e i h)) (λ r'. k.by_send _ r')
  follower_dispatch-Meets msg_app r e s i h = k.by_handle_app _ e (k.by_follow_app r s h)
  follower_dispatch-Meets msg_transfer_leader r e s i h =
      ground (arith, h, k.by_send (record m { to = r.leader }) r h)
  follower_dispatch-Meets _ r e s i h = h

  call_step-Meets :
      (f : StepFunction) (r : Raft) → r.step ≡ f → IsCurrent m r → P r → Meets U P (call_step f m r)
  unfolding call_step Step.step_leader Step.step_candidate Step.step_follower
  call_step-Meets step_leader_function r s i h = leader_dispatch-Meets m.type r refl h
  call_step-Meets step_candidate_function r s i h = candidate_dispatch-Meets m.type r refl s h
  call_step-Meets step_follower_function r s i h = follower_dispatch-Meets m.type r refl s i h

  dispatch-Meets :
      (t : MessageType) (r : Raft) → m.type ≡ t → IsCurrent m r → P r → Meets U P (dispatch t m r)
  unfolding dispatch
  dispatch-Meets msg_hup r e i h = k.by_hup r e h
  dispatch-Meets msg_vote r e i h = k.by_handle_vote r h
  dispatch-Meets msg_node r e i h = k.by_handle_node r h
  dispatch-Meets _ r e i h = call_step-Meets r.step r refl i h

  stale-keeps : (r : Raft) → P r → P (Step.stale m r)
  unfolding Step.stale
  stale-keeps r h = elim (Bool-cases (r.check_quorum && Step.is_heartbeat_or_app m.type)) [
    | inl e ↦ rw e (k.by_send _ r h)
    | inr e ↦ rw e h
  ]

  newer-Meets :
      (r : Raft)
      → r.current_term < m.term
      → P r
      → Meets U P (dispatch m.type m (step_down m.term m.from r))
  newer-Meets r lt h =
      dispatch-Meets m.type _ refl (inr (sym (current_term-step_down m.term m.from r)))
        (k.by_step_down m.term m.from r (omega arith) h)

  -- A message keeps what all its handlers keep.
  pub general_step-Meets : (r : Raft) → P r → Meets U P (general_step m r)
  unfolding general_step
  general_step-Meets r h =
      ground (arith, h, stale-keeps r h, newer-Meets r, dispatch-Meets m.type r refl)
