-- ===== src/Raft/Sound/Ahead.antt =====
-- A peer that the leader believes to hold its whole log stays there.
use mathlib.Core.Path.{subst}
use sapphiredb.Base.{
  ℕ, ◌+◌, ◌<◌, ◌≡◌, ◌∙◌, ap, true, Outcome, ok, length, Ensures, Ensures-bind, Ensures-bind_any,
  Bool-cases, inl, inr, ◌==◌, arith, drop_of_length, map, if-Ensures, ltb, [], ◌⊎◌, ==_iff, sym,
  undefined, false,
}
use sapphiredb.Base.Table.{at_or-assign, contains}
use sapphiredb.Proto.{Codec, Message, msg_app_resp}
use sapphiredb.Progress.{
  Progress, zero_progress, maybe_update, become_replicate, become_probe, reset_state,
  set_recent_active,
}
use sapphiredb.Raft.Leader.{
  on_match, leader_app_resp, leader_heartbeat_resp, leader_peer, leader_dispatch, step_leader,
  commit_and_bcast,
}
use sapphiredb.Raft.Sound.{Sound, Tracks}
use sapphiredb.Raft.Sound.Tables.{Tracked-at_or, set_recent_active-Tracks}
use sapphiredb.Raft.{Raft, send, step_leader_function}
use sapphiredb.Raft.Replicate.{
  progress_of, put_progress, send_append, prev_entry, entries_from, update_after_send, bcast_append,
  maybe_commit, message_entry,
}
use sapphiredb.Raft.Log.{commit_to}
use sapphiredb.Raft.Step.{general_step, dispatch, call_step}
use sapphiredb.Raft.Step.Basics.{maybe_commit-Ensures}
use sapphiredb.Raft.Replicate.Append.{entries_from-drop}
use sapphiredb.Raft.Replicate.Loops.{bcast_append-Ensures}

-- The leader's log has `n` entries, which an `int` can count, and it believes that the peer `k` holds
-- them.
pub record Ahead (k n : ℕ) (r : Raft) : Type 0 where
  pub next_eq : (progress_of k r).next ≡ n + 1
  pub length_eq : length r.entries ≡ n
  pub counted : n < 2147483648

Ensures-all {ℓ κ} : {A : Type ℓ} (P : A → Type κ) (m : Outcome A) → ((a : A) → P a) → Ensures P m
Ensures-all P (ok a) h = h a
Ensures-all P undefined h = tt

module _ (k n : ℕ) where
  put_progress-Ahead :
      (to : ℕ) (q : Progress) (r : Raft)
      → ((to == k) ≡ true → q.next ≡ n + 1)
      → Ahead k n r
      → Ahead k n (put_progress to q r)
  unfolding put_progress
  put_progress-Ahead to q r e h = record {
    next_eq = ground (arith, at_or-assign zero_progress to k q r.prs, e, h.next_eq);
    length_eq = h.length_eq;
    counted = h.counted;
  }

  send-Ahead : (m : Message) (r : Raft) → Ahead k n r → Ahead k n (send m r)
  unfolding send
  send-Ahead m r h = ground (arith, h)

  entries_from-Ahead : (r : Raft) → Ahead k n r → entries_from (progress_of k r).next r.entries ≡ []
  entries_from-Ahead r h =
      ap (λ i. entries_from i r.entries) h.next_eq
      ∙ entries_from-drop n r.entries (omega (arith, h.length_eq))
          (omega (arith, h.length_eq, h.counted))
      ∙ ap (map message_entry) (drop_of_length n r.entries h.length_eq)

  sent_next :
      (to : ℕ) (r : Raft)
      → Ahead k n r
      → Ensures
          (λ q. (to == k) ≡ true → q.next ≡ n + 1)
          (update_after_send (entries_from (progress_of to r).next r.entries) (progress_of to r))
  unfolding update_after_send
  sent_next to r h = elim (Bool-cases (to == k)) [
    | inl e ↦
        let same = (==_iff to k).0 e in
        subst
          (λ i.
            Ensures (λ q. (to == k) ≡ true → q.next ≡ n + 1)
              (update_after_send (entries_from (progress_of i r).next r.entries) (progress_of i r)))
          (sym same)
          (let e' : Ensures (λ q. (to == k) ≡ true → q.next ≡ n + 1)
                (update_after_send [] (progress_of k r)) =
              (λ _. h.next_eq) in
            rw (entries_from-Ahead r h) e')
    | inr e ↦
        Ensures-all (λ (q : Progress). (to == k) ≡ true → q.next ≡ n + 1) _
          (λ q f. absurd (ground (arith, e, f)))
  ]

  module _ ⦃c : Codec⦄ where
    send_append-Ahead : (to : ℕ) (r : Raft) → Ahead k n r → Ensures (Ahead k n) (send_append to r)
    unfolding send_append
    send_append-Ahead to r h =
        Ensures-bind_any (Ahead k n) (prev_entry (progress_of to r).next r) _ (λ prev.
          Ensures-bind (λ q. (to == k) ≡ true → q.next ≡ n + 1) (Ahead k n)
            (update_after_send (entries_from (progress_of to r).next r.entries) (progress_of to r))
            _ (sent_next to r h) (λ q e. send-Ahead _ _ (put_progress-Ahead to q r e h)))

    bcast_append-Ahead : (r : Raft) → Ahead k n r → Ensures (Ahead k n) (bcast_append r)
    bcast_append-Ahead = bcast_append-Ensures (Ahead k n) send_append-Ahead

  -- The sender of the message holds the whole log now; or the peer held it before.
  abbrev pub Arrives : Message → Raft → Type 0
  Arrives m r = ((m.from == k) ≡ true) ⊎ Ahead k n r

  put_progress-Arrives :
      (m : Message) (q : Progress) (r : Raft)
      → length r.entries ≡ n
      → n < 2147483648
      → q.next ≡ n + 1
      → Arrives m r
      → Ahead k n (put_progress m.from q r)
  unfolding put_progress
  put_progress-Arrives m q r l b e (inr h) =
      unfold put_progress in put_progress-Ahead m.from q r (λ _. e) h
  put_progress-Arrives m q r l b e (inl f) = record {
    next_eq = ground (arith, at_or-assign zero_progress m.from k q r.prs, f, e);
    length_eq = l;
    counted = b;
  }

-- What a leader believes of a peer that acknowledges its whole log.
news_next :
    (n : ℕ) (p : Progress)
    → Tracks n p
    → n < 2147483648
    → let q = (maybe_update n p).1 in
      (q.next ≡ n + 1) × ((maybe_update n p).0 ≡ true → (on_match q.state q).next ≡ n + 1)
unfolding maybe_update on_match become_replicate become_probe reset_state
news_next n p t b = (ground arith, ground arith)

module _ ⦃c : Codec⦄ (k n : ℕ) (m : Message) where
  commit_to-Ahead : (i : ℕ) (r : Raft) → Ahead k n r → Ensures (Ahead k n) (commit_to i r)
  unfolding commit_to
  commit_to-Ahead i r h = ground (arith, h)

  commit_and_bcast-Ahead : (r : Raft) → Ahead k n r → Ensures (Ahead k n) (commit_and_bcast r)
  unfolding commit_and_bcast
  commit_and_bcast-Ahead r h =
      Ensures-bind (λ res. Ahead k n (res.1)) (Ahead k n) (maybe_commit r) _
        (maybe_commit-Ensures (Ahead k n) commit_to-Ahead r h)
        (λ res a.
          if-Ensures (Ahead k n) (res.0) (bcast_append (res.1)) (ok (res.1))
            (bcast_append-Ahead k n (res.1) a) a)

  leader_app_resp-Ahead :
      (r : Raft)
      → m.reject ≡ false
      → m.index ≡ n
      → length r.entries ≡ n
      → n < 2147483648
      → Tracks n (progress_of m.from r)
      → Arrives k n m r
      → Ensures (Ahead k n) (leader_app_resp m r)
  unfolding leader_app_resp
  leader_app_resp-Ahead r j i l b t a =
      let p = set_recent_active (progress_of m.from r) in
      let u = (maybe_update n p).1 in
      let (e, f) = news_next n p (set_recent_active-Tracks n _ t) b in
      elim (Bool-cases (maybe_update n p).0) [
        | inl g ↦
            simp (j, i, g)
              (commit_and_bcast-Ahead _
                (put_progress-Arrives k n m (on_match u.state u) r l b (f g) a))
        | inr g ↦ simp (j, i, g) (put_progress-Arrives k n m u r l b e a)
      ]

  leader_heartbeat_resp-Ahead :
      (r : Raft) → Ahead k n r → Ensures (Ahead k n) (leader_heartbeat_resp m r)
  unfolding leader_heartbeat_resp set_recent_active
  leader_heartbeat_resp-Ahead r h =
      let p = set_recent_active (progress_of m.from r) in
      let e : (m.from == k) ≡ true → p.next ≡ n + 1 =
        λ f. ap (λ i. (progress_of i r).next) ((==_iff m.from k).0 f) ∙ h.next_eq in
      let h' = put_progress-Ahead k n m.from p r e h in
      if-Ensures (Ahead k n) (ltb p.match r.last_applied)
        (send_append m.from (put_progress m.from p r)) (ok (put_progress m.from p r))
        (send_append-Ahead k n m.from _ h') h'

  leader_dispatch-Ahead :
      (r : Raft)
      → m.reject ≡ false
      → m.index ≡ n
      → length r.entries ≡ n
      → n < 2147483648
      → Sound r
      → contains k r.prs ≡ true
      → Arrives k n m r
      → Ensures (Ahead k n) (leader_dispatch msg_app_resp m r)
  unfolding leader_dispatch leader_peer
  leader_dispatch-Ahead r j i l b v h a = elim (Bool-cases (contains m.from r.prs)) [
    | inl e ↦
        let t = Tracked-at_or (length r.entries) m.from r.prs e v.tracked in
        rw e (
          Ensures-bind (Ahead k n) (Ahead k n) (leader_app_resp m r) _
            (leader_app_resp-Ahead r j i l b (rw l at t) a) leader_heartbeat_resp-Ahead)
    | inr e ↦ rw e (elim a [
      | inl f ↦ absurd (ground (arith, ap (λ i. contains i r.prs) ((==_iff m.from k).0 f), e, h))
      | inr g ↦ g
    ])
  ]

  -- A leader with `n` entries is told by a node that it holds them all. The leader believes then that
  -- the peer `k` holds them, if it did before or if the node is that peer.
  pub general_step-Ahead :
      (r : Raft)
      → r.step ≡ step_leader_function
      → m.type ≡ msg_app_resp
      → m.term ≡ 0
      → m.reject ≡ false
      → m.index ≡ n
      → length r.entries ≡ n
      → n < 2147483648
      → Sound r
      → contains k r.prs ≡ true
      → Arrives k n m r
      → Ensures (Ahead k n) (general_step m r)
  unfolding general_step dispatch call_step step_leader
  general_step-Ahead r s e t j i l b v h a = simp (t, e, s) (leader_dispatch-Ahead r j i l b v h a)
