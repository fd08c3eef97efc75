-- ===== src/Raft/Sound/Acknowledged.antt =====
-- What a leader does when a peer tells how much of the log it has taken.
use mathlib.Core.Path.{subst}
use sapphiredb.Base.{
  ℕ, ◌+◌, ◌≤◌, ◌<◌, ◌≡◌, refl, ◌∙◌, ap, true, false, List, [], ◌∷◌, IsU64, length, ltb, Returns,
  sym, Bool-cases, inl, inr, Returns-bind, Meets-weaken, arith, if◌then◌else◌,
}
use sapphiredb.Base.Table.{Table, contains, assign, at_or, contains-assign, length_of_contains}
use sapphiredb.Proto.{Codec, Entry, Message, msg_app_resp}
use sapphiredb.Progress.{
  Progress, maybe_update, set_recent_active, become_probe, become_replicate, reset_state,
  ProgressStateType, progress_state_unset, progress_state_probe, progress_state_replicate,
  progress_state_snapshot,
}
use sapphiredb.Raft.{Raft, step_leader_function}
use sapphiredb.Raft.Replicate.{progress_of, put_progress}
use sapphiredb.Raft.Leader.{on_match, leader_app_resp, leader_peer, leader_dispatch, step_leader}
use sapphiredb.Raft.Step.{general_step, dispatch, call_step}
use sapphiredb.Raft.Tally.{
  Tally, tally, reached, acknowledge, acknowledge-news, acknowledge-old, contains-reached,
  at_or-reached, reached-assign,
}
use sapphiredb.Raft.Sound.{Sound, Tracks}
use sapphiredb.Raft.Sound.Tables.{
  Tracked-at_or, maybe_update-Tracks, on_match-Tracks, set_recent_active-Tracks,
}
use sapphiredb.Raft.Sound.Sends.{Good, put_progress-Good}
use sapphiredb.Raft.Sound.Kept.{
  Kept, known-Kept, put_progress-Kept, leader_heartbeat_resp-Kept, commit_and_bcast-Kept,
}

-- An acknowledgement is news if it is of a greater index, which is then the match.
maybe_update-news :
    (n : ℕ) (q : Progress)
    → ((maybe_update n q).0 ≡ ltb q.match n)
      × ((maybe_update n q).1.match ≡ (if ltb q.match n then n else q.match))
unfolding maybe_update
maybe_update-news n q = ground arith

on_match-match : (s : ProgressStateType) (p : Progress) → (on_match s p).match ≡ p.match
unfolding on_match become_replicate become_probe reset_state
on_match-match progress_state_unset p = refl
on_match-match progress_state_probe p = refl
on_match-match progress_state_replicate p = refl
on_match-match progress_state_snapshot p = ground arith

module _ ⦃c : Codec⦄ (m : Message) where
  -- The progress of the sender after an acknowledgement that is news.
  put_match-Kept :
      (es : List Entry) (t : Table ℕ) (i : ℕ) (q : Progress) (r : Raft)
      → q.match ≡ m.index
      → Tracks (length r.entries) q
      → Kept m es (t, i) r
      → Kept m es (assign m.from m.index t, i) (put_progress m.from q r)
  put_match-Kept es t i q r e w k = record {
    good = put_progress-Good m m.from q r w k.good;
    leads = unfold put_progress in k.leads;
    entries_eq = unfold put_progress in k.entries_eq;
    tally_eq =
        unfold put_progress in
        ap (λ u. (u, r.commit_index)) (reached-assign m.from q r.prs)
        ∙ rw e (ap (λ (x : Tally). (assign m.from m.index x.0, x.1)) k.tally_eq);
  }

  leader_app_resp-Kept :
      (es : List Entry) (t : Table ℕ) (i : ℕ) (r : Raft)
      → m.type ≡ msg_app_resp
      → m.reject ≡ false
      → contains m.from t ≡ true
      → 0 < length r.entries
      → Kept m es (t, i) r
      → Returns (Kept m es (acknowledge m.from m.index (t, i))) (leader_app_resp m r)
  unfolding leader_app_resp
  leader_app_resp-Kept es t i r e j h l k =
      let n = length r.entries in
      let (b, b') = k.good.fits.app_resp e in
      let known = known-Kept m es (t, i) r k h in
      let p = set_recent_active (progress_of m.from r) in
      let w =
        set_recent_active-Tracks n _ (Tracked-at_or n m.from r.prs known k.good.sound.tracked) in
      let u = (maybe_update m.index p).1 in
      let w' = maybe_update-Tracks n m.index p b b' w in
      let (news, held) = maybe_update-news m.index p in
      let own : p.match ≡ at_or 0 m.from t =
        unfold set_recent_active in
        sym (at_or-reached m.from r.prs) ∙ ap (λ (x : Tally). at_or 0 m.from x.0) k.tally_eq in
      elim (Bool-cases (ltb (at_or 0 m.from t) m.index)) [
        | inl f ↦
            let q = on_match u.state u in
            let r₁ = put_progress m.from q r in
            let news' : (maybe_update m.index p).0 ≡ true = news ∙ rw own f in
            let held' : q.match ≡ m.index = on_match-match u.state u ∙ held ∙ rw (own, f) refl in
            let k₁ = put_match-Kept es t i q r held' (on_match-Tracks n u w') k in
            let some_peer : 0 < length r₁.prs =
              unfold put_progress in
              length_of_contains m.from r₁.prs
                (ground (arith, contains-assign m.from m.from q r.prs)) in
            let some_entry : 0 < length r₁.entries = unfold put_progress in l in
            subst (λ x. Returns (Kept m es x) (leader_app_resp m r))
              (sym (acknowledge-news m.from m.index t i h f))
              (simp (j, news')
                (commit_and_bcast-Kept m es (assign m.from m.index t, i) r₁ e some_peer some_entry
                  k₁))
        | inr f ↦
            let old : (maybe_update m.index p).0 ≡ false = news ∙ rw own f in
            let same : u.match ≡ (progress_of m.from r).match =
              unfold set_recent_active in held ∙ rw (own, f) refl in
            subst (λ x. Returns (Kept m es x) (leader_app_resp m r))
              (sym (acknowledge-old m.from m.index t i (ground (arith, h, f))))
              (simp (j, old) (put_progress-Kept m es (t, i) m.from u r known same w' k))
      ]

  dispatch-Kept :
      (es : List Entry) (t : Table ℕ) (i : ℕ) (r : Raft)
      → m.type ≡ msg_app_resp
      → m.reject ≡ false
      → 0 < length r.entries
      → Kept m es (t, i) r
      → Returns (Kept m es (acknowledge m.from m.index (t, i))) (leader_dispatch msg_app_resp m r)
  unfolding leader_dispatch leader_peer
  dispatch-Kept es t i r e j l k =
      let held : contains m.from r.prs ≡ contains m.from t =
        sym (contains-reached m.from r.prs) ∙ ap (λ (x : Tally). contains m.from x.0) k.tally_eq in
      elim (Bool-cases (contains m.from t)) [
        | inl h ↦
            let v' = acknowledge m.from m.index (t, i) in
            rw (held ∙ h) (
              Returns-bind (Kept m es v') (Kept m es v') (leader_app_resp m r) _
                (leader_app_resp-Kept es t i r e j h l k)
                (leader_heartbeat_resp-Kept m es v'
                  (ground (arith, h, contains-assign m.from m.from m.index t))))
        | inr h ↦ rw (held ∙ h) (
            subst (λ x. Kept m es x r)
              (sym (acknowledge-old m.from m.index t i (ground (arith, h)))) k)
      ]

-- A sound leader with entries is told by a node that it holds the log up to an index in it. Then
-- `generalStep` has a defined result, and what the leader knows of its peers and what it has committed
-- change as by `acknowledge`: a known peer that was not known to be so far is at that index now, and
-- the commit index goes up to what every peer has reached; nothing changes otherwise. The log stays
-- as it was, and the node a sound leader; if the message has no term and is no refusal.
pub general_step-acknowledge :
    ⦃c : Codec⦄ (m : Message) (r : Raft)
    → Sound r
    → r.step ≡ step_leader_function
    → m.type ≡ msg_app_resp
    → m.term ≡ 0
    → m.reject ≡ false
    → 0 < length r.entries
    → m.index ≤ length r.entries
    → IsU64 (m.index + 1)
    → Returns
        (λ s.
          (tally s ≡ acknowledge m.from m.index (tally r))
          × (s.entries ≡ r.entries)
          × (s.step ≡ step_leader_function)
          × Sound s)
        (general_step m r)
unfolding general_step dispatch call_step step_leader
general_step-acknowledge m r v s e t j l b b' =
    let g : Good m r = record { sound = v; fits = ground arith } in
    let k : Kept m r.entries (tally r) r = record {
      good = g;
      leads = s;
      entries_eq = refl;
      tally_eq = refl;
    } in
    simp (t, e, s)
      (Meets-weaken ⊥ (Kept m r.entries (acknowledge m.from m.index (tally r))) _ _
        (dispatch-Kept m r.entries (reached r.prs) r.commit_index r e j l k)
        (λ s a. (a.tally_eq, a.entries_eq, a.leads, a.good.sound)))

-- A leader that knows one peer and is told by it, for the first time, that it holds the log up to an
-- index behind the commit index: it has a defined result, its commit index is that index, the peer is
-- known to hold as much, and its log is as it was; if the leader is sound and the message, which
-- carries no term, tells of an index in the log.
pub general_step-commits :
    ⦃c : Codec⦄ (m : Message) (r : Raft) (p : Progress)
    → Sound r
    → r.step ≡ step_leader_function
    → r.prs ≡ (m.from, p) ∷ []
    → m.type ≡ msg_app_resp
    → m.term ≡ 0
    → m.reject ≡ false
    → p.match < m.index
    → r.commit_index < m.index
    → m.index ≤ length r.entries
    → IsU64 (m.index + 1)
    → Returns
        (λ s.
          (s.commit_index ≡ m.index)
          × ((progress_of m.from s).match ≡ m.index)
          × (s.entries ≡ r.entries))
        (general_step m r)
general_step-commits m r p v s f e t j l c b b' =
    let one : tally r ≡ ((m.from, p.match) ∷ [], r.commit_index) =
      ap (λ x. (reached x, r.commit_index)) f in
    let news : acknowledge m.from m.index (tally r) ≡ ((m.from, m.index) ∷ [], m.index) =
      rw one (ground (arith, l, c)) in
    Meets-weaken ⊥
      (λ s.
        (tally s ≡ acknowledge m.from m.index (tally r))
        × (s.entries ≡ r.entries)
        × (s.step ≡ step_leader_function)
        × Sound s)
      _ _ (general_step-acknowledge m r v s e t j (omega arith) b b')
      (λ s (a, k, _, _). (
        ap (λ (x : Tally). x.1) (a ∙ news),
        sym (at_or-reached m.from s.prs)
            ∙ ap (λ (x : Tally). at_or 0 m.from x.0) (a ∙ news)
            ∙ ground arith,
        k,
      ))
