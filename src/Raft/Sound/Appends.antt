-- ===== src/Raft/Sound/Appends.antt =====
-- The log and the commit index of a sound node: they move to a defined result, and it stays sound.
use sapphiredb.Base.{
  ℕ, suc, ◌+◌, ◌≤◌, ◌<◌, ◌≡◌, refl, ◌⊎◌, inl, inr, ◌&&◌, List, ◌++◌, map, length, length-map,
  length-append, length-take, take, get_elem?-of_lt, ◌==◌, arith, leb, ltb, Returns, Returns-bind,
  Bool-cases, Meets-weaken, is_empty_of_pos, ◌∙◌,
}
use sapphiredb.Base.Sorting.{sort, length-sort, sort-AllTo, AllTo-get_elem?}
use sapphiredb.Proto.{Codec, Entry, Message, msg_heartbeat, msg_app, msg_prop}
use sapphiredb.Raft.{Raft, quorum}
use sapphiredb.Raft.Log.{commit_to, maybe_append}
use sapphiredb.Raft.Replicate.{
  maybe_commit, commit_candidate, commit_at, append_entry, number_entries,
}
use sapphiredb.Raft.Step.{stored_entry}
use sapphiredb.Raft.Sound.{Sound, Indexed}
use sapphiredb.Raft.Sound.Tables.{
  Tracked-mono, Indexed-append, Indexed-take, Indexed-stored, Indexed-number_entries, Tracked-AllTo,
}
use sapphiredb.Raft.Sound.Sends.{Good}
use sapphiredb.Raft.Sound.Roles.{set_ready-Good}

module _ ⦃c : Codec⦄ (m : Message) where
  -- The commit index may move if the log is not empty.
  pub commit_to-Returns :
      (i : ℕ) (r : Raft)
      → Good m r
      → (0 < length r.entries) ⊎ (i ≤ r.commit_index)
      → Returns (λ s. Good m s × (s.prs ≡ r.prs)) (commit_to i r)
  unfolding commit_to
  commit_to-Returns i r g (inl h) = rw (is_empty_of_pos r.entries h) (ground arith)
  commit_to-Returns i r g (inr h) = ground arith

  pub commit_to-Good :
      (r : Raft) → m.type ≡ msg_heartbeat → Good m r → Returns (Good m) (commit_to m.commit r)
  commit_to-Good r e g =
      Meets-weaken ⊥ _ (Good m) _ (commit_to-Returns m.commit r g (g.fits.heartbeat e)) (λ s h. h.0)

  pub commit_candidate-Returns :
      (r : Raft)
      → Sound r
      → 0 < length r.prs
      → Returns (λ k. k ≤ length r.entries) (commit_candidate r)
  unfolding commit_candidate quorum
  commit_candidate-Returns r v p =
      let l = length-sort (map (λ e. e.1.match) r.prs) ∙ length-map (λ e. e.1.match) r.prs in
      let (k, h) = get_elem?-of_lt (sort (map (λ e. e.1.match) r.prs)) 0 (omega (arith, l)) in
      rw (v.alone, h)
        (AllTo-get_elem? (length r.entries) _ 0 k
          (sort-AllTo (length r.entries) _ (Tracked-AllTo (length r.entries) r.prs v.tracked)) h)

  pub maybe_commit-Good :
      (r : Raft)
      → Good m r
      → 0 < length r.prs
      → Returns (λ res. Good m (res.1) × ((res.1).prs ≡ r.prs)) (maybe_commit r)
  unfolding maybe_commit commit_at
  maybe_commit-Good r g p =
      Returns-bind (λ k. k ≤ length r.entries) (λ res. Good m (res.1) × ((res.1).prs ≡ r.prs)) _ _
        (commit_candidate-Returns r g.sound p)
        (λ k l. elim (Bool-cases (ltb r.commit_index k)) [
          | inl e ↦ rw e (
              Returns-bind (λ s. Good m s × (s.prs ≡ r.prs)) _ _ _
                (commit_to-Returns k r g (inl (ground arith))) (λ s h. h))
          | inr e ↦ rw e (g, refl)
        ])

  -- The log may grow, if no `MsgApp` is handled or it takes it as far as it reaches.
  pub entries-Good :
      (es : List Entry) (r : Raft)
      → Good m r
      → length r.entries ≤ length es
      → Indexed 1 es
      → (m.type ≡ msg_app → length es ≤ m.index + length m.entries)
      → Good m (record r { entries = es })
  entries-Good es r g l i a = record {
    sound = ground (arith, i, Tracked-mono (length r.entries) (length es) r.prs l g.sound.tracked);
    fits = record {
      heartbeat = λ e. ground (arith, g.fits.heartbeat e);
      prop = g.fits.prop;
      app_resp = λ e. omega (arith, g.fits.app_resp e);
      app = λ e. ((g.fits.app e).0, a e);
    };
  }

  pub append_entry-Good :
      (r : Raft) → m.type ≡ msg_prop → Good m r → Returns (Good m) (append_entry m.entries r)
  unfolding append_entry
  append_entry-Good r e g =
      let new = number_entries r.current_term r.last_applied m.entries in
      let (p, b) = g.fits.prop e in
      let l = length-append r.entries new in
      Returns-bind (λ res. Good m (res.1) × ((res.1).prs ≡ r.prs)) (Good m) _ _
        (maybe_commit-Good (record r { entries = r.entries ++ new })
          (entries-Good (r.entries ++ new) r g (omega (arith, l))
            (Indexed-append 1 r.entries new g.sound.indexed (
              Indexed-number_entries r.current_term r.last_applied (1 + length r.entries) m.entries
                (omega (arith, g.sound.applied_le)) b))
            (λ f. absurd (ground (arith, e, f))))
          p)
        (λ res h. set_ready-Good m (res.1) h.0)

  pub maybe_append-Good :
      (r : Raft)
      → m.type ≡ msg_app
      → Good m r
      → Good m (maybe_append m.index m.log_term m.commit (map stored_entry m.entries) r).1
  unfolding maybe_append
  maybe_append-Good r e g =
      let new = map stored_entry m.entries in
      let (i, l) = g.fits.app e in
      elim (Bool-cases (leb m.index (length r.entries) && r.current_term == m.log_term)) [
        | inl t ↦
            let reach : m.index ≤ length r.entries = ground arith in
            let kept : length (take m.index r.entries) ≡ m.index =
              omega (arith, length-take m.index r.entries) in
            let all : length (take m.index r.entries ++ new) ≡ m.index + length m.entries = omega (
              arith,
              length-append (take m.index r.entries) new,
              length-map stored_entry m.entries,
            ) in
            rw t (
              entries-Good (take m.index r.entries ++ new) r g (omega arith)
                (Indexed-append 1 (take m.index r.entries) new
                  (Indexed-take 1 m.index r.entries g.sound.indexed)
                  (let e : 1 + length (take m.index r.entries) ≡ suc m.index = omega arith in
                    rw e (Indexed-stored (suc m.index) m.entries i)))
                (λ _. omega arith))
        | inr t ↦ rw t g
      ]
