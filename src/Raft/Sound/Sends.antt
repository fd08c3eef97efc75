-- ===== src/Raft/Sound/Sends.antt =====
-- Sends and broadcasts of a sound node have a defined result, and leave it sound.
use sapphiredb.Base.{
  ℕ, suc, ◌+◌, ◌-◌, ◌≤◌, ◌<◌, ◌≡◌, inl, inr, true, List, [], ◌∷◌, map, IsU64, sub64, length,
  get_elem?-of_lt, ◌==◌, arith, ltb, Returns, Returns-bind, if-Meets, Meets-weaken, leb, length-map,
  length-drop, Bool-cases, drop,
}
use sapphiredb.Base.Table.{contains, length-assign, KeysIn, KeysIn-assign}
use sapphiredb.Proto.{Codec, Entry, Message}
use sapphiredb.Progress.{Progress}
use sapphiredb.Raft.{Raft, send}
use sapphiredb.Raft.Log.{term, maybe_term}
use sapphiredb.Raft.Replicate.{
  progress_of, put_progress, prev_entry, entries_from, message_entry, last_entry_index, after_send,
  update_after_send, send_append, bcast_append,
}
use sapphiredb.Raft.Sound.{Sound, Fits, Tracks, Indexed}
use sapphiredb.Raft.Replicate.Loops.{bcast_append-Returns}
use sapphiredb.Raft.Sound.Tables.{
  Indexed-drop, Indexed-message, drop_of_length-le, Tracked-assign, Tracked-at_or, Indexed-last,
  optimistic_update-Tracks,
}

-- A sound node, and a message that fits it.
pub record Good ⦃c : Codec⦄ (m : Message) (r : Raft) : Type 0 where
  pub sound : Sound r
  pub fits : Fits m r

abbrev pub Any {ℓ} : {A : Type ℓ} → A → Type 0
Any a = Unit {0}

module _ ⦃c : Codec⦄ where
  maybe_term-Returns :
      (i : ℕ) (r : Raft)
      → Sound r
      → 0 < i
      → i ≤ length r.entries
      → IsU64 i
      → Returns Any (maybe_term i r)
  unfolding maybe_term
  maybe_term-Returns i r v p l b =
      let (e, h) = get_elem?-of_lt r.entries (i - 1) (omega arith) in ground (arith, v.from_one, h)

  term-Returns :
      (i : ℕ) (r : Raft) → Sound r → 0 < i → i ≤ length r.entries → IsU64 i → Returns Any (term i r)
  unfolding term
  term-Returns i r v p l b = Returns-bind Any Any _ _ (maybe_term-Returns i r v p l b) (λ t _.
      if-Meets ⊥ Any (ltb 0 t) _ _ tt
        (Returns-bind Any Any _ _ (v.answers i) (λ s _. if-Meets ⊥ Any (ltb 0 s) _ _ tt tt)))

  pub prev_entry-Returns :
      (next : ℕ) (r : Raft)
      → Sound r
      → 0 < next
      → next ≤ length r.entries + 1
      → Returns Any (prev_entry next r)
  unfolding prev_entry
  prev_entry-Returns next r v p l = elim (Bool-cases (sub64 next 1 == 0)) [
    | inl e ↦ rw e tt
    | inr e ↦ rw e (
        Returns-bind Any Any _ _
          (term-Returns (sub64 next 1) r v (ground arith) (omega arith) (omega arith)) (λ t _. tt))
  ]

  update_after_send-Tracks :
      (n i : ℕ) (es : List Entry) (p : Progress)
      → Indexed (suc i) es
      → i + length es ≤ n
      → Tracks n p
      → Returns (Tracks n) (update_after_send es p)
  unfolding update_after_send after_send
  update_after_send-Tracks n i [] p h l v = v
  update_after_send-Tracks n i (e ∷ es) p h l v =
      let last = Indexed-last (suc (suc i)) e.index es (omega (arith, h.0)) h.1 h.2 in
      ground (
        arith,
        optimistic_update-Tracks n (last_entry_index e.index es) p (omega (arith, last.0)) (last.1)
            v,
      )

  pub update_after_send-entries :
      (k : ℕ) (es : List Entry) (p : Progress)
      → Indexed 1 es
      → Tracks (length es) p
      → Returns (Tracks (length es)) (update_after_send (map message_entry (drop k es)) p)
  update_after_send-entries k es p h v = elim (Bool-cases (leb k (length es))) [
    | inl e ↦
        update_after_send-Tracks (length es) k (map message_entry (drop k es)) p
          (Indexed-message (suc k) (drop k es)
            (let e : suc k ≡ k + 1 = omega arith in rw e (Indexed-drop 1 k es h)))
          (ground (arith, length-map message_entry (drop k es), length-drop k es)) v
    | inr e ↦
        rw (drop_of_length-le k es (ground arith))
          (update_after_send-Tracks (length es) 0 [] p tt (omega arith) v)
  ]

  module _ (m : Message) where
    pub send-Good : (n : Message) (r : Raft) → Good m r → Good m (send n r)
    unfolding send
    send-Good n r g = ground arith

    pub put_progress-Good :
        (id : ℕ) (p : Progress) (r : Raft)
        → Tracks (length r.entries) p
        → Good m r
        → Good m (put_progress id p r)
    unfolding put_progress
    put_progress-Good id p r h g = ground (
      arith,
      h,
      Tracked-assign (length r.entries) id p r.prs h g.sound.tracked,
      length-assign id p r.prs,
    )

    pub send_append-Good :
        (to : ℕ) (r : Raft)
        → contains to r.prs ≡ true
        → Good m r
        → Returns (λ s. Good m s × KeysIn r.prs s.prs) (send_append to r)
    unfolding send_append entries_from
    send_append-Good to r a g =
        let v = Tracked-at_or (length r.entries) to r.prs a g.sound.tracked in
        Returns-bind Any (λ s. Good m s × KeysIn r.prs s.prs) _ _
          (prev_entry-Returns (progress_of to r).next r g.sound v.next_pos v.next_le)
          (λ prev _.
            Returns-bind (Tracks (length r.entries)) (λ s. Good m s × KeysIn r.prs s.prs) _ _
              (update_after_send-entries _ r.entries (progress_of to r) g.sound.indexed v)
              (λ q k. (
                send-Good _ (put_progress to q r) (put_progress-Good to q r k g),
                unfold send put_progress in KeysIn-assign to q r.prs,
              )))

    pub bcast_append-Good : (r : Raft) → Good m r → Returns (Good m) (bcast_append r)
    bcast_append-Good = bcast_append-Returns (Good m) send_append-Good

    -- A sound node that knows a peer.
    pub record Knows (id : ℕ) (r : Raft) : Type 0 where
      pub good : Good m r
      pub known : contains id r.prs ≡ true

    pub send_append-Returns :
        (to : ℕ) (r : Raft)
        → contains to r.prs ≡ true
        → Good m r
        → Returns (Good m) (send_append to r)
    send_append-Returns to r a g =
        Meets-weaken ⊥ (λ s. Good m s × KeysIn r.prs s.prs) (Good m) _ (send_append-Good to r a g)
          (λ s h. h.0)

    send_append-Knows :
        (id to : ℕ) (r : Raft)
        → contains to r.prs ≡ true
        → Knows id r
        → Returns (λ s. Knows id s × KeysIn r.prs s.prs) (send_append to r)
    send_append-Knows id to r a g =
        Meets-weaken ⊥ (λ s. Good m s × KeysIn r.prs s.prs) (λ s. Knows id s × KeysIn r.prs s.prs) _
          (send_append-Good to r a g.good)
          (λ s h. (record { good = h.0; known = h.1 id g.known }, h.1))

    pub bcast_append-Knows : (id : ℕ) (r : Raft) → Knows id r → Returns (Knows id) (bcast_append r)
    bcast_append-Knows id = bcast_append-Returns (Knows id) (send_append-Knows id)
