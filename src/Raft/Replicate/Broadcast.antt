-- ===== src/Raft/Replicate/Broadcast.antt =====
-- What a broadcast of entries puts into the queue.
use mathlib.Core.List.{append-nil, append_assoc}
use sapphiredb.Base.{
  ℕ, zero, suc, ◌-◌, ◌≤◌, ◌≡◌, refl, sym, ap, ◌∙◌, Bool-cases, inl, inr, ◌||◌, none, some, List, [],
  ◌∷◌, ◌++◌, ok, length, get_elem?-of_lt, ◌==◌, if◌then◌else◌, arith,
}
use sapphiredb.Base.Table.{Table, assign, Distinct, Agree, Agree-assign, Agree-self}
use sapphiredb.Proto.{Codec, Message}
use sapphiredb.Progress.{Progress, zero_progress}
use sapphiredb.Raft.{Raft, send}
use sapphiredb.Raft.Replicate.{put_progress, for_each_progress, append_to_peer, bcast_append}
use sapphiredb.Raft.Replicate.Append.{IsPlain, prev_term, app_message, send_append_lem}
use sapphiredb.Raft.Sound.{Tracked}

-- The term that goes with the entries after the first `n`, where there is one.
abbrev pub prev_or : ℕ → Raft → ℕ
prev_or n r = elim (prev_term n r) [ none ↦ 0 | some t ↦ t ]

pub prev_or_lem : (n : ℕ) (r : Raft) → n ≤ length r.entries → prev_term n r ≡ some (prev_or n r)
prev_or_lem zero r h = refl
prev_or_lem (suc n) r h =
    let (e, g) = get_elem?-of_lt r.entries n (omega arith) in ground (arith, g)

-- One `MsgApp` for each peer of a table but the node's own id and 0, with the entries from the peer's
-- next one on.
unfoldable pub appends : Raft → Table Progress → List Message
appends r [] = []
appends r ((id, p) ∷ t) =
    if id == r.id || id == 0
    then appends r t
    else app_message id (p.next - 1) (prev_or (p.next - 1) r) r ∷ appends r t

module _ ⦃c : Codec⦄ (r : Raft) (plain : IsPlain r) where
  abbrev at_work : Table Progress → List Message → Raft
  at_work u ms = record r { prs = u; sendmsgs = ms }

  at_work-IsPlain : (u : Table Progress) (ms : List Message) → IsPlain (at_work u ms)
  at_work-IsPlain u ms = record {
    from_one = plain.from_one;
    counted = plain.counted;
    termed = plain.termed;
  }

  prev_term-at_work :
      (n : ℕ) (u : Table Progress) (ms : List Message) → prev_term n (at_work u ms) ≡ prev_term n r
  prev_term-at_work zero u ms = refl
  prev_term-at_work (suc n) u ms = refl

  loop-appends :
      (t u : Table Progress) (ms : List Message)
      → Distinct t
      → Agree zero_progress t u
      → Tracked (length r.entries) t
      → (w : Table Progress) × (for_each_progress append_to_peer t (at_work u ms)
          ≡ ok (at_work w (ms ++ appends r t)))
  unfolding for_each_progress append_to_peer appends send put_progress
  loop-appends [] u ms d a k = (u, ap (λ x. ok (at_work u x)) (sym (append-nil ms)))
  loop-appends ((id, p) ∷ t) u ms d a k = elim (Bool-cases (id == r.id || id == 0)) [
    | inl e ↦ let (w, f) = loop-appends t u ms d.1 a.1 k.1 in (w, rw e f)
    | inr e ↦
        let n = p.next - 1 in
        let m = app_message id n (prev_or n r) r in
        let le : n ≤ length r.entries = omega (arith, k.0.next_le, k.0.next_pos) in
        let (q, f) =
          send_append_lem id n (prev_or n r) (at_work u ms) (at_work-IsPlain u ms)
            (ap (λ (x : Progress). x.next) a.0 ∙ omega (arith, k.0.next_pos)) (rw a.0 k.0.is_set) le
            (prev_term-at_work n u ms ∙ prev_or_lem n r le) in
        let (w, g) =
          loop-appends t (assign id q u) (ms ++ m ∷ []) d.1
            (Agree-assign zero_progress id q t u d.0 a.1) k.1 in
        (w, rw (e, f) (g ∙ rw (append_assoc ms (m ∷ []) (appends r t)) refl))
  ]

  -- A broadcast of a plain log to peers that are each in the table once and point into the log has a
  -- defined result: it queues for each peer, in the order of the table and the node's own id and 0
  -- aside, one `MsgApp` with all entries from the peer's next one on and the index and term before
  -- them, and changes only the table besides.
  pub bcast_append-appends :
      Distinct r.prs
      → Tracked (length r.entries) r.prs
      → (u : Table Progress) × (bcast_append r
          ≡ ok (record r { prs = u; sendmsgs = r.sendmsgs ++ appends r r.prs }))
  unfolding bcast_append
  bcast_append-appends d k =
      loop-appends r.prs r.prs r.sendmsgs d (Agree-self zero_progress r.prs d) k
