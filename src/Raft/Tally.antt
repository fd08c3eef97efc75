-- ===== src/Raft/Tally.antt =====
-- What a leader knows of its peers and what it has committed, as an acknowledgement changes it: for
-- each peer the index up to which it is known to hold the log, and the commit index.
pub mod All
use sapphiredb.Base.{
  ℕ, suc, ◌<◌, ◌≡◌, refl, ap, ◌&&◌, false, get_elem?, some, Bool-cases, inl, inr, ltb→lt, true,
  List, [], ◌∷◌, ok, ltb, if◌then◌else◌, length, max, map, arith, is_empty_of_pos,
}
use sapphiredb.Base.Sorting.{least, sort, sort_head}
use sapphiredb.Base.Table.{Distinct, Table, contains, assign, at_or}
use sapphiredb.Progress.{Progress, zero_progress}
use sapphiredb.Raft.{Raft, quorum}
use sapphiredb.Raft.Log.{commit_to}
use sapphiredb.Raft.Replicate.{maybe_commit, commit_candidate, commit_at}

abbrev pub reached : Table Progress → Table ℕ
reached t = map (λ e. (e.0, e.1.match)) t

abbrev pub Tally : Type 0
Tally = Table ℕ × ℕ

abbrev pub tally : Raft → Tally
tally r = (reached r.prs, r.commit_index)

-- The index that every peer has reached.
abbrev pub least_reached : Table ℕ → ℕ
least_reached [] = 0
least_reached ((id, k) ∷ t) = least k (map (λ e. e.1) t)

-- A known peer is told to hold the log up to `n`, further than it was known to. What all peers have
-- reached is committed then.
abbrev pub acknowledge : ℕ → ℕ → Tally → Tally
acknowledge id n (t, i) =
    if contains id t && ltb (at_or 0 id t) n
    then (assign id n t, max i (least_reached (assign id n t)))
    else (t, i)

pub acknowledge-news :
    (id n : ℕ) (t : Table ℕ) (i : ℕ)
    → contains id t ≡ true
    → ltb (at_or 0 id t) n ≡ true
    → acknowledge id n (t, i) ≡ (assign id n t, max i (least_reached (assign id n t)))
acknowledge-news id n t i h f = rw (h, f) refl

pub acknowledge-old :
    (id n : ℕ) (t : Table ℕ) (i : ℕ)
    → (contains id t && ltb (at_or 0 id t) n) ≡ false
    → acknowledge id n (t, i) ≡ (t, i)
acknowledge-old id n t i h = rw h refl

pub contains-reached : (k : ℕ) (t : Table Progress) → contains k (reached t) ≡ contains k t
contains-reached k [] = refl
contains-reached k ((j, p) ∷ t) = ground (arith, contains-reached k t)

pub at_or-reached :
    (k : ℕ) (t : Table Progress) → at_or 0 k (reached t) ≡ (at_or zero_progress k t).match
at_or-reached k [] = refl
at_or-reached k ((j, p) ∷ t) = ground (arith, at_or-reached k t)

pub Distinct-reached : (t : Table Progress) → Distinct t → Distinct (reached t)
Distinct-reached [] d = tt
Distinct-reached ((j, p) ∷ t) d = ground (arith, contains-reached j t, Distinct-reached t d.1, d.0)

pub Distinct-of_reached : (t : Table Progress) → Distinct (reached t) → Distinct t
Distinct-of_reached [] d = tt
Distinct-of_reached ((j, p) ∷ t) d =
    ground (arith, contains-reached j t, Distinct-of_reached t d.1, d.0)

pub length-reached : (t : Table Progress) → length (reached t) ≡ length t
length-reached [] = refl
length-reached ((j, p) ∷ t) = ap suc (length-reached t)

pub reached-assign :
    (k : ℕ) (q : Progress) (t : Table Progress)
    → reached (assign k q t) ≡ assign k q.match (reached t)
reached-assign k q [] = refl
reached-assign k q ((j, p) ∷ t) = ground (arith, reached-assign k q t)

pub reached-assign_same :
    (k : ℕ) (q : Progress) (t : Table Progress)
    → contains k t ≡ true
    → q.match ≡ (at_or zero_progress k t).match
    → reached (assign k q t) ≡ reached t
reached-assign_same k q [] c e = cc
reached-assign_same k q ((j, p) ∷ t) c e = ground (arith, reached-assign_same k q t)

pub map-reached : (t : Table Progress) → map (λ e. e.1) (reached t) ≡ map (λ e. e.1.match) t
map-reached [] = refl
map-reached ((j, p) ∷ t) = ap (◌∷◌ p.match) (map-reached t)

sorted_head :
    (t : Table Progress)
    → 0 < length t
    → get_elem? (sort (map (λ e. e.1.match) t)) 0 ≡ some (least_reached (reached t))
sorted_head [] h = absurd (omega arith)
sorted_head ((j, p) ∷ t) h = rw (map-reached t) (sort_head p.match (map (λ e. e.1.match) t))

commit_candidate_lem :
    (r : Raft)
    → r.public_prs ≡ []
    → 0 < length r.prs
    → commit_candidate r ≡ ok (least_reached (reached r.prs))
unfolding commit_candidate quorum
commit_candidate_lem r a p = rw (a, sorted_head r.prs p) refl

-- With the quorum of 1 that the empty public table gives, the index that all peers have reached is
-- committed, if it is further.
pub maybe_commit-tally :
    (r : Raft)
    → r.public_prs ≡ []
    → 0 < length r.prs
    → 0 < length r.entries
    → maybe_commit r
      ≡ ok (
        ltb r.commit_index (least_reached (reached r.prs)),
        record r { commit_index = max r.commit_index (least_reached (reached r.prs)) },
      )
unfolding maybe_commit commit_at commit_to
maybe_commit-tally r a p l =
    let m = least_reached (reached r.prs) in
    elim (Bool-cases (ltb r.commit_index m)) [
      | inl k ↦
          let e : max r.commit_index m ≡ m = omega (arith, ltb→lt _ _ k) in
          rw (commit_candidate_lem r a p, k, is_empty_of_pos r.entries l, e) refl
      | inr k ↦
          let e : max r.commit_index m ≡ r.commit_index = ground (arith, k) in
          rw (commit_candidate_lem r a p, k, e) refl
    ]
