-- ===== src/Raft/Commit.antt =====
-- When the leader takes its commit index up.
use sapphiredb.Proto.{Entry}
use sapphiredb.Base.{
  ℕ, ◌+◌, ◌-◌, ◌≤◌, ◌<◌, ◌≡◌, ◌≢◌, refl, ◌∙◌, ◌⊎◌, inl, inr, Bool, true, false, List, [], ◌∷◌, map,
  ok, Returns, IsU32, length, length-map, get_elem?-of_lt, ltb, arith, Returns-bind, Bool-cases,
  u32, Returns-ok, ◌++◌, ◌>>=◌, u64,
}
use sapphiredb.Base.Sorting.{
  sort, sort-IsSorted, length-sort, count_reaching, count_reaching-sort, count_reaching-get_elem?,
  count_reaching-above,
}
use sapphiredb.Raft.{Raft, quorum, set_ready}
use sapphiredb.Raft.Log.{commit_to}
use sapphiredb.Raft.Replicate.{commit_candidate, commit_at, maybe_commit, append_entry}

abbrev pub matches : Raft → List ℕ
matches r = map (λ e. e.1.match) r.prs

pub append-ne-nil : (xs : List Entry) (x : Entry) → xs ++ x ∷ [] ≢ []
append-ne-nil [] x h = cc
append-ne-nil (y ∷ xs) x h = cc

u32_pred : (q : ℕ) → 0 < q → IsU32 q → u32 (q + 4294967295) ≡ q - 1
u32_pred q p b = omega arith

-- A commit index is carried by the peers that have reached it: all but fewer than a quorum.
abbrev pub Carried : Raft → ℕ → Type 0
Carried r k = length r.prs + 1 ≤ count_reaching k (matches r) + quorum r

-- The candidate is carried, and no greater index is.
abbrev IsCandidate : Raft → ℕ → Type 0
IsCandidate r k = Carried r k × ((j : ℕ) → k < j → ¬ Carried r j)

commit_candidate-IsCandidate :
    (r : Raft)
    → 0 < quorum r
    → quorum r ≤ length r.prs
    → IsU32 (quorum r)
    → Returns (IsCandidate r) (commit_candidate r)
unfolding commit_candidate
commit_candidate-IsCandidate r p q b =
    let (k, h) = get_elem?-of_lt (sort (matches r)) (quorum r - 1) (omega (arith, sorted)) in
    rw (u32_pred (quorum r) p b, h)
      (
        omega (
          arith,
          count_reaching-get_elem? (sort (matches r)) (quorum r - 1) k (sort-IsSorted (matches r))
              h,
          count_reaching-sort k (matches r),
          sorted,
        ),
        λ j l. omega (
          arith,
          count_reaching-above (sort (matches r)) (quorum r - 1) j k (sort-IsSorted (matches r)) h
              l,
          count_reaching-sort j (matches r),
          sorted,
        ),
      )
  where
    sorted : length (sort (matches r)) ≡ length r.prs
    sorted = length-sort (matches r) ∙ length-map (λ e. e.1.match) r.prs

-- What a call of `maybeCommit` has done. Either the peers carry no index above the commit index, and
-- nothing has changed; or the commit index has gone up to the greatest index that they carry, and
-- the log is as it was.
abbrev pub Commits : Raft → Bool × Raft → Type 0
Commits r res =
    ((res ≡ (false, r)) × ¬ Carried r (r.commit_index + 1))
    ⊎ ((res.0 ≡ true)
        × (r.commit_index < (res.1).commit_index)
        × Carried r (res.1).commit_index
        × ¬ Carried r ((res.1).commit_index + 1)
        × ((res.1).entries ≡ r.entries))

commit_at-Commits :
    (r : Raft) (k : ℕ) → r.entries ≢ [] → IsCandidate r k → Returns (Commits r) (commit_at k r)
unfolding commit_at commit_to
commit_at-Commits r k n h = ground (arith, h.1 (k + 1), h.1 (r.commit_index + 1))

-- If the table has at least a quorum of peers and the log is not empty, `maybeCommit` has a defined
-- result: it takes the commit index up to the greatest index that all peers but fewer than a quorum
-- have reached, and reports so, or there is no such index above the commit index and it changes
-- nothing.
pub maybe_commit-Commits :
    (r : Raft)
    → r.entries ≢ []
    → 0 < quorum r
    → quorum r ≤ length r.prs
    → IsU32 (quorum r)
    → Returns (Commits r) (maybe_commit r)
unfolding maybe_commit
maybe_commit-Commits r n p q b =
    Returns-bind (IsCandidate r) (Commits r) (commit_candidate r) _
      (commit_candidate-IsCandidate r p q b) (λ k h. commit_at-Commits r k n h)

-- A call of `maybeCommit` changes the commit index at most.
pub maybe_commit-frame :
    (r : Raft)
    → r.entries ≢ []
    → 0 < quorum r
    → quorum r ≤ length r.prs
    → IsU32 (quorum r)
    → (b : Bool) × (i : ℕ) × (maybe_commit r ≡ ok (b, record r { commit_index = i }))
unfolding maybe_commit commit_at commit_to
maybe_commit-frame r n p q b =
    let (k, e, _) =
      Returns-ok (IsCandidate r) (commit_candidate r) (commit_candidate-IsCandidate r p q b) in
    elim (Bool-cases (ltb r.commit_index k)) [
      | inl t ↦ (true, k, ground (arith, e))
      | inr t ↦ (false, r.commit_index, ground (arith, e))
    ]

-- Entries are numbered from the applied index and not from the end of the log: two proposals that
-- are appended before the first is applied get the same index, if the table has a quorum of peers.
pub append_entry_repeats :
    (x y : Entry) (r : Raft)
    → 0 < quorum r
    → quorum r ≤ length r.prs
    → IsU32 (quorum r)
    → Returns
        (λ s.
          s.entries
          ≡ (r.entries ++ record x { term = r.current_term; index = u64 (r.last_applied + 1) } ∷ [])
            ++ record y { term = r.current_term; index = u64 (r.last_applied + 1) } ∷ [])
        (append_entry (x ∷ []) r >>= λ s. append_entry (y ∷ []) s)
unfolding append_entry set_ready quorum
append_entry_repeats x y r p q b =
    let e = record x { term = r.current_term; index = u64 (r.last_applied + 1) } in
    let f = record y { term = r.current_term; index = u64 (r.last_applied + 1) } in
    let r₁ = record r { entries = r.entries ++ e ∷ [] } in
    let (_, i, h) = maybe_commit-frame r₁ (append-ne-nil r.entries e) p q b in
    let r₂ = record r₁ {
      commit_index = i;
      ready = true;
      entries = (r.entries ++ e ∷ []) ++ f ∷ [];
    } in
    let (_, j, k) = maybe_commit-frame r₂ (append-ne-nil (r.entries ++ e ∷ []) f) p q b in
    rw (h, k) refl
