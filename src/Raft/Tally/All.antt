-- ===== src/Raft/Tally/All.antt =====
-- The tally of a leader once every peer has acknowledged.
use sapphiredb.Base.{
  ℕ, ◌≤◌, ◌<◌, ◌≡◌, true, false, Bool, List, [], ◌∷◌, ◌==◌, if◌then◌else◌, length, map, Bool-cases,
  inl, inr, arith, sym, ◌∙◌, ◌⊎◌, refl,
}
use sapphiredb.Base.Sorting.{AllTo, least}
use sapphiredb.Base.Table.{
  Distinct, Distinct-assign, Table, contains, assign, at_or, contains-assign, at_or-assign,
  length-assign,
}
use sapphiredb.Raft.Tally.{Tally, least_reached, acknowledge}

abbrev pub elem : ℕ → List ℕ → Bool
elem k [] = false
elem k (x ∷ xs) = if x == k then true else elem k xs

abbrev pub acknowledge_all : List ℕ → ℕ → Tally → Tally
acknowledge_all [] n v = v
acknowledge_all (id ∷ ids) n v = acknowledge_all ids n (acknowledge id n v)

AllTo-assign :
    (id n : ℕ) (t : Table ℕ) → AllTo n (map (λ e. e.1) t) → AllTo n (map (λ e. e.1) (assign id n t))
AllTo-assign id n [] h = omega arith
AllTo-assign id n ((k, v) ∷ t) h = ground (arith, AllTo-assign id n t h.1, h.0, h.1)

least_le : (n x : ℕ) (xs : List ℕ) → x ≤ n → AllTo n xs → least x xs ≤ n
least_le n x [] h a = h
least_le n x (y ∷ ys) h a = omega (arith, least_le n y ys a.0 a.1)

pub least_reached_le : (n : ℕ) (t : Table ℕ) → AllTo n (map (λ e. e.1) t) → least_reached t ≤ n
least_reached_le n [] a = omega arith
least_reached_le n ((k, v) ∷ t) a = least_le n v (map (λ e. e.1) t) a.0 a.1

at_or_le : (n k : ℕ) (t : Table ℕ) → AllTo n (map (λ e. e.1) t) → at_or 0 k t ≤ n
at_or_le n k [] a = omega arith
at_or_le n k ((j, v) ∷ t) a = ground (arith, at_or_le n k t a.1, a.0)

-- A tally on the way to `n`: nothing is past it, and it is committed once every peer has reached it.
pub record Nears (n : ℕ) (v : Tally) : Type 0 where
  pub distinct : Distinct v.0
  pub within : AllTo n (map (λ e. e.1) v.0)
  pub commit_le : v.1 ≤ n
  pub commit_eq : least_reached v.0 ≡ n → v.1 ≡ n

acknowledge-Nears : (id n : ℕ) (v : Tally) → Nears n v → Nears n (acknowledge id n v)
acknowledge-Nears id n (t, i) h = ground (
  arith,
  Distinct-assign id n t,
  AllTo-assign id n t h.within,
  least_reached_le n (assign id n t) (AllTo-assign id n t h.within),
  h,
)

length-acknowledge : (id n : ℕ) (v : Tally) → length (acknowledge id n v).0 ≡ length v.0
length-acknowledge id n (t, i) = ground (arith, length-assign id n t)

pub contains-acknowledge :
    (id k n : ℕ) (v : Tally) → contains k (acknowledge id n v).0 ≡ contains k v.0
contains-acknowledge id k n (t, i) = ground (arith, contains-assign id k n t)

at_or-acknowledge :
    (id k n : ℕ) (v : Tally)
    → Nears n v
    → contains k v.0 ≡ true
    → at_or 0 k (acknowledge id n v).0 ≡ (if id == k then n else at_or 0 k v.0)
at_or-acknowledge id k n (t, i) h c =
    ground (arith, at_or-assign 0 id k n t, at_or_le n id t h.within)

least_all :
    (n k v : ℕ) (t : Table ℕ)
    → Distinct ((k, v) ∷ t)
    → ((j : ℕ) → contains j ((k, v) ∷ t) ≡ true → at_or 0 j ((k, v) ∷ t) ≡ n)
    → least v (map (λ e. e.1) t) ≡ n
least_all n k v [] d h = ground (arith, h k)
least_all n k v ((j, w) ∷ t) d h =
    omega
      (arith, least_all n j w t d.1 (λ i c. ground (arith, h i, c, d.0, Bool-cases (k == i))), head)
  where
    head : v ≡ n
    head = ground (arith, h k)

least_reached_all :
    (n : ℕ) (t : Table ℕ)
    → 0 < length t
    → Distinct t
    → ((j : ℕ) → contains j t ≡ true → at_or 0 j t ≡ n)
    → least_reached t ≡ n
least_reached_all n [] p d h = absurd (omega arith)
least_reached_all n ((k, v) ∷ t) p d h = least_all n k v t d h

-- When every peer has acknowledged `n`, it is committed.
pub everyone :
    (ids : List ℕ) (n : ℕ) (v : Tally)
    → Nears n v
    → 0 < length v.0
    → ((k : ℕ) → contains k v.0 ≡ true → (elem k ids ≡ true) ⊎ (at_or 0 k v.0 ≡ n))
    → (acknowledge_all ids n v).1 ≡ n
everyone [] n v h p e =
    h.commit_eq
      (least_reached_all n v.0 p h.distinct (λ k c. elim (e k c) [ inl x ↦ cc | inr x ↦ x ]))
everyone (id ∷ ids) n v h p e =
    everyone ids n (acknowledge id n v) (acknowledge-Nears id n v h)
      (omega (arith, length-acknowledge id n v))
      (λ k c.
        let c' : contains k v.0 ≡ true = sym (contains-acknowledge id k n v) ∙ c in
        ground (arith, e k c', at_or-acknowledge id k n v h c'))

pub acknowledge_all-Distinct :
    (ids : List ℕ) (n : ℕ) (v : Tally) → Distinct v.0 → Distinct (acknowledge_all ids n v).0
acknowledge_all-Distinct [] n v d = d
acknowledge_all-Distinct (id ∷ ids) n (t, i) d =
    acknowledge_all-Distinct ids n (acknowledge id n (t, i))
      (ground (arith, Distinct-assign id n t, d))

pub length-acknowledge_all :
    (ids : List ℕ) (n : ℕ) (v : Tally) → length (acknowledge_all ids n v).0 ≡ length v.0
length-acknowledge_all [] n v = refl
length-acknowledge_all (id ∷ ids) n v =
    length-acknowledge_all ids n (acknowledge id n v) ∙ length-acknowledge id n v

pub contains-acknowledge_all :
    (ids : List ℕ) (k n : ℕ) (v : Tally) → contains k (acknowledge_all ids n v).0 ≡ contains k v.0
contains-acknowledge_all [] k n v = refl
contains-acknowledge_all (id ∷ ids) k n v =
    contains-acknowledge_all ids k n (acknowledge id n v) ∙ contains-acknowledge id k n v
