-- ===== src/Base/Table.antt =====
-- `std::unordered_map<uint64_t, V>` as a list of pairs. A new key goes to the end: the order in
-- which the container is walked is unspecified, and a table stands for one such order.
use sapphiredb.Base.{
  ℕ, ◌+◌, ◌<◌, ◌≡◌, refl, Bool, true, false, Option, none, some, List, [], ◌∷◌, arith, ◌==◌,
  if◌then◌else◌, length,
}

abbrev pub Table {ℓ} : Type ℓ → Type ℓ
Table V = List (ℕ × V)

module _ {ℓ} {V : Type ℓ} where
  -- `find`: none is `end()`.
  abbrev pub find : ℕ → Table V → Option V
  find k [] = none
  find k ((j, v) ∷ t) = if j == k then some v else find k t

  abbrev pub contains : ℕ → Table V → Bool
  contains k [] = false
  contains k ((j, v) ∷ t) = if j == k then true else contains k t

  -- `t[k] = v`.
  abbrev pub assign : ℕ → V → Table V → Table V
  assign k v [] = (k, v) ∷ []
  assign k v ((j, w) ∷ t) = if j == k then (k, v) ∷ t else (j, w) ∷ assign k v t

  -- The value that `t[k]` refers to; for a key that is not there, the value that it inserts.
  abbrev pub at_or : V → ℕ → Table V → V
  at_or d k [] = d
  at_or d k ((j, v) ∷ t) = if j == k then v else at_or d k t

  -- `erase`.
  abbrev pub erase : ℕ → Table V → Table V
  erase k [] = []
  erase k ((j, v) ∷ t) = if j == k then t else (j, v) ∷ erase k t

  pub find-assign :
      (k j : ℕ) (v : V) (t : Table V)
      → find j (assign k v t) ≡ (if k == j then some v else find j t)
  find-assign k j v [] = refl
  find-assign k j v ((i, w) ∷ t) = ground (arith, find-assign k j v t)

  pub at_or-assign :
      (d : V) (k j : ℕ) (v : V) (t : Table V)
      → at_or d j (assign k v t) ≡ (if k == j then v else at_or d j t)
  at_or-assign d k j v [] = refl
  at_or-assign d k j v ((i, w) ∷ t) = ground (arith, at_or-assign d k j v t)

  pub assign_self :
      (d : V) (k : ℕ) (t : Table V) → contains k t ≡ true → assign k (at_or d k t) t ≡ t
  assign_self d k [] h = ground arith
  assign_self d k ((j, v) ∷ t) h = ground (arith, assign_self d k t)

  pub contains-assign :
      (k j : ℕ) (v : V) (t : Table V)
      → contains j (assign k v t) ≡ (if k == j then true else contains j t)
  contains-assign k j v [] = refl
  contains-assign k j v ((i, w) ∷ t) = ground (arith, contains-assign k j v t)

  pub length-assign :
      (k : ℕ) (v : V) (t : Table V)
      → length (assign k v t) ≡ (if contains k t then length t else length t + 1)
  length-assign k v [] = refl
  length-assign k v ((j, w) ∷ t) = ground (arith, length-assign k v t)

  -- The keys of one table are keys of the other.
  abbrev pub AllIn : Table V → Table V → Type 0
  AllIn [] u = Unit {0}
  AllIn ((k, v) ∷ t) u = (contains k u ≡ true) × AllIn t u

  AllIn-cons : (j : ℕ) (w : V) (t u : Table V) → AllIn t u → AllIn t ((j, w) ∷ u)
  AllIn-cons j w [] u h = tt
  AllIn-cons j w ((k, v) ∷ t) u h = ground (arith, AllIn-cons j w t u h.1)

  pub AllIn-self : (t : Table V) → AllIn t t
  AllIn-self [] = tt
  AllIn-self ((k, v) ∷ t) = ground (arith, AllIn-cons k v t t (AllIn-self t))

  abbrev pub KeysIn : Table V → Table V → Type 0
  KeysIn t u = (k : ℕ) → contains k t ≡ true → contains k u ≡ true

  pub AllIn-trans : (t u w : Table V) → KeysIn u w → AllIn t u → AllIn t w
  AllIn-trans [] u w s h = tt
  AllIn-trans ((k, v) ∷ t) u w s h = (s k h.0, AllIn-trans t u w s h.1)

  pub KeysIn-assign : (j : ℕ) (v : V) (t : Table V) → KeysIn t (assign j v t)
  KeysIn-assign j v t k h = ground (arith, contains-assign j k v t)

  pub length_of_contains : (k : ℕ) (t : Table V) → contains k t ≡ true → 0 < length t
  length_of_contains k [] h = cc
  length_of_contains k ((j, v) ∷ t) h = omega arith

  -- One row for each key.
  abbrev pub Distinct : Table V → Type 0
  Distinct [] = Unit {0}
  Distinct ((k, v) ∷ t) = (contains k t ≡ false) × Distinct t

  pub Distinct-assign :
      (k : ℕ) (v : V) (t : Table V) → contains k t ≡ true → Distinct t → Distinct (assign k v t)
  Distinct-assign k v [] h d = cc
  Distinct-assign k v ((j, w) ∷ t) h d =
      ground (arith, contains-assign k j v t, Distinct-assign k v t, d.0, d.1)

  -- What a lookup finds for each key of the one table in the other is what stands in the one.
  abbrev pub Agree : V → Table V → Table V → Type ℓ
  Agree d [] u = Unit
  Agree d ((k, v) ∷ t) u = (at_or d k u ≡ v) × Agree d t u

  pub Agree-assign :
      (d : V) (k : ℕ) (v : V) (t u : Table V)
      → contains k t ≡ false
      → Agree d t u
      → Agree d t (assign k v u)
  Agree-assign d k v [] u h a = tt
  Agree-assign d k v ((j, w) ∷ t) u h a =
      (ground (arith, at_or-assign d k j v u, a.0), Agree-assign d k v t u (ground (arith, h)) a.1)

  Agree-cons :
      (d : V) (k : ℕ) (v : V) (t u : Table V)
      → contains k t ≡ false
      → Agree d t u
      → Agree d t ((k, v) ∷ u)
  Agree-cons d k v [] u h a = tt
  Agree-cons d k v ((j, w) ∷ t) u h a =
      (ground (arith, h, a.0), Agree-cons d k v t u (ground (arith, h)) a.1)

  pub Agree-self : (d : V) (t : Table V) → Distinct t → Agree d t t
  Agree-self d [] h = tt
  Agree-self d ((k, v) ∷ t) h = (ground arith, Agree-cons d k v t t h.0 (Agree-self d t h.1))
