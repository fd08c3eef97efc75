-- ===== src/Base/Sorting.antt =====
-- `std::sort` on numbers, and how many numbers of a sorted list reach the one at a position.
use sapphiredb.Base.{
  ℕ, zero, suc, ◌+◌, ◌≤◌, ◌≡◌, refl, ◌∙◌, ap, some, List, [], ◌∷◌, length, get_elem?, leb, min,
  if◌then◌else◌, arith,
}

-- `std::sort` on numbers.
unfoldable pub insert_sorted : ℕ → List ℕ → List ℕ
insert_sorted x [] = x ∷ []
insert_sorted x (y ∷ ys) = if leb x y then x ∷ y ∷ ys else y ∷ insert_sorted x ys

unfoldable pub sort : List ℕ → List ℕ
unfolding insert_sorted
sort [] = []
sort (x ∷ xs) = insert_sorted x (sort xs)

-- How many numbers reach a bound.
abbrev pub count_reaching : ℕ → List ℕ → ℕ
count_reaching k [] = 0
count_reaching k (x ∷ xs) = if leb k x then count_reaching k xs + 1 else count_reaching k xs

abbrev pub AllFrom : ℕ → List ℕ → Type 0
AllFrom k [] = Unit {0}
AllFrom k (x ∷ xs) = (k ≤ x) × AllFrom k xs

abbrev pub IsSorted : List ℕ → Type 0
IsSorted [] = Unit {0}
IsSorted (x ∷ xs) = AllFrom x xs × IsSorted xs

AllFrom-mono : (j k : ℕ) (xs : List ℕ) → j ≤ k → AllFrom k xs → AllFrom j xs
AllFrom-mono j k [] l h = tt
AllFrom-mono j k (x ∷ xs) l h = (omega arith, AllFrom-mono j k xs l h.1)

insert_sorted-AllFrom :
    (k x : ℕ) (xs : List ℕ) → k ≤ x → AllFrom k xs → AllFrom k (insert_sorted x xs)
unfolding insert_sorted
insert_sorted-AllFrom k x [] l h = (l, tt)
insert_sorted-AllFrom k x (y ∷ ys) l h = ground (arith, insert_sorted-AllFrom k x ys l h.1)

insert_sorted-IsSorted : (x : ℕ) (xs : List ℕ) → IsSorted xs → IsSorted (insert_sorted x xs)
unfolding insert_sorted
insert_sorted-IsSorted x [] h = (tt, tt)
insert_sorted-IsSorted x (y ∷ ys) h =
    ground
      (arith, AllFrom-mono x y ys, insert_sorted-AllFrom y x ys, insert_sorted-IsSorted x ys h.1)

pub sort-IsSorted : (xs : List ℕ) → IsSorted (sort xs)
unfolding sort
sort-IsSorted [] = tt
sort-IsSorted (x ∷ xs) = insert_sorted-IsSorted x (sort xs) (sort-IsSorted xs)

count_reaching-insert_sorted :
    (k x : ℕ) (xs : List ℕ) → count_reaching k (insert_sorted x xs) ≡ count_reaching k (x ∷ xs)
unfolding insert_sorted
count_reaching-insert_sorted k x [] = refl
count_reaching-insert_sorted k x (y ∷ ys) = ground (arith, count_reaching-insert_sorted k x ys)

pub count_reaching-sort : (k : ℕ) (xs : List ℕ) → count_reaching k (sort xs) ≡ count_reaching k xs
unfolding sort
count_reaching-sort k [] = refl
count_reaching-sort k (x ∷ xs) =
    count_reaching-insert_sorted k x (sort xs) ∙ ground (arith, count_reaching-sort k xs)

length-insert_sorted : (x : ℕ) (xs : List ℕ) → length (insert_sorted x xs) ≡ suc (length xs)
unfolding insert_sorted
length-insert_sorted x [] = refl
length-insert_sorted x (y ∷ ys) = ground (arith, length-insert_sorted x ys)

pub length-sort : (xs : List ℕ) → length (sort xs) ≡ length xs
unfolding sort
length-sort [] = refl
length-sort (x ∷ xs) = length-insert_sorted x (sort xs) ∙ ap suc (length-sort xs)

count_reaching-AllFrom : (k : ℕ) (xs : List ℕ) → AllFrom k xs → count_reaching k xs ≡ length xs
count_reaching-AllFrom k [] h = refl
count_reaching-AllFrom k (x ∷ xs) h = ground (arith, count_reaching-AllFrom k xs h.1)

-- From position `i` of a sorted list on, every number reaches the one at `i`.
pub count_reaching-get_elem? :
    (xs : List ℕ) (i k : ℕ)
    → IsSorted xs
    → get_elem? xs i ≡ some k
    → length xs ≤ count_reaching k xs + i
count_reaching-get_elem? [] i k s h = omega arith
count_reaching-get_elem? (x ∷ xs) zero k s h = ground (arith, count_reaching-AllFrom x xs s.0)
count_reaching-get_elem? (x ∷ xs) (suc i) k s h =
    ground (arith, count_reaching-get_elem? xs i k s.1 h)

count_reaching-le : (k : ℕ) (xs : List ℕ) → count_reaching k xs ≤ length xs
count_reaching-le k [] = omega arith
count_reaching-le k (x ∷ xs) = ground (arith, count_reaching-le k xs)

AllFrom-get_elem? : (j : ℕ) (xs : List ℕ) (i k : ℕ) → AllFrom j xs → get_elem? xs i ≡ some k → j ≤ k
AllFrom-get_elem? j [] i k a h = absurd (ground arith)
AllFrom-get_elem? j (x ∷ xs) zero k a h = ground arith
AllFrom-get_elem? j (x ∷ xs) (suc i) k a h = AllFrom-get_elem? j xs i k a.1 h

-- Up to position `i`, no number reaches a bound above the one at `i`.
pub count_reaching-above :
    (xs : List ℕ) (i j k : ℕ)
    → IsSorted xs
    → get_elem? xs i ≡ some k
    → suc k ≤ j
    → count_reaching j xs + suc i ≤ length xs
count_reaching-above [] i j k s h l = absurd (ground arith)
count_reaching-above (x ∷ xs) zero j k s h l = ground (arith, count_reaching-le j xs)
count_reaching-above (x ∷ xs) (suc i) j k s h l =
    ground (arith, AllFrom-get_elem? x xs i k s.0 h, count_reaching-above xs i j k s.1 h l)

-- No number exceeds a bound.
abbrev pub AllTo : ℕ → List ℕ → Type 0
AllTo n [] = Unit {0}
AllTo n (x ∷ xs) = (x ≤ n) × AllTo n xs

insert_sorted-AllTo : (n x : ℕ) (xs : List ℕ) → x ≤ n → AllTo n xs → AllTo n (insert_sorted x xs)
unfolding insert_sorted
insert_sorted-AllTo n x [] l h = (l, tt)
insert_sorted-AllTo n x (y ∷ ys) l h = ground (arith, insert_sorted-AllTo n x ys l h.1)

pub sort-AllTo : (n : ℕ) (xs : List ℕ) → AllTo n xs → AllTo n (sort xs)
unfolding sort
sort-AllTo n [] h = tt
sort-AllTo n (x ∷ xs) h = insert_sorted-AllTo n x (sort xs) h.0 (sort-AllTo n xs h.1)

pub AllTo-get_elem? : (n : ℕ) (xs : List ℕ) (i k : ℕ) → AllTo n xs → get_elem? xs i ≡ some k → k ≤ n
AllTo-get_elem? n [] i k a h = absurd (ground arith)
AllTo-get_elem? n (x ∷ xs) zero k a h = ground arith
AllTo-get_elem? n (x ∷ xs) (suc i) k a h = AllTo-get_elem? n xs i k a.1 h

-- The least of some numbers.
abbrev pub least : ℕ → List ℕ → ℕ
least x [] = x
least x (y ∷ ys) = min x (least y ys)

insert_sorted_head :
    (x y : ℕ) (ys : List ℕ)
    → get_elem? ys 0 ≡ some y
    → get_elem? (insert_sorted x ys) 0 ≡ some (min x y)
unfolding insert_sorted
insert_sorted_head x y [] h = cc
insert_sorted_head x y (z ∷ ys) h = ground (arith, h)

pub sort_head : (x : ℕ) (xs : List ℕ) → get_elem? (sort (x ∷ xs)) 0 ≡ some (least x xs)
unfolding sort insert_sorted
sort_head x [] = refl
sort_head x (y ∷ ys) = insert_sorted_head x (least y ys) (sort (y ∷ ys)) (sort_head y ys)
