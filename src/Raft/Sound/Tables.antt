-- ===== src/Raft/Sound/Tables.antt =====
-- Logs and tables of progresses that are sound.
use sapphiredb.Base.{
  ℕ, zero, suc, ◌+◌, ◌≤◌, ◌<◌, ◌≡◌, refl, true, List, [], ◌∷◌, ◌++◌, map, IsU64, u64, length, take,
  drop, arith,
}
use sapphiredb.Base.Sorting.{AllTo}
use sapphiredb.Base.Table.{Table, contains, assign, at_or}
use sapphiredb.Proto.{Entry}
use sapphiredb.Progress.{
  Progress, zero_progress, maybe_update, set_recent_active, optimistic_update,
}
use sapphiredb.Raft.Replicate.{number_entries, message_entry, last_entry_index}
use sapphiredb.Raft.Leader.{on_match}
use sapphiredb.Raft.Step.{stored_entry}
use sapphiredb.Raft.Members.{new_progress}
use sapphiredb.Raft.Sound.{Indexed, Tracks, Tracked}

pub Tracks-mono : (n k : ℕ) (p : Progress) → n ≤ k → Tracks n p → Tracks k p
Tracks-mono n k p l v = ground arith

pub Tracked-mono : (n k : ℕ) (t : Table Progress) → n ≤ k → Tracked n t → Tracked k t
Tracked-mono n k [] l v = tt
Tracked-mono n k ((id, p) ∷ t) l v = (Tracks-mono n k p l v.0, Tracked-mono n k t l v.1)

pub Tracked-assign :
    (n id : ℕ) (p : Progress) (t : Table Progress)
    → Tracks n p
    → Tracked n t
    → Tracked n (assign id p t)
Tracked-assign n id p [] h v = (h, tt)
Tracked-assign n id p ((j, q) ∷ t) h v = ground (arith, h, v.0, v.1, Tracked-assign n id p t h v.1)

pub Tracked-at_or :
    (n id : ℕ) (t : Table Progress)
    → contains id t ≡ true
    → Tracked n t
    → Tracks n (at_or zero_progress id t)
Tracked-at_or n id [] c v = cc
Tracked-at_or n id ((j, q) ∷ t) c v = ground (arith, v.0, Tracked-at_or n id t)

pub Indexed-append :
    (k : ℕ) (xs ys : List Entry) → Indexed k xs → Indexed (k + length xs) ys → Indexed k (xs ++ ys)
Indexed-append k [] ys hx hy = let e : k + 0 ≡ k = omega arith in rw e at hy
Indexed-append k (x ∷ xs) ys hx hy =
    let e : k + suc (length xs) ≡ suc k + length xs = omega arith in
    (hx.0, hx.1, Indexed-append (suc k) xs ys hx.2 (rw e at hy))

pub Indexed-take : (k n : ℕ) (xs : List Entry) → Indexed k xs → Indexed k (take n xs)
Indexed-take k zero xs h = tt
Indexed-take k (suc n) [] h = tt
Indexed-take k (suc n) (x ∷ xs) h = (h.0, h.1, Indexed-take (suc k) n xs h.2)

pub Indexed-stored : (k : ℕ) (xs : List Entry) → Indexed k xs → Indexed k (map stored_entry xs)
unfolding stored_entry
Indexed-stored k [] h = tt
Indexed-stored k (x ∷ xs) h = (h.0, h.1, Indexed-stored (suc k) xs h.2)

-- The indices that `appendEntry` gives out.
pub Indexed-number_entries :
    (term last k : ℕ) (es : List Entry)
    → last < k
    → IsU64 (last + length es + 1)
    → Indexed k (number_entries term last es)
unfolding number_entries
Indexed-number_entries term last k [] l b = tt
Indexed-number_entries term last k (e ∷ es) l b =
    let small : u64 (last + 1) ≡ last + 1 = omega arith in
    (
      omega (arith, small),
      omega (arith, small),
      rw small (Indexed-number_entries term (last + 1) (suc k) es (omega arith) (omega arith)),
    )

pub length-number_entries :
    (term last : ℕ) (es : List Entry) → length (number_entries term last es) ≡ length es
unfolding number_entries
length-number_entries term last [] = refl
length-number_entries term last (e ∷ es) =
    omega (arith, length-number_entries term (u64 (last + 1)) es)

-- The index of the last of some entries lies in the log.
pub Indexed-last :
    (k i : ℕ) (es : List Entry)
    → i < k
    → IsU64 (i + 1)
    → Indexed k es
    → (last_entry_index i es < k + length es) × IsU64 (last_entry_index i es + 1)
unfolding last_entry_index
Indexed-last k i [] l b h = omega arith
Indexed-last k i (e ∷ es) l b h =
    omega (arith, Indexed-last (suc k) e.index es (omega arith) h.1 h.2)

pub maybe_update-Tracks :
    (n i : ℕ) (p : Progress) → i ≤ n → IsU64 (i + 1) → Tracks n p → Tracks n (maybe_update i p).1
unfolding maybe_update
maybe_update-Tracks n i p l b v = ground arith

pub on_match-Tracks : (n : ℕ) (p : Progress) → Tracks n p → Tracks n (on_match p.state p)
unfolding on_match
on_match-Tracks n p v = ground arith

pub set_recent_active-Tracks : (n : ℕ) (p : Progress) → Tracks n p → Tracks n (set_recent_active p)
unfolding set_recent_active
set_recent_active-Tracks n p v = ground arith

pub optimistic_update-Tracks :
    (n i : ℕ) (p : Progress) → i ≤ n → IsU64 (i + 1) → Tracks n p → Tracks n (optimistic_update i p)
unfolding optimistic_update
optimistic_update-Tracks n i p l b v = ground arith

pub new_progress-Tracks : (n i : ℕ) → i ≤ n → IsU64 (i + 1) → Tracks n (new_progress i)
unfolding new_progress
new_progress-Tracks n i l b = ground arith

pub Indexed-drop : (k n : ℕ) (xs : List Entry) → Indexed k xs → Indexed (n + k) (drop n xs)
Indexed-drop k zero xs h = let e : 0 + k ≡ k = omega arith in rw e h
Indexed-drop k (suc n) [] h = tt
Indexed-drop k (suc n) (x ∷ xs) h =
    let e : suc n + k ≡ n + suc k = omega arith in rw e (Indexed-drop (suc k) n xs h.2)

pub Indexed-message : (k : ℕ) (xs : List Entry) → Indexed k xs → Indexed k (map message_entry xs)
unfolding message_entry
Indexed-message k [] h = tt
Indexed-message k (x ∷ xs) h = (h.0, h.1, Indexed-message (suc k) xs h.2)

pub drop_of_length-le : (n : ℕ) (xs : List Entry) → length xs ≤ n → drop n xs ≡ []
drop_of_length-le zero [] h = refl
drop_of_length-le zero (x ∷ xs) h = absurd (omega arith)
drop_of_length-le (suc n) [] h = refl
drop_of_length-le (suc n) (x ∷ xs) h = drop_of_length-le n xs (omega arith)

pub Tracked-AllTo : (n : ℕ) (t : Table Progress) → Tracked n t → AllTo n (map (λ e. e.1.match) t)
Tracked-AllTo n [] v = tt
Tracked-AllTo n ((id, p) ∷ t) v = (v.0.match_le, Tracked-AllTo n t v.1)
