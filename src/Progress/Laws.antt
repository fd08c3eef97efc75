-- ===== src/Progress/Laws.antt =====
-- The well-formed progresses, and what an acknowledgement does to one.
use Prim.Native.Nat.{max}
use sapphiredb.Base.{ℕ, ◌+◌, ◌<◌, ◌≡◌, ◌↔◌, true, IsU64, arith}
use sapphiredb.Progress.{Progress, become_probe, become_replicate, maybe_update}

-- The next entry to send lies past the last one that the follower is known to hold.
pub record IsValid (p : Progress) : Type 0 where
  pub ahead : p.match < p.next
  pub fits : IsU64 p.next
  pub pending_fits : IsU64 (p.pending_snapshot + 1)

-- An acknowledgement of index `n` takes the known match to the larger of the two, moves `next` past
-- `n` and never back, and is reported exactly when it is news, if `n + 1` fits in 64 bits.
pub maybe_update_lem :
    (n : ℕ) (p : Progress)
    → IsU64 (n + 1)
    → let (news, q) = maybe_update n p in
      ((news ≡ true) ↔ (p.match < n)) × (q.match ≡ max p.match n) × (q.next ≡ max p.next (n + 1))
unfolding maybe_update
maybe_update_lem n p h = ground arith

-- If the index fits in 64 bits, `maybeUpdate` keeps a well-formed progress well formed: `next` stays
-- past `match`.
pub maybe_update-IsValid :
    (n : ℕ) (p : Progress) → IsU64 (n + 1) → IsValid p → IsValid (maybe_update n p).1
unfolding maybe_update
maybe_update-IsValid n p h v = ground arith

-- `becomeProbe` keeps a well-formed progress well formed, also when it leaves the state in which a
-- snapshot is sent.
pub become_probe-IsValid : (p : Progress) → IsValid p → IsValid (become_probe p)
unfolding become_probe
become_probe-IsValid p v = ground arith

-- So does `becomeReplicate`.
pub become_replicate-IsValid : (p : Progress) → IsValid p → IsValid (become_replicate p)
unfolding become_replicate
become_replicate-IsValid p v = ground arith
