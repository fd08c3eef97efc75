-- ===== src/Raft/Persist/Applied.antt =====
-- What is written when the commit index has moved.
use sapphiredb.Base.{
  ℕ, zero, suc, ◌+◌, ◌-◌, ◌≤◌, ◌<◌, ◌≡◌, refl, true, List, [], ◌∷◌, ok, IsU64, length, take, drop,
  arith,
}
use sapphiredb.Proto.{Codec, Entry}
use sapphiredb.Storage
use sapphiredb.Raft.{Raft}
use sapphiredb.Raft.Log.{applied_to}
use sapphiredb.Raft.Persist.{find_position, to_store, storage_log}

-- The entries have consecutive indices from the given one on.
abbrev pub NumberedFrom : ℕ → List Entry → Type 0
NumberedFrom k [] = Unit {0}
NumberedFrom k (e ∷ es) = (e.index ≡ k) × NumberedFrom (suc k) es

find_position-NumberedFrom :
    (j k i : ℕ) (es : List Entry)
    → NumberedFrom k es
    → j ≡ k + i
    → i < length es
    → find_position j es ≡ i
unfolding find_position
find_position-NumberedFrom j k i [] n e h = absurd (omega arith)
find_position-NumberedFrom j k zero (x ∷ es) n e h = ground arith
find_position-NumberedFrom j k (suc i) (x ∷ es) n e h =
    ground (arith, find_position-NumberedFrom j (suc k) i es n.1)

find_position_below :
    (i k : ℕ) (es : List Entry) → i < k → NumberedFrom k es → find_position i es ≡ length es
unfolding find_position
find_position_below i k [] h n = refl
find_position_below i k (e ∷ es) h n = ground (arith, find_position_below i (suc k) es)

-- In a log that is numbered from 1, the entries that are handed to the storage are those after the
-- last applied one up to the last committed one.
to_store_lem :
    (r : Raft)
    → NumberedFrom 1 r.entries
    → r.last_applied < r.commit_index
    → r.commit_index ≤ length r.entries
    → IsU64 (length r.entries)
    → to_store r ≡ ok (true, drop r.last_applied (take r.commit_index r.entries))
unfolding to_store
to_store_lem r n l h b = ground (
  arith,
  find_position-NumberedFrom r.last_applied 1 (r.last_applied - 1) r.entries n,
  find_position_below r.last_applied 1 r.entries,
)

-- If more is committed than applied, and the log, whose length fits into 64 bits, is numbered
-- from 1 and holds all that is committed, `storageLog` has a defined result: the storage is
-- written with the entries after the last applied one up to the last committed one, and these
-- count as applied.
pub storage_log_lem :
    ⦃c : Codec⦄ (r : Raft)
    → NumberedFrom 1 r.entries
    → r.last_applied < r.commit_index
    → r.commit_index ≤ length r.entries
    → IsU64 (length r.entries)
    → storage_log r
      ≡ ok (record r {
        storage = Storage.append (drop r.last_applied (take r.commit_index r.entries)) r.storage;
        last_applied = r.commit_index;
      })
unfolding storage_log applied_to
storage_log_lem r n l h b = ground (arith, to_store_lem r n l h b)
