-- ===== src/Raft/Log/Entries.antt =====
-- The log seen as a map from indices to entries.
use sapphiredb.Base.{
  ℕ, ◌+◌, ◌-◌, ◌≤◌, ◌<◌, ◌≡◌, Option, none, some, List, [], ◌∷◌, ok, undefined, Returns, IsU64, ltb,
  if◌then◌else◌, length, take, get_elem?, get_elem?-append, get_elem?-take, get_elem?_of_le,
  length-take, arith,
}
use sapphiredb.Proto.{Entry}
use sapphiredb.Raft.{Raft, snap_unset}
use sapphiredb.Raft.Log.{maybe_term, truncate_and_append, commit_to}

-- The entry that the log holds under an index.
abbrev pub entry_at : ℕ → Raft → Option Entry
entry_at i r = if ltb i r.offset then none else get_elem? r.entries (i - r.offset)

-- If the new entries leave no gap behind the log, `truncateAndAppend` has a defined result: below
-- the index of the first of them the log is as it was, and from there on it is the new entries.
pub entry_at-truncate_and_append :
    (e : Entry) (es : List Entry) (r : Raft) (i : ℕ)
    → IsU64 (r.offset + length r.entries)
    → e.index ≤ r.offset + length r.entries
    → Returns
        (λ s.
          entry_at i s ≡ (if ltb i e.index then entry_at i r else get_elem? (e ∷ es) (i - e.index)))
        (truncate_and_append (e ∷ es) r)
unfolding truncate_and_append
entry_at-truncate_and_append e es r i b g = ground (
  arith,
  get_elem?-append r.entries (e ∷ es) (i - r.offset),
  get_elem?-append (take (e.index - r.offset) r.entries) (e ∷ es) (i - r.offset),
  get_elem?-take (e.index - r.offset) r.entries (i - r.offset),
  length-take (e.index - r.offset) r.entries,
)

-- The term of an index that the log holds is that of the entry: it is found, and nothing undefined
-- is read on the way.
pub maybe_term-entry_at :
    (i : ℕ) (r : Raft) (e : Entry)
    → 0 < i
    → IsU64 (r.offset + length r.entries)
    → entry_at i r ≡ some e
    → maybe_term i r ≡ ok e.term
unfolding maybe_term
maybe_term-entry_at i r e p b h = ground (arith, get_elem?_of_le r.entries (i - r.offset))

-- Asking for the term of an index behind the log is undefined: the entry is read for a log line
-- before the index is compared with the last one.
pub maybe_term_past :
    (i : ℕ) (r : Raft) → IsU64 i → r.offset + length r.entries ≤ i → maybe_term i r ≡ undefined
unfolding maybe_term
maybe_term_past i r b h = ground (arith, get_elem?_of_le r.entries (i - r.offset))

-- With an empty log, any new commit index makes the code read the snapshot pointer: until `restore`
-- has set it, that is undefined.
pub commit_to_unset :
    (i : ℕ) (r : Raft)
    → r.entries ≡ []
    → r.snap ≡ snap_unset
    → r.commit_index < i
    → commit_to i r ≡ undefined
unfolding commit_to
commit_to_unset i r e s h = ground arith
