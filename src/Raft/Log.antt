-- ===== src/Raft/Log.antt =====
-- raft.cc: the log held in `_entries` from index `_offset` on, behind it `_snap` and the storage.
pub mod Entries
use sapphiredb.Base.{
  ℕ, ◌+◌, ◌&&◌, ◌||◌, List, [], ◌∷◌, ◌++◌, Outcome, ok, undefined, ◌>>=◌, or_undefined, ltb, leb,
  ◌==◌, if◌then◌else◌, u64, sub64, length, take, drop, get_elem?, is_empty,
}
use sapphiredb.Proto.{Codec, Entry, Snapshot}
use sapphiredb.Storage
use sapphiredb.Raft.{Raft, SnapPointer, snap_unset, snap_null, snap_at}

-- The index in the metadata of `*_snap`, 0 for a null pointer. Reading a pointer that was never set
-- is undefined.
unfoldable pub snap_index : SnapPointer → Outcome ℕ
snap_index snap_unset = undefined
snap_index snap_null = ok 0
snap_index (snap_at s) = ok s.metadata.index

unfoldable pub maybe_last_index : Raft → Outcome ℕ
unfolding snap_index
maybe_last_index r =
    if is_empty r.entries
    then snap_index r.snap
    else ok (sub64 (u64 (r.offset + length r.entries)) 1)

-- The term of the snapshot if it ends at the index.
unfoldable pub snap_term : SnapPointer → ℕ → Outcome ℕ
snap_term snap_unset index = undefined
snap_term snap_null index = ok 0
snap_term (snap_at s) index = if s.metadata.index == index then ok s.metadata.term else ok 0

-- The entry at `index - _offset` is read for a log line before the index is checked.
unfoldable pub maybe_term : ℕ → Raft → Outcome ℕ
unfolding snap_term maybe_last_index
maybe_term index r =
    if ltb index r.offset
    then snap_term r.snap index
    else (maybe_last_index r >>= λ last.
        or_undefined (get_elem? r.entries (sub64 index r.offset)) >>= λ e.
        if last == 0 || ltb last index then ok 0 else ok e.term)

-- `begin() + k` to `end()`: k may be at most the size.
unfoldable pub stable_to : ℕ → ℕ → Raft → Outcome Raft
unfolding maybe_term
stable_to index term r = maybe_term index r >>= λ gterm.
    if gterm == 0
    then ok r
    else if gterm == term && index == r.offset
    then (let k = sub64 (u64 (index + 1)) r.offset in
        if leb k (length r.entries)
        then ok (record r { entries = drop k r.entries; offset = u64 (index + 1) })
        else undefined)
    else ok r

-- The pointer after a snapshot that ends at the index has been stored.
unfoldable pub clear_snap : SnapPointer → ℕ → Outcome SnapPointer
clear_snap snap_unset index = undefined
clear_snap snap_null index = ok snap_null
clear_snap (snap_at s) index = if s.metadata.index == index then ok snap_null else ok (snap_at s)

unfoldable pub stable_snap_to : ℕ → Raft → Outcome Raft
unfolding clear_snap
stable_snap_to index r = clear_snap r.snap index >>= λ p. ok (record r { snap = p })

unfoldable pub restore : Snapshot → Raft → Raft
restore snap r = record r {
  offset = u64 (snap.metadata.index + 1);
  entries = [];
  snap = snap_at snap;
}

-- `ents[0]` must exist, and the kept part must lie in the vector.
unfoldable pub truncate_and_append : List Entry → Raft → Outcome Raft
truncate_and_append [] r = undefined
truncate_and_append (e ∷ es) r =
    if e.index == u64 (r.offset + length r.entries)
    then ok (record r { entries = r.entries ++ e ∷ es })
    else if leb e.index r.offset
    then ok (record r { offset = e.index; entries = e ∷ es })
    else if leb (sub64 e.index r.offset) (length r.entries)
    then ok (record r { entries = take (sub64 e.index r.offset) r.entries ++ e ∷ es })
    else undefined

unfoldable pub last_index : Raft → Outcome ℕ
unfolding maybe_last_index
last_index r = maybe_last_index r

-- A commit index past the log is logged and taken all the same.
unfoldable pub commit_to : ℕ → Raft → Outcome Raft
unfolding last_index
commit_to commit r =
    if ltb r.commit_index commit
    then (last_index r >>= λ _. ok (record r { commit_index = commit }))
    else ok r

-- The index after the call, with the state. `ents[0]` is read in the second step for a log line.
unfoldable pub append : List Entry → Raft → Outcome (ℕ × Raft)
unfolding last_index truncate_and_append
append [] r = last_index r >>= λ i. ok (i, r)
append (e ∷ es) r = truncate_and_append (e ∷ es) r >>= λ r'. last_index r' >>= λ i. ok (i, r')

unfoldable pub maybe_append : ℕ → ℕ → ℕ → List Entry → Raft → ℕ × Raft
maybe_append index log_term committed ents r =
    if leb index (length r.entries) && r.current_term == log_term
    then (u64 (index + length ents), record r { entries = take index r.entries ++ ents })
    else (0, r)

unfoldable pub applied_to : ℕ → Raft → Raft
applied_to index r = if index == 0 then r else record r { last_applied = index }

unfoldable pub maybe_first_index : Raft → Outcome ℕ
unfolding snap_index
maybe_first_index r = snap_index r.snap

unfoldable pub first_index : Raft → Outcome ℕ
unfolding maybe_first_index
first_index r = maybe_first_index r

module _ ⦃c : Codec⦄ where
  snapshot_from : SnapPointer → Raft → Outcome Snapshot
  snapshot_from snap_unset r = undefined
  snapshot_from snap_null r = Storage.snapshot r.storage
  snapshot_from (snap_at s) r = ok s

  unfoldable pub snapshot : Raft → Outcome Snapshot
  unfolding snapshot_from
  snapshot r = snapshot_from r.snap r

  unfoldable pub term : ℕ → Raft → Outcome ℕ
  unfolding maybe_term
  term index r = maybe_term index r >>= λ t.
      if ltb 0 t
      then ok t
      else (Storage.term index r.storage >>= λ s. if ltb 0 s then ok s else ok 0)

  unfoldable pub last_term : Raft → Outcome ℕ
  unfolding last_index term
  last_term r = last_index r >>= λ i. term i r
