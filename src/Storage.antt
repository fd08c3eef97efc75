-- ===== src/Storage.antt =====
-- sapphiredb/raft/storage.h and storage.cc: the file that holds a `raftpb::Storage`. A storage is
-- the content of the file at `_path`, none if there is no such file; the other private members of
-- the class are never used. Printing is left out.
pub mod Laws
pub mod Snapshots
use sapphiredb.Base.{
  ℕ, ◌+◌, ◌≡◌, Option, none, some, List, [], ◌∷◌, ◌++◌, Outcome, ok, undefined, ◌>>=◌, or_undefined,
  ltb, leb, ◌==◌, if◌then◌else◌, u64, sub64, length, take, drop, get_elem?, is_empty,
}
use sapphiredb.Proto.{
  Bytes, Codec, Entry, ConfState, Snapshot, SnapshotMetadata, HardState, StorageData,
  empty_snapshot, empty_storage_data, empty_hard_state,
}

pub record Storage : Type 0 where
  pub file : Option Bytes

-- `std::string(const char*)`: the bytes before the first zero. Memory that holds no zero is read
-- past its end.
unfoldable pub c_string : Bytes → Outcome Bytes
c_string [] = undefined
c_string (b ∷ bs) = if b == 0 then ok [] else (c_string bs >>= λ rest. ok (b ∷ rest))

module _ ⦃c : Codec⦄ where
  -- `char rdata[1024]; in.read(rdata, 1024); std::string data(rdata);`
  unfoldable pub read_buffer : Bytes → Outcome Bytes
  unfolding c_string
  read_buffer file = let chunk = take 1024 file in c_string (chunk ++ drop (length chunk) c.stack)

  -- The file, read and parsed.
  unfoldable pub load : Bytes → Outcome StorageData
  unfolding read_buffer
  load file = read_buffer file >>= λ text. ok (c.read_storage text)

  unfoldable pub first_index : Storage → Outcome ℕ
  unfolding load
  first_index s = elim s.file [
    | none ↦ ok 0
    | some file ↦ load file >>= λ d. ok d.snap.metadata.index
  ]

  last_index_of : StorageData → ℕ
  last_index_of d =
      let l = length d.entries in
      if ltb 0 l then sub64 (u64 (d.offset + l)) 1 else d.snap.metadata.index

  unfoldable pub last_index : Storage → Outcome ℕ
  unfolding load last_index_of
  last_index s = elim s.file [ none ↦ ok 0 | some file ↦ load file >>= λ d. ok (last_index_of d) ]

  -- `entries(i)` is defined for the entries that there are.
  unfoldable pub term : ℕ → Storage → Outcome ℕ
  unfolding load last_index
  term index s = elim s.file [
    | none ↦ ok 0
    | some file ↦ load file >>= λ d.
        if ltb index d.offset
        then (if d.snap.metadata.index == index then ok d.snap.metadata.term else ok 0)
        else (last_index s >>= λ last.
            if leb last 0
            then ok 0
            else if ltb last index
            then ok 0
            else (or_undefined (get_elem? d.entries (sub64 index d.offset)) >>= λ e. ok e.term))
  ]

  unfoldable pub snapshot : Storage → Outcome Snapshot
  unfolding load
  snapshot s = elim s.file [ none ↦ ok empty_snapshot | some file ↦ load file >>= λ d. ok d.snap ]

  unfoldable pub entries : Storage → Outcome (List Entry)
  unfolding load
  entries s = elim s.file [ none ↦ ok [] | some file ↦ load file >>= λ d. ok d.entries ]

-- The loop over `nodes_size()`, which reads `learners(i)` beside `nodes(i)` and adds both.
unfoldable pub add_nodes : List ℕ → List ℕ → ConfState → Outcome ConfState
add_nodes [] learners conf = ok conf
add_nodes (n ∷ nodes) [] conf = undefined
add_nodes (n ∷ nodes) (l ∷ learners) conf =
    add_nodes nodes learners
      (record conf { nodes = conf.nodes ++ n ∷ []; learners = conf.learners ++ l ∷ [] })

-- The message with its snapshot replaced field by field.
unfoldable pub set_snapshot : Snapshot → StorageData → Outcome StorageData
unfolding add_nodes
set_snapshot snap d =
    add_nodes snap.metadata.conf_state.nodes snap.metadata.conf_state.learners
      d.snap.metadata.conf_state
    >>= λ conf. ok (record d {
      snap = record {
        bytes = snap.bytes;
        metadata = record {
          conf_state = conf;
          index = snap.metadata.index;
          term = snap.metadata.term;
        };
      };
    })

module _ ⦃c : Codec⦄ where
  unfoldable pub apply_snapshot : Snapshot → Storage → Outcome Storage
  unfolding load set_snapshot
  apply_snapshot snap s =
      elim s.file [ none ↦ ok empty_storage_data | some file ↦ load file ] >>= λ d.
      set_snapshot snap d >>= λ e. ok (record { file = some (c.write_storage e) })

  -- The three calls are all of `set_term`.
  put_hard_state : HardState → HardState → HardState
  put_hard_state h m =
      let m₁ = record m { term = h.term } in
      let m₂ = record m₁ { term = h.vote } in record m₂ { term = h.commit }

  unfoldable pub set_hard_state : HardState → Storage → Outcome Storage
  unfolding read_buffer put_hard_state
  set_hard_state h s =
      elim s.file [
        | none ↦ ok empty_hard_state
        | some file ↦ read_buffer file >>= λ text. ok (c.read_hard_state text)
      ]
      >>= λ m. ok (record { file = some (c.write_hard_state (put_hard_state h m)) })

  -- An `ofstream` opened with `ate | binary` and no `app` empties the file.
  unfoldable pub append : List Entry → Storage → Storage
  append ents s = record {
    file = some (c.write_storage (record empty_storage_data { entries = ents }));
  }
