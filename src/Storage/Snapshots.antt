-- ===== src/Storage/Snapshots.antt =====
-- What can be read back after a snapshot was stored.
use mathlib.Core.List.{append-nil, append_assoc}
use sapphiredb.Base.{
  ℕ, ◌≤◌, ◌≡◌, refl, ◌∙◌, none, some, List, [], ◌∷◌, ◌++◌, Outcome, ok, Returns, length, take,
  arith,
}
use sapphiredb.Proto.{Codec, ConfState, Snapshot, StorageData, empty_storage_data}
use sapphiredb.Storage.{
  Storage, load, add_nodes, set_snapshot, apply_snapshot, snapshot, entries, first_index,
}
use sapphiredb.Storage.Laws.{IsReadable, load-write_storage}

-- The content with the snapshot: its nodes come behind those that were there, and as many learners as
-- there are nodes.
abbrev pub with_snapshot : Snapshot → StorageData → StorageData
with_snapshot snap d = record d {
  snap = record {
    bytes = snap.bytes;
    metadata = record {
      conf_state = record {
        nodes = d.snap.metadata.conf_state.nodes ++ snap.metadata.conf_state.nodes;
        learners =
            d.snap.metadata.conf_state.learners
            ++ take (length snap.metadata.conf_state.nodes) snap.metadata.conf_state.learners;
      };
      index = snap.metadata.index;
      term = snap.metadata.term;
    };
  };
}

-- What a storage holds, nothing without a file.
abbrev pub content : ⦃c : Codec⦄ → Storage → Outcome StorageData
content s = elim s.file [ none ↦ ok empty_storage_data | some file ↦ load file ]

add_nodes_lem :
    (nodes learners : List ℕ) (conf : ConfState)
    → length nodes ≤ length learners
    → add_nodes nodes learners conf
      ≡ ok (record {
        nodes = conf.nodes ++ nodes;
        learners = conf.learners ++ take (length nodes) learners;
      })
unfolding add_nodes
add_nodes_lem [] learners conf h = rw (append-nil conf.nodes, append-nil conf.learners) refl
add_nodes_lem (n ∷ nodes) [] conf h = absurd (omega arith)
add_nodes_lem (n ∷ nodes) (l ∷ learners) conf h =
    add_nodes_lem nodes learners
      (record conf { nodes = conf.nodes ++ n ∷ []; learners = conf.learners ++ l ∷ [] })
      (omega arith)
    ∙ rw
        (
          append_assoc conf.nodes (n ∷ []) nodes,
          append_assoc conf.learners (l ∷ []) (take (length nodes) learners),
        )
        refl

module _ ⦃c : Codec⦄ where
  apply_snapshot_lem :
      (snap : Snapshot) (s : Storage) (d : StorageData)
      → content s ≡ ok d
      → length snap.metadata.conf_state.nodes ≤ length snap.metadata.conf_state.learners
      → apply_snapshot snap s ≡ ok (record { file = some (c.write_storage (with_snapshot snap d)) })
  unfolding apply_snapshot set_snapshot
  apply_snapshot_lem snap s d e l =
      rw
        (
          e,
          add_nodes_lem snap.metadata.conf_state.nodes snap.metadata.conf_state.learners
              d.snap.metadata.conf_state l,
        )
        refl

  -- A snapshot that has a learner for each node is stored where the file, if there is one, can be
  -- read, and so can the new one. This has a defined result. The snapshot is read back with its bytes,
  -- its index and its term; but its nodes stand behind the nodes that were there before, and so do as
  -- many of its learners as it has nodes. The entries are those that were there, and the first index is
  -- the index of the snapshot.
  pub snapshot-apply_snapshot :
      (snap : Snapshot) (s : Storage) (d : StorageData)
      → content s ≡ ok d
      → length snap.metadata.conf_state.nodes ≤ length snap.metadata.conf_state.learners
      → IsReadable (c.write_storage (with_snapshot snap d))
      → Returns
          (λ t.
            (snapshot t ≡ ok (with_snapshot snap d).snap)
            × (entries t ≡ ok d.entries)
            × (first_index t ≡ ok snap.metadata.index))
          (apply_snapshot snap s)
  unfolding snapshot entries first_index
  snapshot-apply_snapshot snap s d e l h =
      let r = load-write_storage (with_snapshot snap d) h in
      rw (apply_snapshot_lem snap s d e l) (rw r refl, rw r refl, rw r refl)
