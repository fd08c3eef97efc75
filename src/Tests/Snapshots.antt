-- ===== src/Tests/Snapshots.antt =====
-- The storing of a snapshot, on a file that has one.
use sapphiredb.Base.{ℕ, refl, ◌≡◌, some, ok, [], ◌∷◌, Returns, arith}
use sapphiredb.Proto.{Snapshot, StorageData, empty_storage_data}
use sapphiredb.Storage.{Storage, apply_snapshot, snapshot, entries, first_index}
use sapphiredb.Storage.Laws.{IsReadable, load-write_storage}
use sapphiredb.Storage.Snapshots.{with_snapshot, snapshot-apply_snapshot}
use sapphiredb.Tests.Codecs.{codec}
use sapphiredb.Tests.Nodes.{first_entry}

abbrev snap_of : ℕ → Snapshot
snap_of index = record {
  bytes = 4 ∷ [];
  metadata = record {
    conf_state = record { nodes = 7 ∷ []; learners = 8 ∷ [] };
    index = index;
    term = 1;
  };
}

abbrev before : StorageData
before = record empty_storage_data { snap = snap_of 2; entries = first_entry ∷ [] }

abbrev stored : Storage
stored = record { file = some (codec.write_storage before) }

before-IsReadable : IsReadable ⦃c = codec⦄ (codec.write_storage before)
before-IsReadable = record { no_zero = ground arith; short = omega arith; ended = (_, refl) }

after-IsReadable : IsReadable ⦃c = codec⦄ (codec.write_storage (with_snapshot (snap_of 3) before))
after-IsReadable = record { no_zero = ground arith; short = omega arith; ended = (_, refl) }

snapshot-apply_snapshot_example :
    Returns
      (λ t.
        (snapshot ⦃c = codec⦄ t
          ≡ ok (record {
            bytes = 4 ∷ [];
            metadata = record {
              conf_state = record { nodes = 7 ∷ 7 ∷ []; learners = 8 ∷ 8 ∷ [] };
              index = 3;
              term = 1;
            };
          }))
        × (entries ⦃c = codec⦄ t ≡ ok (first_entry ∷ []))
        × (first_index ⦃c = codec⦄ t ≡ ok 3))
      (apply_snapshot ⦃c = codec⦄ (snap_of 3) stored)
snapshot-apply_snapshot_example =
    snapshot-apply_snapshot ⦃c = codec⦄ (snap_of 3) stored before
      (load-write_storage ⦃c = codec⦄ before before-IsReadable) (omega arith) after-IsReadable
