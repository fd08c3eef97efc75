-- ===== src/Tests/Parts.antt =====
-- The theorems on the log, on a follower's progress and on the storage file, on concrete values.
use sapphiredb.Base.{ℕ, ◌≡◌, refl, true, [], ◌∷◌, ok, arith}
use sapphiredb.Proto.{HardState}
use sapphiredb.Storage.{read_buffer}
use sapphiredb.Storage.Laws.{read_buffer_cut}
use sapphiredb.Net.{Data, Netcon, wrote, handle_write}
use sapphiredb.Net.Buffers.{Holds}
use sapphiredb.Net.Delivery.{handle_write_partial}
use sapphiredb.Tests.Codecs.{codec}

read_buffer_cut_example : read_buffer ⦃c = codec⦄ (8 ∷ 9 ∷ 0 ∷ 10 ∷ []) ≡ ok (8 ∷ 9 ∷ [])
read_buffer_cut_example =
    read_buffer_cut ⦃c = codec⦄ (8 ∷ 9 ∷ []) (10 ∷ []) (ground arith) (omega arith)

abbrev hard_state_of : (term vote commit : ℕ) → HardState
hard_state_of term vote commit = record { term = term; vote = vote; commit = commit }

abbrev empty_data : Data
empty_data = record { len = 0; size = 4; buf = 0 ∷ 0 ∷ 0 ∷ 0 ∷ [] }

abbrev full_data : Data
full_data = record { len = 3; size = 4; buf = 5 ∷ 6 ∷ 7 ∷ 0 ∷ [] }

abbrev sending : Netcon
sending = record { recvbuf = empty_data; sendbuf = full_data; unknownfd = [] }

full_data-Holds : Holds (5 ∷ 6 ∷ 7 ∷ []) full_data
full_data-Holds = record {
  len_eq = refl;
  rest = 0 ∷ [];
  buf_eq = refl;
  full = refl;
  fits = omega arith;
}

handle_write_partial_example :
    (d : Data) × (handle_write (wrote 2 ∷ wrote 1 ∷ []) sending
      ≡ ok (5 ∷ 6 ∷ 5 ∷ [], (true, record sending { sendbuf = d })))
    × Holds [] d
handle_write_partial_example =
    handle_write_partial (5 ∷ 6 ∷ 7 ∷ []) 2 [] sending full_data-Holds (omega arith) (omega arith)
