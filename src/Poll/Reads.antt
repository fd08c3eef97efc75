-- ===== src/Poll/Reads.antt =====
-- What the loops of `handleRead` in epoll.cc and kqueue.cc bring into the buffer.
use mathlib.Core.List.{append_assoc, append-nil}
use sapphiredb.Base.{
  ℕ, ◌+◌, ◌≤◌, ◌≡◌, ◌≢◌, refl, sym, false, Option, none, some, List, [], ◌∷◌, ◌++◌, is_empty, ltb,
  u32, arith, length, length-append, drop,
}
use sapphiredb.Proto.{Bytes}
use sapphiredb.Storage.Laws.{NoZero}
use sapphiredb.Net.{Data}
use sapphiredb.Net.Buffers.{Holds}
use sapphiredb.Net.Delivery.{handle_chunk-Holds}
use sapphiredb.Poll.{runs, ReadResult, chunk, again, interrupted, Kernel, Poll}
use sapphiredb.Poll.Epoll

-- Reads that bring bytes, each with what the array held before, and reads that are interrupted.
abbrev pub brings : List (Option (Bytes × Bytes)) → List ReadResult → List ReadResult
brings [] results = results
brings (none ∷ cs) results = interrupted ∷ brings cs results
brings (some (stack, bytes) ∷ cs) results = chunk stack bytes ∷ brings cs results

-- The bytes that they bring, in order.
abbrev pub brought : List (Option (Bytes × Bytes)) → Bytes
brought [] = []
brought (none ∷ cs) = brought cs
brought (some (stack, bytes) ∷ cs) = bytes ++ brought cs

-- A chunk has some bytes, none of which is zero, and it the memory holds a zero.
abbrev pub Clean : List (Option (Bytes × Bytes)) → Type 0
Clean [] = Unit {0}
Clean (none ∷ cs) = Clean cs
Clean (some (stack, bytes) ∷ cs) =
    (bytes ≢ [])
    × NoZero bytes
    × ((rest : Bytes) × (drop (length bytes) stack ≡ 0 ∷ rest))
    × Clean cs

module _ ⦃os : Kernel⦄ (efd fd : ℕ) (results : List ReadResult) where
  -- If reads that may be interrupted bring chunks of at least one byte, whose bytes fit behind what the
  -- buffer holds, are not zero, and have a zero behind each chunk, and the last read is to be tried again: the buffer holds them
  -- all, in order, the descriptor is queued once, and nothing else has changed.
  pub read_loop-Holds :
      (cs : List (Option (Bytes × Bytes))) (held : Bytes) (p : Poll)
      → Clean cs
      → Holds held p.net.recvbuf
      → length held + length (brought cs) ≤ p.net.recvbuf.size
      → (d : Data) × (Epoll.read_loop efd fd (brings cs (again ∷ results)) p
          ≡ runs (record p { net = record p.net { recvbuf = d }; readfd = p.readfd ++ fd ∷ [] }))
        × Holds (held ++ brought cs) d
  unfolding Epoll.read_loop
  read_loop-Holds [] held p c h l = (p.net.recvbuf, refl, rw (append-nil held) h)
  read_loop-Holds (none ∷ cs) held p c h l = read_loop-Holds cs held p c h l
  read_loop-Holds (some (stack, bytes) ∷ cs) held p (o, z, (rest, s), c) h l =
      let m = length-append bytes (brought cs) in
      let (d₁, e, h₁, k) =
        handle_chunk-Holds held bytes stack rest p.net h (omega (arith, l, m)) z s in
      let small : ltb p.net.recvbuf.size (u32 (length bytes + p.net.recvbuf.len)) ≡ false =
        ground (arith, h.len_eq, h.fits, l, m) in
      let p₁ : Poll = record p { net = record p.net { recvbuf = d₁ } } in
      let (d, f, h') =
        read_loop-Holds cs (held ++ bytes) p₁ c h₁
          (omega (arith, k, length-append held bytes, l, m)) in
      let some_bytes : is_empty bytes ≡ false = ground arith in
      (d, rw (some_bytes, small, e) f, rw (sym (append_assoc held bytes (brought cs))) h')
