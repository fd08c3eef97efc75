-- ===== src/Net/Delivery.antt =====
-- A text on its way from one connection's buffer to another's.
use sapphiredb.Base.{
  ℕ, zero, suc, ◌+◌, ◌-◌, ◌≤◌, ◌<◌, ◌≡◌, refl, sym, true, List, [], ◌∷◌, ◌++◌, Outcome, ok, ◌>>=◌,
  IsU32, length, length-append, length-drop, take, take_of_length-le, drop, arith,
}
use sapphiredb.Proto.{Bytes}
use sapphiredb.Storage.Laws.{NoZero, c_string-append}
use sapphiredb.Net.{
  Data, Netcon, push_data, pop_data, WriteResult, wrote, again, write_loop, handle_write,
  handle_chunk,
}
use sapphiredb.Net.Buffers.{Holds, put_all-append, put_zero, prefix-Holds, emptied}

-- A text that fits is taken by an empty send buffer.
pub push_data-Holds :
    (text : Bytes) (n : Netcon)
    → Holds [] n.sendbuf
    → length text ≤ n.sendbuf.size
    → (d : Data) × (push_data text n ≡ ok (true, record n { sendbuf = d }))
      × Holds text d
      × (d.size ≡ n.sendbuf.size)
unfolding push_data
push_data-Holds text n h l =
    let (rest', e, k) = put_zero text (drop (length text) h.rest) in
    let d : Data = record { len = length text; size = n.sendbuf.size; buf = text ++ rest' } in
    (
      d,
      ground (arith, put_all-append text [] h.rest, h.buf_eq, h.full, h.fits, h.len_eq, e),
      record {
        len_eq = refl;
        rest = rest';
        buf_eq = refl;
        full = omega (arith, k, length-drop (length text) h.rest, h.full);
        fits = h.fits;
      },
      refl,
    )

abbrev pub agains : ℕ → List WriteResult → List WriteResult
agains zero results = results
agains (suc k) results = again ∷ agains k results

write_loop-agains :
    (k : ℕ) (results : List WriteResult) (buf : Bytes) (len : ℕ)
    → write_loop (agains k results) buf len ≡ write_loop results buf len
unfolding write_loop
write_loop-agains zero results buf len = refl
write_loop-agains (suc k) results buf len = write_loop-agains k results buf len

whole_write :
    (text : Bytes) (k : ℕ) (results : List WriteResult)
    → 0 < length text
    → IsU32 (length text)
    → write_loop (agains k (wrote (length text) ∷ results)) text (length text) ≡ (text, (0, true))
unfolding write_loop
whole_write text k results p b =
    rw (write_loop-agains k (wrote (length text) ∷ results) text (length text))
      (ground (arith, take_of_length-le (length text) text))

-- What a send buffer holds goes to the socket whole, if one call takes it.
pub handle_write-Holds :
    (text : Bytes) (k : ℕ) (results : List WriteResult) (n : Netcon)
    → Holds text n.sendbuf
    → 0 < length text
    → (d : Data) × (handle_write (agains k (wrote (length text) ∷ results)) n
        ≡ ok (text, (true, record n { sendbuf = d })))
      × Holds [] d
unfolding handle_write
handle_write-Holds text k results n h p = (
  record n.sendbuf { len = 0 },
  rw
      (
        prefix-Holds text n.sendbuf h,
        h.len_eq,
        whole_write text k results p (omega (arith, h.full, h.fits)),
      )
      refl,
  emptied text n.sendbuf h,
)

pub handle_chunk-Holds :
    (held chunk stack rest : Bytes) (n : Netcon)
    → Holds held n.recvbuf
    → length held + length chunk ≤ n.recvbuf.size
    → NoZero chunk
    → drop (length chunk) stack ≡ 0 ∷ rest
    → (d : Data) × (handle_chunk stack chunk n ≡ ok (record n { recvbuf = d }))
      × Holds (held ++ chunk) d
      × (d.size ≡ n.recvbuf.size)
unfolding handle_chunk
handle_chunk-Holds held chunk stack rest n h l z e = (
  record n.recvbuf {
    len = length held + length chunk;
    buf = (held ++ chunk) ++ drop (length chunk) h.rest;
  },
  ground (
    arith,
    c_string-append chunk rest z,
    put_all-append chunk held h.rest,
    h.len_eq,
    h.buf_eq,
    h.full,
    h.fits,
    e,
  ),
  record {
    len_eq = sym (length-append held chunk);
    rest = drop (length chunk) h.rest;
    buf_eq = refl;
    full = omega (arith, length-drop (length chunk) h.rest, length-append held chunk, h.full);
    fits = h.fits;
  },
  refl,
)

pub pop_data-Holds :
    (text : Bytes) (n : Netcon)
    → Holds text n.recvbuf
    → 0 < length text
    → (d : Data) × (pop_data n ≡ ok (text, record n { recvbuf = d })) × Holds [] d
unfolding pop_data
pop_data-Holds text n h p = (
  record n.recvbuf { len = 0 },
  ground (arith, prefix-Holds text n.recvbuf h, h.len_eq),
  emptied text n.recvbuf h,
)

-- A text is pushed into one connection, written to the socket, read from it by the other
-- connection, and popped there. The results are those of the calls of `write`.
abbrev pub transfer :
    Bytes → List WriteResult → Bytes → Netcon → Netcon → Outcome (Bytes × (Netcon × Netcon))
transfer text results stack a b = push_data text a >>= λ pushed.
    handle_write results (pushed.1) >>= λ written. handle_chunk stack written.0 b >>= λ b₁.
    pop_data b₁ >>= λ popped. ok (popped.0, (written.1.1, popped.1))

-- A text that fits into the empty send buffer of one connection and the empty receive buffer of the
-- other, and has no zero byte, arrives whole, and leaves both buffers empty: if one call of `write`
-- takes it, after any number of calls that are to be repeated, one call of `read` brings it, and
-- the memory behind it holds a zero.
pub pop_data-push_data :
    (text : Bytes) (k : ℕ) (results : List WriteResult) (stack rest : Bytes) (a b : Netcon)
    → Holds [] a.sendbuf
    → Holds [] b.recvbuf
    → 0 < length text
    → length text ≤ a.sendbuf.size
    → length text ≤ b.recvbuf.size
    → NoZero text
    → drop (length text) stack ≡ 0 ∷ rest
    → (d : Data) × (e : Data) × (transfer text (agains k (wrote (length text) ∷ results)) stack a b
        ≡ ok (text, (record a { sendbuf = d }, record b { recvbuf = e })))
      × Holds [] d
      × Holds [] e
pop_data-push_data text k results stack rest a b ha hb p la lb z e =
    let (d₁, pushed, h₁, _) = push_data-Holds text a ha la in
    let (d₂, written, h₂) = handle_write-Holds text k results (record a { sendbuf = d₁ }) h₁ p in
    let (e₁, chunk, h₃, _) = handle_chunk-Holds [] text stack rest b hb (omega arith) z e in
    let (e₂, popped, h₄) = pop_data-Holds text (record b { recvbuf = e₁ }) h₃ p in
    (d₂, e₂, rw (pushed, written, chunk, popped) refl, h₂, h₄)

-- When a first call of `write` takes only some bytes of a text and a second call takes the number
-- that is left, the second one starts from the beginning of the text again.
pub handle_write_partial :
    (text : Bytes) (k : ℕ) (results : List WriteResult) (n : Netcon)
    → Holds text n.sendbuf
    → 0 < k
    → k < length text
    → (d : Data) × (handle_write (wrote k ∷ wrote (length text - k) ∷ results) n
        ≡ ok (take k text ++ take (length text - k) text, (true, record n { sendbuf = d })))
      × Holds [] d
unfolding handle_write write_loop
handle_write_partial text k results n h p l = (
  record n.sendbuf { len = 0 },
  rw (prefix-Holds text n.sendbuf h, h.len_eq) (ground (arith, h.full, h.fits)),
  emptied text n.sendbuf h,
)
