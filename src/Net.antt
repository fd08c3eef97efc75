-- ===== src/Net.antt =====
-- sapphiredb/common/net.h and net.cc: the two buffers of a connection; and how epoll.cc and
-- kqueue.cc move bytes between them and a socket. What `read` and `write` give is chosen by the
-- environment.
pub mod Buffers
pub mod Delivery
use sapphiredb.Base.{
  ℕ, zero, suc, ◌+◌, ◌-◌, Bool, true, false, List, [], ◌∷◌, ◌++◌, Outcome, ok, undefined, ◌>>=◌,
  ltb, leb, ◌==◌, if◌then◌else◌, u32, length, take, drop, is_empty,
}
use sapphiredb.Proto.{Bytes}
use sapphiredb.Storage.{c_string}

-- `Netcon::Data`: `buf` is the string, which `clear` makes shorter than `size`.
pub record Data : Type 0 where
  pub len : ℕ
  pub size : ℕ
  pub buf : Bytes

pub record Netcon : Type 0 where
  pub recvbuf : Data
  pub sendbuf : Data
  pub unknownfd : List ℕ

-- `buf[i] = b`. At the end of a string only a zero may be written, and changes nothing.
unfoldable pub put : ℕ → ℕ → Bytes → Outcome Bytes
put i b [] = if i == 0 then (if b == 0 then ok [] else undefined) else undefined
put zero b (x ∷ xs) = ok (b ∷ xs)
put (suc i) b (x ∷ xs) = put i b xs >>= λ ys. ok (x ∷ ys)

-- The loop that writes a string from a position on.
unfoldable pub put_all : ℕ → Bytes → Bytes → Outcome Bytes
unfolding put
put_all j [] buf = ok buf
put_all j (ch ∷ text) buf = put j ch buf >>= λ buf'. put_all (j + 1) text buf'

unfoldable pub blank : ℕ → Bytes
blank zero = []
blank (suc n) = 0 ∷ blank n

unfoldable pub new_data : ℕ → Data
unfolding blank
new_data size = record { len = 0; size = size; buf = blank size }

-- The constructor.
unfoldable pub new_netcon : ℕ → Netcon
unfolding new_data
new_netcon bufsize = record {
  recvbuf = new_data bufsize;
  sendbuf = new_data bufsize;
  unknownfd = [];
}

unfoldable pub push_data : Bytes → Netcon → Outcome (Bool × Netcon)
unfolding put_all put
push_data text n =
    let s = n.sendbuf in
    if ltb 0 s.len
    then ok (false, n)
    else if ltb s.size (s.len + length text)
    then ok (false, n)
    else (put_all s.len text s.buf >>= λ buf. put (s.len + length text) 0 buf >>= λ buf'. ok (
      true,
      record n { sendbuf = record { len = u32 (s.len + length text); size = s.size; buf = buf' } },
    ))

-- The string from the beginning up to a length, which must be in it.
unfoldable pub prefix : ℕ → Bytes → Outcome Bytes
prefix n buf = if leb n (length buf) then ok (take n buf) else undefined

unfoldable pub pop_data : Netcon → Outcome (Bytes × Netcon)
unfolding prefix
pop_data n =
    let s = n.recvbuf in
    if ltb 0 s.len
    then (prefix s.len s.buf >>= λ text.
        ok (text, record n { recvbuf = record { len = 0; size = s.size; buf = s.buf } }))
    else ok ([], n)

unfoldable pub clear : Data → Data
clear s = record s { len = 0; buf = [] }

unfoldable pub clear_sendbuf : Netcon → Netcon
unfolding clear
clear_sendbuf n = record n { sendbuf = clear n.sendbuf }

unfoldable pub clear_recvbuf : Netcon → Netcon
unfolding clear
clear_recvbuf n = record n { recvbuf = clear n.recvbuf }

unfoldable pub push_unknownfd : ℕ → Netcon → Netcon
push_unknownfd fd n = record n { unknownfd = n.unknownfd ++ fd ∷ [] }

pop_first : List ℕ → Netcon → Outcome (ℕ × Netcon)
pop_first [] n = undefined
pop_first (fd ∷ fds) n = ok (fd, record n { unknownfd = fds })

unfoldable pub pop_unknownfd : Netcon → Outcome (ℕ × Netcon)
unfolding pop_first
pop_unknownfd n = pop_first n.unknownfd n

unfoldable pub empty_unknownfd : Netcon → Bool
empty_unknownfd n = is_empty n.unknownfd

-- What a call of `write` gives: a number of bytes, `EAGAIN` or `EINTR`, another error, or 0.
pub data WriteResult : Type 0 where
  wrote : ℕ → WriteResult
  again failed closed : WriteResult

-- The loop of `handleWrite` on the results of its calls: the bytes that go to the socket, the
-- length that is left, and whether the loop has ended. Each call is given the string from its
-- beginning.
unfoldable pub write_loop : List WriteResult → Bytes → ℕ → Bytes × (ℕ × Bool)
write_loop [] buf len = ([], (len, false))
write_loop (again ∷ results) buf len = write_loop results buf len
write_loop (failed ∷ results) buf len = ([], (len, true))
write_loop (closed ∷ results) buf len = ([], (len, true))
write_loop (wrote r ∷ results) buf len =
    let left = u32 (len + 4294967296 - r) in
    let (sent, rest) = write_loop results buf left in
    if left == 0 then (take r buf, (left, true)) else (take r buf ++ sent, rest)

-- `handleWrite`: the bytes sent, whether it has ended, and the connection after it.
unfoldable pub handle_write : List WriteResult → Netcon → Outcome (Bytes × (Bool × Netcon))
unfolding prefix write_loop
handle_write results n =
    let s = n.sendbuf in
    prefix s.len s.buf >>= λ buf.
    let (sent, (left, ended)) = write_loop results buf s.len in
    ok (sent, (ended, record n { sendbuf = record s { len = left } }))

-- What one call of `read` that gives bytes does in `handleRead`: the bytes up to the first zero of
-- `char buf[4096]` are copied, and the length grows by the number of bytes read. `stack` is what
-- the array and the memory after it held before.
unfoldable pub handle_chunk : Bytes → Bytes → Netcon → Outcome Netcon
unfolding put_all c_string
handle_chunk stack chunk n =
    let s = n.recvbuf in
    if ltb s.size (u32 (length chunk + s.len))
    then ok n
    else (c_string (chunk ++ drop (length chunk) stack) >>= λ text.
        put_all s.len text s.buf >>= λ buf. ok (record n {
          recvbuf = record { len = u32 (s.len + length chunk); size = s.size; buf = buf };
        }))
