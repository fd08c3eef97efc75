-- ===== src/Poll.antt =====
-- sapphiredb/common/epoll.h and kqueue.h: the state of an event loop, and the system calls that it
-- makes. What the system answers is a parameter; each call that changes something is recorded.
pub mod Epoll
pub mod Kqueue
pub mod Reads
pub mod Same
pub mod Peers
use sapphiredb.Base.{
  ℕ, ◌+◌, ◌==◌, Bool, true, false, not, List, [], ◌∷◌, ◌++◌, Option, Outcome, ok, undefined, leb,
  map, if◌then◌else◌,
}
use sapphiredb.Base.Table.{Table, find, assign, at_or, contains}
use sapphiredb.Proto.{Bytes}
use sapphiredb.Net.{Netcon, Data, WriteResult}

-- What is called with a state may go on, end the process by `exit(1)`, be still in a loop when the
-- results of its calls are used up, or have undefined behaviour.
pub data Process (A : Type 0) : Type 0 where
  runs : A → Process A
  exits spins faults : Process A

infixl 5 ◌>>>◌
abbrev pub ◌>>>◌ : {A B : Type 0} → Process A → (A → Process B) → Process B
runs a >>> f = f a
exits >>> f = exits
spins >>> f = spins
faults >>> f = faults

abbrev pub from_outcome : {A : Type 0} → Outcome A → Process A
from_outcome (ok a) = runs a
from_outcome undefined = faults

-- The macro of that name.
abbrev pub exit_if : {A : Type 0} → Bool → Process A → Process A
exit_if b m = if b then exits else m

-- What the process goes on with satisfies `P`, and it does go on.
abbrev pub Runs : {A : Type 0} → (A → Type 0) → Process A → Type 0
Runs P (runs a) = P a
Runs P exits = ⊥
Runs P spins = ⊥
Runs P faults = ⊥

pub record Address : Type 0 where
  pub ip : Bytes
  pub port : ℕ

-- The bits of an event that the code uses.
pub record Events : Type 0 where
  pub epollin : Bool
  pub epollout : Bool
  pub epollerr : Bool
  pub epollet : Bool

pub data Op : Type 0 where
  epoll_ctl_add epoll_ctl_mod epoll_ctl_del : Op

pub data Filter : Type 0 where
  evfilt_read evfilt_write : Filter

-- One `EV_SET`: the filter, and whether it is added or deleted.
pub record Change : Type 0 where
  pub filter : Filter
  pub adds : Bool

pub data Call : Type 0 where
  create_queue socket wait : Call
  get_flags getpeername accept listen close : ℕ → Call
  set_nonblock : ℕ → ℕ → Call
  bind connect : ℕ → Address → Call
  epoll_ctl : ℕ → ℕ → Events → Op → Call
  kevent : ℕ → ℕ → List Change → Call
  write : ℕ → Bytes → Call

-- What a call of `read` gives: bytes, with what the array and the memory behind it held before, where no
-- bytes are the end, too; the end; `EAGAIN`; `EINTR`; or another error.
pub data ReadResult : Type 0 where
  chunk : Bytes → Bytes → ReadResult
  eof again interrupted failed : ReadResult

-- The system: the 32-bit result of the last of the calls so far, the results of the calls of `read`
-- and `write` that a loop makes next, and what waiting gives: descriptors with their events, or with
-- their filters, where none is one that the code does not know.
pub record Kernel : Type 0 where
  pub answer : List Call → ℕ
  pub reads : List Call → List ReadResult
  pub writes : List Call → List WriteResult
  pub events : List Call → List (ℕ × Events)
  pub filters : List Call → List (ℕ × Option Filter)

-- The fields of `Epoll` and `Kqueue`, which are the same, and the calls so far, the last one first.
-- `logger`: whether the constructor has come to its end, and so set the logger and the condition
-- variables. Opening and accepting a connection look at it; the other operations are those of an
-- object for which it has.
pub record Poll : Type 0 where
  pub net : Netcon
  pub epollfd : ℕ
  pub listenfd : ℕ
  pub peersfd : Table ℕ
  pub readfd : List ℕ
  pub bcastfd : List ℕ
  pub logger : Bool
  pub calls : List Call

-- A word of 32 bits as `int32_t` is below 0.
abbrev pub is_negative : ℕ → Bool
is_negative r = leb 2147483648 r

-- The lengths are unsigned.
unfoldable pub is_recv_empty : Poll → Bool
is_recv_empty p = leb p.net.recvbuf.len 0

unfoldable pub is_send_empty : Poll → Bool
is_send_empty p = leb p.net.sendbuf.len 0

-- The loop of the end of a connection: the first entry with the descriptor is erased.
unfoldable pub erase_fd : ℕ → Table ℕ → Table ℕ
erase_fd fd [] = []
erase_fd fd ((id, peer) ∷ t) = if peer == fd then t else (id, peer) ∷ erase_fd fd t

-- The descriptors that the destructor closes, in its order.
unfoldable pub closed_fds : Poll → List ℕ
closed_fds p =
    p.listenfd ∷ p.epollfd ∷ map (λ e. e.1) p.peersfd
    ++ (p.bcastfd ++ (p.net.unknownfd ++ p.readfd))

-- One call of `close` for each, after those before.
unfoldable pub close_all : List ℕ → List Call → List Call
close_all [] calls = calls
close_all (fd ∷ fds) calls = close_all fds (close fd ∷ calls)

module _ ⦃os : Kernel⦄ where
  unfoldable pub system : Call → Poll → ℕ × Poll
  system c p = let calls = c ∷ p.calls in (os.answer calls, record p { calls = calls })

  unfoldable pub set_non_block : ℕ → Poll → Process Poll
  unfolding system
  set_non_block fd p =
      let (flags, p₁) = system (get_flags fd) p in
      let (r, p₂) = system (set_nonblock fd flags) p₁ in
      exit_if (is_negative flags) (exit_if (is_negative r) (runs p₂))

  -- The descriptor of a new connection to a peer; the results of `bind` and `connect` are not used.
  unfoldable pub open_connection : Address → Poll → ℕ × Poll
  unfolding system
  open_connection address p =
      let (fd, p₁) = system socket p in
      let (_, p₂) = system (bind fd address) p₁ in
      let (_, p₃) = system (connect fd address) p₂ in (fd, p₃)
