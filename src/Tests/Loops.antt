-- ===== src/Tests/Loops.antt =====
-- The theorems on the thread pool, the event loops, and a message between two nodes.
use sapphiredb.Base.{
  ℕ, ◌≤◌, ◌≡◌, refl, Bool, true, false, Option, none, some, List, [], ◌∷◌, ◌++◌, arith, length,
}
use sapphiredb.Proto.{Bytes}
use sapphiredb.Net.{Data, Netcon, wrote}
use sapphiredb.Net
use sapphiredb.Tests.Codecs.{codec}
use sapphiredb.Tests.Nodes.{beat, leader, follower, quiet}
use sapphiredb.Net.Buffers.{Holds}
use sapphiredb.ThreadPool.{
  Pooled, new_pool, launch, enqueue, work, take_front, stop_pool, joined, Steps, here, after,
  enqueues, works, stops, waiting, running, returned,
}
use sapphiredb.ThreadPool.Fifo.{Fifo, Steps-Fifo}
use sapphiredb.ThreadPool.Drain.{left, Steps-ends, joined-taken}
use sapphiredb.Poll.{runs, epoll_ctl, epoll_ctl_mod, write, chunk, again, Kernel, Poll}
use sapphiredb.Node.Wire.{Node}
use sapphiredb.Node.Wire.Reach.{sending, receiving, reaches}
use sapphiredb.Poll.Epoll
use sapphiredb.Poll.Kqueue
use sapphiredb.Poll.Same.{Watches, unlogged, handlers-same}
use sapphiredb.Poll.Reads.{brings, Clean, read_loop-Holds}

-- One worker; a task, the number 5, is accepted, taken and ended; then the pool stops, and the worker
-- returns.
abbrev stopped : Pooled ℕ
stopped = record {
  pool = record { tasks = []; stop = true };
  workers = waiting ∷ [];
  accepted = 5 ∷ [];
  taken = 5 ∷ [];
}

-- Every task ends.
abbrev all_end : ℕ → Bool
all_end task = true

abbrev over : Pooled ℕ
over = record stopped { workers = returned ∷ [] }

stopped-Steps : Steps all_end (new_pool 1) 4 stopped
unfolding new_pool launch enqueue work take_front stop_pool
stopped-Steps =
    after
      (after
        (after (after here (enqueues 5 (record { tasks = 5 ∷ []; stop = false }) refl))
          (works [] [] waiting (running 5) (record { tasks = []; stop = false }) refl refl))
        (works [] [] (running 5) waiting (record { tasks = []; stop = false }) refl refl))
      (stops refl)

last_step : Steps all_end stopped 1 over
unfolding work take_front
last_step = after here (works [] [] waiting returned (record { tasks = []; stop = true }) refl refl)

over-Steps : Steps all_end (new_pool 1) 5 over
unfolding work take_front
over-Steps =
    after stopped-Steps
      (works [] [] waiting returned (record { tasks = []; stop = true }) refl refl)

Steps-Fifo_example : Fifo stopped
Steps-Fifo_example = Steps-Fifo all_end 1 4 stopped stopped-Steps

Steps-ends_example :
    (1 ≤ left stopped)
    × ((u : Pooled ℕ) × (k : ℕ) × Steps all_end over k u × (joined u.workers ≡ true))
Steps-ends_example = Steps-ends all_end stopped over 1 (λ task. refl) refl last_step

joined-taken_example : (over.taken ≡ over.accepted) × (over.pool.stop ≡ true)
unfolding joined
joined-taken_example = joined-taken all_end 0 5 over over-Steps refl

-- A task that never ends, in the only worker, when the pool is stopped.
abbrev serving : Pooled ℕ
serving = record {
  pool = record { tasks = []; stop = false };
  workers = running 5 ∷ [];
  accepted = 5 ∷ [];
  taken = 5 ∷ [];
}

abbrev none_end : ℕ → Bool
none_end task = false

quiet-Watches : Watches ⦃os = quiet⦄
quiet-Watches = ground arith

abbrev buffer : Data
buffer = record { len = 0; size = 4; buf = 0 ∷ 0 ∷ 0 ∷ 0 ∷ [] }

abbrev waits_to_send : Data
waits_to_send = record { len = 1; size = 4; buf = 5 ∷ 0 ∷ 0 ∷ 0 ∷ [] }

-- An event loop that knows peer 2 by descriptor 8.
abbrev loop : Poll
loop = record {
  net = record { recvbuf = buffer; sendbuf = waits_to_send; unknownfd = [] };
  epollfd = 3;
  listenfd = 4;
  peersfd = (2, 8) ∷ [];
  readfd = [];
  bcastfd = 8 ∷ [];
  logger = true;
  calls = [];
}

buffer-Holds : Holds [] buffer
buffer-Holds = record {
  len_eq = refl;
  rest = 0 ∷ 0 ∷ 0 ∷ 0 ∷ [];
  buf_eq = refl;
  full = refl;
  fits = omega arith;
}

-- Two bytes, an interrupted read, and one byte more.
abbrev pieces : List (Option (Bytes × Bytes))
pieces = some (1 ∷ 1 ∷ 0 ∷ [], 6 ∷ 7 ∷ []) ∷ none ∷ some (6 ∷ 0 ∷ [], 9 ∷ []) ∷ []

pieces-Clean : Clean pieces
pieces-Clean = ground arith

read_loop-Holds_example :
    (d : Data) × (Epoll.read_loop ⦃os = quiet⦄ 3 8 (brings pieces (again ∷ [])) loop
      ≡ runs (record loop { net = record loop.net { recvbuf = d }; readfd = 8 ∷ [] }))
    × Holds (6 ∷ 7 ∷ 9 ∷ []) d
read_loop-Holds_example =
    read_loop-Holds ⦃os = quiet⦄ 3 8 [] pieces [] loop pieces-Clean buffer-Holds (omega arith)

handlers-same_example :
    (unlogged (Epoll.handle_read ⦃os = quiet⦄ 3 8 loop)
      ≡ unlogged (Kqueue.handle_read ⦃os = quiet⦄ 3 8 loop))
    × (unlogged (Epoll.handle_write ⦃os = quiet⦄ 3 8 loop)
        ≡ unlogged (Kqueue.handle_write ⦃os = quiet⦄ 3 8 loop))
    × (unlogged (Epoll.send ⦃os = quiet⦄ 2 loop) ≡ unlogged (Kqueue.send ⦃os = quiet⦄ 2 loop))
handlers-same_example =
    handlers-same ⦃os = quiet⦄ quiet-Watches 3 8 2 loop (omega arith) refl (omega arith)

-- The bytes of a heartbeat, and what the reading array holds with a zero behind them.
abbrev text : Bytes
text = codec.write_message beat

abbrev with_zero : Bytes
with_zero = text ++ 0 ∷ []

abbrev here_system : Kernel
here_system = record quiet { writes = λ calls. Net.again ∷ wrote (length text) ∷ [] }

abbrev there_system : Kernel
there_system = record quiet { reads = λ calls. chunk with_zero text ∷ again ∷ [] }

abbrev empty_buffer : Data
empty_buffer = record { len = 0; size = 17; buf = with_zero }

empty_buffer-Holds : Holds [] empty_buffer
empty_buffer-Holds = record {
  len_eq = refl;
  rest = with_zero;
  buf_eq = refl;
  full = refl;
  fits = omega arith;
}

abbrev empty_loop : Poll
empty_loop = record loop {
  net = record { recvbuf = empty_buffer; sendbuf = empty_buffer; unknownfd = [] };
}

abbrev sender : Node
sender = record { raft = record leader { sendmsgs = beat ∷ [] }; kque = empty_loop }

abbrev receiver : Node
receiver = record { raft = follower; kque = empty_loop }

here_system-Watches : Watches ⦃os = here_system⦄
here_system-Watches = ground arith

reaches_example :
    ((a' : Node) × (sending ⦃os = here_system⦄ ⦃c = codec⦄ 8 sender ≡ runs a')
      × (a'.raft ≡ leader)
      × (a'.kque.calls
          ≡ epoll_ctl 3 8 Epoll.reads_events epoll_ctl_mod
            ∷ write 8 text
            ∷ epoll_ctl 3 8 Epoll.writes_events epoll_ctl_mod
            ∷ [])
      × Holds [] a'.kque.net.sendbuf)
    × ((b' : Node) × (receiving ⦃os = there_system⦄ ⦃c = codec⦄ 8 receiver ≡ runs b')
        × (b'.raft ≡ record follower { recvmsgs = beat ∷ [] })
        × Holds [] b'.kque.net.recvbuf)
reaches_example =
    reaches ⦃c = codec⦄ beat here_system there_system here_system-Watches [] 8 8 1 [] []
      (some (with_zero, text) ∷ []) sender receiver refl (omega arith) refl refl (omega arith)
      (omega arith) empty_buffer-Holds (omega arith) refl refl
      (ground arith, ground arith, ([], refl), tt) refl empty_buffer-Holds (omega arith)
