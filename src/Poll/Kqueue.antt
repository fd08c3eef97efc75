-- ===== src/Poll/Kqueue.antt =====
-- sapphiredb/common/kqueue.cc: the operations of `Kqueue`.
use sapphiredb.Base.{
  ℕ, ◌+◌, ◌==◌, Bool, true, false, not, Option, some, none, List, [], ◌∷◌, ◌++◌, is_empty, ltb,
  if◌then◌else◌, u32, length, take,
}
use sapphiredb.Base.Table.{Table, assign, at_or, contains}
use sapphiredb.Net.{Netcon, Data, new_netcon, handle_chunk, push_unknownfd, clear_recvbuf}
use sapphiredb.Net
use sapphiredb.Poll.{
  Process, runs, exits, spins, faults, ◌>>>◌, from_outcome, exit_if, Address, Filter, evfilt_read,
  evfilt_write, Change, create_queue, socket, wait, getpeername, accept, listen, close, bind,
  kevent, write, ReadResult, chunk, eof, again, interrupted, failed, Kernel, Poll, is_negative,
  erase_fd, system, set_non_block, open_connection, close_all, closed_fds,
}

-- The `EV_SET`s of `updateEvents` for one filter.
abbrev one_change : Filter → Bool → Bool → List Change
one_change filter wanted modify =
    if wanted
    then record { filter = filter; adds = true } ∷ []
    else if modify
    then record { filter = filter; adds = false } ∷ []
    else []

-- Those of `delete_event`.
abbrev one_delete : Filter → Bool → List Change
one_delete filter wanted = if wanted then record { filter = filter; adds = false } ∷ [] else []

-- The events are `KQUEUE_READ_EVENT` and `KQUEUE_WRITE_EVENT`, each of them wanted or not.
abbrev pub changes : Bool → Bool → Bool → List Change
changes reads writes modify =
    one_change evfilt_read reads modify ++ one_change evfilt_write writes modify

abbrev pub deletes : Bool → Bool → List Change
deletes reads writes = one_delete evfilt_read reads ++ one_delete evfilt_write writes

unfoldable pub bind_peerfd : ℕ → ℕ → Poll → Poll
bind_peerfd id fd p =
    if contains id p.peersfd
    then record p { peersfd = assign id fd p.peersfd }
    else record p { peersfd = assign id fd p.peersfd }

unfoldable pub func_peerfd : (Table ℕ → Process (Table ℕ)) → Poll → Process Poll
func_peerfd func p = func p.peersfd >>> λ t. runs (record p { peersfd = t })

-- The destructor; what it does not close or empty goes with the object.
unfoldable pub destroy : Poll → Poll
unfolding close_all closed_fds
destroy p = record p {
  net = record p.net { unknownfd = [] };
  readfd = [];
  calls = close_all (closed_fds p) p.calls;
}

module _ ⦃os : Kernel⦄ where
  unfoldable pub update_events : ℕ → ℕ → Bool → Bool → Bool → Poll → Process Poll
  unfolding system
  update_events efd fd reads writes modify p =
      let (r, p') = system (kevent efd fd (changes reads writes modify)) p in
      exit_if (not (r == 0)) (runs p')

  unfoldable pub delete_event : ℕ → ℕ → Bool → Bool → Poll → Process Poll
  unfolding system
  delete_event efd fd reads writes p =
      let (r, p') = system (kevent efd fd (deletes reads writes)) p in
      exit_if (not (r == 0)) (runs p')

  unfoldable pub handle_connect : ℕ → ℕ → Poll → Process Poll
  unfolding update_events set_non_block
  handle_connect efd fd p = set_non_block fd p >>> λ p'. update_events efd fd true false false p'

  unfoldable pub connecttopeer : Address → ℕ → Poll → Process Poll
  unfolding handle_connect open_connection
  connecttopeer address id p =
      let (fd, p') = open_connection address p in
      (if id == 0
        then (if p'.logger then runs (record p' { bcastfd = p'.bcastfd ++ fd ∷ [] }) else faults)
        else runs (record p' { peersfd = assign id fd p'.peersfd }))
      >>> λ p₁. handle_connect p₁.epollfd fd p₁

  unfoldable pub handle_accept : ℕ → ℕ → Poll → Process Poll
  unfolding system update_events set_non_block push_unknownfd
  handle_accept efd fd p =
      let (cfd, p₁) = system (accept fd) p in
      let (r, p₂) = system (getpeername cfd) p₁ in
      exit_if (is_negative cfd) (
        exit_if (is_negative r) (
          (if p₂.logger then runs p₂ else faults) >>> λ p₂.
          set_non_block cfd
            (record p₂ { net = push_unknownfd cfd p₂.net; bcastfd = p₂.bcastfd ++ cfd ∷ [] })
          >>> λ p₃. update_events efd cfd true false false p₃))

  -- The end of a connection in `handleRead`: `read` has given 0.
  unfoldable pub end_connection : ℕ → ℕ → Poll → Process Poll
  unfolding delete_event erase_fd
  end_connection efd fd p = delete_event efd fd true false p >>> λ p'.
      runs (record p' { peersfd = erase_fd fd p'.peersfd })

  -- The two loops of `handleRead`, on the results of the calls of `read`.
  unfoldable pub read_loop : ℕ → ℕ → List ReadResult → Poll → Process Poll
  unfolding end_connection delete_event
  read_loop efd fd [] p = spins
  read_loop efd fd (chunk stack bytes ∷ results) p =
      if is_empty bytes
      then end_connection efd fd p
      else if ltb p.net.recvbuf.size (u32 (length bytes + p.net.recvbuf.len))
      then delete_event efd fd true false p
      else (from_outcome (handle_chunk stack bytes p.net) >>> λ n.
          read_loop efd fd results (record p { net = n }))
  read_loop efd fd (eof ∷ results) p = end_connection efd fd p
  read_loop efd fd (again ∷ results) p = runs (record p { readfd = p.readfd ++ fd ∷ [] })
  read_loop efd fd (interrupted ∷ results) p = read_loop efd fd results p
  read_loop efd fd (failed ∷ results) p = exits

  unfoldable pub handle_read : ℕ → ℕ → Poll → Process Poll
  unfolding read_loop
  handle_read efd fd p = read_loop efd fd (os.reads p.calls) p

  -- The bytes that the calls of `write` in the loop take are recorded as one.
  unfoldable pub handle_write : ℕ → ℕ → Poll → Process Poll
  unfolding delete_event
  handle_write efd fd p = from_outcome (Net.handle_write (os.writes p.calls) p.net) >>> λ written.
      if written.1.0
      then delete_event efd fd false true
          (record p { net = written.1.1; calls = write fd written.0 ∷ p.calls })
      else spins

  -- The front of the queue `readfd`.
  unfoldable pub do_front : (ℕ → Poll → Process Poll) → List ℕ → Poll → Process Poll
  unfolding system
  do_front task [] p = runs p
  do_front task (fd ∷ fds) p = task fd (record p { readfd = fds }) >>> λ p₁.
      let p₂ = (system (close fd) p₁).1 in runs (record p₂ { net = clear_recvbuf p₂.net })

  unfoldable pub do_something : (ℕ → Poll → Process Poll) → Poll → Process Poll
  unfolding do_front
  do_something task p = do_front task p.readfd p

  -- One event of the array.
  unfoldable pub handle_event : ℕ → ℕ → ℕ × Option Filter → Poll → Process Poll
  unfolding handle_accept handle_read handle_write
  handle_event efd lfd (fd, some evfilt_read) p =
      if fd == lfd then handle_accept efd fd p else handle_read efd fd p
  handle_event efd lfd (fd, some evfilt_write) p = handle_write efd fd p
  handle_event efd lfd (fd, none) p = exits

  unfoldable pub handle_events : ℕ → ℕ → List (ℕ × Option Filter) → Poll → Process Poll
  unfolding handle_event
  handle_events efd lfd [] p = runs p
  handle_events efd lfd (e ∷ es) p = handle_event efd lfd e p >>> λ p'. handle_events efd lfd es p'

  -- At most `kMaxEvents` events are asked for.
  unfoldable pub kqueue_loop_once : ℕ → ℕ → Poll → Process Poll
  unfolding handle_events system
  kqueue_loop_once efd lfd p =
      let p' = (system wait p).1 in handle_events efd lfd (take 20 (os.filters p'.calls)) p'

  -- The loop over `bcastfd`.
  unfoldable pub update_all : List ℕ → Bool → Bool → Poll → Process Poll
  unfolding update_events
  update_all [] reads writes p = runs p
  update_all (fd ∷ fds) reads writes p =
      update_events p.epollfd fd reads writes false p >>> λ p'. update_all fds reads writes p'

  unfoldable pub send : ℕ → Poll → Process Poll
  unfolding update_all update_events
  send id p =
      if ltb 0 p.net.sendbuf.len
      then (if id == 0
          then update_all p.bcastfd false true p
          else (let fd = at_or 0 id p.peersfd in
              update_events p.epollfd fd false true false
                (record p { peersfd = assign id fd p.peersfd })))
      else runs p

  unfoldable pub recv : ℕ → Poll → Process Poll
  unfolding update_all update_events
  recv id p =
      if id == 0
      then update_all p.bcastfd true false p
      else (let fd = at_or 0 id p.peersfd in
          update_events p.epollfd fd true false false
            (record p { peersfd = assign id fd p.peersfd }))

  unfoldable pub conn : Address → ℕ → Poll → Process Poll
  unfolding connecttopeer
  conn address id p = connecttopeer address id p

  unfoldable pub loop_once : Poll → Process Poll
  unfolding kqueue_loop_once
  loop_once p = kqueue_loop_once p.epollfd p.listenfd p

  unfoldable pub listenp : Poll → Process Poll
  unfolding system set_non_block update_events
  listenp p =
      let p₁ = (system (listen p.listenfd) p).1 in
      set_non_block p₁.listenfd p₁ >>> λ p₂.
      update_events p₂.epollfd p₂.listenfd true false false p₂

  -- The constructor: if `bind` fails, it has not set the logger and the condition variables.
  unfoldable pub new_kqueue : Address → ℕ → Poll
  new_kqueue address bufsize =
      let queue = os.answer (create_queue ∷ []) in
      let listenfd = os.answer (socket ∷ create_queue ∷ []) in
      record {
        net = new_netcon bufsize;
        epollfd = queue;
        listenfd = listenfd;
        peersfd = [];
        readfd = [];
        bcastfd = [];
        logger = os.answer (bind listenfd address ∷ socket ∷ create_queue ∷ []) == 0;
        calls = bind listenfd address ∷ socket ∷ create_queue ∷ [];
      }
