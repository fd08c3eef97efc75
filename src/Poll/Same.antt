-- ===== src/Poll/Same.antt =====
-- Where epoll.cc and kqueue.cc do the same.
use sapphiredb.Base.{
  ℕ, ◌+◌, ◌≡◌, ◌≢◌, refl, inl, inr, Bool, true, false, List, [], ◌∷◌, Outcome, ok, undefined, ltb,
  ◌==◌, is_empty, u32, arith, length, if◌then◌else◌, Bool-cases,
}
use sapphiredb.Base.Table.{at_or, contains, assign_self}
use sapphiredb.Proto.{Bytes}
use sapphiredb.Net.{Data, Netcon, handle_chunk}
use sapphiredb.Net
use sapphiredb.Poll.{
  Process, runs, exits, spins, faults, ◌>>>◌, from_outcome, Events, Op, epoll_ctl_del,
  epoll_ctl_mod, Change, Call, epoll_ctl, kevent, write, ReadResult, chunk, eof, again, interrupted,
  failed, Kernel, Poll, system,
}
use sapphiredb.Poll.Epoll
use sapphiredb.Poll.Kqueue

-- The process without the record of its calls.
unfoldable pub unlogged : Process Poll → Process Poll
unlogged (runs p) = runs (record p { calls = [] })
unlogged exits = exits
unlogged spins = spins
unlogged faults = faults

-- Changing the events of a descriptor always succeeds.
pub record Watches ⦃os : Kernel⦄ : Type 0 where
  pub epoll_ctl_ok :
      (efd fd : ℕ) (events : Events) (op : Op) (calls : List Call)
      → os.answer (epoll_ctl efd fd events op ∷ calls) ≡ 0
  pub kevent_ok :
      (efd fd : ℕ) (changes : List Change) (calls : List Call)
      → os.answer (kevent efd fd changes ∷ calls) ≡ 0

module _ ⦃os : Kernel⦄ (w : Watches) where
  pub Epoll-update_events :
      (efd fd : ℕ) (events : Events) (op : Op) (p : Poll)
      → Epoll.update_events efd fd events op p
        ≡ runs (record p { calls = epoll_ctl efd fd events op ∷ p.calls })
  unfolding Epoll.update_events system
  Epoll-update_events efd fd events op p = rw (w.epoll_ctl_ok efd fd events op p.calls) refl

  pub Kqueue-update_events :
      (efd fd : ℕ) (reads writes modify : Bool) (p : Poll)
      → Kqueue.update_events efd fd reads writes modify p
        ≡ runs (record p { calls = kevent efd fd (Kqueue.changes reads writes modify) ∷ p.calls })
  unfolding Kqueue.update_events system
  Kqueue-update_events efd fd reads writes modify p =
      rw (w.kevent_ok efd fd (Kqueue.changes reads writes modify) p.calls) refl

  Kqueue-delete_event :
      (efd fd : ℕ) (reads writes : Bool) (p : Poll)
      → Kqueue.delete_event efd fd reads writes p
        ≡ runs (record p { calls = kevent efd fd (Kqueue.deletes reads writes) ∷ p.calls })
  unfolding Kqueue.delete_event system
  Kqueue-delete_event efd fd reads writes p =
      rw (w.kevent_ok efd fd (Kqueue.deletes reads writes) p.calls) refl

  unlogged-bind :
      {A : Type 0} (m : Outcome A) (f g : A → Process Poll)
      → ((a : A) → unlogged (f a) ≡ unlogged (g a))
      → unlogged (from_outcome m >>> f) ≡ unlogged (from_outcome m >>> g)
  unlogged-bind (ok a) f g h = h a
  unlogged-bind undefined f g h = refl

  end_connection-same :
      (efd fd : ℕ) (p : Poll)
      → unlogged (Epoll.end_connection efd fd p) ≡ unlogged (Kqueue.end_connection efd fd p)
  unfolding Epoll.end_connection Kqueue.end_connection unlogged
  end_connection-same efd fd p =
      rw
        (
          Kqueue-delete_event efd fd true false p,
          Epoll-update_events efd fd Epoll.input_event epoll_ctl_del p,
        )
        refl

  -- What follows a chunk that has some bytes.
  chunk-same :
      (efd fd : ℕ) (stack bytes : Bytes) (results : List ReadResult) (p : Poll)
      → ((q : Poll)
          → unlogged (Epoll.read_loop efd fd results q)
            ≡ unlogged (Kqueue.read_loop efd fd results q))
      → let full = ltb p.net.recvbuf.size (u32 (length bytes + p.net.recvbuf.len)) in
        unlogged (
          if full
          then runs p
          else (from_outcome (handle_chunk stack bytes p.net) >>> λ n.
              Epoll.read_loop efd fd results (record p { net = n })))
        ≡ unlogged (
            if full
            then Kqueue.delete_event efd fd true false p
            else (from_outcome (handle_chunk stack bytes p.net) >>> λ n.
                Kqueue.read_loop efd fd results (record p { net = n })))
  unfolding unlogged
  chunk-same efd fd stack bytes results p h =
      elim (Bool-cases (ltb p.net.recvbuf.size (u32 (length bytes + p.net.recvbuf.len)))) [
        | inl e ↦ rw (e, Kqueue-delete_event efd fd true false p) refl
        | inr e ↦ rw e (
            unlogged-bind (handle_chunk stack bytes p.net)
              (λ n. Epoll.read_loop efd fd results (record p { net = n }))
              (λ n. Kqueue.read_loop efd fd results (record p { net = n }))
              (λ n. h (record p { net = n })))
      ]

  read_loop-same :
      (efd fd : ℕ) (results : List ReadResult) (p : Poll)
      → unlogged (Epoll.read_loop efd fd results p) ≡ unlogged (Kqueue.read_loop efd fd results p)
  unfolding Epoll.read_loop Kqueue.read_loop unlogged
  read_loop-same efd fd [] p = refl
  read_loop-same efd fd (chunk stack bytes ∷ results) p = elim (Bool-cases (is_empty bytes)) [
    | inl e ↦ rw e (end_connection-same efd fd p)
    | inr e ↦ rw e (chunk-same efd fd stack bytes results p (read_loop-same efd fd results))
  ]
  read_loop-same efd fd (eof ∷ results) p = end_connection-same efd fd p
  read_loop-same efd fd (again ∷ results) p = refl
  read_loop-same efd fd (interrupted ∷ results) p = read_loop-same efd fd results p
  read_loop-same efd fd (failed ∷ results) p = refl

  handle_read-same :
      (efd fd : ℕ) (p : Poll)
      → unlogged (Epoll.handle_read efd fd p) ≡ unlogged (Kqueue.handle_read efd fd p)
  unfolding Epoll.handle_read Kqueue.handle_read
  handle_read-same efd fd p = read_loop-same efd fd (os.reads p.calls) p

  write_end :
      (efd fd : ℕ) (written : Bytes × (Bool × Netcon)) (p : Poll)
      → let q = record p { net = written.1.1; calls = write fd written.0 ∷ p.calls } in
        unlogged (
          if written.1.0
          then Epoll.update_events p.epollfd fd Epoll.reads_events epoll_ctl_mod q
          else spins)
        ≡ unlogged (if written.1.0 then Kqueue.delete_event efd fd false true q else spins)
  unfolding unlogged
  write_end efd fd (sent, (true, n)) p =
      let q : Poll = record p { net = n; calls = write fd sent ∷ p.calls } in
      rw
        (
          Kqueue-delete_event efd fd false true q,
          Epoll-update_events p.epollfd fd Epoll.reads_events epoll_ctl_mod q,
        )
        refl
  write_end efd fd (sent, (false, n)) p = refl

  handle_write-same :
      (efd fd : ℕ) (p : Poll)
      → unlogged (Epoll.handle_write efd fd p) ≡ unlogged (Kqueue.handle_write efd fd p)
  unfolding Epoll.handle_write Kqueue.handle_write
  handle_write-same efd fd p =
      unlogged-bind (Net.handle_write (os.writes p.calls) p.net) _ _
        (λ written. write_end efd fd written p)

  -- For a peer that is known by a descriptor other than 0.
  send_peer-same :
      (id : ℕ) (p : Poll)
      → id ≢ 0
      → contains id p.peersfd ≡ true
      → at_or 0 id p.peersfd ≢ 0
      → unlogged (Epoll.send id p) ≡ unlogged (Kqueue.send id p)
  unfolding Epoll.send Kqueue.send unlogged
  send_peer-same id p n k z =
      let fd = at_or 0 id p.peersfd in
      let a : (id == 0) ≡ false = ground arith in
      let b : (fd == 0) ≡ false = ground arith in
      rw
        (
          a,
          b,
          k,
          assign_self 0 id p.peersfd k,
          Epoll-update_events p.epollfd fd Epoll.writes_events epoll_ctl_mod p,
          Kqueue-update_events p.epollfd fd false true false p,
        )
        (if-same (ltb 0 p.net.sendbuf.len))
    where
      if-same :
          (b : Bool)
          → unlogged (
              if b
              then runs (record p {
                calls =
                    epoll_ctl p.epollfd (at_or 0 id p.peersfd) Epoll.writes_events epoll_ctl_mod
                    ∷ p.calls;
              })
              else runs p)
            ≡ unlogged (
                if b
                then runs (record p {
                  calls =
                      kevent p.epollfd (at_or 0 id p.peersfd) (Kqueue.changes false true false)
                      ∷ p.calls;
                })
                else runs p)
      if-same true = refl
      if-same false = refl

  -- If changing the events of a descriptor always succeeds, the two event loops handle a readable and
  -- a writable descriptor in the same way, whatever `read` and `write` give, and send to a peer in the
  -- same way whose descriptor is known and not 0: they go on with the same buffers, tables and queues,
  -- or they end, go round or break in the same cases.
  pub handlers-same :
      (efd fd id : ℕ) (p : Poll)
      → id ≢ 0
      → contains id p.peersfd ≡ true
      → at_or 0 id p.peersfd ≢ 0
      → (unlogged (Epoll.handle_read efd fd p) ≡ unlogged (Kqueue.handle_read efd fd p))
        × (unlogged (Epoll.handle_write efd fd p) ≡ unlogged (Kqueue.handle_write efd fd p))
        × (unlogged (Epoll.send id p) ≡ unlogged (Kqueue.send id p))
  handlers-same efd fd id p n k z =
      (handle_read-same efd fd p, handle_write-same efd fd p, send_peer-same id p n k z)
