-- ===== src/Poll/Peers.antt =====
-- The table of the peers' descriptors: binding, sending, and the end of a connection.
use sapphiredb.Base.{
  ℕ, ◌<◌, ◌≡◌, ◌≢◌, refl, Bool, true, false, some, List, [], ◌∷◌, ltb, ◌==◌, arith, if◌then◌else◌,
}
use sapphiredb.Base.Table.{Table, find, at_or, contains, assign, contains-assign, at_or-assign}
use sapphiredb.Poll.{
  runs, epoll_ctl, epoll_ctl_mod, epoll_ctl_del, ReadResult, eof, Kernel, Poll, erase_fd, Runs,
}
use sapphiredb.Poll.Epoll
use sapphiredb.Poll.Same.{Watches, Epoll-update_events}

find-erase_fd :
    (id fd : ℕ) (t : Table ℕ) → find id t ≢ some fd → find id (erase_fd fd t) ≡ find id t
unfolding erase_fd
find-erase_fd id fd [] n = refl
find-erase_fd id fd ((j, peer) ∷ t) n = ground (arith, find-erase_fd id fd t)

module _ ⦃os : Kernel⦄ (w : Watches) where
  -- When a connection ends, the peers with another descriptor keep theirs, and the buffers and the
  -- queue stay as they are; if the events of descriptors can be changed.
  pub find-read_loop :
      (efd fd id : ℕ) (results : List ReadResult) (p : Poll)
      → find id p.peersfd ≢ some fd
      → Runs
          (λ q. (find id q.peersfd ≡ find id p.peersfd) × (q.net ≡ p.net) × (q.readfd ≡ p.readfd))
          (Epoll.read_loop efd fd (eof ∷ results) p)
  unfolding Epoll.read_loop Epoll.end_connection
  find-read_loop efd fd id results p n =
      rw (Epoll-update_events w efd fd Epoll.input_event epoll_ctl_del p)
        (find-erase_fd id fd p.peersfd n, refl, refl)

  bind_peerfd_lem :
      (id fd : ℕ) (p : Poll)
      → Epoll.bind_peerfd id fd p ≡ record p { peersfd = assign id fd p.peersfd }
  unfolding Epoll.bind_peerfd
  bind_peerfd_lem id fd p =
      if-same (contains id p.peersfd) (record p { peersfd = assign id fd p.peersfd })
    where
      if-same : (b : Bool) (q : Poll) → (if b then q else q) ≡ q
      if-same true q = refl
      if-same false q = refl

  pub send_known :
      (id fd : ℕ) (p : Poll)
      → id ≢ 0
      → contains id p.peersfd ≡ true
      → at_or 0 id p.peersfd ≡ fd
      → fd ≢ 0
      → 0 < p.net.sendbuf.len
      → Epoll.send id p
        ≡ runs (record p {
          calls = epoll_ctl p.epollfd fd Epoll.writes_events epoll_ctl_mod ∷ p.calls;
        })
  unfolding Epoll.send
  send_known id fd p n k e z l =
      let a : (id == 0) ≡ false = ground arith in
      let b : (fd == 0) ≡ false = ground arith in
      let d : ltb 0 p.net.sendbuf.len ≡ true = ground arith in
      rw (d, a, k, e, b, Epoll-update_events w p.epollfd fd Epoll.writes_events epoll_ctl_mod p)
        refl

  -- Once a peer is bound to a descriptor, also one that was bound before, a text for it makes the loop
  -- wait until that descriptor can be written, and no other call is made; if neither the id nor the
  -- descriptor is 0, there is a text, and the events of descriptors can be changed.
  pub send-bind_peerfd :
      (id fd : ℕ) (p : Poll)
      → id ≢ 0
      → fd ≢ 0
      → 0 < p.net.sendbuf.len
      → Epoll.send id (Epoll.bind_peerfd id fd p)
        ≡ runs (record p {
          peersfd = assign id fd p.peersfd;
          calls = epoll_ctl p.epollfd fd Epoll.writes_events epoll_ctl_mod ∷ p.calls;
        })
  send-bind_peerfd id fd p n z l = rw (bind_peerfd_lem id fd p) (
      send_known id fd (record p { peersfd = assign id fd p.peersfd }) n
        (ground (arith, contains-assign id id fd p.peersfd))
        (ground (arith, at_or-assign 0 id id fd p.peersfd)) z l)
