-- ===== src/Node/Wire/Reach.antt =====
-- A message on its way from the queue of one node to the inbox of another.
use sapphiredb.Base.{
  ℕ, ◌≤◌, ◌<◌, ◌≡◌, ◌≢◌, refl, ap, true, false, Option, List, [], ◌∷◌, ◌++◌, ◌==◌, is_empty_of_pos,
  length, arith,
}
use sapphiredb.Base.Table.{contains, at_or}
use sapphiredb.Proto.{Bytes, Codec, Message}
use sapphiredb.Net.{Data, wrote, WriteResult}
use sapphiredb.Net.Buffers.{Holds}
use sapphiredb.Net.Delivery.{agains, push_data-Holds, handle_write-Holds, pop_data-Holds}
use sapphiredb.Raft.Mailbox.{try_pop_sendbuf, try_push_recvbuf}
use sapphiredb.Poll.{
  Process, runs, ◌>>>◌, Kernel, Poll, epoll_ctl, epoll_ctl_mod, write, ReadResult, again,
}
use sapphiredb.Poll.Epoll
use sapphiredb.Poll.Same.{Watches, Epoll-update_events}
use sapphiredb.Poll.Reads.{brings, brought, Clean, read_loop-Holds}
use sapphiredb.Poll.Peers.{send_known}
use sapphiredb.Node.Wire.{Node, push_and_send, send_out, send_turn, receive_turn}

module _ ⦃os : Kernel⦄ (w : Watches) where
  -- A text for a known peer fills the empty buffer, and the peer's descriptor is watched.
  send_out-Holds :
      (text : Bytes) (id fd : ℕ) (p : Poll)
      → id ≢ 0
      → contains id p.peersfd ≡ true
      → at_or 0 id p.peersfd ≡ fd
      → fd ≢ 0
      → 0 < length text
      → Holds [] p.net.sendbuf
      → length text ≤ p.net.sendbuf.size
      → (d : Data) × (send_out text id p
          ≡ runs (record p {
            net = record p.net { sendbuf = d };
            calls = epoll_ctl p.epollfd fd Epoll.writes_events epoll_ctl_mod ∷ p.calls;
          }))
        × Holds text d
  unfolding send_out push_and_send
  send_out-Holds text id fd p n k e z l h s =
      let (d, pushed, h', _) = push_data-Holds text p.net h s in
      let a : (id == 0) ≡ false = ground arith in
      let q : Poll = record p { net = record p.net { sendbuf = d } } in
      let sent = send_known w id fd q n k e z (omega (arith, h'.len_eq)) in
      (d, rw (is_empty_of_pos text l, a, pushed) sent, h')

  -- A descriptor that can be written takes what the buffer holds, if one call of `write` does.
  handle_write-sends :
      (text : Bytes) (efd fd tries : ℕ) (results : List WriteResult) (p : Poll)
      → os.writes p.calls ≡ agains tries (wrote (length text) ∷ results)
      → Holds text p.net.sendbuf
      → 0 < length text
      → (d : Data) × (Epoll.handle_write efd fd p
          ≡ runs (record p {
            net = record p.net { sendbuf = d };
            calls =
                epoll_ctl p.epollfd fd Epoll.reads_events epoll_ctl_mod ∷ write fd text ∷ p.calls;
          }))
        × Holds [] d
  unfolding Epoll.handle_write
  handle_write-sends text efd fd tries results p e h l =
      let (d, written, h') = handle_write-Holds text tries results p.net h l in
      let q : Poll = record p {
        net = record p.net { sendbuf = d };
        calls = write fd text ∷ p.calls;
      } in
      (
        d,
        rw (e, written, Epoll-update_events w p.epollfd fd Epoll.reads_events epoll_ctl_mod q) refl,
        h',
      )

-- What the bytes that were read do in the inbox.
receive_turn-Holds :
    ⦃c : Codec⦄ (text : Bytes) (n : Node)
    → Holds text n.kque.net.recvbuf
    → 0 < length text
    → (d : Data) × (receive_turn n
        ≡ runs (record {
          raft = (try_push_recvbuf text n.raft).1;
          kque = record n.kque { net = record n.kque.net { recvbuf = d } };
        }))
      × Holds [] d
unfolding receive_turn
receive_turn-Holds text n h l =
    let (d, popped, h') = pop_data-Holds text n.kque.net h l in (d, rw popped refl, h')

-- The sender's part: the thread `tsend`, and then the event loop once the descriptor can be written.
abbrev pub sending : ⦃os : Kernel⦄ ⦃c : Codec⦄ → ℕ → Node → Process Node
sending fd a = send_turn a >>> λ a₁.
    Epoll.handle_write a₁.kque.epollfd fd a₁.kque >>> λ p. runs (record a₁ { kque = p })

-- The receiver's part: the event loop when there are bytes to read, and then the thread `trecv`.
abbrev pub receiving : ⦃os : Kernel⦄ ⦃c : Codec⦄ → ℕ → Node → Process Node
receiving fd b =
    Epoll.handle_read b.kque.epollfd fd b.kque >>> λ p. receive_turn (record b { kque = p })

module _ ⦃c : Codec⦄ (m : Message) where
  send_turn-Holds :
      ⦃os : Kernel⦄ (w : Watches) (ms : List Message) (fd : ℕ) (a : Node)
      → a.raft.sendmsgs ≡ m ∷ ms
      → m.to ≢ 0
      → contains m.to a.kque.peersfd ≡ true
      → at_or 0 m.to a.kque.peersfd ≡ fd
      → fd ≢ 0
      → 0 < length (c.write_message m)
      → Holds [] a.kque.net.sendbuf
      → length (c.write_message m) ≤ a.kque.net.sendbuf.size
      → (d : Data) × (send_turn a
          ≡ runs (record {
            raft = record a.raft { sendmsgs = ms };
            kque = record a.kque {
              net = record a.kque.net { sendbuf = d };
              calls = epoll_ctl a.kque.epollfd fd Epoll.writes_events epoll_ctl_mod ∷ a.kque.calls;
            };
          }))
        × Holds (c.write_message m) d
  unfolding send_turn try_pop_sendbuf
  send_turn-Holds w ms fd a q n k e z l h s =
      let (d, sent, h') = send_out-Holds w (c.write_message m) m.to fd a.kque n k e z l h s in
      (d, rw (q, sent) refl, h')

  sends :
      ⦃os : Kernel⦄ (w : Watches) (ms : List Message) (fd tries : ℕ) (results : List WriteResult)
      → (a : Node) → a.raft.sendmsgs ≡ m ∷ ms
      → m.to ≢ 0
      → contains m.to a.kque.peersfd ≡ true
      → at_or 0 m.to a.kque.peersfd ≡ fd
      → fd ≢ 0
      → 0 < length (c.write_message m)
      → Holds [] a.kque.net.sendbuf
      → length (c.write_message m) ≤ a.kque.net.sendbuf.size
      → os.writes (epoll_ctl a.kque.epollfd fd Epoll.writes_events epoll_ctl_mod ∷ a.kque.calls)
        ≡ agains tries (wrote (length (c.write_message m)) ∷ results)
      → (a' : Node) × (sending fd a ≡ runs a')
        × (a'.raft ≡ record a.raft { sendmsgs = ms })
        × (a'.kque.calls
            ≡ epoll_ctl a.kque.epollfd fd Epoll.reads_events epoll_ctl_mod
              ∷ write fd (c.write_message m)
              ∷ epoll_ctl a.kque.epollfd fd Epoll.writes_events epoll_ctl_mod
              ∷ a.kque.calls)
        × Holds [] a'.kque.net.sendbuf
  sends w ms fd tries results a q n k e z l h s o =
      let (d₁, turned, h₁) = send_turn-Holds w ms fd a q n k e z l h s in
      let p : Poll = record a.kque {
        net = record a.kque.net { sendbuf = d₁ };
        calls = epoll_ctl a.kque.epollfd fd Epoll.writes_events epoll_ctl_mod ∷ a.kque.calls;
      } in
      let (d, written, h') =
        handle_write-sends w (c.write_message m) a.kque.epollfd fd tries results p o h₁ l in
      (
        record {
          raft = record a.raft { sendmsgs = ms };
          kque = record p {
            net = record p.net { sendbuf = d };
            calls =
                epoll_ctl p.epollfd fd Epoll.reads_events epoll_ctl_mod
                ∷ write fd (c.write_message m)
                ∷ p.calls;
          };
        },
        rw (turned, written) refl,
        refl,
        refl,
        h',
      )

  receives :
      ⦃os : Kernel⦄ (fd : ℕ) (results : List ReadResult) (cs : List (Option (Bytes × Bytes)))
      → (b : Node) → os.reads b.kque.calls ≡ brings cs (again ∷ results)
      → Clean cs
      → brought cs ≡ c.write_message m
      → 0 < length (c.write_message m)
      → Holds [] b.kque.net.recvbuf
      → length (c.write_message m) ≤ b.kque.net.recvbuf.size
      → (b' : Node) × (receiving fd b ≡ runs b')
        × (b'.raft ≡ record b.raft { recvmsgs = b.raft.recvmsgs ++ m ∷ [] })
        × Holds [] b'.kque.net.recvbuf
  unfolding Epoll.handle_read try_push_recvbuf
  receives fd results cs b o k e l h s =
      let (d, read, h₁) =
        read_loop-Holds b.kque.epollfd fd results cs [] b.kque k h
          (omega (arith, ap length e, s)) in
      let p : Poll = record b.kque {
        net = record b.kque.net { recvbuf = d };
        readfd = b.kque.readfd ++ fd ∷ [];
      } in
      let (d', turned, h') =
        receive_turn-Holds (c.write_message m) (record b { kque = p }) (rw e at h₁) l in
      (
        record {
          raft = (try_push_recvbuf (c.write_message m) b.raft).1;
          kque = record p { net = record p.net { recvbuf = d' } };
        },
        rw (o, read) turned,
        rw (is_empty_of_pos (c.write_message m) l, c.read-write_message m) refl,
        h',
      )

-- The oldest message of a node's queue that goes to a peer whose descriptor is known, neither the
-- id nor the descriptor being 0: the sending thread and the event loop of the node take it off the
-- queue and make three calls that change something: the descriptor is watched for writing, the
-- bytes of the message, these and no others, are written to it, and it is watched for reading
-- alone again. A node that reads these bytes: its event loop and its receiving thread put that
-- same message at the end of its inbox. Nothing else changes in the two nodes' rafts, and the
-- sending buffer of the one and the receiving buffer of the other, which are empty before, are
-- empty again. Each node has its own system; the message takes some bytes, which fit, are not
-- zero, and arrive in pieces of at least one byte with a zero behind each of them in memory; one
-- call of `write` takes them all, after any number that are to be repeated; in the system of the
-- sender the events of descriptors can be changed; and the last read is to be tried again.
pub reaches :
    ⦃c : Codec⦄ (m : Message) (here there : Kernel) (w : Watches ⦃os = here⦄)
    → (ms : List Message) (fd fd' tries : ℕ) (writes : List WriteResult) (reads : List ReadResult)
    → (cs : List (Option (Bytes × Bytes))) (a b : Node) → a.raft.sendmsgs ≡ m ∷ ms
    → m.to ≢ 0
    → contains m.to a.kque.peersfd ≡ true
    → at_or 0 m.to a.kque.peersfd ≡ fd
    → fd ≢ 0
    → 0 < length (c.write_message m)
    → Holds [] a.kque.net.sendbuf
    → length (c.write_message m) ≤ a.kque.net.sendbuf.size
    → here.writes (epoll_ctl a.kque.epollfd fd Epoll.writes_events epoll_ctl_mod ∷ a.kque.calls)
      ≡ agains tries (wrote (length (c.write_message m)) ∷ writes)
    → there.reads b.kque.calls ≡ brings cs (again ∷ reads)
    → Clean cs
    → brought cs ≡ c.write_message m
    → Holds [] b.kque.net.recvbuf
    → length (c.write_message m) ≤ b.kque.net.recvbuf.size
    → ((a' : Node) × (sending ⦃os = here⦄ fd a ≡ runs a')
        × (a'.raft ≡ record a.raft { sendmsgs = ms })
        × (a'.kque.calls
            ≡ epoll_ctl a.kque.epollfd fd Epoll.reads_events epoll_ctl_mod
              ∷ write fd (c.write_message m)
              ∷ epoll_ctl a.kque.epollfd fd Epoll.writes_events epoll_ctl_mod
              ∷ a.kque.calls)
        × Holds [] a'.kque.net.sendbuf)
      × ((b' : Node) × (receiving ⦃os = there⦄ fd' b ≡ runs b')
          × (b'.raft ≡ record b.raft { recvmsgs = b.raft.recvmsgs ++ m ∷ [] })
          × Holds [] b'.kque.net.recvbuf)
reaches m here there w ms fd fd' tries writes reads cs a b q n k e z l ha sa o o' v f hb sb = (
  sends m ⦃os = here⦄ w ms fd tries writes a q n k e z l ha sa o,
  receives m ⦃os = there⦄ fd' reads cs b o' v f l hb sb,
)
