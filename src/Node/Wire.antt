-- ===== src/Node/Wire.antt =====
-- sapphiredb/raft/node.cc: a node with its event loop, that of epoll.cc: the start, and the threads
-- that send, receive and bind.
pub mod Reach
pub mod Binds
pub mod Waits
pub mod End
use sapphiredb.Base.{ℕ, Bool, true, false, not, ◌&&◌, List, [], ◌∷◌, ◌==◌, if◌then◌else◌, is_empty}
use sapphiredb.Base.Table.{Table}
use sapphiredb.Proto.{Bytes, Codec}
use sapphiredb.Net.{Netcon, push_data, pop_data, pop_unknownfd, empty_unknownfd}
use sapphiredb.Raft.{Raft, step_down}
use sapphiredb.Raft.Members.{add_node, send_add_node, pop_unknownid, empty_unknownid}
use sapphiredb.Raft.Mailbox
use sapphiredb.Raft.Mailbox.{Sendstruct, try_pop_sendbuf, try_push_recvbuf}
use sapphiredb.Poll.{Process, runs, spins, ◌>>>◌, from_outcome, Kernel, Poll, Address}
use sapphiredb.Poll
use sapphiredb.Poll.Epoll

pub record Node : Type 0 where
  pub raft : Raft
  pub kque : Poll

module _ ⦃os : Kernel⦄ where
  -- The loop over the peers of the configuration.
  unfoldable pub connect_peers : List (ℕ × Address) → Node → Process Node
  connect_peers [] n = runs n
  connect_peers ((id, address) ∷ peers) n = Epoll.conn address id n.kque >>> λ k.
      connect_peers peers (record { raft = send_add_node id (add_node id n.raft); kque = k })

  -- `Node::init` up to the threads.
  unfoldable pub start : List (ℕ × Address) → Node → Process Node
  unfolding connect_peers
  start peers n = Epoll.listenp n.kque >>> λ k.
      connect_peers peers (record { raft = step_down 1 0 n.raft; kque = k })

  -- `while(!pushData(msg));` and the sending after it. A full buffer stays full as long as only this
  -- thread runs.
  unfoldable pub push_and_send : Bytes → ℕ → Poll → Process Poll
  push_and_send msg id p = from_outcome (push_data msg p.net) >>> λ pushed.
      if pushed.0 then Epoll.send id (record p { net = pushed.1 }) else spins

  -- The loop over the copy of the peers' table.
  unfoldable pub push_to_all : Bytes → Table ℕ → Poll → Process Poll
  unfolding push_and_send
  push_to_all msg [] p = runs p
  push_to_all msg ((id, fd) ∷ peers) p = push_and_send msg id p >>> λ p'. push_to_all msg peers p'

  unfoldable pub send_out : Bytes → ℕ → Poll → Process Poll
  unfolding push_to_all push_and_send
  send_out msg to p =
      if is_empty msg
      then runs p
      else if to == 0
      then push_to_all msg p.peersfd p
      else push_and_send msg to p

  module _ ⦃c : Codec⦄ where
    -- One round of the thread `tsend`, when the queue is not empty.
    unfoldable pub send_turn : Node → Process Node
    unfolding send_out
    send_turn n =
        let (s, r) = try_pop_sendbuf n.raft in
        send_out s.msg s.to n.kque >>> λ k. runs (record { raft = r; kque = k })

module _ ⦃c : Codec⦄ where
  -- One round of the thread `trecv`, when the receive buffer is not empty.
  unfoldable pub receive_turn : Node → Process Node
  receive_turn n = from_outcome (pop_data n.kque.net) >>> λ popped. runs (record {
    raft = (try_push_recvbuf popped.0 n.raft).1;
    kque = record n.kque { net = popped.1 };
  })

-- The test before each round of the thread `trecv`; and that of the second `init`, for a temporary.
unfoldable pub may_receive : Node → Bool
unfolding Poll.is_recv_empty
may_receive n = not (Poll.is_recv_empty n.kque)

unfoldable pub may_receive_moved : Node → Bool
unfolding Mailbox.is_recv_empty
may_receive_moved n = Mailbox.is_recv_empty n.raft

-- The test before each round of the thread `bindTask`.
unfoldable pub may_bind : Node → Bool
may_bind n = not (empty_unknownfd n.kque.net) && not (empty_unknownid n.raft)

-- One round: the oldest unknown id is bound to the oldest unknown descriptor.
unfoldable pub bind_turn : Node → Process Node
bind_turn n = from_outcome (pop_unknownid n.raft) >>> λ (id, r).
    from_outcome (pop_unknownfd n.kque.net) >>> λ (fd, net).
    runs (record { raft = r; kque = Epoll.bind_peerfd id fd (record n.kque { net = net }) })

-- The loop around it. Each round takes one of the ids that were there, and only this thread takes any:
-- they stand for the rounds that there may be.
unfoldable pub bind_rounds : List ℕ → Node → Process Node
unfolding bind_turn may_bind
bind_rounds [] n = runs n
bind_rounds (id ∷ ids) n =
    let rest = bind_turn n >>> λ m. bind_rounds ids m in if may_bind n then rest else runs n

unfoldable pub bind_all : Node → Process Node
unfolding bind_rounds
bind_all n = bind_rounds n.raft.unknownid n
