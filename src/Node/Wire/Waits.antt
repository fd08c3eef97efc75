-- ===== src/Node/Wire/Waits.antt =====
-- A round of the thread `trecv` when there is nothing to receive.
use sapphiredb.Base.{◌≡◌, false, arith}
use sapphiredb.Proto.{Codec}
use sapphiredb.Net.{pop_data}
use sapphiredb.Raft.Mailbox.{try_push_recvbuf}
use sapphiredb.Poll
use sapphiredb.Poll.{runs}
use sapphiredb.Node.Wire.{Node, receive_turn, may_receive}

-- A round that the first `init` does not allow, as the second one may, changes nothing.
receive_turn-empty : ⦃c : Codec⦄ (n : Node) → may_receive n ≡ false → receive_turn n ≡ runs n
unfolding may_receive Poll.is_recv_empty receive_turn pop_data try_push_recvbuf
receive_turn-empty n e = ground (arith, e)
