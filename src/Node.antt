-- ===== src/Node.antt =====
-- sapphiredb/raft/node.cc: a node's start, and the turns that its threads take on the shared
-- `Raft`. One turn is one round of a thread's loop, taken as a whole; the bytes that arrive and the
-- proposals are chosen by the environment, and the connections belong to the network.
pub mod Reachable
pub mod Start
pub mod Restart
pub mod Lone
pub mod Proposed
pub mod Writes
pub mod Cluster
pub mod Steady
pub mod Wire
pub mod Config
pub mod Ready
pub mod Defined
use sapphiredb.Base.{ℕ, ◌≡◌, Bool, true, false, List, [], ◌∷◌, Outcome, ok, ◌>>=◌}
use sapphiredb.Proto.{Bytes, Codec}
use sapphiredb.Storage.{Storage}
use sapphiredb.Raft.{Raft, step_down}
use sapphiredb.Raft.Members.{add_node, send_add_node, pop_unknownid, empty_unknownid}
use sapphiredb.Raft.Tick.{tick_node}
use sapphiredb.Raft.Mailbox.{
  is_send_empty, is_recv_empty, step_node, try_pop_sendbuf, try_push_recvbuf, propose,
}
use sapphiredb.Raft.Persist.{storage_log, create}

-- The loop over the peers of the configuration.
unfoldable pub add_peers : List ℕ → Raft → Raft
add_peers [] r = r
add_peers (id ∷ ids) r = add_peers ids (send_add_node id (add_node id r))

-- `Node::init` on a new `Raft`.
unfoldable pub init : List ℕ → Raft → Raft
unfolding add_peers
init peers r = add_peers peers (step_down 1 0 r)

module _ ⦃c : Codec⦄ where
  -- The thread that writes the log, when `Ready` is set.
  unfoldable pub persist : Raft → Outcome Raft
  persist r = storage_log r >>= λ s. ok (record s { ready = false })

  pub data Turn (r s : Raft) : Type 0 where
    ticks : tick_node r ≡ ok s → Turn r s
    steps : is_recv_empty r ≡ false → step_node r ≡ ok s → Turn r s
    persists : r.ready ≡ true → persist r ≡ ok s → Turn r s
    pops : is_send_empty r ≡ false → s ≡ (try_pop_sendbuf r).1 → Turn r s
    receives : (text : Bytes) → s ≡ (try_push_recvbuf text r).1 → Turn r s
    proposes : (op : Bytes) → s ≡ (propose op r).1 → Turn r s
    binds : (id : ℕ) → empty_unknownid r ≡ false → pop_unknownid r ≡ ok (id, s) → Turn r s

  pub data Turns (r : Raft) : Raft → Type 0 where
    here : Turns r r
    after : {s t : Raft} → Turns r s → Turn s t → Turns r t
