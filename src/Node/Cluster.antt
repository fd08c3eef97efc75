-- ===== src/Node/Cluster.antt =====
-- sapphiredb/raft/node.cc: a leader and the nodes that it sends to. A round is a proposal, the messages
-- that the leader queues when it handles the proposal, the answers that the nodes queue when they handle
-- these, and the writing of the log. No other message is delivered: not what is in the queues before,
-- and not what the leader queues when it handles the answers.
pub mod Followers
pub mod InStep
pub mod Rounds
pub mod Delayed
pub mod Refused
pub mod Joined
pub mod Rows
pub mod Elected
pub mod Born
use sapphiredb.Base.{
  ℕ, ◌+◌, List, [], ◌∷◌, ◌++◌, Outcome, ok, ◌>>=◌, ◌==◌, if◌then◌else◌, length, drop,
}
use sapphiredb.Proto.{Bytes, Codec, Entry, Message, empty_entry}
use sapphiredb.Storage
use sapphiredb.Storage.{Storage}
use sapphiredb.Raft.{Raft}
use sapphiredb.Raft.Step.{general_step}
use sapphiredb.Raft.Mailbox.{step_node, propose}
use sapphiredb.Raft.Sound.Everyone.{step_times}
use sapphiredb.Node.{persist}

pub record Cluster : Type 0 where
  pub leader : Raft
  pub nodes : ℕ → Raft

abbrev pub with_node : ℕ → Raft → (ℕ → Raft) → ℕ → Raft
with_node id r nodes k = if id == k then r else nodes k

-- What a node has put into its queue between two states.
abbrev pub queued : Raft → Raft → List Message
queued r s = drop (length r.sendmsgs) s.sendmsgs

-- What the nodes have put into their queues, in the order in which it arrives, a node's messages again
-- where it is named again.
abbrev pub answers : List ℕ → (ℕ → Raft) → (ℕ → Raft) → List Message
answers [] before after = []
answers (id ∷ order) before after = queued (before id) (after id) ++ answers order before after

-- The entries that proposals become, in a term and from an index on.
abbrev pub entries_of : List (Bytes × List ℕ) → ℕ → ℕ → List Entry
entries_of [] term index = []
entries_of ((op, order) ∷ ops) term index =
    record empty_entry { bytes = op; term = term; index = index } ∷ entries_of ops term (index + 1)

module _ ⦃c : Codec⦄ where
  -- Each message is handled by the node that it is for.
  unfoldable pub deliver : List Message → (ℕ → Raft) → Outcome (ℕ → Raft)
  deliver [] nodes = ok nodes
  deliver (m ∷ ms) nodes = general_step m (nodes m.to) >>= λ f. deliver ms (with_node m.to f nodes)

  -- A proposal, and the order in which the answers arrive. What the leader queues when it handles the
  -- answers, the broadcasts of a commit, stays in its queue and is not delivered.
  unfoldable pub round : Bytes → List ℕ → Cluster → Outcome Cluster
  unfolding deliver
  round op order c = step_node (propose op c.leader).1 >>= λ l.
      deliver (queued c.leader l) c.nodes >>= λ nodes.
      let inbox = answers order c.nodes nodes in
      step_times (length inbox) (record l { recvmsgs = inbox }) >>= λ s.
      persist s >>= λ l'. ok (record { leader = l'; nodes = nodes })

  unfoldable pub rounds : List (Bytes × List ℕ) → Cluster → Outcome Cluster
  unfolding round
  rounds [] c = ok c
  rounds ((op, order) ∷ ops) c = round op order c >>= λ c'. rounds ops c'

  -- The storage in which only the last one of some entries is written; if there is none, the storage
  -- before.
  abbrev pub last_written : List Entry → Storage → Storage
  last_written [] s = s
  last_written (e ∷ []) s = Storage.append (e ∷ []) s
  last_written (e ∷ e' ∷ es) s = last_written (e' ∷ es) s

  -- The storage after entries were written one by one.
  abbrev pub written : List Entry → Storage → Storage
  written [] s = s
  written (e ∷ es) s = written es (Storage.append (e ∷ []) s)
