-- ===== src/Lib.antt =====
-- SapphireDB's replication core: the Raft node of sapphiredb/raft, translated function by function.
--
-- A node (raft.cc) keeps a log, a role and a table of its peers' progress. Messages come out of an
-- inbox that the network fills and go into an outbox that it empties; a clock ticks once each
-- millisecond; a thread writes committed entries to a file. node.cc starts the threads that do these
-- things on one shared object. Each method of the source is a function from the object before the
-- call to the object after it.
--
-- Which file models what (paths from the repository's root):
--   Proto            sapphiredb/raft/raftpb/raftpb.proto: the messages; `Codec` stands for Protocol
--                    Buffers
--   Progress         sapphiredb/raft/progress.h, progress.cc: what is known of one follower's log
--   Storage          sapphiredb/raft/storage.h, storage.cc: the file, `FirstIndex` to `Append`
--   Raft             sapphiredb/raft/raft.h, raft.cc: the state, `reset`, `stepDown`,
--                    `becomeCandidate`, `becomeLeader`, `quorum`, `send`
--   Raft.Log         raft.cc: `maybeTerm`, `truncateAndAppend`, `commitTo`, `maybeAppend` and the
--                    other operations on `_entries`, `_snap` and the storage
--   Raft.Replicate   raft.cc: `bcastHeartbeat`, `sendAppend`, `bcastAppend`, `maybeCommit`,
--                    `appendEntry`
--   Raft.Members     raft.cc: `addNode`, `deleteNode`, the unknown ids, `grantMe`
--   Raft.Leader      raft.cc: `stepLeader`
--   Raft.Step        raft.cc: `stepCandidate`, `stepFollower`, `generalStep`
--   Raft.Tick        raft.cc: `tickElection`, `tickHeartbeat`, `tickNode`
--   Raft.Mailbox     raft.cc: `stepNode`, `tryPopSendbuf`, `tryPushRecvbuf`, `propose`
--   Raft.Persist     raft.cc: `storageLog`, and the constructor
--   Raft.Tally       what a leader knows of its peers and has committed, without the code that keeps it
--   Raft.Sound       the states of a node in which raft.cc reads nothing that is not there, and a whole
--                    round between a leader and all its peers
--   Net              sapphiredb/common/net.h, net.cc: the buffers of a connection; and the loop of
--                    `handleWrite` and one chunk of `handleRead` in sapphiredb/common/epoll.cc
--   Poll             sapphiredb/common/epoll.h, epoll.cc, kqueue.h, kqueue.cc: the state of an event
--                    loop and its system calls; Poll.Epoll and Poll.Kqueue: the operations of the two
--                    classes
--   ThreadPool       sapphiredb/common/thread_pool.h: the tasks and the workers
--   Uniqueid         sapphiredb/common/uniqueid.h, uniqueid.cc: the fields of an id
--   Node             sapphiredb/raft/node.cc: `init`, and the turns of the threads of `run`, on the
--                    `Raft` alone
--   Node.Restart     a node that is started again on its file
--   Node.Writes      a proposal from the inbox of a leader to the file
--   Node.Cluster     a leader and the nodes that it sends to, from their start on and over any number
--                    of proposals
--   Node.Wire        node.cc: the start and the threads that send, receive and bind, with the event
--                    loop of epoll.cc, which has the same operations as that of kqueue.cc
--   Node.Config      node.h, node.cc: the configuration and the constructors
-- The modules below these hold what is proved of them; Tests runs the theorems on concrete nodes
-- with a concrete codec.
--
-- Numbers of 64 and 32 bits are native numbers with the wrap-around written out. Code that may read
-- outside a vector, or a variable that was never set, gives an `Outcome`: `undefined` stands for
-- undefined behaviour. `Ensures` says what holds of a result if it is defined, `Returns` that it is
-- defined and what holds of it. Loops are structural recursion on the list that is walked, so there
-- is no fuel; `tick_times` and `step_times` count the rounds of the endless loops of `run`.
--
-- An `unordered_map` is a list of pairs that stands for one order of its walk. A critical section is
-- one operation, and a turn of a thread is taken as a whole. The random numbers are a sequence in
-- the state; the content of uninitialised memory is `stack` of `Codec`.
--
-- The system under an event loop is a parameter, `Kernel`: what a call gives is any function of the
-- calls before it. A `Process` goes on with a result, has ended by `exit(1)`, is still in a loop when
-- the results of its calls are used up, or has undefined behaviour. A descriptor is the 32-bit word of
-- an `int32_t`. The clock and the drawn numbers of an id are parameters too. A thread pool with its
-- workers is a step relation; no order of the threads is fixed.
--
-- Not modelled: logging, locks, condition variables and failing streams; the commented-out locking
-- role; the timer, which nothing uses; the generated message classes, spdlog, wrk and Protocol
-- Buffers, which are not code of this program. The second `init` of node.cc, which nothing calls, is
-- modelled where it differs from the first.
mod Base
pub mod Proto
pub mod Progress
pub mod Storage
pub mod Uniqueid
pub mod ThreadPool
pub mod Raft
pub mod Net
pub mod Poll
pub mod Node
mod Tests
