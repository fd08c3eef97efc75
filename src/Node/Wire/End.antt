-- ===== src/Node/Wire/End.antt =====
-- sapphiredb/raft/node.h and node.cc: the destructor of a node.
use sapphiredb.Poll.{Process, runs, exits, spins, faults, ◌>>>◌, Runs, Poll}
use sapphiredb.Poll.Epoll
use sapphiredb.Node.Wire.{Node}

pub data Pointer : Type 0 where
  unset null_pointer owned : Pointer

-- The member `uid` after the constructors, which do not set it.
abbrev pub uid : Pointer
uid = unset

-- `delete` of a pointer to an object whose destructor does nothing, and what follows it.
unfoldable pub delete : {A : Type 0} → Pointer → Process A → Process A
delete unset rest = faults
delete null_pointer rest = rest
delete owned rest = rest

-- `Raft` has nothing to end; the event loop closes its descriptors.
unfoldable pub destroy : Pointer → Node → Process Poll
unfolding delete
destroy uid n = delete uid (runs (Epoll.destroy n.kque))

-- However a node was made, the process does not get past its end.
make-destroy : (m : Process Node) → Runs (λ _. Unit {0}) (m >>> λ n. destroy uid n) → ⊥
unfolding destroy delete
make-destroy (runs n) h = h
make-destroy exits h = h
make-destroy spins h = h
make-destroy faults h = h
