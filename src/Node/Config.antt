-- ===== src/Node/Config.antt =====
-- sapphiredb/raft/node.h and node.cc: a node from its configuration, with the event loop of epoll.cc.
use sapphiredb.Base.{
  ℕ, ◌≡◌, refl, Bool, ◌&&◌, Option, none, some, List, [], ◌∷◌, ◌==◌, Outcome, undefined,
  if◌then◌else◌, is_empty, u32, map,
}
use sapphiredb.Proto.{Bytes, Codec}
use sapphiredb.Storage.{Storage}
use sapphiredb.Raft.{Raft, step_down}
use sapphiredb.Raft.Members.{add_node, send_add_node}
use sapphiredb.Raft.Persist.{create}
use sapphiredb.Poll.{Process, runs, exits, spins, faults, ◌>>>◌, from_outcome, Kernel, Address}
use sapphiredb.Poll.Epoll
use sapphiredb.Node.{add_peers, init}
use sapphiredb.Node.Wire.{Node, connect_peers, start}

pub record Timeout : Type 0 where
  pub heartbeat_timeout : ℕ
  pub election_timeout : ℕ

pub record Config : Type 0 where
  pub id : ℕ
  pub raftlog : Bytes
  pub timeout : Option Timeout
  pub socket : Address
  pub peers : List (ℕ × Address)

-- What holds of what the process goes on with, if it goes on.
abbrev pub IfRuns : {A : Type 0} → (A → Type 0) → Process A → Type 0
IfRuns P (runs a) = P a
IfRuns P exits = Unit
IfRuns P spins = Unit
IfRuns P faults = Unit

module _ ⦃c : Codec⦄ where
  -- The two timeouts of the configuration, which are 32 bits wide in `Raft`, or those that `Raft` has
  -- by default; a pointer that was not set is read if only the log's path was given.
  unfoldable pub make_raft : Config → (ℕ → ℕ) → Storage → Outcome Raft
  make_raft conf draws storage = elim conf.timeout [
    | none ↦ if is_empty conf.raftlog then create conf.id 10 150 draws storage else undefined
    | some t ↦ create conf.id (u32 t.heartbeat_timeout) (u32 t.election_timeout) draws storage
  ]

  -- The constructor for a temporary: `new_node false`. That for a named configuration, `new_node true`,
  -- makes no `Raft` for the id 0, and uses the pointer all the same.
  unfoldable pub new_node : ⦃os : Kernel⦄ → Bool → Config → (ℕ → ℕ) → Storage → Process Node
  unfolding make_raft
  new_node named conf draws storage =
      if named && conf.id == 0
      then faults
      else (from_outcome (make_raft conf draws storage) >>> λ r.
          start conf.peers (record { raft = r; kque = Epoll.new_epoll conf.socket 1024 }))

module _ ⦃os : Kernel⦄ where
  bind-IfRuns :
      {A B : Type 0} (Q : B → Type 0) (m : Process A) (f : A → Process B)
      → ((a : A) → IfRuns Q (f a))
      → IfRuns Q (m >>> f)
  bind-IfRuns Q (runs a) f h = h a
  bind-IfRuns Q exits f h = tt
  bind-IfRuns Q spins f h = tt
  bind-IfRuns Q faults f h = tt

  connect_peers-raft :
      (peers : List (ℕ × Address)) (n : Node)
      → IfRuns (λ n'. n'.raft ≡ add_peers (map (λ e. e.0) peers) n.raft) (connect_peers peers n)
  unfolding connect_peers add_peers
  connect_peers-raft [] n = refl
  connect_peers-raft ((id, address) ∷ peers) n =
      bind-IfRuns _ (Epoll.conn address id n.kque) _ (λ k.
        connect_peers-raft peers
          (record { raft = send_add_node id (add_node id n.raft); kque = k }))

  -- If the start of a node with its connections comes to its end, its `Raft` is as after the start
  -- without them.
  pub start-raft :
      (peers : List (ℕ × Address)) (n : Node)
      → IfRuns (λ n'. n'.raft ≡ init (map (λ e. e.0) peers) n.raft) (start peers n)
  unfolding start init
  start-raft peers n =
      bind-IfRuns _ (Epoll.listenp n.kque) _
        (λ k. connect_peers-raft peers (record { raft = step_down 1 0 n.raft; kque = k }))
