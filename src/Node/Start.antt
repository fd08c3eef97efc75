-- ===== src/Node/Start.antt =====
-- What a node does that hears nothing after its start.
use sapphiredb.Base.{
  ℕ, suc, ◌+◌, ◌≡◌, refl, none, List, [], ◌∷◌, ◌>>=◌, Returns, Returns-bind, IsU32, arith, u32, inl,
  inr, Bool-cases,
}
use sapphiredb.Base.Table.{Table, contains, assign}
use sapphiredb.Progress.{Progress}
use sapphiredb.Proto.{Codec, Message}
use sapphiredb.Storage.{Storage}
use sapphiredb.Storage
use sapphiredb.Raft.{
  Raft, step_down, state_leader, state_follower, tick_election_function, tick_heartbeat_function,
  reset_randomized_election_timeout,
}
use sapphiredb.Raft.Members.{add_node, send_add_node, new_progress}
use sapphiredb.Raft.Election.{hup_wins_alone}
use sapphiredb.Raft.Tick.{tick_times}
use sapphiredb.Raft.Tick.Timeout.{tick_times-election}
use sapphiredb.Raft.Persist.{create}
use sapphiredb.Node.{add_peers, init}
use sapphiredb.Node.Reachable.{Inv}

add_node-frame : (id : ℕ) (r : Raft) → (t : Table Progress) × (add_node id r ≡ record r { prs = t })
unfolding add_node
add_node-frame id r = elim (Bool-cases (contains id r.prs)) [
  | inl e ↦ (r.prs, rw e refl)
  | inr e ↦ (assign id (new_progress r.last_applied) r.prs, rw e refl)
]

-- Peers go into the table and into the queue.
pub add_peers-frame :
    (ids : List ℕ) (r : Raft)
    → (t : Table Progress) × (ms : List Message) × (add_peers ids r
        ≡ record r { prs = t; sendmsgs = ms })
unfolding add_peers send_add_node
add_peers-frame [] r = (r.prs, r.sendmsgs, refl)
add_peers-frame (id ∷ ids) r =
    let (t, e) = add_node-frame id r in
    let (t', ms, f) = add_peers-frame ids (send_add_node id (record r { prs = t })) in
    (t', ms, rw e f)

-- A new node satisfies the invariant of all turns once it is started.
pub init-Inv : (peers : List ℕ) (r : Raft) → r.public_prs ≡ [] → Inv (init peers r) (init peers r)
unfolding init step_down
init-Inv peers r e = let (t, ms, h) = add_peers-frame peers (step_down 1 0 r) in rw h (ground arith)

-- A follower of term 1 that knows of no vote, with one randomised election timeout before it.
record Quiet (id timeout : ℕ) (r : Raft) : Type 0 where
  is_node : r.id ≡ id
  alone : r.public_prs ≡ []
  no_votes : r.votes ≡ []
  follows : r.state ≡ state_follower
  in_term : r.current_term ≡ 1
  ticks_election : r.tick ≡ tick_election_function
  not_elapsed : r.election_elapsed ≡ 0
  waits : r.randomized_election_timeout ≡ timeout

-- A node whose constructor has found no file.
record New (id : ℕ) (election_timeout draw : ℕ) (r : Raft) : Type 0 where
  new_id : r.id ≡ id
  new_alone : r.public_prs ≡ []
  new_votes : r.votes ≡ []
  new_timeout : r.election_timeout ≡ election_timeout
  new_draw : r.draws 0 ≡ draw

create-New :
    ⦃c : Codec⦄ (id h t : ℕ) (d : ℕ → ℕ) (s : Storage)
    → s.file ≡ none
    → Returns (New id t (d 1)) (create id h t d s)
unfolding create reset_randomized_election_timeout Storage.first_index Storage.last_index
    Storage.entries
create-New id h t d s f = rw f (ground arith)

init-Quiet :
    (peers : List ℕ) (id t draw : ℕ) (r : Raft)
    → New id t draw r
    → Quiet id (u32 (t + draw)) (init peers r)
unfolding init step_down
init-Quiet peers id t draw r v =
    let (_, _, e) = add_peers-frame peers (step_down 1 0 r) in rw e (ground arith)

abbrev Leads : ℕ → Raft → Type 0
Leads id s =
    (s.state ≡ state_leader)
    × (s.leader ≡ id)
    × (s.current_term ≡ 2)
    × (s.tick ≡ tick_heartbeat_function)

Quiet-Leads :
    ⦃c : Codec⦄ (id n : ℕ) (r : Raft)
    → Quiet id (suc n) r
    → IsU32 (suc n)
    → Returns (Leads id) (tick_times (suc n) r)
Quiet-Leads id n r q b =
    let (_, fires) =
      tick_times-election n r q.ticks_election (omega (arith, q.not_elapsed, q.waits))
        (omega (arith, q.waits, b)) in
    rw fires (
      ground (
        arith,
        hup_wins_alone (record r { election_elapsed = 0 }) q.alone q.no_votes
            (ground (arith, q.follows)),
        q.is_node,
        q.in_term,
      ))

-- A node that is made without a file and started, and then hears nothing for one randomised election
-- timeout, which is not 0, has a defined result and is leader of term 2, whatever peers it is given.
pub start-leads :
    ⦃c : Codec⦄ (peers : List ℕ) (id heartbeat_timeout election_timeout n : ℕ) (draws : ℕ → ℕ)
    → (storage : Storage) → storage.file ≡ none
    → suc n ≡ u32 (election_timeout + draws 1)
    → Returns
        (λ s.
          (s.state ≡ state_leader)
          × (s.leader ≡ id)
          × (s.current_term ≡ 2)
          × (s.tick ≡ tick_heartbeat_function))
        (create id heartbeat_timeout election_timeout draws storage >>= λ r.
          tick_times (suc n) (init peers r))
start-leads peers id h t n d s f p =
    Returns-bind (New id t (d 1)) (Leads id) (create id h t d s) _ (create-New id h t d s f) (λ r v.
      Quiet-Leads id n (init peers r) (rw p (init-Quiet peers id t (d 1) r v)) (omega arith))
