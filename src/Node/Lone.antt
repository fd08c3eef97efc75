-- ===== src/Node/Lone.antt =====
-- A node without peers.
use sapphiredb.Base.{
  ℕ, suc, ◌+◌, ◌≡◌, refl, false, none, [], ◌>>=◌, ok, undefined, Returns, Returns-ok, is_empty, u32,
  arith,
}
use sapphiredb.Base.Sorting.{sort}
use sapphiredb.Proto.{Bytes, Codec}
use sapphiredb.Storage.{Storage}
use sapphiredb.Storage
use sapphiredb.Raft.{
  Raft, step_down, quorum, become_candidate, become_leader, state_follower, step_leader_function,
  tick_election_function, reset_randomized_election_timeout,
}
use sapphiredb.Raft.Members.{grant_me, count_granted}
use sapphiredb.Raft.Replicate.{append_entry, maybe_commit, commit_candidate}
use sapphiredb.Raft.Step.{hup, general_step, dispatch, call_step, step_leader, leader_dispatch}
use sapphiredb.Raft.Mailbox.{step_node, step_front, propose}
use sapphiredb.Raft.Tick.{tick_times}
use sapphiredb.Raft.Tick.Timeout.{tick_times-election}
use sapphiredb.Raft.Persist.{create}
use sapphiredb.Node.{add_peers, init}

-- A started node that knows of no other, one randomised timeout before it leads.
record Waits (timeout : ℕ) (r : Raft) : Type 0 where
  alone : r.public_prs ≡ []
  no_peers : r.prs ≡ []
  no_votes : r.votes ≡ []
  no_messages : r.recvmsgs ≡ []
  follows : r.state ≡ state_follower
  ticks_election : r.tick ≡ tick_election_function
  not_elapsed : r.election_elapsed ≡ 0
  waits : r.randomized_election_timeout ≡ timeout

record Leads (r : Raft) : Type 0 where
  alone : r.public_prs ≡ []
  no_peers : r.prs ≡ []
  no_messages : r.recvmsgs ≡ []
  leads : r.step ≡ step_leader_function

hup-Leads : (n : ℕ) (r : Raft) → Waits n r → Leads (hup (record r { election_elapsed = 0 }))
unfolding hup become_candidate become_leader grant_me quorum count_granted
hup-Leads n r w = ground arith

module _ ⦃c : Codec⦄ where
  start-Waits :
      (id h t : ℕ) (d : ℕ → ℕ) (s : Storage)
      → s.file ≡ none
      → Returns (λ r. Waits (u32 (t + d 1)) (init [] r)) (create id h t d s)
  unfolding create reset_randomized_election_timeout Storage.first_index Storage.last_index
      Storage.entries init add_peers step_down
  start-Waits id h t d s f = rw f (ground arith)

  propose-Leads :
      (op : Bytes) (r : Raft)
      → is_empty op ≡ false
      → Leads r
      → step_node (propose op r).1 ≡ undefined
  unfolding propose step_node step_front general_step dispatch call_step step_leader leader_dispatch
      append_entry maybe_commit commit_candidate quorum sort
  propose-Leads op r e l = rw (e, l.no_messages, l.leads, l.alone, l.no_peers) refl

  -- A node that is made without a file and started without peers, and then hears nothing for one
  -- randomised election timeout, which is not 0, leads; but the first proposal that is not empty makes
  -- it read outside a vector.
  pub lone_proposal :
      (id heartbeat_timeout election_timeout n : ℕ) (draws : ℕ → ℕ) (storage : Storage) (op : Bytes)
      → storage.file ≡ none
      → suc n ≡ u32 (election_timeout + draws 1)
      → is_empty op ≡ false
      → (l : Raft) × ((create id heartbeat_timeout election_timeout draws storage >>= λ r.
            tick_times (suc n) (init [] r))
          ≡ ok l)
        × (l.step ≡ step_leader_function)
        × (step_node (propose op l).1 ≡ undefined)
  lone_proposal id h t n d s op f e o =
      let (r, made, w) =
        Returns-ok (λ r. Waits (u32 (t + d 1)) (init [] r)) (create id h t d s)
          (start-Waits id h t d s f) in
      let q = init [] r in
      let (_, fires) =
        tick_times-election n q w.ticks_election (omega (arith, w.not_elapsed, w.waits, e))
          (omega (arith, w.waits, e)) in
      let leads = hup-Leads (u32 (t + d 1)) q w in
      (
        hup (record q { election_elapsed = 0 }),
        rw made fires,
        leads.leads,
        propose-Leads op _ o leads,
      )
