-- ===== src/Raft/Tick/Timeout.antt =====
-- When the clock of a node makes it act.
use sapphiredb.Base.{ℕ, zero, suc, ◌+◌, ◌<◌, ◌≡◌, ◌∙◌, ap, ◌++◌, ok, IsU32, arith}
use sapphiredb.Proto.{Codec}
use sapphiredb.Raft.{
  Raft, tick_election_function, tick_heartbeat_function, state_leader, step_leader_function,
}
use sapphiredb.Raft.Replicate.{bcast_heartbeat}
use sapphiredb.Raft.Replicate.Heartbeats.{heartbeats, bcast_heartbeat_lem, heartbeats-counters}
use sapphiredb.Raft.Step.{hup, general_step, dispatch, call_step, step_leader, leader_dispatch}
use sapphiredb.Raft.Tick.{tick_node, tick_times, tick_election, tick_heartbeat}

module _ ⦃c : Codec⦄ where
  tick_node_waits :
      (r : Raft)
      → r.tick ≡ tick_election_function
      → r.election_elapsed + 1 < r.randomized_election_timeout
      → IsU32 r.randomized_election_timeout
      → tick_node r ≡ ok (record r { election_elapsed = r.election_elapsed + 1 })
  unfolding tick_node tick_election
  tick_node_waits r e l b = ground arith

  tick_node_fires :
      (r : Raft)
      → r.tick ≡ tick_election_function
      → r.election_elapsed + 1 ≡ r.randomized_election_timeout
      → IsU32 r.randomized_election_timeout
      → tick_node r ≡ ok (hup (record r { election_elapsed = 0 }))
  unfolding tick_node tick_election general_step dispatch
  tick_node_fires r e l b = ground arith

  -- A node that is no leader and hears nothing starts an election exactly when its randomised
  -- timeout is over: before that only its counter moves.
  pub tick_times-election :
      (n : ℕ) (r : Raft)
      → r.tick ≡ tick_election_function
      → r.election_elapsed + suc n ≡ r.randomized_election_timeout
      → IsU32 r.randomized_election_timeout
      → (tick_times n r ≡ ok (record r { election_elapsed = r.election_elapsed + n }))
        × (tick_times (suc n) r ≡ ok (hup (record r { election_elapsed = 0 })))
  unfolding tick_times
  tick_times-election zero r e l b =
      (ap (λ k. ok (record r { election_elapsed = k })) (omega arith), rw (tick_node_fires r e l b))
  tick_times-election (suc n) r e l b =
      let r' = record r { election_elapsed = r.election_elapsed + 1 } in
      let (waits, fires) = tick_times-election n r' e (omega arith) b in
      (
        rw (tick_node_waits r e (omega arith) b)
            (waits ∙ ap (λ k. ok (record r { election_elapsed = k })) (omega arith)),
        rw (tick_node_waits r e (omega arith) b) fires,
      )

  tick_node_counts :
      (r : Raft)
      → r.tick ≡ tick_heartbeat_function
      → r.state ≡ state_leader
      → r.heartbeat_elapsed + 1 < r.heartbeat_timeout
      → r.election_elapsed + 1 < r.election_timeout
      → IsU32 r.heartbeat_timeout
      → IsU32 r.election_timeout
      → tick_node r
        ≡ ok (record r {
          heartbeat_elapsed = r.heartbeat_elapsed + 1;
          election_elapsed = r.election_elapsed + 1;
        })
  unfolding tick_node tick_heartbeat
  tick_node_counts r e s l l' b b' = ground arith

  tick_node_beats :
      (r : Raft)
      → r.tick ≡ tick_heartbeat_function
      → r.state ≡ state_leader
      → r.step ≡ step_leader_function
      → r.heartbeat_elapsed + 1 ≡ r.heartbeat_timeout
      → r.election_elapsed + 1 < r.election_timeout
      → IsU32 r.heartbeat_timeout
      → IsU32 r.election_timeout
      → tick_node r
        ≡ bcast_heartbeat
            (record r { heartbeat_elapsed = 0; election_elapsed = r.election_elapsed + 1 })
  unfolding tick_node tick_heartbeat general_step dispatch call_step step_leader leader_dispatch
  tick_node_beats r e s f l l' b b' = ground arith

  -- A leader's ticks only count until its heartbeat timeout is over; that tick puts one heartbeat
  -- for each peer in its table but itself into the queue, in the order of the table, and nothing
  -- else, if no election timeout falls into these ticks.
  pub tick_times-heartbeat :
      (n : ℕ) (r : Raft)
      → r.tick ≡ tick_heartbeat_function
      → r.state ≡ state_leader
      → r.step ≡ step_leader_function
      → r.heartbeat_elapsed + suc n ≡ r.heartbeat_timeout
      → r.election_elapsed + suc n < r.election_timeout
      → IsU32 r.heartbeat_timeout
      → IsU32 r.election_timeout
      → tick_times (suc n) r
        ≡ ok (record r {
          heartbeat_elapsed = 0;
          election_elapsed = r.election_elapsed + suc n;
          sendmsgs = r.sendmsgs ++ heartbeats r r.prs;
        })
  unfolding tick_times
  tick_times-heartbeat zero r e s f l l' b b' = rw (
    tick_node_beats r e s f l l' b b',
    bcast_heartbeat_lem,
    heartbeats-counters 0 (r.election_elapsed + 1) r r.prs,
  )
  tick_times-heartbeat (suc n) r e s f l l' b b' =
      let h = r.heartbeat_elapsed + 1 in
      let k = r.election_elapsed + 1 in
      rw (tick_node_counts r e s (omega arith) (omega arith) b b') (
        tick_times-heartbeat n (record r { heartbeat_elapsed = h; election_elapsed = k }) e s f
          (omega arith) (omega arith) b b'
        ∙ rw (heartbeats-counters h k r r.prs) (
            ap
              (λ j. ok (record r {
                heartbeat_elapsed = 0;
                election_elapsed = j;
                sendmsgs = r.sendmsgs ++ heartbeats r r.prs;
              }))
              (omega arith)))
