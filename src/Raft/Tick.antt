-- ===== src/Raft/Tick.antt =====
-- raft.cc: the clock of a node, one call each millisecond.
pub mod Timeout
pub mod Rule
use sapphiredb.Base.{◌+◌, Outcome, ok, ◌>>=◌, leb, if◌then◌else◌, u32, ℕ, zero, suc}
use sapphiredb.Proto.{
  Codec, Message, MessageType, empty_message, msg_hup, msg_check_quorum, msg_beat,
}
use sapphiredb.Raft.{
  Raft, TickFunction, tick_election_function, tick_heartbeat_function, is_state_leader,
  past_election_timeout,
}
use sapphiredb.Raft.Step.{general_step}

-- A message that a node sends to itself.
unfoldable pub own_message : MessageType → Raft → Message
own_message t r = record empty_message { from = r.id; type = t }

module _ ⦃c : Codec⦄ where
  unfoldable pub tick_election : Raft → Outcome Raft
  unfolding past_election_timeout own_message
  tick_election r =
      let r' = record r { election_elapsed = u32 (r.election_elapsed + 1) } in
      if past_election_timeout r'
      then general_step (own_message msg_hup r') (record r' { election_elapsed = 0 })
      else ok r'

  -- The check of the quorum, once in each election timeout.
  unfoldable pub tick_check_quorum : Raft → Outcome Raft
  unfolding own_message
  tick_check_quorum r =
      if leb r.election_timeout r.election_elapsed
      then (let r' = record r { election_elapsed = 0 } in
          if r'.check_quorum then general_step (own_message msg_check_quorum r') r' else ok r')
      else ok r

  unfoldable pub tick_beat : Raft → Outcome Raft
  unfolding own_message
  tick_beat r =
      if is_state_leader r.state
      then (if leb r.heartbeat_timeout r.heartbeat_elapsed
          then general_step (own_message msg_beat r) (record r { heartbeat_elapsed = 0 })
          else ok r)
      else ok r

  unfoldable pub tick_heartbeat : Raft → Outcome Raft
  unfolding tick_check_quorum tick_beat
  tick_heartbeat r =
      tick_check_quorum (record r {
        heartbeat_elapsed = u32 (r.heartbeat_elapsed + 1);
        election_elapsed = u32 (r.election_elapsed + 1);
      })
      >>= λ r'. tick_beat r'

  unfoldable pub call_tick : TickFunction → Raft → Outcome Raft
  call_tick tick_election_function r = tick_election r
  call_tick tick_heartbeat_function r = tick_heartbeat r

  unfoldable pub tick_node : Raft → Outcome Raft
  unfolding call_tick
  tick_node r = call_tick r.tick r

module _ ⦃c : Codec⦄ where
  -- Rounds of the loop of `Node::run`, which calls `tickNode` and sleeps.
  unfoldable pub tick_times : ℕ → Raft → Outcome Raft
  tick_times zero r = ok r
  tick_times (suc n) r = tick_node r >>= λ r'. tick_times n r'
