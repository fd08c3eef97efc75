-- ===== src/Raft/Tick/Rule.antt =====
-- A tick keeps what a node's own messages and the two counters keep.
use sapphiredb.Base.{ℕ, ◌+◌, ◌≡◌, refl, ◌⊎◌, inl, inr, u32, Meets, Meets-bind, if-Meets}
use sapphiredb.Proto.{
  Codec, Message, MessageType, empty_message, msg_hup, msg_check_quorum, msg_beat,
}
use sapphiredb.Raft.{Raft, TickFunction, tick_election_function, tick_heartbeat_function}
use sapphiredb.Raft.Step.{general_step}
use sapphiredb.Raft.Tick.{
  call_tick, tick_node, tick_election, tick_heartbeat, own_message, tick_check_quorum, tick_beat,
}

-- The type of a message that a tick makes.
abbrev pub Own : MessageType → Type 0
Own t = (t ≡ msg_hup) ⊎ ((t ≡ msg_check_quorum) ⊎ (t ≡ msg_beat))

module _ ⦃c : Codec⦄ (U : Type 0) (P : Raft → Type 0)
    (by_step : (m : Message) (r : Raft) → Own m.type → P r → Meets U P (general_step m r))
    (by_count : (h e : ℕ) (r : Raft)
      → P r
      → P (record r { heartbeat_elapsed = h; election_elapsed = e })) where
  by_own :
      (s : MessageType) (id : ℕ) (r : Raft)
      → Own s
      → P r
      → Meets U P (general_step (record empty_message { from = id; type = s }) r)
  by_own s id r o = by_step (record empty_message { from = id; type = s }) r o

  tick_election-Meets : (r : Raft) → P r → Meets U P (tick_election r)
  unfolding tick_election own_message
  tick_election-Meets r v =
      let w = by_count r.heartbeat_elapsed (u32 (r.election_elapsed + 1)) r v in
      let h = by_own msg_hup r.id _ (inl refl) (by_count r.heartbeat_elapsed 0 r v) in
      search (if-Meets, w, h)

  tick_check_quorum-Meets : (r : Raft) → P r → Meets U P (tick_check_quorum r)
  unfolding tick_check_quorum own_message
  tick_check_quorum-Meets r v =
      let w = by_count r.heartbeat_elapsed 0 r v in
      let h = by_own msg_check_quorum r.id _ (inr (inl refl)) w in search (if-Meets, w, h, v)

  tick_beat-Meets : (r : Raft) → P r → Meets U P (tick_beat r)
  unfolding tick_beat own_message
  tick_beat-Meets r v =
      let w = by_count 0 r.election_elapsed r v in
      let h = by_own msg_beat r.id _ (inr (inr refl)) w in search (if-Meets, h, v)

  tick_heartbeat-Meets : (r : Raft) → P r → Meets U P (tick_heartbeat r)
  unfolding tick_heartbeat
  tick_heartbeat-Meets r v =
      Meets-bind U P P _ _ (tick_check_quorum-Meets _ (by_count _ _ r v)) tick_beat-Meets

  call_tick-Meets : (f : TickFunction) (r : Raft) → P r → Meets U P (call_tick f r)
  unfolding call_tick
  call_tick-Meets tick_election_function r v = tick_election-Meets r v
  call_tick-Meets tick_heartbeat_function r v = tick_heartbeat-Meets r v

  pub tick_node-Meets : (r : Raft) → P r → Meets U P (tick_node r)
  unfolding tick_node
  tick_node-Meets r v = call_tick-Meets r.tick r v
