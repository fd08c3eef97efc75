-- ===== src/Raft/Step.antt =====
-- raft.cc: what a node does with a message, in each of its roles. The leader's part is in Leader.antt.
pub mod Rule
pub mod Requests
pub mod Basics
unfoldable pub use sapphiredb.Raft.Leader.{
  on_match, commit_and_bcast, leader_app_resp, leader_heartbeat_resp, leader_peer, leader_dispatch,
  step_leader,
}
use sapphiredb.Base.{
  ℕ, Bool, true, false, not, ◌&&◌, ◌||◌, [], ◌∷◌, map, Outcome, ok, ◌>>=◌, ltb, leb, ◌==◌,
  if◌then◌else◌, sub64, length,
}
use sapphiredb.Base.Table.{Table, contains}
use sapphiredb.Proto.{
  Codec, Entry, Message, MessageType, empty_entry, empty_message, msg_heartbeat, msg_heartbeat_resp,
  msg_vote, msg_vote_resp, msg_app, msg_app_resp, msg_hup, msg_check_quorum, msg_transfer_leader,
  msg_node, msg_node_resp, msg_beat, msg_prop,
}
use sapphiredb.Progress.{
  Progress, ProgressStateType, progress_state_probe, progress_state_snapshot, become_probe,
  become_replicate, set_recent_active, maybe_update,
}
use sapphiredb.Raft.{
  Raft, StepFunction, step_leader_function, step_candidate_function, step_follower_function,
  is_state_leader, step_down, become_candidate, become_leader, quorum, send, set_ready,
}
use sapphiredb.Raft.Log.{commit_to, maybe_append}
use sapphiredb.Raft.Members.{add_node, push_unknownid, grant_me}
use sapphiredb.Raft.Replicate.{
  progress_of, put_progress, bcast_heartbeat, send_append, bcast_append, check_quorum_active,
  maybe_commit, append_entry,
}

-- The answer to a `MsgHeartbeat`.
unfoldable pub heartbeat_resp : Message → Raft → Message
heartbeat_resp msg r = record empty_message {
  from = r.id;
  to = msg.from;
  type = msg_heartbeat_resp;
  context = msg.context;
}

-- The entries of a message as they are stored, without their type.
unfoldable pub stored_entry : Entry → Entry
stored_entry e = record empty_entry { index = e.index; term = e.term; bytes = e.bytes }

-- The part that `MsgApp` has in common for a candidate and a follower.
unfoldable pub handle_app : Message → Raft → Raft
unfolding stored_entry
handle_app msg r =
    let resp : Message = record empty_message { from = r.id; to = msg.from; type = msg_app_resp } in
    if ltb msg.index r.commit_index
    then send (record resp { index = r.commit_index }) r
    else (let (last, r') =
          maybe_append msg.index msg.log_term msg.commit (map stored_entry msg.entries) r in
        if ltb 0 last
        then set_ready (send (record resp { index = last }) r')
        else send (record resp { reject = true; index = msg.index }) r')

module _ ⦃c : Codec⦄ where
  unfoldable pub candidate_vote_resp : Message → Raft → Outcome Raft
  candidate_vote_resp msg r =
      let (granted, r') = grant_me msg.from (not msg.reject) r in
      if quorum r' == granted
      then bcast_append (become_leader r')
      else if quorum r' == sub64 (length r'.votes) granted
      then ok (step_down r'.current_term 0 r')
      else ok r'

  unfoldable pub candidate_dispatch : MessageType → Message → Raft → Outcome Raft
  unfolding candidate_vote_resp
  candidate_dispatch msg_heartbeat msg r =
      commit_to msg.commit (step_down r.current_term msg.from r) >>= λ r'.
      ok (send (heartbeat_resp msg r') r')
  candidate_dispatch msg_app msg r = ok (handle_app msg (step_down r.current_term msg.from r))
  candidate_dispatch msg_vote_resp msg r = candidate_vote_resp msg r
  candidate_dispatch _ msg r = ok r

  unfoldable pub step_candidate : Message → Raft → Outcome Raft
  unfolding candidate_dispatch
  step_candidate msg r = candidate_dispatch msg.type msg r

-- A follower takes the sender of a heartbeat for its leader, and the message's term with it.
unfoldable pub follow : Message → Raft → Raft
follow msg r =
    let r' = record r { election_elapsed = 0 } in
    if r.leader == msg.from then r' else record r' { leader = msg.from; current_term = msg.term }

unfoldable pub follow_app : Message → Raft → Raft
follow_app msg r = record r { election_elapsed = 0; leader = msg.from }

unfoldable pub follower_dispatch : MessageType → Message → Raft → Outcome Raft
unfolding follow follow_app
follower_dispatch msg_heartbeat msg r =
    commit_to msg.commit (follow msg r) >>= λ r'. ok (send (heartbeat_resp msg r') r')
follower_dispatch msg_app msg r = ok (handle_app msg (follow_app msg r))
follower_dispatch msg_transfer_leader msg r =
    if r.leader == 0 then ok r else ok (send (record msg { to = r.leader }) r)
follower_dispatch _ msg r = ok r

unfoldable pub step_follower : Message → Raft → Outcome Raft
unfolding follower_dispatch
step_follower msg r = follower_dispatch msg.type msg r

-- The requests for votes that a candidate sends, which name neither sender nor entries.
unfoldable pub vote_request : ℕ → Raft → Message
vote_request to r = record empty_message {
  term = r.current_term;
  to = to;
  type = msg_vote;
  index = r.last_applied;
  log_term = r.commit_index;
}

unfoldable pub request_votes : Table Progress → Raft → Raft
unfolding vote_request send
request_votes [] r = r
request_votes ((id, p) ∷ prs) r =
    request_votes prs (if id == r.id then r else send (vote_request id r) r)

unfoldable pub hup : Raft → Raft
unfolding request_votes
hup r =
    if is_state_leader r.state
    then r
    else (let (granted, r') = grant_me r.id true (become_candidate r) in
        if quorum r' == granted then become_leader r' else request_votes r'.prs r')

-- The log of the asking node is compared by commit index and applied index.
unfoldable pub up_to_date : Message → Raft → Bool
up_to_date msg r =
    ltb r.commit_index msg.log_term
    || (msg.log_term == r.commit_index && leb r.last_applied msg.index)

-- `(0 == _vote) || (_vote = msg.from())`: the second part assigns.
unfoldable pub vote_free : Message → Raft → Bool
vote_free msg r = r.vote == 0 || not (msg.from == 0)

unfoldable pub handle_vote : Message → Raft → Raft
unfolding up_to_date vote_free send
handle_vote msg r =
    let resp : Message = record empty_message {
      to = msg.from;
      term = msg.term;
      type = msg_vote_resp;
    } in
    record (send (record resp { reject = not (vote_free msg r && up_to_date msg r) }) r) {
      election_elapsed = 0;
      vote = msg.from;
    }

unfoldable pub handle_node : Message → Raft → Raft
unfolding add_node push_unknownid send
handle_node msg r =
    send (record empty_message { to = msg.from; term = msg.term; type = msg_node_resp })
      (push_unknownid msg.from (add_node msg.from r))

module _ ⦃c : Codec⦄ where
  -- `this->_step(this, msg)`.
  unfoldable pub call_step : StepFunction → Message → Raft → Outcome Raft
  call_step step_leader_function msg r = step_leader msg r
  call_step step_candidate_function msg r = step_candidate msg r
  call_step step_follower_function msg r = step_follower msg r

  -- The switch of `generalStep`, once the term has been dealt with.
  unfoldable pub dispatch : MessageType → Message → Raft → Outcome Raft
  unfolding call_step
  dispatch msg_hup msg r = ok (hup r)
  dispatch msg_vote msg r = ok (handle_vote msg r)
  dispatch msg_node msg r = ok (handle_node msg r)
  dispatch _ msg r = call_step r.step msg r

abbrev pub is_msg_vote : MessageType → Bool
is_msg_vote msg_vote = true
is_msg_vote _ = false

abbrev pub is_heartbeat_or_app : MessageType → Bool
is_heartbeat_or_app msg_heartbeat = true
is_heartbeat_or_app msg_app = true
is_heartbeat_or_app _ = false

-- A vote request that a node with a live leader does not look at.
unfoldable pub ignores_vote : Message → Raft → Bool
ignores_vote msg r =
    is_msg_vote msg.type
    && r.check_quorum
    && not (r.leader == 0)
    && ltb r.election_elapsed r.election_timeout

-- A message from an older term.
unfoldable pub stale : Message → Raft → Raft
unfolding send
stale msg r =
    if r.check_quorum && is_heartbeat_or_app msg.type
    then send (record empty_message { to = msg.from; type = msg_app_resp }) r
    else r

module _ ⦃c : Codec⦄ where
  unfoldable pub general_step : Message → Raft → Outcome Raft
  unfolding ignores_vote stale
  general_step msg r =
      if msg.term == 0
      then dispatch msg.type msg r
      else if ltb r.current_term msg.term
      then (if ignores_vote msg r
          then ok r
          else dispatch msg.type msg (step_down msg.term msg.from r))
      else if ltb msg.term r.current_term
      then ok (stale msg r)
      else dispatch msg.type msg r
