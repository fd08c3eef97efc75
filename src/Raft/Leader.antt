-- ===== src/Raft/Leader.antt =====
-- raft.cc: what a leader does with a message.
use sapphiredb.Base.{not, Outcome, ok, ◌>>=◌, ltb, if◌then◌else◌}
use sapphiredb.Base.Table.{contains}
use sapphiredb.Proto.{
  Codec, Message, MessageType, msg_heartbeat_resp, msg_app_resp, msg_check_quorum, msg_beat,
  msg_prop,
}
use sapphiredb.Progress.{
  Progress, ProgressStateType, progress_state_probe, progress_state_snapshot, become_probe,
  become_replicate, set_recent_active, maybe_update,
}
use sapphiredb.Raft.{Raft, step_down}
use sapphiredb.Raft.Replicate.{
  progress_of, put_progress, bcast_heartbeat, send_append, bcast_append, check_quorum_active,
  maybe_commit, append_entry,
}

-- The switch on the state of a progress whose match has grown.
unfoldable pub on_match : ProgressStateType → Progress → Progress
unfolding become_replicate become_probe
on_match progress_state_probe p = become_replicate p
on_match progress_state_snapshot p = become_probe p
on_match _ p = p

module _ ⦃c : Codec⦄ where
  -- A grown match may take the commit index up, which the peers are then told.
  unfoldable pub commit_and_bcast : Raft → Outcome Raft
  commit_and_bcast r = maybe_commit r >>= λ res. if res.0 then bcast_append (res.1) else ok (res.1)

  unfoldable pub leader_app_resp : Message → Raft → Outcome Raft
  unfolding set_recent_active maybe_update on_match put_progress
  leader_app_resp msg r =
      let p = set_recent_active (progress_of msg.from r) in
      if msg.reject
      then ok (put_progress msg.from p r)
      else (let (news, q) = maybe_update msg.index p in
          if news
          then commit_and_bcast (put_progress msg.from (on_match q.state q) r)
          else ok (put_progress msg.from q r))

  unfoldable pub leader_heartbeat_resp : Message → Raft → Outcome Raft
  unfolding set_recent_active put_progress
  leader_heartbeat_resp msg r =
      let p = set_recent_active (progress_of msg.from r) in
      let r' = put_progress msg.from p r in
      if ltb p.match r.last_applied then send_append msg.from r' else ok r'

  -- The second switch: a `MsgAppResp` goes on into the case below it.
  unfoldable pub leader_peer : MessageType → Message → Raft → Outcome Raft
  unfolding leader_app_resp leader_heartbeat_resp
  leader_peer msg_app_resp msg r = leader_app_resp msg r >>= λ r'. leader_heartbeat_resp msg r'
  leader_peer msg_heartbeat_resp msg r = leader_heartbeat_resp msg r
  leader_peer _ msg r = ok r

  unfoldable pub leader_dispatch : MessageType → Message → Raft → Outcome Raft
  leader_dispatch msg_beat msg r = bcast_heartbeat r
  leader_dispatch msg_prop msg r = append_entry msg.entries r >>= λ r'. bcast_append r'
  leader_dispatch msg_check_quorum msg r =
      if not (check_quorum_active r) then ok (step_down r.current_term 0 r) else ok r
  leader_dispatch t msg r = if contains msg.from r.prs then leader_peer t msg r else ok r

  unfoldable pub step_leader : Message → Raft → Outcome Raft
  unfolding leader_dispatch
  step_leader msg r = leader_dispatch msg.type msg r
