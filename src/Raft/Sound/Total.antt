-- ===== src/Raft/Sound/Total.antt =====
-- A sound node has a defined result for every message that fits it, and is sound after it.
use sapphiredb.Base.{
  ℕ, ◌≡◌, true, length, if-keeps, if-Meets, arith, ltb, Returns, Returns-bind, ok, Meets-weaken,
}
use sapphiredb.Base.Table.{contains, contains-assign, length_of_contains}
use sapphiredb.Proto.{Codec, Message, MessageType, msg_app_resp, msg_heartbeat_resp, msg_app}
use sapphiredb.Progress.{Progress, maybe_update, set_recent_active}
use sapphiredb.Raft.{Raft}
use sapphiredb.Raft.Replicate.{progress_of, put_progress}
use sapphiredb.Raft.Leader.{commit_and_bcast, leader_app_resp, leader_heartbeat_resp, leader_peer}
use sapphiredb.Raft.Step.{handle_app, general_step}
use sapphiredb.Raft.Step.Rule.{Keeps, general_step-Meets}
use sapphiredb.Raft.Sound.{Sound, Fits, Tracks}
use sapphiredb.Raft.Sound.Tables.{
  Tracked-at_or, maybe_update-Tracks, on_match-Tracks, set_recent_active-Tracks,
}
use sapphiredb.Raft.Sound.Sends.{
  Good, send-Good, put_progress-Good, send_append-Returns, bcast_append-Good, Knows,
  bcast_append-Knows,
}
use sapphiredb.Raft.Sound.Roles.{
  step_down-Good, become_leader-Good, grant_me-Good, hup-Good, handle_vote-Good, handle_node-Good,
  bcast_heartbeat-Good, follow-Good, follow_app-Good, set_ready-Good,
}
use sapphiredb.Raft.Sound.Appends.{
  commit_to-Good, maybe_commit-Good, append_entry-Good, maybe_append-Good,
}

module _ ⦃c : Codec⦄ (m : Message) where
  handle_app-Good : (r : Raft) → m.type ≡ msg_app → Good m r → Good m (handle_app m r)
  unfolding handle_app
  handle_app-Good r e g =
      let h = maybe_append-Good m r e g in
      if-keeps (Good m) (ltb m.index r.commit_index) _ _ (send-Good m _ r g)
        (if-keeps (Good m) _ _ _ (set_ready-Good m _ (send-Good m _ _ h)) (send-Good m _ _ h))

  commit_and_bcast-Knows :
      (id : ℕ) (r : Raft) → Knows m id r → Returns (Knows m id) (commit_and_bcast r)
  unfolding commit_and_bcast
  commit_and_bcast-Knows id r g =
      Returns-bind (λ res. Good m (res.1) × ((res.1).prs ≡ r.prs)) (Knows m id) _ _
        (maybe_commit-Good m r g.good (length_of_contains id r.prs g.known))
        (λ res h.
          let k : Knows m id (res.1) = record { good = h.0; known = rw (h.1) g.known } in
          if-Meets ⊥ (Knows m id) res.0 _ _ (bcast_append-Knows m id (res.1) k) k)

  put_progress-Knows :
      (p : Progress) (r : Raft)
      → Tracks (length r.entries) p
      → Good m r
      → Knows m m.from (put_progress m.from p r)
  put_progress-Knows p r h g = record {
    good = put_progress-Good m m.from p r h g;
    known = unfold put_progress in ground (arith, contains-assign m.from m.from p r.prs);
  }

  leader_app_resp-Knows :
      (r : Raft)
      → m.type ≡ msg_app_resp
      → Knows m m.from r
      → Returns (Knows m m.from) (leader_app_resp m r)
  unfolding leader_app_resp
  leader_app_resp-Knows r e k =
      let g = k.good in
      let n = length r.entries in
      let p = set_recent_active (progress_of m.from r) in
      let v = set_recent_active-Tracks n _ (Tracked-at_or n m.from r.prs k.known g.sound.tracked) in
      let w = maybe_update-Tracks n m.index p (g.fits.app_resp e).0 ((g.fits.app_resp e).1) v in
      if-Meets ⊥ (Knows m m.from) m.reject _ _ (put_progress-Knows p r v g) (
        if-Meets ⊥ (Knows m m.from) (maybe_update m.index p).0 _
          (ok (put_progress m.from (maybe_update m.index p).1 r))
          (commit_and_bcast-Knows m.from _ (put_progress-Knows _ r (on_match-Tracks n _ w) g))
          (put_progress-Knows _ r w g))

  leader_heartbeat_resp-Good :
      (r : Raft) → Knows m m.from r → Returns (Good m) (leader_heartbeat_resp m r)
  unfolding leader_heartbeat_resp
  leader_heartbeat_resp-Good r k =
      let n = length r.entries in
      let v =
        set_recent_active-Tracks n _ (Tracked-at_or n m.from r.prs k.known k.good.sound.tracked) in
      let p = set_recent_active (progress_of m.from r) in
      let h = put_progress-Knows p r v k.good in
      if-Meets ⊥ (Good m) (ltb p.match r.last_applied) _ (ok (put_progress m.from p r))
        (send_append-Returns m m.from _ h.known h.good) h.good

  leader_peer-Good :
      (t : MessageType) (r : Raft)
      → m.type ≡ t
      → contains m.from r.prs ≡ true
      → Good m r
      → Returns (Good m) (leader_peer t m r)
  unfolding leader_peer
  leader_peer-Good msg_app_resp r e a g =
      Returns-bind (Knows m m.from) (Good m) _ _
        (leader_app_resp-Knows r e (record { good = g; known = a })) leader_heartbeat_resp-Good
  leader_peer-Good msg_heartbeat_resp r e a g =
      leader_heartbeat_resp-Good r (record { good = g; known = a })
  leader_peer-Good _ r e a g = g

  Good-Keeps : Keeps ⊥ m (Good m)
  Good-Keeps = record {
    by_step_down = λ t l r _. step_down-Good m t l r;
    by_send = send-Good m;
    by_commit_to = commit_to-Good m;
    by_hup = λ r _. hup-Good m r;
    by_handle_vote = handle_vote-Good m;
    by_handle_node = handle_node-Good m;
    by_bcast_heartbeat = bcast_heartbeat-Good m;
    by_append_entry = append_entry-Good m;
    by_bcast_append = bcast_append-Good m;
    by_leader_peer = leader_peer-Good;
    by_handle_app = handle_app-Good;
    by_grant_me = λ r v. grant_me-Good m m.from v r;
    by_become_leader = λ r _. become_leader-Good m r;
    by_follow = λ r _ _ _. follow-Good m r;
    by_follow_app = λ r _. follow_app-Good m r;
  }

-- Whatever the role: for a message that fits a sound node, `generalStep` has a defined result, with
-- no read outside a vector and none of a pointer that was not set, and the node is sound after it.
pub general_step-Sound :
    ⦃c : Codec⦄ (m : Message) (r : Raft) → Sound r → Fits m r → Returns Sound (general_step m r)
general_step-Sound m r v f =
    Meets-weaken ⊥ (Good m) Sound _
      (general_step-Meets (Good-Keeps m) r (record { sound = v; fits = f })) (λ s g. g.sound)
