-- ===== src/Raft/Sound/Kept.antt =====
-- What a sound leader keeps while it sends and commits.
use sapphiredb.Base.{
  ℕ, ◌<◌, ◌≡◌, refl, ◌∙◌, ap, true, List, ok, length, ltb, Returns, Meets-weaken, if-Meets, arith,
  max,
}
use sapphiredb.Base.Table.{contains, KeysIn, KeysIn-assign, contains-assign}
use sapphiredb.Proto.{Codec, Entry, Message, msg_app_resp}
use sapphiredb.Progress.{Progress, set_recent_active}
use sapphiredb.Raft.{Raft, send, step_leader_function}
use sapphiredb.Raft.Replicate.{progress_of, put_progress, send_append, bcast_append}
use sapphiredb.Raft.Replicate.Loops.{bcast_append-Returns}
use sapphiredb.Raft.Leader.{commit_and_bcast, leader_heartbeat_resp}
use sapphiredb.Raft.Tally.{
  Tally, tally, reached, least_reached, contains-reached, reached-assign_same, maybe_commit-tally,
}
use sapphiredb.Raft.Sound.{Tracks}
use sapphiredb.Raft.Sound.Tables.{Tracked-at_or, set_recent_active-Tracks}
use sapphiredb.Raft.Sound.Sends.{Good, send-Good, put_progress-Good}
use sapphiredb.Raft.Sound.Sent.{Sent, send_append-Sent}

module _ ⦃c : Codec⦄ (m : Message) where
  -- A sound leader with the log `es` and the tally `v`.
  pub record Kept (es : List Entry) (v : Tally) (r : Raft) : Type 0 where
    pub good : Good m r
    pub leads : r.step ≡ step_leader_function
    pub entries_eq : r.entries ≡ es
    pub tally_eq : tally r ≡ v

  module _ (es : List Entry) (v : Tally) where
    pub known-Kept :
        (r : Raft) → Kept es v r → contains m.from v.0 ≡ true → contains m.from r.prs ≡ true
    known-Kept r k h =
        ground (arith, h, contains-reached m.from r.prs, ap (λ (x : Tally). x.0) k.tally_eq)

    pub put_progress-Kept :
        (to : ℕ) (q : Progress) (r : Raft)
        → contains to r.prs ≡ true
        → q.match ≡ (progress_of to r).match
        → Tracks (length r.entries) q
        → Kept es v r
        → Kept es v (put_progress to q r)
    put_progress-Kept to q r h e w k = record {
      good = put_progress-Good m to q r w k.good;
      leads = unfold put_progress in k.leads;
      entries_eq = unfold put_progress in k.entries_eq;
      tally_eq =
          unfold put_progress in
          ap (λ t. (t, r.commit_index)) (reached-assign_same to q r.prs h e) ∙ k.tally_eq;
    }

    send-Kept : (n : Message) (r : Raft) → Kept es v r → Kept es v (send n r)
    unfolding send
    send-Kept n r k = record {
      good = send-Good m n r k.good;
      leads = k.leads;
      entries_eq = k.entries_eq;
      tally_eq = k.tally_eq;
    }

    send_append-Kept :
        (to : ℕ) (r : Raft)
        → contains to r.prs ≡ true
        → Kept es v r
        → Returns (λ s. Kept es v s × KeysIn r.prs s.prs) (send_append to r)
    send_append-Kept to r h k =
        Meets-weaken ⊥ (Sent m to r) (λ s. Kept es v s × KeysIn r.prs s.prs) _
          (send_append-Sent m to r h k.good)
          (λ s (q, n, e, f, w). rw e (
            send-Kept n _ (put_progress-Kept to q r h f w k),
            unfold send put_progress in KeysIn-assign to q r.prs,
          ))

    pub bcast_append-Kept : (r : Raft) → Kept es v r → Returns (Kept es v) (bcast_append r)
    bcast_append-Kept = bcast_append-Returns (Kept es v) send_append-Kept

    pub leader_heartbeat_resp-Kept :
        contains m.from v.0 ≡ true
        → (r : Raft) → Kept es v r
        → Returns (Kept es v) (leader_heartbeat_resp m r)
    unfolding leader_heartbeat_resp
    leader_heartbeat_resp-Kept h r k =
        let known = known-Kept r k h in
        let p = set_recent_active (progress_of m.from r) in
        let w =
          set_recent_active-Tracks (length r.entries) _
            (Tracked-at_or (length r.entries) m.from r.prs known k.good.sound.tracked) in
        let k' = put_progress-Kept m.from p r known (unfold set_recent_active in refl) w k in
        if-Meets ⊥ (Kept es v) (ltb p.match r.last_applied) _ (ok (put_progress m.from p r))
          (Meets-weaken ⊥ (λ s. Kept es v s × KeysIn _ s.prs) (Kept es v) _
            (send_append-Kept m.from (put_progress m.from p r)
              (unfold put_progress in ground (arith, contains-assign m.from m.from p r.prs)) k')
            (λ s w. w.0))
          k'

  committed-Good :
      (k : ℕ) (r : Raft) → m.type ≡ msg_app_resp → Good m r → Good m (record r { commit_index = k })
  committed-Good k r e g = record {
    sound = ground (arith, g.sound);
    fits = record {
      heartbeat = λ h. absurd (ground (arith, e, h));
      prop = g.fits.prop;
      app_resp = g.fits.app_resp;
      app = g.fits.app;
    };
  }

  pub commit_and_bcast-Kept :
      (es : List Entry) (v : Tally) (r : Raft)
      → m.type ≡ msg_app_resp
      → 0 < length r.prs
      → 0 < length r.entries
      → Kept es v r
      → Returns (Kept es (v.0, max v.1 (least_reached v.0))) (commit_and_bcast r)
  unfolding commit_and_bcast
  commit_and_bcast-Kept es v r e p l k =
      let i = max r.commit_index (least_reached (reached r.prs)) in
      let v' : Tally = (v.0, max v.1 (least_reached v.0)) in
      let k' : Kept es v' (record r { commit_index = i }) = record {
        good = committed-Good i r e k.good;
        leads = k.leads;
        entries_eq = k.entries_eq;
        tally_eq = ap (λ (x : Tally). (x.0, max x.1 (least_reached x.0))) k.tally_eq;
      } in
      rw (maybe_commit-tally r k.good.sound.alone p l) (
        if-Meets ⊥ (Kept es v') (ltb r.commit_index (least_reached (reached r.prs))) _
          (ok (record r { commit_index = i }))
          (bcast_append-Kept es v' (record r { commit_index = i }) k') k')
