-- ===== src/Raft/Sound/Sent.antt =====
-- What one `sendAppend` of a sound node has changed.
use sapphiredb.Base.{
  ℕ, ◌≡◌, refl, true, List, [], ◌∷◌, map, ok, length, Returns, Returns-ok, Returns-bind, arith,
  drop, through_int, sub64,
}
use sapphiredb.Base.Table.{contains}
use sapphiredb.Proto.{Codec, Entry, Message}
use sapphiredb.Progress.{
  Progress, optimistic_update, ProgressStateType, progress_state_unset, progress_state_probe,
  progress_state_replicate, progress_state_snapshot,
}
use sapphiredb.Raft.{Raft, send}
use sapphiredb.Raft.Replicate.{
  progress_of, put_progress, entries_from, message_entry, update_after_send, after_send,
  send_append,
}
use sapphiredb.Raft.Sound.{Tracks}
use sapphiredb.Raft.Sound.Tables.{Tracked-at_or}
use sapphiredb.Raft.Sound.Sends.{Any, Good, prev_entry-Returns, update_after_send-entries}

after_send-match :
    (s : ProgressStateType) (i : ℕ) (p q : Progress) → after_send s i p ≡ ok q → q.match ≡ p.match
unfolding after_send optimistic_update
after_send-match progress_state_unset i p q e = ground arith
after_send-match progress_state_probe i p q e = ground arith
after_send-match progress_state_replicate i p q e = ground arith
after_send-match progress_state_snapshot i p q e = ground arith

update_after_send-match :
    (es : List Entry) (p q : Progress) → update_after_send es p ≡ ok q → q.match ≡ p.match
unfolding update_after_send
update_after_send-match [] p q e = ground arith
update_after_send-match (e ∷ es) p q h = after_send-match p.state _ p q h

module _ ⦃c : Codec⦄ (m : Message) where
  abbrev pub Sent : ℕ → Raft → Raft → Type 0
  Sent to r s =
      (q : Progress) × (n : Message) × (s ≡ send n (put_progress to q r))
      × (q.match ≡ (progress_of to r).match)
      × Tracks (length r.entries) q

  -- A send leaves everything but the outbox and the receiver's next entry as it was.
  pub send_append-Sent :
      (to : ℕ) (r : Raft)
      → contains to r.prs ≡ true
      → Good m r
      → Returns (Sent to r) (send_append to r)
  unfolding send_append entries_from
  send_append-Sent to r a g =
      let v = Tracked-at_or (length r.entries) to r.prs a g.sound.tracked in
      let p = progress_of to r in
      let k = through_int (sub64 p.next 1) in
      Returns-bind Any (Sent to r) _ _ (prev_entry-Returns p.next r g.sound v.next_pos v.next_le)
        (λ prev _.
          let (q, e, h) =
            Returns-ok (Tracks (length r.entries))
              (update_after_send (map message_entry (drop k r.entries)) p)
              (update_after_send-entries k r.entries p g.sound.indexed v) in
          rw e (q, _, refl, update_after_send-match _ p q e, h))
