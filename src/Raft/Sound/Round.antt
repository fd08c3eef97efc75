-- ===== src/Raft/Sound/Round.antt =====
-- A whole round between a leader and its one peer: entries, acknowledgement, commit.
use sapphiredb.Base.{
  ℕ, ◌+◌, ◌≤◌, ◌<◌, ◌≡◌, refl, ◌∙◌, ap, true, some, [], ◌∷◌, ◌++◌, map, Outcome, ok, length,
  length-map, length-drop, take, drop, Returns, Returns-ok, Meets-weaken, arith,
}
use sapphiredb.Base.Table.{contains}
use sapphiredb.Proto.{Codec, Message, empty_message, msg_app_resp}
use sapphiredb.Progress.{Progress}
use sapphiredb.Raft.{Raft, send, set_ready, step_leader_function}
use sapphiredb.Raft.Replicate.{progress_of, put_progress, send_append, message_entry}
use sapphiredb.Raft.Replicate.Append.{
  IsPlain, prev_term, app_message, content, send_append-Replicates, handle_app_accepts,
}
use sapphiredb.Raft.Step.{handle_app, general_step}
use sapphiredb.Raft.Sound.{Sound, Tracks}
use sapphiredb.Raft.Sound.Sends.{Good, send-Good, put_progress-Good}
use sapphiredb.Raft.Sound.Sent.{Sent, send_append-Sent}
use sapphiredb.Raft.Sound.Acknowledged.{general_step-commits}

-- The answer of a follower that has taken the whole log.
abbrev pub acknowledgement : Raft → Raft → Message
acknowledgement l f = record empty_message {
  from = f.id;
  to = l.id;
  type = msg_app_resp;
  index = length l.entries;
}

handle_app-sendmsgs :
    (n t : ℕ) (l f : Raft)
    → f.commit_index ≤ n
    → n ≤ length f.entries
    → n ≤ length l.entries
    → 0 < length l.entries
    → length l.entries < 2147483648
    → f.current_term ≡ t
    → (handle_app (app_message f.id n t l) f).sendmsgs ≡ f.sendmsgs ++ acknowledgement l f ∷ []
unfolding set_ready send
handle_app-sendmsgs n t l f c k k' p b e =
    let sent = length-map message_entry (drop n l.entries) ∙ length-drop n l.entries in
    let index : n + length (map message_entry (drop n l.entries)) ≡ length l.entries =
      omega (arith, sent) in
    rw
      (
        handle_app_accepts (app_message f.id n t l) f c k e (omega (arith, sent))
            (omega (arith, sent)),
        index,
      )
      refl

pub same_result : (m : Outcome Raft) (r s : Raft) → m ≡ ok r → m ≡ ok s → r ≡ s
same_result m r s e h = cc

module _ ⦃c : Codec⦄ where
  after_send-commits :
      (l l₁ f : Raft) (p : Progress)
      → Good (acknowledgement l f) l
      → l.step ≡ step_leader_function
      → l.prs ≡ (f.id, p) ∷ []
      → p.match < length l.entries
      → l.commit_index < length l.entries
      → length l.entries < 2147483648
      → Sent (acknowledgement l f) f.id l l₁
      → Returns
          (λ s. (s.commit_index ≡ length l.entries) × (s.entries ≡ l.entries))
          (general_step (acknowledgement l f) l₁)
  unfolding send put_progress
  after_send-commits l l₁ f p g s e m k b (q, n, h, x, v) =
      let a = acknowledgement l f in
      let r₁ = send n (put_progress f.id q l) in
      let good = send-Good a n _ (put_progress-Good a f.id q l v g) in
      let held : q.match ≡ p.match = x ∙ rw e (ground arith) in
      rw h (
        Meets-weaken ⊥ _ (λ s. (s.commit_index ≡ length l.entries) × (s.entries ≡ l.entries)) _
          (general_step-commits a r₁ q good.sound s (rw e (ground arith)) refl refl refl
            (omega (arith, held)) k (omega arith) (omega arith))
          (λ s w. (w.0, w.2)))

  -- A whole round. A sound leader knows one peer, which it believes to be `n` entries along and which
  -- is not known to hold its whole log, and has not committed all of it; its log starts at 1 and has
  -- terms; the follower agrees with it on the first `n` entries, has committed no more, and has the
  -- term that goes with the message. `sendAppend` has a defined result and queues one `MsgApp`; after
  -- it the follower holds the leader's log, entry types aside, and its answer is queued; and after the
  -- answer, which has a defined result too, the leader has committed its log.
  pub round-commits :
      (n t : ℕ) (l f : Raft) (p : Progress)
      → Sound l
      → IsPlain l
      → l.step ≡ step_leader_function
      → l.prs ≡ (f.id, p) ∷ []
      → p.next ≡ n + 1
      → p.match < length l.entries
      → l.commit_index < length l.entries
      → prev_term n l ≡ some t
      → f.commit_index ≤ n
      → n ≤ length f.entries
      → n ≤ length l.entries
      → f.current_term ≡ t
      → content (take n f.entries) ≡ content (take n l.entries)
      → (l₁ : Raft) × (send_append f.id l ≡ ok l₁)
        × (l₁.sendmsgs ≡ l.sendmsgs ++ app_message f.id n t l ∷ [])
        × (let f₁ = handle_app (app_message f.id n t l) f in
            (content f₁.entries ≡ content l.entries)
            × (f₁.sendmsgs ≡ f.sendmsgs ++ acknowledgement l f ∷ []))
        × Returns
            (λ s. (s.commit_index ≡ length l.entries) × (s.entries ≡ l.entries))
            (general_step (acknowledgement l f) l₁)
  round-commits n t l f p v plain s e x m k h c d d' y z =
      let own : progress_of f.id l ≡ p = rw e (ground arith) in
      let known : contains f.id l.prs ≡ true = rw e (ground arith) in
      let g : Good (acknowledgement l f) l = record {
        sound = v;
        fits = ground (arith, plain.counted);
      } in
      let tracked : Tracks (length l.entries) p = (rw e at v.tracked).0 in
      let (l₁, i, w) =
        Returns-ok (Sent (acknowledgement l f) f.id l) (send_append f.id l)
          (send_append-Sent (acknowledgement l f) f.id l known g) in
      let ((q, j), (r, _)) =
        send_append-Replicates n t l f plain (rw own x) (rw own tracked.is_set) h c d d'
          (omega arith) y z in
      (
        l₁,
        i,
        unfold send put_progress in
            ap (λ r. r.sendmsgs) (same_result (send_append f.id l) l₁ _ i j),
        (r, handle_app-sendmsgs n t l f c d d' (omega arith) plain.counted y),
        after_send-commits l l₁ f p g s e m k plain.counted w,
      )
