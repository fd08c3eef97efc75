-- ===== src/Node/Cluster/Delayed.antt =====
-- A `MsgApp` that arrives when the follower has already taken later entries.
use mathlib.Core.Path.{subst}
use sapphiredb.Base.{
  ℕ, ◌+◌, ◌<◌, ◌≡◌, refl, ap, sym, ◌∙◌, false, List, [], ◌∷◌, ◌++◌, ok, length, length-map,
  length-append, Returns, Meets-weaken, ltb, arith,
}
use sapphiredb.Base.Table.{at_or}
use sapphiredb.Proto.{Codec, Entry}
use sapphiredb.Progress.{Progress}
use sapphiredb.Raft.{Raft, step_leader_function}
use sapphiredb.Raft.Replicate.{progress_of}
use sapphiredb.Raft.Replicate.Append.{content}
use sapphiredb.Raft.Step.{general_step, stored_entry}
use sapphiredb.Raft.Tally.{tally, reached, acknowledge, acknowledge-old, at_or-reached}
use sapphiredb.Raft.Sound.{Sound, Tracks}
use sapphiredb.Raft.Sound.Acknowledged.{general_step-acknowledge}
use sapphiredb.Raft.Sound.Rounds.{answer, sent_to, Follows}
use sapphiredb.Node.Cluster.Followers.{After, follower-After}

-- A leader has sent a follower its log, which was not empty and which an `int` could count, from where
-- it believed the follower to be, and has grown it since. The follower holds the longer log, entry
-- types aside, and the leader, which is sound, knows it. The earlier message arrives again, or only
-- now, and still goes with what the follower holds, has committed and has as its term. Then the
-- follower's log is cut back to the earlier one, which is shorter, and its answer is queued, with a
-- defined result; and what the leader knows of its peers and has committed is as before when it has
-- handled that answer, with a defined result too: it still counts on the entries that the follower has
-- lost.
pub delayed_app_forgets :
    ⦃c : Codec⦄ (early late f : Raft) (id : ℕ) (p : Progress) (more : List Entry)
    → late.entries ≡ early.entries ++ more
    → 0 < length more
    → content f.entries ≡ content late.entries
    → Follows early f id p
    → Tracks (length early.entries) p
    → 0 < length early.entries
    → length early.entries < 2147483648
    → Sound late
    → late.step ≡ step_leader_function
    → (progress_of id late).match ≡ length late.entries
    → (f₁ : Raft) × (general_step (sent_to early id p) f ≡ ok f₁)
      × (content f₁.entries ≡ content early.entries)
      × (length f₁.entries < length f.entries)
      × (f₁.sendmsgs ≡ f.sendmsgs ++ answer early id ∷ [])
      × Returns
          (λ s. (tally s ≡ tally late) × (s.entries ≡ late.entries))
          (general_step (answer early id) late)
delayed_app_forgets early late f id p more e m same h k b s v t g =
    let n = length early.entries in
    let longer : length late.entries ≡ n + length more =
      ap length e ∙ length-append early.entries more in
    let (f₁, r, a) =
      subst (λ i. (f₁ : Raft) × (general_step (sent_to early i p) f ≡ ok f₁) × After early f f₁)
        h.is_node (follower-After early f id p h k b s) in
    let size = λ (xs ys : List Entry) (q : content xs ≡ content ys).
      sym (length-map stored_entry xs) ∙ ap length q ∙ length-map stored_entry ys in
    let told : ltb (at_or 0 id (reached late.prs)) n ≡ false =
      ground (arith, at_or-reached id late.prs, g, longer) in
    (
      f₁,
      r,
      a.same,
      omega (
        arith,
        size f₁.entries early.entries a.same,
        size f.entries late.entries same,
        longer,
        m,
      ),
      a.answered ∙ ap (λ i. f.sendmsgs ++ answer early i ∷ []) h.is_node,
      Meets-weaken ⊥
          (λ s.
            (tally s ≡ acknowledge id n (tally late))
            × (s.entries ≡ late.entries)
            × (s.step ≡ step_leader_function)
            × Sound s)
          (λ s. (tally s ≡ tally late) × (s.entries ≡ late.entries)) _
          (general_step-acknowledge (answer early id) late v t refl refl refl
            (omega (arith, longer, b)) (omega (arith, longer)) (omega (arith, s)))
          (λ s w. (
            w.0 ∙ acknowledge-old id n (reached late.prs) late.commit_index (ground (arith, told)),
            w.1,
          )),
    )
