-- ===== src/Raft/Sound/Rounds.antt =====
-- A whole round between a leader and all its followers: entries, acknowledgements, commit.
use mathlib.Core.Path.{subst}
use sapphiredb.Base.{
  ℕ, ◌+◌, ◌-◌, ◌≤◌, ◌<◌, ◌≡◌, refl, sym, ◌∙◌, ap, true, false, ◌||◌, inl, List, [], ◌∷◌, ◌++◌, map,
  ok, length, length-map, length-drop, take, drop, Returns, ◌==◌, arith,
}
use sapphiredb.Base.Table.{Table, contains, Distinct}
use sapphiredb.Proto.{Codec, Message, empty_message, msg_app, msg_app_resp}
use sapphiredb.Progress.{Progress}
use sapphiredb.Raft.{Raft, send, set_ready, step_leader_function, step_follower_function}
use sapphiredb.Raft.Replicate.{bcast_append, message_entry}
use sapphiredb.Raft.Replicate.Append.{
  IsPlain, app_message, content, handle_app_accepts, handle_app-Replicates,
}
use sapphiredb.Raft.Replicate.Broadcast.{prev_or, appends, bcast_append-appends}
use sapphiredb.Raft.Step.{
  general_step, dispatch, call_step, step_follower, follower_dispatch, follow_app, handle_app,
}
use sapphiredb.Raft.Tally.{
  Tally, tally, reached, least_reached, contains-reached, Distinct-reached, Distinct-of_reached,
  length-reached,
}
use sapphiredb.Raft.Tally.All.{elem}
use sapphiredb.Raft.Sound.{Sound, Tracks, Tracked}
use sapphiredb.Raft.Sound.Kept.{Kept, bcast_append-Kept}
use sapphiredb.Raft.Sound.Everyone.{AllAcknowledge, Committed, step_times, step_times-commits}

-- What a node answers that has taken the whole log.
abbrev pub answer : Raft → ℕ → Message
answer l id = record empty_message {
  from = id;
  to = l.id;
  type = msg_app_resp;
  index = length l.entries;
}

-- What the leader sends to a node.
abbrev pub sent_to : Raft → ℕ → Progress → Message
sent_to l id p = app_message id (p.next - 1) (prev_or (p.next - 1) l) l

-- A follower that agrees with the leader up to where the leader believes it to be, has committed no
-- more, and has the term that goes with the message.
pub record Follows (l f : Raft) (id : ℕ) (p : Progress) : Type 0 where
  pub is_node : f.id ≡ id
  pub is_peer : (id == l.id || id == 0) ≡ false
  pub follows : f.step ≡ step_follower_function
  pub commit_le : f.commit_index ≤ p.next - 1
  pub holds : p.next - 1 ≤ length f.entries
  pub in_term : f.current_term ≡ prev_or (p.next - 1) l
  pub agrees : content (take (p.next - 1) f.entries) ≡ content (take (p.next - 1) l.entries)

abbrev pub AllFollow : Raft → (ℕ → Raft) → Table Progress → Type 0
AllFollow l nodes [] = Unit {0}
AllFollow l nodes ((id, p) ∷ t) = Follows l (nodes id) id p × AllFollow l nodes t

-- Each node of a table, given what the leader sends to it, has a defined result, holds the leader's
-- log then, entry types aside, and has its answer in the queue.
abbrev pub AllHold : ⦃c : Codec⦄ → Raft → (ℕ → Raft) → Table Progress → Type 0
AllHold l nodes [] = Unit {0}
AllHold l nodes ((id, p) ∷ t) =
    Returns
      (λ f.
        (content f.entries ≡ content l.entries)
        × (f.sendmsgs ≡ (nodes id).sendmsgs ++ answer l id ∷ []))
      (general_step (sent_to l id p) (nodes id))
    × AllHold l nodes t

module _ ⦃c : Codec⦄ (l : Raft) where
  abbrev Holds : Raft → ℕ → Progress → Type 0
  Holds f id p =
      Returns
        (λ f₁.
          (content f₁.entries ≡ content l.entries) × (f₁.sendmsgs ≡ f.sendmsgs ++ answer l id ∷ []))
        (general_step (sent_to l id p) f)

  pub follower_step :
      (m : Message) (f : Raft)
      → m.type ≡ msg_app
      → m.term ≡ 0
      → f.step ≡ step_follower_function
      → general_step m f ≡ ok (handle_app m (follow_app m f))
  unfolding general_step dispatch call_step step_follower follower_dispatch
  follower_step m f e t s = ground arith

  follower-Holds :
      (f : Raft) (id : ℕ) (p : Progress)
      → Follows l f id p
      → Tracks (length l.entries) p
      → 0 < length l.entries
      → length l.entries < 2147483648
      → Holds f f.id p
  unfolding follow_app set_ready send
  follower-Holds f id p h k b s =
      let n = p.next - 1 in
      let m = sent_to l f.id p in
      let g = follow_app m f in
      let le : n ≤ length l.entries = omega (arith, k.next_le, k.next_pos) in
      let sent = length-map message_entry (drop n l.entries) ∙ length-drop n l.entries in
      let index : n + length (map message_entry (drop n l.entries)) ≡ length l.entries =
        omega (arith, sent, le) in
      let (same, _) =
        handle_app-Replicates n (prev_or n l) l g h.commit_le h.holds le b s h.in_term h.agrees in
      let taken =
        handle_app_accepts m g h.commit_le h.holds h.in_term (omega (arith, index))
          (omega (arith, index)) in
      rw (follower_step m f refl refl h.follows)
        (same, ap (λ (r : Raft). r.sendmsgs) taken ∙ rw index refl)

  AllHold_lem :
      (nodes : ℕ → Raft) (t : Table Progress)
      → AllFollow l nodes t
      → Tracked (length l.entries) t
      → 0 < length l.entries
      → length l.entries < 2147483648
      → AllHold l nodes t
  AllHold_lem nodes [] h k b s = tt
  AllHold_lem nodes ((id, p) ∷ t) h k b s = (
    subst (λ i. Holds (nodes id) i p) h.0.is_node (follower-Holds (nodes id) id p h.0 k.0 b s),
    AllHold_lem nodes t h.1 k.1 b s,
  )

pub AllAcknowledge-answers :
    (l : Raft) (order : List ℕ) → AllAcknowledge (length l.entries) (map (answer l) order)
AllAcknowledge-answers l [] = tt
AllAcknowledge-answers l (id ∷ order) = (refl, refl, refl, refl, AllAcknowledge-answers l order)

pub elem-answers :
    (l : Raft) (k : ℕ) (order : List ℕ)
    → elem k (map (λ m. m.from) (map (answer l) order)) ≡ elem k order
elem-answers l k [] = refl
elem-answers l k (id ∷ order) = ground (arith, elem-answers l k order)

module _ ⦃c : Codec⦄ where
  -- The leader after a broadcast: what it knows and has committed is as it was.
  pub bcast_append-Sound :
      (l : Raft)
      → Sound l
      → IsPlain l
      → l.step ≡ step_leader_function
      → Distinct l.prs
      → (u : Table Progress) × (bcast_append l
          ≡ ok (record l { prs = u; sendmsgs = l.sendmsgs ++ appends l l.prs }))
        × Sound (record l { prs = u; sendmsgs = l.sendmsgs ++ appends l l.prs })
        × (reached u ≡ reached l.prs)
  bcast_append-Sound l v plain s d =
      let m = answer l 0 in
      let k : Kept m l.entries (tally l) l = record {
        good = record { sound = v; fits = ground (arith, plain.counted) };
        leads = s;
        entries_eq = refl;
        tally_eq = refl;
      } in
      let (u, e) = bcast_append-appends l plain d v.tracked in
      let w = rw e at (bcast_append-Kept m l.entries (tally l) l k) in
      (u, e, w.good.sound, ap (λ (x : Tally). x.0) w.tally_eq)

  -- A whole round. A sound leader whose log is not empty, starts at 1, has terms and can be counted by
  -- an `int` knows some peers, each once and none of them its own id or 0; it has not committed past
  -- its log, and does not know all of them to hold the whole log. Each of them is a follower that
  -- agrees with the leader up to where the leader believes it to be, has committed no more, and has
  -- the term that goes with what it is sent. Then `bcastAppend` has a defined result and queues one
  -- `MsgApp` for each peer; each peer that handles its own holds the leader's log after it, entry types
  -- aside, and its answer is queued, with a defined result; and when the answers of all of them, in
  -- whatever order and however often, are all that is in the leader's inbox, and it has handled them,
  -- with a defined result too, the leader has committed its whole log, which is as it was, its inbox is
  -- empty, and it is a sound leader that knows as many peers, each once, and whose term has not gone
  -- back and which has applied as much as before.
  pub rounds-commit :
      (l : Raft) (nodes : ℕ → Raft) (order : List ℕ)
      → Sound l
      → IsPlain l
      → l.step ≡ step_leader_function
      → 0 < length l.prs
      → Distinct l.prs
      → 0 < length l.entries
      → l.commit_index ≤ length l.entries
      → least_reached (reached l.prs) < length l.entries
      → AllFollow l nodes l.prs
      → ((k : ℕ) → contains k l.prs ≡ true → elem k order ≡ true)
      → AllHold l nodes l.prs
        × (l₁ : Raft) × (bcast_append l ≡ ok l₁)
        × (l₁.sendmsgs ≡ l.sendmsgs ++ appends l l.prs)
        × Returns
            (Committed l.entries l.last_applied l.current_term)
            (step_times (length order) (record l₁ { recvmsgs = map (answer l) order }))
  rounds-commit l nodes order v plain s p d b i m f o =
      let (u, e, w, same) = bcast_append-Sound l v plain s d in
      let l₁ = record l { prs = u; sendmsgs = l.sendmsgs ++ appends l l.prs } in
      let ms = map (answer l) order in
      let sent : length ms ≡ length order = length-map (answer l) order in
      let l₂ = record l₁ { recvmsgs = ms } in
      (
        AllHold_lem l nodes l.prs f v.tracked b plain.counted,
        l₁,
        e,
        refl,
        rw sent at (
            step_times-commits ms l₂ (ground (arith, w)) s
              (omega (arith, length-reached u, length-reached l.prs, ap length same))
              (Distinct-of_reached u (rw same (Distinct-reached l.prs d))) b
              (omega (arith, plain.counted)) i (rw same m) refl (AllAcknowledge-answers l order)
              (λ k h. inl (
                elem-answers l k order
                ∙ o k (sym (contains-reached k l.prs) ∙ ap (contains k) (sym same) ∙ h)))),
      )
