-- ===== src/Node/Cluster/Followers.antt =====
-- The nodes that a leader's messages are for.
use mathlib.Core.Path.{subst}
use sapphiredb.Base.{
  Meets-weaken, ℕ, ◌+◌, ◌-◌, ◌≤◌, ◌<◌, ◌≡◌, refl, ap, sym, ◌∙◌, true, false, [], ◌∷◌, ◌++◌, map, ok,
  length, length-map, length-drop, drop, Returns, ◌==◌, ==_iff, Bool-cases, inl, inr, arith,
}
use sapphiredb.Base.Table.{Table, contains, Distinct}
use sapphiredb.Proto.{Codec}
use sapphiredb.Progress.{Progress}
use sapphiredb.Raft.{Raft, send, set_ready}
use sapphiredb.Raft.Replicate.{message_entry}
use sapphiredb.Raft.Replicate.Append.{content, handle_app_accepts, handle_app-Replicates}
use sapphiredb.Raft.Replicate.Broadcast.{prev_or, appends}
use sapphiredb.Raft.Step.{general_step, follow_app, handle_app}
use sapphiredb.Raft.Sound.{Tracks, Tracked}
use sapphiredb.Raft.Sound.Rounds.{answer, sent_to, Follows, AllFollow, follower_step}
use sapphiredb.Node.Cluster.{with_node, deliver}

-- A follower after it has taken a leader's whole log.
pub record After (l f f₁ : Raft) : Type 0 where
  pub same : content f₁.entries ≡ content l.entries
  pub answered : f₁.sendmsgs ≡ f.sendmsgs ++ answer l f.id ∷ []
  pub id_eq : f₁.id ≡ f.id
  pub step_eq : f₁.step ≡ f.step
  pub commit_eq : f₁.commit_index ≡ f.commit_index
  pub term_eq : f₁.current_term ≡ f.current_term

-- What holds of the receiver of a message and of the receivers of those after it, where each is another
-- one.
pub rows_after :
    (P : ℕ → Raft → Type 0) (id : ℕ) (p : Progress) (f : Raft) (nodes new : ℕ → Raft)
    → (t : Table Progress) → contains id t ≡ false
    → P id f
    → ((k : ℕ) → contains k t ≡ true → P k (new k))
    → ((k : ℕ) → contains k t ≡ false → new k ≡ with_node id f nodes k)
    → ((k : ℕ) → contains k ((id, p) ∷ t) ≡ true → P k (new k))
      × ((k : ℕ) → contains k ((id, p) ∷ t) ≡ false → new k ≡ nodes k)
rows_after P id p f nodes new t d a h o = (
  λ k c. elim (Bool-cases (id == k)) [
    | inl g ↦
        let own : with_node id f nodes id ≡ f = ground arith in
        subst (λ i. P i (new i)) ((==_iff id k).0 g) (subst (P id) (sym (o id d ∙ own)) a)
    | inr g ↦ h k (ground (arith, g, c))
  ],
  λ k c.
      let own : with_node id f nodes k ≡ nodes k = ground (arith, c) in
      o k (ground (arith, c)) ∙ own,
)

module _ ⦃c : Codec⦄ (l : Raft) where
  pub follower-After :
      (f : Raft) (id : ℕ) (p : Progress)
      → Follows l f id p
      → Tracks (length l.entries) p
      → 0 < length l.entries
      → length l.entries < 2147483648
      → (f₁ : Raft) × (general_step (sent_to l f.id p) f ≡ ok f₁) × After l f f₁
  unfolding follow_app set_ready send
  follower-After f id p h k b s =
      let n = p.next - 1 in
      let m = sent_to l f.id p in
      let g = follow_app m f in
      let le : n ≤ length l.entries = omega (arith, k.next_le, k.next_pos) in
      let sent = length-map message_entry (drop n l.entries) ∙ length-drop n l.entries in
      let index : n + length (map message_entry (drop n l.entries)) ≡ length l.entries =
        omega (arith, sent, le) in
      let (same, _) =
        handle_app-Replicates n (prev_or n l) l g h.commit_le h.holds le b s h.in_term h.agrees in
      let taken =
        handle_app_accepts m g h.commit_le h.holds h.in_term (omega (arith, index))
          (omega (arith, index)) in
      (
        handle_app m g,
        follower_step l m f refl refl h.follows,
        record {
          same = same;
          answered = ap (λ (r : Raft). r.sendmsgs) taken ∙ rw index refl;
          id_eq = ap (λ (r : Raft). r.id) taken;
          step_eq = ap (λ (r : Raft). r.step) taken;
          commit_eq = ap (λ (r : Raft). r.commit_index) taken;
          term_eq = ap (λ (r : Raft). r.current_term) taken;
        },
      )

  AllFollow-with_node :
      (id : ℕ) (f : Raft) (nodes : ℕ → Raft) (t : Table Progress)
      → contains id t ≡ false
      → AllFollow l nodes t
      → AllFollow l (with_node id f nodes) t
  AllFollow-with_node id f nodes [] e h = tt
  AllFollow-with_node id f nodes ((k, p) ∷ t) e h =
      let other : (id == k) ≡ false = ground (arith, e) in
      (rw other h.0, AllFollow-with_node id f nodes t (ground (arith, e)) h.1)

  -- What a leader sends to peers that follow it is handled with a defined result: each of them has its
  -- whole log then, and the other nodes are as they were.
  pub deliver-After :
      (t : Table Progress) (nodes : ℕ → Raft)
      → Distinct t
      → AllFollow l nodes t
      → Tracked (length l.entries) t
      → 0 < length l.entries
      → length l.entries < 2147483648
      → Returns
          (λ new.
            ((k : ℕ) → contains k t ≡ true → After l (nodes k) (new k))
            × ((k : ℕ) → contains k t ≡ false → new k ≡ nodes k))
          (deliver (appends l t) nodes)
  unfolding deliver appends
  deliver-After [] nodes d h w b s = (λ k e. absurd (ground (arith, e)), λ k e. refl)
  deliver-After ((id, p) ∷ t) nodes d h w b s =
      let (f₁, e, a) =
        subst
          (λ i.
            (f₁ : Raft) × (general_step (sent_to l i p) (nodes id) ≡ ok f₁) × After l (nodes id) f₁)
          h.0.is_node (follower-After (nodes id) id p h.0 w.0 b s) in
      let nodes₁ = with_node id f₁ nodes in
      let rest = deliver-After t nodes₁ d.1 (AllFollow-with_node id f₁ nodes t d.0 h.1) w.1 b s in
      rw (h.0.is_peer, e)
        (Meets-weaken ⊥
          (λ new.
            ((k : ℕ) → contains k t ≡ true → After l (nodes₁ k) (new k))
            × ((k : ℕ) → contains k t ≡ false → new k ≡ nodes₁ k))
          (λ new.
            ((k : ℕ) → contains k ((id, p) ∷ t) ≡ true → After l (nodes k) (new k))
            × ((k : ℕ) → contains k ((id, p) ∷ t) ≡ false → new k ≡ nodes k))
          (deliver (appends l t) nodes₁) rest
          (λ new q.
            rows_after (λ k. After l (nodes k)) id p f₁ nodes new t d.0 a
              (λ k c.
                let other : (id == k) ≡ false = ground (arith, c, d.0) in
                let own : nodes₁ k ≡ nodes k = ground (arith, other) in
                subst (λ x. After l x (new k)) own (q.0 k c))
              q.1))
