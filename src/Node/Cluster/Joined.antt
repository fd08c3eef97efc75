-- ===== src/Node/Cluster/Joined.antt =====
-- Followers that hear of a leader for the first time.
use sapphiredb.Base.{
  ℕ, ◌≡◌, refl, true, false, ◌==◌, [], ◌∷◌, Returns, Returns-ok, Meets-weaken, arith,
}
use sapphiredb.Base.Table.{Table, contains, Distinct}
use sapphiredb.Proto.{Codec}
use sapphiredb.Progress.{Progress}
use sapphiredb.Raft.{Raft, step_down, send, step_follower_function}
use sapphiredb.Raft.Log.{commit_to}
use sapphiredb.Raft.Replicate.Heartbeats.{heartbeat, heartbeats}
use sapphiredb.Raft.Step.{
  general_step, dispatch, call_step, step_follower, follower_dispatch, follow,
}
use sapphiredb.Node.Cluster.{with_node, deliver}
use sapphiredb.Node.Cluster.Followers.{rows_after}

-- A follower that was started and has heard nothing.
pub record Newborn (id : ℕ) (f : Raft) : Type 0 where
  pub is_node : f.id ≡ id
  pub follows : f.step ≡ step_follower_function
  pub in_term : f.current_term ≡ 1
  pub not_committed : f.commit_index ≡ 0
  pub no_entries : f.entries ≡ []

-- It has heard of a leader of term 2.
pub record Joined (id : ℕ) (f : Raft) : Type 0 where
  pub is_node : f.id ≡ id
  pub follows : f.step ≡ step_follower_function
  pub in_term : f.current_term ≡ 2
  pub not_committed : f.commit_index ≡ 0
  pub no_entries : f.entries ≡ []

module _ ⦃c : Codec⦄ (l : Raft) where
  heartbeat-Joined :
      (id : ℕ) (f : Raft)
      → l.current_term ≡ 2
      → l.commit_index ≡ 0
      → Newborn id f
      → Returns (Joined id) (general_step (heartbeat id l) f)
  unfolding general_step dispatch call_step step_follower follower_dispatch follow step_down
      commit_to send
  heartbeat-Joined id f t k h = ground (arith, t, k, h)

  pub deliver-Joined :
      (t : Table Progress) (nodes : ℕ → Raft)
      → l.current_term ≡ 2
      → l.commit_index ≡ 0
      → Distinct t
      → ((k : ℕ) → contains k t ≡ true → ((k == l.id) ≡ false) × Newborn k (nodes k))
      → Returns
          (λ new.
            ((k : ℕ) → contains k t ≡ true → Joined k (new k))
            × ((k : ℕ) → contains k t ≡ false → new k ≡ nodes k))
          (deliver (heartbeats l t) nodes)
  unfolding deliver heartbeats
  deliver-Joined [] nodes e i d h = (λ k f. absurd (ground (arith, f)), λ k f. refl)
  deliver-Joined ((id, p) ∷ t) nodes e i d h =
      let (neq, born) = h id (ground arith) in
      let (f₁, g, a) =
        Returns-ok (Joined id) (general_step (heartbeat id l) (nodes id))
          (heartbeat-Joined id (nodes id) e i born) in
      let nodes₁ = with_node id f₁ nodes in
      let rest = deliver-Joined t nodes₁ e i d.1 (λ k b.
        let other : (id == k) ≡ false = ground (arith, b, d.0) in
        let (neq', born') = h k (ground (arith, b)) in (neq', rw other born')) in
      rw (neq, g)
        (Meets-weaken ⊥
          (λ new.
            ((k : ℕ) → contains k t ≡ true → Joined k (new k))
            × ((k : ℕ) → contains k t ≡ false → new k ≡ nodes₁ k))
          (λ new.
            ((k : ℕ) → contains k ((id, p) ∷ t) ≡ true → Joined k (new k))
            × ((k : ℕ) → contains k ((id, p) ∷ t) ≡ false → new k ≡ nodes k))
          (deliver (heartbeats l t) nodes₁) rest
          (λ new q. rows_after Joined id p f₁ nodes new t d.0 a q.0 q.1))
