-- ===== src/Node/Cluster/InStep.antt =====
-- A leader whose followers hold its log.
use sapphiredb.Base.{
  take_of_length-le, take_of_append, drop_of_append, get_elem?-append_lt, get_elem?-append_length,
  ℕ, zero, suc, ◌+◌, ◌-◌, ◌≤◌, ◌≡◌, refl, ap, sym, ◌∙◌, true, false, ◌||◌, some, List, [], ◌∷◌, map,
  length, length-map, take, drop, get_elem?, ◌==◌, arith,
}
use sapphiredb.Base.Table.{Table, contains, Distinct, at_or}
use sapphiredb.Proto.{Bytes, Codec}
use sapphiredb.Progress.{Progress, zero_progress}
use sapphiredb.Raft.{Raft, step_follower_function}
use sapphiredb.Raft.Step.{stored_entry}
use sapphiredb.Raft.Replicate.{progress_of}
use sapphiredb.Raft.Replicate.Append.{content}
use sapphiredb.Raft.Replicate.Broadcast.{prev_or}
use sapphiredb.Raft.Tally.All.{elem}
use sapphiredb.Raft.Sound.Rounds.{answer, Follows, AllFollow}
use sapphiredb.Node.Proposed.{Idle, entry_of, proposed, length-snoc}
use sapphiredb.Node.Cluster.{Cluster, queued, answers}
use sapphiredb.Node.Cluster.Followers.{After}

-- A follower that holds the leader's log, is in its term and has not committed past the log, and which
-- the leader believes to hold it.
pub record Mirrors (l f : Raft) (id : ℕ) : Type 0 where
  pub is_node : f.id ≡ id
  pub is_peer : (id == l.id || id == 0) ≡ false
  pub follows : f.step ≡ step_follower_function
  pub commit_le : f.commit_index ≤ length l.entries
  pub in_term : f.current_term ≡ l.current_term
  pub same : content f.entries ≡ content l.entries
  pub next_eq : (progress_of id l).next ≡ length l.entries + 1

-- An idle leader whose last entry, if there is one, is of its term, and whose peers hold its log.
pub record InStep ⦃c : Codec⦄ (x : Cluster) : Type 0 where
  pub idle : Idle x.leader
  pub latest : prev_or (length x.leader.entries) x.leader ≡ x.leader.current_term
  pub mirrors : (k : ℕ) → contains k x.leader.prs ≡ true → Mirrors x.leader (x.nodes k) k

module _ (op : Bytes) (l : Raft) where
  prev_or-proposed : (k : ℕ) → k ≤ length l.entries → prev_or k (proposed op l) ≡ prev_or k l
  prev_or-proposed zero h = refl
  prev_or-proposed (suc k) h =
      ground (arith, get_elem?-append_lt l.entries (entry_of op l ∷ []) k, h)

  Mirrors-Follows :
      (f : Raft) (id : ℕ) (p : Progress)
      → p.next ≡ length l.entries + 1
      → prev_or (length l.entries) l ≡ l.current_term
      → Mirrors l f id
      → Follows (proposed op l) f id p
  Mirrors-Follows f id p e t m =
      let n = length l.entries in
      let here : p.next - 1 ≡ n = omega (arith, e) in
      let long : length f.entries ≡ n =
        sym (length-map stored_entry f.entries)
        ∙ ap length m.same
        ∙ length-map stored_entry l.entries in
      record {
        is_node = m.is_node;
        is_peer = m.is_peer;
        follows = m.follows;
        commit_le = omega (arith, here, m.commit_le);
        holds = omega (arith, here, long);
        in_term =
            m.in_term
            ∙ sym t
            ∙ sym (prev_or-proposed n (omega arith))
            ∙ ap (λ i. prev_or i (proposed op l)) (sym here);
        agrees =
            ap (λ i. content (take i f.entries)) here
            ∙ ap content (take_of_length-le n f.entries (omega (arith, long)))
            ∙ m.same
            ∙ ap content (sym (take_of_append l.entries (entry_of op l ∷ [])))
            ∙ ap (λ i. content (take i (proposed op l).entries)) (sym here);
      }

  pub AllFollow-Mirrors :
      (nodes : ℕ → Raft) (t : Table Progress)
      → prev_or (length l.entries) l ≡ l.current_term
      → Distinct t
      → ((k : ℕ)
          → contains k t ≡ true
          → ((at_or zero_progress k t).next ≡ length l.entries + 1) × Mirrors l (nodes k) k)
      → AllFollow (proposed op l) nodes t
  AllFollow-Mirrors nodes [] e d h = tt
  AllFollow-Mirrors nodes ((id, p) ∷ t) e d h =
      let (own, m) = h id (ground arith) in
      (
        Mirrors-Follows (nodes id) id p (ground (arith, own)) e m,
        AllFollow-Mirrors nodes t e d.1 (λ k c.
            let other : (id == k) ≡ false = ground (arith, c, d.0) in
            let (next, m') = h k (ground (arith, c, other)) in (ground (arith, next, other), m')),
      )

pub answers_lem :
    (l : Raft) (prs : Table Progress) (order : List ℕ) (old new : ℕ → Raft)
    → ((k : ℕ) → contains k prs ≡ true → ((old k).id ≡ k) × After l (old k) (new k))
    → ((k : ℕ) → elem k order ≡ true → contains k prs ≡ true)
    → answers order old new ≡ map (answer l) order
answers_lem l prs [] old new h e = refl
answers_lem l prs (id ∷ order) old new h e =
    let held = e id (ground arith) in
    let (is_id, a) = h id held in
    let own : queued (old id) (new id) ≡ answer l id ∷ [] =
      ap (drop (length (old id).sendmsgs)) a.answered
      ∙ drop_of_append (old id).sendmsgs (answer l (old id).id ∷ [])
      ∙ ap (λ i. answer l i ∷ []) is_id in
    rw own
      (ap (◌∷◌ (answer l id)) (answers_lem l prs order old new h (λ k f. e k (ground (arith, f)))))

pub After-Mirrors :
    (op : Bytes) (l l' f f₁ : Raft) (id : ℕ)
    → Mirrors l f id
    → After (proposed op l) f f₁
    → l'.entries ≡ (proposed op l).entries
    → l'.id ≡ l.id
    → l'.current_term ≡ l.current_term
    → (progress_of id l').next ≡ length l'.entries + 1
    → Mirrors l' f₁ id
After-Mirrors op l l' f f₁ id m a e i t x = record {
  is_node = a.id_eq ∙ m.is_node;
  is_peer = rw i m.is_peer;
  follows = a.step_eq ∙ m.follows;
  commit_le =
      omega (arith, a.commit_eq, m.commit_le, ap length e, length-snoc l.entries (entry_of op l));
  in_term = a.term_eq ∙ m.in_term ∙ sym t;
  same = a.same ∙ ap content (sym e);
  next_eq = x;
}

pub latest-proposed :
    (op : Bytes) (l l' : Raft)
    → l'.entries ≡ (proposed op l).entries
    → l'.current_term ≡ l.current_term
    → prev_or (length l'.entries) l' ≡ l'.current_term
latest-proposed op l l' e t =
    let n = length l.entries in
    let g : get_elem? l'.entries n ≡ some (entry_of op l) =
      ap (λ es. get_elem? es n) e ∙ get_elem?-append_length l.entries (entry_of op l) in
    let k : length l'.entries ≡ suc n =
      ap length e ∙ length-snoc l.entries (entry_of op l) ∙ omega arith in
    let last : prev_or (suc n) l' ≡ l'.current_term = ground (arith, g, t) in
    ap (λ i. prev_or i l') k ∙ last
