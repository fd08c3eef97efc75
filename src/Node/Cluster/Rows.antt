-- ===== src/Node/Cluster/Rows.antt =====
-- The table of peers that a start leaves.
use sapphiredb.Base.{
  Bool, ℕ, ◌≡◌, refl, true, false, ◌||◌, ◌==◌, inl, inr, Bool-cases, List, [], ◌∷◌, arith,
}
use sapphiredb.Base.Table.{Table, contains, assign, at_or, contains-assign, at_or-assign, Distinct}
use sapphiredb.Progress.{
  Progress, zero_progress, set_recent_active, set_next, set_match, reset_state,
}
use sapphiredb.Raft.{Raft, send}
use sapphiredb.Raft.Members.{add_node, send_add_node, new_progress}
use sapphiredb.Raft.Tally.All.{elem}
use sapphiredb.Node.{add_peers}

Distinct-assign_new :
    (k : ℕ) (v : Progress) (t : Table Progress)
    → contains k t ≡ false
    → Distinct t
    → Distinct (assign k v t)
Distinct-assign_new k v [] h d = (refl, tt)
Distinct-assign_new k v ((j, w) ∷ t) h d =
    ground
      (arith, h, d.0, contains-assign k j v t, Distinct-assign_new k v t (ground (arith, h)) d.1)

-- A table with one row for each of some ids, as that of a new node.
pub record Rows (ids : ℕ → Bool) (t : Table Progress) : Type 0 where
  pub distinct : Distinct t
  pub keys : (k : ℕ) → contains k t ≡ ids k
  pub nexts : (k : ℕ) → contains k t ≡ true → (at_or zero_progress k t).next ≡ 1

Rows-assign :
    (ids : ℕ → Bool) (k : ℕ) (t : Table Progress)
    → contains k t ≡ false
    → Rows ids t
    → Rows (λ j. ids j || k == j) (assign k (new_progress 0) t)
unfolding new_progress set_recent_active set_next set_match reset_state
Rows-assign ids k t e r = record {
  distinct = Distinct-assign_new k (new_progress 0) t e r.distinct;
  keys = λ j. ground (arith, contains-assign k j (new_progress 0) t, r.keys j);
  nexts = λ j c. ground (
    arith,
    at_or-assign zero_progress k j (new_progress 0) t,
    contains-assign k j (new_progress 0) t,
    r.nexts j,
    c,
  );
}

Rows-known :
    (ids : ℕ → Bool) (k : ℕ) (t : Table Progress)
    → contains k t ≡ true
    → Rows ids t
    → Rows (λ j. ids j || k == j) t
Rows-known ids k t e r = record {
  distinct = r.distinct;
  keys = λ j. ground (arith, r.keys j, e, r.keys k);
  nexts = r.nexts;
}

add_node-Rows :
    (ids : ℕ → Bool) (k : ℕ) (r : Raft)
    → r.last_applied ≡ 0
    → Rows ids r.prs
    → Rows (λ j. ids j || k == j) (send_add_node k (add_node k r)).prs
unfolding add_node send_add_node send
add_node-Rows ids k r z h = elim (Bool-cases (contains k r.prs)) [
  | inl e ↦ rw e (Rows-known ids k r.prs e h)
  | inr e ↦ rw (e, z) (Rows-assign ids k r.prs e h)
]

pub add_peers-Rows :
    (peers : List ℕ) (ids : ℕ → Bool) (r : Raft)
    → r.last_applied ≡ 0
    → Rows ids r.prs
    → Rows (λ j. ids j || elem j peers) (add_peers peers r).prs
unfolding add_peers
add_peers-Rows [] ids r z h = record {
  distinct = h.distinct;
  keys = λ j. ground (arith, h.keys j);
  nexts = h.nexts;
}
add_peers-Rows (k ∷ ks) ids r z h =
    let r' = send_add_node k (add_node k r) in
    let z' : r'.last_applied ≡ 0 = unfold add_node send_add_node send in ground (arith, z) in
    let h' = add_peers-Rows ks (λ j. ids j || k == j) r' z' (add_node-Rows ids k r z h) in
    record { distinct = h'.distinct; keys = λ j. ground (arith, h'.keys j); nexts = h'.nexts }
