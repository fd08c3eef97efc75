-- ===== src/Node/Restart.antt =====
-- A node that is started again on the file in which its log was written.
use sapphiredb.Base.{
  ℕ, suc, ◌+◌, ◌≤◌, ◌<◌, ◌≡◌, List, [], ◌∷◌, ◌++◌, refl, Meets-weaken, ok, ◌>>=◌, Returns,
  Returns-bind, IsU64, u32, u64, length, arith, inl, inr, Bool-cases,
}
use sapphiredb.Base.Table.{contains, length-assign, length_of_contains}
use sapphiredb.Proto.{Codec, Entry, empty_storage_data}
use sapphiredb.Storage.{Storage}
use sapphiredb.Storage
use sapphiredb.Storage.Laws.{IsReadable}
use sapphiredb.Raft.{
  Raft, step_down, set_ready, quorum, become_candidate, become_leader, state_leader, state_follower,
  tick_election_function,
}
use sapphiredb.Raft.Members.{add_node, send_add_node, new_progress, grant_me, count_granted}
use sapphiredb.Raft.Step.{hup}
use sapphiredb.Raft.Commit.{maybe_commit-frame, append-ne-nil}
use sapphiredb.Raft.Replicate.{append_entry}
use sapphiredb.Raft.Tick.{tick_times}
use sapphiredb.Raft.Tick.Timeout.{tick_times-election}
use sapphiredb.Raft.Persist.{storage_log, create}
use sapphiredb.Raft.Persist.Applied.{NumberedFrom}
use sapphiredb.Raft.Persist.Restart.{committed, Restarted, restart}
use sapphiredb.Node.{add_peers, init}
use sapphiredb.Node.Start.{add_peers-frame}

add_node-pos : (id : ℕ) (r : Raft) → 0 < length (add_node id r).prs
unfolding add_node
add_node-pos id r = elim (Bool-cases (contains id r.prs)) [
  | inl e ↦ rw e (length_of_contains id r.prs e)
  | inr e ↦ rw e (ground (arith, e, length-assign id (new_progress r.last_applied) r.prs))
]

add_peers-pos : (id : ℕ) (ids : List ℕ) (r : Raft) → 0 < length (add_peers (id ∷ ids) r).prs
unfolding add_peers send_add_node
add_peers-pos id [] r = add_node-pos id r
add_peers-pos id (j ∷ ids) r = add_peers-pos j ids (send_add_node id (add_node id r))

-- A leader of term 2 with an empty log, above what a storage holds.
record Blank (s : Storage) (r : Raft) : Type 0 where
  leads : r.state ≡ state_leader
  alone : r.public_prs ≡ []
  has_peers : 0 < length r.prs
  in_term : r.current_term ≡ 2
  no_entries : r.entries ≡ []
  not_applied : r.last_applied ≡ 0
  same_storage : r.storage ≡ s

-- A started node without a log whose randomised timeout is over.
record Waits (s : Storage) (timeout : ℕ) (r : Raft) : Type 0 where
  alone : r.public_prs ≡ []
  no_votes : r.votes ≡ []
  follows : r.state ≡ state_follower
  has_peers : 0 < length r.prs
  in_term : r.current_term ≡ 1
  no_entries : r.entries ≡ []
  not_applied : r.last_applied ≡ 0
  same_storage : r.storage ≡ s
  ticks_election : r.tick ≡ tick_election_function
  not_elapsed : r.election_elapsed ≡ 0
  waits : r.randomized_election_timeout ≡ timeout

hup-Blank :
    (s : Storage) (n : ℕ) (r : Raft)
    → Waits s n r
    → Blank s (hup (record r { election_elapsed = 0 }))
unfolding hup become_candidate become_leader grant_me quorum count_granted
hup-Blank s n r w = ground arith

module _ ⦃c : Codec⦄ where
  init-Waits :
      (peer : ℕ) (peers : List ℕ) (id t draw : ℕ) (ents : List Entry) (r : Raft)
      → Restarted id t draw ents r
      → Waits r.storage (u32 (t + draw)) (init (peer ∷ peers) r)
  unfolding init step_down
  init-Waits peer peers id t draw ents r v =
      let (_, _, e) = add_peers-frame (peer ∷ peers) (step_down 1 0 r) in
      let p = rw e at (add_peers-pos peer peers (step_down 1 0 r)) in rw e (ground (arith, p, v))

  append_entry-Blank :
      (x : Entry) (s : Storage) (r : Raft)
      → Blank s r
      → Returns
          (λ r'.
            (r'.state ≡ state_leader)
            × (r'.storage ≡ s)
            × (r'.entries ≡ record x { term = 2; index = 1 } ∷ []))
          (append_entry (x ∷ []) r)
  unfolding append_entry set_ready quorum
  append_entry-Blank x s r v =
      let e = record x { term = r.current_term; index = u64 (r.last_applied + 1) } in
      let one : quorum r ≡ 1 = ground (arith, v.alone) in
      let (_, _, h) =
        maybe_commit-frame (record r { entries = r.entries ++ e ∷ [] }) (append-ne-nil r.entries e)
          (omega (arith, one)) (omega (arith, one, v.has_peers)) (omega (arith, one)) in
      rw h (v.leads, v.same_storage, simp (v.no_entries, v.not_applied, v.in_term) refl)

  Restarted-reuses :
      (x : Entry) (peer : ℕ) (peers : List ℕ) (id t n draw : ℕ) (ents : List Entry) (r : Raft)
      → Restarted id t draw ents r
      → suc n ≡ u32 (t + draw)
      → Returns
          (λ s.
            (s.state ≡ state_leader)
            × (Storage.entries s.storage ≡ ok ents)
            × (s.entries ≡ record x { term = 2; index = 1 } ∷ []))
          (tick_times (suc n) (init (peer ∷ peers) r) >>= λ s. append_entry (x ∷ []) s)
  Restarted-reuses x peer peers id t n draw ents r v e =
      let w = init-Waits peer peers id t draw ents r v in
      let q = init (peer ∷ peers) r in
      let (_, fires) =
        tick_times-election n q w.ticks_election (omega (arith, w.not_elapsed, w.waits, e))
          (omega (arith, w.waits, e)) in
      rw fires (
        Meets-weaken ⊥
          (λ s.
            (s.state ≡ state_leader)
            × (s.storage ≡ r.storage)
            × (s.entries ≡ record x { term = 2; index = 1 } ∷ []))
          _ _ (append_entry-Blank x r.storage _ (hup-Blank r.storage _ q w))
          (λ s (l, k, j). (l, rw k v.stored, j)))

-- A node writes the committed entries that it has not applied, from a log that is numbered from 1 and
-- holds all that is committed, and is started again on its storage with at least one peer. If it then
-- hears nothing for one randomised election timeout, which is not 0, and the file can be read back,
-- it has a defined result and leads, and the entry of a first proposal gets the index 1 of term 2
-- in a log that holds nothing else, while the storage has the committed entries.
pub restart-reuses :
    ⦃c : Codec⦄ (r : Raft) (x : Entry) (peer : ℕ) (peers : List ℕ) (id heartbeat_timeout : ℕ)
    → (election_timeout n : ℕ) (draws : ℕ → ℕ) → NumberedFrom 1 r.entries
    → r.last_applied < r.commit_index
    → r.commit_index ≤ length r.entries
    → IsU64 (length r.entries)
    → IsReadable (c.write_storage (record empty_storage_data { entries = committed r }))
    → suc n ≡ u32 (election_timeout + draws 1)
    → Returns
        (λ s.
          (s.state ≡ state_leader)
          × (Storage.entries s.storage ≡ ok (committed r))
          × (s.entries ≡ record x { term = 2; index = 1 } ∷ []))
        ((storage_log r >>= λ w. create id heartbeat_timeout election_timeout draws w.storage)
          >>= λ f. tick_times (suc n) (init (peer ∷ peers) f) >>= λ l. append_entry (x ∷ []) l)
restart-reuses r x peer peers id h t n d m l k b w e =
    Returns-bind
      (λ s.
        Restarted id t (d 1) (committed r) s × (s.storage ≡ Storage.append (committed r) r.storage))
      (λ s.
        (s.state ≡ state_leader)
        × (Storage.entries s.storage ≡ ok (committed r))
        × (s.entries ≡ record x { term = 2; index = 1 } ∷ []))
      (storage_log r >>= λ w. create id h t d w.storage) _ (restart r id h t d m l k b w)
      (λ f (v, _). Restarted-reuses x peer peers id t n (d 1) (committed r) f v e)
