-- ===== src/Raft/Persist/Restart.antt =====
-- raft.cc: what is left of a node whose log was written when it is made again from its storage.
use sapphiredb.Base.{
  ℕ, suc, ◌+◌, ◌-◌, ◌≤◌, ◌<◌, ◌≡◌, some, List, [], ◌∷◌, ok, ◌>>=◌, IsU64, Returns, length, take,
  drop, length-drop, length-take, zero, get_elem?, get_elem?-drop, get_elem?-take, Meets-weaken,
  ltb, if◌then◌else◌, arith,
}
use sapphiredb.Proto.{Codec, Entry, empty_storage_data}
use sapphiredb.Storage.{Storage}
use sapphiredb.Storage
use sapphiredb.Storage.Laws.{IsReadable, append_reads, term-append}
use sapphiredb.Raft.{Raft, reset_randomized_election_timeout}
use sapphiredb.Raft.Persist.{storage_log, create}
use sapphiredb.Raft.Persist.Applied.{NumberedFrom, storage_log_lem}

-- The committed entries that are not applied yet.
abbrev pub committed : Raft → List Entry
committed r = drop r.last_applied (take r.commit_index r.entries)

pub length-committed :
    (r : Raft)
    → r.commit_index ≤ length r.entries
    → length (committed r) ≡ r.commit_index - r.last_applied
length-committed r h = omega (
  arith,
  length-drop r.last_applied (take r.commit_index r.entries),
  length-take r.commit_index r.entries,
)

module _ ⦃c : Codec⦄ where
  -- What the constructor makes of a file that `Append` has written with some entries.
  pub record Restarted (id timeout : ℕ) (draw : ℕ) (ents : List Entry) (r : Raft) : Type 0 where
    pub same_id : r.id ≡ id
    pub alone : r.public_prs ≡ []
    pub no_votes : r.votes ≡ []
    pub same_timeout : r.election_timeout ≡ timeout
    pub same_draw : r.draws 0 ≡ draw
    pub no_term : r.current_term ≡ 0
    pub no_vote : r.vote ≡ 0
    pub no_commit : r.commit_index ≡ 0
    pub not_applied : r.last_applied ≡ 0
    pub no_entries : r.entries ≡ []
    pub no_peers : r.prs ≡ []
    pub shifted : r.offset ≡ (if ltb 1 (length ents) then length ents else 1)
    pub stored : Storage.entries r.storage ≡ ok ents

  pub restart :
      (r : Raft) (id h t : ℕ) (d : ℕ → ℕ)
      → NumberedFrom 1 r.entries
      → r.last_applied < r.commit_index
      → r.commit_index ≤ length r.entries
      → IsU64 (length r.entries)
      → IsReadable (c.write_storage (record empty_storage_data { entries = committed r }))
      → Returns
          (λ s.
            Restarted id t (d 1) (committed r) s
            × (s.storage ≡ Storage.append (committed r) r.storage))
          (storage_log r >>= λ w. create id h t d w.storage)
  unfolding create reset_randomized_election_timeout
  restart r id h t d n l k b w =
      let e = length-committed r k in
      let (f, g, m) =
        append_reads (committed r) r.storage w (omega (arith, e)) (omega (arith, e)) in
      rw (storage_log_lem r n l k b) (rw (g, m, f) (ground (arith, f)))

  get_elem?-committed :
      (r : Raft) (i : ℕ) (e : Entry)
      → r.last_applied + i < r.commit_index
      → get_elem? r.entries (r.last_applied + i) ≡ some e
      → get_elem? (committed r) i ≡ some e
  get_elem?-committed r i e l g = ground (
    arith,
    get_elem?-drop r.last_applied (take r.commit_index r.entries) i,
    get_elem?-take r.commit_index r.entries (r.last_applied + i),
  )

NumberedFrom-get_elem? :
    (k : ℕ) (es : List Entry) (i : ℕ) (e : Entry)
    → NumberedFrom k es
    → get_elem? es i ≡ some e
    → e.index ≡ k + i
NumberedFrom-get_elem? k [] i e n g = cc
NumberedFrom-get_elem? k (x ∷ es) zero e n g = ground arith
NumberedFrom-get_elem? k (x ∷ es) (suc i) e n g =
    omega (arith, NumberedFrom-get_elem? (suc k) es i e n.1 g)

-- A node writes the committed entries, several, that it has not applied, from a log that is numbered
-- from 1 and holds all that is committed, and is made again from its storage. If the file can be read
-- back, this has a defined result: the storage has the entries, but the node has no entry in its
-- log, its term, its vote, its commit index and its applied index are 0, and the storage gives for
-- an index from 0 on the term of the entry whose index is greater by one and by what was applied
-- before.
pub restart-forgets :
    ⦃c : Codec⦄ (r : Raft) (id heartbeat_timeout election_timeout : ℕ) (draws : ℕ → ℕ) (i : ℕ)
    → (e : Entry) → NumberedFrom 1 r.entries
    → r.last_applied + 1 < r.commit_index
    → r.commit_index ≤ length r.entries
    → IsU64 (length r.entries)
    → IsReadable (c.write_storage (record empty_storage_data { entries = committed r }))
    → r.last_applied + i < r.commit_index
    → get_elem? r.entries (r.last_applied + i) ≡ some e
    → Returns
        (λ s.
          (Storage.entries s.storage ≡ ok (committed r))
          × (s.entries ≡ [])
          × (s.current_term ≡ 0)
          × (s.vote ≡ 0)
          × (s.commit_index ≡ 0)
          × (s.last_applied ≡ 0)
          × (Storage.term i s.storage ≡ ok e.term)
          × (e.index ≡ r.last_applied + i + 1))
        (storage_log r >>= λ w. create id heartbeat_timeout election_timeout draws w.storage)
restart-forgets r id h t d i e n l k b w j g =
    let p = length-committed r k in
    Meets-weaken ⊥
      (λ s.
        Restarted id t (d 1) (committed r) s × (s.storage ≡ Storage.append (committed r) r.storage))
      _ _ (restart r id h t d n (omega arith) k b w)
      (λ s (v, q). (
        v.stored,
        v.no_entries,
        v.no_term,
        v.no_vote,
        v.no_commit,
        v.not_applied,
        rw q (
            term-append (committed r) r.storage i e w (omega (arith, p)) (omega (arith, p))
              (get_elem?-committed r i e j g)),
        omega (arith, NumberedFrom-get_elem? 1 r.entries (r.last_applied + i) e n g),
      ))
