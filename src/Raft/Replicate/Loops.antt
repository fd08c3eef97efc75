-- ===== src/Raft/Replicate/Loops.antt =====
-- What holds after a loop over the peers.
use sapphiredb.Base.{
  ℕ, ◌||◌, [], ◌∷◌, Outcome, ◌==◌, inl, inr, is_empty, Ensures, Ensures-bind, Returns, Returns-bind,
  if-Meets, true, ◌≡◌, Bool-cases,
}
use sapphiredb.Base.Table.{Table, contains, AllIn, AllIn-self, AllIn-trans, KeysIn}
use sapphiredb.Proto.{Bytes, Codec}
use sapphiredb.Progress.{Progress}
use sapphiredb.Raft.{Raft}
use sapphiredb.Raft.Replicate.{
  send_heartbeat, for_each_progress, heartbeat_peer, bcast_heartbeat, send_append, append_to_peer,
  bcast_append,
}

-- A predicate that each call of the callback keeps holds after the loop.
pub for_each_progress-Ensures {ℓ} :
    (P : Raft → Type ℓ) (func : Raft → ℕ → Progress → Outcome Raft)
    → ((r : Raft) (id : ℕ) (p : Progress) → P r → Ensures P (func r id p))
    → (prs : Table Progress) (r : Raft) → P r
    → Ensures P (for_each_progress func prs r)
unfolding for_each_progress
for_each_progress-Ensures P func keep [] r h = h
for_each_progress-Ensures P func keep ((id, p) ∷ prs) r h =
    Ensures-bind P P (func r id p) _ (keep r id p h) (for_each_progress-Ensures P func keep prs)

-- So for the broadcasts, where each send keeps it.
pub bcast_heartbeat-Ensures {ℓ} :
    (P : Raft → Type ℓ)
    → ((to : ℕ) (ctx : Bytes) (r : Raft) → P r → P (send_heartbeat to ctx r))
    → (r : Raft) → P r
    → Ensures P (bcast_heartbeat r)
unfolding bcast_heartbeat heartbeat_peer
bcast_heartbeat-Ensures P keep r h = elim (Bool-cases (is_empty r.prs)) [
  | inl e ↦ rw e h
  | inr e ↦ rw e (for_each_progress-Ensures P heartbeat_peer step r.prs r h)
]
  where
    step : (s : Raft) (id : ℕ) (p : Progress) → P s → Ensures P (heartbeat_peer s id p)
    step s id p k = elim (Bool-cases (id == s.id)) [
      | inl e ↦ rw e k
      | inr e ↦ rw e (keep id [] s k)
    ]

module _ ⦃c : Codec⦄ where
  pub bcast_append-Ensures {ℓ} :
      (P : Raft → Type ℓ)
      → ((to : ℕ) (r : Raft) → P r → Ensures P (send_append to r))
      → (r : Raft) → P r
      → Ensures P (bcast_append r)
  unfolding bcast_append append_to_peer
  bcast_append-Ensures P keep r h = for_each_progress-Ensures P append_to_peer step r.prs r h
    where
      step : (s : Raft) (id : ℕ) (p : Progress) → P s → Ensures P (append_to_peer s id p)
      step s id p k = elim (Bool-cases (id == s.id || id == 0)) [
        | inl e ↦ rw e k
        | inr e ↦ rw e (keep id s k)
      ]

-- A loop over a table whose keys stay in the state's own table: each call has a defined result, and
-- so has the loop.
pub for_each_progress-Returns :
    (P : Raft → Type 0) (func : Raft → ℕ → Progress → Outcome Raft)
    → ((r : Raft) (id : ℕ) (p : Progress)
        → contains id r.prs ≡ true
        → P r
        → Returns (λ s. P s × KeysIn r.prs s.prs) (func r id p))
    → (t : Table Progress) (r : Raft) → AllIn t r.prs
    → P r
    → Returns P (for_each_progress func t r)
unfolding for_each_progress
for_each_progress-Returns P func keep [] r a h = h
for_each_progress-Returns P func keep ((id, p) ∷ t) r a h =
    Returns-bind (λ s. P s × KeysIn r.prs s.prs) P (func r id p) _ (keep r id p a.0 h)
      (λ s k. for_each_progress-Returns P func keep t s (AllIn-trans t r.prs s.prs k.1 a.1) k.0)

module _ ⦃c : Codec⦄ where
  pub bcast_append-Returns :
      (P : Raft → Type 0)
      → ((to : ℕ) (r : Raft)
          → contains to r.prs ≡ true
          → P r
          → Returns (λ s. P s × KeysIn r.prs s.prs) (send_append to r))
      → (r : Raft) → P r
      → Returns P (bcast_append r)
  unfolding bcast_append append_to_peer
  bcast_append-Returns P keep r h =
      for_each_progress-Returns P append_to_peer step r.prs r (AllIn-self r.prs) h
    where
      step :
          (s : Raft) (id : ℕ) (p : Progress)
          → contains id s.prs ≡ true
          → P s
          → Returns (λ t. P t × KeysIn s.prs t.prs) (append_to_peer s id p)
      step s id p a k =
          if-Meets ⊥ (λ t. P t × KeysIn s.prs t.prs) (id == s.id || id == 0) _ _ (k, λ j b. b)
            (keep id s a k)
