-- ===== src/Raft/Step/Requests.antt =====
-- What holds after the requests for votes.
use sapphiredb.Base.{ℕ, [], ◌∷◌, ◌==◌, inl, inr, Bool-cases, Bool, true, arith}
use sapphiredb.Base.Table.{Table}
use sapphiredb.Proto.{Message}
use sapphiredb.Progress.{Progress}
use sapphiredb.Raft.{Raft, send, become_candidate, become_leader}
use sapphiredb.Raft.Step.{request_votes, hup}
use sapphiredb.Raft.Members.{grant_me}

pub request_votes-keeps {ℓ} :
    (P : Raft → Type ℓ)
    → ((n : Message) (r : Raft) → P r → P (send n r))
    → (t : Table Progress) (r : Raft) → P r
    → P (request_votes t r)
unfolding request_votes
request_votes-keeps P keep [] r h = h
request_votes-keeps P keep ((id, p) ∷ t) r h = elim (Bool-cases (id == r.id)) [
  | inl e ↦ rw e (request_votes-keeps P keep t r h)
  | inr e ↦ rw e (request_votes-keeps P keep t _ (keep _ r h))
]

-- What holds after an election has been started, if it holds of the candidate.
pub hup-keeps :
    (P : Raft → Type 0)
    → ((n : Message) (r : Raft) → P r → P (send n r))
    → ((id : ℕ) (v : Bool) (r : Raft) → P r → P (grant_me id v r).1)
    → ((r : Raft) → P r → P (become_leader r))
    → (r : Raft) → P r
    → P (become_candidate r)
    → P (hup r)
unfolding hup
hup-keeps P keep grant lead r h k =
    let s = (grant_me r.id true (become_candidate r)).1 in
    let h' = grant r.id true (become_candidate r) k in
    ground (arith, h, lead s h', request_votes-keeps P keep s.prs s h')
