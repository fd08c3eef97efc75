-- ===== src/Raft/Election.antt =====
-- Votes and elections.
use sapphiredb.Base.{
  ℕ, ◌+◌, ◌≤◌, ◌≡◌, ◌≢◌, ◌⊎◌, Bool, true, false, [], ◌∷◌, ◌++◌, ok, if◌then◌else◌, u64, length,
  arith,
}
use sapphiredb.Base.Table.{Table, contains, assign, contains-assign}
use sapphiredb.Proto.{Codec, Message, empty_message, msg_vote, msg_vote_resp}
use sapphiredb.Raft.{
  Raft, state_leader, tick_heartbeat_function, become_candidate, become_leader, quorum,
}
use sapphiredb.Raft.Members.{grant_me, count_granted}
use sapphiredb.Raft.Step.{hup, handle_vote, up_to_date, dispatch, general_step}

count_granted-assign :
    (id : ℕ) (v : Bool) (t : Table Bool)
    → contains id t ≡ false
    → count_granted (assign id v t) ≡ (if v then count_granted t + 1 else count_granted t)
unfolding count_granted
count_granted-assign id v [] h = ground arith
count_granted-assign id v ((j, w) ∷ t) h = ground (arith, count_granted-assign id v t)

count_granted-le : (t : Table Bool) → count_granted t ≤ length t
unfolding count_granted
count_granted-le [] = omega arith
count_granted-le ((j, w) ∷ t) = ground (arith, count_granted-le t)

-- The first answer of a node counts, as one grant or none; any later answer of it changes nothing.
-- There are never more grants than answers.
pub grant_me_lem :
    (id : ℕ) (v w : Bool) (r : Raft)
    → let (granted, s) = grant_me id v r in
      (granted ≡ (
        if contains id r.votes
        then count_granted r.votes
        else if v
        then count_granted r.votes + 1
        else count_granted r.votes))
      × (grant_me id w s ≡ (granted, s))
      × (granted ≤ length s.votes)
unfolding grant_me
grant_me_lem id v w r = ground (
  arith,
  count_granted-assign id v r.votes,
  contains-assign id id v r.votes,
  count_granted-le r.votes,
  count_granted-le (assign id v r.votes),
)

-- The public table of progresses is the one whose size the quorum is taken from; nothing fills it.
pub quorum_alone : (r : Raft) → r.public_prs ≡ [] → quorum r ≡ 1
unfolding quorum
quorum_alone r e = rw e

-- A node that is no leader and starts an election while it knows of no vote is leader of the next
-- term at once, if the public table is empty: its own vote is the quorum, and no other node is
-- asked.
pub hup_wins_alone :
    (r : Raft)
    → r.public_prs ≡ []
    → r.votes ≡ []
    → r.state ≢ state_leader
    → let s = hup r in
      (s.state ≡ state_leader)
      × (s.leader ≡ r.id)
      × (s.current_term ≡ u64 (r.current_term + 1))
      × (s.tick ≡ tick_heartbeat_function)
      × (s.sendmsgs ≡ r.sendmsgs)
unfolding hup become_candidate become_leader grant_me quorum count_granted
hup_wins_alone r e v n = ground arith

abbrev pub vote_answer : Message → Message
vote_answer m = record empty_message { to = m.from; term = m.term; type = msg_vote_resp }

-- In one term a node grants its vote to a second candidate: a node that has not voted answers the
-- request `a` with a grant, and then the request `b` with a grant as well, if its log is not ahead
-- of either, the two requests are of its term, and `b` names its sender, or `a` does not, as in the
-- requests that `generalStep` makes.
pub votes_twice :
    ⦃c : Codec⦄ (a b : Message) (r : Raft)
    → a.type ≡ msg_vote
    → b.type ≡ msg_vote
    → a.term ≡ r.current_term
    → b.term ≡ r.current_term
    → r.vote ≡ 0
    → (b.from ≢ 0) ⊎ (a.from ≡ 0)
    → up_to_date a r ≡ true
    → up_to_date b r ≡ true
    → (s : Raft) × (t : Raft) × (general_step a r ≡ ok s)
      × (general_step b s ≡ ok t)
      × (t.sendmsgs ≡ (r.sendmsgs ++ vote_answer a ∷ []) ++ vote_answer b ∷ [])
      × (t.current_term ≡ r.current_term)
unfolding general_step dispatch handle_vote
votes_twice a b r ea eb ta tb v f ua ub = (
  handle_vote a r,
  handle_vote b (handle_vote a r),
  ground arith,
  ground arith,
  ground arith,
  ground arith,
)
