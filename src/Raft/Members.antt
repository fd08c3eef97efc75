-- ===== src/Raft/Members.antt =====
-- raft.cc: the peers of a node, the ids that wait for a connection, and the votes.
pub mod Laws
use sapphiredb.Base.{
  ℕ, ◌+◌, Bool, List, [], ◌∷◌, ◌++◌, Outcome, ok, undefined, if◌then◌else◌, u64, through_int,
  is_empty,
}
use sapphiredb.Base.Table.{Table, assign, contains, erase}
use sapphiredb.Proto.{empty_message, msg_node}
use sapphiredb.Progress.{
  Progress, progress_state_probe, zero_progress, reset_state, set_match, set_next,
  set_recent_active,
}
use sapphiredb.Raft.{Raft, send}

-- The progress of a node that was just added.
unfoldable pub new_progress : ℕ → Progress
unfolding reset_state set_match set_next set_recent_active
new_progress last_applied = set_recent_active (
    set_next (u64 (last_applied + 1))
      (set_match 0 (reset_state progress_state_probe zero_progress)))

unfoldable pub add_node : ℕ → Raft → Raft
unfolding new_progress
add_node id r =
    if contains id r.prs
    then r
    else record r { prs = assign id (new_progress r.last_applied) r.prs }

unfoldable pub delete_node : ℕ → Raft → Raft
delete_node id r = if contains id r.prs then record r { prs = erase id r.prs } else r

unfoldable pub send_add_node : ℕ → Raft → Raft
unfolding send
send_add_node to r = send (record empty_message { type = msg_node; from = r.id; to = to }) r

-- The overload for an rvalue, which takes an `int32_t`.
unfoldable pub push_unknownid : ℕ → Raft → Raft
push_unknownid id r = record r { unknownid = r.unknownid ++ through_int id ∷ [] }

unfoldable pub pop_front : List ℕ → Raft → Outcome (ℕ × Raft)
pop_front [] r = undefined
pop_front (id ∷ ids) r = ok (through_int id, record r { unknownid = ids })

unfoldable pub pop_unknownid : Raft → Outcome (ℕ × Raft)
unfolding pop_front
pop_unknownid r = pop_front r.unknownid r

unfoldable pub empty_unknownid : Raft → Bool
empty_unknownid r = is_empty r.unknownid

-- How many of the votes are granted.
unfoldable pub count_granted : Table Bool → ℕ
count_granted [] = 0
count_granted ((id, v) ∷ votes) = if v then count_granted votes + 1 else count_granted votes

-- The number of grants, with the state. Only the first answer of a node is kept.
unfoldable pub grant_me : ℕ → Bool → Raft → ℕ × Raft
unfolding count_granted
grant_me id v r =
    let votes' = if contains id r.votes then r.votes else assign id v r.votes in
    (count_granted votes', record r { votes = votes' })
