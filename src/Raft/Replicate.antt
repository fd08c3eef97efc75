-- ===== src/Raft/Replicate.antt =====
-- raft.cc: heartbeats and log entries to the peers, and the commit index. A loop over a table
-- walks a copy of it, as `forEachProgress` does.
pub mod Loops
pub mod Append
pub mod Broadcast
pub mod Heartbeats
use sapphiredb.Base.{
  ℕ, ◌+◌, Bool, true, false, ◌||◌, List, [], ◌∷◌, ◌++◌, map, Outcome, ok, undefined, ◌>>=◌,
  or_undefined, ltb, ◌==◌, if◌then◌else◌, u32, u64, sub64, through_int, drop, get_elem?, is_empty,
  min,
}
use sapphiredb.Base.Sorting.{sort}
use sapphiredb.Base.Table.{Table, assign, at_or}
use sapphiredb.Proto.{Bytes, Codec, Entry, empty_message, entry_normal, msg_heartbeat, msg_app}
use sapphiredb.Progress.{
  Progress, ProgressStateType, progress_state_unset, progress_state_probe, progress_state_replicate,
  progress_state_snapshot, zero_progress, optimistic_update,
}
use sapphiredb.Raft.{Raft, quorum, send, set_ready}
use sapphiredb.Raft.Log.{term, commit_to}

-- `_prs[to]`: the entry, inserted if it was not there.
abbrev pub progress_of : ℕ → Raft → Progress
progress_of to r = at_or zero_progress to r.prs

unfoldable pub put_progress : ℕ → Progress → Raft → Raft
put_progress to p r = record r { prs = assign to p r.prs }

unfoldable pub send_heartbeat : ℕ → Bytes → Raft → Raft
unfolding put_progress send
send_heartbeat to ctx r =
    send
      (record empty_message {
        from = r.id;
        to = to;
        term = r.current_term;
        type = msg_heartbeat;
        commit = min (progress_of to r).match r.commit_index;
        context = ctx;
      })
      (put_progress to (progress_of to r) r)

-- One call of the callback for each entry, on the state that the last one left.
pub for_each_progress : (Raft → ℕ → Progress → Outcome Raft) → Table Progress → Raft → Outcome Raft
for_each_progress func [] r = ok r
for_each_progress func ((id, p) ∷ prs) r = func r id p >>= λ r'. for_each_progress func prs r'

heartbeat_peer : Raft → ℕ → Progress → Outcome Raft
heartbeat_peer r id p = if id == r.id then ok r else ok (send_heartbeat id [] r)

unfoldable pub bcast_heartbeat : Raft → Outcome Raft
unfolding for_each_progress heartbeat_peer
bcast_heartbeat r = if is_empty r.prs then ok r else for_each_progress heartbeat_peer r.prs r

unfoldable pub bcast_heartbeat_fast : Raft → Raft
unfolding send
bcast_heartbeat_fast r =
    send (record empty_message { from = r.id; to = 0; type = msg_heartbeat; context = [] }) r

-- An entry as it is put into a message.
unfoldable pub message_entry : Entry → Entry
message_entry e = record e { type = entry_normal }

-- The entries from position `next - 1` of the vector on; the counter is an `int`.
unfoldable pub entries_from : ℕ → List Entry → List Entry
unfolding message_entry
entries_from next ents = map message_entry (drop (through_int (sub64 next 1)) ents)

unfoldable pub last_entry_index : ℕ → List Entry → ℕ
last_entry_index i [] = i
last_entry_index i (e ∷ es) = last_entry_index e.index es

-- What a send does to the progress of its receiver. `Progress::name` has no result for the value 0.
unfoldable pub after_send : ProgressStateType → ℕ → Progress → Outcome Progress
after_send progress_state_replicate last p = ok (optimistic_update last p)
after_send progress_state_probe last p = ok p
after_send progress_state_snapshot last p = ok p
after_send progress_state_unset last p = undefined

unfoldable pub update_after_send : List Entry → Progress → Outcome Progress
unfolding after_send last_entry_index
update_after_send [] p = ok p
update_after_send (e ∷ es) p = after_send p.state (last_entry_index e.index es) p

module _ ⦃c : Codec⦄ where
  -- The index and the term of the entry before those that are sent.
  unfoldable pub prev_entry : ℕ → Raft → Outcome (ℕ × ℕ)
  prev_entry next r =
      if sub64 next 1 == 0
      then ok (0, r.current_term)
      else (term (sub64 next 1) r >>= λ t. ok (sub64 next 1, t))

  unfoldable pub send_append : ℕ → Raft → Outcome Raft
  send_append to r =
      let p = progress_of to r in
      let ents = entries_from p.next r.entries in
      prev_entry p.next r >>= λ prev. update_after_send ents p >>= λ q. ok (
        send
          (record empty_message {
            from = r.id;
            to = to;
            type = msg_app;
            index = prev.0;
            log_term = prev.1;
            commit = r.commit_index;
            entries = ents;
          })
          (put_progress to q r))

  append_to_peer : Raft → ℕ → Progress → Outcome Raft
  append_to_peer r id p = if id == r.id || id == 0 then ok r else send_append id r

  unfoldable pub bcast_append : Raft → Outcome Raft
  unfolding for_each_progress append_to_peer
  bcast_append r = for_each_progress append_to_peer r.prs r

unfoldable pub check_quorum_active : Raft → Bool
check_quorum_active r = true

-- `mis[quorum() - 1]` of the sorted match indices.
unfoldable pub commit_candidate : Raft → Outcome ℕ
commit_candidate r =
    or_undefined (get_elem? (sort (map (λ e. e.1.match) r.prs)) (u32 (quorum r + 4294967295)))

-- The move to a new commit index, and whether there is one.
unfoldable pub commit_at : ℕ → Raft → Outcome (Bool × Raft)
commit_at mci r =
    if ltb r.commit_index mci then (commit_to mci r >>= λ r'. ok (true, r')) else ok (false, r)

unfoldable pub maybe_commit : Raft → Outcome (Bool × Raft)
unfolding commit_candidate commit_at
maybe_commit r = commit_candidate r >>= λ mci. commit_at mci r

-- The entries from the one after `_lastApplied` on, in the current term.
unfoldable pub number_entries : ℕ → ℕ → List Entry → List Entry
number_entries term index [] = []
number_entries term index (e ∷ es) =
    record e { term = term; index = u64 (index + 1) } ∷ number_entries term (u64 (index + 1)) es

unfoldable pub append_entry : List Entry → Raft → Outcome Raft
unfolding number_entries
append_entry ents r =
    maybe_commit
      (record r { entries = r.entries ++ number_entries r.current_term r.last_applied ents })
    >>= λ res. ok (set_ready (res.1))
