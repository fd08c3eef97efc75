-- ===== src/Tests/Runs.antt =====
-- The theorems on the node's protocol, on the nodes of Tests/Nodes.antt.
use sapphiredb.Node.Start.{start-leads}
use sapphiredb.Base.{◌≡◌, refl, inl, some, [], ◌∷◌, ok, ◌>>=◌, Returns, Ensures, arith, ◌≤◌}
use sapphiredb.Proto.{Message}
use sapphiredb.Progress.{Progress}
use sapphiredb.Storage
use sapphiredb.Raft.{Raft, state_leader, tick_heartbeat_function, quorum, send}
use sapphiredb.Raft.Log.{truncate_and_append}
use sapphiredb.Raft.Log.Entries.{entry_at, entry_at-truncate_and_append}
use sapphiredb.Raft.Replicate.{send_append, put_progress, maybe_commit, append_entry}
use sapphiredb.Raft.Replicate.Append.{Replicates, app_message, send_append-Replicates}
use sapphiredb.Raft.Replicate.Heartbeats.{heartbeats}
use sapphiredb.Raft.Commit.{Commits, maybe_commit-Commits, append_entry_repeats}
use sapphiredb.Raft.Step.{general_step, hup, up_to_date, dispatch}
use sapphiredb.Raft.Tick.{tick_node, tick_election, tick_times}
use sapphiredb.Raft.Tick.Timeout.{tick_times-election, tick_times-heartbeat}
use sapphiredb.Raft.Frame.{Evolves, general_step-Evolves}
use sapphiredb.Raft.Roles.{RolesAgree, general_step-RolesAgree}
use sapphiredb.Raft.Terms.{general_step-current_term_le, heartbeat_without_term}
use sapphiredb.Raft.Election.{votes_twice, vote_answer}
use sapphiredb.Raft.Mailbox.{propose}
use sapphiredb.Raft.Persist.{storage_log, create}
use sapphiredb.Raft.Persist.Applied.{storage_log_lem}
use sapphiredb.Node.{Turns, here, after, proposes, ticks, init}
use sapphiredb.Node.Reachable.{Inv, Turns-Inv}
use sapphiredb.Tests.Codecs.{codec}
use sapphiredb.Tests.Nodes.{
  fresh, first_entry, second_entry, leader, follower, beat, silent_beat, vote_of, fresh-Inv,
  leader-IsPlain, no_file,
}

abbrev asked : Raft
asked = (propose (5 ∷ []) fresh).1

-- A proposal, and a tick that makes the node leader.
asked-Turns : Turns ⦃c = codec⦄ fresh (hup (record asked { election_elapsed = 0 }))
unfolding propose tick_node tick_times hup tick_election general_step dispatch
asked-Turns =
    after (after here (proposes (5 ∷ []) refl))
      (ticks ((tick_times-election ⦃c = codec⦄ 0 asked refl refl (omega arith)).1))

Turns-Inv_example : Inv fresh (hup (record asked { election_elapsed = 0 }))
Turns-Inv_example = Turns-Inv ⦃c = codec⦄ fresh fresh-Inv asked-Turns

send_append-Replicates_example :
    ((q : Progress) × (send_append ⦃c = codec⦄ 2 leader
        ≡ ok (send (app_message 2 1 1 leader) (put_progress 2 q leader))))
    × Replicates 1 1 leader follower
send_append-Replicates_example =
    send_append-Replicates ⦃c = codec⦄ 1 1 leader follower leader-IsPlain refl (ground arith) refl
      (omega arith) (omega arith) (omega arith) (omega arith) refl refl

maybe_commit-Commits_example : Returns (Commits leader) (maybe_commit leader)
unfolding quorum
maybe_commit-Commits_example =
    maybe_commit-Commits leader (ground arith) (omega arith) (omega arith) (omega arith)

general_step-Evolves_example : Ensures (Evolves follower) (general_step ⦃c = codec⦄ beat follower)
general_step-Evolves_example = general_step-Evolves ⦃c = codec⦄ beat follower

general_step-RolesAgree_example : Ensures RolesAgree (general_step ⦃c = codec⦄ beat follower)
general_step-RolesAgree_example = general_step-RolesAgree ⦃c = codec⦄ beat follower (ground arith)

general_step-current_term_le_example :
    Ensures (λ s. 1 ≤ s.current_term) (general_step ⦃c = codec⦄ beat follower)
general_step-current_term_le_example =
    general_step-current_term_le ⦃c = codec⦄ beat follower (ground arith) (λ _. ground arith)

heartbeat_without_term_example :
    Returns (λ s. s.current_term ≡ 0) (general_step ⦃c = codec⦄ silent_beat follower)
heartbeat_without_term_example =
    heartbeat_without_term ⦃c = codec⦄ silent_beat follower refl refl (omega arith) refl
      (omega arith)

entry_at-truncate_and_append_example :
    Returns (λ s. entry_at 1 s ≡ some first_entry) (truncate_and_append (second_entry ∷ []) leader)
entry_at-truncate_and_append_example =
    entry_at-truncate_and_append second_entry [] leader 1 (omega arith) (omega arith)

abbrev committed : Raft
committed = record leader { commit_index = 2 }

storage_log_lem_example :
    storage_log ⦃c = codec⦄ committed
    ≡ ok (record committed {
      storage = Storage.append ⦃c = codec⦄ (first_entry ∷ second_entry ∷ []) committed.storage;
      last_applied = 2;
    })
storage_log_lem_example =
    storage_log_lem ⦃c = codec⦄ committed (refl, (refl, tt)) (omega arith) (omega arith)
      (omega arith)

tick_times-heartbeat_example :
    tick_times ⦃c = codec⦄ 2 leader
    ≡ ok (record leader {
      heartbeat_elapsed = 0;
      election_elapsed = 2;
      sendmsgs = heartbeats leader leader.prs;
    })
tick_times-heartbeat_example =
    tick_times-heartbeat ⦃c = codec⦄ 1 leader refl refl refl refl (omega arith) (omega arith)
      (omega arith)

votes_twice_example :
    (s : Raft) × (t : Raft) × (general_step ⦃c = codec⦄ (vote_of 1) fresh ≡ ok s)
    × (general_step ⦃c = codec⦄ (vote_of 3) s ≡ ok t)
    × (t.sendmsgs ≡ vote_answer (vote_of 1) ∷ vote_answer (vote_of 3) ∷ [])
    × (t.current_term ≡ 1)
unfolding up_to_date
votes_twice_example =
    votes_twice ⦃c = codec⦄ (vote_of 1) (vote_of 3) fresh refl refl refl refl refl
      (inl (omega arith)) refl refl

append_entry_repeats_example :
    Returns
      (λ s.
        s.entries
        ≡ first_entry
          ∷ second_entry
          ∷ record first_entry { term = 2; index = 1 }
          ∷ record second_entry { term = 2; index = 1 }
          ∷ [])
      (append_entry (first_entry ∷ []) leader >>= λ s. append_entry (second_entry ∷ []) s)
unfolding quorum
append_entry_repeats_example =
    append_entry_repeats first_entry second_entry leader (omega arith) (omega arith) (omega arith)

abbrev app : Message
app = app_message 2 1 1 leader

abbrev sender : Raft
sender = record leader { sendmsgs = beat ∷ silent_beat ∷ [] }

start-leads_example :
    Returns
      (λ s.
        (s.state ≡ state_leader)
        × (s.leader ≡ 1)
        × (s.current_term ≡ 2)
        × (s.tick ≡ tick_heartbeat_function))
      (create ⦃c = codec⦄ 1 2 5 (λ n. n) no_file >>= λ r.
        tick_times ⦃c = codec⦄ 6 (init (2 ∷ 3 ∷ []) r))
start-leads_example =
    start-leads ⦃c = codec⦄ (2 ∷ 3 ∷ []) 1 2 5 5 (λ n. n) no_file refl (omega arith)
