-- ===== src/Tests/Restart.antt =====
-- The theorems on what a log that is written becomes, and on all turns of a node, on a leader that has
-- committed two entries.
use sapphiredb.Base.{ok, ◌>>=◌, ◌≡◌, refl, [], ◌∷◌, Returns, arith, undefined}
use sapphiredb.Proto.{empty_storage_data, empty_entry}
use sapphiredb.Storage.{append, entries, first_index, last_index}
use sapphiredb.Storage
use sapphiredb.Storage.Laws.{IsReadable}
use sapphiredb.Raft.{Raft, state_leader, step_leader_function}
use sapphiredb.Raft.Replicate.{append_entry}
use sapphiredb.Raft.Members.{pop_unknownid, empty_unknownid}
use sapphiredb.Raft.Mailbox.{step_node, try_pop_sendbuf, try_push_recvbuf, propose}
use sapphiredb.Raft.Tick.{tick_node, tick_times}
use sapphiredb.Raft.Sound.{Sound}
use sapphiredb.Raft.Persist.{storage_log, create}
use sapphiredb.Raft.Persist.Restart.{restart-forgets}
use sapphiredb.Node.{persist, init}
use sapphiredb.Node.Defined.{turns-Sound}
use sapphiredb.Node.Lone.{lone_proposal}
use sapphiredb.Node.Restart.{restart-reuses}
use sapphiredb.Node.Steady.{no_file-Answers}
use sapphiredb.Tests.Codecs.{codec}
use sapphiredb.Tests.Nodes.{leader, first_entry, second_entry, no_file}
use sapphiredb.Tests.Sound.{caught_up}

stored-IsReadable :
    IsReadable ⦃c = codec⦄ (
      codec.write_storage (record empty_storage_data { entries = first_entry ∷ second_entry ∷ [] }))
stored-IsReadable = record { no_zero = ground arith; short = omega arith; ended = (_, refl) }

-- The leader with the follower's answer in its inbox, and an id that is not known.
abbrev answered : Raft
answered = record leader { recvmsgs = caught_up ∷ []; unknownid = 7 ∷ []; commit_index = 2 }

turns-Sound_example :
    Returns (Sound ⦃c = codec⦄) (tick_node ⦃c = codec⦄ answered)
    × Returns (Sound ⦃c = codec⦄) (step_node ⦃c = codec⦄ answered)
    × Returns (λ res. Sound ⦃c = codec⦄ (res.1)) (pop_unknownid answered)
    × Returns (Sound ⦃c = codec⦄) (persist ⦃c = codec⦄ answered)
    × Sound ⦃c = codec⦄ (try_pop_sendbuf ⦃c = codec⦄ answered).1
    × Sound ⦃c = codec⦄ (try_push_recvbuf ⦃c = codec⦄ (1 ∷ []) answered).1
    × Sound ⦃c = codec⦄ (propose (5 ∷ []) answered).1
unfolding empty_unknownid
turns-Sound_example =
    turns-Sound ⦃c = codec⦄ answered (1 ∷ []) (5 ∷ [])
      (ground (arith, no_file-Answers ⦃c = codec⦄ no_file refl)) (ground arith) refl (ground arith)
      (omega arith) (omega arith) (λ _. stored-IsReadable)

restart-forgets_example :
    Returns
      (λ s.
        (Storage.entries ⦃c = codec⦄ s.storage ≡ ok (first_entry ∷ second_entry ∷ []))
        × (s.entries ≡ [])
        × (s.current_term ≡ 0)
        × (s.vote ≡ 0)
        × (s.commit_index ≡ 0)
        × (s.last_applied ≡ 0)
        × (Storage.term ⦃c = codec⦄ 1 s.storage ≡ ok second_entry.term)
        × (second_entry.index ≡ 2))
      (storage_log ⦃c = codec⦄ answered >>= λ w. create ⦃c = codec⦄ 1 2 5 (λ n. n) w.storage)
restart-forgets_example =
    restart-forgets ⦃c = codec⦄ answered 1 2 5 (λ n. n) 1 second_entry (ground arith) (omega arith)
      (omega arith) (omega arith) stored-IsReadable (omega arith) refl

restart-reuses_example :
    Returns
      (λ s.
        (s.state ≡ state_leader)
        × (Storage.entries ⦃c = codec⦄ s.storage ≡ ok (first_entry ∷ second_entry ∷ []))
        × (s.entries ≡ record empty_entry { bytes = 4 ∷ []; term = 2; index = 1 } ∷ []))
      ((storage_log ⦃c = codec⦄ answered >>= λ w. create ⦃c = codec⦄ 1 2 5 (λ n. n) w.storage)
        >>= λ f. tick_times ⦃c = codec⦄ 6 (init (2 ∷ []) f) >>= λ l.
            append_entry (record empty_entry { bytes = 4 ∷ [] } ∷ []) l)
restart-reuses_example =
    restart-reuses ⦃c = codec⦄ answered (record empty_entry { bytes = 4 ∷ [] }) 2 [] 1 2 5 5
      (λ n. n) (ground arith) (omega arith) (omega arith) (omega arith) stored-IsReadable
      (omega arith)

lone_proposal_example :
    (l : Raft) × ((create ⦃c = codec⦄ 1 2 5 (λ n. n) no_file >>= λ r.
    tick_times ⦃c = codec⦄ 6 (init [] r))
      ≡ ok l)
    × (l.step ≡ step_leader_function)
    × (step_node ⦃c = codec⦄ (propose (4 ∷ []) l).1 ≡ undefined)
lone_proposal_example =
    lone_proposal ⦃c = codec⦄ 1 2 5 5 (λ n. n) no_file (4 ∷ []) refl (omega arith) refl
