-- ===== src/Tests/Writes.antt =====
-- A proposal at a leader that has committed and applied two entries, with two followers.
use sapphiredb.Node.Cluster.Delayed.{delayed_app_forgets}
use sapphiredb.Raft.Tally.{tally}
use sapphiredb.Raft.Replicate.Append.{content}
use sapphiredb.Raft.Step.{general_step}
use sapphiredb.Progress.{Progress}
use sapphiredb.Node.Cluster.Rounds.{Proposals, rounds-InStep}
use sapphiredb.Node.Cluster.InStep.{InStep}
use sapphiredb.Node.Cluster.{Cluster, rounds, entries_of, last_written}
use sapphiredb.Base.{ℕ, map, ◌≡◌, refl, ok, ◌++◌, [], ◌∷◌, Returns, arith, List, length, ◌<◌}
use sapphiredb.Base.Table.{contains}
use sapphiredb.Proto.{Bytes, empty_storage_data}
use sapphiredb.Storage
use sapphiredb.Storage.Laws.{IsReadable}
use sapphiredb.Raft.{Raft}
use sapphiredb.Raft.Mailbox.{step_node, propose}
use sapphiredb.Raft.Replicate.Broadcast.{appends}
use sapphiredb.Raft.Sound.{Sound}
use sapphiredb.Raft.Sound.Everyone.{step_times}
use sapphiredb.Raft.Sound.Rounds.{answer, AllHold, sent_to}
use sapphiredb.Node.{persist}
use sapphiredb.Node.Steady.{no_file-Answers}
use sapphiredb.Node.Writes.{proposal-writes}
use sapphiredb.Node.Proposed.{Idle, proposed, entry_of}
use sapphiredb.Tests.Codecs.{codec}
use sapphiredb.Tests.Nodes.{
  leader, follower, own_progress, no_file, first_entry, second_entry, peer_progress,
}

abbrev idle : Raft
idle = record leader {
  prs = (2, own_progress) ∷ (3, own_progress) ∷ [];
  commit_index = 2;
  last_applied = 2;
}

idle-Sound : Sound ⦃c = codec⦄ idle
idle-Sound = ground (arith, no_file-Answers ⦃c = codec⦄ no_file refl)

idle-Idle : Idle ⦃c = codec⦄ idle
idle-Idle = record {
  sound = idle-Sound;
  plain = ground arith;
  leads = refl;
  inbox = refl;
  has_peers = omega arith;
  distinct = ground arith;
  has_term = omega arith;
  numbered = ground arith;
  all_committed = refl;
  all_applied = refl;
}

abbrev op : Bytes
op = 5 ∷ []

-- The followers hold both entries, in term 2.
abbrev nodes : ℕ → Raft
nodes id = record follower { id = id; current_term = 2; entries = leader.entries }

entry-IsReadable :
    IsReadable ⦃c = codec⦄
      (codec.write_storage (record empty_storage_data { entries = entry_of op idle ∷ [] }))
entry-IsReadable = record { no_zero = ground arith; short = omega arith; ended = (_, refl) }

proposal-writes_example :
    AllHold ⦃c = codec⦄ (proposed op idle) nodes idle.prs
    × (l₁ : Raft) × (step_node ⦃c = codec⦄ (propose op idle).1 ≡ ok l₁)
    × (l₁.sendmsgs ≡ appends (proposed op idle) idle.prs)
    × Returns
        (λ s.
          (s.commit_index ≡ 3)
          × (s.entries ≡ idle.entries ++ entry_of op idle ∷ [])
          × (s' : Raft) × (persist ⦃c = codec⦄ s ≡ ok s')
          × (s'.storage ≡ Storage.append ⦃c = codec⦄ (entry_of op idle ∷ []) s.storage)
          × Idle ⦃c = codec⦄ s')
        (step_times ⦃c = codec⦄ 2
          (record l₁ { recvmsgs = map (answer (proposed op idle)) (3 ∷ 2 ∷ []) }))
proposal-writes_example =
    proposal-writes ⦃c = codec⦄ op idle nodes (3 ∷ 2 ∷ []) idle-Idle (omega arith)
      (λ h. absurd (ground (arith, h))) entry-IsReadable
      (
        record {
          is_node = refl;
          is_peer = refl;
          follows = refl;
          commit_le = omega arith;
          holds = omega arith;
          in_term = refl;
          agrees = refl;
        },
        (
          record {
            is_node = refl;
            is_peer = refl;
            follows = refl;
            commit_le = omega arith;
            holds = omega arith;
            in_term = refl;
            agrees = refl;
          },
          tt,
        ),
      )
      (λ k h. ground (arith, h))

-- Two proposals, the answers of the first in the order of the table, and those of the second the other
-- way round and one of them again.
abbrev pub two : List (Bytes × List ℕ)
two = (op, 2 ∷ 3 ∷ []) ∷ (6 ∷ 7 ∷ [], 3 ∷ 2 ∷ 3 ∷ []) ∷ []

abbrev cluster : Cluster
cluster = record { leader = idle; nodes = nodes }

cluster-InStep : InStep ⦃c = codec⦄ cluster
cluster-InStep = record { idle = idle-Idle; latest = refl; mirrors = λ k e. ground (arith, e) }

two-Proposals : Proposals ⦃c = codec⦄ two 2 3 (λ k. contains k idle.prs)
two-Proposals = (
  λ h. absurd (ground (arith, h)),
  record { no_zero = ground arith; short = omega arith; ended = (_, refl) },
  λ k. refl,
  (
    λ h. absurd (ground (arith, h)),
    record { no_zero = ground arith; short = omega arith; ended = (_, refl) },
    λ k. ground arith,
    tt,
  ),
)

rounds-InStep_example :
    Returns
      (λ y.
        InStep ⦃c = codec⦄ y
        × (y.leader.entries ≡ idle.entries ++ entries_of two 2 3)
        × (y.leader.storage ≡ last_written ⦃c = codec⦄ (entries_of two 2 3) idle.storage))
      (rounds ⦃c = codec⦄ two cluster)
rounds-InStep_example =
    rounds-InStep ⦃c = codec⦄ two cluster cluster-InStep (omega arith) two-Proposals

-- The leader when it had one entry, of which it told a follower; both entries are committed since.
abbrev early : Raft
early = record idle { entries = first_entry ∷ []; commit_index = 0; last_applied = 0 }

abbrev behind : Progress
behind = record peer_progress { next = 1; match = 0 }

delayed_app_forgets_example :
    (f₁ : Raft) × (general_step ⦃c = codec⦄ (sent_to early 2 behind) (nodes 2) ≡ ok f₁)
    × (content f₁.entries ≡ content (first_entry ∷ []))
    × (length f₁.entries < 2)
    × (f₁.sendmsgs ≡ answer early 2 ∷ [])
    × Returns
        (λ s. (tally s ≡ ((2, 2) ∷ (3, 2) ∷ [], 2)) × (s.entries ≡ idle.entries))
        (general_step ⦃c = codec⦄ (answer early 2) idle)
delayed_app_forgets_example =
    delayed_app_forgets ⦃c = codec⦄ early idle (nodes 2) 2 behind (second_entry ∷ []) refl
      (omega arith) refl
      (record {
        is_node = refl;
        is_peer = refl;
        follows = refl;
        commit_le = omega arith;
        holds = omega arith;
        in_term = refl;
        agrees = refl;
      })
      (ground arith) (omega arith) (omega arith) idle-Sound refl refl
