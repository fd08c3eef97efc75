-- ===== src/Tests/Acks.antt =====
-- The theorems on acknowledgements, on a leader with two followers.
use sapphiredb.Base.{ℕ, ◌≡◌, refl, [], ◌∷◌, Returns, arith}
use sapphiredb.Proto.{Message, empty_message, msg_app_resp}
use sapphiredb.Raft.{Raft, step_leader_function}
use sapphiredb.Raft.Step.{general_step}
use sapphiredb.Raft.Tally.{tally}
use sapphiredb.Raft.Sound.{Sound}
use sapphiredb.Raft.Sound.Acknowledged.{general_step-acknowledge}
use sapphiredb.Node.Steady.{no_file-Answers}
use sapphiredb.Node.Cluster.Refused.{Stuck, Same, attempts, attempts-Same}
use sapphiredb.Tests.Codecs.{codec}
use sapphiredb.Tests.Nodes.{leader, follower, peer_progress, no_file}

abbrev has_both : ℕ → Message
has_both id = record empty_message { type = msg_app_resp; from = id; to = 1; index = 2 }

-- The two followers are known to hold the first entry, and say that they hold both.
abbrev told : Raft
told = record leader {
  prs = (2, peer_progress) ∷ (3, peer_progress) ∷ [];
  recvmsgs = has_both 3 ∷ has_both 2 ∷ [];
}

told-Sound : Sound ⦃c = codec⦄ told
told-Sound = ground (arith, no_file-Answers ⦃c = codec⦄ no_file refl)

general_step-acknowledge_example :
    Returns
      (λ s.
        (tally s ≡ ((2, 1) ∷ (3, 2) ∷ [], 1))
        × (s.entries ≡ told.entries)
        × (s.step ≡ step_leader_function)
        × Sound ⦃c = codec⦄ s)
      (general_step ⦃c = codec⦄ (has_both 3) told)
general_step-acknowledge_example =
    general_step-acknowledge ⦃c = codec⦄ (has_both 3) told told-Sound refl refl refl refl
      (omega arith) (omega arith) (omega arith)

-- The leader of term 3, whose first entry is of term 1, and its follower in term 3, which holds it.
abbrev probing : Raft
probing = record leader { current_term = 3 }

abbrev in_step : Raft
in_step = record follower { current_term = 3 }

in_step-Stuck : Stuck ⦃c = codec⦄ 1 1 probing in_step
in_step-Stuck = record {
  leads = refl;
  is_peer = refl;
  probes = record {
    plain = ground arith;
    next_eq = refl;
    probed = refl;
    next_le = omega arith;
    prev_eq = refl;
  };
  follows = refl;
  commit_le = omega arith;
  other_term = omega arith;
}

attempts-Same_example :
    Returns (λ x. Same probing in_step x.0 x.1) (attempts ⦃c = codec⦄ 4 probing in_step)
attempts-Same_example = attempts-Same ⦃c = codec⦄ 1 1 4 probing in_step in_step-Stuck
