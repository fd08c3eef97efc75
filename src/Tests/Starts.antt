-- ===== src/Tests/Starts.antt =====
-- A node that starts with two peers, and two proposals.
use sapphiredb.Base.{ℕ, ◌≡◌, refl, [], ◌∷◌, ◌>>=◌, Returns, arith}
use sapphiredb.Raft.{Raft}
use sapphiredb.Raft.Tally.All.{elem}
use sapphiredb.Node.Cluster.{rounds, entries_of}
use sapphiredb.Node.Cluster.InStep.{InStep}
use sapphiredb.Node.Cluster.Rounds.{Proposals}
use sapphiredb.Node.Cluster.Born.{born, born-rounds}
use sapphiredb.Tests.Codecs.{codec}
use sapphiredb.Tests.Nodes.{fresh, no_file}
use sapphiredb.Tests.Writes.{two}

abbrev nodes : ℕ → Raft
nodes id = record fresh { id = id }

two-Proposals : Proposals ⦃c = codec⦄ two 2 1 (λ k. elem k (2 ∷ 3 ∷ []))
two-Proposals = (
  λ h. absurd (ground (arith, h)),
  record { no_zero = ground arith; short = omega arith; ended = (_, refl) },
  λ k. refl,
  (
    λ h. absurd (ground (arith, h)),
    record { no_zero = ground arith; short = omega arith; ended = (_, refl) },
    λ k. ground arith,
    tt,
  ),
)

born-rounds_example :
    Returns
      (λ y. InStep ⦃c = codec⦄ y × (y.leader.entries ≡ entries_of two 2 1))
      (born ⦃c = codec⦄ (2 ∷ 3 ∷ []) 1 2 5 6 2 (λ n. n) no_file nodes >>= λ x.
        rounds ⦃c = codec⦄ two x)
born-rounds_example =
    born-rounds ⦃c = codec⦄ (2 ∷ 3 ∷ []) 1 2 5 5 1 (λ n. n) no_file nodes two refl (omega arith)
      (λ k e. (ground (arith, e), ground (arith, e))) refl refl (omega arith) (omega arith)
      (omega arith) two-Proposals
