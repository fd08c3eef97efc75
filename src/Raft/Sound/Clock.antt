-- ===== src/Raft/Sound/Clock.antt =====
-- The clock of a sound node, and a node that has just been started.
use sapphiredb.Base.{ℕ, zero, suc, Returns, Returns-bind, arith}
use sapphiredb.Proto.{Codec, Message}
use sapphiredb.Raft.{Raft}
use sapphiredb.Raft.Tick.{tick_node, tick_times}
use sapphiredb.Raft.Tick.Rule.{Own, tick_node-Meets}
use sapphiredb.Raft.Sound.{Sound, Fits}
use sapphiredb.Raft.Sound.Total.{general_step-Sound}

module _ ⦃c : Codec⦄ where
  Own-Fits : (m : Message) (r : Raft) → Own m.type → Fits m r
  Own-Fits m r o = ground arith

  pub tick_node-Sound : (r : Raft) → Sound r → Returns Sound (tick_node r)
  tick_node-Sound =
      tick_node-Meets ⊥ Sound (λ m r o v. general_step-Sound m r v (Own-Fits m r o))
        (λ h e r v. ground arith)

  pub tick_times-Sound : (n : ℕ) (r : Raft) → Sound r → Returns Sound (tick_times n r)
  unfolding tick_times
  tick_times-Sound zero r v = v
  tick_times-Sound (suc n) r v =
      Returns-bind Sound Sound _ _ (tick_node-Sound r v) (λ s w. tick_times-Sound n s w)
