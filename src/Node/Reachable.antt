-- ===== src/Node/Reachable.antt =====
-- What holds of a node at any time after its start.
use sapphiredb.Raft.Tick.Rule.{tick_node-Meets}
use sapphiredb.Base.{◌≤◌, ◌≡◌, ◌∙◌, List, [], ◌∷◌, Outcome, ok, Ensures, arith, undefined}
use sapphiredb.Proto.{Codec, Message}
use sapphiredb.Raft.{Raft}
use sapphiredb.Raft.Members.{pop_unknownid}
use sapphiredb.Raft.Log.{applied_to}
use sapphiredb.Raft.Roles.{RolesAgree, general_step-RolesAgree}
use sapphiredb.Raft.Frame.{Evolves, general_step-Evolves}
use sapphiredb.Raft.Step.{general_step}
use sapphiredb.Raft.Tick.{tick_node}
use sapphiredb.Raft.Mailbox.{step_node, step_front, try_pop_sendbuf, try_push_recvbuf, propose}
use sapphiredb.Raft.Persist.{storage_log}
use sapphiredb.Node.{
  persist, Turn, ticks, steps, persists, pops, receives, proposes, binds, Turns, here, after,
}

-- What holds of a node that has come from another state of it: its role fits the functions in use,
-- the public table is empty, it is the same node, and its commit index has not moved back.
pub record Inv (r₀ r : Raft) : Type 0 where
  pub roles : RolesAgree r
  pub alone : r.public_prs ≡ []
  pub same : r.id ≡ r₀.id
  pub commits : r₀.commit_index ≤ r.commit_index

module _ ⦃c : Codec⦄ (r₀ : Raft) where
  general_step-Inv : (m : Message) (r : Raft) → Inv r₀ r → Ensures (Inv r₀) (general_step m r)
  general_step-Inv m r v =
      both (general_step m r) (general_step-RolesAgree m r v.roles) (general_step-Evolves m r)
    where
      both : (x : Outcome Raft) → Ensures RolesAgree x → Ensures (Evolves r) x → Ensures (Inv r₀) x
      both (ok s) h e = record {
        roles = h;
        alone = e.public_prs_eq ∙ v.alone;
        same = e.id_eq ∙ v.same;
        commits = omega (arith, e.commit_le, v.commits);
      }
      both undefined h e = tt

  tick_node-Inv : (r : Raft) → Inv r₀ r → Ensures (Inv r₀) (tick_node r)
  tick_node-Inv =
      tick_node-Meets Unit (Inv r₀) (λ m r _. general_step-Inv m r) (λ h e r v. ground arith)

  persist-Inv : (r : Raft) → Inv r₀ r → Ensures (Inv r₀) (persist r)
  unfolding persist storage_log applied_to
  persist-Inv r v = ground arith

  pop_unknownid-Inv : (r : Raft) → Inv r₀ r → Ensures (λ res. Inv r₀ (res.1)) (pop_unknownid r)
  unfolding pop_unknownid
  pop_unknownid-Inv r v = ground arith

  step_front-Inv : (q : List Message) (r : Raft) → Inv r₀ r → Ensures (Inv r₀) (step_front q r)
  unfolding step_front
  step_front-Inv [] r v = v
  step_front-Inv (m ∷ q) r v = general_step-Inv m (record r { recvmsgs = q }) (ground arith)

  step_node-Inv : (r : Raft) → Inv r₀ r → Ensures (Inv r₀) (step_node r)
  unfolding step_node
  step_node-Inv r v = step_front-Inv r.recvmsgs r v

  Turn-Inv : {r s : Raft} → Turn r s → Inv r₀ r → Inv r₀ s
  unfolding try_pop_sendbuf try_push_recvbuf propose
  Turn-Inv {r} (ticks e) v = rw e at (tick_node-Inv r v)
  Turn-Inv {r} (steps n e) v = rw e at (step_node-Inv r v)
  Turn-Inv {r} (persists n e) v = rw e at (persist-Inv r v)
  Turn-Inv (pops n e) v = ground arith
  Turn-Inv (receives text e) v = ground arith
  Turn-Inv (proposes op e) v = ground arith
  Turn-Inv {r} (binds id n e) v = rw e at (pop_unknownid-Inv r v)

  -- Whatever turns the threads take: the node is in one of its three roles with the functions of that
  -- role, a leader takes itself for the leader, the public table of progresses stays empty, the node
  -- keeps its id, and its commit index never moves back.
  pub Turns-Inv : {s : Raft} → Inv r₀ r₀ → Turns r₀ s → Inv r₀ s
  Turns-Inv v here = v
  Turns-Inv v (after ts t) = Turn-Inv t (Turns-Inv v ts)
