-- ===== src/Node/Cluster/Elected.antt =====
-- A node without a file from its start until it leads.
use mathlib.Core.Path.{subst}
use sapphiredb.Base.{
  get_elem?, Bool, ℕ, ◌+◌, ◌≡◌, sym, ap, ◌∙◌, true, false, ◌||◌, ◌==◌, none, List, [], length, u32,
  Returns, arith,
}
use sapphiredb.Base.Table.{length_of_contains, Table, contains, at_or}
use sapphiredb.Proto.{Codec}
use sapphiredb.Progress.{Progress, zero_progress}
use sapphiredb.Storage
use sapphiredb.Storage.{Storage}
use sapphiredb.Raft.{
  Raft, step_down, quorum, become_candidate, become_leader, reset_randomized_election_timeout,
  step_leader_function, state_leader, state_follower, tick_election_function,
  tick_heartbeat_function,
}
use sapphiredb.Raft.Members.{grant_me, count_granted}
use sapphiredb.Raft.Persist.{create}
use sapphiredb.Raft.Step.{hup}
use sapphiredb.Raft.Tally.All.{elem}
use sapphiredb.Raft.Sound.{Sound}
use sapphiredb.Node.{init}
use sapphiredb.Node.Proposed.{Idle}
use sapphiredb.Raft.Persist.Applied.{NumberedFrom}
use sapphiredb.Raft.Replicate.Append.{content}
use sapphiredb.Node.Start.{add_peers-frame}
use sapphiredb.Node.Cluster.InStep.{Mirrors}
use sapphiredb.Node.Cluster.Joined.{Joined}
use sapphiredb.Node.Cluster.Rows.{Rows, add_peers-Rows}

-- A follower of term 1 that knows of no vote, with one randomised election timeout before it, and with
-- nothing in its log and its inbox.
pub record Starts (id h t timeout : ℕ) (r : Raft) : Type 0 where
  pub is_node : r.id ≡ id
  pub alone : r.public_prs ≡ []
  pub no_votes : r.votes ≡ []
  pub follows : r.state ≡ state_follower
  pub in_term : r.current_term ≡ 1
  pub ticks_election : r.tick ≡ tick_election_function
  pub not_elapsed : r.election_elapsed ≡ 0
  pub waits : r.randomized_election_timeout ≡ timeout
  pub beats_each : r.heartbeat_timeout ≡ h
  pub elects_each : r.election_timeout ≡ t
  pub no_entries : r.entries ≡ []
  pub from_one : r.offset ≡ 1
  pub not_committed : r.commit_index ≡ 0
  pub not_applied : r.last_applied ≡ 0
  pub no_messages : r.recvmsgs ≡ []

-- A node whose constructor has found no file.
pub record Blank (id h t draw : ℕ) (r : Raft) : Type 0 where
  pub is_node : r.id ≡ id
  pub alone : r.public_prs ≡ []
  pub no_votes : r.votes ≡ []
  pub no_peers : r.prs ≡ []
  pub beats_each : r.heartbeat_timeout ≡ h
  pub elects_each : r.election_timeout ≡ t
  pub drawn : r.draws 0 ≡ draw
  pub no_entries : r.entries ≡ []
  pub from_one : r.offset ≡ 1
  pub not_committed : r.commit_index ≡ 0
  pub not_applied : r.last_applied ≡ 0
  pub no_messages : r.recvmsgs ≡ []

pub create-Blank :
    ⦃c : Codec⦄ (id h t : ℕ) (d : ℕ → ℕ) (s : Storage)
    → s.file ≡ none
    → Returns (Blank id h t (d 1)) (create id h t d s)
unfolding create reset_randomized_election_timeout Storage.first_index Storage.last_index
    Storage.entries
create-Blank id h t d s f = rw f (ground arith)

pub init-Starts :
    (peers : List ℕ) (id h t draw : ℕ) (r : Raft)
    → Blank id h t draw r
    → Starts id h t (u32 (t + draw)) (init peers r)
unfolding init step_down
init-Starts peers id h t draw r b =
    let (_, _, e) = add_peers-frame peers (step_down 1 0 r) in rw e (ground (arith, b))

pub init-Rows :
    (peers : List ℕ) (id h t draw : ℕ) (r : Raft)
    → Blank id h t draw r
    → Rows (λ k. elem k peers) (init peers r).prs
unfolding init step_down
init-Rows peers id h t draw r b =
    add_peers-Rows peers (λ k. false) (step_down 1 0 r) (ground (arith, b)) (ground (arith, b))

-- A leader of term 2 with nothing in its log and its inbox, whose heartbeat timeout begins,
-- and whose election timeout has begun.
pub record Elected (id h t elapsed : ℕ) (prs : Table Progress) (r : Raft) : Type 0 where
  pub is_node : r.id ≡ id
  pub leads : r.step ≡ step_leader_function
  pub is_leader : r.state ≡ state_leader
  pub beats : r.tick ≡ tick_heartbeat_function
  pub in_term : r.current_term ≡ 2
  pub no_beat : r.heartbeat_elapsed ≡ 0
  pub no_time : r.election_elapsed ≡ elapsed
  pub beats_each : r.heartbeat_timeout ≡ h
  pub elects_each : r.election_timeout ≡ t
  pub no_entries : r.entries ≡ []
  pub from_one : r.offset ≡ 1
  pub not_committed : r.commit_index ≡ 0
  pub not_applied : r.last_applied ≡ 0
  pub no_messages : r.recvmsgs ≡ []
  pub peers : r.prs ≡ prs

pub hup-Elected :
    (id h t timeout : ℕ) (r : Raft)
    → Starts id h t timeout r
    → Elected id h t 0 r.prs (hup (record r { election_elapsed = 0 }))
unfolding hup become_candidate become_leader grant_me quorum count_granted
hup-Elected id h t timeout r s = ground (arith, s)

module _ ⦃c : Codec⦄ where
  pub Elected-Idle :
      (id h t elapsed : ℕ) (prs : Table Progress) (ids : ℕ → Bool) (k : ℕ) (l : Raft)
      → Elected id h t elapsed prs l
      → Sound l
      → Rows ids prs
      → ids k ≡ true
      → Idle l
  Elected-Idle id h t elapsed prs ids k l e v r f =
      let none_yet : length l.entries ≡ 0 = ap length e.no_entries in
      record {
        sound = v;
        plain = record {
          from_one = e.from_one;
          counted = omega (arith, none_yet);
          termed = λ i x g.
              let nothing : get_elem? l.entries i ≡ none = ap (λ es. get_elem? es i) e.no_entries in
              absurd (ground (arith, g, nothing));
        };
        leads = e.leads;
        inbox = e.no_messages;
        has_peers = length_of_contains k l.prs (ap (contains k) e.peers ∙ r.keys k ∙ f);
        distinct = rw (sym e.peers) at r.distinct;
        has_term = omega (arith, e.in_term);
        numbered = subst (NumberedFrom 1) (sym e.no_entries) tt;
        all_committed = e.not_committed ∙ sym none_yet;
        all_applied = e.not_applied ∙ sym none_yet;
      }

  pub Joined-Mirrors :
      (id h t elapsed : ℕ) (prs : Table Progress) (ids : ℕ → Bool) (k : ℕ) (l f : Raft)
      → Elected id h t elapsed prs l
      → Rows ids prs
      → contains k prs ≡ true
      → (k == id || k == 0) ≡ false
      → Joined k f
      → Mirrors l f k
  Joined-Mirrors id h t elapsed prs ids k l f e r g o j = record {
    is_node = j.is_node;
    is_peer = rw e.is_node o;
    follows = j.follows;
    commit_le = omega (arith, j.not_committed);
    in_term = j.in_term ∙ sym e.in_term;
    same = ap content j.no_entries ∙ sym (ap content e.no_entries);
    next_eq =
        ap (λ x. (at_or zero_progress k x).next) e.peers
        ∙ r.nexts k g
        ∙ sym (ap (λ es. length es + 1) e.no_entries);
  }
