-- ===== src/Node/Cluster/Born.antt =====
-- A leader and its followers from their start on.
use mathlib.Core.Path.{subst}
use sapphiredb.Base.{
  Outcome, ℕ, suc, ◌+◌, ◌<◌, ◌≡◌, sym, ap, ◌∙◌, true, false, ◌||◌, ◌==◌, none, List, [], ◌∷◌, ◌++◌,
  ok, ◌>>=◌, length, u32, IsU32, Returns, Returns-ok, Returns-bind, Meets-weaken, arith,
  drop_of_append,
}
use sapphiredb.Base.Table.{contains, Distinct}
use sapphiredb.Proto.{Bytes, Codec}
use sapphiredb.Storage.{Storage}
use sapphiredb.Raft.{Raft}
use sapphiredb.Raft.Persist.{create}
use sapphiredb.Raft.Replicate.Heartbeats.{heartbeats}
use sapphiredb.Raft.Step.{hup}
use sapphiredb.Raft.Tally.All.{elem}
use sapphiredb.Raft.Tick.{tick_times}
use sapphiredb.Raft.Tick.Timeout.{tick_times-election, tick_times-heartbeat}
use sapphiredb.Raft.Sound.{Sound}
use sapphiredb.Node.{init}
use sapphiredb.Node.Steady.{create-Sound, init-Sound}
use sapphiredb.Raft.Sound.Clock.{tick_times-Sound}
use sapphiredb.Raft.Replicate.Broadcast.{prev_or}
use sapphiredb.Node.Cluster.{Cluster, deliver, queued, rounds, entries_of, written}
use sapphiredb.Node.Cluster.InStep.{InStep}
use sapphiredb.Node.Cluster.Rounds.{Proposals, rounds-Advances}
use sapphiredb.Node.Cluster.Joined.{Newborn, Joined, deliver-Joined}
use sapphiredb.Node.Cluster.Elected.{
  Blank, create-Blank, init-Starts, init-Rows, Elected, hup-Elected, Elected-Idle, Joined-Mirrors,
}

some_peer : (peers : List ℕ) → 0 < length peers → (k : ℕ) × (elem k peers ≡ true)
some_peer [] h = absurd (omega (arith, h))
some_peer (k ∷ peers) h = (k, ground arith)

module _ ⦃c : Codec⦄ where
  -- A node is made and started, and hears nothing until it is leader and then until it sends its first
  -- heartbeats, which the nodes handle.
  unfoldable pub born :
      List ℕ → ℕ → ℕ → ℕ → ℕ → ℕ → (ℕ → ℕ) → Storage → (ℕ → Raft) → Outcome Cluster
  born peers id h t n b draws storage nodes = create id h t draws storage >>= λ r.
      tick_times n (init peers r) >>= λ l. tick_times b l >>= λ l'.
      deliver (queued l l') nodes >>= λ nodes'. ok (record { leader = l'; nodes = nodes' })

  -- The leader is idle with an empty log, in term 2, with these peers, which are in step with it.
  pub record Born (peers : List ℕ) (x : Cluster) : Type 0 where
    pub in_step : InStep x
    pub no_entries : x.leader.entries ≡ []
    pub in_term : x.leader.current_term ≡ 2
    pub same_peers : (k : ℕ) → contains k x.leader.prs ≡ elem k peers

  born-Born :
      (peers : List ℕ) (id h t n b : ℕ) (draws : ℕ → ℕ) (storage : Storage) (nodes : ℕ → Raft)
      → storage.file ≡ none
      → 0 < length peers
      → ((k : ℕ) → elem k peers ≡ true → ((k == id || k == 0) ≡ false) × Newborn k (nodes k))
      → suc n ≡ u32 (t + draws 1)
      → suc b ≡ h
      → h < t
      → IsU32 t
      → Returns (Born peers) (born peers id h t (suc n) (suc b) draws storage nodes)
  unfolding born
  born-Born peers id h t n b draws storage nodes f any each w beat less fits =
      let (r, made, blank) =
        Returns-ok (Blank id h t (draws 1)) (create id h t draws storage)
          (create-Blank id h t draws storage f) in
      let q = init peers r in
      let s = init-Starts peers id h t (draws 1) r blank in
      let rows = init-Rows peers id h t (draws 1) r blank in
      let (_, fires) =
        tick_times-election n q s.ticks_election (omega (arith, s.not_elapsed, s.waits, w))
          (omega (arith, s.waits, w)) in
      let l = hup (record q { election_elapsed = 0 }) in
      let sound : Sound l = rw fires at (
        tick_times-Sound (suc n) q
          (init-Sound peers r (rw made at (create-Sound id h t draws storage f)))) in
      let e = hup-Elected id h t (u32 (t + draws 1)) q s in
      let beats =
        tick_times-heartbeat b l e.beats e.is_leader e.leads
          (omega (arith, e.no_beat, e.beats_each, beat))
          (omega (arith, e.no_time, e.elects_each, beat, less))
          (omega (arith, e.beats_each, less, fits)) (omega (arith, e.elects_each, fits)) in
      let l' = record l {
        heartbeat_elapsed = 0;
        election_elapsed = l.election_elapsed + suc b;
        sendmsgs = l.sendmsgs ++ heartbeats l l.prs;
      } in
      let e' : Elected id h t (suc b) q.prs l' = ground (arith, e) in
      let mail : queued l l' ≡ heartbeats l l.prs =
        drop_of_append l.sendmsgs (heartbeats l l.prs) in
      let known = λ (k : ℕ). ap (contains k) e.peers ∙ rows.keys k in
      let heard =
        deliver-Joined l l.prs nodes e.in_term e.not_committed
          (subst Distinct (sym e.peers) rows.distinct)
          (λ k g.
            let (other, young) = each k (sym (known k) ∙ g) in
            (ground (arith, e.is_node, other), young)) in
      let (new, d, (joined, _)) =
        Returns-ok
          (λ new.
            ((k : ℕ) → contains k l.prs ≡ true → Joined k (new k))
            × ((k : ℕ) → contains k l.prs ≡ false → new k ≡ nodes k))
          (deliver (heartbeats l l.prs) nodes) heard in
      let (first, found) = some_peer peers any in
      let member = λ (k : ℕ). elem k peers in
      rw (made, fires, beats, mail, d)
        (record {
          in_step = record {
            idle =
                Elected-Idle id h t (suc b) q.prs member first l' e' (ground (arith, sound)) rows
                  found;
            latest = ap (λ es. prev_or (length es) l') e.no_entries;
            mirrors = λ k g.
                Joined-Mirrors id h t (suc b) q.prs member k l' (new k) e' rows
                  (sym (ap (contains k) e.peers) ∙ g) (each k (sym (known k) ∙ g)).0 (joined k g);
          };
          no_entries = e.no_entries;
          in_term = e.in_term;
          same_peers = known;
        })

  -- From the start on. A node is made without a file and started with peers, and hears nothing for
  -- one randomised election timeout, which is not 0, and then for one heartbeat timeout, which is
  -- not 0 and shorter than its election timeout, of 32 bits. Each of its peers, none of which has
  -- its id or 0, is a follower of term 1 with an empty log that has committed nothing. No proposal
  -- is empty, the entry of each, in term 2 and with the indices from 1 on, can be read back from a
  -- file in which it is written, each has an order in which its answers arrive, with repetitions
  -- or without, that names every peer and no other node, and an `int` can count them. Then these
  -- have a defined result: the ticks; the handling by the peers of the heartbeats that the last
  -- tick queues; and the proposals, one after the other. Of each, the leader handles the proposal,
  -- its receivers the messages that this has queued, and the leader the answers that this has
  -- queued, and it writes its log. No other message is delivered: not those that the start and the
  -- election queue, not the answers to the heartbeats, and not the broadcasts that the leader
  -- queues when it commits. At the end the node leads, its log is that of the proposals, in their
  -- order, it has committed and applied all of it and is idle, and each peer is a follower in its
  -- term that holds that log, entry types aside.
  pub born-rounds :
      (peers : List ℕ) (id h t n b : ℕ) (draws : ℕ → ℕ) (storage : Storage) (nodes : ℕ → Raft)
      → (ops : List (Bytes × List ℕ)) → storage.file ≡ none
      → 0 < length peers
      → ((k : ℕ) → elem k peers ≡ true → ((k == id || k == 0) ≡ false) × Newborn k (nodes k))
      → suc n ≡ u32 (t + draws 1)
      → suc b ≡ h
      → h < t
      → IsU32 t
      → length ops < 2147483648
      → Proposals ops 2 1 (λ k. elem k peers)
      → Returns
          (λ y. InStep y × (y.leader.entries ≡ entries_of ops 2 1))
          (born peers id h t (suc n) (suc b) draws storage nodes >>= λ x. rounds ops x)
  born-rounds peers id h t n b draws storage nodes ops f any each w beat less fits few p =
      Returns-bind (Born peers) (λ y. InStep y × (y.leader.entries ≡ entries_of ops 2 1))
        (born peers id h t (suc n) (suc b) draws storage nodes) _
        (born-Born peers id h t n b draws storage nodes f any each w beat less fits)
        (λ x v.
          let none_yet : length x.leader.entries + 1 ≡ 1 = omega (arith, ap length v.no_entries) in
          let es = entries_of ops 2 1 in
          Meets-weaken ⊥
            (λ y.
              InStep y
              × (y.leader.entries ≡ x.leader.entries ++ es)
              × (y.leader.storage ≡ written es x.leader.storage))
            (λ y. InStep y × (y.leader.entries ≡ es)) (rounds ops x)
            (rounds-Advances ops x 2 1 (λ k. elem k peers) v.in_step v.in_term none_yet
              (omega (arith, none_yet, few)) v.same_peers p)
            (λ y (k, e, _). (k, e ∙ ap (λ xs. xs ++ es) v.no_entries)))
