-- ===== src/Node/Cluster/Rounds.antt =====
-- Proposals one after the other at a leader whose followers hold its log.
use mathlib.Core.Path.{subst}
use mathlib.Core.List.{append-nil, append_assoc}
use sapphiredb.Base.{
  Bool, drop_of_append, ℕ, ◌+◌, ◌<◌, ◌≡◌, ◌≢◌, refl, ap, sym, ◌∙◌, true, List, [], ◌∷◌, ◌++◌, map,
  ok, length, length-map, drop, Returns, Returns-ok, Returns-bind, Meets-weaken, Ensures, arith,
}
use sapphiredb.Base.Table.{contains, at_or}
use sapphiredb.Proto.{Bytes, Codec, Entry, empty_storage_data, empty_entry}
use sapphiredb.Progress.{zero_progress}
use sapphiredb.Storage
use sapphiredb.Storage.{Storage}
use sapphiredb.Storage.Laws.{IsReadable}
use sapphiredb.Raft.{Raft}
use sapphiredb.Raft.Log.{applied_to}
use sapphiredb.Raft.Persist.{storage_log}
use sapphiredb.Raft.Replicate.{bcast_append}
use sapphiredb.Raft.Replicate.Broadcast.{appends}
use sapphiredb.Raft.Tally.All.{elem}
use sapphiredb.Raft.Sound.Everyone.{step_times}
use sapphiredb.Raft.Sound.Rounds.{answer, AllFollow}
use sapphiredb.Raft.Sound.Settled.{Settled, step_times-Settled}
use sapphiredb.Node.{persist}
use sapphiredb.Node.Writes.{proposal-writes}
use sapphiredb.Node.Proposed.{
  entry_of, proposed, step_node-proposed, length-snoc, proposed-Sound, proposed-IsPlain,
}
use sapphiredb.Node.Cluster.{
  Cluster, queued, answers, entries_of, deliver, round, rounds, written, last_written,
}
use sapphiredb.Node.Cluster.Followers.{deliver-After}
use sapphiredb.Node.Cluster.InStep.{
  InStep, AllFollow-Mirrors, answers_lem, After-Mirrors, latest-proposed,
}

-- A proposal that is not empty, whose entry can be read back from a file in which it is written, with
-- an order of the answers that names each peer and no other node; and so on.
abbrev pub Proposals : ⦃c : Codec⦄ → List (Bytes × List ℕ) → ℕ → ℕ → (ℕ → Bool) → Type 0
Proposals [] term index is_peer = Unit {0}
Proposals ⦃c⦄ ((op, order) ∷ ops) term index is_peer =
    (op ≢ [])
    × IsReadable (
        c.write_storage (record empty_storage_data {
          entries = record empty_entry { bytes = op; term = term; index = index } ∷ [];
        }))
    × ((k : ℕ) → elem k order ≡ is_peer k)
    × Proposals ops term (index + 1) is_peer

module _ ⦃c : Codec⦄ where
  last_written-cons :
      (e : Entry) (es : List Entry) (s s' : Storage)
      → last_written (e ∷ es) s ≡ last_written (e ∷ es) s'
  unfolding Storage.append
  last_written-cons e [] s s' = refl
  last_written-cons e (e' ∷ es) s s' = last_written-cons e' es s s'

  -- Each write replaces the file.
  written-last_written : (es : List Entry) (s : Storage) → written es s ≡ last_written es s
  written-last_written [] s = refl
  written-last_written (e ∷ []) s = refl
  written-last_written (e ∷ e' ∷ es) s =
      written-last_written (e' ∷ es) _ ∙ last_written-cons e' es _ s

  persist-frame :
      (s : Raft)
      → Ensures
          (λ r.
            (r.prs ≡ s.prs)
            × (r.id ≡ s.id)
            × (r.current_term ≡ s.current_term)
            × (r.entries ≡ s.entries))
          (persist s)
  unfolding persist storage_log applied_to
  persist-frame s = ground arith

  -- What the leader and its peers are after a proposal, in a term, that they have all taken.
  record Advances (op : Bytes) (x y : Cluster) : Type 0 where
    in_step : InStep y
    entries_eq : y.leader.entries ≡ x.leader.entries ++ entry_of op x.leader ∷ []
    term_eq : y.leader.current_term ≡ x.leader.current_term
    storage_eq : y.leader.storage ≡ Storage.append (entry_of op x.leader ∷ []) x.leader.storage
    same_peers : (k : ℕ) → contains k y.leader.prs ≡ contains k x.leader.prs

  round-Advances :
      (op : Bytes) (order : List ℕ) (x : Cluster)
      → InStep x
      → length x.leader.entries + 1 < 2147483648
      → op ≢ []
      → IsReadable
          (c.write_storage (record empty_storage_data { entries = entry_of op x.leader ∷ [] }))
      → ((k : ℕ) → elem k order ≡ contains k x.leader.prs)
      → Returns (Advances op x) (round op order x)
  unfolding round
  round-Advances op order x h b o w cover =
      let l = x.leader in
      let i = h.idle in
      let q = proposed op l in
      let more = length-snoc l.entries (entry_of op l) in
      let sound = proposed-Sound op l i.sound b in
      let plain = proposed-IsPlain op l i.plain i.has_term b in
      let all = λ (k : ℕ) (e : contains k l.prs ≡ true). cover k ∙ e in
      let follow : AllFollow q x.nodes l.prs =
        AllFollow-Mirrors op l x.nodes l.prs h.latest i.distinct
          (λ k e. ((h.mirrors k e).next_eq, h.mirrors k e)) in
      let (_, l₁, e, sent, done) = proposal-writes op l x.nodes order i b o w follow all in
      let cast : bcast_append q ≡ ok l₁ =
        sym (
          step_node-proposed op l o i.inbox i.sound i.leads i.has_peers i.all_committed
            i.all_applied (omega (arith, b)))
        ∙ e in
      let (new, d, (after, _)) = Returns-ok _ (deliver (appends q l.prs) x.nodes) (
        deliver-After q l.prs x.nodes i.distinct follow sound.tracked (omega (arith, more))
          plain.counted) in
      let r = record l₁ { recvmsgs = map (answer q) order } in
      let (s, f, (_, ents, l', p, stored, idle)) =
        Returns-ok _ (step_times (length order) r) done in
      let set : Settled q s = rw f at (
        step_times-Settled q order l₁ sound plain i.leads i.distinct (omega (arith, more)) all
          cast) in
      let (prs', id', term', ents') = rw p at (persist-frame s) in
      let mail : queued l l₁ ≡ appends q l.prs =
        ap (drop (length l.sendmsgs)) sent ∙ drop_of_append l.sendmsgs (appends q l.prs) in
      let back : answers order x.nodes new ≡ map (answer q) order =
        answers_lem q l.prs order x.nodes new (λ k e. ((h.mirrors k e).is_node, after k e))
          (λ k e. sym (cover k) ∙ e) in
      let count : length (map (answer q) order) ≡ length order = length-map (answer q) order in
      let whole : l'.entries ≡ q.entries = ents' ∙ ents in
      let peers = λ (k : ℕ). ap (contains k) prs' ∙ set.same_peers k in
      let term : l'.current_term ≡ l.current_term = term' ∙ set.stays.term_eq in
      rw (e, mail, d, back, count, f, p)
        (record {
          in_step = record {
            idle = idle;
            latest = latest-proposed op l l' whole term;
            mirrors = λ k g.
                let known : contains k l.prs ≡ true = sym (peers k) ∙ g in
                After-Mirrors op l l' (x.nodes k) (new k) k (h.mirrors k known) (after k known)
                  whole (id' ∙ set.stays.id_eq) term
                  (ap (λ t. (at_or zero_progress k t).next) prs'
                    ∙ (set.ahead k known).next_eq
                    ∙ ap (λ n. n + 1) (sym (ap length whole)));
          };
          entries_eq = whole;
          term_eq = term;
          storage_eq = stored ∙ ap (Storage.append (entry_of op l ∷ [])) set.stays.storage_eq;
          same_peers = peers;
        })

  pub rounds-Advances :
      (ops : List (Bytes × List ℕ)) (x : Cluster) (t i : ℕ) (is_peer : ℕ → Bool)
      → InStep x
      → x.leader.current_term ≡ t
      → length x.leader.entries + 1 ≡ i
      → length x.leader.entries + length ops < 2147483648
      → ((k : ℕ) → contains k x.leader.prs ≡ is_peer k)
      → Proposals ops t i is_peer
      → Returns
          (λ y.
            InStep y
            × (y.leader.entries ≡ x.leader.entries ++ entries_of ops t i)
            × (y.leader.storage ≡ written (entries_of ops t i) x.leader.storage))
          (rounds ops x)
  unfolding rounds
  rounds-Advances [] x t i peer h e j b k p = (h, sym (append-nil x.leader.entries), refl)
  rounds-Advances ((op, order) ∷ ops) x t i peer h e j b k p =
      let l = x.leader in
      let l = x.leader in
      let rest = entries_of ops t (i + 1) in
      let first : record empty_entry { bytes = op; term = t; index = i } ≡ entry_of op l =
        rw (e, j) refl in
      let write = λ (z : Entry). c.write_storage (record empty_storage_data { entries = z ∷ [] }) in
      Returns-bind (Advances op x) _ (round op order x) _
        (round-Advances op order x h (omega (arith, b)) p.0
          (subst (λ z. IsReadable (write z)) first p.1) (λ n. p.2 n ∙ sym (k n)))
        (λ y a.
          let grown : length y.leader.entries ≡ length l.entries + 1 =
            ap length a.entries_eq ∙ length-snoc l.entries (entry_of op l) in
          Meets-weaken ⊥
            (λ z.
              InStep z
              × (z.leader.entries ≡ y.leader.entries ++ rest)
              × (z.leader.storage ≡ written rest y.leader.storage))
            (λ z.
              InStep z
              × (z.leader.entries ≡ l.entries ++ entries_of ((op, order) ∷ ops) t i)
              × (z.leader.storage ≡ written (entries_of ((op, order) ∷ ops) t i) l.storage))
            (rounds ops y)
            (rounds-Advances ops y t (i + 1) peer a.in_step (a.term_eq ∙ e)
              (omega (arith, grown, j)) (omega (arith, grown, b)) (λ n. a.same_peers n ∙ k n) p.3)
            (λ z (s, n, w). (
              s,
              n
                  ∙ ap (λ es. es ++ rest) (a.entries_eq ∙ ap (λ v. l.entries ++ v ∷ []) (sym first))
                  ∙ append_assoc l.entries (_ ∷ []) rest,
              w
                  ∙ ap (written rest)
                      (a.storage_eq ∙ ap (λ v. Storage.append (v ∷ []) l.storage) (sym first)),
            )))

  -- Any number of proposals, one after the other. A leader is idle: it is sound, has committed and
  -- applied its whole log, which starts at 1, is numbered from 1 and has terms, has an empty inbox
  -- and a term that is not 0, and knows some peers, each once; its last entry, if there is one, is
  -- of its term. Each of its peers, none of which has its id or 0, is a follower in the same term
  -- that holds the leader's log, entry types aside, and has not committed past it, and the leader
  -- believes it to hold the log. An `int` can count the log with the proposals. No proposal is
  -- empty, the entry of each can be read back from a file in which it is written, and each has an
  -- order, with repetitions or without, in which its answers arrive, that names every peer and no
  -- other node. Each proposal is handled by the leader; the messages that this has queued, and no
  -- others, are handled by their receivers; the answers that this has queued, and no others, are
  -- handled by the leader; and its log is written. The messages that were in a queue before, and
  -- those that the leader queues when it handles the answers, are not delivered. All of it has a
  -- defined result, and what is said of the leader and its peers holds again; the leader's log is
  -- the one before with the entries of the proposals after it, in their order, with the indices
  -- after that log; and of these entries the storage has only the last, since each write replaces
  -- the file, and is as before if there are none.
  pub rounds-InStep :
      (ops : List (Bytes × List ℕ)) (x : Cluster)
      → InStep x
      → length x.leader.entries + length ops < 2147483648
      → Proposals ops x.leader.current_term
          (length x.leader.entries + 1)
          (λ k. contains k x.leader.prs)
      → let es = entries_of ops x.leader.current_term (length x.leader.entries + 1) in
        Returns
          (λ y.
            InStep y
            × (y.leader.entries ≡ x.leader.entries ++ es)
            × (y.leader.storage ≡ last_written es x.leader.storage))
          (rounds ops x)
  rounds-InStep ops x h b p =
      let es = entries_of ops x.leader.current_term (length x.leader.entries + 1) in
      Meets-weaken ⊥
        (λ y.
          InStep y
          × (y.leader.entries ≡ x.leader.entries ++ es)
          × (y.leader.storage ≡ written es x.leader.storage))
        (λ y.
          InStep y
          × (y.leader.entries ≡ x.leader.entries ++ es)
          × (y.leader.storage ≡ last_written es x.leader.storage))
        (rounds ops x)
        (rounds-Advances ops x x.leader.current_term (length x.leader.entries + 1)
          (λ k. contains k x.leader.prs) h refl refl b (λ k. refl) p)
        (λ y (s, n, w). (s, n, w ∙ written-last_written es x.leader.storage))
