-- ===== src/Node/Writes.antt =====
-- A proposal on its way: appended, sent, acknowledged, committed and written.
use mathlib.Core.Path.{subst}
use sapphiredb.Base.{
  ℕ, ◌+◌, ◌≤◌, ◌<◌, ◌≡◌, ◌≢◌, refl, sym, ap, ◌∙◌, true, false, List, [], ◌∷◌, ◌++◌, map, ok, some,
  IsU64, Returns, Meets-weaken, length, get_elem?, take, drop, arith,
}
use sapphiredb.Base.Table.{contains}
use sapphiredb.Proto.{Bytes, Codec, Entry, empty_storage_data}
use sapphiredb.Storage
use sapphiredb.Storage.Laws.{IsReadable, term-append-Returns}
use sapphiredb.Raft.{Raft}
use sapphiredb.Raft.Replicate.Broadcast.{appends}
use sapphiredb.Raft.Mailbox.{step_node, propose}
use sapphiredb.Raft.Persist.Applied.{NumberedFrom, storage_log_lem}
use sapphiredb.Raft.Tally.{reached, least_reached, map-reached}
use sapphiredb.Raft.Tally.All.{elem, least_reached_le}
use sapphiredb.Raft.Sound.Tables.{Tracked-AllTo}
use sapphiredb.Raft.Sound.Everyone.{Committed, step_times}
use sapphiredb.Raft.Sound.Rounds.{answer, AllFollow, AllHold, rounds-commit}
use sapphiredb.Node.{persist}
use sapphiredb.Node.Proposed.{
  entry_of, proposed, length-snoc, NumberedFrom-snoc, drop-take-snoc, Idle, proposed-IsPlain,
  proposed-Sound, step_node-proposed,
}

module _ ⦃c : Codec⦄ (op : Bytes) (l : Raft) where
  -- What is written when a state has the log, the commit index and the applied index that the
  -- acknowledgements leave.
  persist-proposed :
      (s : Raft)
      → s.entries ≡ (proposed op l).entries
      → s.commit_index ≡ length (proposed op l).entries
      → s.last_applied ≡ length l.entries
      → NumberedFrom 1 l.entries
      → IsU64 (length l.entries + 1)
      → persist s
        ≡ ok (record s {
          storage = Storage.append (entry_of op l ∷ []) s.storage;
          last_applied = s.commit_index;
          ready = false;
        })
  unfolding persist
  persist-proposed s e k a n b =
      let more = length-snoc l.entries (entry_of op l) in
      let here : length s.entries ≡ length l.entries + 1 = ap length e ∙ more in
      let written : drop s.last_applied (take s.commit_index s.entries) ≡ entry_of op l ∷ [] =
        (λ i. drop (a i) (take ((k ∙ more) i) (e i))) ∙ drop-take-snoc l.entries (entry_of op l) in
      rw
        (storage_log_lem s
          (subst (NumberedFrom 1) (sym e)
            (NumberedFrom-snoc 1 l.entries (entry_of op l) n (omega arith)))
          (omega (arith, a, k, more)) (omega (arith, k, here, more)) (omega (arith, here, b)))
        (ap
          (λ es. ok (record s {
            storage = Storage.append es s.storage;
            last_applied = s.commit_index;
            ready = false;
          }))
          written)

  -- The leader is idle again when it has written the proposal.
  written-Idle :
      (s : Raft)
      → Idle l
      → length l.entries + 1 < 2147483648
      → IsReadable (c.write_storage (record empty_storage_data { entries = entry_of op l ∷ [] }))
      → Committed (proposed op l).entries l.last_applied l.current_term s
      → Idle (record s {
        storage = Storage.append (entry_of op l ∷ []) s.storage;
        last_applied = s.commit_index;
        ready = false;
      })
  written-Idle s h b w k =
      let more = length-snoc l.entries (entry_of op l) in
      let here : length s.entries ≡ length l.entries + 1 = ap length k.entries_eq ∙ more in
      record {
        sound = record {
          from_one = k.sound.from_one;
          alone = k.sound.alone;
          answers = λ i. term-append-Returns (entry_of op l ∷ []) s.storage i w (omega arith);
          applied_le = omega (arith, k.commit_eq, here, more);
          applied_fits = omega (arith, k.commit_eq, more, b);
          indexed = k.sound.indexed;
          tracked = k.sound.tracked;
        };
        plain = record {
          from_one = k.sound.from_one;
          counted = omega (arith, here, b);
          termed =
              subst (λ es. (i : ℕ) (e : Entry) → get_elem? es i ≡ some e → 0 < e.term)
                (sym k.entries_eq) (proposed-IsPlain op l h.plain h.has_term b).termed;
        };
        leads = k.leads;
        inbox = k.inbox;
        has_peers = k.has_peers;
        distinct = k.distinct;
        has_term = omega (arith, k.term_le, h.has_term);
        numbered =
            subst (NumberedFrom 1) (sym k.entries_eq)
              (NumberedFrom-snoc 1 l.entries (entry_of op l) h.numbered (omega arith));
        all_committed = omega (arith, k.commit_eq, here, more);
        all_applied = omega (arith, k.commit_eq, here, more);
      }

  -- A proposal on its way. A leader is idle: it is sound, has committed and applied its whole log,
  -- which starts at 1, is numbered from 1 and has terms, has an empty inbox and a term that is not 0,
  -- and knows some peers, each once. Its log leaves room for an entry that an `int` can count. Each of its peers is a follower that agrees with the leader, with the proposal at the end of
  -- its log, up to where the leader believes it to be, has committed no more, and has the term that
  -- goes with what it is sent; none has the leader's id or 0. The proposal is not empty, and its entry
  -- can be read back from a file in which it is written. Then its handling has a defined result and
  -- queues one `MsgApp` for each peer; each peer that handles its own holds the leader's log with the
  -- proposal after it, entry types aside, and its answer is queued, with a defined result; and when
  -- the answers of all of them, in whatever order and however often, are all that is in the leader's
  -- inbox, and it has handled them, with a defined result too, the proposal is committed at the end of
  -- its log, the thread that writes the log writes it, alone, and the leader is idle again.
  pub proposal-writes :
      (nodes : ℕ → Raft) (order : List ℕ)
      → Idle l
      → length l.entries + 1 < 2147483648
      → op ≢ []
      → IsReadable (c.write_storage (record empty_storage_data { entries = entry_of op l ∷ [] }))
      → AllFollow (proposed op l) nodes l.prs
      → ((k : ℕ) → contains k l.prs ≡ true → elem k order ≡ true)
      → AllHold (proposed op l) nodes l.prs
        × (l₁ : Raft) × (step_node (propose op l).1 ≡ ok l₁)
        × (l₁.sendmsgs ≡ l.sendmsgs ++ appends (proposed op l) l.prs)
        × Returns
            (λ s.
              (s.commit_index ≡ length l.entries + 1)
              × (s.entries ≡ l.entries ++ entry_of op l ∷ [])
              × (s' : Raft) × (persist s ≡ ok s')
              × (s'.storage ≡ Storage.append (entry_of op l ∷ []) s.storage)
              × Idle s')
            (step_times
              (length order)
              (record l₁ { recvmsgs = map (answer (proposed op l)) order }))
  proposal-writes nodes order h b o w f cover =
      let more = length-snoc l.entries (entry_of op l) in
      let le : least_reached (reached l.prs) ≤ length l.entries =
        least_reached_le (length l.entries) (reached l.prs)
          (rw (map-reached l.prs) (Tracked-AllTo (length l.entries) l.prs h.sound.tracked)) in
      let (held, l₁, e, sent, done) =
        rounds-commit (proposed op l) nodes order (proposed-Sound op l h.sound b)
          (proposed-IsPlain op l h.plain h.has_term b) h.leads h.has_peers h.distinct
          (omega (arith, more)) (omega (arith, more, h.all_committed)) (omega (arith, more, le)) f
          cover in
      let handled =
        step_node-proposed op l o h.inbox h.sound h.leads h.has_peers h.all_committed h.all_applied
          (omega (arith, b)) in
      (
        held,
        l₁,
        handled ∙ e,
        sent,
        Meets-weaken ⊥ (Committed (proposed op l).entries l.last_applied l.current_term) _ _ done
            (λ s k. (
              k.commit_eq ∙ more,
              k.entries_eq,
              _,
              persist-proposed s k.entries_eq k.commit_eq (k.applied_eq ∙ h.all_applied) h.numbered
                  (omega (arith, b)),
              refl,
              written-Idle s h b w k,
            )),
      )
