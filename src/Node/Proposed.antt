-- ===== src/Node/Proposed.antt =====
-- A leader with nothing to do, and after it has taken a proposal into its log.
use sapphiredb.Base.{
  ℕ, suc, zero, ◌+◌, ◌≤◌, ◌<◌, ◌≡◌, ◌≢◌, refl, ap, ◌∙◌, true, List, [], ◌∷◌, ◌++◌, ok, ◌>>=◌, some,
  IsU64, length, length-append, get_elem?, take, drop, u64, max, arith,
}
use sapphiredb.Base.Table.{Distinct}
use sapphiredb.Proto.{Bytes, Codec, Entry, empty_entry}
use sapphiredb.Raft.{Raft, set_ready, step_leader_function}
use sapphiredb.Raft.Replicate.{append_entry, number_entries, bcast_append}
use sapphiredb.Raft.Replicate.Append.{IsPlain}
use sapphiredb.Raft.Mailbox.{step_node, propose}
use sapphiredb.Raft.Mailbox.Delivery.{propose-step_node}
use sapphiredb.Raft.Persist.Applied.{NumberedFrom}
use sapphiredb.Raft.Tally.{reached, least_reached, map-reached, maybe_commit-tally}
use sapphiredb.Raft.Tally.All.{least_reached_le}
use sapphiredb.Raft.Sound.{Sound}
use sapphiredb.Raft.Sound.Tables.{Tracked-AllTo, Tracked-mono, Indexed-append}

-- The entry that a proposal becomes at a leader that has applied its whole log.
abbrev pub entry_of : Bytes → Raft → Entry
entry_of op l = record empty_entry {
  bytes = op;
  term = l.current_term;
  index = length l.entries + 1;
}

abbrev pub proposed : Bytes → Raft → Raft
proposed op l = record l { entries = l.entries ++ entry_of op l ∷ []; ready = true }

pub length-snoc : (es : List Entry) (e : Entry) → length (es ++ e ∷ []) ≡ length es + 1
length-snoc es e = length-append es (e ∷ [])

pub NumberedFrom-snoc :
    (k : ℕ) (es : List Entry) (e : Entry)
    → NumberedFrom k es
    → e.index ≡ k + length es
    → NumberedFrom k (es ++ e ∷ [])
NumberedFrom-snoc k [] e n i = (omega arith, tt)
NumberedFrom-snoc k (x ∷ es) e n i = (n.0, NumberedFrom-snoc (suc k) es e n.1 (omega arith))

pub drop-take-snoc :
    (es : List Entry) (e : Entry) → drop (length es) (take (length es + 1) (es ++ e ∷ [])) ≡ e ∷ []
drop-take-snoc [] e = refl
drop-take-snoc (x ∷ es) e =
    let n : length (x ∷ es) + 1 ≡ suc (length es + 1) = omega arith in rw n (drop-take-snoc es e)

termed-snoc :
    (es : List Entry) (e : Entry) (i : ℕ) (x : Entry)
    → ((j : ℕ) (y : Entry) → get_elem? es j ≡ some y → 0 < y.term)
    → 0 < e.term
    → get_elem? (es ++ e ∷ []) i ≡ some x
    → 0 < x.term
termed-snoc [] e zero x h p g = ground arith
termed-snoc [] e (suc i) x h p g = cc
termed-snoc (y ∷ es) e zero x h p g = h 0 x g
termed-snoc (y ∷ es) e (suc i) x h p g = termed-snoc es e i x (λ j. h (suc j)) p g

-- A sound leader with nothing to do: it has committed and applied its whole log, which starts at 1 and
-- is numbered from 1 and has terms, its inbox is empty, its term is not 0, and it knows some peers,
-- each once.
pub record Idle ⦃c : Codec⦄ (l : Raft) : Type 0 where
  pub sound : Sound l
  pub plain : IsPlain l
  pub leads : l.step ≡ step_leader_function
  pub inbox : l.recvmsgs ≡ []
  pub has_peers : 0 < length l.prs
  pub distinct : Distinct l.prs
  pub has_term : 0 < l.current_term
  pub numbered : NumberedFrom 1 l.entries
  pub all_committed : l.commit_index ≡ length l.entries
  pub all_applied : l.last_applied ≡ length l.entries

module _ ⦃c : Codec⦄ (op : Bytes) (l : Raft) where
  pub proposed-IsPlain :
      IsPlain l → 0 < l.current_term → length l.entries + 1 < 2147483648 → IsPlain (proposed op l)
  proposed-IsPlain p t b = record {
    from_one = p.from_one;
    counted = omega (arith, b, length-snoc l.entries (entry_of op l));
    termed = λ i e. termed-snoc l.entries (entry_of op l) i e p.termed t;
  }

  pub proposed-Sound : Sound l → length l.entries + 1 < 2147483648 → Sound (proposed op l)
  proposed-Sound v b =
      let n = length-snoc l.entries (entry_of op l) in
      record {
        from_one = v.from_one;
        alone = v.alone;
        answers = v.answers;
        applied_le = omega (arith, n, v.applied_le);
        applied_fits = v.applied_fits;
        indexed =
            Indexed-append 1 l.entries (entry_of op l ∷ []) v.indexed
              (omega arith, omega (arith, b), tt);
        tracked = Tracked-mono (length l.entries) _ l.prs (omega (arith, n)) v.tracked;
      }

  append_entry-proposed :
      Sound l
      → 0 < length l.prs
      → l.commit_index ≡ length l.entries
      → l.last_applied ≡ length l.entries
      → IsU64 (length l.entries + 1)
      → append_entry (record empty_entry { bytes = op } ∷ []) l ≡ ok (proposed op l)
  unfolding append_entry number_entries set_ready
  append_entry-proposed v p i a b =
      let m = least_reached (reached l.prs) in
      let le : m ≤ length l.entries =
        least_reached_le (length l.entries) (reached l.prs)
          (rw (map-reached l.prs) (Tracked-AllTo (length l.entries) l.prs v.tracked)) in
      let index : u64 (l.last_applied + 1) ≡ length l.entries + 1 = omega (arith, a) in
      let same : max l.commit_index m ≡ l.commit_index = omega (arith, i, le) in
      rw index (
        rw
          (
            maybe_commit-tally (record l { entries = l.entries ++ entry_of op l ∷ [] }) v.alone p
                (omega (arith, length-snoc l.entries (entry_of op l))),
            same,
          )
          refl)

  pub step_node-proposed :
      op ≢ []
      → l.recvmsgs ≡ []
      → Sound l
      → l.step ≡ step_leader_function
      → 0 < length l.prs
      → l.commit_index ≡ length l.entries
      → l.last_applied ≡ length l.entries
      → IsU64 (length l.entries + 1)
      → step_node (propose op l).1 ≡ bcast_append (proposed op l)
  step_node-proposed o q v s p i a b =
      propose-step_node op l o q s
      ∙ ap (λ m. m >>= λ r. bcast_append r) (append_entry-proposed v p i a b)
