-- ===== src/Raft/Sound/Everyone.antt =====
-- A leader whose inbox holds the acknowledgements of all its peers.
use sapphiredb.Base.{
  Returns-and, ℕ, zero, suc, ◌+◌, ◌≤◌, ◌<◌, ◌≡◌, refl, ap, ◌∙◌, false, true, List, [], ◌∷◌, map, ok,
  Outcome, ◌>>=◌, IsU64, length, Returns, Returns-bind, Meets-weaken, arith, ◌⊎◌,
}
use sapphiredb.Base.Table.{Distinct, contains, at_or}
use sapphiredb.Proto.{Codec, Entry, Message, msg_app_resp}
use sapphiredb.Raft.{Raft, step_leader_function}
use sapphiredb.Raft.Frame.{Evolves, general_step-Evolves}
use sapphiredb.Raft.Terms.{general_step-current_term_le}
use sapphiredb.Raft.Mailbox.{step_node, step_front}
use sapphiredb.Raft.Step.{general_step}
use sapphiredb.Raft.Tally.{
  Tally, tally, reached, least_reached, acknowledge, map-reached, length-reached, Distinct-reached,
  Distinct-of_reached,
}
use sapphiredb.Raft.Tally.All.{
  acknowledge_all-Distinct, length-acknowledge_all, elem, acknowledge_all, Nears, everyone,
}
use sapphiredb.Raft.Sound.{Sound}
use sapphiredb.Raft.Sound.Tables.{Tracked-AllTo}
use sapphiredb.Raft.Sound.Acknowledged.{general_step-acknowledge}

-- Messages that acknowledge the log up to an index.
abbrev pub AllAcknowledge : ℕ → List Message → Type 0
AllAcknowledge n [] = Unit {0}
AllAcknowledge n (m ∷ ms) =
    (m.type ≡ msg_app_resp)
    × (m.term ≡ 0)
    × (m.reject ≡ false)
    × (m.index ≡ n)
    × AllAcknowledge n ms

module _ ⦃c : Codec⦄ where
  -- Some rounds of the thread that handles the inbox.
  unfoldable pub step_times : ℕ → Raft → Outcome Raft
  step_times zero r = ok r
  step_times (suc n) r = step_node r >>= λ s. step_times n s

  pub record Told (es : List Entry) (a t₀ : ℕ) (ms : List Message) (v : Tally) (r : Raft)
      : Type 0 where
    pub sound : Sound r
    pub leads : r.step ≡ step_leader_function
    pub entries_eq : r.entries ≡ es
    pub applied_eq : r.last_applied ≡ a
    pub term_le : t₀ ≤ r.current_term
    pub inbox : r.recvmsgs ≡ ms
    pub tally_eq : tally r ≡ v

  pub step_node-Told :
      (es : List Entry) (a t₀ : ℕ) (m : Message) (ms : List Message) (v : Tally) (r : Raft)
      → AllAcknowledge (length es) (m ∷ ms)
      → 0 < length es
      → IsU64 (length es + 1)
      → Told es a t₀ (m ∷ ms) v r
      → Returns (Told es a t₀ ms (acknowledge m.from (length es) v)) (step_node r)
  unfolding step_node step_front
  step_node-Told es a t₀ m ms v r (e, t, j, i, _) p b h =
      let r' = record r { recvmsgs = ms } in
      let n : length r.entries ≡ length es = ap length h.entries_eq in
      let k =
        general_step-acknowledge m r' (ground (arith, h.sound)) h.leads e t j (omega (arith, n))
          (omega (arith, i, n)) (omega (arith, i)) in
      rw h.inbox (
        Meets-weaken ⊥ _ (Told es a t₀ ms (acknowledge m.from (length es) v)) (general_step m r')
          (Returns-and _ (λ s. r.current_term ≤ s.current_term) (general_step m r')
            (Returns-and _ (Evolves r') (general_step m r') k (general_step-Evolves m r'))
            (general_step-current_term_le m r' (λ z. absurd (ground (arith, e, z)))
              (λ z. absurd (ground (arith, e, z)))))
          (λ s (((x, f, g, w), y), z). record {
            sound = w;
            leads = g;
            entries_eq = f ∙ h.entries_eq;
            applied_eq = y.last_applied_eq ∙ h.applied_eq;
            term_le = omega (arith, z, h.term_le);
            inbox = y.recvmsgs_eq;
            tally_eq =
                x
                ∙ ap (λ k. acknowledge m.from k (tally r)) i
                ∙ ap (acknowledge m.from (length es)) h.tally_eq;
          }))

  step_times-Told :
      (es : List Entry) (a t₀ : ℕ) (ms : List Message) (v : Tally) (r : Raft)
      → AllAcknowledge (length es) ms
      → 0 < length es
      → IsU64 (length es + 1)
      → Told es a t₀ ms v r
      → Returns
          (Told es a t₀ [] (acknowledge_all (map (λ m. m.from) ms) (length es) v))
          (step_times (length ms) r)
  unfolding step_times
  step_times-Told es a t₀ [] v r all p b h = h
  step_times-Told es a t₀ (m ∷ ms) v r all p b h =
      Returns-bind (Told es a t₀ ms (acknowledge m.from (length es) v))
        (Told es a t₀ [] (acknowledge_all (map (λ m. m.from) (m ∷ ms)) (length es) v)) (step_node r)
        _ (step_node-Told es a t₀ m ms v r all p b h)
        (λ s k. step_times-Told es a t₀ ms (acknowledge m.from (length es) v) s all.4 p b k)

  -- A sound leader that has committed its whole log, `es`, with an empty inbox and one row for each of
  -- its peers, of which there is one.
  pub record Committed (es : List Entry) (a t₀ : ℕ) (s : Raft) : Type 0 where
    pub commit_eq : s.commit_index ≡ length es
    pub entries_eq : s.entries ≡ es
    pub applied_eq : s.last_applied ≡ a
    pub inbox : s.recvmsgs ≡ []
    pub leads : s.step ≡ step_leader_function
    pub sound : Sound s
    pub has_peers : 0 < length s.prs
    pub distinct : Distinct s.prs
    pub term_le : t₀ ≤ s.current_term

  -- A sound leader has one row for each of its peers, of which there is one, has not committed past
  -- its log, which is not empty, and knows of a peer that does not hold all of it. Its inbox holds
  -- acknowledgements of the whole log, in any order, those of every peer that it does not know to hold
  -- the log among them. Once they are handled, which has a defined result, the whole log is
  -- committed, the inbox is empty, and the node is a sound leader with the same log and as many peers,
  -- each once, whose term has not gone back and which has applied as much as before.
  pub step_times-commits :
      (ms : List Message) (r : Raft)
      → Sound r
      → r.step ≡ step_leader_function
      → 0 < length r.prs
      → Distinct r.prs
      → 0 < length r.entries
      → IsU64 (length r.entries + 1)
      → r.commit_index ≤ length r.entries
      → least_reached (reached r.prs) < length r.entries
      → r.recvmsgs ≡ ms
      → AllAcknowledge (length r.entries) ms
      → ((k : ℕ)
          → contains k (reached r.prs) ≡ true
          → (elem k (map (λ m. m.from) ms) ≡ true) ⊎ (at_or 0 k (reached r.prs) ≡ length r.entries))
      → Returns (Committed r.entries r.last_applied r.current_term) (step_times (length ms) r)
  step_times-commits ms r v s q d p b i l e a f =
      let n = length r.entries in
      let ids = map (λ m. m.from) ms in
      let told : Told r.entries r.last_applied r.current_term ms (tally r) r = record {
        sound = v;
        leads = s;
        entries_eq = refl;
        applied_eq = refl;
        term_le = omega arith;
        inbox = e;
        tally_eq = refl;
      } in
      let near : Nears n (tally r) = record {
        distinct = Distinct-reached r.prs d;
        within = rw (map-reached r.prs) (Tracked-AllTo n r.prs v.tracked);
        commit_le = i;
        commit_eq = λ z. absurd (omega (arith, z));
      } in
      let all = everyone ids n (tally r) near (omega (arith, length-reached r.prs)) f in
      Meets-weaken ⊥
        (Told r.entries r.last_applied r.current_term [] (acknowledge_all ids n (tally r))) _ _
        (step_times-Told r.entries r.last_applied r.current_term ms (tally r) r a p b told)
        (λ s k.
          let same : reached s.prs ≡ (acknowledge_all ids n (tally r)).0 =
            ap (λ (x : Tally). x.0) k.tally_eq in
          record {
            commit_eq = ap (λ (x : Tally). x.1) k.tally_eq ∙ all;
            entries_eq = k.entries_eq;
            applied_eq = k.applied_eq;
            inbox = k.inbox;
            leads = k.leads;
            sound = k.sound;
            has_peers = omega (
              arith,
              length-reached s.prs,
              ap length same,
              length-acknowledge_all ids n (tally r),
              length-reached r.prs,
            );
            distinct =
                Distinct-of_reached s.prs
                  (rw same (acknowledge_all-Distinct ids n (tally r) (Distinct-reached r.prs d)));
            term_le = k.term_le;
          })
