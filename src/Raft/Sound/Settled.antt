-- ===== src/Raft/Sound/Settled.antt =====
-- What a leader is and believes once all its peers have acknowledged its log.
use mathlib.Core.Path.{subst}
use sapphiredb.Base.{
  length-map, ◌++◌, ℕ, ◌<◌, ◌≡◌, ◌∙◌, refl, ap, sym, true, ◌⊎◌, inl, inr, List, [], ◌∷◌, map,
  length, Returns, Ensures, Returns-bind, Returns-ok, ok, Meets-weaken, Bool-cases, ◌==◌, arith,
}
use sapphiredb.Base.Table.{contains, Distinct}
use sapphiredb.Proto.{Codec, Entry, Message, msg_app_resp}
use sapphiredb.Raft.{Raft, send, set_ready, step_leader_function}
use sapphiredb.Raft.Log.{commit_to}
use sapphiredb.Raft.Replicate
use sapphiredb.Raft.Leader.{leader_dispatch, step_leader}
use sapphiredb.Raft.Mailbox.{step_node, step_front}
use sapphiredb.Raft.Step.{general_step, dispatch, call_step}
use sapphiredb.Raft.Step.Basics.{Basics, leader_peer-keeps}
use sapphiredb.Raft.Tally.{tally, Tally, acknowledge, contains-reached}
use sapphiredb.Raft.Tally.All.{
  elem, acknowledge_all, contains-acknowledge, contains-acknowledge_all,
}
use sapphiredb.Raft.Sound.Ahead.{Ahead, Arrives, general_step-Ahead}
use sapphiredb.Raft.Sound.Everyone.{AllAcknowledge, Told, step_node-Told, step_times}
use sapphiredb.Raft.Sound.{Sound}
use sapphiredb.Raft.Sound.Rounds.{answer, bcast_append-Sound, AllAcknowledge-answers, elem-answers}
use sapphiredb.Raft.Replicate.{bcast_append}
use sapphiredb.Raft.Replicate.Broadcast.{appends}
use sapphiredb.Raft.Sound.Round.{same_result}
use sapphiredb.Raft.Replicate.Append.{IsPlain}

-- A leader in this term, with this id and this storage.
pub record Stays (l r : Raft) : Type 0 where
  pub leads : r.step ≡ step_leader_function
  pub term_eq : r.current_term ≡ l.current_term
  pub id_eq : r.id ≡ l.id
  pub storage_eq : r.storage ≡ l.storage

commit_to-Stays : (l : Raft) (i : ℕ) (r : Raft) → Stays l r → Ensures (Stays l) (commit_to i r)
unfolding commit_to
commit_to-Stays l i r h = ground (arith, h)

pub Stays-Basics : (l : Raft) → Basics (Stays l)
unfolding send set_ready Replicate.put_progress
Stays-Basics l = record {
  on_send = λ m r h. ground (arith, h);
  on_progress = λ id p r h. ground (arith, h);
  on_entries = λ es r h. ground (arith, h);
  on_ready = λ r h. ground (arith, h);
  on_commit = commit_to-Stays l;
}

module _ ⦃c : Codec⦄ (l : Raft) where
  general_step-Stays :
      (m : Message) (r : Raft)
      → m.type ≡ msg_app_resp
      → m.term ≡ 0
      → Stays l r
      → Ensures (Stays l) (general_step m r)
  unfolding general_step dispatch call_step step_leader leader_dispatch
  general_step-Stays m r e t h = elim (Bool-cases (contains m.from r.prs)) [
    | inl f ↦ simp (t, e, h.leads, f) (leader_peer-keeps (Stays-Basics l) m msg_app_resp r h)
    | inr f ↦ simp (t, e, h.leads, f) h
  ]

  -- A leader that is told by some nodes that they hold its whole log: it believes it of each peer that
  -- is among them, or of which it was believed before.
  record Settles (es : List Entry) (a t₀ : ℕ) (ms : List Message) (v : Tally) (r : Raft)
      : Type 0 where
    told : Told es a t₀ ms v r
    stays : Stays l r
    arrives :
        (k : ℕ)
        → contains k v.0 ≡ true
        → (elem k (map (λ m. m.from) ms) ≡ true) ⊎ Ahead k (length es) r

  front :
      (m : Message) (ms : List Message) (r : Raft)
      → r.recvmsgs ≡ m ∷ ms
      → step_node r ≡ general_step m (record r { recvmsgs = ms })
  unfolding step_node step_front
  front m ms r e = rw e refl

  step_node-Settles :
      (es : List Entry) (a t₀ : ℕ) (m : Message) (ms : List Message) (v : Tally) (r : Raft)
      → AllAcknowledge (length es) (m ∷ ms)
      → 0 < length es
      → length es < 2147483648
      → Settles es a t₀ (m ∷ ms) v r
      → Returns (Settles es a t₀ ms (acknowledge m.from (length es) v)) (step_node r)
  step_node-Settles es a t₀ m ms v r all p b h =
      let n = length es in
      let r' = record r { recvmsgs = ms } in
      let (s, e, told) =
        Returns-ok (Told es a t₀ ms (acknowledge m.from n v)) (step_node r)
          (step_node-Told es a t₀ m ms v r all p (omega (arith, b)) h.told) in
      let same : general_step m r' ≡ ok s = sym (front m ms r h.told.inbox) ∙ e in
      let fixed : Stays l r' = ground (arith, h.stays) in
      rw e (record {
        told = told;
        stays = rw same at (general_step-Stays m r' all.0 all.1 fixed);
        arrives = λ k c.
            let c' : contains k v.0 ≡ true = sym (contains-acknowledge m.from k n v) ∙ c in
            let known : contains k r.prs ≡ true =
              sym (contains-reached k r.prs)
              ∙ ap (λ (x : Tally). contains k x.0) h.told.tally_eq
              ∙ c' in
            let step = λ (w : Arrives k n m r'). rw same at (
              general_step-Ahead k n m r' h.told.leads all.0 all.1 all.2 all.3
                (ap length h.told.entries_eq) b (ground (arith, h.told.sound)) known w) in
            elim (Bool-cases (m.from == k)) [
              | inl f ↦ inr (step (inl f))
              | inr f ↦ elim (h.arrives k c') [
                | inl g ↦ inl (ground (arith, f, g))
                | inr g ↦ inr (step (inr (ground (arith, g))))
              ]
            ];
      })

  step_times-Settles :
      (es : List Entry) (a t₀ : ℕ) (ms : List Message) (v : Tally) (r : Raft)
      → AllAcknowledge (length es) ms
      → 0 < length es
      → length es < 2147483648
      → Settles es a t₀ ms v r
      → Returns
          (Settles es a t₀ [] (acknowledge_all (map (λ m. m.from) ms) (length es) v))
          (step_times (length ms) r)
  unfolding step_times
  step_times-Settles es a t₀ [] v r all p b h = h
  step_times-Settles es a t₀ (m ∷ ms) v r all p b h =
      Returns-bind (Settles es a t₀ ms (acknowledge m.from (length es) v))
        (Settles es a t₀ [] (acknowledge_all (map (λ m. m.from) (m ∷ ms)) (length es) v))
        (step_node r) _ (step_node-Settles es a t₀ m ms v r all p b h)
        (λ s k. step_times-Settles es a t₀ ms (acknowledge m.from (length es) v) s all.4 p b k)

  -- A leader with the same term, id, storage and peers, which it believes to hold its whole log.
  pub record Settled (s : Raft) : Type 0 where
    pub stays : Stays l s
    pub same_peers : (k : ℕ) → contains k s.prs ≡ contains k l.prs
    pub ahead : (k : ℕ) → contains k l.prs ≡ true → Ahead k (length l.entries) s

  -- A broadcast of a leader's log, and the answers of all its peers.
  pub step_times-Settled :
      (order : List ℕ) (l₁ : Raft)
      → Sound l
      → IsPlain l
      → l.step ≡ step_leader_function
      → Distinct l.prs
      → 0 < length l.entries
      → ((k : ℕ) → contains k l.prs ≡ true → elem k order ≡ true)
      → bcast_append l ≡ ok l₁
      → Returns Settled (step_times (length order) (record l₁ { recvmsgs = map (answer l) order }))
  step_times-Settled order l₁ v plain s d p cover e =
      let n = length l.entries in
      let ms = map (answer l) order in
      let ids = map (λ m. m.from) ms in
      let (u, f, w, same) = bcast_append-Sound l v plain s d in
      let a = record l { prs = u; sendmsgs = l.sendmsgs ++ appends l l.prs } in
      let r = record a { recvmsgs = ms } in
      let known = λ (k : ℕ). ap (contains k) same ∙ contains-reached k l.prs in
      let start : Settles l.entries l.last_applied l.current_term ms (tally r) r = record {
        told = record {
          sound = ground (arith, w);
          leads = s;
          entries_eq = refl;
          applied_eq = refl;
          term_le = omega arith;
          inbox = refl;
          tally_eq = refl;
        };
        stays = record { leads = s; term_eq = refl; id_eq = refl; storage_eq = refl };
        arrives = λ k c. inl (elem-answers l k order ∙ cover k (sym (known k) ∙ c));
      } in
      let done =
        step_times-Settles l.entries l.last_applied l.current_term ms (tally r) r
          (AllAcknowledge-answers l order) p plain.counted start in
      let sent : length ms ≡ length order = length-map (answer l) order in
      subst (λ x. Returns Settled (step_times (length order) (record x { recvmsgs = ms })))
        (same_result (bcast_append l) a l₁ f e)
        (rw sent at (
          Meets-weaken ⊥
            (Settles l.entries l.last_applied l.current_term [] (acknowledge_all ids n (tally r)))
            Settled _ done
            (λ x k.
              let keys = λ (j : ℕ).
                sym (contains-reached j x.prs)
                ∙ ap (λ (y : Tally). contains j y.0) k.told.tally_eq
                ∙ contains-acknowledge_all ids j n (tally r)
                ∙ known j in
              record {
                stays = k.stays;
                same_peers = keys;
                ahead = λ j c.
                    elim (k.arrives j (contains-acknowledge_all ids j n (tally r) ∙ known j ∙ c)) [
                      | inl g ↦ absurd (ground (arith, g))
                      | inr g ↦ g
                    ];
              })))
