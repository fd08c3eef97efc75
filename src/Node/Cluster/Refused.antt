-- ===== src/Node/Cluster/Refused.antt =====
-- A `MsgApp` behind an entry whose term is not the one that the follower is in.
use sapphiredb.Base.{
  ℕ, ◌+◌, ◌≤◌, ◌≡◌, ◌≢◌, refl, ap, ◌∙◌, true, false, some, List, [], ◌∷◌, ◌++◌, ok, length, Returns,
  Returns-bind, Returns-ok, drop_of_append, ◌>>=◌, Outcome, Bool, zero, suc, Meets-weaken,
  if◌then◌else◌, ltb, map, drop, arith,
}
use sapphiredb.Base.Table.{contains, at_or-assign, contains-assign}
use sapphiredb.Proto.{Codec, Entry, Message, empty_message, msg_app_resp}
use sapphiredb.Progress.{Progress, zero_progress, progress_state_probe, set_recent_active}
use sapphiredb.Raft.{Raft, step_leader_function, step_follower_function, send}
use sapphiredb.Raft.Replicate.{
  progress_of, put_progress, send_append, update_after_send, after_send, message_entry,
}
use sapphiredb.Raft.Replicate.Append.{
  IsPlain, prev_term, app_message, prev_entry-prev_term, entries_from-drop,
}
use sapphiredb.Node.Cluster.{queued}
use sapphiredb.Raft.Log.{maybe_append}
use sapphiredb.Raft.Leader.{
  step_leader, leader_dispatch, leader_peer, leader_app_resp, leader_heartbeat_resp,
}
use sapphiredb.Raft.Step.{
  general_step, dispatch, call_step, step_follower, follower_dispatch, handle_app, follow_app,
}

-- A leader and a follower that go on: the leader sends the follower the entries that it believes it to
-- lack, the follower handles what the leader has queued, and the leader what the follower has queued.
module _ ⦃c : Codec⦄ where
  abbrev pub handle_all : List Message → Raft → Outcome Raft
  handle_all [] r = ok r
  handle_all (m ∷ ms) r = general_step m r >>= λ s. handle_all ms s

  abbrev pub attempt : Raft → Raft → Outcome (Raft × Raft)
  attempt l f = send_append f.id l >>= λ l₁.
      handle_all (queued l l₁) f >>= λ f₁. handle_all (queued f f₁) l₁ >>= λ l₂. ok (l₂, f₁)

  abbrev pub attempts : ℕ → Raft → Raft → Outcome (Raft × Raft)
  attempts zero l f = ok (l, f)
  attempts (suc k) l f = attempt l f >>= λ x. attempts k x.0 x.1

-- The answer of a node that does not take the entries after the first `n`.
abbrev pub refusal : ℕ → ℕ → ℕ → Message
refusal n from to = record empty_message {
  from = from;
  to = to;
  type = msg_app_resp;
  reject = true;
  index = n;
}

-- What a leader is after the refusal of a peer.
record Noted (id : ℕ) (r s : Raft) : Type 0 where
  entries_eq : s.entries ≡ r.entries
  offset_eq : s.offset ≡ r.offset
  step_eq : s.step ≡ r.step
  term_eq : s.current_term ≡ r.current_term
  id_eq : s.id ≡ r.id
  commit_eq : s.commit_index ≡ r.commit_index
  known : contains id s.prs ≡ true
  match_eq : (progress_of id s).match ≡ (progress_of id r).match
  next_eq : (progress_of id s).next ≡ (progress_of id r).next
  state_eq : (progress_of id s).state ≡ (progress_of id r).state

put_progress-Noted :
    (id : ℕ) (q : Progress) (r : Raft)
    → q.match ≡ (progress_of id r).match
    → q.next ≡ (progress_of id r).next
    → q.state ≡ (progress_of id r).state
    → Noted id r (put_progress id q r)
unfolding put_progress
put_progress-Noted id q r m n s =
    ground (arith, at_or-assign zero_progress id id q r.prs, contains-assign id id q r.prs)

send-Noted : (id : ℕ) (m : Message) (r s : Raft) → Noted id r s → Noted id r (send m s)
unfolding send
send-Noted id m r s h = ground (arith, h)

Noted-trans : (id : ℕ) (r s u : Raft) → Noted id r s → Noted id s u → Noted id r u
Noted-trans id r s u h k = ground (arith, h, k)

module _ ⦃c : Codec⦄ (n t : ℕ) where
  follower-refuses :
      (l f : Raft)
      → f.step ≡ step_follower_function
      → f.commit_index ≤ n
      → f.current_term ≢ t
      → general_step (app_message f.id n t l) f
        ≡ ok (send (refusal n f.id l.id) (record f { election_elapsed = 0; leader = l.id }))
  unfolding general_step dispatch call_step step_follower follower_dispatch handle_app follow_app
      maybe_append
  follower-refuses l f s b d = ground arith

module _ ⦃c : Codec⦄ (n t id : ℕ) where
  update-probe :
      (es : List Entry) (p : Progress)
      → p.state ≡ progress_state_probe
      → update_after_send es p ≡ ok p
  unfolding update_after_send after_send
  update-probe [] p h = refl
  update-probe (e ∷ es) p h = rw h refl

  -- Sending to a peer that is being probed leaves what is known of it as it was.
  probe-send_append :
      (r : Raft)
      → IsPlain r
      → (progress_of id r).next ≡ n + 1
      → (progress_of id r).state ≡ progress_state_probe
      → n ≤ length r.entries
      → prev_term n r ≡ some t
      → send_append id r ≡ ok (send (app_message id n t r) (put_progress id (progress_of id r) r))
  unfolding send_append
  probe-send_append r p e s k h =
      rw
        (
          e,
          prev_entry-prev_term n t r p k h,
          entries_from-drop n r.entries k p.counted,
          update-probe (map message_entry (drop n r.entries)) (progress_of id r) s,
        )
        refl

  -- A node that could send the entries to the peer, which it is probing.
  pub record Probes (r : Raft) : Type 0 where
    pub plain : IsPlain r
    pub next_eq : (progress_of id r).next ≡ n + 1
    pub probed : (progress_of id r).state ≡ progress_state_probe
    pub next_le : n ≤ length r.entries
    pub prev_eq : prev_term n r ≡ some t

  Noted-Probes : (r s : Raft) → Noted id r s → Probes r → Probes s
  Noted-Probes r s h v = record {
    plain = record {
      from_one = h.offset_eq ∙ v.plain.from_one;
      counted = rw h.entries_eq v.plain.counted;
      termed = rw h.entries_eq v.plain.termed;
    };
    next_eq = h.next_eq ∙ v.next_eq;
    probed = h.state_eq ∙ v.probed;
    next_le = rw h.entries_eq v.next_le;
    prev_eq = same_term n h.entries_eq h.term_eq ∙ v.prev_eq;
  }
    where
      same_term :
          (k : ℕ)
          → s.entries ≡ r.entries
          → s.current_term ≡ r.current_term
          → prev_term k s ≡ prev_term k r
      same_term zero e u = ap some u
      same_term (suc k) e u = rw e refl

  sends-Noted :
      (r : Raft)
      → Probes r
      → (u : Raft) × (send_append id r ≡ ok u)
        × Noted id r u
        × (u.sendmsgs ≡ r.sendmsgs ++ app_message id n t r ∷ [])
  unfolding send put_progress
  sends-Noted r v = (
    _,
    probe-send_append r v.plain v.next_eq v.probed v.next_le v.prev_eq,
    send-Noted id _ r _ (put_progress-Noted id (progress_of id r) r refl refl refl),
    refl,
  )

  heartbeat_resp-Noted :
      (m : Message) (r : Raft)
      → m.from ≡ id
      → Probes r
      → Returns (Noted id r) (leader_heartbeat_resp m r)
  unfolding leader_heartbeat_resp set_recent_active
  heartbeat_resp-Noted m r e v =
      let p = set_recent_active (progress_of id r) in
      let r₁ = put_progress id p r in
      let h = put_progress-Noted id p r refl refl refl in
      let (u, sent, h', _) = sends-Noted r₁ (Noted-Probes r r₁ h v) in
      rw e (if-both (ltb p.match r.last_applied) _ _ (rw sent (Noted-trans id r r₁ u h h')) h)
    where
      if-both :
          (b : Bool) (m m' : Outcome Raft)
          → Returns (Noted id r) m
          → Returns (Noted id r) m'
          → Returns (Noted id r) (if b then m else m')
      if-both true m m' h k = h
      if-both false m m' h k = k

  -- A leader takes note of a refusal that its sender is active, and may send again.
  leader-refused :
      (r : Raft)
      → Probes r
      → r.step ≡ step_leader_function
      → contains id r.prs ≡ true
      → Returns (Noted id r) (general_step (refusal n id r.id) r)
  unfolding general_step dispatch call_step step_leader leader_dispatch leader_peer leader_app_resp
  leader-refused r v lead k =
      let p = set_recent_active (progress_of id r) in
      let r₁ = put_progress id p r in
      let h : Noted id r r₁ =
        unfold set_recent_active in put_progress-Noted id _ r refl refl refl in
      let go =
        Meets-weaken ⊥ (Noted id r₁) (Noted id r) _
          (heartbeat_resp-Noted (refusal n id r.id) r₁ refl (Noted-Probes r r₁ h v))
          (λ u w. Noted-trans id r r₁ u h w) in
      rw (lead, k) (rw lead at go)

-- A leader that probes a follower which is in another term than the one that goes with the entries.
pub record Stuck ⦃c : Codec⦄ (n t : ℕ) (l f : Raft) : Type 0 where
  pub leads : l.step ≡ step_leader_function
  pub is_peer : contains f.id l.prs ≡ true
  pub probes : Probes n t f.id l
  pub follows : f.step ≡ step_follower_function
  pub commit_le : f.commit_index ≤ n
  pub other_term : f.current_term ≢ t

-- Nothing has come of it.
pub record Same (l f l' f' : Raft) : Type 0 where
  same_node : f'.id ≡ f.id
  held : f'.entries ≡ f.entries
  in_term : f'.current_term ≡ f.current_term
  log_eq : l'.entries ≡ l.entries
  commit_eq : l'.commit_index ≡ l.commit_index
  match_eq : (progress_of f.id l').match ≡ (progress_of f.id l).match
  next_eq : (progress_of f.id l').next ≡ (progress_of f.id l).next

Same-trans : (l f l' f' l'' f'' : Raft) → Same l f l' f' → Same l' f' l'' f'' → Same l f l'' f''
Same-trans l f l' f' l'' f'' h k = ground (arith, h, k)

module _ ⦃c : Codec⦄ (n t : ℕ) where
  attempt-refused :
      (l f : Raft)
      → Stuck n t l f
      → Returns (λ x. Stuck n t (x.0) (x.1) × Same l f (x.0) (x.1)) (attempt l f)
  unfolding send
  attempt-refused l f v =
      let (u, sent, h, mail) = sends-Noted n t f.id l v.probes in
      let refused = follower-refuses n t l f v.follows v.commit_le v.other_term in
      let now : queued l u ≡ app_message f.id n t l ∷ [] =
        ap (drop (length l.sendmsgs)) mail ∙ drop_of_append l.sendmsgs _ in
      let back : drop (length f.sendmsgs) (f.sendmsgs ++ refusal n f.id l.id ∷ [])
          ≡ refusal n f.id l.id ∷ [] =
        drop_of_append f.sendmsgs _ in
      let (s, taken, h') = Returns-ok (Noted f.id u) (general_step (refusal n f.id u.id) u) (
        leader-refused n t f.id u (Noted-Probes n t f.id l u h v.probes) (h.step_eq ∙ v.leads)
          h.known) in
      let said : general_step (refusal n f.id l.id) u ≡ ok s = rw h.id_eq at taken in
      let g = Noted-trans f.id l u s h h' in
      rw (sent, now, refused, back, said)
        (
          record {
            leads = g.step_eq ∙ v.leads;
            is_peer = g.known;
            probes = Noted-Probes n t f.id l s g v.probes;
            follows = v.follows;
            commit_le = v.commit_le;
            other_term = v.other_term;
          },
          record {
            same_node = refl;
            held = refl;
            in_term = refl;
            log_eq = g.entries_eq;
            commit_eq = g.commit_eq;
            match_eq = g.match_eq;
            next_eq = g.next_eq;
          },
        )

  -- A leader probes a follower, which it believes to be `n` entries along, and which has committed no
  -- more. The leader's log has these entries, starts at 1, is one that an `int` can count, and its
  -- entries have terms; but the follower is in another term than that of the last of them, or, if `n`
  -- is 0, than the leader. Then the leader may send it the entries as often as it likes, where each time
  -- the follower handles what the sending has queued, and the leader what that has queued: all this has
  -- a defined result, and the follower's log and term, the leader's log and commit index, and how far
  -- the leader believes the follower to be stay as they were, whatever entries the follower holds.
  pub attempts-Same :
      (k : ℕ) (l f : Raft) → Stuck n t l f → Returns (λ x. Same l f x.0 x.1) (attempts k l f)
  attempts-Same zero l f v = ground arith
  attempts-Same (suc k) l f v =
      Returns-bind (λ x. Stuck n t x.0 x.1 × Same l f x.0 x.1) (λ y. Same l f y.0 y.1) (attempt l f)
        _ (attempt-refused l f v)
        (λ x (w, h).
          Meets-weaken ⊥ (λ y. Same x.0 x.1 y.0 y.1) (λ y. Same l f y.0 y.1) (attempts k x.0 x.1)
            (attempts-Same k x.0 x.1 w) (λ y g. Same-trans l f x.0 x.1 y.0 y.1 h g))
