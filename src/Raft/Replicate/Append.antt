-- ===== src/Raft/Replicate/Append.antt =====
-- What a `MsgApp` does at both ends.
use sapphiredb.Base.{
  ℕ, zero, suc, ◌+◌, ◌-◌, ◌≤◌, ◌<◌, ◌≡◌, ◌≢◌, refl, sym, ap, ◌∙◌, inl, inr, true, Option, none,
  some, List, [], ◌∷◌, ◌++◌, map, ok, IsU64, length, take, drop, get_elem?, arith, sub64,
  through_int, Option-cases, length-map, length-drop, map-append, take-append-drop,
}
use sapphiredb.Proto.{Codec, Entry, Message, empty_message, msg_app, msg_app_resp}
use sapphiredb.Progress.{
  Progress, progress_state_probe, progress_state_replicate, optimistic_update, ProgressStateType,
  progress_state_unset, progress_state_snapshot,
}
use sapphiredb.Raft.{Raft, send, set_ready}
use sapphiredb.Raft.Log.{term, maybe_append}
use sapphiredb.Raft.Log.Entries.{maybe_term-entry_at}
use sapphiredb.Raft.Replicate.{
  progress_of, put_progress, send_append, prev_entry, entries_from, update_after_send, after_send,
  message_entry,
}
use sapphiredb.Raft.Step.{handle_app, stored_entry}
use mathlib.Core.Path.{ap₂, ◌≡⟨◌⟩◌, ◌∎}

-- A log that starts at index 1, whose entries have terms, and which an `int` can count.
pub record IsPlain (r : Raft) : Type 0 where
  pub from_one : r.offset ≡ 1
  pub counted : length r.entries < 2147483648
  pub termed : (i : ℕ) (e : Entry) → get_elem? r.entries i ≡ some e → 0 < e.term

-- The term that goes with the entries after the first `n`.
abbrev pub prev_term : ℕ → Raft → Option ℕ
prev_term zero r = some r.current_term
prev_term (suc n) r = elim (get_elem? r.entries n) [ none ↦ none | some e ↦ some e.term ]

-- The message with all entries after the first `n`.
abbrev pub app_message : ℕ → ℕ → ℕ → Raft → Message
app_message to n t r = record empty_message {
  from = r.id;
  to = to;
  type = msg_app;
  index = n;
  log_term = t;
  commit = r.commit_index;
  entries = map message_entry (drop n r.entries);
}

after_send-defined :
    (st : ProgressStateType) (i : ℕ) (p : Progress)
    → st ≢ progress_state_unset
    → (q : Progress) × (after_send st i p ≡ ok q)
unfolding after_send
after_send-defined progress_state_unset i p h = absurd (h refl)
after_send-defined progress_state_probe i p h = (p, refl)
after_send-defined progress_state_replicate i p h = (optimistic_update i p, refl)
after_send-defined progress_state_snapshot i p h = (p, refl)

update_after_send-defined :
    (es : List Entry) (p : Progress)
    → p.state ≢ progress_state_unset
    → (q : Progress) × (update_after_send es p ≡ ok q)
unfolding update_after_send
update_after_send-defined [] p h = (p, refl)
update_after_send-defined (e ∷ es) p h = after_send-defined p.state _ p h

through_int-sub64 : (n : ℕ) → n < 2147483648 → through_int (sub64 (n + 1) 1) ≡ n
through_int-sub64 n h = ground arith

pub entries_from-drop :
    (n : ℕ) (es : List Entry)
    → n ≤ length es
    → length es < 2147483648
    → entries_from (n + 1) es ≡ map message_entry (drop n es)
unfolding entries_from
entries_from-drop n es h b =
    ap (λ k. map message_entry (drop k es)) (through_int-sub64 n (omega arith))

module _ ⦃c : Codec⦄ where
  pub prev_entry-prev_term :
      (n t : ℕ) (r : Raft)
      → IsPlain r
      → n ≤ length r.entries
      → prev_term n r ≡ some t
      → prev_entry (n + 1) r ≡ ok (n, t)
  unfolding prev_entry term
  prev_entry-prev_term zero t r p l h = ground arith
  prev_entry-prev_term (suc n) t r p l h = elim (Option-cases (get_elem? r.entries n)) [
    | inl e ↦ ground arith
    | inr (e, h') ↦
        ground (arith, maybe_term-entry_at (n + 1) r e, p.termed n e h', p.from_one, p.counted)
  ]

  pub send_append_lem :
      (to n t : ℕ) (r : Raft)
      → IsPlain r
      → (progress_of to r).next ≡ n + 1
      → (progress_of to r).state ≢ progress_state_unset
      → n ≤ length r.entries
      → prev_term n r ≡ some t
      → (q : Progress) × (send_append to r ≡ ok (send (app_message to n t r) (put_progress to q r)))
  unfolding send_append
  send_append_lem to n t r p e s l h =
      let (q, d) =
        update_after_send-defined (map message_entry (drop n r.entries)) (progress_of to r) s in
      (q, rw (e, prev_entry-prev_term n t r p l h, entries_from-drop n r.entries l p.counted, d))

-- An entry without its type, which the copies into a message and into a log do not keep.
abbrev pub content : List Entry → List Entry
content = map stored_entry

content-received : (es : List Entry) → content (content (map message_entry es)) ≡ content es
unfolding stored_entry message_entry
content-received [] = refl
content-received (e ∷ es) = ap (◌∷◌ (stored_entry e)) (content-received es)

-- A follower takes the entries if its log reaches up to them and its term is the one that goes with
-- them: it cuts its log there, appends them, and answers with the index of the last one.
pub handle_app_accepts :
    (m : Message) (f : Raft)
    → f.commit_index ≤ m.index
    → m.index ≤ length f.entries
    → f.current_term ≡ m.log_term
    → 0 < m.index + length m.entries
    → IsU64 (m.index + length m.entries)
    → handle_app m f
      ≡ set_ready (
          send
            (record empty_message {
              from = f.id;
              to = m.from;
              type = msg_app_resp;
              index = m.index + length m.entries;
            })
            (record f { entries = take m.index f.entries ++ map stored_entry m.entries }))
unfolding handle_app maybe_append
handle_app_accepts m f c l t p b = ground (arith, length-map stored_entry m.entries)

-- The follower's log after it has taken what the leader sends after the first `n` entries.
abbrev pub Replicates : ℕ → ℕ → Raft → Raft → Type 0
Replicates n t l f =
    (content (handle_app (app_message f.id n t l) f).entries ≡ content l.entries)
    × ((handle_app (app_message f.id n t l) f).ready ≡ true)

pub handle_app-Replicates :
    (n t : ℕ) (l f : Raft)
    → f.commit_index ≤ n
    → n ≤ length f.entries
    → n ≤ length l.entries
    → 0 < length l.entries
    → length l.entries < 2147483648
    → f.current_term ≡ t
    → content (take n f.entries) ≡ content (take n l.entries)
    → Replicates n t l f
unfolding set_ready send
handle_app-Replicates n t l f c k k' p b e h =
    rw
      (handle_app_accepts (app_message f.id n t l) f c k e (omega (arith, sent))
        (omega (arith, sent)))
      (
        content (take n f.entries ++ content (map message_entry (drop n l.entries)))
            ≡⟨ map-append stored_entry _ _ ⟩
              content (take n f.entries) ++ content (content (map message_entry (drop n l.entries)))
            ≡⟨ ap₂ ◌++◌ h (content-received (drop n l.entries)) ⟩
              content (take n l.entries) ++ content (drop n l.entries)
            ≡⟨ sym (map-append stored_entry _ _) ⟩ content (take n l.entries ++ drop n l.entries)
            ≡⟨ ap content (take-append-drop n l.entries) ⟩ content l.entries ∎,
        refl,
      )
  where
    sent : length (map message_entry (drop n l.entries)) ≡ length l.entries - n
    sent = length-map message_entry (drop n l.entries) ∙ length-drop n l.entries

module _ ⦃c : Codec⦄ where
  -- One round of replication. A leader's log is not empty, starts at 1, is one that an `int` can
  -- count, and its entries have terms. The leader believes a peer to be `n` entries along, has a
  -- state for it, and its log has these entries; so has that of the follower, which agrees with
  -- the leader on them, entry types aside, has committed no more than them, and is in the term
  -- that goes with the message: that of the last of them, or the leader's if `n` is 0. Then
  -- `sendAppend` has a defined result, and puts one `MsgApp` into the queue; and once the
  -- follower has handled it, it holds the leader's log, entry types aside, and is ready to store
  -- it.
  pub send_append-Replicates :
      (n t : ℕ) (l f : Raft)
      → IsPlain l
      → (progress_of f.id l).next ≡ n + 1
      → (progress_of f.id l).state ≢ progress_state_unset
      → prev_term n l ≡ some t
      → f.commit_index ≤ n
      → n ≤ length f.entries
      → n ≤ length l.entries
      → 0 < length l.entries
      → f.current_term ≡ t
      → content (take n f.entries) ≡ content (take n l.entries)
      → ((q : Progress) × (send_append f.id l
            ≡ ok (send (app_message f.id n t l) (put_progress f.id q l))))
        × Replicates n t l f
  send_append-Replicates n t l f p e s h c k k' w tt h' = (
    send_append_lem f.id n t l p e s k' h,
    handle_app-Replicates n t l f c k k' w p.counted tt h',
  )
