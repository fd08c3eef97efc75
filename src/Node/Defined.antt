-- ===== src/Node/Defined.antt =====
-- Every turn of a sound node has a defined result.
use sapphiredb.Base.{
  ℕ, is_empty, ◌≡◌, false, List, [], ◌∷◌, Returns, arith, ◌≤◌, ◌<◌, ◌+◌, length, IsU64, Bool-cases,
  ltb, ltb→lt, inl, inr,
}
use sapphiredb.Storage
use sapphiredb.Storage.Laws.{IsReadable, term-append-Returns}
use sapphiredb.Raft.Log.{applied_to}
use sapphiredb.Raft.Persist.{storage_log, to_store}
use sapphiredb.Raft.Persist.Applied.{NumberedFrom, storage_log_lem}
use sapphiredb.Raft.Persist.Restart.{committed, length-committed}
use sapphiredb.Node.{persist}
use sapphiredb.Proto.{Bytes, Codec, Message, empty_storage_data}
use sapphiredb.Raft.{Raft}
use sapphiredb.Raft.Members.{pop_unknownid, pop_front, empty_unknownid}
use sapphiredb.Raft.Tick.{tick_node}
use sapphiredb.Raft.Mailbox.{
  step_node, step_front, try_pop_sendbuf, try_push_recvbuf, propose, pop_send,
}
use sapphiredb.Raft.Sound.{Sound, Fits, Answers}
use sapphiredb.Raft.Sound.Total.{general_step-Sound}
use sapphiredb.Raft.Sound.Clock.{tick_node-Sound}

-- The oldest message of an inbox, if there is one, fits the node.
abbrev pub FitsFirst : List Message → Raft → Type 0
FitsFirst [] r = Unit
FitsFirst (m ∷ ms) r = Fits m r

module _ ⦃c : Codec⦄ where
  step_front-Sound :
      (ms : List Message) (r : Raft) → Sound r → FitsFirst ms r → Returns Sound (step_front ms r)
  unfolding step_front
  step_front-Sound [] r v f = v
  step_front-Sound (m ∷ ms) r v f =
      general_step-Sound m (record r { recvmsgs = ms }) (ground (arith, v)) (ground (arith, f))

  pop_send-Sound : (ms : List Message) (r : Raft) → Sound r → Sound (pop_send ms r).1
  unfolding pop_send
  pop_send-Sound [] r v = v
  pop_send-Sound (m ∷ ms) r v = ground (arith, v)

  pop_front-Sound :
      (ids : List ℕ) (r : Raft)
      → Sound r
      → is_empty ids ≡ false
      → Returns (λ res. Sound (res.1)) (pop_front ids r)
  unfolding pop_front
  pop_front-Sound [] r v e = ground arith
  pop_front-Sound (id ∷ ids) r v e = ground (arith, v)

  persist-Sound :
      (r : Raft)
      → Sound r
      → NumberedFrom 1 r.entries
      → r.commit_index ≤ length r.entries
      → IsU64 (length r.entries + 1)
      → (r.last_applied < r.commit_index
          → IsReadable (c.write_storage (record empty_storage_data { entries = committed r })))
      → Returns Sound (persist r)
  unfolding persist
  persist-Sound r v n l b w = elim (Bool-cases (ltb r.last_applied r.commit_index)) [
    | inl k ↦
        let less = ltb→lt _ _ k in
        let p = length-committed r l in
        let a : Answers (Storage.append (committed r) r.storage) =
          λ i. term-append-Returns (committed r) r.storage i (w less) (omega (arith, p)) in
        rw (storage_log_lem r n less l (omega arith)) (ground (arith, v, a))
    | inr k ↦ unfold storage_log to_store applied_to in rw k (ground (arith, v))
  ]

  -- For a sound node whose oldest message, if there is one, fits it, which has an unknown id, and whose
  -- log, below 2 ^ 64 entries, is numbered from 1, holds all that is committed, and can be read back
  -- from the file in which its committed entries that are not applied are written, if there are any: a
  -- tick, the handling of that message, the taking of that id and the writing of the log have a
  -- defined result, and the node is sound after each of them, and after the sending, the receiving and
  -- the proposing of any bytes.
  pub turns-Sound :
      (r : Raft) (text op : Bytes)
      → Sound r
      → FitsFirst r.recvmsgs r
      → empty_unknownid r ≡ false
      → NumberedFrom 1 r.entries
      → r.commit_index ≤ length r.entries
      → IsU64 (length r.entries + 1)
      → (r.last_applied < r.commit_index
          → IsReadable (c.write_storage (record empty_storage_data { entries = committed r })))
      → Returns Sound (tick_node r)
        × Returns Sound (step_node r)
        × Returns (λ res. Sound (res.1)) (pop_unknownid r)
        × Returns Sound (persist r)
        × Sound (try_pop_sendbuf r).1
        × Sound (try_push_recvbuf text r).1
        × Sound (propose op r).1
  unfolding step_node pop_unknownid empty_unknownid try_pop_sendbuf try_push_recvbuf propose
  turns-Sound r text op v f e n l b w = (
    tick_node-Sound r v,
    step_front-Sound r.recvmsgs r v f,
    pop_front-Sound r.unknownid r v e,
    persist-Sound r v n l b w,
    pop_send-Sound r.sendmsgs r v,
    ground (arith, v),
    ground (arith, v),
  )
