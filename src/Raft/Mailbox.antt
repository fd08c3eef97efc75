-- ===== src/Raft/Mailbox.antt =====
-- raft.cc: the queues between a node's threads and the network. Each operation is one critical
-- section of the source.
pub mod Delivery
use sapphiredb.Base.{
  ℕ, Bool, true, false, List, [], ◌∷◌, ◌++◌, Outcome, ok, if◌then◌else◌, is_empty,
}
use sapphiredb.Proto.{Bytes, Codec, Message, empty_entry, empty_message, msg_prop}
use sapphiredb.Raft.{Raft}
use sapphiredb.Raft.Step.{general_step}

pub record Sendstruct : Type 0 where
  pub msg : Bytes
  pub to : ℕ

unfoldable pub is_send_empty : Raft → Bool
is_send_empty r = is_empty r.sendmsgs

unfoldable pub is_recv_empty : Raft → Bool
is_recv_empty r = is_empty r.recvmsgs

module _ ⦃c : Codec⦄ where
  unfoldable pub step_front : List Message → Raft → Outcome Raft
  step_front [] r = ok r
  step_front (m ∷ ms) r = general_step m (record r { recvmsgs = ms })

  unfoldable pub step_node : Raft → Outcome Raft
  unfolding step_front
  step_node r = step_front r.recvmsgs r

  unfoldable pub pop_send : List Message → Raft → Sendstruct × Raft
  pop_send [] r = (record { msg = []; to = 0 }, r)
  pop_send (m ∷ ms) r = (record { msg = c.write_message m; to = m.to }, record r { sendmsgs = ms })

  unfoldable pub try_pop_sendbuf : Raft → Sendstruct × Raft
  unfolding pop_send
  try_pop_sendbuf r = pop_send r.sendmsgs r

  unfoldable pub try_push_recvbuf : Bytes → Raft → Bool × Raft
  try_push_recvbuf text r =
      if is_empty text
      then (false, r)
      else (true, record r { recvmsgs = r.recvmsgs ++ c.read_message text ∷ [] })

unfoldable pub propose : Bytes → Raft → Bool × Raft
propose op r =
    if is_empty op
    then (false, r)
    else (let entry = record empty_entry { bytes = op } in
        let msg = record empty_message { type = msg_prop; entries = entry ∷ [] } in
        (true, record r { recvmsgs = r.recvmsgs ++ msg ∷ [] }))
