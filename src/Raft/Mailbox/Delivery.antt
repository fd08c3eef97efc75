-- ===== src/Raft/Mailbox/Delivery.antt =====
-- A message on its way from one node to another, and a proposal on its way into the log.
use sapphiredb.Base.{◌≡◌, ◌≢◌, true, List, [], ◌∷◌, ◌++◌, ◌>>=◌, arith, ap}
use sapphiredb.Proto.{Bytes, Codec, Message, empty_entry}
use sapphiredb.Raft.{Raft, step_leader_function, send}
use sapphiredb.Raft.Replicate.{append_entry, bcast_append}
use sapphiredb.Raft.Step.{general_step, dispatch, call_step, step_leader, leader_dispatch}
use sapphiredb.Raft.Mailbox.{try_pop_sendbuf, try_push_recvbuf, step_node, propose}

module _ ⦃c : Codec⦄ where
  -- The oldest message of a queue is the one that is popped, with its receiver, and bytes that are
  -- pushed into the inbox of the other node put that same message at its end; unless the message
  -- takes no bytes at all.
  pub pop-push_lem :
      (m : Message) (ms : List Message) (a b : Raft)
      → a.sendmsgs ≡ m ∷ ms
      → c.write_message m ≢ []
      → let (s, a') = try_pop_sendbuf a in
        (s.to ≡ m.to)
        × (a' ≡ record a { sendmsgs = ms })
        × (try_push_recvbuf s.msg b ≡ (true, record b { recvmsgs = b.recvmsgs ++ m ∷ [] }))
  unfolding try_pop_sendbuf try_push_recvbuf
  pop-push_lem m ms a b e w = ground (arith, c.read-write_message m)

  -- A message that is sent over empty queues is what the receiver's next step handles.
  pub send_reaches :
      (m : Message) (a b : Raft)
      → a.sendmsgs ≡ []
      → b.recvmsgs ≡ []
      → c.write_message m ≢ []
      → step_node (try_push_recvbuf (try_pop_sendbuf (send m a)).0.msg b).1 ≡ general_step m b
  unfolding try_pop_sendbuf try_push_recvbuf step_node send
  send_reaches m a b ea eb w =
      ground
        (arith, c.read-write_message m, ap (λ q. general_step m (record b { recvmsgs = q })) eb)

  -- A proposal that is not empty reaches the log of an idle leader in its next step: it is appended
  -- and sent to the peers.
  pub propose-step_node :
      (op : Bytes) (r : Raft)
      → op ≢ []
      → r.recvmsgs ≡ []
      → r.step ≡ step_leader_function
      → step_node (propose op r).1
        ≡ (append_entry (record empty_entry { bytes = op } ∷ []) r >>= λ s. bcast_append s)
  unfolding propose step_node general_step dispatch call_step step_leader leader_dispatch
  propose-step_node op r n e f = ground (
    arith,
    ap
        (λ q.
          append_entry (record empty_entry { bytes = op } ∷ []) (record r { recvmsgs = q }) >>= λ s.
          bcast_append s)
        e,
  )
