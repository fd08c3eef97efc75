-- ===== src/Raft/Replicate/Heartbeats.antt =====
-- What a broadcast of heartbeats puts into the queue.
use mathlib.Core.List.{append-nil, append_assoc}
use sapphiredb.Base.{
  ℕ, ◌≡◌, refl, ◌∙◌, ap, sym, true, List, [], ◌∷◌, ◌++◌, ok, arith, ◌==◌, if◌then◌else◌, min, inl,
  inr, Bool-cases,
}
use sapphiredb.Base.Table.{AllIn, AllIn-self, Table, contains, assign_self}
use sapphiredb.Proto.{Message, empty_message, msg_heartbeat}
use sapphiredb.Progress.{Progress, zero_progress}
use sapphiredb.Raft.{Raft}
use sapphiredb.Raft.Replicate.{
  progress_of, send_heartbeat, heartbeat_peer, for_each_progress, bcast_heartbeat,
}

-- A heartbeat tells a peer no more than what is committed and what the peer is known to hold.
abbrev pub heartbeat : ℕ → Raft → Message
heartbeat to r = record empty_message {
  from = r.id;
  to = to;
  term = r.current_term;
  type = msg_heartbeat;
  commit = min (progress_of to r).match r.commit_index;
}

-- One heartbeat for each entry of a table but the node's own.
unfoldable pub heartbeats : Raft → Table Progress → List Message
heartbeats r [] = []
heartbeats r ((id, p) ∷ t) = if id == r.id then heartbeats r t else heartbeat id r ∷ heartbeats r t

abbrev sending : List Message → Raft → Raft
sending ms r = record r { sendmsgs = r.sendmsgs ++ ms }

send_heartbeat_lem :
    (id : ℕ) (r : Raft)
    → contains id r.prs ≡ true
    → send_heartbeat id [] r ≡ sending (heartbeat id r ∷ []) r
unfolding send_heartbeat
send_heartbeat_lem id r h = ground (arith, assign_self zero_progress id r.prs h)

heartbeats-sending :
    (ms : List Message) (r : Raft) (t : Table Progress)
    → heartbeats (sending ms r) t ≡ heartbeats r t
unfolding heartbeats
heartbeats-sending ms r [] = refl
heartbeats-sending ms r ((id, p) ∷ t) = ground (arith, heartbeats-sending ms r t)

loop-heartbeats :
    (t : Table Progress) (r : Raft)
    → AllIn t r.prs
    → for_each_progress heartbeat_peer t r ≡ ok (sending (heartbeats r t) r)
unfolding for_each_progress heartbeat_peer heartbeats
loop-heartbeats [] r h = ap (λ ms. ok (record r { sendmsgs = ms })) (sym (append-nil r.sendmsgs))
loop-heartbeats ((id, p) ∷ t) r h = elim (Bool-cases (id == r.id)) [
  | inl e ↦ rw e (loop-heartbeats t r h.1)
  | inr e ↦
      rw (e, send_heartbeat_lem id r h.0)
        (loop-heartbeats t (sending (heartbeat id r ∷ []) r) h.1
          ∙ rw (heartbeats-sending (heartbeat id r ∷ []) r t) (
              ap (λ ms. ok (record r { sendmsgs = ms }))
                (append_assoc r.sendmsgs (heartbeat id r ∷ []) (heartbeats r t))))
]

-- A broadcast puts one heartbeat for each other node of the table into the queue, and changes
-- nothing else.
pub bcast_heartbeat_lem : (r : Raft) → bcast_heartbeat r ≡ ok (sending (heartbeats r r.prs) r)
unfolding bcast_heartbeat heartbeats
bcast_heartbeat_lem r = ground (arith, loop-heartbeats r.prs r (AllIn-self r.prs))

pub heartbeats-counters :
    (h e : ℕ) (r : Raft) (t : Table Progress)
    → heartbeats (record r { heartbeat_elapsed = h; election_elapsed = e }) t ≡ heartbeats r t
unfolding heartbeats
heartbeats-counters h e r [] = refl
heartbeats-counters h e r ((id, p) ∷ t) = ground (arith, heartbeats-counters h e r t)
