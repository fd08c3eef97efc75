-- ===== src/Node/Wire/Binds.antt =====
-- What the thread `bindTask` makes of the ids and the descriptors that wait for each other.
use sapphiredb.Base.{ℕ, ◌≡◌, refl, List, [], ◌∷◌, length, drop, through_int, Bool-cases, inl, inr}
use sapphiredb.Base.Table.{Table, assign, contains}
use sapphiredb.Net.{pop_unknownfd, empty_unknownfd}
use sapphiredb.Raft.Members.{pop_unknownid, empty_unknownid}
use sapphiredb.Poll.{runs, Poll}
use sapphiredb.Poll.Epoll
use sapphiredb.Node.Wire.{Node, bind_all, bind_rounds, bind_turn, may_bind}

-- Each id, as an `int32_t` leaves it, with the descriptor at its place, while there are both.
abbrev pub bound : List ℕ → List ℕ → Table ℕ → Table ℕ
bound [] fds t = t
bound (id ∷ ids) [] t = t
bound (id ∷ ids) (fd ∷ fds) t = bound ids fds (assign (through_int id) fd t)

abbrev waiting : Node → List ℕ → List ℕ → Table ℕ → Node
waiting n ids fds t = record {
  raft = record n.raft { unknownid = ids };
  kque = record n.kque { net = record n.kque.net { unknownfd = fds }; peersfd = t };
}

bind_peerfd_lem :
    (id fd : ℕ) (p : Poll)
    → Epoll.bind_peerfd id fd p ≡ record p { peersfd = assign id fd p.peersfd }
unfolding Epoll.bind_peerfd
bind_peerfd_lem id fd p = elim (Bool-cases (contains id p.peersfd)) [
  | inl e ↦ rw e refl
  | inr e ↦ rw e refl
]

bind_rounds-waiting :
    (n : Node) (ids fds : List ℕ) (t : Table ℕ)
    → bind_rounds ids (waiting n ids fds t)
      ≡ runs (waiting n (drop (length fds) ids) (drop (length ids) fds) (bound ids fds t))
unfolding bind_rounds bind_turn may_bind pop_unknownid pop_unknownfd empty_unknownid empty_unknownfd
bind_rounds-waiting n [] [] t = refl
bind_rounds-waiting n [] (fd ∷ fds) t = refl
bind_rounds-waiting n (id ∷ ids) [] t = refl
bind_rounds-waiting n (id ∷ ids) (fd ∷ fds) t =
    rw (bind_peerfd_lem (through_int id) fd (waiting n ids fds t).kque)
      (bind_rounds-waiting n ids fds (assign (through_int id) fd t))

-- The loop ends. The ids that are not known and the descriptors that are not known have been taken in
-- pairs, each list from its oldest on, until one of them was empty; each id, as an `int32_t` leaves it,
-- has the descriptor at its place in the table of peers then, a later pair of one id over an earlier
-- one; and nothing else has changed.
pub bind_all-bound :
    (n : Node)
    → let ids = n.raft.unknownid in
      let fds = n.kque.net.unknownfd in
      bind_all n
      ≡ runs (record {
        raft = record n.raft { unknownid = drop (length fds) ids };
        kque = record n.kque {
          net = record n.kque.net { unknownfd = drop (length ids) fds };
          peersfd = bound ids fds n.kque.peersfd;
        };
      })
unfolding bind_all
bind_all-bound n = bind_rounds-waiting n n.raft.unknownid n.kque.net.unknownfd n.kque.peersfd
