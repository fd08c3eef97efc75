-- ===== src/Raft/Members/Laws.antt =====
-- What the table of peers and the queue of ids hold after an operation.
use sapphiredb.Base.{
  ℕ, ◌<◌, ◌≡◌, refl, ap, false, none, some, [], ◌∷◌, ok, ◌==◌, if◌then◌else◌, arith, through_int,
}
use sapphiredb.Base.Table.{Table, contains, find, assign, erase, find-assign, contains-assign}
use sapphiredb.Progress.{Progress}
use sapphiredb.Raft.{Raft}
use sapphiredb.Raft.Members.{add_node, delete_node, new_progress, push_unknownid, pop_unknownid}

find-contains : (j : ℕ) (t : Table Progress) → contains j t ≡ false → find j t ≡ none
find-contains j [] h = refl
find-contains j ((i, p) ∷ t) h = ground (arith, find-contains j t)

-- Adding a node gives it a new progress, unless the table has one for it, which is kept; every
-- other node's progress is as it was.
pub find-add_node :
    (id j : ℕ) (r : Raft)
    → find j (add_node id r).prs ≡ (
        if id == j
        then (if contains id r.prs then find id r.prs else some (new_progress r.last_applied))
        else find j r.prs)
unfolding add_node
find-add_node id j r = ground (arith, find-assign id j (new_progress r.last_applied) r.prs)

erase-assign :
    (id : ℕ) (p : Progress) (t : Table Progress)
    → contains id t ≡ false
    → erase id (assign id p t) ≡ t
erase-assign id p [] h = ground arith
erase-assign id p ((i, q) ∷ t) h = ground (arith, erase-assign id p t)

-- Deleting a node that was not in the table before it was added leaves the state as it was.
pub delete_node-add_node :
    (id : ℕ) (r : Raft) → contains id r.prs ≡ false → delete_node id (add_node id r) ≡ r
unfolding add_node delete_node
delete_node-add_node id r h =
    let p = new_progress r.last_applied in
    ground (
      arith,
      h,
      contains-assign id id p r.prs,
      ap (λ t. record r { prs = t }) (erase-assign id p r.prs h),
    )

through_int_small : (id : ℕ) → id < 2147483648 → through_int id ≡ id
through_int_small id b = ground arith

-- An id below 2 ^ 31 that is pushed into an empty queue is the one that is popped, and the state is
-- as it was.
pub pop_unknownid-push_unknownid :
    (id : ℕ) (r : Raft)
    → id < 2147483648
    → r.unknownid ≡ []
    → pop_unknownid (push_unknownid id r) ≡ ok (id, r)
unfolding pop_unknownid push_unknownid
pop_unknownid-push_unknownid id r b e = rw (through_int_small id b, e, through_int_small id b) refl
