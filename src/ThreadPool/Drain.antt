-- ===== src/ThreadPool/Drain.antt =====
-- After the stop: the workers return, and no task that was accepted is left behind.
use sapphiredb.Base.{
  ℕ, zero, suc, ◌+◌, ◌*◌, ◌<◌, ◌≤◌, ◌≡◌, refl, ◌∙◌, sym, Bool, true, false, ◌||◌, inl, inr, some,
  List, [], ◌∷◌, ◌++◌, is_empty, arith, length, length-append, Bool-cases,
}
use mathlib.Core.List.{append-nil}
use sapphiredb.ThreadPool.{
  ThreadPool, Worker, waiting, running, returned, enqueue, take_front, work, stop_pool, launch,
  joined, Pooled, new_pool, Step, enqueues, works, stops, Steps, here, after,
}
use sapphiredb.ThreadPool.Fifo.{Steps-Fifo}

module _ {Task : Type 0} where
  has_returned : Worker Task → Bool
  has_returned returned = true
  has_returned _ = false

  any_returned : List (Worker Task) → Bool
  any_returned [] = false
  any_returned (w ∷ ws) = has_returned w || any_returned ws

  any_returned-append :
      (us ws : List (Worker Task)) → any_returned (us ++ ws) ≡ (any_returned us || any_returned ws)
  unfolding any_returned
  any_returned-append [] ws = refl
  any_returned-append (u ∷ us) ws = ground (arith, any_returned-append us ws)

  record Ends (s : Pooled Task) : Type 0 where
    threads : 0 < length s.workers
    over : any_returned s.workers ≡ true → (s.pool.stop ≡ true) × (s.pool.tasks ≡ [])

  -- How many steps of the workers are left, if no task is added.
  weight : Worker Task → ℕ
  weight waiting = 1
  weight (running task) = 2
  weight returned = 0

  weights : List (Worker Task) → ℕ
  weights [] = 0
  weights (w ∷ ws) = weight w + weights ws

  unfoldable pub left : Pooled Task → ℕ
  unfolding weights weight
  left s = 2 * length s.pool.tasks + weights s.workers

  weights-append : (us ws : List (Worker Task)) → weights (us ++ ws) ≡ weights us + weights ws
  unfolding weights
  weights-append [] ws = omega arith
  weights-append (u ∷ us) ws = ground (arith, weights-append us ws)

module _ {Task : Type 0} (ends : Task → Bool) where
  -- A worker returns only when the pool is stopped and its queue is empty.
  work-returned :
      (w w' : Worker Task) (p q : ThreadPool Task)
      → work ends w p ≡ some (w', q)
      → (q.stop ≡ p.stop)
        × (has_returned w ≡ false)
        × (p.tasks ≡ [] → q.tasks ≡ [])
        × (has_returned w' ≡ true → (q.stop ≡ true) × (q.tasks ≡ []))
  unfolding work has_returned take_front
  work-returned waiting w' p q e = ground arith
  work-returned (running task) w' p q e = ground arith
  work-returned returned w' p q e = ground arith

  Step-Ends : {s t : Pooled Task} → Step ends s t → Ends s → Ends t
  unfolding enqueue stop_pool any_returned
  Step-Ends {s} (enqueues task p e) h = ground arith
  Step-Ends {s} (works front back w w' p o e) h =
      let (u, v, n, o') = work-returned w w' s.pool p e in
      record {
        threads = ground (arith, length-append front (w ∷ back), length-append front (w' ∷ back));
        over = λ r.
            ground
              (arith, any_returned-append front (w ∷ back), any_returned-append front (w' ∷ back));
      }
  Step-Ends (stops e) h = ground arith

  work-weight :
      (w w' : Worker Task) (p q : ThreadPool Task)
      → work ends w p ≡ some (w', q)
      → 2 * length p.tasks + weight w ≡ suc (2 * length q.tasks + weight w')
  unfolding work weight take_front
  work-weight waiting w' p q e = ground arith
  work-weight (running task) w' p q e = ground arith
  work-weight returned w' p q e = ground arith

  Step-left :
      {s t : Pooled Task}
      → Step ends s t
      → s.pool.stop ≡ true
      → (left s ≡ suc (left t)) × (t.pool.stop ≡ true)
  unfolding left enqueue weights
  Step-left {s} (enqueues task p e) h = ground arith
  Step-left {s} (works front back w w' p o e) h = (
    ground (
      arith,
      o,
      weights-append front (w ∷ back),
      weights-append front (w' ∷ back),
      work-weight w w' s.pool p e,
    ),
    ground (arith, work-returned w w' s.pool p e),
  )
  Step-left (stops e) h = ground arith

  Steps-left :
      (s t : Pooled Task) (n : ℕ)
      → Steps ends s n t
      → s.pool.stop ≡ true
      → (left s ≡ n + left t) × (t.pool.stop ≡ true)
  Steps-left s t n here h = (omega arith, h)
  Steps-left s t n (after {n = k} {t = u} us e) h =
      let (l, r) = Steps-left s u k us h in
      let (l', r') = Step-left e r in (omega (arith, l, l'), r')

  -- A worker that has not returned, with those before it and those behind it.
  first_left :
      (ws : List (Worker Task))
      → joined ws ≡ false
      → (front : List (Worker Task)) × (w : Worker Task) × (back : List (Worker Task)) × (ws
          ≡ front ++ w ∷ back)
        × (has_returned w ≡ false)
  unfolding joined has_returned
  first_left [] e = ground arith
  first_left (returned ∷ ws) e =
      let (front, w, back, f, r) = first_left ws e in (returned ∷ front, w, back, rw f refl, r)
  first_left (waiting ∷ ws) e = ([], waiting, ws, refl, refl)
  first_left (running task ∷ ws) e = ([], running task, ws, refl, refl)

  work-stopped :
      (w : Worker Task) (p : ThreadPool Task)
      → ((task : Task) → ends task ≡ true)
      → has_returned w ≡ false
      → p.stop ≡ true
      → (w' : Worker Task) × (q : ThreadPool Task) × (work ends w p ≡ some (w', q))
  unfolding work has_returned
  work-stopped waiting p a r h = elim (Bool-cases (is_empty p.tasks)) [
    | inl e ↦ (returned, p, rw (h, e) refl)
    | inr e ↦ ((take_front p.tasks p).0, (take_front p.tasks p).1, rw (h, e) refl)
  ]
  work-stopped (running task) p a r h = (waiting, p, rw (a task) refl)
  work-stopped returned p a r h = ground arith

  -- As long as a worker of a stopped pool whose tasks end has not returned, some worker can go on.
  progresses :
      (s : Pooled Task)
      → ((task : Task) → ends task ≡ true)
      → s.pool.stop ≡ true
      → joined s.workers ≡ false
      → (t : Pooled Task) × Step ends s t
  progresses s a h j =
      let (front, w, back, f, r) = first_left s.workers j in
      let (w', q, e) = work-stopped w s.pool a r h in (_, works front back w w' q f e)

  drains :
      (m : ℕ) (t : Pooled Task)
      → ((task : Task) → ends task ≡ true)
      → t.pool.stop ≡ true
      → left t ≤ m
      → (n : ℕ) (s : Pooled Task) → Steps ends s n t
      → (u : Pooled Task) × (k : ℕ) × Steps ends s k u × (joined u.workers ≡ true)
  drains zero t a h l n s st = elim (Bool-cases (joined t.workers)) [
    | inl e ↦ (t, n, st, e)
    | inr e ↦ let (u, step) = progresses t a h e in absurd (omega (arith, l, Step-left step h))
  ]
  drains (suc m) t a h l n s st = elim (Bool-cases (joined t.workers)) [
    | inl e ↦ (t, n, st, e)
    | inr e ↦
        let (u, step) = progresses t a h e in
        let (d, h') = Step-left step h in
        drains m u a h' (omega (arith, l, d)) (suc n) s (after st step)
  ]

  -- A pool of tasks that all end: once it is stopped, its workers take at most as many steps as `left`
  -- counts, and whatever steps they have taken, they can go on until every one of them has returned.
  pub Steps-ends :
      (s t : Pooled Task) (n : ℕ)
      → ((task : Task) → ends task ≡ true)
      → s.pool.stop ≡ true
      → Steps ends s n t
      → (n ≤ left s) × ((u : Pooled Task) × (k : ℕ) × Steps ends t k u × (joined u.workers ≡ true))
  Steps-ends s t n a h st =
      let (l, h') = Steps-left s t n st h in
      (omega (arith, l), drains (left t) t a h' (omega arith) 0 t here)

  Steps-Ends : {s t : Pooled Task} {n : ℕ} → Steps ends s n t → Ends s → Ends t
  Steps-Ends here h = h
  Steps-Ends (after st e) h = Step-Ends e (Steps-Ends st h)

  any_returned-launch : (n : ℕ) (ws : List (Worker Task)) → ws ≡ launch n → any_returned ws ≡ false
  unfolding any_returned launch has_returned
  any_returned-launch zero ws e = rw e refl
  any_returned-launch (suc n) ws e = rw e (any_returned-launch n (launch n) refl)

  new_pool-Ends : (n : ℕ) → Ends {Task = Task} (new_pool (suc n))
  unfolding new_pool launch
  new_pool-Ends n = ground (arith, any_returned-launch (suc n) (launch (suc n)) refl)

  joined-any_returned :
      (ws : List (Worker Task)) → 0 < length ws → joined ws ≡ true → any_returned ws ≡ true
  unfolding joined any_returned has_returned
  joined-any_returned [] l j = absurd (omega arith)
  joined-any_returned (w ∷ ws) l j = ground arith

  -- When all workers of a pool that has some have returned, every task that was accepted was taken,
  -- in the order in which they were accepted, and the pool was stopped.
  pub joined-taken :
      (threads n : ℕ) (s : Pooled Task)
      → Steps ends (new_pool (suc threads)) n s
      → joined s.workers ≡ true
      → (s.taken ≡ s.accepted) × (s.pool.stop ≡ true)
  joined-taken threads n s st j =
      let v = Steps-Ends st (new_pool-Ends threads) in
      let (stopped, e) = v.over (joined-any_returned s.workers v.threads j) in
      let f = Steps-Fifo ends (suc threads) n s st in (sym (f ∙ rw e (append-nil s.taken)), stopped)
