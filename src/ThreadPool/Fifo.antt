-- ===== src/ThreadPool/Fifo.antt =====
-- The tasks are taken in the order in which they were accepted, each of them once.
use sapphiredb.Base.{ℕ, ◌≡◌, refl, ◌∙◌, ap, sym, Bool, some, List, [], ◌∷◌, ◌++◌, arith}
use mathlib.Core.List.{append_assoc}
use sapphiredb.ThreadPool.{
  ThreadPool, Worker, waiting, running, returned, enqueue, take_front, work, stop_pool, Pooled,
  new_pool, takes, Step, enqueues, works, stops, Steps, here, after,
}

module _ {Task : Type 0} where
  -- What was accepted is what was taken and then what is in the queue.
  abbrev pub Fifo : Pooled Task → Type 0
  Fifo s = s.accepted ≡ s.taken ++ s.pool.tasks

  pub enqueue-tasks :
      (task : Task) (p q : ThreadPool Task)
      → enqueue task p ≡ some q
      → q.tasks ≡ p.tasks ++ task ∷ []
  unfolding enqueue
  enqueue-tasks task p q e = ground arith

  take_front-tasks :
      (ts : List Task) (p : ThreadPool Task)
      → p.tasks ≡ ts
      → let (w, q) = take_front ts p in ts ≡ takes w ++ q.tasks
  unfolding take_front
  take_front-tasks [] p e = ground arith
  take_front-tasks (t ∷ ts) p e = ground arith

module _ {Task : Type 0} (ends : Task → Bool) where
  work-tasks :
      (w w' : Worker Task) (p q : ThreadPool Task)
      → work ends w p ≡ some (w', q)
      → p.tasks ≡ takes w' ++ q.tasks
  unfolding work
  work-tasks waiting w' p q e = ground (arith, take_front-tasks p.tasks p refl)
  work-tasks (running task) w' p q e = ground arith
  work-tasks returned w' p q e = ground arith

  Step-Fifo : {s t : Pooled Task} → Step ends s t → Fifo s → Fifo t
  unfolding enqueue stop_pool
  Step-Fifo {s} (enqueues task p e) h =
      rw (enqueue-tasks task s.pool p e, h) (append_assoc s.taken s.pool.tasks (task ∷ []))
  Step-Fifo {s} (works front back w w' p o e) h =
      h
      ∙ ap (λ ts. s.taken ++ ts) (work-tasks w w' s.pool p e)
      ∙ sym (append_assoc s.taken (takes w') p.tasks)
  Step-Fifo (stops e) h = h

  -- From a new pool on, whatever the threads do: the tasks that were accepted are those that were
  -- taken, in the same order, and then those in the queue.
  pub Steps-Fifo : (threads n : ℕ) (s : Pooled Task) → Steps ends (new_pool threads) n s → Fifo s
  unfolding new_pool
  Steps-Fifo threads n s here = refl
  Steps-Fifo threads n s (after {n = k} {t = t} ts e) = Step-Fifo e (Steps-Fifo threads k t ts)
