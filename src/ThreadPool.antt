-- ===== src/ThreadPool.antt =====
-- sapphiredb/common/thread_pool.h: the queue of tasks, and the workers that take from it. A step is
-- one critical section, or the end of a task that ends; which thread comes next is left open. Which
-- tasks end is a parameter: those of node.cc are loops that do not.
pub mod Fifo
pub mod Drain
pub mod Endless
use sapphiredb.Base.{
  ℕ, zero, suc, ◌≡◌, Bool, true, false, not, ◌||◌, ◌&&◌, Option, none, some, List, [], ◌∷◌, ◌++◌,
  is_empty, if◌then◌else◌,
}

pub record ThreadPool (Task : Type 0) : Type 0 where
  pub tasks : List Task
  pub stop : Bool

-- Where a worker is in its loop: before the lock or waiting, in `task()`, or at its end.
pub data Worker (Task : Type 0) : Type 0 where
  waiting : Worker Task
  running : Task → Worker Task
  returned : Worker Task

module _ {Task : Type 0} where
  -- None is the exception.
  unfoldable pub enqueue : Task → ThreadPool Task → Option (ThreadPool Task)
  enqueue task p = if p.stop then none else some (record p { tasks = p.tasks ++ task ∷ [] })

  -- The front of the queue, once the wait is over.
  unfoldable pub take_front : List Task → ThreadPool Task → Worker Task × ThreadPool Task
  take_front [] p = (returned, p)
  take_front (task ∷ rest) p = (running task, record p { tasks = rest })

  -- A worker that goes on; none while it waits, while it is in a task that does not end, and when it
  -- has returned.
  unfoldable pub work :
      (Task → Bool) → Worker Task → ThreadPool Task → Option (Worker Task × ThreadPool Task)
  unfolding take_front
  work ends waiting p =
      if p.stop || not (is_empty p.tasks)
      then (if p.stop && is_empty p.tasks then some (returned, p) else some (take_front p.tasks p))
      else none
  work ends (running task) p = if ends task then some (waiting, p) else none
  work ends returned p = none

  -- The first part of the destructor.
  unfoldable pub stop_pool : ThreadPool Task → ThreadPool Task
  stop_pool p = record p { stop = true }

  -- The threads that the constructor launches.
  unfoldable pub launch : ℕ → List (Worker Task)
  launch zero = []
  launch (suc n) = waiting ∷ launch n

  -- The loop of `join` in the destructor is over.
  unfoldable pub joined : List (Worker Task) → Bool
  joined [] = true
  joined (returned ∷ ws) = joined ws
  joined (waiting ∷ ws) = false
  joined (running task ∷ ws) = false

-- The pool with its threads, and what was accepted and what was taken up to now, oldest first.
pub record Pooled (Task : Type 0) : Type 0 where
  pub pool : ThreadPool Task
  pub workers : List (Worker Task)
  pub accepted : List Task
  pub taken : List Task

module _ {Task : Type 0} where
  -- A new pool.
  unfoldable pub new_pool : ℕ → Pooled Task
  unfolding launch
  new_pool threads = record {
    pool = record { tasks = []; stop = false };
    workers = launch threads;
    accepted = [];
    taken = [];
  }

  -- The task that a worker has just taken.
  abbrev pub takes : Worker Task → List Task
  takes waiting = []
  takes (running task) = task ∷ []
  takes returned = []

  pub data Step (ends : Task → Bool) (s : Pooled Task) : Pooled Task → Type 0 where
    enqueues :
        (task : Task) (p : ThreadPool Task)
        → enqueue task s.pool ≡ some p
        → Step ends s (record s { pool = p; accepted = s.accepted ++ task ∷ [] })
    works :
        (front back : List (Worker Task)) (w w' : Worker Task) (p : ThreadPool Task)
        → s.workers ≡ front ++ w ∷ back
        → work ends w s.pool ≡ some (w', p)
        → Step ends s
            (record s { pool = p; workers = front ++ w' ∷ back; taken = s.taken ++ takes w' })
    stops : s.pool.stop ≡ false → Step ends s (record s { pool = stop_pool s.pool })

  pub data Steps (ends : Task → Bool) (s : Pooled Task) : ℕ → Pooled Task → Type 0 where
    here : Steps ends s 0 s
    after : {n : ℕ} {t u : Pooled Task} → Steps ends s n t → Step ends t u → Steps ends s (suc n) u
