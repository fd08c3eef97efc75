-- ===== src/ThreadPool/Endless.antt =====
-- A task that does not end, as those of node.cc: the worker that is in it never returns.
use sapphiredb.Base.{Bool, false, not, ◌||◌, List, [], ◌∷◌}
use sapphiredb.ThreadPool.{ThreadPool, Worker, waiting, running, returned}

module _ {Task : Type 0} (ends : Task → Bool) where
  -- Whether a worker is in a task that does not end.
  abbrev pub endless : Worker Task → Bool
  endless waiting = false
  endless (running task) = not (ends task)
  endless returned = false

  abbrev pub any_endless : List (Worker Task) → Bool
  any_endless [] = false
  any_endless (w ∷ ws) = endless w || any_endless ws
