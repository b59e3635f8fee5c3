-- ===== src/Tasks/Waits.antt =====
-- The POST that waits for its task (`wait_done`, app/jobs/task_service.py).
use ktb4_2nd_ai.Prelude.{◌≡◌, ℕ, true, some, arith, Option-cases, inl, inr}
use ktb4_2nd_ai.Schemas.{is_terminal}
use ktb4_2nd_ai.Tasks.{Task, Settings, Service, ok, find}
use ktb4_2nd_ai.Tasks.Methods.{require, wait_done}
use ktb4_2nd_ai.Tasks.Invariant.{IsSound}

-- In a sound service a wait that returns a task returns one that has ended.
pub wait_done-ended :
    (cfg : Settings) (k : ℕ) (t : Task) (s : Service)
    → IsSound cfg s
    → wait_done k s ≡ some (ok t)
    → is_terminal t.status ≡ true
unfolding wait_done require
wait_done-ended cfg k t s h e = elim (Option-cases (find k s.tasks)) [
  | inl n ↦ absurd (ground (arith, e, n))
  | inr (u, n) ↦ ground (arith, e, n, h.woken k u n)
]

-- In a sound service a wait for a task that has ended returns that task at once.
pub wait_done-returns :
    (cfg : Settings) (k : ℕ) (t : Task) (s : Service)
    → IsSound cfg s
    → find k s.tasks ≡ some t
    → is_terminal t.status ≡ true
    → wait_done k s ≡ some (ok t)
unfolding wait_done require
wait_done-returns cfg k t s h found over = ground (arith, found, over, h.woken k t found)
