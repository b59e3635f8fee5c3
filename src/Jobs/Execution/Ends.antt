-- ===== src/Jobs/Execution/Ends.antt =====
-- However a handler ends, `execute` (app/jobs/execution.py) ends the job that it owns.
use ktb4_2nd_ai.Prelude.{
  ℕ, suc, ◌≡◌, refl, String, true, List, [], ◌∷◌, Option, none, some, sym, subst,
}
use ktb4_2nd_ai.Jobs.Models.{JobKind, TerminalStatus, Codec, JobRecord, JobsSettings}
use ktb4_2nd_ai.Jobs.Store.{Store, Result, ok, raised}
use ktb4_2nd_ai.Jobs.Updates.{owns}
use ktb4_2nd_ai.Jobs.Endings.{IsOver}
use ktb4_2nd_ai.Jobs.Execution.{
  Raised, Handler, returns, fails, reports, checks, World, reported, report, finish_at,
  check_cancel, run_handler, store_result, try_handler, execute_owned, execute,
}
use ktb4_2nd_ai.Jobs.Execution.Held.{IsHeld, progress-IsHeld, on_exception-IsOver, completed-IsOver}

-- The calls of the store that `execute` makes: each is its number and the store that it leaves.
unfoldable pub Calls : Type 0
Calls = List (ℕ × Store)

module _ (c : Codec) (cfg : JobsSettings) (id owner : String) (world : World) where
  -- those of a handler from its n-th call on, with the `finish` that stores its result
  unfoldable pub handler_calls : Handler → ℕ → Store → Calls
  unfolding Calls report check_cancel
  handler_calls (returns p) n s =
      (n, (finish_at c cfg id owner world TerminalStatus.completed (some p) none n s).1) ∷ []
  handler_calls (fails x) n s = []
  handler_calls (reports step done total next) n s =
      let r = report cfg id owner step done total (world.time n) (world.others n s) in
      (n, r.1) ∷ handler_calls (next r.0) (suc n) r.1
  handler_calls (checks next) n s =
      let t = world.others n s in
      (n, t) ∷ handler_calls (next (check_cancel cfg id owner (world.time n) t)) (suc n) t

  unfoldable pub try_calls : Handler → Option Raised → ℕ → Store → Calls
  unfolding Calls handler_calls
  try_calls a none n s = handler_calls a n s
  try_calls a (some x) n s = []

  -- those that another call may follow, which is all but the `finish` behind an exception
  unfoldable pub execute_calls : Handler → Store → Calls
  unfolding Calls try_calls check_cancel
  execute_calls a s =
      let t = world.others 0 s in
      let u = world.others 1 t in
      (0, t) ∷ ((1, u) ∷ try_calls a (check_cancel cfg id owner (world.time 1) u) 2 u)

-- The others leave the job with its owner between two calls of the run: when a call leaves it with the
-- owner, it is the owner's at the time of the next call.
unfoldable pub Kept : JobsSettings → String → String → JobKind → World → Calls → Type 0
unfolding Calls
Kept cfg id owner k world [] = Unit
Kept cfg id owner k world ((n, s) ∷ cs) =
    (IsHeld cfg id owner k (world.time n) s
      → IsHeld cfg id owner k (world.time (suc n)) (world.others (suc n) s))
    × Kept cfg id owner k world cs

execute_there :
    (c : Codec) (cfg : JobsSettings) (id owner : String) (world : World) (a : Handler) (s : Store)
    (r : JobRecord)
    → (world.others 0 s).jobs id ≡ some r
    → owns cfg r owner (world.time 0) ≡ true
    → execute c cfg id owner world a s ≡ execute_owned c cfg id owner world a (world.others 0 s)
unfolding execute
execute_there c cfg id owner world a s r found mine = rw (execute, found, mine) refl

module _ (c : Codec) (cfg : JobsSettings) (id owner : String) (k : JobKind) where
  -- the job is the owner's at the next call
  IsNext : World → ℕ → Store → Type 0
  IsNext world n s = IsHeld cfg id owner k (world.time n) (world.others n s)

  reported-IsHeld :
      (now : ℕ) (r : Result (Option JobRecord) × Store)
      → IsHeld cfg id owner k now r.1
      → IsHeld cfg id owner k now (reported r).1
  unfolding reported
  reported-IsHeld now (ok none, s) h = h
  reported-IsHeld now (ok (some r), s) h = h
  reported-IsHeld now (raised e, s) h = h

  run_handler-IsOver :
      (world : World) (a : Handler) (n : ℕ) (s : Store)
      → Kept cfg id owner k world (handler_calls c cfg id owner world a n s)
      → IsNext world n s
      → IsOver id k (store_result c cfg id owner world (run_handler c cfg id owner world a n s)).1
  unfolding run_handler handler_calls Kept Calls IsNext report store_result
  run_handler-IsOver world (returns p) n s (keeps, _) h =
      completed-IsOver c cfg id owner k world p n s h keeps
  run_handler-IsOver world (fails x) n s keeps h =
      on_exception-IsOver c cfg id owner k world x n s h
  run_handler-IsOver world (reports step done total next) n s (keeps, later) h =
      let r = report cfg id owner step done total (world.time n) (world.others n s) in
      let held =
        reported-IsHeld (world.time n) _
          (progress-IsHeld c cfg id owner k step done total (world.time n) (world.others n s) h) in
      run_handler-IsOver world (next r.0) (suc n) r.1 later (keeps held)
  run_handler-IsOver world (checks next) n s (keeps, later) h =
      let t = world.others n s in
      run_handler-IsOver world (next (check_cancel cfg id owner (world.time n) t)) (suc n) t later
        (keeps h)

  try_handler-IsOver :
      (world : World) (a : Handler) (x : Option Raised) (n : ℕ) (s : Store)
      → Kept cfg id owner k world (try_calls c cfg id owner world a x n s)
      → IsNext world n s
      → IsOver id k (store_result c cfg id owner world (try_handler c cfg id owner world a x n s)).1
  unfolding try_handler try_calls IsNext store_result
  try_handler-IsOver world a none n s keeps h = run_handler-IsOver world a n s keeps h
  try_handler-IsOver world a (some x) n s keeps h =
      on_exception-IsOver c cfg id owner k world x n s h

  -- While the others leave the job with its owner between the calls that the run makes, `execute` ends
  -- the job it owns and frees its slot, whatever the handler reports, checks, returns or raises.
  pub execute-IsOver :
      (world : World) (a : Handler) (s : Store)
      → Kept cfg id owner k world (execute_calls c cfg id owner world a s)
      → IsHeld cfg id owner k (world.time 0) (world.others 0 s)
      → IsOver id k (execute c cfg id owner world a s).1
  unfolding execute execute_owned execute_calls Kept Calls IsNext
  execute-IsOver world a s (first, (second, later)) h =
      let t = world.others 0 s in
      let u = world.others 1 t in
      subst (λ (x : Result (Option JobRecord) × Store). IsOver id k x.1)
        (sym (execute_there c cfg id owner world a s h.last h.there h.mine))
        (try_handler-IsOver world a (check_cancel cfg id owner (world.time 1) u) 2 u later
          (second (first h)))
