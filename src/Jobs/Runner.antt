-- ===== src/Jobs/Runner.antt =====
-- The process that runs jobs: `supervise`, `StandbyChildren` and the rounds of `runner_loop`
-- (app/jobs/runner.py). Starting, feeding and stopping a child process is up to the system, so a
-- child is a number, and what becomes of it an argument.
use ktb4_2nd_ai.Prelude.{
  ℕ, zero, suc, ◌+◌, ◌-◌, ◌≡◌, ◌⊎◌, inl, inr, refl, String, Bool, true, false, not, ◌&&◌, Option,
  none, some, is_some, List, [], ◌∷◌, ◌++◌, if◌then◌else◌, length, ◌>>=◌, ap, Bool-cases, ◌∙◌, sym,
  subst, arith, some_injective,
}
use ktb4_2nd_ai.Schemas.{ErrorCode, is_terminal, ErrorBody}
use ktb4_2nd_ai.Jobs.Models.{JobKind, process, TerminalStatus, Codec, JobRecord, JobsSettings}
use ktb4_2nd_ai.Jobs.Store.{Store, BatchEntry, Result, ok, raised}
use ktb4_2nd_ai.Jobs.Updates.{owns, finish_update}
use ktb4_2nd_ai.Jobs.Methods.{heartbeat, finish, recover}
use ktb4_2nd_ai.Jobs.Claim.{claim, Signals}
use ktb4_2nd_ai.Jobs.Photos.{claim_batch}
pub mod Supervision

-- One wait of `supervise`: what others, the child among them, did to the store meanwhile, the Redis
-- time, whether the child has exited within the heartbeat interval, and what others do in the five
-- seconds that an ended job is given, and the time at which the child is stopped.
pub record Tick : Type 0 where
  pub others : Store → Store
  pub now : ℕ
  pub exited : Bool
  pub grace : Store → Store
  pub later : ℕ

-- how `supervise` ends: the child has exited, its job having been failed or not; the child was
-- stopped; or the store raised
pub data Supervised : Type 0 where
  left : Bool → Supervised
  stopped broken : Supervised

abbrev pub worker_dead : ErrorBody
worker_dead = record {
  code = ErrorCode.worker_dead;
  message = "실행 프로세스가 결과 저장 전에 종료되었습니다.";
  detail = [];
}

abbrev pub is_ended : Option JobRecord → Bool
is_ended none = false
is_ended (some r) = is_terminal r.status

unfoldable pub on_exit : Result (Option JobRecord) × Store → Option Supervised × Store
on_exit (ok r, s) = (some (left (is_some r)), s)
on_exit (raised e, s) = (some broken, s)

module _ (c : Codec) (cfg : JobsSettings) (id owner : String) where
  -- behind a heartbeat, with `rest` as the next wait
  unfoldable pub on_heartbeat :
      Tick
      → Result (Option JobRecord) × Store
      → (Store → Option Supervised × Store)
      → Option Supervised × Store
  on_heartbeat w (ok (some r), s) rest = rest s
  on_heartbeat w (ok none, s) rest =
      (some stopped, recover c cfg w.later (if is_ended (s.jobs id) then w.grace s else s))
  on_heartbeat w (raised e, s) rest = (some broken, s)

  -- `supervise` over the waits that are given; `none` while the child goes on
  unfoldable pub supervise : List Tick → Store → Option Supervised × Store
  unfolding on_exit on_heartbeat
  supervise [] s = (none, s)
  supervise (w ∷ ws) s =
      let t = w.others s in
      if w.exited
      then on_exit (finish c cfg id owner TerminalStatus.failed none (some worker_dead) w.now t)
      else on_heartbeat w (heartbeat cfg id owner w.now t) (λ u. supervise ws u)

-- `StandbyChildren.fill`: the children that are alive
unfoldable pub keep_alive : (ℕ → Bool) → List ℕ → List ℕ
keep_alive alive [] = []
keep_alive alive (p ∷ ps) = let rest = keep_alive alive ps in if alive p then p ∷ rest else rest

-- the loop that starts the missing ones; `spawn` gives none for an `OSError`
unfoldable pub spawn_missing : (ℕ → Option ℕ) → ℕ → List ℕ → List ℕ
spawn_missing spawn zero ps = ps
spawn_missing spawn (suc n) ps = elim (spawn n) [
  | none ↦ ps
  | some p ↦ spawn_missing spawn n (ps ++ (p ∷ []))
]

-- `fill`
unfoldable pub fill : (ℕ → Bool) → (ℕ → Option ℕ) → ℕ → List ℕ → List ℕ
unfolding keep_alive spawn_missing
fill alive spawn size ps =
    let kept = keep_alive alive ps in spawn_missing spawn (size - length kept) kept

-- `take`: the first child that is alive, and those behind it
unfoldable pub take_child : (ℕ → Bool) → List ℕ → Option ℕ × List ℕ
take_child alive [] = (none, [])
take_child alive (p ∷ ps) = let rest = take_child alive ps in if alive p then (some p, ps) else rest

-- `start`: the child that gets the job, if one is alive and reads its line, and the children that
-- wait behind it; none for a child that is spawned for the job
unfoldable pub start : (ℕ → Bool) → (ℕ → Bool) → (ℕ → Option ℕ) → ℕ → List ℕ → Option ℕ × List ℕ
unfolding take_child fill
start alive handoff spawn size ps =
    let taken = take_child alive ps in
    (
      elim taken.0 [ none ↦ none | some p ↦ if handoff p then some p else none ],
      fill alive spawn size taken.1,
    )

-- what a round of `runner_loop` comes to: the loop ends, a job or a photo batch runs, nothing is to
-- do, or the store raised
pub data Turn : Type 0 where
  stop_loop idle failed : Turn
  job : JobRecord → Turn
  batch : BatchEntry → Turn

abbrev pub is_process : JobKind → Bool
is_process process = true
is_process JobKind.story = false

-- behind `claim`: only a runner of process jobs that found none takes a photo batch
unfoldable pub on_claim :
    JobKind → Bool → Bool → ℕ → Result (Option JobRecord) × Store → Turn × Store
on_claim k embed stop now (raised e, s) = (failed, s)
on_claim k embed stop now (ok (some r), s) = (job r, s)
on_claim k embed stop now (ok none, s) =
    let p = claim_batch now s in
    if is_process k && (embed && not stop)
    then (elim p.0 [ none ↦ idle | some e ↦ batch e ], p.1)
    else (idle, s)

-- a round of `runner_loop` up to the job or batch that it runs: `stop` before the round, behind the
-- recovery and behind the claim, with the claim on fuel
unfoldable pub runner_round :
    Codec
    → JobsSettings
    → JobKind
    → String
    → Signals
    → ℕ
    → (ℕ → Bool)
    → Bool
    → ℕ
    → Store
    → Option (Turn × Store)
unfolding on_claim
runner_round c cfg k owner sig fuel stop embed now s =
    let t = recover c cfg now s in
    if stop 0
    then some (stop_loop, s)
    else if stop 1
    then some (stop_loop, t)
    else (claim c cfg k owner sig fuel t >>= λ r. some (on_claim k embed (stop 2) now r))

-- the branch of a runner that is cancelled while it runs a job
abbrev pub runner_stopped : ErrorBody
runner_stopped = record { code = ErrorCode.worker_dead; message = "실행기가 종료되었습니다."; detail = [] }

unfoldable pub cancel_round : Codec → JobsSettings → String → Option JobRecord → ℕ → Store → Store
cancel_round c cfg id none now s = s
cancel_round c cfg id (some r) now s = elim r.owner [
  | none ↦ s
  | some owner ↦ (finish c cfg id owner TerminalStatus.failed none (some runner_stopped) now s).1
]
