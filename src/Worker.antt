-- ===== src/Worker.antt =====
-- The pipeline worker's `Runner` (app/worker/runner.py): one slot, the flags of cancellation, the
-- executor's single thread and the callbacks that it sends. Logs are left out.
pub mod Slot
use ktb4_2nd_ai.Prelude.{
  ℕ, String, Bool, true, false, Option, none, some, is_some, List, [], ◌∷◌, ◌++◌, ◌==◌, ◌≡◌,
  if◌then◌else◌,
}
use Prim.Native.String.{◌++◌ as join_text}
use ktb4_2nd_ai.Schemas.{ErrorCode, default_message, ErrorBody, DetailValue, ProcessStep}

-- how `run_fn` ends: a `ProcessResult`, a `PipelineError`, or another exception by the text of its
-- type and message; each behind the progress that it reported
pub data Ending (R : Type 0) : Type 0 where
  returned : R → Ending R
  pipeline_error : ErrorBody → Ending R
  crashed : String → Ending R

-- what the callback object is asked to send
pub data Callback (R : Type 0) : Type 0 where
  progress : ℕ → ProcessStep → ℕ → ℕ → Callback R
  failed : ℕ → ErrorBody → Callback R
  result : ℕ → R → Callback R

-- `_current`, `_cancel_flags` and the executor: the tasks that wait for its thread, the task on it,
-- and the callback that is due when the slot is free again
pub record Runner (R : Type 0) : Type 0 where
  pub current : Option ℕ
  pub cancel_flags : ℕ → Option Bool
  pub waiting : List ℕ
  pub thread : Option ℕ
  pub due : Option (Callback R)
  pub sent : List (Callback R)

-- `Runner.busy`
abbrev pub busy : {R : Type 0} → Runner R → Bool
busy s = is_some s.current

abbrev pub set_flag : ℕ → Option Bool → (ℕ → Option Bool) → ℕ → Option Bool
set_flag trip v flags t = if trip == t then v else flags t

-- `Runner.submit`
unfoldable pub submit : {R : Type 0} → ℕ → Runner R → Bool × Runner R
submit trip s = if busy s then (false, s) else (
  true,
  record s {
    current = some trip;
    cancel_flags = set_flag trip (some false) s.cancel_flags;
    waiting = s.waiting ++ (trip ∷ []);
  },
)

-- `Runner.cancel`
unfoldable pub cancel : {R : Type 0} → ℕ → Runner R → Bool × Runner R
cancel trip s = elim (s.cancel_flags trip) [
  | none ↦ (false, s)
  | some flag ↦ (true, record s { cancel_flags = set_flag trip (some true) s.cancel_flags })
]

-- the executor's thread takes the first task: `_execute` begins
unfoldable pub begin : {R : Type 0} → Runner R → List ℕ → Option ℕ → Runner R
begin s (trip ∷ rest) none = record s { waiting = rest; thread = some trip }
begin s _ _ = s

-- `on_progress`, which `run_fn` calls from the thread
unfoldable pub on_progress : {R : Type 0} → ProcessStep → ℕ → ℕ → Runner R → Runner R
on_progress step done total s = elim s.thread [
  | none ↦ s
  | some trip ↦ record s { sent = s.sent ++ (progress trip step done total ∷ []) }
]

-- the callback for an ending: the `except` clauses of `_execute`
unfoldable pub callback_of : {R : Type 0} → ℕ → Ending R → Callback R
unfolding default_message
callback_of trip (returned r) = result trip r
callback_of trip (pipeline_error e) = failed trip e
callback_of trip (crashed text) = failed trip (record {
  code = ErrorCode.internal_error;
  message = default_message ErrorCode.internal_error;
  detail = ("reason", DetailValue.text text) ∷ [];
})

-- `run_fn` ends: the `finally` of `_execute` gives the slot back, and a callback is due
unfoldable pub conclude : {R : Type 0} → Ending R → Runner R → Runner R
unfolding callback_of
conclude e s = elim s.thread [
  | none ↦ s
  | some trip ↦ record s {
    current = none;
    cancel_flags = set_flag trip none s.cancel_flags;
    due = some (callback_of trip e);
  }
]

-- the callback is sent and the thread is free
unfoldable pub deliver : {R : Type 0} → Runner R → Option (Callback R) → Runner R
deliver s none = s
deliver s (some c) = record s { thread = none; due = none; sent = s.sent ++ (c ∷ []) }

-- the router's requests and the thread's moves, in any order
pub data Move {R : Type 0} (s : Runner R) : Runner R → Type 0 where
  submitted : (trip : ℕ) → Move s (submit trip s).1
  canceled : (trip : ℕ) → Move s (cancel trip s).1
  begun : s.due ≡ none → Move s (begin s s.waiting s.thread)
  reported :
      (step : ProcessStep) (done total : ℕ) → s.due ≡ none → Move s (on_progress step done total s)
  ended : (e : Ending R) → s.due ≡ none → Move s (conclude e s)
  delivered : Move s (deliver s s.due)

pub data Moves {R : Type 0} (s : Runner R) : Runner R → Type 0 where
  still : Moves s s
  step : {t u : Runner R} → Moves s t → Move t u → Moves s u

abbrev pub fresh : {R : Type 0} → Runner R
fresh = record {
  current = none;
  cancel_flags = λ t. none;
  waiting = [];
  thread = none;
  due = none;
  sent = [];
}
