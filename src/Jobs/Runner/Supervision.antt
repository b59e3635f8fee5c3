-- ===== src/Jobs/Runner/Supervision.antt =====
-- What the supervision of a child leaves behind (app/jobs/runner.py).
use ktb4_2nd_ai.Prelude.{
  eq_iff, if◌then◌else◌, ℕ, zero, suc, ◌+◌, ◌-◌, ◌≤◌, ◌≡◌, ◌⊎◌, inl, inr, refl, String, Bool, true,
  false, Option, none, some, List, [], ◌∷◌, ◌++◌, length, ap, Bool-cases, Option-cases, ◌∙◌, sym,
  subst, arith, some_injective,
}
use ktb4_2nd_ai.Jobs.Models.{
  TerminalStatus, Codec, JobRecord, JobsSettings, JobResultEvent, new_event, same_bool, validated,
  enforce_size_limit,
}
use ktb4_2nd_ai.Schemas.{TaskStatus, is_terminal}
use ktb4_2nd_ai.Jobs.Store.{Store, Result}
use ktb4_2nd_ai.Jobs.Updates.{changed, unchanged, owns, finish_update, ended, terminate, settle}
use ktb4_2nd_ai.Jobs.Methods.{finish}
use ktb4_2nd_ai.Jobs.Contracts.{change-unchanged, change_ended}
use ktb4_2nd_ai.Jobs.Endings.{IsOver, ended_over, settle-IsOver}
use ktb4_2nd_ai.Jobs.Runner.{
  Tick, Supervised, left, worker_dead, on_exit, supervise, keep_alive, spawn_missing, fill,
}

supervise_exited :
    (c : Codec) (cfg : JobsSettings) (id owner : String) (w : Tick) (ws : List Tick) (s : Store)
    → w.exited ≡ true
    → supervise c cfg id owner (w ∷ ws) s
      ≡ on_exit
          (finish c cfg id owner TerminalStatus.failed none (some worker_dead) w.now (w.others s))
unfolding supervise
supervise_exited c cfg id owner w ws s exited = ground (arith, exited)

-- the event of a job whose child has exited without a result: failed as WORKER_DEAD, or canceled when
-- that was asked for
abbrev pub exit_event : JobRecord → JobResultEvent
exit_event r = record {
  kind = r.kind;
  trip_id = r.trip_id;
  execution_id = r.execution_id;
  status = if r.cancel_requested then TerminalStatus.canceled else TerminalStatus.failed;
  result = none;
  error = if r.cancel_requested then none else some worker_dead;
}

-- the record that it is left with
abbrev pub exited_record : Codec → JobRecord → JobRecord
exited_record c r = ended r (enforce_size_limit c (exit_event r))

exit_update :
    (c : Codec) (cfg : JobsSettings) (owner : String) (now : ℕ) (r : JobRecord)
    → owns cfg r owner now ≡ true
    → finish_update c cfg owner TerminalStatus.failed none (some worker_dead) now r
      ≡ changed (exited_record c r)
unfolding finish_update terminate new_event same_bool validated
exit_update c cfg owner now r mine = elim (Bool-cases r.cancel_requested) [
  | inl b ↦ rw (mine, b) refl
  | inr b ↦ rw (mine, b) refl
]

-- a job that nobody asked to cancel ends as failed
exited_status :
    (c : Codec) (r : JobRecord)
    → (r.cancel_requested ≡ true) ⊎ ((exited_record c r).status ≡ TaskStatus.failed)
unfolding ended enforce_size_limit
exited_status c r = elim (Bool-cases r.cancel_requested) [
  | inl b ↦ inl b
  | inr b ↦ inr (ground (arith, b))
]

settled_there :
    (u : JobRecord) (was : Bool) (id : String) (now : ℕ) (s : Store)
    → (settle u was id now s).jobs id ≡ some u
unfolding settle
settled_there u was id now s = ground (arith, eq_iff id id)

-- When the child exits, the job that the runner still owns ends with the event of an exit, cut to the
-- size that an event may have: it has failed as WORKER_DEAD, or it is canceled when that was asked
-- for. Its slot is free. A job that has ended by then, or is not the runner's any more, is left as it
-- is.
pub supervise-IsOver :
    (c : Codec) (cfg : JobsSettings) (id owner : String) (w : Tick) (ws : List Tick) (r : JobRecord)
    (s : Store)
    → w.exited ≡ true
    → (w.others s).jobs id ≡ some r
    → ((owns cfg r owner w.now ≡ true)
        × (((supervise c cfg id owner (w ∷ ws) s).0 ≡ some (left true))
            × (((supervise c cfg id owner (w ∷ ws) s).1.jobs id ≡ some (exited_record c r))
                × (((r.cancel_requested ≡ true) ⊎ ((exited_record c r).status ≡ TaskStatus.failed))
                    × IsOver id r.kind (supervise c cfg id owner (w ∷ ws) s).1))))
      ⊎ ((owns cfg r owner w.now ≡ false)
          × (supervise c cfg id owner (w ∷ ws) s ≡ (some (left false), w.others s)))
unfolding on_exit finish finish_update ended
supervise-IsOver c cfg id owner w ws r s exited found =
    let t = w.others s in
    let update = finish_update c cfg owner TerminalStatus.failed none (some worker_dead) w.now in
    let step = supervise_exited c cfg id owner w ws s exited in
    let stranger : (u : JobRecord) → r ≡ u → owns cfg r owner w.now ≡ false → update u ≡ unchanged =
      λ u e lost.
        ground (arith, subst (λ (x : JobRecord). owns cfg x owner w.now ≡ false) e lost) in
    elim (Bool-cases (owns cfg r owner w.now)) [
      | inl mine ↦
          let u = exited_record c r in
          let over = ended_over r (enforce_size_limit c (exit_event r)) in
          let done =
            step
            ∙ ap (λ (x : Result (Option JobRecord) × Store). on_exit x)
                (change_ended cfg id update none w.now r u t found
                  (exit_update c cfg owner w.now r mine) over) in
          let settled : (supervise c cfg id owner (w ∷ ws) s).1
              ≡ settle u (is_terminal r.status) id w.now t =
            ap (λ (x : Option Supervised × Store). x.1) done in
          let ends = settle-IsOver u (is_terminal r.status) id w.now t over in
          inl (
            mine,
            (
              ap (λ (x : Option Supervised × Store). x.0) done,
              (
                ap (λ (x : Store). x.jobs id) settled
                    ∙ settled_there u (is_terminal r.status) id w.now t,
                (exited_status c r, subst (λ (x : Store). IsOver id r.kind x) (sym settled) ends),
              ),
            ),
          )
      | inr lost ↦
          let same =
            change-unchanged cfg id update none w.now t
              (λ u e. stranger u (some_injective (sym found ∙ e)) lost) in
          inr (lost, step ∙ ap (λ (x : Result (Option JobRecord) × Store). on_exit x) same)
    ]

length-snoc : (p : ℕ) (ps : List ℕ) → length (ps ++ (p ∷ [])) ≡ length ps + 1
length-snoc p [] = refl
length-snoc p (q ∷ ps) = ground (arith, length-snoc p ps)

spawn_missing-bounded :
    (spawn : ℕ → Option ℕ) (n : ℕ) (ps : List ℕ) → length (spawn_missing spawn n ps) ≤ length ps + n
unfolding spawn_missing
spawn_missing-bounded spawn zero ps = ground arith
spawn_missing-bounded spawn (suc n) ps = elim (Option-cases (spawn n)) [
  | inl e ↦ ground (arith, e)
  | inr (p, e) ↦
      rw (spawn_missing, e)
        (ground (arith, spawn_missing-bounded spawn n (ps ++ (p ∷ [])), length-snoc p ps))
]

-- `fill` never leaves more children waiting than the setting says, or than were alive before.
pub fill-bounded :
    (alive : ℕ → Bool) (spawn : ℕ → Option ℕ) (size : ℕ) (ps : List ℕ)
    → length (keep_alive alive ps) ≤ size
    → length (fill alive spawn size ps) ≤ size
unfolding fill
fill-bounded alive spawn size ps h =
    ground (
      arith,
      spawn_missing-bounded spawn (size - length (keep_alive alive ps)) (keep_alive alive ps),
    )
