-- ===== src/Tasks/Dispatch.antt =====
-- The dispatch loop: it ends with nothing left to start, and keeps the service sound.
use ktb4_2nd_ai.Prelude.{
  ℕ, zero, suc, ◌≤◌, ◌<◌, ◌≡◌, refl, Bool, true, false, ◌⊎◌, none, some, arith, ltb, Option-cases,
  Bool-cases, inl, inr,
}
use ktb4_2nd_ai.Schemas.{TaskStatus, is_status}
use ktb4_2nd_ai.Tasks.{
  Task, Settings, Service, Worker, SubmitResult, find, modify, count, oldest, finish, start,
  on_reply, dispatch_loop, dispatch_next,
}
use ktb4_2nd_ai.Tasks.Counts.{count-modify, oldest-find, oldest-none}
use ktb4_2nd_ai.Tasks.Invariant.{IsSound, finish-IsSound, start-IsSound}

-- the service after the worker answered for `t`
abbrev pub after_reply : Worker → Task → Service → Service
after_reply w t s = (on_reply t.trip_id (w.reply t.trip_id) (w.clock t.trip_id) s).0

-- What every round keeps, the loop keeps.
pub dispatch_induction :
    (P : Service → Type 0) (cfg : Settings) (w : Worker)
    → ((s : Service) (t : Task)
        → P s
        → count TaskStatus.processing s.tasks < cfg.max_concurrent
        → oldest s.tasks ≡ some t
        → P (after_reply w t s))
    → (fuel : ℕ) (s : Service) → P s
    → P (dispatch_loop fuel cfg w s)
unfolding dispatch_loop
dispatch_induction P cfg w keep zero s h = h
dispatch_induction P cfg w keep (suc fuel) s h = elim (Option-cases (oldest s.tasks)) [
  | inl e ↦ ground (arith, e)
  | inr (t, e) ↦
      ground (arith, e, keep s t h, dispatch_induction P cfg w keep fuel (after_reply w t s))
]

pub on_reply-IsSound :
    (cfg : Settings) (w : Worker) (s : Service) (t : Task)
    → IsSound cfg s
    → count TaskStatus.processing s.tasks < cfg.max_concurrent
    → oldest s.tasks ≡ some t
    → IsSound cfg (after_reply w t s)
unfolding on_reply is_status
on_reply-IsSound cfg w s t h room e = go (w.reply t.trip_id) (oldest-find s.tasks t h.keys e)
  where
    go :
        (r : SubmitResult)
        → (find t.trip_id s.tasks ≡ some t) × (t.status ≡ TaskStatus.queued)
        → IsSound cfg (on_reply t.trip_id r (w.clock t.trip_id) s).0
    go SubmitResult.accepted (f, q) = start-IsSound cfg s h t.trip_id t (w.clock t.trip_id) f q room
    go SubmitResult.busy _ = h
    go SubmitResult.not_ready _ = h
    go (SubmitResult.unavailable reason) (f, q) =
        finish-IsSound cfg s h t.trip_id t TaskStatus.failed none _ (w.clock t.trip_id) f refl refl
          refl

pub dispatch_next-IsSound :
    (cfg : Settings) (w : Worker) (s : Service)
    → IsSound cfg s
    → IsSound cfg (dispatch_next cfg w s)
unfolding dispatch_next
dispatch_next-IsSound cfg w s =
    dispatch_induction (IsSound cfg) cfg w (on_reply-IsSound cfg w)
      (suc (count TaskStatus.queued s.tasks)) s

-- Nothing more can be started: the slots are full, nothing waits, or the worker refuses the task
-- that waits longest.
abbrev pub IsSettled : Settings → Worker → Service → Type 0
IsSettled cfg w s =
    (cfg.max_concurrent ≤ count TaskStatus.processing s.tasks)
    ⊎ (count TaskStatus.queued s.tasks ≡ 0)
    ⊎ ((t : Task) × (oldest s.tasks ≡ some t)
        × ((w.reply t.trip_id ≡ SubmitResult.busy) ⊎ (w.reply t.trip_id ≡ SubmitResult.not_ready)))

-- a queued task that gets another status leaves the queue shorter
queued-modify :
    (f : Task → Task) (s : Service) (t : Task)
    → find t.trip_id s.tasks ≡ some t
    → is_status t.status TaskStatus.queued ≡ true
    → is_status (f t).status TaskStatus.queued ≡ false
    → count TaskStatus.queued (modify t.trip_id f s.tasks) < count TaskStatus.queued s.tasks
queued-modify f s t found q e =
    ground (arith, count-modify TaskStatus.queued t.trip_id f s.tasks t found)

-- A round either settles one queued task, or stops and leaves everything as it was.
abbrev Advances : SubmitResult → Task → Service → Service × Bool → Type 0
Advances r t s out =
    ((out.1 ≡ true) × (count TaskStatus.queued out.0.tasks < count TaskStatus.queued s.tasks))
    ⊎ ((out.1 ≡ false) × (out.0 ≡ s) × ((r ≡ SubmitResult.busy) ⊎ (r ≡ SubmitResult.not_ready)))

on_reply-Advances :
    (r : SubmitResult) (now : ℕ) (s : Service) (t : Task)
    → find t.trip_id s.tasks ≡ some t
    → t.status ≡ TaskStatus.queued
    → Advances r t s (on_reply t.trip_id r now s)
unfolding on_reply start finish is_status
on_reply-Advances SubmitResult.accepted now s t f q =
    inl (refl, queued-modify _ s t f (ground arith) refl)
on_reply-Advances SubmitResult.busy now s t f q = inr (refl, refl, inl refl)
on_reply-Advances SubmitResult.not_ready now s t f q = inr (refl, refl, inr refl)
on_reply-Advances (SubmitResult.unavailable e) now s t f q =
    inl (refl, queued-modify _ s t f (ground arith) refl)

dispatch_loop-IsSettled :
    (cfg : Settings) (w : Worker) (fuel : ℕ) (s : Service)
    → IsSound cfg s
    → count TaskStatus.queued s.tasks < fuel
    → IsSettled cfg w (dispatch_loop fuel cfg w s)
unfolding dispatch_loop
dispatch_loop-IsSettled cfg w zero s h less = absurd (omega arith)
dispatch_loop-IsSettled cfg w (suc fuel) s h less =
    elim (Bool-cases (ltb (count TaskStatus.processing s.tasks) cfg.max_concurrent)) [
      | inr full ↦ rw full (inl (ground arith))
      | inl room ↦ rw room (elim (Option-cases (oldest s.tasks)) [
        | inl e ↦ rw e (inr (inl (oldest-none s.tasks e)))
        | inr (t, e) ↦ rw e (
            let picked = oldest-find s.tasks t h.keys e in
            elim (on_reply-Advances (w.reply t.trip_id) (w.clock t.trip_id) s t picked.0 picked.1) [
              | inl (goes_on, fewer) ↦ rw goes_on (
                  dispatch_loop-IsSettled cfg w fuel (after_reply w t s)
                    (on_reply-IsSound cfg w s t h (ground arith) e) (omega arith))
              | inr (stops, same, refused) ↦ rw stops (rw same (inr (inr (t, e, refused))))
            ])
      ])
    ]

-- From a sound service the dispatch ends with the slots full, nothing queued, or the oldest queued
-- task refused by the worker: the fuel of `dispatch_next` is enough.
pub dispatch_next-IsSettled :
    (cfg : Settings) (w : Worker) (s : Service)
    → IsSound cfg s
    → IsSettled cfg w (dispatch_next cfg w s)
unfolding dispatch_next
dispatch_next-IsSettled cfg w s h =
    dispatch_loop-IsSettled cfg w (suc (count TaskStatus.queued s.tasks)) s h (omega arith)
