-- ===== src/Jobs/Claim/Attempts.antt =====
-- What one attempt of `claim` does to the records (app/jobs/redis_store.py), and what the return of a job
-- that has just been taken leaves.
use ktb4_2nd_ai.Prelude.{
  ℕ, ◌<◌, ◌≡◌, ◌≢◌, refl, String, Bool, true, false, Option, none, some, length, arith, str_eq,
  eq_iff, leb, Bool-cases, Option-cases, inl, inr, sym, ap, ◌∙◌, subst, some_injective,
}
use ktb4_2nd_ai.Schemas.{TaskStatus, is_terminal, is_status}
use ktb4_2nd_ai.Jobs.Models.{JobKind, Codec, JobRecord, JobsSettings, job_timeout}
use ktb4_2nd_ai.Jobs.Zset.{first, member-first}
use ktb4_2nd_ai.Jobs.Store.{Store, Result, set_job}
use ktb4_2nd_ai.Jobs.Updates.{
  changed, owns, ended, settle, return_update, change, applied, commit, requeue,
}
use ktb4_2nd_ai.Jobs.Methods.{return_unstarted}
use ktb4_2nd_ai.Jobs.Contracts.{change_ended}
use ktb4_2nd_ai.Jobs.Endings.{ended_over}
use ktb4_2nd_ai.Jobs.Execution.Held.{canceled_event}
use ktb4_2nd_ai.Jobs.Sound.{IsSound}
use ktb4_2nd_ai.Jobs.Claim.{
  any_stale, occupied, occupy, Attempt, idle, retry, broken, claimed, taken, take_over, limit,
  take_waiting, take_first, attempt,
}

-- no job has started: what runs in `t` ran in `s`, by the same record
unfoldable pub NoneStarted : Store → Store → Type 0
NoneStarted s t =
    (id : String) (r : JobRecord)
    → t.jobs id ≡ some r
    → r.status ≡ TaskStatus.processing
    → s.jobs id ≡ some r

pub same_jobs-NoneStarted : (s t : Store) → t.jobs ≡ s.jobs → NoneStarted s t
unfolding NoneStarted
same_jobs-NoneStarted s t e id r there runs =
    ap (λ (m : String → Option JobRecord). m id) (sym e) ∙ there

-- one record is written, and it is not running
pub written-NoneStarted :
    (s t : Store) (id : String) (u : JobRecord)
    → t.jobs id ≡ some u
    → u.status ≢ TaskStatus.processing
    → ((j : String) → id ≢ j → t.jobs j ≡ s.jobs j)
    → NoneStarted s t
unfolding NoneStarted
written-NoneStarted s t id u there rests others j r found runs = elim (Bool-cases (str_eq id j)) [
  | inl e ↦
      let same : id ≡ j = (eq_iff id j).0 e in
      absurd (
        rests (
          ap (λ (x : JobRecord). x.status) (some_injective (sym there ∙ ap t.jobs same ∙ found))
          ∙ runs))
  | inr e ↦ sym (others j (λ q. ground (arith, e, eq_iff id j, q))) ∙ found
]

-- what an attempt has done
pub data Tried (s : Store) (owner : String) (k : JobKind) (now : ℕ) : Attempt × Store → Type 0 where
  tried_idle : {t : Store} → t.jobs ≡ s.jobs → Tried s owner k now (idle, t)
  tried_retry : {t : Store} → t.jobs ≡ s.jobs → Tried s owner k now (retry, t)
  tried_broken : {t : Store} → t.jobs ≡ s.jobs → Tried s owner k now (broken, t)
  tried_claimed :
      {id : String} {r : JobRecord} {score : ℕ} {t : Store}
      → s.jobs id ≡ some r
      → r.status ≡ TaskStatus.queued
      → r.kind ≡ k
      → t.jobs ≡ set_job id (taken owner now r) s.jobs
      → Tried s owner k now (claimed id (taken owner now r) score, t)

module _ (cfg : JobsSettings) (k : JobKind) (owner : String) where
  take_waiting-Tried :
      (stop : Bool) (id : String) (score : ℕ) (r : JobRecord) (now : ℕ) (s : Store)
      → s.jobs id ≡ some r
      → r.status ≡ TaskStatus.queued
      → r.kind ≡ k
      → Tried s owner k now (take_waiting cfg k owner stop id score r now s)
  unfolding take_waiting take_over
  take_waiting-Tried true id score r now s found waits kind = tried_idle refl
  take_waiting-Tried false id score r now s found waits kind =
      elim (Option-cases (occupy id (s.slots k))) [
        | inl e ↦ rw (take_waiting, e) (tried_broken refl)
        | inr (slots, e) ↦ rw (take_waiting, e) (tried_claimed found waits kind refl)
      ]

  take_first-Tried :
      (stop : Bool) (e : Option (String × ℕ)) (now : ℕ) (s : Store)
      → IsSound s
      → first (s.queue k) ≡ e
      → Tried s owner k now (take_first cfg k owner stop e now s)
  unfolding take_first is_status
  take_first-Tried stop none now s h q = tried_idle refl
  take_first-Tried stop (some (id, score)) now s h q =
      let (r, found, kind) = h.in_queue k id (member-first (s.queue k) id score q) in
      elim (Bool-cases (is_status r.status TaskStatus.queued)) [
        | inl e ↦
            rw (take_first, found, e)
              (take_waiting-Tried stop id score r now s found (ground (arith, e)) kind)
        | inr e ↦ rw (take_first, found, e) (tried_retry refl)
      ]

  pub attempt-Tried :
      (stop : Bool) (now : ℕ) (s : Store)
      → IsSound s
      → Tried s owner k now (attempt cfg k owner stop now s)
  unfolding attempt
  attempt-Tried stop now s h = elim (Bool-cases (any_stale s (s.slots k))) [
    | inl e ↦ rw (attempt, e) (tried_retry refl)
    | inr e ↦ elim (Bool-cases (leb (limit cfg k) (occupied (s.slots k)))) [
      | inl full ↦ rw (attempt, e, full) (tried_idle refl)
      | inr room ↦ elim (Bool-cases (leb (length (s.slots k)) (occupied (s.slots k)))) [
        | inl b ↦ rw (attempt, e, room, b) (tried_broken refl)
        | inr b ↦ rw (attempt, e, room, b) (take_first-Tried stop (first (s.queue k)) now s h refl)
      ]
    ]
  ]

-- the record that goes back to its queue
abbrev waiting_again : JobRecord → JobRecord
waiting_again r = record r {
  status = TaskStatus.queued;
  owner = none;
  started_at = none;
  heartbeat_at = none;
}

-- the store has a record of a job that is not running, and the other jobs of another store
pub record Rests (id : String) (t u : Store) : Type 0 where
  pub last : JobRecord
  pub there : u.jobs id ≡ some last
  pub rests : last.status ≢ TaskStatus.processing
  pub others : (j : String) → id ≢ j → u.jobs j ≡ t.jobs j

settle-Rests :
    (id : String) (r : JobRecord) (was : Bool) (now : ℕ) (t : Store)
    → is_terminal r.status ≡ true
    → Rests id t (settle r was id now t)
unfolding settle
settle-Rests id r was now t over = record {
  last = r;
  there = ground (arith, eq_iff id id);
  rests = λ e. ground (arith, over, e);
  others = λ j ne. ground (arith, eq_iff id j, ne);
}

-- what the owner returns is not running any more: it waits again, or it has ended
pub return-Rests :
    (c : Codec) (cfg : JobsSettings) (id owner : String) (score now : ℕ) (r : JobRecord) (t : Store)
    → t.jobs id ≡ some r
    → owns cfg r owner now ≡ true
    → Rests id t (return_unstarted c cfg id owner score now t).1
unfolding return_unstarted return_update change applied commit requeue
return-Rests c cfg id owner score now r t found mine = elim (Bool-cases r.cancel_requested) [
  | inl b ↦
      let (e, up) = canceled_event c r in
      let over = ended_over r e in
      subst (λ (x : Result (Option JobRecord) × Store). Rests id t x.1)
        (sym (
          change_ended cfg id (return_update c cfg owner now) (some score) now r (ended r e) t found
            (ground (arith, mine, b, up)) over))
        (settle-Rests id (ended r e) (is_terminal r.status) now t over)
  | inr b ↦
      let up : return_update c cfg owner now r ≡ changed (waiting_again r) =
        ground (arith, mine, b) in
      record {
        last = waiting_again r;
        there = ground (arith, found, up, eq_iff id id);
        rests = λ e. cc (e);
        others = λ j ne. ground (arith, found, up, eq_iff id j, ne);
      }
]

pub taken-owns :
    (cfg : JobsSettings) (owner : String) (now : ℕ) (r : JobRecord)
    → 0 < cfg.lease
    → 0 < job_timeout cfg r.kind
    → owns cfg (taken owner now r) owner now ≡ true
unfolding owns is_status
taken-owns cfg owner now r lease time = ground (arith, lease, time, eq_iff owner owner)
