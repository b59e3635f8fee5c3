-- ===== src/Jobs/Store.antt =====
-- The keys that `RedisJobStore` (app/jobs/redis_store.py) uses, one field for each kind of key: the
-- prefixes of the flat key space are distinct, so writes under one never touch another.
use Prim.Native.String.{◌++◌}
use ktb4_2nd_ai.Prelude.{
  ℕ, zero, suc, ◌/◌, ◌%◌, String, Bool, false, ◌||◌, Option, none, some, List, [], ◌∷◌, ltb, ◌==◌,
  str_eq, if◌then◌else◌,
}
use ktb4_2nd_ai.Schemas.{ErrorCode}
use ktb4_2nd_ai.Jobs.Models.{JobKind, same_kind, kind_name, JobRecord}
use ktb4_2nd_ai.Jobs.Zset.{Zset}
use ktb4_2nd_ai.Jobs.Metrics.{Metrics}

-- `ReadyAttachment`
pub record ReadyAttachment : Type 0 where
  pub trip_attachment_id : ℕ
  pub analyze_storage_key : String

-- `PhotoBatchBuffer`; its dict of batches is in insertion order, keyed by the batch number that the
-- source writes in decimal
pub record PhotoBatchBuffer : Type 0 where
  pub request_topic : String
  pub batches : List (ℕ × List ReadyAttachment)

-- a member `identity#batch_no` of the batch queue
pub record BatchEntry : Type 0 where
  pub identity : String
  pub batch_no : ℕ
  pub score : ℕ

pub record Store : Type 0 where
  pub jobs : String → Option JobRecord
  pub ignored : String → Bool
  pub latest : JobKind → ℕ → Option String
  pub enqueue_sequence : ℕ
  pub queue : JobKind → Zset
  pub running : Zset
  pub pending : Zset
  pub slots : JobKind → List (Option String)
  -- a buffer and the time at which its key expires
  pub photo_batches : String → Option (PhotoBatchBuffer × ℕ)
  pub batch_queue : List BatchEntry
  pub operations : Metrics

pub data Failure : Type 0 where
  validation_error value_error type_error : Failure
  app_error : ErrorCode → Failure

pub data Result (A : Type 0) : Type 0 where
  ok : A → Result A
  raised : Failure → Result A

-- writes to one key of a family
abbrev pub set_job : String → JobRecord → (String → Option JobRecord) → String → Option JobRecord
set_job id r m j = if str_eq id j then some r else m j

abbrev pub set_kind {ℓ} : {A : Type ℓ} → JobKind → A → (JobKind → A) → JobKind → A
set_kind k a m j = if same_kind k j then a else m j

abbrev pub set_latest :
    JobKind → ℕ → String → (JobKind → ℕ → Option String) → JobKind → ℕ → Option String
set_latest k t id m j u = if same_kind k j then (if t == u then some id else m j u) else m j u

-- the slot holds the job
abbrev pub holds : String → Option String → Bool
holds id none = false
holds id (some o) = str_eq o id

-- DEL of every slot whose value is the identity
unfoldable pub release : String → List (Option String) → List (Option String)
release id [] = []
release id (o ∷ os) = (if holds id o then none else o) ∷ release id os

unfoldable pub occupies : String → List (Option String) → Bool
occupies id [] = false
occupies id (o ∷ os) = holds id o || occupies id os

-- `identity`: the SHA-256 of the execution id is the argument `sha256`
digit : ℕ → String
digit n =
    if n == 0
    then "0"
    else if n == 1
    then "1"
    else if n == 2
    then "2"
    else if n == 3
    then "3"
    else if n == 4
    then "4"
    else if n == 5
    then "5"
    else if n == 6
    then "6"
    else if n == 7
    then "7"
    else if n == 8
    then "8"
    else "9"

-- the decimal text of a number, on fuel; a number is more than its count of digits
unfoldable pub decimal : ℕ → ℕ → String
unfolding digit
decimal zero n = ""
decimal (suc fuel) n =
    let rest = decimal fuel (n / 10) in if ltb n 10 then digit n else rest ++ digit (n % 10)

unfoldable pub identity : (String → String) → ℕ → JobKind → String → String
unfolding decimal
identity sha256 trip k exec = kind_name k ++ ":" ++ decimal (suc trip) trip ++ ":" ++ sha256 exec
