-- ===== src/Jobs/Metrics.antt =====
-- The shared counters of app/observability/metrics.py: the fields of the Redis hash
-- `metrics:operations`. Durations are whole microseconds.
use ktb4_2nd_ai.Prelude.{
  ℕ, zero, suc, ◌+◌, ◌-◌, String, Bool, true, false, ◌&&◌, Option, none, some, List, [], ◌∷◌, leb,
  ◌==◌, str_eq, if◌then◌else◌, sum,
}
use ktb4_2nd_ai.Schemas.{TaskStatus}
use ktb4_2nd_ai.Jobs.Models.{JobKind, kind_name, Payload, JobResultEvent, JobRecord}

-- the last part of a field `operation|outcome|phase|stat`; `bucket none` is the bucket `inf`
pub data Stat : Type 0 where
  count total_seconds : Stat
  bucket : Option ℕ → Stat

pub data Field : Type 0 where
  timing : String → String → String → Stat → Field
  photos_classified photos_unclassified story_blocks : Field

abbrev pub Metrics : Type 0
Metrics = Field → ℕ

same_bound : Option ℕ → Option ℕ → Bool
same_bound none none = true
same_bound (some a) (some b) = a == b
same_bound _ _ = false

same_stat : Stat → Stat → Bool
unfolding same_bound
same_stat count count = true
same_stat total_seconds total_seconds = true
same_stat (bucket a) (bucket b) = same_bound a b
same_stat _ _ = false

unfoldable pub same_field : Field → Field → Bool
unfolding same_stat
same_field (timing a b c s) (timing a' b' c' s') =
    str_eq a a' && (str_eq b b' && (str_eq c c' && same_stat s s'))
same_field photos_classified photos_classified = true
same_field photos_unclassified photos_unclassified = true
same_field story_blocks story_blocks = true
same_field _ _ = false

-- HINCRBY and HINCRBYFLOAT
unfoldable pub hincrby : Field → ℕ → Metrics → Metrics
unfolding same_field
hincrby f n m g = if same_field f g then m g + n else m g

-- `BUCKETS`
abbrev pub buckets : List (Option ℕ)
buckets =
    some 100000
    ∷ some 500000
    ∷ some 1000000
    ∷ some 2000000
    ∷ some 5000000
    ∷ some 10000000
    ∷ some 30000000
    ∷ some 60000000
    ∷ some 120000000
    ∷ some 300000000
    ∷ some 600000000
    ∷ none
    ∷ []

-- `seconds <= bucket`
abbrev pub within : ℕ → Option ℕ → Bool
within seconds none = true
within seconds (some b) = leb seconds b

unfoldable pub fill_buckets : String → String → String → ℕ → List (Option ℕ) → Metrics → Metrics
unfolding hincrby
fill_buckets op out phase seconds [] m = m
fill_buckets op out phase seconds (b ∷ bs) m =
    fill_buckets op out phase seconds bs
      (if within seconds b then hincrby (timing op out phase (bucket b)) 1 m else m)

-- `observe_commands`; `max(0, seconds)` is the truncated difference that the callers pass
unfoldable pub observe_commands : String → String → String → ℕ → Metrics → Metrics
unfolding fill_buckets
observe_commands op out phase seconds m =
    fill_buckets op out phase seconds buckets (
      hincrby (timing op out phase total_seconds) seconds (hincrby (timing op out phase count) 1 m))

abbrev pub status_name : TaskStatus → String
status_name TaskStatus.queued = "QUEUED"
status_name TaskStatus.processing = "PROCESSING"
status_name TaskStatus.completed = "COMPLETED"
status_name TaskStatus.failed = "FAILED"
status_name TaskStatus.canceled = "CANCELED"

-- `record.started_at or now`: the time 0 counts as absent
abbrev pub started_or : Option ℕ → ℕ → ℕ
started_or none now = now
started_or (some zero) now = now
started_or (some (suc t)) now = suc t

-- `now - record.started_at if record.started_at else 0`
abbrev pub execution_time : Option ℕ → ℕ → ℕ
execution_time started now = now - started_or started now

-- the counters of a completed job's result, which has the form of its kind
count_payload : JobKind → Payload → Metrics → Metrics
unfolding hincrby
count_payload JobKind.process (Payload.photos places unclassified json) m =
    hincrby photos_unclassified unclassified (hincrby photos_classified (sum places) m)
count_payload JobKind.story (Payload.blocks n json) m = hincrby story_blocks n m
count_payload _ _ m = m

count_result : JobKind → TaskStatus → Option JobResultEvent → Metrics → Metrics
unfolding count_payload
count_result k TaskStatus.completed (some e) m = elim e.result [
  | none ↦ m
  | some p ↦ count_payload k p m
]
count_result _ _ _ m = m

-- `terminal_commands`
unfoldable pub terminal_commands : JobRecord → ℕ → Metrics → Metrics
unfolding observe_commands count_result
terminal_commands r now m =
    let op = kind_name r.kind in
    let out = status_name r.status in
    count_result r.kind r.status r.event (
      observe_commands op out "execution" (execution_time r.started_at now) (
        observe_commands op out "queue" (started_or r.started_at now - r.created_at)
          (observe_commands op out "total" (now - r.created_at) m)))
