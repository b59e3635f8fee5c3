-- ===== src/Jobs/PhotoMetrics.antt =====
-- Measurements of single photos in Redis: `save_photo_metrics`, `photo_metrics`,
-- `observe_stages` and `record_peak_memory` of `RedisJobStore` (app/jobs/redis_store.py). A record's JSON and its validation
-- are arguments.
use ktb4_2nd_ai.Prelude.{
  ℕ, ◌+◌, ◌<◌, ◌≡◌, ◌≢◌, refl, String, Option, none, some, List, [], ◌∷◌, ltb, ◌==◌, if◌then◌else◌,
  arith, All, ◌∙◌,
}
use ktb4_2nd_ai.Jobs.Models.{JobKind, kind_name}
use ktb4_2nd_ai.Jobs.Store.{set_kind}
use ktb4_2nd_ai.Jobs.Metrics.{Metrics, observe_commands}

-- the keys `photo:<id>`, each with the time at which it expires
abbrev pub PhotoKeys : Type 0
PhotoKeys = ℕ → Option (String × ℕ)

-- what a GET gives
abbrev pub live_text : ℕ → Option (String × ℕ) → Option String
live_text now none = none
live_text now (some (text, expires)) = if ltb now expires then some text else none

-- one stage of a job: its result, its full name and its time
pub record StageRecord : Type 0 where
  pub result : String
  pub full_name : String
  pub elapsed : ℕ

-- `observe_stages`
unfoldable pub observe_stages : JobKind → List StageRecord → Metrics → Metrics
observe_stages k [] m = m
observe_stages k (r ∷ rs) m =
    observe_stages k rs (observe_commands (kind_name k) r.result r.full_name r.elapsed m)

-- `record_peak_memory`: the field of a kind in the hash of resources
unfoldable pub record_peak_memory : JobKind → ℕ → (JobKind → Option ℕ) → JobKind → Option ℕ
record_peak_memory k peak fields = set_kind k (some peak) fields

module _ {A : Type 0} (encode : A → String) (decode : String → Option A) where
  -- `save_photo_metrics`
  unfoldable pub save_photo_metrics : ℕ → ℕ → List (ℕ × A) → PhotoKeys → PhotoKeys
  save_photo_metrics ttl now [] keys = keys
  save_photo_metrics ttl now ((i, r) ∷ rs) keys =
      save_photo_metrics ttl now rs (λ j. if i == j then some (encode r, now + ttl) else keys j)

  -- a text that is there and valid
  unfoldable pub read_record : Option String → Option A
  read_record none = none
  read_record (some text) = decode text

  abbrev pub collect : ℕ → Option A → List (ℕ × A) → List (ℕ × A)
  collect i none rest = rest
  collect i (some r) rest = (i, r) ∷ rest

  -- `photo_metrics`
  unfoldable pub photo_metrics : ℕ → List ℕ → PhotoKeys → List (ℕ × A)
  unfolding read_record
  photo_metrics now [] keys = []
  photo_metrics now (i ∷ ids) keys =
      collect i (read_record (live_text now (keys i))) (photo_metrics now ids keys)

  -- the ids of the records differ
  pub data Distinct : List (ℕ × A) → Type 0 where
    nothing : Distinct []
    another :
        {i : ℕ} {r : A} {rs : List (ℕ × A)}
        → All (λ e. e.0 ≢ i) rs
        → Distinct rs
        → Distinct ((i, r) ∷ rs)

  save-other :
      (ttl now i : ℕ) (rs : List (ℕ × A)) (keys : PhotoKeys)
      → All (λ e. e.0 ≢ i) rs
      → save_photo_metrics ttl now rs keys i ≡ keys i
  unfolding save_photo_metrics
  save-other ttl now i [] keys h = refl
  save-other ttl now i ((j, r) ∷ rs) keys (h, hs) =
      save-other ttl now i rs (λ x. if j == x then some (encode r, now + ttl) else keys x) hs
      ∙ ground (arith, h)

  unfoldable pub ids : List (ℕ × A) → List ℕ
  ids [] = []
  ids ((i, r) ∷ rs) = i ∷ ids rs

  -- Records that were saved under different ids are read back in their order until their time to
  -- live has passed, when the JSON of a record is read as that record.
  pub save-photo_metrics :
      (ttl now later : ℕ) (rs : List (ℕ × A)) (keys : PhotoKeys)
      → ((r : A) → decode (encode r) ≡ some r)
      → Distinct rs
      → later < now + ttl
      → photo_metrics later (ids rs) (save_photo_metrics ttl now rs keys) ≡ rs
  unfolding save_photo_metrics photo_metrics read_record ids
  save-photo_metrics ttl now later [] keys inverse d fresh = refl
  save-photo_metrics ttl now later ((i, r) ∷ rs) keys inverse (another h d) fresh =
      let keys' = λ (j : ℕ). if i == j then some (encode r, now + ttl) else keys j in
      let there = save-other ttl now i rs keys' h in
      let rest = save-photo_metrics ttl now later rs keys' inverse d fresh in
      ground (arith, there, rest, inverse r)
