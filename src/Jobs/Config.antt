-- ===== src/Jobs/Config.antt =====
-- `JobsSettings.check_jobs_settings` (app/jobs/config.py), and what the accepted settings give a
-- runner that sends heartbeats. `re.fullmatch` and `str.strip` are arguments.
use ktb4_2nd_ai.Prelude.{
  ℕ, ◌+◌, ◌*◌, ◌≤◌, ◌≡◌, String, Bool, true, false, not, ◌&&◌, ◌||◌, Option, none, some, List, [],
  ◌∷◌, ltb, leb, ◌==◌, str_eq, if◌then◌else◌, arith,
}
use ktb4_2nd_ai.Jobs.Models.{JobRecord, JobsSettings, job_timeout}
use ktb4_2nd_ai.Jobs.Store.{Store}
use ktb4_2nd_ai.Jobs.Updates.{before_limit, owns}
use ktb4_2nd_ai.Jobs.Methods.{heartbeat}
use ktb4_2nd_ai.Jobs.Endings.{heartbeat-owns}

-- the settings that the validator reads; times are in microseconds, and the topics are those of the
-- fields whose name ends in "_TOPIC"
pub record Config : Type 0 where
  pub store : JobsSettings
  pub heartbeat : ℕ
  pub topics : List String
  pub place_index_s3_uri : Option String
  pub place_index_sha256 : Option String
  pub place_index_path : Option String
  pub agent_enabled : Bool
  pub agent_budget : ℕ
  pub agent_concurrency : ℕ
  pub generation_inflight : ℕ

unfoldable pub among : String → List String → Bool
among t [] = false
among t (u ∷ us) = str_eq u t || among t us

-- `len(set(topics))`
unfoldable pub count_distinct : List String → ℕ
unfolding among
count_distinct [] = 0
count_distinct (t ∷ ts) = let rest = count_distinct ts in if among t ts then rest else rest + 1

-- `any(not topic.strip() for topic in topics)`
unfoldable pub any_blank : (String → Bool) → List String → Bool
any_blank blank [] = false
any_blank blank (t ∷ ts) = blank t || any_blank blank ts

-- an optional text that is neither absent nor empty
abbrev pub given : Option String → Bool
given none = false
given (some t) = not (str_eq t "")

-- `text or ""`
abbrev pub or_empty : Option String → String
or_empty none = ""
or_empty (some t) = t

unfoldable pub check_place_index : (String → Bool) → (String → Bool) → Config → Bool
check_place_index is_uri is_digest c =
    if given c.place_index_s3_uri || given c.place_index_sha256
    then is_uri (or_empty c.place_index_s3_uri)
      && (is_digest (or_empty c.place_index_sha256) && given c.place_index_path)
    else true

unfoldable pub check_agent : Config → Bool
check_agent c =
    if c.agent_enabled
    then not (leb c.store.process_timeout c.agent_budget)
      && not (ltb c.generation_inflight c.agent_concurrency)
    else true

-- `check_jobs_settings`; `false` is a `ValueError`
unfoldable pub check_jobs_settings :
    (String → Bool) → (String → Bool) → (String → Bool) → Config → Bool
unfolding count_distinct any_blank check_place_index check_agent
check_jobs_settings blank is_uri is_digest c =
    not (leb c.store.lease (c.heartbeat * 3))
    && (count_distinct c.topics == 6
        && (not (any_blank blank c.topics)
            && (check_place_index is_uri is_digest c && check_agent c)))

-- With accepted settings an owner that has sent a heartbeat still owns its job three intervals later,
-- so two heartbeats in a row may be lost, as long as the job's time is not over.
pub heartbeat-check_jobs_settings :
    (blank is_uri is_digest : String → Bool) (c : Config) (id owner : String) (now later : ℕ)
    (r : JobRecord) (s : Store)
    → check_jobs_settings blank is_uri is_digest c ≡ true
    → s.jobs id ≡ some r
    → owns c.store r owner now ≡ true
    → later ≤ now + c.heartbeat * 3
    → before_limit later r.started_at (job_timeout c.store r.kind) ≡ true
    → (u : JobRecord) × ((heartbeat c.store id owner now s).1.jobs id ≡ some u)
      × (owns c.store u owner later ≡ true)
unfolding check_jobs_settings
heartbeat-check_jobs_settings blank is_uri is_digest c id owner now later r s ok found mine soon
      time =
    heartbeat-owns c.store id owner now later r s found mine (ground (arith, ok, soon)) time
