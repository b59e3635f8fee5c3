-- ===== src/Jobs/Publishing/Claimed.antt =====
-- What the claim of a result does to the records (app/jobs/redis_store.py).
use ktb4_2nd_ai.Prelude.{
  ℕ, ◌≡◌, refl, String, Bool, true, false, Option, none, some, arith, Option-cases, Bool-cases, inl,
  inr,
}
use ktb4_2nd_ai.Schemas.{TaskStatus, is_terminal}
use ktb4_2nd_ai.Jobs.Models.{JobRecord, JobsSettings}
use ktb4_2nd_ai.Jobs.Store.{Store, Result, ok, set_job}
use ktb4_2nd_ai.Jobs.Updates.{
  changed, settle, requeue, watch, deadline, commit, applied, change, claim_result_update,
}
use ktb4_2nd_ai.Jobs.Methods.{claim_result}
use ktb4_2nd_ai.Jobs.Contracts.{claim_result_cases, claimed_by}

abbrev pub gives : Result (Option JobRecord) → Bool
gives (ok (some u)) = true
gives _ = false

-- what a claim does to the records: nothing, or it gives the one it wrote, which is not marked
pub data ClaimEnd (id : String) (s : Store) : Result (Option JobRecord) × Store → Type 0 where
  same :
      {o : Result (Option JobRecord)} {t : Store}
      → ((j : String) → t.jobs j ≡ s.jobs j)
      → gives o ≡ false
      → ClaimEnd id s (o, t)
  taken :
      {u : JobRecord} {t : Store}
      → u.published ≡ false
      → ((j : String) → t.jobs j ≡ set_job id u s.jobs j)
      → ClaimEnd id s (ok (some u), t)

watched :
    (d : Option ℕ) (u : JobRecord) (id : String) (s : Store)
    → u.published ≡ false
    → ClaimEnd id s (watch d u id s)
unfolding watch
watched none u id s h = same (λ j. refl) refl
watched (some d) u id s h = taken h (λ j. refl)

commit-ClaimEnd :
    (cfg : JobsSettings) (st : TaskStatus) (u : JobRecord) (was : Bool) (id : String) (now : ℕ)
    (s : Store)
    → u.published ≡ false
    → ClaimEnd id s (commit cfg st u was id none now s)
unfolding commit settle requeue
commit-ClaimEnd cfg TaskStatus.queued u was id now s h = taken h (λ j. refl)
commit-ClaimEnd cfg TaskStatus.processing u was id now s h = watched (deadline cfg u) u id s h
commit-ClaimEnd cfg TaskStatus.completed u was id now s h = taken h (λ j. refl)
commit-ClaimEnd cfg TaskStatus.failed u was id now s h = taken h (λ j. refl)
commit-ClaimEnd cfg TaskStatus.canceled u was id now s h = taken h (λ j. refl)

not_published :
    (cfg : JobsSettings) (publisher : String) (now : ℕ) (r u : JobRecord)
    → claim_result_update cfg publisher now r ≡ changed u
    → r.published ≡ false
unfolding claim_result_update
not_published cfg publisher now r u h = elim (Bool-cases r.published) [
  | inl e ↦ absurd (ground (arith, e, h))
  | inr e ↦ e
]

pub claim-ClaimEnd :
    (cfg : JobsSettings) (id publisher : String) (now : ℕ) (s : Store)
    → ClaimEnd id s (claim_result cfg id publisher now s)
unfolding claim_result change applied
claim-ClaimEnd cfg id publisher now s = elim (Option-cases (s.jobs id)) [
  | inl e ↦ rw (claim_result, change, e) (same (λ j. refl) refl)
  | inr (r, e) ↦ elim (claim_result_cases cfg publisher now r) [
    | inl u ↦ rw (claim_result, change, e, u) (same (λ j. refl) refl)
    | inr u ↦
        let v = claimed_by cfg publisher now r in
        rw (claim_result, change, e, u)
          (commit-ClaimEnd cfg v.status v (is_terminal r.status) id now s
            (not_published cfg publisher now r v u))
  ]
]
