-- ===== src/Jobs/Tests/Publishing.antt =====
-- The publication of a result (app/jobs/kafka.py).
use ktb4_2nd_ai.Prelude.{
  ◌≡◌, refl, String, true, none, some, [], ◌∷◌, str_eq, if◌then◌else◌, arith, Bool-cases, inl, inr,
}
use ktb4_2nd_ai.Jobs.Models.{JobRecord}
use ktb4_2nd_ai.Jobs.Zset.{up_to}
use ktb4_2nd_ai.Jobs.Store.{Store}
use ktb4_2nd_ai.Jobs.Updates.{change, applied, commit, settle, claim_result_update}
use ktb4_2nd_ai.Jobs.Methods.{claim_result, acknowledge_result, pending}
use ktb4_2nd_ai.Jobs.Steps.{empty}
use ktb4_2nd_ai.Jobs.Intake.{answered, delivered}
use ktb4_2nd_ai.Jobs.Publishing.{
  Outbox, Delivery, acknowledge, send_result, on_claimed, on_claim_call, publish_one, publish_each,
  publish_pass,
}
use ktb4_2nd_ai.Jobs.Publishing.Sent.{WasSent, publish_pass-WasSent}
use ktb4_2nd_ai.Jobs.Tests.{cfg, over_job}

abbrev ended_store : Store
ended_store = record empty {
  jobs = λ j. if str_eq "j1" j then some over_job else none;
  pending = ("j1", 30) ∷ [];
}

abbrev outbox : Outbox
outbox = record { store = ended_store; sent = [] }

abbrev smooth : String → Delivery
smooth id = record { now = 40; claim = answered; send = delivered; acknowledge = answered }

abbrev published_job : JobRecord
published_job = record over_job { publish_owner = some "p1"; publish_until = 70; published = true }

published_there :
    (publish_pass cfg "p1" smooth answered 40 outbox).1.store.jobs "j1" ≡ some published_job
unfolding publish_pass publish_each publish_one on_claim_call on_claimed send_result acknowledge
    pending up_to claim_result change claim_result_update applied commit settle acknowledge_result
published_there = refl

nothing_published :
    (j : String) (u : JobRecord) → ended_store.jobs j ≡ some u → u.published ≡ true → WasSent u []
nothing_published j u e p = elim (Bool-cases (str_eq "j1" j)) [
  | inl b ↦ absurd (ground (arith, b, e, p))
  | inr b ↦ absurd (ground (arith, b, e))
]

publish_pass-WasSent_example :
    WasSent published_job (publish_pass cfg "p1" smooth answered 40 outbox).1.sent
publish_pass-WasSent_example =
    publish_pass-WasSent cfg "p1" smooth answered 40 outbox "j1" published_job nothing_published
      published_there refl
