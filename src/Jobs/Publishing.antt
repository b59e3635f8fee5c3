-- ===== src/Jobs/Publishing.antt =====
-- The publication of results: a pass of `publish_results` (app/jobs/kafka.py) over the pending jobs. Each
-- job brings what Redis and the broker answer.
use ktb4_2nd_ai.Prelude.{
  ℕ, suc, String, Bool, true, false, Option, none, some, List, [], ◌∷◌, if◌then◌else◌,
}
use ktb4_2nd_ai.Jobs.Models.{Codec, JobRecord, JobResultEvent, JobsSettings}
use ktb4_2nd_ai.Jobs.Store.{Store, Result, ok, raised, decimal}
use ktb4_2nd_ai.Jobs.Methods.{claim_result, acknowledge_result, pending, recover}
use ktb4_2nd_ai.Jobs.Intake.{
  Call, answered, broken_before, broken_after, Send, delivered, too_large, failed_before,
  failed_after,
}
pub mod Claimed
pub mod Sent

-- a message of a result topic
pub record ResultMessage : Type 0 where
  pub topic : String
  pub key : String
  pub event : JobResultEvent

-- Redis and what the broker has of the result topics, the last message first
pub record Outbox : Type 0 where
  pub store : Store
  pub sent : List ResultMessage

-- what a job of a pass meets: the time and the reply of the claim, the send, and the reply of the
-- acknowledgement
pub record Delivery : Type 0 where
  pub now : ℕ
  pub claim : Call
  pub send : Send
  pub acknowledge : Call

-- how a pass goes on: with the next job, or it ends for a broken connection, or with an exception
-- that is not caught
pub data Progress : Type 0 where
  next_job aborted crashed : Progress

unfoldable pub result_message : JobRecord → JobResultEvent → ResultMessage
unfolding decimal
result_message r e = record {
  topic = r.result_topic;
  key = decimal (suc r.trip_id) r.trip_id;
  event = e;
}

abbrev pub add_sent : ResultMessage → Outbox → Outbox
add_sent m o = record o { sent = m ∷ o.sent }

-- the acknowledgement behind the broker's confirmation
unfoldable pub acknowledge : String → String → Call → Outbox → Progress × Outbox
acknowledge id publisher broken_before o = (next_job, o)
acknowledge id publisher _ o =
    (next_job, record o { store = acknowledge_result id publisher o.store })

unfoldable pub send_result :
    String → String → Delivery → ResultMessage → Send → Outbox → Progress × Outbox
unfolding acknowledge
send_result id publisher d m delivered o = acknowledge id publisher d.acknowledge (add_sent m o)
send_result id publisher d m too_large o = (next_job, o)
send_result id publisher d m failed_before o = (next_job, o)
send_result id publisher d m failed_after o = (next_job, add_sent m o)

unfoldable pub on_claimed :
    String → String → Delivery → Result (Option JobRecord) × Store → Outbox → Progress × Outbox
unfolding result_message send_result
on_claimed id publisher d (raised e, t) o = (crashed, record o { store = t })
on_claimed id publisher d (ok none, t) o = (next_job, record o { store = t })
on_claimed id publisher d (ok (some r), t) o = elim r.event [
  | none ↦ (crashed, record o { store = t })
  | some e ↦ send_result id publisher d (result_message r e) d.send (record o { store = t })
]

unfoldable pub on_claim_call :
    String
    → String
    → Delivery
    → Call
    → Result (Option JobRecord) × Store
    → Outbox
    → Progress × Outbox
unfolding on_claimed
on_claim_call id publisher d answered c o = on_claimed id publisher d c o
on_claim_call id publisher d broken_before c o = (aborted, o)
on_claim_call id publisher d broken_after c o = (aborted, record o { store = c.1 })

-- one job of the pass
unfoldable pub publish_one : JobsSettings → String → String → Delivery → Outbox → Progress × Outbox
unfolding on_claim_call
publish_one cfg publisher id d o =
    on_claim_call id publisher d d.claim (claim_result cfg id publisher d.now o.store) o

abbrev pub goes_on : Progress → Bool
goes_on next_job = true
goes_on _ = false

unfoldable pub publish_each :
    JobsSettings → String → (String → Delivery) → List String → Outbox → Progress × Outbox
unfolding publish_one
publish_each cfg publisher ds [] o = (next_job, o)
publish_each cfg publisher ds (id ∷ ids) o =
    let r = publish_one cfg publisher id (ds id) o in
    let rest = publish_each cfg publisher ds ids r.1 in if goes_on r.0 then rest else r

-- a pass, `pending` being read at `now`
unfoldable pub publish_pass :
    JobsSettings → String → (String → Delivery) → Call → ℕ → Outbox → Progress × Outbox
unfolding publish_each
publish_pass cfg publisher ds answered now o = publish_each cfg publisher ds (pending now o.store) o
publish_pass cfg publisher ds _ now o = (aborted, o)

-- a round of `recover_jobs`
unfoldable pub recover_jobs : Codec → JobsSettings → Call → ℕ → Store → Store
recover_jobs c cfg broken_before now s = s
recover_jobs c cfg _ now s = recover c cfg now s
