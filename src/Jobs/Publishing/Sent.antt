-- ===== src/Jobs/Publishing/Sent.antt =====
-- A result that is marked as published was sent (app/jobs/kafka.py).
use ktb4_2nd_ai.Prelude.{
  ℕ, ◌≡◌, String, true, false, Option, none, some, List, [], ◌∷◌, arith, eq_iff, str_eq,
  Option-cases, Bool-cases, inl, inr, sym, ◌∙◌, subst,
}
use ktb4_2nd_ai.Jobs.Models.{JobRecord, JobResultEvent, JobsSettings}
use ktb4_2nd_ai.Jobs.Store.{Store, Result, ok, raised}
use ktb4_2nd_ai.Jobs.Updates.{owned_by}
use ktb4_2nd_ai.Jobs.Methods.{claim_result, acknowledge_result, pending}
use ktb4_2nd_ai.Jobs.Intake.{
  Call, answered, broken_before, broken_after, Send, delivered, too_large, failed_before,
  failed_after,
}
use ktb4_2nd_ai.Jobs.Publishing.{
  ResultMessage, Outbox, Delivery, result_message, add_sent, acknowledge, send_result, on_claimed,
  on_claim_call, publish_one, goes_on, publish_each, publish_pass,
}
use ktb4_2nd_ai.Jobs.Publishing.Claimed.{ClaimEnd, same, taken, claim-ClaimEnd}

-- a message is among the sent ones
pub data IsSent (m : ResultMessage) : List ResultMessage → Type 0 where
  last : {ms : List ResultMessage} → IsSent m (m ∷ ms)
  earlier : {n : ResultMessage} {ms : List ResultMessage} → IsSent m ms → IsSent m (n ∷ ms)

-- a record that is marked has its event among the sent messages, on its topic
pub record WasSent (r : JobRecord) (sent : List ResultMessage) : Type 0 where
  pub event : JobResultEvent
  pub there : r.event ≡ some event
  pub message : IsSent (result_message r event) sent

pub AllSent : Outbox → Type 0
AllSent o =
    (id : String) (r : JobRecord) → o.store.jobs id ≡ some r → r.published ≡ true → WasSent r o.sent

WasSent-more :
    (r : JobRecord) (m : ResultMessage) (ms : List ResultMessage)
    → WasSent r ms
    → WasSent r (m ∷ ms)
WasSent-more r m ms h = record { event = h.event; there = h.there; message = earlier h.message }

add-AllSent : (m : ResultMessage) (o : Outbox) → AllSent o → AllSent (add_sent m o)
unfolding AllSent
add-AllSent m o h id r e p = WasSent-more r m o.sent (h id r e p)

claimed-AllSent :
    (id : String) (c : Result (Option JobRecord) × Store) (o : Outbox)
    → ClaimEnd id o.store c
    → AllSent o
    → AllSent (record o { store = c.1 })
unfolding AllSent
claimed-AllSent id (x, t) o (same eq b) h j r e p = h j r (sym (eq j) ∙ e) p
claimed-AllSent id (x, t) o (taken {u} fresh eq) h j r e p = elim (Bool-cases (str_eq id j)) [
  | inl b ↦
      let is_u : u ≡ r = ground (arith, eq j, e, b) in
      absurd (ground (arith, p, subst (λ (v : JobRecord). v.published ≡ false) is_u fresh))
  | inr b ↦ h j r (ground (arith, eq j, e, b)) p
]

acknowledged-AllSent :
    (id publisher : String) (u : JobRecord) (e : JobResultEvent) (o : Outbox)
    → o.store.jobs id ≡ some u
    → u.event ≡ some e
    → IsSent (result_message u e) o.sent
    → AllSent o
    → AllSent (record o { store = acknowledge_result id publisher o.store })
unfolding AllSent acknowledge_result result_message
acknowledged-AllSent id publisher u e o there ev sent h j r q p = elim (Bool-cases (str_eq id j)) [
  | inl b ↦ elim (Bool-cases (owned_by u.publish_owner publisher)) [
    | inl w ↦
        let is_r : record u { published = true } ≡ r = ground (arith, there, w, b, q) in
        subst (λ (v : JobRecord). WasSent v o.sent) is_r
          (record { event = e; there = ev; message = sent })
    | inr w ↦ h j r (ground (arith, there, w, q)) p
  ]
  | inr b ↦ elim (Bool-cases (owned_by u.publish_owner publisher)) [
    | inl w ↦ h j r (ground (arith, there, w, b, q)) p
    | inr w ↦ h j r (ground (arith, there, w, q)) p
  ]
]

acknowledge-AllSent :
    (id publisher : String) (c : Call) (u : JobRecord) (e : JobResultEvent) (o : Outbox)
    → o.store.jobs id ≡ some u
    → u.event ≡ some e
    → IsSent (result_message u e) o.sent
    → AllSent o
    → AllSent (acknowledge id publisher c o).1
unfolding acknowledge
acknowledge-AllSent id publisher answered u e o there ev sent h =
    acknowledged-AllSent id publisher u e o there ev sent h
acknowledge-AllSent id publisher broken_before u e o there ev sent h = h
acknowledge-AllSent id publisher broken_after u e o there ev sent h =
    acknowledged-AllSent id publisher u e o there ev sent h

send-AllSent :
    (id publisher : String) (d : Delivery) (c : Send) (u : JobRecord) (e : JobResultEvent)
    (o : Outbox)
    → o.store.jobs id ≡ some u
    → u.event ≡ some e
    → AllSent o
    → AllSent (send_result id publisher d (result_message u e) c o).1
unfolding send_result
send-AllSent id publisher d delivered u e o there ev h =
    let m = result_message u e in
    acknowledge-AllSent id publisher d.acknowledge u e (add_sent m o) there ev last
      (add-AllSent m o h)
send-AllSent id publisher d too_large u e o there ev h = h
send-AllSent id publisher d failed_before u e o there ev h = h
send-AllSent id publisher d failed_after u e o there ev h = add-AllSent (result_message u e) o h

on_claimed-AllSent :
    (id publisher : String) (d : Delivery) (c : Result (Option JobRecord) × Store) (o : Outbox)
    → ClaimEnd id o.store c
    → AllSent o
    → AllSent (on_claimed id publisher d c o).1
unfolding on_claimed
on_claimed-AllSent id publisher d (raised x, t) o k h = claimed-AllSent id (raised x, t) o k h
on_claimed-AllSent id publisher d (ok none, t) o k h = claimed-AllSent id (ok none, t) o k h
on_claimed-AllSent id publisher d (ok (some u), t) o (same eq b) h = absurd (cc)
on_claimed-AllSent id publisher d (ok (some u), t) o (taken fresh eq) h =
    let kept = claimed-AllSent id (ok (some u), t) o (taken fresh eq) h in
    let there : t.jobs id ≡ some u = ground (arith, eq id, eq_iff id id) in
    elim (Option-cases u.event) [
      | inl n ↦ rw (on_claimed, n) kept
      | inr (e, n) ↦
          rw (on_claimed, n)
            (send-AllSent id publisher d d.send u e (record o { store = t }) there n kept)
    ]

publish_one-AllSent :
    (cfg : JobsSettings) (publisher id : String) (d : Delivery) (o : Outbox)
    → AllSent o
    → AllSent (publish_one cfg publisher id d o).1
unfolding publish_one on_claim_call
publish_one-AllSent cfg publisher id d o h = by_call d.claim
  where
    k : ClaimEnd id o.store (claim_result cfg id publisher d.now o.store)
    k = claim-ClaimEnd cfg id publisher d.now o.store

    by_call :
        (c : Call)
        → AllSent (on_claim_call id publisher d c (claim_result cfg id publisher d.now o.store) o).1
    by_call answered = on_claimed-AllSent id publisher d _ o k h
    by_call broken_before = h
    by_call broken_after = claimed-AllSent id _ o k h

publish_each-AllSent :
    (cfg : JobsSettings) (publisher : String) (ds : String → Delivery) (ids : List String)
    (o : Outbox)
    → AllSent o
    → AllSent (publish_each cfg publisher ds ids o).1
unfolding publish_each
publish_each-AllSent cfg publisher ds [] o h = h
publish_each-AllSent cfg publisher ds (id ∷ ids) o h =
    let r = publish_one cfg publisher id (ds id) o in
    let one = publish_one-AllSent cfg publisher id (ds id) o h in
    elim (Bool-cases (goes_on r.0)) [
      | inl b ↦ rw (publish_each, b) (publish_each-AllSent cfg publisher ds ids r.1 one)
      | inr b ↦ rw (publish_each, b) one
    ]

pass-AllSent :
    (cfg : JobsSettings) (publisher : String) (ds : String → Delivery) (c : Call) (now : ℕ)
    (o : Outbox)
    → AllSent o
    → AllSent (publish_pass cfg publisher ds c now o).1
unfolding publish_pass
pass-AllSent cfg publisher ds answered now o h =
    publish_each-AllSent cfg publisher ds (pending now o.store) o h
pass-AllSent cfg publisher ds broken_before now o h = h
pass-AllSent cfg publisher ds broken_after now o h = h

-- However Redis and the broker answer, when every job that is marked as published has had its event
-- sent to its result topic, then this is so behind a pass of `publish_results`.
pub publish_pass-WasSent :
    (cfg : JobsSettings) (publisher : String) (ds : String → Delivery) (c : Call) (now : ℕ)
    (o : Outbox) (id : String) (r : JobRecord)
    → ((j : String) (u : JobRecord)
        → o.store.jobs j ≡ some u
        → u.published ≡ true
        → WasSent u o.sent)
    → (publish_pass cfg publisher ds c now o).1.store.jobs id ≡ some r
    → r.published ≡ true
    → WasSent r (publish_pass cfg publisher ds c now o).1.sent
unfolding AllSent
publish_pass-WasSent cfg publisher ds c now o id r h = pass-AllSent cfg publisher ds c now o h id r
