-- ===== src/Jobs/Sound/Claim.antt =====
-- Every attempt of `claim`, and its loop, keeps the store sound.
use ktb4_2nd_ai.Prelude.{
  ℕ, zero, suc, ◌+◌, ◌≡◌, ◌≢◌, refl, String, Bool, true, false, ◌||◌, Option, none, some, List, [],
  ◌∷◌, arith, str_eq, eq_iff, Bool-cases, Option-cases, inl, inr, sym, ap, ◌∙◌, some_injective,
  length, leb, min,
}
use ktb4_2nd_ai.Schemas.{TaskStatus, is_status}
use ktb4_2nd_ai.Jobs.Models.{JobKind, same_kind, JobRecord, JobsSettings, job_timeout, Codec}
use ktb4_2nd_ai.Jobs.Zset.{first, member, zrem, member-zadd, member-zrem, member-first}
use ktb4_2nd_ai.Jobs.Store.{Store, Result, set_kind, occupies}
use ktb4_2nd_ai.Jobs.Methods.{return_unstarted}
use ktb4_2nd_ai.Jobs.Claim.{
  is_stale, any_stale, drop_stale, occupied, occupy, Attempt, idle, retry, broken, claimed, taken,
  take_over, limit, take_waiting, take_first, attempt, Signals, after_claim, conclude, claim,
}
use ktb4_2nd_ai.Jobs.Sound.{IsSound, one_job-IsSound}
use ktb4_2nd_ai.Jobs.Sound.Change.{same_kind_iff, change-IsSound}
use ktb4_2nd_ai.Jobs.Sound.Updates.{return-Lawful}

occupies-drop_stale :
    (s : Store) (j : String) (os : List (Option String))
    → is_stale s (some j) ≡ false
    → occupies j (drop_stale s os) ≡ occupies j os
unfolding occupies drop_stale
occupies-drop_stale s j [] h = refl
occupies-drop_stale s j (none ∷ os) h = ground (arith, occupies-drop_stale s j os h)
occupies-drop_stale s j (some o ∷ os) h = ground (
  arith,
  occupies-drop_stale s j os h,
  eq_iff o j,
  ap (λ (x : String). is_stale s (some x)) {x = o} {y = j},
)

occupies-occupy :
    (id j : String) (os os' : List (Option String))
    → occupy id os ≡ some os'
    → occupies j os' ≡ (str_eq id j || occupies j os)
unfolding occupies occupy
occupies-occupy id j [] os' h = absurd (cc)
occupies-occupy id j (none ∷ os) os' h = ground arith
occupies-occupy id j (some o ∷ os) os' h = elim (Option-cases (occupy id os)) [
  | inl e ↦ ground (arith, e)
  | inr (rest, e) ↦ ground (arith, e, occupies-occupy id j os rest e)
]

live_slot :
    (s : Store) (j : String) (r : JobRecord)
    → s.jobs j ≡ some r
    → r.status ≡ TaskStatus.processing
    → is_stale s (some j) ≡ false
unfolding is_stale
live_slot s j r p runs = ground arith

-- dropping the slots of ended jobs
drop_stale-IsSound :
    (k : JobKind) (s : Store)
    → IsSound s
    → IsSound (record s { slots = set_kind k (drop_stale s (s.slots k)) s.slots })
drop_stale-IsSound k s h = record {
  kept = λ j r p.
      let old = h.kept j r p in
      record {
        waits = old.waits;
        watched = old.watched;
        slot = λ runs. ground (
          arith,
          occupies-drop_stale s j (s.slots k) (live_slot s j r p runs),
          old.slot runs,
          same_kind_iff k r.kind,
        );
        heard = old.heard;
        started = old.started;
        event_iff = old.event_iff;
        result = old.result;
        newest = old.newest;
      };
  in_queue = h.in_queue;
}

-- dropping a queue entry that has no QUEUED record
drop_entry-IsSound :
    (k : JobKind) (id : String) (s : Store)
    → IsSound s
    → ((r : JobRecord) → s.jobs id ≡ some r → r.status ≢ TaskStatus.queued)
    → IsSound (record s { queue = set_kind k (zrem id (s.queue k)) s.queue })
drop_entry-IsSound k id s h gone = record {
  kept = λ j r p.
      let old = h.kept j r p in
      record {
        waits = λ e.
            let other : id ≢ j = λ q. gone r (ap s.jobs q ∙ p) e in
            ground (
              arith,
              member-zrem id j (s.queue k),
              eq_iff id j,
              old.waits e,
              same_kind_iff k r.kind,
              other,
            );
        watched = old.watched;
        slot = old.slot;
        heard = old.heard;
        started = old.started;
        event_iff = old.event_iff;
        result = old.result;
        newest = old.newest;
      };
  in_queue =
      λ q j m. h.in_queue q j (ground (arith, member-zrem id j (s.queue k), same_kind_iff k q));
}

same_kind_refl : (k : JobKind) → same_kind k k ≡ true
same_kind_refl k = ground arith

take_over-IsSound :
    (cfg : JobsSettings) (k : JobKind) (owner id : String) (r : JobRecord)
    (slots : List (Option String)) (now : ℕ) (s : Store)
    → IsSound s
    → s.jobs id ≡ some r
    → r.kind ≡ k
    → r.status ≡ TaskStatus.queued
    → occupy id (s.slots k) ≡ some slots
    → IsSound (take_over cfg k id (taken owner now r) slots now s)
unfolding take_over
take_over-IsSound cfg k owner id r slots now s h found kind waits free =
    let old = h.kept id r found in
    one_job-IsSound s _ id (taken owner now r) h
      (λ j ne. record {
        jobs = ground (arith, eq_iff id j);
        queue = λ q. ground (arith, eq_iff id j, member-zrem id j (s.queue k), same_kind_iff k q);
        running = ground (
          arith,
          eq_iff id j,
          member-zadd id j (now + min cfg.lease (job_timeout cfg r.kind)) s.running,
        );
        pending = refl;
        slots = λ q.
            ground
              (arith, eq_iff id j, occupies-occupy id j (s.slots k) slots free, same_kind_iff k q);
      })
      (λ j u ne p live. (h.kept j u p).newest live) (ground (arith, eq_iff id id))
      (record {
        waits = λ e. ground arith;
        watched = λ e. ground (
          arith,
          eq_iff id id,
          member-zadd id id (now + min cfg.lease (job_timeout cfg r.kind)) s.running,
        );
        slot = λ e. ground (
          arith,
          eq_iff id id,
          occupies-occupy id id (s.slots k) slots free,
          same_kind_refl r.kind,
          kind,
        );
        heard = λ e. refl;
        started = λ e. refl;
        event_iff = ground (arith, old.event_iff);
        result = λ e p. ground arith;
        newest = λ e. old.newest (ground arith);
      })
      (λ q m. elim (Bool-cases (same_kind k q)) [
        | inl e ↦ kind ∙ same_kind_iff k q e
        | inr e ↦
            let (u, p, uq) = h.in_queue q id (ground (arith, e)) in
            ap (λ (x : JobRecord). x.kind) (some_injective (sym found ∙ p)) ∙ uq
      ])

take_waiting-IsSound :
    (cfg : JobsSettings) (k : JobKind) (owner : String) (stop : Bool) (id : String) (score : ℕ)
    (r : JobRecord) (now : ℕ) (s : Store)
    → IsSound s
    → s.jobs id ≡ some r
    → r.kind ≡ k
    → r.status ≡ TaskStatus.queued
    → IsSound (take_waiting cfg k owner stop id score r now s).1
unfolding take_waiting
take_waiting-IsSound cfg k owner true id score r now s h found kind waits = h
take_waiting-IsSound cfg k owner false id score r now s h found kind waits =
    elim (Option-cases (occupy id (s.slots k))) [
      | inl e ↦ rw (e, take_waiting) h
      | inr (slots, e) ↦
          rw (e, take_waiting) (take_over-IsSound cfg k owner id r slots now s h found kind waits e)
    ]

take_entry-IsSound :
    (cfg : JobsSettings) (k : JobKind) (owner : String) (stop : Bool) (id : String) (score now : ℕ)
    (s : Store)
    → IsSound s
    → member id (s.queue k) ≡ true
    → IsSound (take_first cfg k owner stop (some (id, score)) now s).1
unfolding take_first is_status
take_entry-IsSound cfg k owner stop id score now s h m =
    let (r, found, kind) = h.in_queue k id m in
    rw (found, take_first)
      (elim (Bool-cases (is_status r.status TaskStatus.queued)) [
        | inl e ↦
            rw e
              (take_waiting-IsSound cfg k owner stop id score r now s h found kind (ground arith))
        | inr e ↦ rw e (
            drop_entry-IsSound k id s h (λ u p waits.
              let same : r ≡ u = some_injective (sym found ∙ p) in
              ground (arith, ap (λ (x : JobRecord). x.status) same)))
      ])

take_first-IsSound :
    (cfg : JobsSettings) (k : JobKind) (owner : String) (stop : Bool) (e : Option (String × ℕ))
    (now : ℕ) (s : Store)
    → IsSound s
    → first (s.queue k) ≡ e
    → IsSound (take_first cfg k owner stop e now s).1
unfolding take_first
take_first-IsSound cfg k owner stop none now s h e = h
take_first-IsSound cfg k owner stop (some (id, score)) now s h e =
    take_entry-IsSound cfg k owner stop id score now s h (member-first (s.queue k) id score e)

pub attempt-IsSound :
    (cfg : JobsSettings) (k : JobKind) (owner : String) (stop : Bool) (now : ℕ) (s : Store)
    → IsSound s
    → IsSound (attempt cfg k owner stop now s).1
unfolding attempt
attempt-IsSound cfg k owner stop now s h = elim (Bool-cases (any_stale s (s.slots k))) [
  | inl e ↦ rw (e, attempt) (drop_stale-IsSound k s h)
  | inr e ↦
      rw (e, attempt)
        (elim (Bool-cases (leb (limit cfg k) (occupied (s.slots k)))) [
          | inl full ↦ rw full h
          | inr room ↦
              rw room (elim (Bool-cases (leb (length (s.slots k)) (occupied (s.slots k)))) [
                | inl b ↦ rw b h
                | inr b ↦
                    rw b (take_first-IsSound cfg k owner stop (first (s.queue k)) now s h refl)
              ])
        ])
]

pub return_unstarted-IsSound :
    (c : Codec) (cfg : JobsSettings) (id owner : String) (score now : ℕ) (s : Store)
    → IsSound s
    → IsSound (return_unstarted c cfg id owner score now s).1
unfolding return_unstarted
return_unstarted-IsSound c cfg id owner score now s h =
    change-IsSound cfg id _ (some score) now s h
      (λ r found. return-Lawful s id r (h.kept id r found) c cfg owner now score)

after_claim-IsSound :
    (c : Codec) (cfg : JobsSettings) (stop : Bool) (now : ℕ) (id : String) (r : JobRecord)
    (score : ℕ) (s : Store)
    → IsSound s
    → IsSound (after_claim c cfg stop now id r score s).1
unfolding after_claim
after_claim-IsSound c cfg true now id r score s h =
    return_unstarted-IsSound c cfg id _ score now s h
after_claim-IsSound c cfg false now id r score s h = h

-- the store that a claim leaves, whatever it returns
abbrev pub SoundOutcome : Option (Result (Option JobRecord) × Store) → Type 0
SoundOutcome none = Unit
SoundOutcome (some (r, s)) = IsSound s

conclude-SoundOutcome :
    (c : Codec) (cfg : JobsSettings) (stop : Bool) (now : ℕ) (a : Attempt) (s : Store)
    (rest : Store → Option (Result (Option JobRecord) × Store))
    → IsSound s
    → ((u : Store) → IsSound u → SoundOutcome (rest u))
    → SoundOutcome (conclude c cfg stop now (a, s) rest)
unfolding conclude
conclude-SoundOutcome c cfg stop now idle s rest h next = h
conclude-SoundOutcome c cfg stop now broken s rest h next = h
conclude-SoundOutcome c cfg stop now retry s rest h next = next s h
conclude-SoundOutcome c cfg stop now (claimed id r score) s rest h next =
    after_claim-IsSound c cfg stop now id r score s h

pub claim-SoundOutcome :
    (c : Codec) (cfg : JobsSettings) (k : JobKind) (owner : String) (sig : Signals) (fuel : ℕ)
    (s : Store)
    → IsSound s
    → SoundOutcome (claim c cfg k owner sig fuel s)
unfolding claim
claim-SoundOutcome c cfg k owner sig zero s h = tt
claim-SoundOutcome c cfg k owner sig (suc fuel) s h = elim (Bool-cases (sig.before fuel)) [
  | inl e ↦ rw e h
  | inr e ↦ rw e (
      conclude-SoundOutcome c cfg (sig.behind fuel) (sig.clock fuel)
        (attempt cfg k owner (sig.during fuel) (sig.clock fuel) s).0
        (attempt cfg k owner (sig.during fuel) (sig.clock fuel) s).1 _
        (attempt-IsSound cfg k owner (sig.during fuel) (sig.clock fuel) s h)
        (λ u hu. claim-SoundOutcome c cfg k owner sig fuel u hu))
]
