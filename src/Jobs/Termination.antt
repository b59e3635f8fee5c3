-- ===== src/Jobs/Termination.antt =====
-- The loop of `claim` (app/jobs/redis_store.py) ends: a retry has dropped the stale slots, which it
-- does once, or an entry of the queue.
use ktb4_2nd_ai.Prelude.{
  ℕ, zero, suc, ◌+◌, ◌<◌, ◌≤◌, ◌≡◌, refl, String, Bool, true, false, Option, none, some, is_some,
  List, [], ◌∷◌, arith, bit, length, eq_iff, ap, Option-cases, Bool-cases, inl, inr,
}
use ktb4_2nd_ai.Schemas.{TaskStatus, is_status}
use ktb4_2nd_ai.Jobs.Models.{JobKind, Codec, JobRecord, JobsSettings}
use ktb4_2nd_ai.Jobs.Zset.{Zset, first, zrem}
use ktb4_2nd_ai.Jobs.Store.{Store, Result, set_kind}
use ktb4_2nd_ai.Jobs.Claim.{
  is_stale, any_stale, drop_stale, occupy, Attempt, retry, idle, broken, claimed, take_waiting,
  take_first, attempt, Signals, conclude, claim,
}

-- the attempts that may still be retried
work : JobKind → Store → ℕ
work k s = length (s.queue k) + bit (any_stale s (s.slots k))

length-zrem : (m : String) (z : Zset) → length (zrem m z) ≤ length z
unfolding zrem
length-zrem m [] = ground arith
length-zrem m ((n, t) ∷ z) = ground (arith, length-zrem m z)

no_stale :
    (s t : Store) (os : List (Option String))
    → t.jobs ≡ s.jobs
    → any_stale t (drop_stale s os) ≡ false
unfolding any_stale drop_stale is_stale
no_stale s t [] same_jobs = refl
no_stale s t (none ∷ os) same_jobs = ground (arith, no_stale s t os same_jobs)
no_stale s t (some id ∷ os) same_jobs = elim (Option-cases (s.jobs id)) [
  | inl e ↦ ground (arith, e, no_stale s t os same_jobs, ap (λ m. m id) same_jobs)
  | inr (r, e) ↦ ground (arith, e, no_stale s t os same_jobs, ap (λ m. m id) same_jobs)
]

same_stale :
    (s t : Store) (os : List (Option String)) → t.jobs ≡ s.jobs → any_stale t os ≡ any_stale s os
unfolding any_stale is_stale
same_stale s t [] h = refl
same_stale s t (none ∷ os) h = same_stale s t os h
same_stale s t (some id ∷ os) h = ground (arith, ap (λ m. m id) h, same_stale s t os h)

-- a retry leaves less work
Shrinks : JobKind → Store → Attempt × Store → Type 0
Shrinks k s (retry, t) = work k t < work k s
Shrinks k s (_, t) = Unit

first_drop : (m : String) (n : ℕ) (z : Zset) → length (zrem m ((m, n) ∷ z)) < length ((m, n) ∷ z)
unfolding zrem
first_drop m n z = ground (arith, length-zrem m z, eq_iff m m)

pub set_kind_same {ℓ} : {A : Type ℓ} (k : JobKind) (a : A) (m : JobKind → A) → set_kind k a m k ≡ a
set_kind_same JobKind.process a m = refl
set_kind_same JobKind.story a m = refl

-- dropping the first entry
dropped : JobKind → String → Store → Store
dropped k id s = record s { queue = set_kind k (zrem id (s.queue k)) s.queue }

dropped_less :
    (k : JobKind) (id : String) (n : ℕ) (s : Store)
    → first (s.queue k) ≡ some (id, n)
    → work k (dropped k id s) < work k s
unfolding dropped work
dropped_less k id n s e = go (s.queue k) refl
  where
    go : (z : Zset) → s.queue k ≡ z → work k (dropped k id s) < work k s
    go [] q = absurd (ground (arith, e, q))
    go ((m, x) ∷ z) q =
        let eq : m ≡ id = ground (arith, e, q) in
        ground (
          arith,
          q,
          eq,
          set_kind_same k (zrem id (s.queue k)) s.queue,
          first_drop id x z,
          same_stale s (dropped k id s) (s.slots k) refl,
        )

take_waiting-Shrinks :
    (cfg : JobsSettings) (k : JobKind) (owner : String) (stop : Bool) (id : String) (score : ℕ)
    (r : JobRecord) (now : ℕ) (s : Store)
    → Shrinks k s (take_waiting cfg k owner stop id score r now s)
unfolding take_waiting Shrinks
take_waiting-Shrinks cfg k owner true id score r now s = tt
take_waiting-Shrinks cfg k owner false id score r now s =
    elim (Option-cases (occupy id (s.slots k))) [ inl e ↦ rw e tt | inr (w, e) ↦ rw e tt ]

take_first-Shrinks :
    (cfg : JobsSettings) (k : JobKind) (owner : String) (stop : Bool) (e : Option (String × ℕ))
    (now : ℕ) (s : Store)
    → first (s.queue k) ≡ e
    → Shrinks k s (take_first cfg k owner stop e now s)
unfolding take_first Shrinks dropped
take_first-Shrinks cfg k owner stop none now s q = tt
take_first-Shrinks cfg k owner stop (some (id, score)) now s q = elim (Option-cases (s.jobs id)) [
  | inl e ↦ rw (take_first, e) (dropped_less k id score s q)
  | inr (r, e) ↦ elim (Bool-cases (is_status r.status TaskStatus.queued)) [
    | inl w ↦ rw (take_first, e, w) (take_waiting-Shrinks cfg k owner stop id score r now s)
    | inr w ↦ rw (take_first, e, w) (dropped_less k id score s q)
  ]
]

attempt-Shrinks :
    (cfg : JobsSettings) (k : JobKind) (owner : String) (stop : Bool) (now : ℕ) (s : Store)
    → Shrinks k s (attempt cfg k owner stop now s)
unfolding attempt Shrinks work
attempt-Shrinks cfg k owner stop now s = ground (
  arith,
  take_first-Shrinks cfg k owner stop (first (s.queue k)) now s refl,
  set_kind_same k (drop_stale s (s.slots k)) s.slots,
  no_stale s (record s { slots = set_kind k (drop_stale s (s.slots k)) s.slots }) (s.slots k) refl,
)

conclude_returns :
    (c : Codec) (cfg : JobsSettings) (k : JobKind) (stop : Bool) (now : ℕ) (s : Store)
    (p : Attempt × Store) (rest : Store → Option (Result (Option JobRecord) × Store))
    → Shrinks k s p
    → ((u : Store) → work k u < work k s → is_some (rest u) ≡ true)
    → is_some (conclude c cfg stop now p rest) ≡ true
unfolding conclude Shrinks
conclude_returns c cfg k stop now s (idle, t) rest h next = refl
conclude_returns c cfg k stop now s (broken, t) rest h next = refl
conclude_returns c cfg k stop now s (retry, t) rest h next = next t h
conclude_returns c cfg k stop now s (claimed id r score, t) rest h next = refl

enough :
    (c : Codec) (cfg : JobsSettings) (k : JobKind) (owner : String) (sig : Signals) (fuel : ℕ)
    (s : Store)
    → work k s < fuel
    → is_some (claim c cfg k owner sig fuel s) ≡ true
unfolding claim
enough c cfg k owner sig zero s h = absurd (omega arith)
enough c cfg k owner sig (suc fuel) s h = elim (Bool-cases (sig.before fuel)) [
  | inl e ↦ rw e refl
  | inr e ↦ rw e (
      conclude_returns c cfg k (sig.behind fuel) (sig.clock fuel) s
        (attempt cfg k owner (sig.during fuel) (sig.clock fuel) s) _
        (attempt-Shrinks cfg k owner (sig.during fuel) (sig.clock fuel) s)
        (λ u less. enough c cfg k owner sig fuel u (omega arith)))
]

-- The loop of `claim` returns on every store, when its fuel is two more than the length of the
-- queue: it tries at most once for each entry, once for stale slots and once more.
pub claim_returns :
    (c : Codec) (cfg : JobsSettings) (k : JobKind) (owner : String) (sig : Signals) (s : Store)
    → is_some (claim c cfg k owner sig (length (s.queue k) + 2) s) ≡ true
unfolding work
claim_returns c cfg k owner sig s =
    enough c cfg k owner sig (length (s.queue k) + 2) s (ground arith)
