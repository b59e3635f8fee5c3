-- ===== src/Tasks/Counts.antt =====
-- How the store's operations change its lookups and its counts.
use ktb4_2nd_ai.Prelude.{
  ℕ, ◌+◌, ◌≤◌, ◌≡◌, ◌≢◌, refl, none, some, List, [], ◌∷◌, arith, bit, ◌==◌, if◌then◌else◌,
  Option-cases, inl, inr,
}
use ktb4_2nd_ai.Schemas.{TaskStatus, is_status}
use ktb4_2nd_ai.Tasks.{Task, find, put, modify, count, oldest}

-- a change of one task moves its share of the count
pub count-modify :
    (st : TaskStatus) (k : ℕ) (f : Task → Task) (ts : List Task) (t : Task)
    → find k ts ≡ some t
    → count st (modify k f ts) + bit (is_status t.status st)
      ≡ count st ts + bit (is_status (f t).status st)
unfolding find modify count
count-modify st k f [] t h = absurd (cc)
count-modify st k f (u ∷ ts) t h = ground (arith, count-modify st k f ts t)

-- a new task adds its share
pub count-put_new :
    (st : TaskStatus) (t : Task) (ts : List Task)
    → find t.trip_id ts ≡ none
    → count st (put t ts) ≡ count st ts + bit (is_status t.status st)
unfolding find put count
count-put_new st t [] h = omega arith
count-put_new st t (u ∷ ts) h = ground (arith, count-put_new st t ts)

-- an overwritten task takes its share along
pub count-put_old :
    (st : TaskStatus) (t u : Task) (ts : List Task)
    → find t.trip_id ts ≡ some u
    → count st (put t ts) + bit (is_status u.status st) ≡ count st ts + bit (is_status t.status st)
unfolding find put count
count-put_old st t u [] h = absurd (cc)
count-put_old st t u (v ∷ ts) h = ground (arith, count-put_old st t u ts)

-- a change that keeps the key is found where the task was
pub find-modify :
    (j k : ℕ) (f : Task → Task) (ts : List Task)
    → ((t : Task) → (f t).trip_id ≡ t.trip_id)
    → find j (modify k f ts)
      ≡ (if j == k then (elim (find k ts) [ none ↦ none | some t ↦ some (f t) ]) else find j ts)
unfolding find modify
find-modify j k f [] h = ground arith
find-modify j k f (u ∷ ts) h = ground (arith, find-modify j k f ts h, h u)

pub find-put :
    (j : ℕ) (t : Task) (ts : List Task)
    → find j (put t ts) ≡ (if t.trip_id == j then some t else find j ts)
unfolding find put
find-put j t [] = refl
find-put j t (u ∷ ts) = ground (arith, find-put j t ts)

pub trip_id-find : (k : ℕ) (ts : List Task) (t : Task) → find k ts ≡ some t → t.trip_id ≡ k
unfolding find
trip_id-find k [] t h = absurd (cc)
trip_id-find k (u ∷ ts) t h = ground (arith, trip_id-find k ts t)

-- The keys of a dict are distinct.
abbrev pub IsFresh : ℕ → List Task → Type 0
IsFresh k [] = Unit
IsFresh k (t ∷ ts) = (t.trip_id ≢ k) × IsFresh k ts

abbrev pub IsDict : List Task → Type 0
IsDict [] = Unit
IsDict (t ∷ ts) = IsFresh t.trip_id ts × IsDict ts

pub find_fresh : (k : ℕ) (ts : List Task) → IsFresh k ts → find k ts ≡ none
unfolding find
find_fresh k [] h = refl
find_fresh k (t ∷ ts) h = ground (arith, find_fresh k ts h.1, h.0)

fresh_ne :
    (u : Task) (ts : List Task) (t : Task)
    → IsFresh u.trip_id ts
    → find t.trip_id ts ≡ some t
    → u.trip_id ≢ t.trip_id
fresh_ne u ts t h p e = cc (find_fresh u.trip_id ts h, e)

-- what `min` picks is in the store under its key, and waits
pub oldest-find :
    (ts : List Task) (t : Task)
    → IsDict ts
    → oldest ts ≡ some t
    → (find t.trip_id ts ≡ some t) × (t.status ≡ TaskStatus.queued)
unfolding oldest find is_status
oldest-find [] t d h = absurd (cc)
oldest-find (u ∷ ts) t d h = elim (Option-cases (oldest ts)) [
  | inl e ↦ ground (arith, e)
  | inr (v, e) ↦
      ground (arith, e, oldest-find ts v d.1 e, find_fresh u.trip_id ts d.0, fresh_ne u ts v d.0)
]

-- where a task waits, `min` has a candidate
pub queued-oldest :
    (k : ℕ) (ts : List Task) (u : Task)
    → find k ts ≡ some u
    → u.status ≡ TaskStatus.queued
    → oldest ts ≢ none
unfolding oldest find is_status
queued-oldest k [] u p q = absurd (cc)
queued-oldest k (v ∷ ts) u p q = ground (arith, queued-oldest k ts u)

-- `min` picks a task that no waiting task precedes
pub oldest-minimal :
    (k : ℕ) (ts : List Task) (t u : Task)
    → oldest ts ≡ some t
    → find k ts ≡ some u
    → u.status ≡ TaskStatus.queued
    → t.created_at ≤ u.created_at
unfolding oldest find is_status
oldest-minimal k [] t u h p q = absurd (cc)
oldest-minimal k (v ∷ ts) t u h p q = elim (Option-cases (oldest ts)) [
  | inl e ↦ ground (arith, e, queued-oldest k ts u)
  | inr (w, e) ↦ ground (arith, e, oldest-minimal k ts w u e)
]

pub oldest-none : (ts : List Task) → oldest ts ≡ none → count TaskStatus.queued ts ≡ 0
unfolding oldest count
oldest-none [] h = refl
oldest-none (u ∷ ts) h = elim (Option-cases (oldest ts)) [
  | inl e ↦ ground (arith, e, oldest-none ts e)
  | inr (v, e) ↦ ground (arith, e)
]
