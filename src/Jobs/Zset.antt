-- ===== src/Jobs/Zset.antt =====
-- Redis sorted sets, as the commands ZADD, ZREM, ZRANGE, ZPOPMIN and ZRANGEBYSCORE document them:
-- members are distinct and stand by score, then by their text.
use Prim.Native.Nat.{Ordering}
use Prim.Native.String.{compare as compare_text}
use ktb4_2nd_ai.Prelude.{
  ℕ, ◌≡◌, refl, String, Bool, true, false, not, ◌&&◌, ◌||◌, Option, none, some, List, [], ◌∷◌,
  arith, ltb, leb, ◌==◌, str_eq, eq_iff, if◌then◌else◌,
}

abbrev pub Zset : Type 0
Zset = List (String × ℕ)

unfoldable pub text_before : String → String → Bool
text_before a b = elim (compare_text a b) [ Ordering.lt ↦ true | _ ↦ false ]

pub before : String → ℕ → String → ℕ → Bool
unfolding text_before
before m s n t = ltb s t || (s == t && text_before m n)

unfoldable pub member : String → Zset → Bool
member m [] = false
member m ((n, t) ∷ z) = str_eq n m || member m z

unfoldable pub zrem : String → Zset → Zset
zrem m [] = []
zrem m ((n, t) ∷ z) = let rest = zrem m z in if str_eq n m then rest else (n, t) ∷ rest

unfoldable pub insert : String → ℕ → Zset → Zset
unfolding before
insert m s [] = (m, s) ∷ []
insert m s ((n, t) ∷ z) =
    let rest = insert m s z in if before m s n t then (m, s) ∷ (n, t) ∷ z else (n, t) ∷ rest

-- a member that is there already moves to its new score
unfoldable pub zadd : String → ℕ → Zset → Zset
unfolding insert zrem
zadd m s z = insert m s (zrem m z)

-- ZRANGE key 0 0 WITHSCORES
abbrev pub first : Zset → Option (String × ℕ)
first [] = none
first (e ∷ z) = some e

-- ZRANGEBYSCORE key -inf limit
unfoldable pub up_to : ℕ → Zset → List String
up_to limit [] = []
up_to limit ((n, t) ∷ z) = let rest = up_to limit z in if leb t limit then n ∷ rest else rest

pub member-zrem : (m j : String) (z : Zset) → member j (zrem m z) ≡ (not (str_eq m j) && member j z)
unfolding member zrem
member-zrem m j [] = ground arith
member-zrem m j ((n, t) ∷ z) = ground (arith, member-zrem m j z, eq_iff m j, eq_iff n j, eq_iff n m)

member-insert :
    (m j : String) (s : ℕ) (z : Zset) → member j (insert m s z) ≡ (str_eq m j || member j z)
unfolding member insert
member-insert m j s [] = refl
member-insert m j s ((n, t) ∷ z) = ground (arith, member-insert m j s z)

pub member-zadd :
    (m j : String) (s : ℕ) (z : Zset) → member j (zadd m s z) ≡ (str_eq m j || member j z)
unfolding zadd
member-zadd m j s z = ground (arith, member-insert m j s (zrem m z), member-zrem m j z)

pub member-first : (z : Zset) (m : String) (s : ℕ) → first z ≡ some (m, s) → member m z ≡ true
unfolding member
member-first [] m s h = absurd (cc)
member-first ((n, t) ∷ z) m s h = ground (arith, eq_iff n m)
