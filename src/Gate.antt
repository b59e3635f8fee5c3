-- ===== src/Gate.antt =====
-- `RequestGate` (app/jobs/gpu_requests.py): the limit on the calls to a GPU server that all replicas
-- share, as a sorted set of tokens by the time at which their lease ends.
use ktb4_2nd_ai.Prelude.{
  ℕ, suc, ◌+◌, ◌≤◌, ◌≡◌, refl, String, Bool, true, false, List, [], ◌∷◌, arith, ltb, leb, bit,
  if◌then◌else◌,
}
use ktb4_2nd_ai.Jobs.Zset.{Zset, insert, zrem, zadd}

-- ZCOUNT key (now +inf
unfoldable pub live : ℕ → Zset → ℕ
live now [] = 0
live now ((t, s) ∷ z) = bit (ltb now s) + live now z

-- ZREMRANGEBYSCORE key -inf now
unfoldable pub expire : ℕ → Zset → Zset
expire now [] = []
expire now ((t, s) ∷ z) = let rest = expire now z in if leb s now then rest else (t, s) ∷ rest

-- `_claim`
unfoldable pub claim : ℕ → String → ℕ → ℕ → Zset → Bool × Zset
unfolding live expire
claim limit token lease now z =
    if leb limit (live now z) then (false, z) else (true, zadd token (now + lease) (expire now z))

-- the loop of `run` until its wait is over: an attempt at each of the times; `false` is
-- `GateUnavailable`
unfoldable pub wait : ℕ → String → ℕ → List ℕ → Zset → Bool × Zset
unfolding claim
wait limit token lease [] z = (false, z)
wait limit token lease (now ∷ later) z =
    let rest = wait limit token lease later z in
    if (claim limit token lease now z).0 then claim limit token lease now z else rest

-- the `finally` of `run`
unfoldable pub release : String → Zset → Zset
release token z = zrem token z

live-insert : (now s : ℕ) (m : String) (z : Zset) → live now (insert m s z) ≤ suc (live now z)
unfolding live insert
live-insert now s m [] = ground arith
live-insert now s m ((n, t) ∷ z) = ground (arith, live-insert now s m z)

live-zrem : (now : ℕ) (m : String) (z : Zset) → live now (zrem m z) ≤ live now z
unfolding live zrem
live-zrem now m [] = ground arith
live-zrem now m ((n, t) ∷ z) = ground (arith, live-zrem now m z)

live-expire : (now : ℕ) (z : Zset) → live now (expire now z) ≤ live now z
unfolding live expire
live-expire now [] = ground arith
live-expire now ((n, t) ∷ z) = ground (arith, live-expire now z)

live_later : (now later : ℕ) (z : Zset) → now ≤ later → live later z ≤ live now z
unfolding live
live_later now later [] h = ground arith
live_later now later ((n, t) ∷ z) h = ground (arith, live_later now later z h)

-- The replicas' claims and releases, in any order, at times that do not go back.
pub data Calls (limit : ℕ) : ℕ → Zset → Type 0 where
  opened : (now : ℕ) → Calls limit now []
  claimed :
      {then_ : ℕ} {z : Zset} (token : String) (lease now : ℕ)
      → Calls limit then_ z
      → then_ ≤ now
      → Calls limit now (claim limit token lease now z).1
  released :
      {now : ℕ} {z : Zset} (token : String) → Calls limit now z → Calls limit now (release token z)

claim-live :
    (limit : ℕ) (token : String) (lease now : ℕ) (z : Zset)
    → live now z ≤ limit
    → live now (claim limit token lease now z).1 ≤ limit
unfolding claim zadd
claim-live limit token lease now z h = ground (
  arith,
  live-insert now (now + lease) token (zrem token (expire now z)),
  live-zrem now token (expire now z),
  live-expire now z,
)

-- Whatever replicas claim and release, at most `limit` calls have a lease that is not over.
pub Calls-bounded : (limit now : ℕ) (z : Zset) → Calls limit now z → live now z ≤ limit
unfolding release live
Calls-bounded limit now z (opened n) = ground arith
Calls-bounded limit now z (claimed {then_} {z = w} token lease n c h) =
    claim-live limit token lease now w
      (ground (arith, live_later then_ now w h, Calls-bounded limit then_ w c))
Calls-bounded limit now z (released {now = n} {z = w} token c) =
    ground (arith, live-zrem now token w, Calls-bounded limit now w c)

-- A call that waits in vain leaves the tokens as they were.
pub wait-refused :
    (limit : ℕ) (token : String) (lease : ℕ) (times : List ℕ) (z : Zset)
    → (wait limit token lease times z).0 ≡ false
    → (wait limit token lease times z).1 ≡ z
unfolding wait claim
wait-refused limit token lease [] z h = refl
wait-refused limit token lease (now ∷ later) z h =
    ground (arith, wait-refused limit token lease later z)
