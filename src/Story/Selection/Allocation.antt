-- ===== src/Story/Selection/Allocation.antt =====
-- The shares of the places (`allocate`, app/story/selection.py).
use native.Mathlib.Nat.{
  zero-add, mul-add, mul_comm, mod-lt, div-add-mod, mul-le-mul_left, le_of_mul-le-mul_left,
  lt_of_mul-lt-mul_left,
}
use ktb4_2nd_ai.Prelude.{
  ℕ, zero, suc, ◌+◌, ◌-◌, ◌*◌, ◌/◌, ◌%◌, ◌≤◌, ◌<◌, ◌≡◌, ◌⊎◌, refl, false, some, List, [], ◌∷◌, map,
  ltb, ◌==◌, length, take, sum, min, All, arith, Bool-cases, inl, inr, ap, ◌∙◌, subst,
}
use ktb4_2nd_ai.Story.Selection.{
  nth, range, sort, bump_all, shares, remainder, distribute, any_empty, is_empty, allocate,
}
use ktb4_2nd_ai.Story.Selection.Order.{
  weigh, weigh-take, weigh-sort, sort-Descends, positive, take-positive,
}
use ktb4_2nd_ai.Story.Selection.Bump.{
  same, length-bump_all, sum-bump_all, nth-bump_all, nth-map, nth_out, length-map, range_once,
  range_bound, All-sort, All-take, absent_or,
}

-- the parts and the remainders of a division make up the whole
module _ (r t : ℕ) where
  parts : List ℕ → ℕ
  parts cs = sum (map (λ c. r * c / t) cs)

  rests : List ℕ → ℕ
  rests cs = sum (map (λ c. r * c % t) cs)

  parts_and_rests : (cs : List ℕ) → t * parts cs + rests cs ≡ r * sum cs
  unfolding parts rests
  parts_and_rests [] = ground arith
  parts_and_rests (c ∷ cs) =
      let h = parts_and_rests cs in
      let one = div-add-mod (r * c) t in
      let apart : t * (r * c / t + parts cs) ≡ t * (r * c / t) + t * parts cs =
        mul-add t (r * c / t) (parts cs) in
      let whole : r * (c + sum cs) ≡ r * c + r * sum cs = mul-add r c (sum cs) in
      ground (arith, h, one, apart, whole)

  -- each remainder is less than the divisor, so that many places have one
  rests_bound :
      (cs : List ℕ) (key : ℕ → ℕ) (k : ℕ)
      → 0 < t
      → ((i : ℕ) → key (k + i) ≡ r * nth i cs % t)
      → rests cs ≤ t * weigh (positive key) (range k (length cs))
  unfolding rests weigh range positive nth
  rests_bound [] key k h e = ground arith
  rests_bound (c ∷ cs) key k h e =
      let next : (i : ℕ) → key (suc k + i) ≡ r * nth i cs % t =
        λ i. ap key (ground arith) ∙ e (suc i) in
      let this : key k ≡ r * c % t = ap key (ground arith) ∙ e 0 in
      let more = rests_bound cs key (suc k) h next in
      let w = weigh (positive key) (range (suc k) (length cs)) in
      let small = mod-lt (r * c) h in
      let one : r * c % t ≤ t * positive key k = elim (Bool-cases (ltb 0 (key k))) [
        | inl b ↦ rw b (ground arith)
        | inr b ↦ rw b (ground arith)
      ] in
      let apart : t * (positive key k + w) ≡ t * positive key k + t * w =
        mul-add t (positive key k) w in
      ground arith

length-take : (k : ℕ) (xs : List ℕ) → k ≤ length xs → length (take k xs) ≡ k
length-take zero xs h = refl
length-take (suc k) [] h = absurd (ground arith)
length-take (suc k) (x ∷ xs) h = ap suc (length-take k xs (ground arith))

positive-length : (key : ℕ → ℕ) (is : List ℕ) → weigh (positive key) is ≤ length is
unfolding weigh positive
positive-length key [] = ground arith
positive-length key (i ∷ is) = ground (arith, positive-length key is)

module _ (remaining : ℕ) (capacity : List ℕ) (some_left : 0 < remaining)
    (enough : remaining ≤ sum capacity) where
  total : ℕ
  total = sum capacity

  key : ℕ → ℕ
  key = remainder remaining capacity

  given : List ℕ
  given = shares remaining capacity

  left : ℕ
  left = remaining - sum given

  order : List ℕ
  order = sort key (range 0 (length capacity))

  balance : (total * sum given + rests remaining total capacity ≡ remaining * total)
  unfolding given shares parts total
  balance = parts_and_rests remaining total capacity

  given-le : sum given ≤ remaining
  unfolding total
  given-le =
      let b : total * sum given ≤ total * remaining =
        ground (arith, balance, mul_comm total remaining) in
      le_of_mul-le-mul_left b (ground arith)

  left-le : left ≤ weigh (positive key) (range 0 (length capacity))
  unfolding total left key remainder
  left-le =
      let w = weigh (positive key) (range 0 (length capacity)) in
      let bound =
        rests_bound remaining total capacity key 0 (ground arith) (λ i. ap key (zero-add i)) in
      let apart : total * (left + sum given) ≡ total * left + total * sum given =
        mul-add total left (sum given) in
      let whole : left + sum given ≡ remaining = ground (arith, given-le) in
      let b : total * left ≤ total * w =
        ground (
          arith,
          balance,
          bound,
          apart,
          ap (λ (x : ℕ). total * x) whole,
          mul_comm total remaining,
        ) in
      le_of_mul-le-mul_left b (ground arith)

  chosen : List ℕ
  chosen = take left order

  chosen-positive : All (λ i. 0 < key i) chosen
  unfolding chosen order
  chosen-positive =
      take-positive key left order (sort-Descends key (range 0 (length capacity)))
        (ground (arith, left-le, weigh-sort key (positive key) (range 0 (length capacity))))

  chosen_once : (j : ℕ) → weigh (same j) chosen ≤ 1
  unfolding chosen order
  chosen_once j = ground (
    arith,
    weigh-take (same j) left order,
    weigh-sort key (same j) (range 0 (length capacity)),
    range_once j 0 (length capacity),
  )

  length-given : length given ≡ length capacity
  unfolding given shares
  length-given = length-map _ capacity

  chosen_bound : All (λ i. i < length given) chosen
  unfolding chosen order
  chosen_bound =
      let n = length capacity in
      let all =
        All-take (λ i. i < 0 + n) left order
          (All-sort key (λ i. i < 0 + n) (range 0 n) (range_bound 0 n)) in
      subst (λ (m : ℕ). All (λ i. i < m) chosen) (ground (arith, length-given)) all

  length-chosen : length chosen ≡ left
  unfolding chosen order
  length-chosen =
      length-take left order (ground (arith, left-le, positive-length key order, ordered))
    where
      ordered : weigh (positive key) order ≡ weigh (positive key) (range 0 (length capacity))
      ordered = weigh-sort key (positive key) (range 0 (length capacity))

  distribute_bumps : distribute remaining capacity ≡ bump_all chosen given
  unfolding distribute chosen order left given key
  distribute_bumps = refl

  length-distribute : length (distribute remaining capacity) ≡ length capacity
  length-distribute = ap length distribute_bumps ∙ (length-bump_all chosen given ∙ length-given)

  sum-distribute : sum (distribute remaining capacity) ≡ remaining
  unfolding left
  sum-distribute =
      ap sum distribute_bumps
      ∙ ground (arith, sum-bump_all chosen given chosen_bound, given-le, length-chosen)

  share-le : (j : ℕ) → remaining * nth j capacity / total + weigh (same j) chosen ≤ nth j capacity
  unfolding key remainder total
  share-le j =
      let n = nth j capacity in
      let q = remaining * n / total in
      let whole = div-add-mod (remaining * n) total in
      let more : total * n ≡ n * total = mul_comm total n in
      let most = mul-le-mul_left n enough in
      let flip = mul_comm n remaining in
      elim (absent_or key j chosen chosen-positive) [
        | inl z ↦
            let b : total * q ≤ total * n = ground arith in
            let c : q ≤ n = le_of_mul-le-mul_left b (ground arith) in ground (arith, z, c)
        | inr pos ↦
            let b : total * q < total * n = ground arith in
            let c : q < n = lt_of_mul-lt-mul_left total b in ground (arith, chosen_once j, c)
      ]

  distribute-le : (j : ℕ) → nth j (distribute remaining capacity) ≤ nth j capacity
  unfolding given shares total
  distribute-le j = elim (Bool-cases (ltb j (length capacity))) [
    | inl b ↦
        let there : nth j given ≡ remaining * nth j capacity / sum capacity =
          nth-map (λ c. remaining * c / sum capacity) j capacity (ground arith) in
        let bumped : nth j (distribute remaining capacity) ≤ nth j given + weigh (same j) chosen =
          rw (ap (nth j) distribute_bumps) (nth-bump_all chosen j given) in
        let share : remaining * nth j capacity / sum capacity + weigh (same j) chosen
            ≤ nth j capacity =
          share-le j in
        omega (arith, there, bumped, share)
    | inr b ↦
        let out =
          nth_out j (distribute remaining capacity) (ground (arith, length-distribute, b)) in
        ground (arith, out)
  ]

-- the capacities
capacity : List ℕ → List ℕ
capacity counts = map (λ c. c - 1) counts

sum-capacity :
    (counts : List ℕ)
    → any_empty counts ≡ false
    → sum (capacity counts) + length counts ≡ sum counts
unfolding capacity any_empty
sum-capacity [] h = refl
sum-capacity (c ∷ cs) h = ground (arith, sum-capacity cs (ground arith))

sum-suc : (xs : List ℕ) → sum (map suc xs) ≡ sum xs + length xs
sum-suc [] = refl
sum-suc (x ∷ xs) = ground (arith, sum-suc xs)

sum-ones : (xs : List ℕ) → sum (map (λ c. 1) xs) ≡ length xs
sum-ones [] = refl
sum-ones (x ∷ xs) = ground (arith, sum-ones xs)

nth-any_empty :
    (j : ℕ) (counts : List ℕ) → any_empty counts ≡ false → j < length counts → 1 ≤ nth j counts
unfolding nth any_empty
nth-any_empty j [] h b = absurd (ground arith)
nth-any_empty zero (c ∷ cs) h b = ground arith
nth-any_empty (suc j) (c ∷ cs) h b = nth-any_empty j cs (ground arith) (ground arith)

-- the two ways in which `allocate` answers
allocate_cases :
    (counts : List ℕ) (budget : ℕ)
    → is_empty counts ≡ false
    → any_empty counts ≡ false
    → length counts ≤ budget
    → (let remaining = min budget (sum counts) - length counts in
        ((remaining ≡ 0) × (allocate counts budget ≡ some (map (λ c. 1) counts)))
        ⊎ ((0 < remaining)
            × (allocate counts budget ≡ some (map suc (distribute remaining (capacity counts))))))
unfolding allocate capacity
allocate_cases counts budget full each enough =
    let remaining = min budget (sum counts) - length counts in
    let fits : ltb budget (length counts) ≡ false = ground arith in
    elim (Bool-cases (remaining == 0)) [
      | inl e ↦ inl (ground (arith, e), rw (full, each, fits, e) refl)
      | inr e ↦ inr (ground (arith, e), rw (full, each, fits, e) refl)
    ]

-- When there are places, each has a photo and the budget gives each place one, `allocate` gives
-- every place between one photo and all of its photos, and the places together as many as the budget
-- allows, or all photos that there are.
pub allocate-bounded :
    (counts : List ℕ) (budget j : ℕ)
    → is_empty counts ≡ false
    → any_empty counts ≡ false
    → length counts ≤ budget
    → j < length counts
    → (xs : List ℕ) × (allocate counts budget ≡ some xs)
      × (length xs ≡ length counts)
      × (sum xs ≡ min budget (sum counts))
      × (1 ≤ nth j xs)
      × (nth j xs ≤ nth j counts)
unfolding capacity
allocate-bounded counts budget j full each enough b =
    let remaining = min budget (sum counts) - length counts in
    let caps = capacity counts in
    let all = sum-capacity counts each in
    let own = nth-any_empty j counts each b in
    elim (allocate_cases counts budget full each enough) [
      | inl (none_left, e) ↦
          let one : nth j (map (λ c. 1) counts) ≡ 1 = nth-map (λ c. 1) j counts b in
          (
            map (λ c. 1) counts,
            e,
            length-map (λ c. 1) counts,
            omega (arith, sum-ones counts, all, none_left, enough),
            omega (arith, one),
            omega (arith, one, own),
          )
      | inr (some_left, e) ↦
          let d = distribute remaining caps in
          let within : remaining ≤ sum caps = omega (arith, all) in
          let long : length d ≡ length counts =
            length-distribute remaining caps some_left within ∙ length-map (λ c. c - 1) counts in
          let total : sum d ≡ remaining = sum-distribute remaining caps some_left within in
          let raised : nth j (map suc d) ≡ suc (nth j d) =
            nth-map suc j d (omega (arith, long, b)) in
          let most : nth j d ≤ nth j caps = distribute-le remaining caps some_left within j in
          let cap : nth j caps ≡ nth j counts - 1 = nth-map (λ c. c - 1) j counts b in
          (
            map suc d,
            e,
            length-map suc d ∙ long,
            omega (arith, sum-suc d, total, long, some_left, enough),
            omega (arith, raised),
            omega (arith, raised, most, cap, own),
          )
    ]
