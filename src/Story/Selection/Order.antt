-- ===== src/Story/Selection/Order.antt =====
-- Sorting the places by their remainders (`allocate`, app/story/selection.py).
use ktb4_2nd_ai.Prelude.{
  ℕ, zero, suc, ◌+◌, ◌≤◌, ◌<◌, ◌≡◌, refl, List, [], ◌∷◌, ltb, bit, length, take, sum, All, arith,
  Bool-cases, inl, inr, ap, ◌∙◌,
}
use ktb4_2nd_ai.Story.Selection.{nth, range, before, insert, sort}

-- the sum of a weight over a list
unfoldable pub weigh : (ℕ → ℕ) → List ℕ → ℕ
weigh f [] = 0
weigh f (i ∷ is) = f i + weigh f is

pub weigh-range :
    (f : ℕ → ℕ) (k : ℕ) (xs : List ℕ)
    → ((i : ℕ) → f (k + i) ≡ nth i xs)
    → weigh f (range k (length xs)) ≡ sum xs
unfolding weigh range nth
weigh-range f k [] h = refl
weigh-range f k (x ∷ xs) h =
    let next : (i : ℕ) → f (suc k + i) ≡ nth i xs = λ i. ap f (ground arith) ∙ h (suc i) in
    let this : f k ≡ x = ap f (ground arith) ∙ h 0 in
    ground (arith, weigh-range f (suc k) xs next, this)

pub weigh-take : (f : ℕ → ℕ) (k : ℕ) (xs : List ℕ) → weigh f (take k xs) ≤ weigh f xs
unfolding weigh
weigh-take f zero xs = ground arith
weigh-take f (suc k) [] = ground arith
weigh-take f (suc k) (x ∷ xs) = ground (arith, weigh-take f k xs)

module _ (key : ℕ → ℕ) where
  -- from the greatest key down
  pub data Descends : List ℕ → Type 0 where
    nothing : Descends []
    greatest : {i : ℕ} {is : List ℕ} → All (λ j. key j ≤ key i) is → Descends is → Descends (i ∷ is)

  weigh-insert : (f : ℕ → ℕ) (i : ℕ) (is : List ℕ) → weigh f (insert key i is) ≡ f i + weigh f is
  unfolding weigh insert
  weigh-insert f i [] = refl
  weigh-insert f i (j ∷ js) = ground (arith, weigh-insert f i js)

  pub weigh-sort : (f : ℕ → ℕ) (is : List ℕ) → weigh f (sort key is) ≡ weigh f is
  unfolding weigh sort
  weigh-sort f [] = refl
  weigh-sort f (i ∷ is) = ground (arith, weigh-insert f i (sort key is), weigh-sort f is)

  pub All-insert : (P : ℕ → Type 0) (i : ℕ) (is : List ℕ) → P i → All P is → All P (insert key i is)
  unfolding insert
  All-insert P i [] p h = (p, tt)
  All-insert P i (j ∷ js) p (q, h) = elim (Bool-cases (before key i j)) [
    | inl b ↦ rw (insert, b) (p, (q, h))
    | inr b ↦ rw (insert, b) (q, All-insert P i js p h)
  ]

  All-le : (a b : ℕ) (is : List ℕ) → a ≤ b → All (λ j. key j ≤ a) is → All (λ j. key j ≤ b) is
  All-le a b [] h l = tt
  All-le a b (i ∷ is) h (p, l) = (ground arith, All-le a b is h l)

  Descends-insert : (i : ℕ) (is : List ℕ) → Descends is → Descends (insert key i is)
  unfolding insert
  Descends-insert i [] h = greatest tt nothing
  Descends-insert i (j ∷ js) (greatest below h) = elim (Bool-cases (before key i j)) [
    | inl b ↦
        rw (insert, b)
          (let at : key j ≤ key i = ground (arith, b) in
            greatest (at, All-le (key j) (key i) js at below) (greatest below h))
    | inr b ↦
        rw (insert, b)
          (greatest (All-insert (λ x. key x ≤ key j) i js (ground (arith, b)) below)
            (Descends-insert i js h))
  ]

  pub sort-Descends : (is : List ℕ) → Descends (sort key is)
  unfolding sort
  sort-Descends [] = nothing
  sort-Descends (i ∷ is) = Descends-insert i (sort key is) (sort-Descends is)

  -- how many indices have a remainder
  unfoldable pub positive : ℕ → ℕ
  positive i = bit (ltb 0 (key i))

  none_positive : (is : List ℕ) → All (λ j. key j ≤ 0) is → weigh positive is ≡ 0
  unfolding weigh positive
  none_positive [] h = refl
  none_positive (i ∷ is) (p, h) = ground (arith, none_positive is h)

  -- the first ones of a descending list have a remainder
  pub take-positive :
      (k : ℕ) (is : List ℕ) → Descends is → k ≤ weigh positive is → All (λ j. 0 < key j) (take k is)
  unfolding weigh positive
  take-positive zero is d h = tt
  take-positive (suc k) [] d h = tt
  take-positive (suc k) (i ∷ is) (greatest below d) h = elim (Bool-cases (ltb 0 (key i))) [
    | inl b ↦ (ground arith, take-positive k is d (ground arith))
    | inr b ↦
        let zero_key : key i ≤ 0 = ground arith in
        absurd (ground (arith, none_positive is (All-le (key i) 0 is zero_key below), b))
  ]
