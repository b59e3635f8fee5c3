-- ===== src/Story/Selection/Bump.antt =====
-- Places whose share is raised by one, and the indices of the places (`allocate`,
-- app/story/selection.py).
use ktb4_2nd_ai.Prelude.{
  ℕ, zero, suc, ◌+◌, ◌≤◌, ◌<◌, ◌≡◌, ◌⊎◌, refl, List, [], ◌∷◌, map, ◌==◌, bit, length, take, sum,
  All, arith, Bool-cases, inl, inr, ap, ◌∙◌, sym, subst,
}
use ktb4_2nd_ai.Story.Selection.{nth, range, sort, bump, bump_all}
use ktb4_2nd_ai.Story.Selection.Order.{weigh, All-insert}

-- that an index is another
abbrev pub same : ℕ → ℕ → ℕ
same j i = bit (i == j)

pub length-bump : (i : ℕ) (xs : List ℕ) → length (bump i xs) ≡ length xs
unfolding bump
length-bump i [] = refl
length-bump zero (x ∷ xs) = refl
length-bump (suc i) (x ∷ xs) = ap suc (length-bump i xs)

pub length-bump_all : (is xs : List ℕ) → length (bump_all is xs) ≡ length xs
unfolding bump_all
length-bump_all [] xs = refl
length-bump_all (i ∷ is) xs = length-bump_all is (bump i xs) ∙ length-bump i xs

pub sum-bump : (i : ℕ) (xs : List ℕ) → i < length xs → sum (bump i xs) ≡ sum xs + 1
unfolding bump
sum-bump i [] h = absurd (ground arith)
sum-bump zero (x ∷ xs) h = ground arith
sum-bump (suc i) (x ∷ xs) h = ground (arith, sum-bump i xs (ground arith))

pub sum-bump_all :
    (is xs : List ℕ) → All (λ i. i < length xs) is → sum (bump_all is xs) ≡ sum xs + length is
unfolding bump_all
sum-bump_all [] xs h = ground arith
sum-bump_all (i ∷ is) xs (p, h) =
    let same_length : All (λ j. j < length (bump i xs)) is =
      subst (λ (n : ℕ). All (λ j. j < n) is) (sym (length-bump i xs)) h in
    ground (arith, sum-bump_all is (bump i xs) same_length, sum-bump i xs p)

pub nth-bump : (i j : ℕ) (xs : List ℕ) → nth j (bump i xs) ≤ nth j xs + same j i
unfolding bump nth
nth-bump i j [] = ground arith
nth-bump zero zero (x ∷ xs) = ground arith
nth-bump zero (suc j) (x ∷ xs) = ground arith
nth-bump (suc i) zero (x ∷ xs) = ground arith
nth-bump (suc i) (suc j) (x ∷ xs) = ground (arith, nth-bump i j xs)

pub nth-bump_all :
    (is : List ℕ) (j : ℕ) (xs : List ℕ) → nth j (bump_all is xs) ≤ nth j xs + weigh (same j) is
unfolding bump_all weigh
nth-bump_all [] j xs = ground arith
nth-bump_all (i ∷ is) j xs = ground (arith, nth-bump_all is j (bump i xs), nth-bump i j xs)

pub nth-map : (f : ℕ → ℕ) (j : ℕ) (xs : List ℕ) → j < length xs → nth j (map f xs) ≡ f (nth j xs)
unfolding nth
nth-map f j [] h = absurd (ground arith)
nth-map f zero (x ∷ xs) h = refl
nth-map f (suc j) (x ∷ xs) h = nth-map f j xs (ground arith)

pub nth_out : (j : ℕ) (xs : List ℕ) → length xs ≤ j → nth j xs ≡ 0
unfolding nth
nth_out j [] h = refl
nth_out zero (x ∷ xs) h = absurd (ground arith)
nth_out (suc j) (x ∷ xs) h = nth_out j xs (ground arith)

pub length-map : (f : ℕ → ℕ) (xs : List ℕ) → length (map f xs) ≡ length xs
length-map f [] = refl
length-map f (x ∷ xs) = ap suc (length-map f xs)

-- an index comes at most once in a range
pub range_below : (j k n : ℕ) → j < k → weigh (same j) (range k n) ≡ 0
unfolding weigh range
range_below j k zero h = refl
range_below j k (suc n) h = ground (arith, range_below j (suc k) n (ground arith))

pub range_once : (j k n : ℕ) → weigh (same j) (range k n) ≤ 1
unfolding weigh range
range_once j k zero = ground arith
range_once j k (suc n) = elim (Bool-cases (k == j)) [
  | inl e ↦ ground (arith, e, range_below j (suc k) n (ground (arith, e)))
  | inr e ↦ ground (arith, e, range_once j (suc k) n)
]

pub range_bound : (k n : ℕ) → All (λ i. i < k + n) (range k n)
unfolding range
range_bound k zero = tt
range_bound k (suc n) = (
  ground arith,
  subst (λ (m : ℕ). All (λ i. i < m) (range (suc k) n)) (ground arith) (range_bound (suc k) n),
)

pub All-sort : (key : ℕ → ℕ) (P : ℕ → Type 0) (is : List ℕ) → All P is → All P (sort key is)
unfolding sort
All-sort key P [] h = tt
All-sort key P (i ∷ is) (p, h) = All-insert key P i (sort key is) p (All-sort key P is h)

pub All-take : (P : ℕ → Type 0) (k : ℕ) (is : List ℕ) → All P is → All P (take k is)
All-take P zero is h = tt
All-take P (suc k) [] h = tt
All-take P (suc k) (i ∷ is) (p, h) = (p, All-take P k is h)

-- an index of a list of positive keys has a positive key
pub absent_or :
    (key : ℕ → ℕ) (j : ℕ) (is : List ℕ)
    → All (λ i. 0 < key i) is
    → (weigh (same j) is ≡ 0) ⊎ (0 < key j)
unfolding weigh
absent_or key j [] h = inl refl
absent_or key j (i ∷ is) (p, h) = elim (Bool-cases (i == j)) [
  | inl e ↦ inr (let eq : i ≡ j = ground arith in subst (λ (x : ℕ). 0 < key x) eq p)
  | inr e ↦ elim (absent_or key j is h) [ inl z ↦ inl (ground arith) | inr q ↦ inr q ]
]
