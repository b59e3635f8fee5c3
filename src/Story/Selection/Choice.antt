-- ===== src/Story/Selection/Choice.antt =====
-- The photos that `select` chooses (app/story/selection.py).
use ktb4_2nd_ai.Prelude.{
  ℕ, ◌+◌, ◌≤◌, ◌<◌, ◌≡◌, refl, Bool, false, ◌||◌, some, List, [], ◌∷◌, ◌++◌, map, ltb, ◌==◌, length,
  sum, min, arith, Bool-cases, Option-cases, inl, inr, ap, ◌∙◌, sym, some_injective,
}
use ktb4_2nd_ai.Story.Selection.{
  range, any_empty, is_empty, allocate, any_similar, choose, Group, StoryAttachment, photo_at, rank,
  photos_at, choose_group, choose_groups, insert_selected, sort_selected, select,
}
use ktb4_2nd_ai.Story.Selection.Allocation.{allocate-bounded}

length-append {ℓ} : {A : Type ℓ} (xs ys : List A) → length (xs ++ ys) ≡ length xs + length ys
length-append [] ys = ground arith
length-append (x ∷ xs) ys = ground (arith, length-append xs ys)

-- no chosen photo is like one that was chosen before it
pub data Apart (similar : ℕ → ℕ → Bool) : List ℕ → Type 0 where
  none_chosen : Apart similar []
  chosen_next :
      (i : ℕ) (js : List ℕ)
      → any_similar similar i js ≡ false
      → Apart similar js
      → Apart similar (js ++ (i ∷ []))

-- The choice within a place never takes more photos than its share, and none that is as similar to
-- one chosen before as the threshold says.
pub choose-Apart :
    (similar : ℕ → ℕ → Bool) (count : ℕ) (is chosen : List ℕ)
    → length chosen ≤ count
    → Apart similar chosen
    → (length (choose similar count is chosen) ≤ count)
      × Apart similar (choose similar count is chosen)
unfolding choose
choose-Apart similar count [] chosen h a = (h, a)
choose-Apart similar count (i ∷ is) chosen h a = elim (Bool-cases (length chosen == count)) [
  | inl b ↦ rw (choose, b) (h, a)
  | inr b ↦ elim (Bool-cases (any_similar similar i chosen)) [
    | inl s ↦ rw (choose, b, s) (choose-Apart similar count is chosen h a)
    | inr s ↦
        let more : length (chosen ++ (i ∷ [])) ≤ count =
          ground (arith, length-append chosen (i ∷ []), b) in
        rw (choose, b, s)
          (choose-Apart similar count is (chosen ++ (i ∷ [])) more (chosen_next i chosen s a))
  ]
]

length-photos_at : (g : Group) (is : List ℕ) → length (photos_at g is) ≤ length is
unfolding photos_at
length-photos_at g [] = ground arith
length-photos_at g (i ∷ is) = elim (Option-cases (photo_at i g.photos)) [
  | inl e ↦ rw (photos_at, e) (ground (arith, length-photos_at g is))
  | inr (p, e) ↦ rw (photos_at, e) (ground (arith, length-photos_at g is))
]

length-choose_group : (g : Group) (n : ℕ) → length (choose_group g n) ≤ n
unfolding choose_group
length-choose_group g n =
    let order = rank g (range 0 (length g.photos)) in
    let (few, apart) = choose-Apart g.similar n order [] (ground arith) none_chosen in
    omega (arith, few, length-photos_at g (choose g.similar n order []))

length-choose_groups : (gs : List Group) (ns : List ℕ) → length (choose_groups gs ns) ≤ sum ns
unfolding choose_groups
length-choose_groups [] ns = ground arith
length-choose_groups (g ∷ gs) [] = ground arith
length-choose_groups (g ∷ gs) (n ∷ ns) = ground (
  arith,
  length-append (choose_group g n) (choose_groups gs ns),
  length-choose_group g n,
  length-choose_groups gs ns,
)

length-insert_selected :
    (p : ℕ × StoryAttachment) (qs : List (ℕ × StoryAttachment))
    → length (insert_selected p qs) ≡ length qs + 1
unfolding insert_selected
length-insert_selected p [] = refl
length-insert_selected p (q ∷ qs) = ground (arith, length-insert_selected p qs)

length-sort_selected : (ps : List (ℕ × StoryAttachment)) → length (sort_selected ps) ≡ length ps
unfolding sort_selected
length-sort_selected [] = refl
length-sort_selected (p ∷ ps) =
    ground (arith, length-insert_selected p (sort_selected ps), length-sort_selected ps)

some_place : (counts : List ℕ) → is_empty counts ≡ false → 0 < length counts
some_place [] h = absurd (cc)
some_place (c ∷ cs) h = ground arith

sum-allocate :
    (counts : List ℕ) (budget : ℕ) (xs : List ℕ)
    → allocate counts budget ≡ some xs
    → sum xs ≡ min budget (sum counts)
unfolding allocate
sum-allocate counts budget xs h =
    elim (Bool-cases (is_empty counts || (any_empty counts || ltb budget (length counts)))) [
      | inl b ↦ absurd (ground (arith, b, h))
      | inr b ↦
          let full : is_empty counts ≡ false = ground (arith, b) in
          let each : any_empty counts ≡ false = ground (arith, b) in
          let enough : length counts ≤ budget = ground (arith, b) in
          let (ys, e, l, s, low, high) =
            allocate-bounded counts budget 0 full each enough (some_place counts full) in
          ap sum (some_injective (sym h ∙ e)) ∙ s
    ]

-- `select` never chooses more photos than the budget, nor more than there are candidates.
pub select-bounded :
    (groups : List Group) (budget : ℕ) (out : List (ℕ × StoryAttachment))
    → select groups budget ≡ some out
    → length out ≤ min budget (sum (map (λ g. length g.photos) groups))
unfolding select
select-bounded groups budget out h =
    elim (Option-cases (allocate (map (λ g. length g.photos) groups) budget)) [
      | inl e ↦ absurd (ground (arith, e, h))
      | inr (counts, e) ↦
          let is_out : sort_selected (choose_groups groups counts) ≡ out = ground (arith, e, h) in
          omega (
            arith,
            ap length is_out,
            length-sort_selected (choose_groups groups counts),
            length-choose_groups groups counts,
            sum-allocate (map (λ g. length g.photos) groups) budget counts e,
          )
    ]
