-- ===== src/Story/Selection.antt =====
-- The choice of a story's photos (app/story/selection.py): the shares of the places and the greedy
-- choice within a place. Similarities and scores are floats of the caller, so their comparisons are
-- arguments.
use ktb4_2nd_ai.Prelude.{
  ℕ, zero, suc, ◌+◌, ◌-◌, ◌*◌, ◌/◌, ◌%◌, min, Bool, true, false, not, ◌&&◌, ◌||◌, Option, none,
  some, List, [], ◌∷◌, ◌++◌, map, ltb, leb, ◌==◌, if◌then◌else◌, length, take, sum,
}
pub mod Order
pub mod Bump
pub mod Allocation
pub mod Choice

-- `counts[i]`; the callers stay within the list
unfoldable pub nth : ℕ → List ℕ → ℕ
nth i [] = 0
nth zero (x ∷ xs) = x
nth (suc i) (x ∷ xs) = nth i xs

-- `range(first, first + n)`
unfoldable pub range : ℕ → ℕ → List ℕ
range first zero = []
range first (suc n) = first ∷ range (suc first) n

-- `sorted` by descending key, then by index
module _ (key : ℕ → ℕ) where
  abbrev pub before : ℕ → ℕ → Bool
  before i j = ltb (key j) (key i) || (key i == key j && leb i j)

  unfoldable pub insert : ℕ → List ℕ → List ℕ
  insert i [] = i ∷ []
  insert i (j ∷ js) = let rest = insert i js in if before i j then i ∷ j ∷ js else j ∷ rest

  unfoldable pub sort : List ℕ → List ℕ
  unfolding insert
  sort [] = []
  sort (i ∷ is) = insert i (sort is)

-- `shares[i] += 1`
unfoldable pub bump : ℕ → List ℕ → List ℕ
bump i [] = []
bump zero (x ∷ xs) = suc x ∷ xs
bump (suc i) (x ∷ xs) = x ∷ bump i xs

unfoldable pub bump_all : List ℕ → List ℕ → List ℕ
unfolding bump
bump_all [] xs = xs
bump_all (i ∷ is) xs = bump_all is (bump i xs)

-- the largest remainder method: `remaining` photos over places by their capacity
unfoldable pub shares : ℕ → List ℕ → List ℕ
shares remaining capacity = map (λ c. remaining * c / sum capacity) capacity

unfoldable pub remainder : ℕ → List ℕ → ℕ → ℕ
unfolding nth
remainder remaining capacity i = remaining * nth i capacity % sum capacity

unfoldable pub distribute : ℕ → List ℕ → List ℕ
unfolding shares remainder range sort bump_all
distribute remaining capacity =
    let order = sort (remainder remaining capacity) (range 0 (length capacity)) in
    bump_all (take (remaining - sum (shares remaining capacity)) order) (shares remaining capacity)

unfoldable pub any_empty : List ℕ → Bool
any_empty [] = false
any_empty (c ∷ cs) = ltb c 1 || any_empty cs

abbrev pub is_empty : List ℕ → Bool
is_empty [] = true
is_empty (_ ∷ _) = false

-- `allocate`; none for its `ValueError`
unfoldable pub allocate : List ℕ → ℕ → Option (List ℕ)
unfolding any_empty distribute
allocate counts budget =
    let remaining = min budget (sum counts) - length counts in
    if is_empty counts || (any_empty counts || ltb budget (length counts))
    then none
    else if remaining == 0
    then some (map (λ c. 1) counts)
    else some (map suc (distribute remaining (map (λ c. c - 1) counts)))

-- the choice of `select` within a place, over the photos in the order of their scores: a photo that
-- is as similar to a chosen one as the threshold says is passed over, until the share is full
unfoldable pub any_similar : (ℕ → ℕ → Bool) → ℕ → List ℕ → Bool
any_similar similar i [] = false
any_similar similar i (j ∷ js) = similar i j || any_similar similar i js

unfoldable pub choose : (ℕ → ℕ → Bool) → ℕ → List ℕ → List ℕ → List ℕ
unfolding any_similar
choose similar count [] chosen = chosen
choose similar count (i ∷ is) chosen =
    let skip = choose similar count is chosen in
    let take_it = choose similar count is (chosen ++ (i ∷ [])) in
    if length chosen == count
    then chosen
    else if any_similar similar i chosen
    then skip
    else take_it

-- `StoryAttachment`, as far as it is read
pub record StoryAttachment : Type 0 where
  pub trip_attachment_id : ℕ
  pub taken_at : ℕ

-- a place with its candidates, and what its vectors say of them: whether the score of one is greater
-- than that of another, and whether two are as similar as the threshold
pub record Group : Type 0 where
  pub place_id : ℕ
  pub photos : List StoryAttachment
  pub scores_above : ℕ → ℕ → Bool
  pub similar : ℕ → ℕ → Bool

abbrev pub taken_before : StoryAttachment → StoryAttachment → Bool
taken_before a b =
    ltb a.taken_at b.taken_at
    || (a.taken_at == b.taken_at && leb a.trip_attachment_id b.trip_attachment_id)

unfoldable pub photo_at : ℕ → List StoryAttachment → Option StoryAttachment
photo_at i [] = none
photo_at zero (p ∷ ps) = some p
photo_at (suc i) (p ∷ ps) = photo_at i ps

-- the order of the candidates: by descending score, then by time and id
unfoldable pub ranks_before : Group → ℕ → ℕ → Bool
unfolding photo_at
ranks_before g i j =
    g.scores_above i j
    || (not (g.scores_above j i) && (elim (photo_at i g.photos) [
      | none ↦ true
      | some a ↦ elim (photo_at j g.photos) [ none ↦ true | some b ↦ taken_before a b ]
    ]))

unfoldable pub insert_rank : Group → ℕ → List ℕ → List ℕ
unfolding ranks_before
insert_rank g i [] = i ∷ []
insert_rank g i (j ∷ js) =
    let rest = insert_rank g i js in if ranks_before g i j then i ∷ j ∷ js else j ∷ rest

unfoldable pub rank : Group → List ℕ → List ℕ
unfolding insert_rank
rank g [] = []
rank g (i ∷ is) = insert_rank g i (rank g is)

-- the photos at the chosen positions, with their place
unfoldable pub photos_at : Group → List ℕ → List (ℕ × StoryAttachment)
unfolding photo_at
photos_at g [] = []
photos_at g (i ∷ is) = elim (photo_at i g.photos) [
  | none ↦ photos_at g is
  | some p ↦ (g.place_id, p) ∷ photos_at g is
]

unfoldable pub choose_group : Group → ℕ → List (ℕ × StoryAttachment)
unfolding rank range choose photos_at
choose_group g count = photos_at g (choose g.similar count (rank g (range 0 (length g.photos))) [])

-- the loop over the places with their shares
unfoldable pub choose_groups : List Group → List ℕ → List (ℕ × StoryAttachment)
unfolding choose_group
choose_groups (g ∷ gs) (n ∷ ns) = choose_group g n ++ choose_groups gs ns
choose_groups _ _ = []

unfoldable pub insert_selected :
    ℕ × StoryAttachment → List (ℕ × StoryAttachment) → List (ℕ × StoryAttachment)
insert_selected p [] = p ∷ []
insert_selected p (q ∷ qs) =
    let rest = insert_selected p qs in if taken_before p.1 q.1 then p ∷ q ∷ qs else q ∷ rest

unfoldable pub sort_selected : List (ℕ × StoryAttachment) → List (ℕ × StoryAttachment)
unfolding insert_selected
sort_selected [] = []
sort_selected (p ∷ ps) = insert_selected p (sort_selected ps)

-- `select`; none for the `ValueError` of `allocate`
unfoldable pub select : List Group → ℕ → Option (List (ℕ × StoryAttachment))
unfolding allocate choose_groups sort_selected
select groups budget = elim (allocate (map (λ g. length g.photos) groups) budget) [
  | none ↦ none
  | some counts ↦ some (sort_selected (choose_groups groups counts))
]
