-- ===== src/Pipeline/Clustering.antt =====
-- `cluster_photos` (app/pipeline/steps/clustering.py). The labels of DBSCAN are an argument, in which
-- none is the label -1, and so are the range of coordinates and the spelling of a place's number.
use ktb4_2nd_ai.Prelude.{
  is_nil, ◌>>=◌, String, ℕ, suc, ◌+◌, Bool, true, false, not, ◌&&◌, ◌||◌, Option, none, some,
  is_some, List, [], ◌∷◌, ◌++◌, ◌==◌, if◌then◌else◌, length,
}
use ktb4_2nd_ai.Pipeline.{PhotoState, unclear_location}
use ktb4_2nd_ai.Pipeline.Finalizing.{is_unlocated}
use ktb4_2nd_ai.Pipeline.Assigning.{insert_photo}

module _ {F E : Type 0} where
  -- a candidate has no position
  abbrev pub misses_position : PhotoState F E → Bool
  misses_position p =
      not (is_some p.latitude) || (not (is_some p.longitude) || is_unlocated p.region_origin)

  unfoldable pub any_misses_position : List (PhotoState F E) → Bool
  any_misses_position [] = false
  any_misses_position (p ∷ ps) =
      (not (is_some p.issue) && misses_position p) || any_misses_position ps

-- the keys of `place_ids` in their order, and the number of a label among them
unfoldable pub position_of : ℕ → List ℕ → Option ℕ
position_of l [] = none
position_of l (k ∷ ks) =
    let rest = position_of l ks in
    if k == l then some 1 else (elim rest [ none ↦ none | some n ↦ some (suc n) ])

-- the number n of the place id `p<n>` of a label, and the keys of `place_ids` behind it
unfoldable pub place_number : List ℕ → ℕ → ℕ × List ℕ
unfolding position_of
place_number known l = elim (position_of l known) [
  | some n ↦ (n, known)
  | none ↦ (length known + 1, known ++ (l ∷ []))
]

module _ {F E : Type 0} (place_name : ℕ → String) where
  unfoldable pub assign_place : PhotoState F E → Option ℕ → PhotoState F E
  assign_place p none = record p { place_id = none; issue = some unclear_location }
  assign_place p (some n) = record p { place_id = some (place_name n) }

  -- the last loop; none where `zip` finds lists of different lengths
  unfoldable pub assign_places :
      List ℕ → List (PhotoState F E) → List (Option ℕ) → Option (List (PhotoState F E))
  unfolding place_number assign_place
  assign_places known [] [] = some []
  assign_places known [] (l ∷ ls) = none
  assign_places known (p ∷ ps) [] = none
  assign_places known (p ∷ ps) (none ∷ ls) = do
    rest ← assign_places known ps ls
    some (assign_place p none ∷ rest)
  assign_places known (p ∷ ps) (some l ∷ ls) = do
    rest ← assign_places (place_number known l).1 ps ls
    some (assign_place p (some (place_number known l).0) ∷ rest)

module _ {F E : Type 0} where
  -- the photos without an issue in the order of their ids
  unfoldable pub candidates_of : List (PhotoState F E) → List (PhotoState F E)
  unfolding insert_photo
  candidates_of [] = []
  candidates_of (p ∷ ps) =
      let rest = candidates_of ps in if is_some p.issue then rest else insert_photo p rest

  unfoldable pub all_in_range : (F → F → Bool) → List (PhotoState F E) → Bool
  all_in_range in_range [] = true
  all_in_range in_range (p ∷ ps) =
      (elim p.latitude [
        | none ↦ false
        | some lat ↦ (elim p.longitude [ none ↦ false | some lon ↦ in_range lat lon ])
      ])
      && all_in_range in_range ps

  -- the candidates behind `cluster_photos`, with whether its two settings are accepted; none for a
  -- `PipelineError`. The other photos stay as they are.
  unfoldable pub cluster_photos :
      (ℕ → String)
      → (F → F → Bool)
      → (List (PhotoState F E) → List (Option ℕ))
      → Bool
      → List (PhotoState F E)
      → Option (List (PhotoState F E))
  unfolding candidates_of any_misses_position all_in_range assign_places
  cluster_photos place_name in_range labels settings_fit photos =
      let candidates = candidates_of photos in
      if not settings_fit
      then none
      else if is_nil candidates
      then some []
      else if any_misses_position candidates || not (all_in_range in_range candidates)
      then none
      else assign_places place_name [] candidates (labels candidates)
