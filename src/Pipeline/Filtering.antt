-- ===== src/Pipeline/Filtering.antt =====
-- `filter_photos` (app/pipeline/steps/filtering.py): blurred and duplicated photos of each place,
-- and of the photos without one. The measurements of a photo come from OpenCV and imagehash: their
-- types, checks and comparisons are arguments.
use ktb4_2nd_ai.Prelude.{
  ℕ, String, Bool, true, false, not, ◌&&◌, ◌||◌, Option, none, some, is_some, List, [], ◌∷◌, ltb,
  leb, ◌==◌, str_eq, if◌then◌else◌, ◌++◌, map,
}
use ktb4_2nd_ai.Pipeline.{
  TimeStatus, unsettled, undated, Issue, unclear_location, blurry, duplicated, Moment, PhotoState,
  photo_id,
}

abbrev pub same_place : Option String → Option String → Bool
same_place none none = true
same_place (some a) (some b) = str_eq a b
same_place _ _ = false

abbrev pub is_pending : TimeStatus → Bool
is_pending unsettled = true
is_pending _ = false

abbrev pub is_undated : TimeStatus → Bool
is_undated undated = true
is_undated _ = false

abbrev pub same_truth : Bool → Bool → Bool
same_truth true b = b
same_truth false b = not b

abbrev pub has_offset : Option Moment → Bool
has_offset none = true
has_offset (some m) = m.aware

-- `PhotoMetrics`
pub record PhotoMetrics (V H : Type 0) : Type 0 where
  pub variance : V
  pub phash : H

-- the key of `_order`: by time, then by id, and photos without a time behind
abbrev pub order_before : Option Moment → ℕ → Option Moment → ℕ → Bool
order_before none i none j = leb i j
order_before none i (some m) j = false
order_before (some m) i none j = true
order_before (some m) i (some n) j = ltb m.instant n.instant || (m.instant == n.instant && leb i j)

abbrev pub is_unclear : Option Issue → Bool
is_unclear (some unclear_location) = true
is_unclear _ = false

-- the checks of a photo's place and issue; a place id is not empty
abbrev pub place_fits : Option String → Option Issue → Bool
place_fits none issue = is_some issue
place_fits (some place) issue = not (str_eq place "" || is_unclear issue)

-- a photo's issue before its measurement is judged
abbrev pub kept_issue : Option String → Option Issue
kept_issue none = some unclear_location
kept_issue (some place) = none

abbrev pub measured : {V H : Type 0} → (PhotoMetrics V H → Bool) → Option (PhotoMetrics V H) → Bool
measured valid none = false
measured valid (some m) = valid m

module _ {F E : Type 0} where
  -- the check of `_order`
  abbrev pub has_order : PhotoState F E → Bool
  has_order p =
      not (is_pending p.time_status)
      && (same_truth (is_undated p.time_status) (not (is_some p.taken_at)) && has_offset p.taken_at)

  unfoldable pub insert_photo : PhotoState F E → List (PhotoState F E) → List (PhotoState F E)
  insert_photo p [] = p ∷ []
  insert_photo p (q ∷ qs) =
      let rest = insert_photo p qs in
      if order_before p.taken_at (photo_id p) q.taken_at (photo_id q) then p ∷ q ∷ qs else q ∷ rest

  -- `sorted(group, key=_order)`
  unfoldable pub sort_photos : List (PhotoState F E) → List (PhotoState F E)
  unfolding insert_photo
  sort_photos [] = []
  sort_photos (p ∷ ps) = insert_photo p (sort_photos ps)

  -- the group of a place
  unfoldable pub group_of : Option String → List (PhotoState F E) → List (PhotoState F E)
  group_of place [] = []
  group_of place (p ∷ ps) =
      let rest = group_of place ps in if same_place p.place_id place then p ∷ rest else rest

  unfoldable pub id_among : ℕ → List (PhotoState F E) → Bool
  id_among i [] = false
  id_among i (p ∷ ps) = photo_id p == i || id_among i ps

  abbrev pub cleared : Option Issue → PhotoState F E → PhotoState F E
  cleared kept p = record p { issue = kept; duplicate_of_attachment_id = none }

  -- the body of the second loop: the photo, and whether it is retained
  unfoldable pub judge :
      Option Issue → PhotoState F E → Bool → Option (PhotoState F E) → PhotoState F E × Bool
  judge kept p true original = (record (cleared kept p) { issue = some blurry }, false)
  judge kept p false none = (cleared kept p, true)
  judge kept p false (some o) =
      (record p { issue = some duplicated; duplicate_of_attachment_id = some (photo_id o) }, false)

  abbrev pub retain : PhotoState F E × Bool → List (PhotoState F E) → List (PhotoState F E)
  retain (p, true) os = os ++ (p ∷ [])
  retain (p, false) os = os

  -- the object of that id
  unfoldable pub find_photo : ℕ → List (PhotoState F E) → Option (PhotoState F E)
  find_photo i [] = none
  find_photo i (p ∷ ps) = let rest = find_photo i ps in if photo_id p == i then some p else rest

  module _ {V H : Type 0} (valid : PhotoMetrics V H → Bool) (less : V → V → Bool)
      (distance : H → H → ℕ) (metrics : ℕ → Option (PhotoMetrics V H)) (blur_var_min : V)
      (phash_max_dist : ℕ) where
    -- the checks of the first loop; the photos are those before this one, the last first
    unfoldable pub all_valid : List (PhotoState F E) → List (PhotoState F E) → Bool
    unfolding id_among
    all_valid seen [] = true
    all_valid seen (p ∷ ps) =
        place_fits p.place_id p.issue
        && (not (id_among (photo_id p) seen)
            && (has_order p && (measured valid (metrics (photo_id p)) && all_valid (p ∷ seen) ps)))

    -- `variance < blur_var_min`
    abbrev pub is_blurry : PhotoState F E → Bool
    is_blurry p = elim (metrics (photo_id p)) [
      | none ↦ false
      | some m ↦ less m.variance blur_var_min
    ]

    -- `phash - measurements[original_id][1] <= phash_max_dist`
    abbrev pub is_near : PhotoState F E → PhotoState F E → Bool
    is_near p o = elim (metrics (photo_id p)) [
      | none ↦ false
      | some m ↦ elim (metrics (photo_id o)) [
        | none ↦ false
        | some n ↦ leb (distance m.phash n.phash) phash_max_dist
      ]
    ]

    -- the first retained photo that is near
    unfoldable pub original_of : PhotoState F E → List (PhotoState F E) → Option (PhotoState F E)
    original_of p [] = none
    original_of p (o ∷ os) = let rest = original_of p os in if is_near p o then some o else rest

    -- the second loop over a sorted group
    unfoldable pub judge_group :
        Option Issue → List (PhotoState F E) → List (PhotoState F E) → List (PhotoState F E)
    unfolding judge original_of
    judge_group kept retained [] = []
    judge_group kept retained (p ∷ ps) =
        let q = judge kept p (is_blurry p) (original_of p retained) in
        q.0 ∷ judge_group kept (retain q retained) ps

    -- the photo as the loop leaves it: objects are shared, so each group updates the list's photos
    abbrev pub updated : List (PhotoState F E) → PhotoState F E → PhotoState F E
    updated photos p =
        elim (find_photo (photo_id p)
          (judge_group (kept_issue p.place_id) [] (sort_photos (group_of p.place_id photos)))) [
            | none ↦ p
            | some q ↦ q
          ]

    -- `filter_photos` for settings that it accepts; `none` is a `PipelineError`, which has changed no
    -- photo, and the variances that it returns are those of `metrics`
    unfoldable pub filter_photos : List (PhotoState F E) → Option (List (PhotoState F E))
    unfolding all_valid judge_group sort_photos group_of find_photo
    filter_photos photos = if all_valid [] photos then some (map (updated photos) photos) else none
