-- ===== src/Pipeline/Locating.antt =====
-- `locate_photos` (app/pipeline/steps/locating.py): photos outside the period are set aside, and photos
-- without a position take that of the most similar photo that has one. The date of a photo in the
-- period and what is computed from embeddings are arguments.
use ktb4_2nd_ai.Prelude.{
  is_nil, ℕ, String, Bool, true, false, not, ◌&&◌, ◌||◌, Option, none, some, is_some, List, [], ◌∷◌,
  ◌++◌, leb, if◌then◌else◌,
}
use ktb4_2nd_ai.Pipeline.{
  TimeStatus, unsettled, undated, exif, inferred, unlocated, Issue, unclear_location, Moment,
  PhotoState, has_gps, photo_id,
}
use ktb4_2nd_ai.Pipeline.Filtering.{has_offset}
use ktb4_2nd_ai.Pipeline.Assigning.{dated}
pub mod Positions

-- the check of a photo's time behind CLOCK
abbrev pub time_fits : TimeStatus → Option Moment → Bool
time_fits unsettled t = false
time_fits undated t = not (is_some t)
time_fits _ t = is_some t && has_offset t

-- how the first loop leaves a photo: set aside, with its own position, or without one
pub data Role : Type 0 where
  aside anchor target : Role

module _ {F E : Type 0} where
  unfoldable pub times_fit : List (PhotoState F E) → Bool
  times_fit [] = true
  times_fit (p ∷ ps) = time_fits p.time_status p.taken_at && times_fit ps

  abbrev pub set_aside : PhotoState F E → PhotoState F E
  set_aside p = record p { issue = some unclear_location }

  abbrev pub keep_position : PhotoState F E → PhotoState F E
  keep_position p = record p {
    latitude = p.source.latitude;
    longitude = p.source.longitude;
    region_origin = exif;
  }

  abbrev pub clear_position : PhotoState F E → PhotoState F E
  clear_position p = record p { latitude = none; longitude = none; region_origin = unlocated }

  -- one round of the first loop
  unfoldable pub classify : (Moment → Bool) → PhotoState F E → Role × PhotoState F E
  classify in_period p =
      if is_some p.issue
      then (aside, p)
      else if not (dated in_period p.taken_at)
      then (aside, set_aside p)
      else if has_gps p.source
      then (anchor, keep_position p)
      else (target, clear_position p)

  unfoldable pub classify_all :
      (Moment → Bool) → List (PhotoState F E) → List (Role × PhotoState F E)
  unfolding classify
  classify_all in_period [] = []
  classify_all in_period (p ∷ ps) = classify in_period p ∷ classify_all in_period ps

  -- `anchors`, sorted by id, and `targets`
  unfoldable pub insert_anchor : PhotoState F E → List (PhotoState F E) → List (PhotoState F E)
  insert_anchor p [] = p ∷ []
  insert_anchor p (q ∷ qs) =
      let rest = insert_anchor p qs in
      if leb (photo_id p) (photo_id q) then p ∷ q ∷ qs else q ∷ rest

  unfoldable pub anchors_of : List (Role × PhotoState F E) → List (PhotoState F E)
  unfolding insert_anchor
  anchors_of [] = []
  anchors_of ((anchor, p) ∷ rs) = insert_anchor p (anchors_of rs)
  anchors_of ((aside, p) ∷ rs) = anchors_of rs
  anchors_of ((target, p) ∷ rs) = anchors_of rs

  unfoldable pub targets_of : List (Role × PhotoState F E) → List (PhotoState F E)
  targets_of [] = []
  targets_of ((target, p) ∷ rs) = p ∷ targets_of rs
  targets_of ((anchor, p) ∷ rs) = targets_of rs
  targets_of ((aside, p) ∷ rs) = targets_of rs

  -- `argmax`: the first of the most similar anchors
  unfoldable pub most_similar :
      (PhotoState F E → PhotoState F E → Bool)
      → PhotoState F E
      → List (PhotoState F E)
      → PhotoState F E
  most_similar closer a [] = a
  most_similar closer a (b ∷ bs) = most_similar closer (if closer b a then b else a) bs

  abbrev pub inherit : PhotoState F E → PhotoState F E → PhotoState F E
  inherit best p = record p {
    latitude = best.source.latitude;
    longitude = best.source.longitude;
    region_origin = inferred;
  }

-- `closer t a b`: a is more like t than b is; `similar t a`: at least as alike as the threshold says;
-- `embedded`: the embeddings of these photos are unit vectors of one dimension
module _ {F E : Type 0} (closer : PhotoState F E → PhotoState F E → PhotoState F E → Bool)
    (similar : PhotoState F E → PhotoState F E → Bool)
    (embedded : List (PhotoState F E) → Bool) where
  -- a target behind the loops
  unfoldable pub settle_target : List (PhotoState F E) → PhotoState F E → PhotoState F E
  unfolding most_similar
  settle_target [] p = set_aside p
  settle_target (a ∷ rest) p =
      let best = most_similar (closer p) a rest in
      if similar p best then inherit best p else set_aside p

  unfoldable pub settle_all :
      List (PhotoState F E) → List (Role × PhotoState F E) → List (PhotoState F E)
  unfolding settle_target
  settle_all anchors [] = []
  settle_all anchors ((target, p) ∷ rs) = settle_target anchors p ∷ settle_all anchors rs
  settle_all anchors ((aside, p) ∷ rs) = p ∷ settle_all anchors rs
  settle_all anchors ((anchor, p) ∷ rs) = p ∷ settle_all anchors rs

  -- `locate_photos`, with whether its threshold is in range and the period is in order; none for a
  -- `PipelineError`
  unfoldable pub locate_photos :
      (Moment → Bool) → Bool → Bool → List (PhotoState F E) → Option (List (PhotoState F E))
  unfolding times_fit classify_all anchors_of targets_of settle_all
  locate_photos in_period threshold_fits period_fits photos =
      let rs = classify_all in_period photos in
      let as_found = settle_all (anchors_of rs) rs in
      if not threshold_fits || (not period_fits || not (times_fit photos))
      then none
      else if is_nil (targets_of rs) || is_nil (anchors_of rs)
      then some as_found
      else if embedded (anchors_of rs ++ targets_of rs)
      then some as_found
      else none
