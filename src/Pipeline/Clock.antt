-- ===== src/Pipeline/Clock.antt =====
-- `correct_clocks` (app/pipeline/steps/clock.py). What the pairs of a device's photos and the
-- references say about its clock is an argument, and so is the sum of an instant and a number of days.
use ktb4_2nd_ai.Prelude.{
  is_nil, ◌>>=◌, ℕ, String, Bool, true, false, not, ◌&&◌, ◌||◌, Option, none, some, is_some, List,
  [], ◌∷◌, str_eq, if◌then◌else◌,
}
use ktb4_2nd_ai.Pipeline.{
  TimeStatus, unsettled, undated, original, corrected, Moment, PhotoSource, PhotoState, has_gps,
}
use ktb4_2nd_ai.Pipeline.Assigning.{insert_photo}
use ktb4_2nd_ai.Pipeline.Filtering.{has_offset}
pub mod Times

-- a device model that is neither missing nor empty
abbrev pub is_device : Option String → Bool
is_device none = false
is_device (some d) = not (str_eq d "")

abbrev pub same_device : Option String → Option String → Bool
same_device (some d) (some e) = str_eq d e
same_device _ _ = false

module _ {F E : Type 0} where
  -- the check of the times that the photos came with
  unfoldable pub all_have_offset : List (PhotoState F E) → Bool
  all_have_offset [] = true
  all_have_offset (p ∷ ps) = has_offset p.source.taken_at && all_have_offset ps

  -- a photo with a position and a time, whose clock is right
  abbrev pub is_reference : PhotoSource F E → Bool
  is_reference s = has_gps s && is_some s.taken_at

  -- `anchors`
  unfoldable pub references_of : List (PhotoState F E) → List (PhotoState F E)
  unfolding insert_photo
  references_of [] = []
  references_of (p ∷ ps) =
      let rest = references_of ps in if is_reference p.source then insert_photo p rest else rest

  -- whether a device is among `reference_devices`
  unfoldable pub is_trusted : Option String → List (PhotoState F E) → Bool
  is_trusted d [] = false
  is_trusted d (a ∷ rest) =
      (is_device a.source.device_model && same_device d a.source.device_model) || is_trusted d rest

  -- a photo whose time rests on what is known of its device
  abbrev pub is_clock_target : List (PhotoState F E) → PhotoSource F E → Bool
  is_clock_target anchors s =
      is_some s.taken_at
      && (not (has_gps s || is_trusted s.device_model anchors) && is_device s.device_model)

  -- the photos of a device in `targets`, sorted by id
  unfoldable pub device_group :
      List (PhotoState F E) → Option String → List (PhotoState F E) → List (PhotoState F E)
  unfolding is_trusted insert_photo
  device_group anchors d [] = []
  device_group anchors d (p ∷ ps) =
      let rest = device_group anchors d ps in
      if is_clock_target anchors p.source && same_device d p.source.device_model
      then insert_photo p rest
      else rest

  abbrev pub clear_time : PhotoState F E → PhotoState F E
  clear_time p = record p { taken_at = none; time_status = undated }

  abbrev pub keep_time : PhotoState F E → PhotoState F E
  keep_time p = record p { taken_at = p.source.taken_at; time_status = original }

-- `estimate group anchors`: none for a `PipelineError`, `some none` without an estimate, and the days
-- otherwise; `add_days`: none for an `OverflowError`
module _ {F E D : Type 0}
    (estimate : List (PhotoState F E) → List (PhotoState F E) → Option (Option D))
    (is_zero : D → Bool) (add_days : ℕ → D → Option ℕ) where
  unfoldable pub shift_time : PhotoState F E → Option Moment → D → Option (PhotoState F E)
  shift_time p none days = some (clear_time p)
  shift_time p (some t) days = do
    instant ← add_days t.instant days
    some (record p {
      taken_at = some (record t { instant = instant });
      time_status = if is_zero days then original else corrected;
    })

  -- a photo of a device behind the second loop
  unfoldable pub correct_target : PhotoState F E → Option (Option D) → Option (PhotoState F E)
  unfolding shift_time
  correct_target p none = none
  correct_target p (some none) = some (clear_time p)
  correct_target p (some (some days)) = shift_time p p.source.taken_at days

  -- a photo behind both loops, among all photos
  unfoldable pub correct_one :
      List (PhotoState F E) → List (PhotoState F E) → PhotoState F E → Option (PhotoState F E)
  unfolding is_trusted device_group correct_target
  correct_one anchors photos p =
      if not (is_some p.source.taken_at)
      then some (clear_time p)
      else if has_gps p.source || is_trusted p.source.device_model anchors
      then some (keep_time p)
      else if not (is_device p.source.device_model) || is_nil anchors
      then some (clear_time p)
      else correct_target p (estimate (device_group anchors p.source.device_model photos) anchors)

  unfoldable pub correct_all :
      List (PhotoState F E)
      → List (PhotoState F E)
      → List (PhotoState F E)
      → Option (List (PhotoState F E))
  unfolding correct_one
  correct_all anchors photos [] = some []
  correct_all anchors photos (p ∷ ps) = do
    q ← correct_one anchors photos p
    qs ← correct_all anchors photos ps
    some (q ∷ qs)

  -- the photos behind `correct_clocks`, with whether its three settings are in range; none for a
  -- `PipelineError`
  unfoldable pub correct_clocks : Bool → List (PhotoState F E) → Option (List (PhotoState F E))
  unfolding all_have_offset references_of correct_all
  correct_clocks settings_fit photos =
      if not settings_fit || not (all_have_offset photos)
      then none
      else correct_all (references_of photos) photos photos
