-- ===== src/Pipeline.antt =====
-- The photo pipeline: app/pipeline/state.py with the enumerations of app/schemas/process.py. Times
-- are instants in microseconds; a coordinate and an embedding are whatever the argument types say.
pub mod Filtering
pub mod Kept
pub mod Finalizing
pub mod Assigning
pub mod Locating
pub mod Clustering
pub mod Clock
mod Tests
use ktb4_2nd_ai.Prelude.{
  ℕ, String, Bool, true, false, ◌&&◌, Option, none, some, is_some, List, [], ◌∷◌, if◌then◌else◌,
}

-- `TimeStatus`
pub data TimeStatus : Type 0 where
  unsettled original corrected undated : TimeStatus

-- `RegionOrigin`
pub data RegionOrigin : Type 0 where
  exif inferred unlocated : RegionOrigin

-- `Issue`
pub data Issue : Type 0 where
  unclear_location blurry duplicated : Issue

-- a `datetime`: its instant, and whether it has an offset
pub record Moment : Type 0 where
  pub instant : ℕ
  pub aware : Bool

module _ (F E : Type 0) where
  -- `ProcessAttachment`, and `PhotoSource`, which copies its fields
  pub record PhotoSource : Type 0 where
    pub trip_attachment_id : ℕ
    pub analyze_storage_key : String
    pub taken_at : Option Moment
    pub latitude : Option F
    pub longitude : Option F
    pub device_model : Option String

  -- `PhotoState`
  pub record PhotoState : Type 0 where
    pub source : PhotoSource
    pub taken_at : Option Moment
    pub time_status : TimeStatus
    pub latitude : Option F
    pub longitude : Option F
    pub region_origin : RegionOrigin
    pub embedding : Option E
    pub place_id : Option String
    pub issue : Option Issue
    pub duplicate_of_attachment_id : Option ℕ
    pub evaluation : Option ℕ

module _ {F E : Type 0} where
  -- `PhotoSource.has_gps`
  abbrev pub has_gps : PhotoSource F E → Bool
  has_gps s = is_some s.latitude && is_some s.longitude

  -- one round of the loop of `build_photo_states`
  pub build_photo_state : PhotoSource F E → PhotoState F E
  build_photo_state s = record {
    source = s;
    taken_at = none;
    time_status = unsettled;
    latitude = if has_gps s then s.latitude else none;
    longitude = if has_gps s then s.longitude else none;
    region_origin = if has_gps s then exif else unlocated;
    embedding = none;
    place_id = none;
    issue = none;
    duplicate_of_attachment_id = none;
    evaluation = none;
  }

  -- `build_photo_states`
  unfoldable pub build_photo_states : List (PhotoSource F E) → List (PhotoState F E)
  unfolding build_photo_state
  build_photo_states [] = []
  build_photo_states (s ∷ ss) = build_photo_state s ∷ build_photo_states ss

  -- `photo.source.trip_attachment_id`
  abbrev pub photo_id : PhotoState F E → ℕ
  photo_id p = p.source.trip_attachment_id
