-- ===== src/Pipeline/Tests.antt =====
-- The steps of the photo pipeline on concrete photos (app/pipeline/steps/).
use ktb4_2nd_ai.Prelude.{
  ◌*◌, ◌==◌, ℕ, ◌+◌, ◌≡◌, ◌⊎◌, refl, Bool, true, false, none, some, List, [], ◌∷◌, leb, ltb,
}
use ktb4_2nd_ai.Pipeline.{
  Moment, TimeStatus, PhotoState, RegionOrigin, exif, unlocated, undated, unclear_location,
}
use ktb4_2nd_ai.Pipeline.Assigning.{
  Placed, at, modify, nearest, anchors, place_photo, place_if, by_time_one, similar_places,
  only_place, by_similarity_one, pass, round, track_of, rounds, unplaced, insert_photo, sort_photos,
  lacks_embedding, assign_sorted, assign_unlocated,
}
use ktb4_2nd_ai.Pipeline.Assigning
use ktb4_2nd_ai.Pipeline.Clock.{
  all_have_offset, references_of, is_trusted, device_group, keep_time, shift_time, correct_target,
  correct_one, correct_all, correct_clocks,
}
use ktb4_2nd_ai.Pipeline.Clock.Times.{correct_clocks-times_fit}
use ktb4_2nd_ai.Pipeline.Clustering.{
  any_misses_position, position_of, place_number, assign_place, assign_places, candidates_of,
  all_in_range, cluster_photos,
}
use ktb4_2nd_ai.Pipeline.Locating.{
  classify, classify_all, insert_anchor, anchors_of, targets_of, most_similar, inherit,
  keep_position, settle_target, settle_all, times_fit, locate_photos,
}
use ktb4_2nd_ai.Pipeline.Locating.Positions.{locate_photos-positions}
use ktb4_2nd_ai.Pipeline.Assigning.Rounds.{assign_unlocated-returns}

-- a photo with a position, in a place
abbrev located : PhotoState ℕ ℕ
located = record {
  source = record {
    trip_attachment_id = 2;
    analyze_storage_key = "a/2.jpg";
    taken_at = none;
    latitude = some 37;
    longitude = some 127;
    device_model = none;
  };
  taken_at = none;
  time_status = undated;
  latitude = some 37;
  longitude = some 127;
  region_origin = exif;
  embedding = some 5;
  place_id = some "p1";
  issue = none;
  duplicate_of_attachment_id = none;
  evaluation = none;
}

-- one without, that is like it
abbrev lost : PhotoState ℕ ℕ
lost = record {
  source = record {
    trip_attachment_id = 1;
    analyze_storage_key = "a/1.jpg";
    taken_at = none;
    latitude = none;
    longitude = none;
    device_model = none;
  };
  taken_at = none;
  time_status = undated;
  latitude = none;
  longitude = none;
  region_origin = unlocated;
  embedding = some 5;
  place_id = none;
  issue = some unclear_location;
  duplicate_of_attachment_id = none;
  evaluation = none;
}

abbrev nearer : ℕ → ℕ → ℕ → Bool
nearer t a b = ltb b a

abbrev alike : ℕ → ℕ → Bool
alike a b = leb a b

abbrev found : PhotoState ℕ ℕ
found = record lost {
  place_id = some "p1";
  latitude = some 37;
  longitude = some 127;
  region_origin = RegionOrigin.inferred;
  issue = none;
}

assigned :
    assign_unlocated nearer alike 10 (λ t. true) true (located ∷ lost ∷ [])
    ≡ some (some (1, found ∷ located ∷ []))
unfolding assign_unlocated assign_sorted sort_photos insert_photo Assigning.targets_of
    lacks_embedding unplaced rounds round pass at track_of by_time_one place_if by_similarity_one
    similar_places only_place place_photo nearest anchors modify
assigned = refl

assign_unlocated-returns_example :
    (s : Placed ℕ ℕ) × (assign_unlocated nearer alike 10 (λ t. true) true (located ∷ lost ∷ [])
      ≡ some s)
    × ((s ≡ none)
        ⊎ ((n : ℕ) × (qs : List (PhotoState ℕ ℕ)) × (s ≡ some (n, qs))
            × (unplaced qs + n ≡ unplaced (located ∷ lost ∷ []))
            × (round nearer alike 10
                  (Assigning.targets_of nearer alike 10
                    (λ t. true)
                    0
                    (sort_photos (located ∷ lost ∷ [])))
                  qs
                ≡ some (0, qs))))
assign_unlocated-returns_example =
    assign_unlocated-returns nearer alike 10 (λ t. true) true (located ∷ lost ∷ [])

-- a photo that LOCATING is to find
abbrev sought : PhotoState ℕ ℕ
sought = record lost { issue = none }

locate_photos-positions_example :
    any_misses_position (keep_position located ∷ inherit located sought ∷ []) ≡ false
unfolding locate_photos settle_all settle_target most_similar targets_of anchors_of insert_anchor
    classify_all classify times_fit
locate_photos-positions_example =
    locate_photos-positions (λ t a b. false) (λ p a. true) (λ ps. true) (λ t. true) true true
      (located ∷ sought ∷ []) (keep_position located ∷ inherit (keep_position located) sought ∷ [])
      refl

-- two photos of one label have one place, in the order of their ids
clustered :
    cluster_photos
      (λ n. "p1")
      (λ a b. true)
      (λ ps. some 7 ∷ some 7 ∷ [])
      true
      (keep_position located ∷ inherit located sought ∷ [])
    ≡ some (record (inherit located sought) { place_id = some "p1" } ∷ keep_position located ∷ [])
unfolding cluster_photos candidates_of any_misses_position all_in_range assign_places assign_place
    place_number position_of insert_photo
clustered = refl

-- a photo with a position and a time, and one of a camera whose clock is a day late
abbrev at_noon : Moment
at_noon = record { instant = 12; aware = true }

abbrev on_time : PhotoState ℕ ℕ
on_time = record located { source = record (located.source) { taken_at = some at_noon } }

abbrev late : PhotoState ℕ ℕ
late = record lost {
  source = record (lost.source) { taken_at = some at_noon; device_model = some "camera" };
}

abbrev next_day : PhotoState ℕ ℕ
next_day = record late {
  taken_at = some (record { instant = 36; aware = true });
  time_status = TimeStatus.corrected;
}

correct_clocks-times_fit_example : times_fit (keep_time on_time ∷ next_day ∷ []) ≡ true
unfolding correct_clocks all_have_offset references_of insert_photo is_trusted device_group
    shift_time correct_target correct_one correct_all
correct_clocks-times_fit_example =
    correct_clocks-times_fit (λ group anchors. some (some 1)) (λ days. days == 0)
      (λ t days. some (t + days * 24)) true (on_time ∷ late ∷ [])
      (keep_time on_time ∷ next_day ∷ []) refl
