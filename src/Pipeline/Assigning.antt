-- ===== src/Pipeline/Assigning.antt =====
-- `assign_unlocated` (app/pipeline/steps/assigning.py): photos without a position go to a place by
-- their time or by the photos that they are like. The order of similarities and the date of a
-- photo are arguments. A place id is never empty, so it is tested by whether it is there.
pub mod Counts
pub mod Rounds
use ktb4_2nd_ai.Prelude.{
  ℕ, zero, suc, ◌+◌, String, Bool, true, false, not, ◌&&◌, ◌||◌, Option, none, some, is_some, List,
  [], ◌∷◌, ltb, leb, ◌==◌, str_eq, if◌then◌else◌, bit, ◌>>=◌,
}
use ktb4_2nd_ai.Pipeline.{
  RegionOrigin, exif, inferred, Issue, Moment, PhotoState, has_gps, photo_id,
}
use ktb4_2nd_ai.Pipeline.Filtering.{is_unclear}

-- an entry of `track`: instant, photo id and place
pub record Entry : Type 0 where
  pub instant : ℕ
  pub photo : ℕ
  pub place : String

abbrev pub entry_before : Entry → Entry → Bool
entry_before a b = ltb a.instant b.instant || (a.instant == b.instant && leb a.photo b.photo)

unfoldable pub insert_entry : Entry → List Entry → List Entry
insert_entry e [] = e ∷ []
insert_entry e (f ∷ t) =
    let rest = insert_entry e t in if entry_before e f then e ∷ f ∷ t else f ∷ rest

-- `before[-1]` and `after[0]` of a sorted track
unfoldable pub last_before : ℕ → List Entry → Option Entry
last_before t [] = none
last_before t (e ∷ es) = elim (last_before t es) [
  | some f ↦ some f
  | none ↦ if leb e.instant t then some e else none
]

unfoldable pub first_after : ℕ → List Entry → Option Entry
first_after t [] = none
first_after t (e ∷ es) = let rest = first_after t es in if leb t e.instant then some e else rest

-- the place on both sides of a time, when both are near enough
unfoldable pub between : ℕ → List Entry → ℕ → Option String
unfolding last_before first_after
between gap track t = do
  before ← last_before t track
  after ← first_after t track
  if str_eq before.place after.place
        && (leb t (before.instant + gap) && leb after.instant (t + gap))
      then some before.place
      else none

-- the one place of a list of places, `len(folders) == 1`
unfoldable pub only_place : List String → Option String
only_place [] = none
only_place (p ∷ []) = some p
only_place (p ∷ q ∷ ps) = elim (only_place (q ∷ ps)) [
  | none ↦ none
  | some r ↦ if str_eq p r then some r else none
]

abbrev pub is_exif : RegionOrigin → Bool
is_exif exif = true
is_exif _ = false

-- where a photo goes by its time
abbrev pub time_place : ℕ → List Entry → Option Moment → Option String
time_place gap track none = none
time_place gap track (some t) = between gap track t.instant

abbrev pub dated : (Moment → Bool) → Option Moment → Bool
dated in_period none = true
dated in_period (some t) = in_period t

-- what the two passes give: `PipelineError`, or how many photos they placed and the photos
module _ (F E : Type 0) where
  abbrev pub Placed : Type 0
  Placed = Option (ℕ × List (PhotoState F E))

module _ {F E : Type 0} where
  unfoldable pub at : ℕ → List (PhotoState F E) → Option (PhotoState F E)
  at i [] = none
  at zero (p ∷ ps) = some p
  at (suc i) (p ∷ ps) = at i ps

  -- the object at a position is changed
  unfoldable pub modify :
      (PhotoState F E → PhotoState F E) → ℕ → List (PhotoState F E) → List (PhotoState F E)
  modify f i [] = []
  modify f zero (p ∷ ps) = f p ∷ ps
  modify f (suc i) (p ∷ ps) = p ∷ modify f i ps

  -- `sorted(photos, key=trip_attachment_id)`
  unfoldable pub insert_photo : PhotoState F E → List (PhotoState F E) → List (PhotoState F E)
  insert_photo p [] = p ∷ []
  insert_photo p (q ∷ qs) =
      let rest = insert_photo p qs in if leb (photo_id p) (photo_id q) then p ∷ q ∷ qs else q ∷ rest

  unfoldable pub sort_photos : List (PhotoState F E) → List (PhotoState F E)
  unfolding insert_photo
  sort_photos [] = []
  sort_photos (p ∷ ps) = insert_photo p (sort_photos ps)

  unfoldable pub track_of : List (PhotoState F E) → List Entry
  unfolding insert_entry
  track_of [] = []
  track_of (p ∷ ps) =
      let rest = track_of ps in
      elim p.place_id [
        | none ↦ rest
        | some place ↦ elim p.taken_at [
          | none ↦ rest
          | some t ↦
              insert_entry (record { instant = t.instant; photo = photo_id p; place = place }) rest
        ]
      ]

  abbrev pub in_place : String → PhotoState F E → Bool
  in_place place p = elim p.place_id [ none ↦ false | some q ↦ str_eq q place ]

  -- `max` over the anchors: the first of the nearest
  unfoldable pub nearest :
      (PhotoState F E → PhotoState F E → Bool) → List (PhotoState F E) → Option (PhotoState F E)
  nearest closer [] = none
  nearest closer (a ∷ qs) = elim (nearest closer qs) [
    | none ↦ some a
    | some b ↦ if closer b a then some b else some a
  ]

  unfoldable pub anchors : String → List (PhotoState F E) → List (PhotoState F E)
  anchors place [] = []
  anchors place (p ∷ ps) =
      let rest = anchors place ps in
      if in_place place p && is_exif p.region_origin then p ∷ rest else rest

  -- the writes of `_place`
  abbrev pub settled : String → PhotoState F E → PhotoState F E → PhotoState F E
  settled place near p = record p {
    place_id = some place;
    latitude = near.latitude;
    longitude = near.longitude;
    region_origin = inferred;
    issue = none;
  }

  -- the photos that have no place yet
  unfoldable pub unplaced : List (PhotoState F E) → ℕ
  unplaced [] = 0
  unplaced (p ∷ ps) = bit (not (is_some p.place_id)) + unplaced ps

-- the count goes on behind a round that changed something
abbrev pub after_round : {F E : Type 0} → ℕ → Option (Placed F E) → Option (Placed F E)
after_round n none = none
after_round n (some none) = some none
after_round n (some (some s)) = some (some (n + s.0, s.1))

-- `closer t a b`: a is more like t than b is; `similar a b`: at least as alike as the threshold says
module _ {F E : Type 0} (closer : E → E → E → Bool) (similar : E → E → Bool) (gap : ℕ) where
  abbrev pub closer_photo : PhotoState F E → PhotoState F E → PhotoState F E → Bool
  closer_photo t a b = elim t.embedding [
    | none ↦ false
    | some u ↦ elim a.embedding [
      | none ↦ false
      | some v ↦ elim b.embedding [ none ↦ false | some w ↦ closer u v w ]
    ]
  ]

  abbrev pub similar_photo : PhotoState F E → PhotoState F E → Bool
  similar_photo p q = elim p.embedding [
    | none ↦ false
    | some u ↦ elim q.embedding [ none ↦ false | some v ↦ similar u v ]
  ]

  -- `_place` on the i-th photo
  unfoldable pub place_photo : ℕ → PhotoState F E → String → List (PhotoState F E) → Placed F E
  unfolding nearest anchors modify
  place_photo i p place ps = elim (nearest (closer_photo p) (anchors place ps)) [
    | none ↦ none
    | some near ↦ some (1, modify (settled place near) i ps)
  ]

  unfoldable pub place_if : ℕ → PhotoState F E → Option String → List (PhotoState F E) → Placed F E
  unfolding place_photo
  place_if i p none ps = some (0, ps)
  place_if i p (some place) ps = place_photo i p place ps

  -- one target of the pass by time
  unfoldable pub by_time_one :
      List Entry → ℕ → Option (PhotoState F E) → List (PhotoState F E) → Placed F E
  unfolding place_if
  by_time_one track i none ps = some (0, ps)
  by_time_one track i (some p) ps =
      if is_some p.place_id then some (0, ps) else place_if i p (time_place gap track p.taken_at) ps

  -- the places of the other photos that are like the i-th; k is the position of the first of `qs`
  unfoldable pub similar_places : ℕ → PhotoState F E → ℕ → List (PhotoState F E) → List String
  similar_places i p k [] = []
  similar_places i p k (q ∷ qs) =
      let rest = similar_places i p (suc k) qs in
      elim q.place_id [
        | none ↦ rest
        | some place ↦ if not (k == i) && similar_photo q p then place ∷ rest else rest
      ]

  -- one target of the pass by similarity
  unfoldable pub by_similarity_one :
      ℕ → Option (PhotoState F E) → List (PhotoState F E) → Placed F E
  unfolding similar_places only_place place_if
  by_similarity_one i none ps = some (0, ps)
  by_similarity_one i (some p) ps =
      if is_some p.place_id
      then some (0, ps)
      else place_if i p (only_place (similar_places i p 0 ps)) ps

  -- a pass over the targets, each looked up in the photos as they are by then
  unfoldable pub pass :
      (ℕ → Option (PhotoState F E) → List (PhotoState F E) → Placed F E)
      → List ℕ
      → List (PhotoState F E)
      → Placed F E
  unfolding at
  pass step [] ps = some (0, ps)
  pass step (i ∷ is) ps =
      step i (at i ps) ps >>= λ r. (pass step is r.1 >>= λ s. some (r.0 + s.0, s.1))

  -- one round of `while changed`
  unfoldable pub round : List ℕ → List (PhotoState F E) → Placed F E
  unfolding track_of by_time_one by_similarity_one pass
  round targets ps = pass (by_time_one (track_of ps)) targets ps >>= λ r.
      (pass by_similarity_one targets r.1 >>= λ s. some (r.0 + s.0, s.1))

  -- `while changed` on fuel
  unfoldable pub rounds : ℕ → List ℕ → List (PhotoState F E) → Option (Placed F E)
  unfolding round
  rounds zero targets ps = none
  rounds (suc fuel) targets ps = elim (round targets ps) [
    | none ↦ some none
    | some r ↦
        let later = rounds fuel targets r.1 in
        if r.0 == 0 then some (some r) else after_round r.0 later
  ]

  -- the targets, by their positions
  module _ (in_period : Moment → Bool) where
    abbrev pub is_target : PhotoState F E → Bool
    is_target p = is_unclear p.issue && (not (has_gps p.source) && dated in_period p.taken_at)

    unfoldable pub targets_of : ℕ → List (PhotoState F E) → List ℕ
    targets_of k [] = []
    targets_of k (p ∷ ps) =
        let rest = targets_of (suc k) ps in if is_target p then k ∷ rest else rest

    -- a photo with a place or a target that has no embedding
    unfoldable pub lacks_embedding : List (PhotoState F E) → Bool
    lacks_embedding [] = false
    lacks_embedding (p ∷ ps) =
        ((is_some p.place_id || is_target p) && not (is_some p.embedding)) || lacks_embedding ps

    unfoldable pub assign_sorted : List (PhotoState F E) → Option (Placed F E)
    unfolding targets_of lacks_embedding rounds unplaced
    assign_sorted ps = elim (targets_of 0 ps) [
      | [] ↦ some (some (0, ps))
      | i ∷ is ↦ if lacks_embedding ps then some none else rounds (suc (unplaced ps)) (i ∷ is) ps
    ]

    -- `assign_unlocated`, with whether its two settings are in their ranges; the outer option is
    -- none when the fuel runs out, the inner one for a `PipelineError`
    unfoldable pub assign_unlocated : Bool → List (PhotoState F E) → Option (Placed F E)
    unfolding sort_photos assign_sorted
    assign_unlocated settings_fit photos =
        let result = assign_sorted (sort_photos photos) in
        if settings_fit then result else some none
