-- ===== src/Pipeline/Finalizing.antt =====
-- The checks of FINALIZING (app/pipeline/steps/finalizing.py) on what the filter leaves. Whether a
-- latitude or a longitude is finite and in range is an argument.
use ktb4_2nd_ai.Prelude.{
  ℕ, ◌≡◌, refl, String, Bool, true, false, not, ◌&&◌, ◌||◌, Option, none, some, is_some, List, [],
  ◌∷◌, str_eq, All, arith, eq_iff, ◌∙◌,
}
use ktb4_2nd_ai.Pipeline.{
  RegionOrigin, unlocated, Issue, unclear_location, blurry, duplicated, PhotoState, photo_id,
}
use ktb4_2nd_ai.Pipeline.Filtering.{
  PhotoMetrics, has_order, is_unclear, same_place, kept_issue, judge, retain, is_blurry,
  original_of, judge_group, id_among, find_photo,
}
pub mod Accepts
pub mod Filtered
pub mod Candidates
pub mod Lookup
use ktb4_2nd_ai.Pipeline.Kept.{all_among, Among, duplicates_name_kept}

abbrev pub is_unlocated : RegionOrigin → Bool
is_unlocated unlocated = true
is_unlocated _ = false

abbrev pub is_duplicated : Option Issue → Bool
is_duplicated (some duplicated) = true
is_duplicated _ = false

abbrev pub in_range : {F : Type 0} → (F → Bool) → Option F → Bool
in_range ok none = true
in_range ok (some v) = ok v

-- the check of a duplicate's original, `by_id.get(photo.duplicate_of_attachment_id)`
abbrev pub same_issue : Option Issue → Option Issue → Bool
same_issue none none = true
same_issue (some unclear_location) (some unclear_location) = true
same_issue (some blurry) (some blurry) = true
same_issue (some duplicated) (some duplicated) = true
same_issue _ _ = false

same_issue_refl : (i : Option Issue) → same_issue i i ≡ true
same_issue_refl none = refl
same_issue_refl (some unclear_location) = refl
same_issue_refl (some blurry) = refl
same_issue_refl (some duplicated) = refl

same_place_refl : (a : Option String) → same_place a a ≡ true
same_place_refl none = refl
same_place_refl (some a) = (eq_iff a a).1 refl

module _ {F E : Type 0} where
  -- the branches of `_validate` on the place of a photo
  abbrev pub place_holds : Bool → Option String → PhotoState F E → Bool
  place_holds true place p = not (is_some place)
  place_holds false none p = is_some p.issue
  place_holds false (some place) p = not (
      str_eq place ""
      || (not (is_some p.latitude) || (not (is_some p.longitude) || is_unlocated p.region_origin)))

  -- `_validate`; `false` is a `PipelineError`
  unfoldable pub validate : (F → Bool) → (F → Bool) → PhotoState F E → Bool
  validate lat_ok lon_ok p =
      has_order p
      && (in_range lat_ok p.latitude
          && (in_range lon_ok p.longitude
              && (place_holds (is_unclear p.issue) p.place_id p
                  && (is_duplicated p.issue || not (is_some p.duplicate_of_attachment_id)))))

  unfoldable pub original_holds : PhotoState F E → Option (PhotoState F E) → Bool
  original_holds p none = false
  original_holds p (some o) =
      same_issue o.issue (kept_issue p.place_id) && same_place o.place_id p.place_id

  -- `len(by_id) == len(photos)`
  unfoldable pub distinct_ids : List (PhotoState F E) → Bool
  unfolding id_among
  distinct_ids [] = true
  distinct_ids (p ∷ ps) = not (id_among (photo_id p) ps) && distinct_ids ps

  -- `by_id.get(photo.duplicate_of_attachment_id)`
  abbrev pub get_original : Option ℕ → List (PhotoState F E) → Option (PhotoState F E)
  get_original none photos = none
  get_original (some i) photos = find_photo i photos

  -- the checks of a photo in the loop, among all photos; `known`: the photo has a variance
  unfoldable pub photo_holds :
      (F → Bool) → (F → Bool) → (ℕ → Bool) → List (PhotoState F E) → PhotoState F E → Bool
  unfolding validate original_holds find_photo
  photo_holds lat_ok lon_ok known photos p =
      validate lat_ok lon_ok p
      && ((is_unclear p.issue || known (photo_id p))
          && (not (is_duplicated p.issue)
              || original_holds p (get_original p.duplicate_of_attachment_id photos)))

  unfoldable pub all_hold :
      (F → Bool) → (F → Bool) → (ℕ → Bool) → List (PhotoState F E) → List (PhotoState F E) → Bool
  unfolding photo_holds
  all_hold lat_ok lon_ok known photos [] = true
  all_hold lat_ok lon_ok known photos (p ∷ ps) =
      photo_holds lat_ok lon_ok known photos p && all_hold lat_ok lon_ok known photos ps

  -- the check of the ids and the loop over the photos of `finalize_photos`
  unfoldable pub loop_holds : (F → Bool) → (F → Bool) → (ℕ → Bool) → List (PhotoState F E) → Bool
  unfolding distinct_ids all_hold
  loop_holds lat_ok lon_ok known photos =
      distinct_ids photos && all_hold lat_ok lon_ok known photos photos

  unfoldable pub any_photo : (PhotoState F E → Bool) → List (PhotoState F E) → Bool
  any_photo f [] = false
  any_photo f (p ∷ ps) = f p || any_photo f ps

  -- `candidates` of a place, those of its members that have no issue
  abbrev pub is_candidate : Option String → PhotoState F E → Bool
  is_candidate place p = same_place p.place_id place && not (is_some p.issue)

  -- the groups of these photos have candidates, without which `select_representative` raises
  unfoldable pub all_represented : List (PhotoState F E) → List (PhotoState F E) → Bool
  unfolding any_photo
  all_represented photos [] = true
  all_represented photos (p ∷ ps) =
      (elim p.place_id [ none ↦ true | some place ↦ any_photo (is_candidate (some place)) photos ])
      && all_represented photos ps

  -- a photo that comes to the filter with its coordinates checked, and with them when it has a place
  abbrev pub placed : Option String → PhotoState F E → Bool
  placed none p = true
  placed (some place) p = not (
      str_eq place ""
      || (not (is_some p.latitude) || (not (is_some p.longitude) || is_unlocated p.region_origin)))

  abbrev pub is_ready : (F → Bool) → (F → Bool) → PhotoState F E → Bool
  is_ready lat_ok lon_ok p =
      has_order p
      && (in_range lat_ok p.latitude && (in_range lon_ok p.longitude && placed p.place_id p))

  judge-validate :
      (lat_ok lon_ok : F → Bool) (p : PhotoState F E) (place : Option String) (b : Bool)
      (o : Option (PhotoState F E))
      → p.place_id ≡ place
      → is_ready lat_ok lon_ok p ≡ true
      → validate lat_ok lon_ok (judge (kept_issue place) p b o).0 ≡ true
  unfolding validate judge
  judge-validate lat_ok lon_ok p none true o e h = ground (arith, e, h)
  judge-validate lat_ok lon_ok p none false none e h = ground (arith, e, h)
  judge-validate lat_ok lon_ok p none false (some o) e h = ground (arith, e, h)
  judge-validate lat_ok lon_ok p (some place) true o e h = ground (arith, e, h)
  judge-validate lat_ok lon_ok p (some place) false none e h = ground (arith, e, h)
  judge-validate lat_ok lon_ok p (some place) false (some o) e h = ground (arith, e, h)

  -- the photos of one place, ready for the filter
  unfoldable pub ReadyGroup :
      (F → Bool) → (F → Bool) → Option String → List (PhotoState F E) → Type 0
  ReadyGroup lat_ok lon_ok place ps =
      All (λ p. (p.place_id ≡ place) × (is_ready lat_ok lon_ok p ≡ true)) ps

  module _ {V H : Type 0} (valid : PhotoMetrics V H → Bool) (less : V → V → Bool)
      (distance : H → H → ℕ) (metrics : ℕ → Option (PhotoMetrics V H)) (blur_var_min : V)
      (phash_max_dist : ℕ) where
    group-validate :
        (lat_ok lon_ok : F → Bool) (place : Option String) (r ps : List (PhotoState F E))
        → ReadyGroup lat_ok lon_ok place ps
        → All
            (λ q. validate lat_ok lon_ok q ≡ true)
            (judge_group valid less distance metrics blur_var_min phash_max_dist
              (kept_issue place)
              r
              ps)
    unfolding judge_group ReadyGroup
    group-validate lat_ok lon_ok place r [] h = tt
    group-validate lat_ok lon_ok place r (p ∷ ps) ((e, h), hs) =
        let b = is_blurry valid less distance metrics blur_var_min phash_max_dist p in
        let o = original_of valid less distance metrics blur_var_min phash_max_dist p r in
        (
          judge-validate lat_ok lon_ok p place b o e h,
          group-validate lat_ok lon_ok place (retain (judge (kept_issue place) p b o) r) ps hs,
        )

    -- When the photos of a place come to the filter with consistent times, coordinates in range and,
    -- unless they have no place, a position, `_validate` accepts every photo as the filter leaves it.
    pub filtered-validate :
        (lat_ok lon_ok : F → Bool) (place : Option String) (ps : List (PhotoState F E))
        → ReadyGroup lat_ok lon_ok place ps
        → All
            (λ q. validate lat_ok lon_ok q ≡ true)
            (judge_group valid less distance metrics blur_var_min phash_max_dist
              (kept_issue place)
              []
              ps)
    filtered-validate lat_ok lon_ok place ps = group-validate lat_ok lon_ok place [] ps

    judge-place :
        (kept : Option Issue) (p : PhotoState F E) (b : Bool) (o : Option (PhotoState F E))
        → (judge kept p b o).0.place_id ≡ p.place_id
    unfolding judge
    judge-place kept p true o = refl
    judge-place kept p false none = refl
    judge-place kept p false (some o) = refl

    pub group-place :
        (kept : Option Issue) (place : Option String) (r ps : List (PhotoState F E))
        → All (λ (p : PhotoState F E). p.place_id ≡ place) ps
        → All
            (λ (q : PhotoState F E). q.place_id ≡ place)
            (judge_group valid less distance metrics blur_var_min phash_max_dist kept r ps)
    unfolding judge_group
    group-place kept place r [] h = tt
    group-place kept place r (p ∷ ps) (h, hs) =
        let b = is_blurry valid less distance metrics blur_var_min phash_max_dist p in
        let o = original_of valid less distance metrics blur_var_min phash_max_dist p r in
        (judge-place kept p b o ∙ h, group-place kept place (retain (judge kept p b o) r) ps hs)

    -- A duplicate among the photos of a place, as the filter leaves them, names a photo of that place
    -- that FINALIZING accepts as its original.
    pub filtered-original_holds :
        (place : Option String) (ps : List (PhotoState F E)) (q : PhotoState F E) (i : ℕ)
        → All (λ (p : PhotoState F E). p.place_id ≡ place) ps
        → Among q (
            judge_group valid less distance metrics blur_var_min phash_max_dist
              (kept_issue place)
              []
              ps)
        → q.duplicate_of_attachment_id ≡ some i
        → (o : PhotoState F E) × (photo_id o ≡ i)
          × Among o (
              judge_group valid less distance metrics blur_var_min phash_max_dist
                (kept_issue place)
                []
                ps)
          × (original_holds q (some o) ≡ true)
    unfolding original_holds
    filtered-original_holds place ps q i here a d =
        let out =
          judge_group valid less distance metrics blur_var_min phash_max_dist (kept_issue place) []
            ps in
        let (o, w) =
          duplicates_name_kept less distance valid metrics blur_var_min phash_max_dist
            (kept_issue place) ps q i a d in
        let places = group-place (kept_issue place) place [] ps here in
        let at : (p : PhotoState F E) → Among p out → p.place_id ≡ place =
          λ p b. all_among (λ (x : PhotoState F E). x.place_id ≡ place) p out b places in
        (
          o,
          w.id,
          w.there,
          ground (
            arith,
            w.stays,
            at q a,
            at o w.there,
            same_issue_refl (kept_issue place),
            same_place_refl place,
          ),
        )
