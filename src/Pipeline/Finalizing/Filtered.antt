-- ===== src/Pipeline/Finalizing/Filtered.antt =====
-- What `filter_photos` leaves passes the loop of `finalize_photos` (app/pipeline/steps/filtering.py,
-- finalizing.py).
use ktb4_2nd_ai.Prelude.{
  ℕ, ◌≡◌, String, Bool, true, false, not, ◌||◌, Option, none, some, is_some, List, [], ◌∷◌, map,
  All, arith, Bool-cases, Option-cases, inl, inr, ap, sym, ◌∙◌, some_injective,
}
use ktb4_2nd_ai.Pipeline.{PhotoState, photo_id}
use ktb4_2nd_ai.Pipeline.Filtering.{
  PhotoMetrics, kept_issue, judge, retain, is_blurry, original_of, judge_group, sort_photos,
  group_of, id_among, find_photo, all_valid, updated, filter_photos,
}
use ktb4_2nd_ai.Pipeline.Kept.{Among, all_among}
use ktb4_2nd_ai.Pipeline.Finalizing.{
  is_duplicated, validate, original_holds, distinct_ids, get_original, photo_holds, loop_holds,
  is_ready, ReadyGroup, filtered-validate, group-place, filtered-original_holds,
}
use ktb4_2nd_ai.Pipeline.Finalizing.Lookup.{
  id_among-sort, distinct_ids-sort, distinct_ids-group_of, Among-id_among, find_photo-Among,
  id_among-find_photo, Among-sort, Among-group_of, group_of-Among, id_among-judge_group,
  distinct_ids-judge_group, all_valid-distinct_ids, valid_photo,
}
use ktb4_2nd_ai.Pipeline.Finalizing.Accepts.{
  same_place_reflexive, same_place-equal, all_positioned, positioned, All-intro, distinct_ids-map,
  find_photo-map, all_hold-map, judge-marks, photo_holds-intro,
}

or_right : (d o : Bool) → o ≡ true → (not d || o) ≡ true
or_right d o e = ground (arith, e)

module _ {F E V H : Type 0} (valid : PhotoMetrics V H → Bool) (less : V → V → Bool)
    (distance : H → H → ℕ) (metrics : ℕ → Option (PhotoMetrics V H)) (blur_var_min : V)
    (phash_max_dist : ℕ) where
  -- the photos of a place behind the second loop
  abbrev pub judged : Option String → List (PhotoState F E) → List (PhotoState F E)
  judged place photos =
      judge_group valid less distance metrics blur_var_min phash_max_dist (kept_issue place) []
        (sort_photos (group_of place photos))

  -- a photo of the list behind the filter
  pub record IsJudged (photos : List (PhotoState F E)) (p q : PhotoState F E) : Type 0 where
    pub is : updated valid less distance metrics blur_var_min phash_max_dist photos p ≡ q
    pub found : find_photo (photo_id p) (judged p.place_id photos) ≡ some q
    pub there : Among q (judged p.place_id photos)
    pub id : photo_id q ≡ photo_id p

  updated_found :
      (photos : List (PhotoState F E)) (p q : PhotoState F E)
      → find_photo (photo_id p) (judged p.place_id photos) ≡ some q
      → updated valid less distance metrics blur_var_min phash_max_dist photos p ≡ q
  updated_found photos p q e =
      ap
        (λ (o : Option (PhotoState F E)). elim o as (λ _. PhotoState F E) [ none ↦ p | some x ↦ x ])
        e

  pub updated-IsJudged :
      (photos : List (PhotoState F E)) (p : PhotoState F E)
      → Among p photos
      → (q : PhotoState F E) × IsJudged photos p q
  updated-IsJudged photos p a =
      let group = group_of p.place_id photos in
      let known : id_among (photo_id p) (judged p.place_id photos) ≡ true =
        id_among-judge_group valid less distance metrics blur_var_min phash_max_dist (photo_id p)
          (kept_issue p.place_id) [] (sort_photos group)
        ∙ id_among-sort (photo_id p) group
        ∙ Among-id_among p group (group_of-Among p photos (same_place_reflexive p.place_id) a) in
      let (q, found, there, id) =
        id_among-find_photo (photo_id p) (judged p.place_id photos) known in
      (q, record { is = updated_found photos p q found; found = found; there = there; id = id })

  abbrev pub judge_one : List (PhotoState F E) → PhotoState F E → PhotoState F E
  judge_one = updated valid less distance metrics blur_var_min phash_max_dist

  pub updated-id :
      (photos : List (PhotoState F E)) (p : PhotoState F E)
      → Among p photos
      → photo_id (judge_one photos p) ≡ photo_id p
  updated-id photos p a =
      let (q, j) = updated-IsJudged photos p a in
      ap (λ (x : PhotoState F E). photo_id x) j.is ∙ j.id

  -- the photos of a group have its place
  pub in_group :
      (place : Option String) (photos : List (PhotoState F E)) (p : PhotoState F E)
      → Among p (sort_photos (group_of place photos))
      → Among p photos × (p.place_id ≡ place)
  in_group place photos p a =
      let (b, e) = Among-group_of p place photos (Among-sort p (group_of place photos) a) in
      (b, same_place-equal p.place_id place e)

  pub judged_place :
      (place : Option String) (photos : List (PhotoState F E))
      → All (λ (q : PhotoState F E). q.place_id ≡ place) (judged place photos)
  judged_place place photos =
      group-place valid less distance metrics blur_var_min phash_max_dist (kept_issue place) place
        [] (sort_photos (group_of place photos))
        (All-intro (λ (p : PhotoState F E). p.place_id ≡ place)
          (sort_photos (group_of place photos)) (λ p a. (in_group place photos p a).1))

  judge_group-marks :
      (place : Option String) (r ps : List (PhotoState F E))
      → All
          (λ (q : PhotoState F E). is_duplicated q.issue ≡ is_some q.duplicate_of_attachment_id)
          (judge_group valid less distance metrics blur_var_min phash_max_dist
            (kept_issue place)
            r
            ps)
  unfolding judge_group
  judge_group-marks place r [] = tt
  judge_group-marks place r (p ∷ ps) =
      let b = is_blurry valid less distance metrics blur_var_min phash_max_dist p in
      let o = original_of valid less distance metrics blur_var_min phash_max_dist p r in
      (
        judge-marks place p b o,
        judge_group-marks place (retain (judge (kept_issue place) p b o) r) ps,
      )

  module _ (photos : List (PhotoState F E))
      (ok : all_valid valid less distance metrics blur_var_min phash_max_dist [] photos
        ≡ true) where
    pub distinct : distinct_ids photos ≡ true
    distinct =
        all_valid-distinct_ids valid less distance metrics blur_var_min phash_max_dist [] photos ok

    judged_valid :
        (lat_ok lon_ok : F → Bool) (place : Option String)
        → all_positioned lat_ok lon_ok photos ≡ true
        → All (λ (q : PhotoState F E). validate lat_ok lon_ok q ≡ true) (judged place photos)
    unfolding ReadyGroup
    judged_valid lat_ok lon_ok place pos =
        let group = sort_photos (group_of place photos) in
        filtered-validate valid less distance metrics blur_var_min phash_max_dist lat_ok lon_ok
          place group
          (All-intro
            (λ (p : PhotoState F E). (p.place_id ≡ place) × (is_ready lat_ok lon_ok p ≡ true)) group
            (λ p a.
              let (b, e) = in_group place photos p a in
              let (order, _, _) =
                valid_photo valid less distance metrics blur_var_min phash_max_dist p [] photos ok
                  b in
              (e, ground (arith, order, positioned lat_ok lon_ok p photos pos b))))

    -- the object that is kept for a duplicate is found by its id among all photos
    pub found_original :
        (place : Option String) (o : PhotoState F E)
        → Among o (judged place photos)
        → find_photo (photo_id o) (map (judge_one photos) photos) ≡ some o
    found_original place o a =
        let group = group_of place photos in
        let known : id_among (photo_id o) (sort_photos group) ≡ true =
          sym (
            id_among-judge_group valid less distance metrics blur_var_min phash_max_dist
              (photo_id o) (kept_issue place) [] (sort_photos group))
          ∙ Among-id_among o (judged place photos) a in
        let (y, _, there, same) = id_among-find_photo (photo_id o) (sort_photos group) known in
        let (b, here) = in_group place photos y there in
        let apart : distinct_ids (judged place photos) ≡ true =
          distinct_ids-judge_group valid less distance metrics blur_var_min phash_max_dist
            (kept_issue place) [] (sort_photos group)
          ∙ distinct_ids-sort group
          ∙ distinct_ids-group_of place photos distinct in
        let mine : find_photo (photo_id y) (judged y.place_id photos) ≡ some o =
          ap (λ i. find_photo i (judged y.place_id photos)) same
          ∙ ap (λ w. find_photo (photo_id o) (judged w photos)) here
          ∙ find_photo-Among o (judged place photos) apart a in
        let one : judge_one photos y ≡ o = updated_found photos y o mine in
        ap (λ i. find_photo i (map (judge_one photos) photos)) (sym same)
        ∙ find_photo-map (judge_one photos) y photos distinct (updated-id photos) b
        ∙ ap some one

    judged_holds :
        (lat_ok lon_ok : F → Bool) (p q : PhotoState F E)
        → all_positioned lat_ok lon_ok photos ≡ true
        → Among p photos
        → IsJudged photos p q
        → photo_holds lat_ok lon_ok (λ i. id_among i photos) (map (judge_one photos) photos) q
          ≡ true
    judged_holds lat_ok lon_ok p q pos a j =
        let place = p.place_id in
        let out = map (judge_one photos) photos in
        let group = sort_photos (group_of place photos) in
        let accepted =
          all_among (λ (x : PhotoState F E). validate lat_ok lon_ok x ≡ true) q
            (judged place photos) j.there (judged_valid lat_ok lon_ok place pos) in
        let known = ap (λ i. id_among i photos) j.id ∙ Among-id_among p photos a in
        let marked =
          all_among
            (λ (x : PhotoState F E). is_duplicated x.issue ≡ is_some x.duplicate_of_attachment_id) q
            (judged place photos) j.there (judge_group-marks place [] group) in
        photo_holds-intro lat_ok lon_ok (λ i. id_among i photos) out q accepted known
          (elim (Option-cases q.duplicate_of_attachment_id) [
            | inl e ↦
                let plain : is_duplicated q.issue ≡ false =
                  marked ∙ ap (λ (d : Option ℕ). is_some d) e in
                ap (λ b. not b || original_holds q (get_original q.duplicate_of_attachment_id out))
                  plain
            | inr (i, e) ↦
                let (o, id, there, holds) =
                  filtered-original_holds valid less distance metrics blur_var_min phash_max_dist
                    place group q i
                    (All-intro (λ (x : PhotoState F E). x.place_id ≡ place) group
                      (λ x b. (in_group place photos x b).1))
                    j.there e in
                let got : get_original q.duplicate_of_attachment_id out ≡ some o =
                  ap (λ (d : Option ℕ). get_original d out) e
                  ∙ ap (λ n. find_photo n out) (sym id)
                  ∙ found_original place o there in
                let kept = ap (λ (x : Option (PhotoState F E)). original_holds q x) got ∙ holds in
                or_right (is_duplicated q.issue)
                  (original_holds q (get_original q.duplicate_of_attachment_id out)) kept
          ])

    updated_holds :
        (lat_ok lon_ok : F → Bool)
        → all_positioned lat_ok lon_ok photos ≡ true
        → loop_holds lat_ok lon_ok (λ i. id_among i photos) (map (judge_one photos) photos) ≡ true
    unfolding loop_holds
    updated_holds lat_ok lon_ok pos =
        let out = map (judge_one photos) photos in
        rw (distinct_ids-map (judge_one photos) photos (updated-id photos) ∙ distinct) (
          all_hold-map (judge_one photos) lat_ok lon_ok (λ i. id_among i photos) out photos
            (λ p a.
              let (q, j) = updated-IsJudged photos p a in
              ap (λ (x : PhotoState F E). photo_holds lat_ok lon_ok (λ i. id_among i photos) out x)
                j.is
              ∙ judged_holds lat_ok lon_ok p q pos a j))

  -- When photos come to the filter with coordinates in range and, unless they have no place, a
  -- position, and it accepts them, the loop over the photos of FINALIZING accepts them as it leaves
  -- them, with the variances that it returns: their ids are distinct, their states are consistent,
  -- each has a variance, and each duplicate has an original that stays in its place.
  pub filter_photos-loop_holds :
      (lat_ok lon_ok : F → Bool) (photos out : List (PhotoState F E))
      → all_positioned lat_ok lon_ok photos ≡ true
      → filter_photos valid less distance metrics blur_var_min phash_max_dist photos ≡ some out
      → loop_holds lat_ok lon_ok (λ i. id_among i photos) out ≡ true
  unfolding filter_photos
  filter_photos-loop_holds lat_ok lon_ok photos out pos e =
      elim (Bool-cases
        (all_valid valid less distance metrics blur_var_min phash_max_dist [] photos)) [
          | inl ok ↦
              let same : map (judge_one photos) photos ≡ out =
                some_injective (ground (arith, ok, e)) in
              ap (loop_holds lat_ok lon_ok (λ i. id_among i photos)) (sym same)
              ∙ updated_holds photos ok lat_ok lon_ok pos
          | inr bad ↦ absurd (ground (arith, bad, e))
        ]
