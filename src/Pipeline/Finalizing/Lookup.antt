-- ===== src/Pipeline/Finalizing/Lookup.antt =====
-- Photos by their ids through the steps of `filter_photos` (app/pipeline/steps/filtering.py).
use ktb4_2nd_ai.Prelude.{
  ℕ, ◌≡◌, refl, String, Bool, true, false, ◌||◌, Option, none, some, List, [], ◌∷◌, ◌==◌, arith,
  Bool-cases, inl, inr, ap, ◌∙◌, subst, ◌⊎◌,
}
use ktb4_2nd_ai.Pipeline.{PhotoState, Issue, photo_id}
use ktb4_2nd_ai.Pipeline.Filtering.{
  PhotoMetrics, order_before, same_place, retain, judge, is_blurry, original_of, judge_group,
  insert_photo, sort_photos, group_of, id_among, find_photo, all_valid, has_order, measured,
  place_fits,
}
use ktb4_2nd_ai.Pipeline.Kept.{Among, front, behind}
use ktb4_2nd_ai.Pipeline.Finalizing.{distinct_ids}

module _ {F E : Type 0} where
  id_among-insert :
      (i : ℕ) (p : PhotoState F E) (ps : List (PhotoState F E))
      → id_among i (insert_photo p ps) ≡ id_among i (p ∷ ps)
  unfolding id_among insert_photo
  id_among-insert i p [] = refl
  id_among-insert i p (q ∷ qs) =
      elim (Bool-cases (order_before p.taken_at (photo_id p) q.taken_at (photo_id q))) [
        | inl a ↦ rw a refl
        | inr a ↦ rw (a, id_among-insert i p qs) (ground arith)
      ]

  pub id_among-sort :
      (i : ℕ) (ps : List (PhotoState F E)) → id_among i (sort_photos ps) ≡ id_among i ps
  unfolding id_among sort_photos
  id_among-sort i [] = refl
  id_among-sort i (p ∷ ps) =
      id_among-insert i p (sort_photos ps) ∙ ap (λ b. (photo_id p == i) || b) (id_among-sort i ps)

  distinct_ids-insert :
      (p : PhotoState F E) (ps : List (PhotoState F E))
      → distinct_ids (insert_photo p ps) ≡ distinct_ids (p ∷ ps)
  unfolding distinct_ids insert_photo
  distinct_ids-insert p [] = refl
  distinct_ids-insert p (q ∷ qs) =
      elim (Bool-cases (order_before p.taken_at (photo_id p) q.taken_at (photo_id q))) [
        | inl a ↦ rw a refl
        | inr a ↦ rw (a, distinct_ids-insert p qs, id_among-insert (photo_id q) p qs) (ground arith)
      ]

  pub distinct_ids-sort :
      (ps : List (PhotoState F E)) → distinct_ids (sort_photos ps) ≡ distinct_ids ps
  unfolding distinct_ids sort_photos
  distinct_ids-sort [] = refl
  distinct_ids-sort (p ∷ ps) =
      distinct_ids-insert p (sort_photos ps)
      ∙ rw (id_among-sort (photo_id p) ps, distinct_ids-sort ps) refl

  id_among-group_of :
      (i : ℕ) (place : Option String) (ps : List (PhotoState F E))
      → id_among i ps ≡ false
      → id_among i (group_of place ps) ≡ false
  unfolding id_among group_of
  id_among-group_of i place [] h = refl
  id_among-group_of i place (p ∷ ps) h =
      let rest = id_among-group_of i place ps (ground (arith, h)) in
      elim (Bool-cases (same_place p.place_id place)) [
        | inl a ↦ rw a (ground (arith, h, rest))
        | inr a ↦ rw a rest
      ]

  pub distinct_ids-group_of :
      (place : Option String) (ps : List (PhotoState F E))
      → distinct_ids ps ≡ true
      → distinct_ids (group_of place ps) ≡ true
  unfolding distinct_ids group_of
  distinct_ids-group_of place [] h = refl
  distinct_ids-group_of place (p ∷ ps) h =
      let rest = distinct_ids-group_of place ps (ground (arith, h)) in
      let apart = id_among-group_of (photo_id p) place ps (ground (arith, h)) in
      elim (Bool-cases (same_place p.place_id place)) [
        | inl a ↦ rw a (ground (arith, apart, rest))
        | inr a ↦ rw a rest
      ]

  pub Among-id_among :
      (p : PhotoState F E) (ps : List (PhotoState F E))
      → Among p ps
      → id_among (photo_id p) ps ≡ true
  unfolding id_among
  Among-id_among p [] x = elim x [ ]
  Among-id_among p (_ ∷ ps) front = ground arith
  Among-id_among p (q ∷ ps) (behind x) = ground (arith, Among-id_among p ps x)

  -- the object of an id, where ids are distinct
  pub find_photo-Among :
      (p : PhotoState F E) (ps : List (PhotoState F E))
      → distinct_ids ps ≡ true
      → Among p ps
      → find_photo (photo_id p) ps ≡ some p
  unfolding distinct_ids find_photo
  find_photo-Among p [] h x = elim x [ ]
  find_photo-Among p (_ ∷ ps) h front = ground arith
  find_photo-Among p (q ∷ ps) h (behind x) =
      ground (arith, h, Among-id_among p ps x, find_photo-Among p ps (ground (arith, h)) x)

  -- an id that is among the photos is that of one of them, the one that is found
  pub id_among-find_photo :
      (i : ℕ) (ps : List (PhotoState F E))
      → id_among i ps ≡ true
      → (p : PhotoState F E) × (find_photo i ps ≡ some p) × Among p ps × (photo_id p ≡ i)
  unfolding id_among find_photo
  id_among-find_photo i [] h = absurd (cc (h))
  id_among-find_photo i (p ∷ ps) h = elim (Bool-cases (photo_id p == i)) [
    | inl a ↦ (p, rw a refl, front, ground (arith, a))
    | inr a ↦
        let (q, found, there, same) = id_among-find_photo i ps (ground (arith, h, a)) in
        (q, rw (a, found) refl, behind there, same)
  ]

  Among-cases :
      (x p : PhotoState F E) (ps : List (PhotoState F E)) → Among x (p ∷ ps) → (x ≡ p) ⊎ Among x ps
  Among-cases x _ ps front = inl refl
  Among-cases x p ps (behind a) = inr a

  at_front : (x p : PhotoState F E) (ps : List (PhotoState F E)) → x ≡ p → Among x (p ∷ ps)
  at_front x p ps e = subst (λ y. Among x (y ∷ ps)) e front

  Among-insert :
      (x p : PhotoState F E) (ps : List (PhotoState F E))
      → Among x (insert_photo p ps)
      → (x ≡ p) ⊎ Among x ps
  unfolding insert_photo
  Among-insert x p [] a = Among-cases x p [] a
  Among-insert x p (q ∷ qs) a =
      elim (Bool-cases (order_before p.taken_at (photo_id p) q.taken_at (photo_id q))) [
        | inl e ↦
            let eq : insert_photo p (q ∷ qs) ≡ p ∷ q ∷ qs = rw (insert_photo, e) refl in
            Among-cases x p (q ∷ qs) (subst (Among x) eq a)
        | inr e ↦
            let eq : insert_photo p (q ∷ qs) ≡ q ∷ insert_photo p qs = rw (insert_photo, e) refl in
            elim (Among-cases x q (insert_photo p qs) (subst (Among x) eq a)) [
              | inl f ↦ inr (at_front x q qs f)
              | inr b ↦ elim (Among-insert x p qs b) [ inl f ↦ inl f | inr d ↦ inr (behind d) ]
            ]
      ]

  pub Among-sort :
      (x : PhotoState F E) (ps : List (PhotoState F E)) → Among x (sort_photos ps) → Among x ps
  unfolding sort_photos
  Among-sort x [] a = a
  Among-sort x (p ∷ ps) a = elim (Among-insert x p (sort_photos ps) a) [
    | inl e ↦ at_front x p ps e
    | inr b ↦ behind (Among-sort x ps b)
  ]

  pub Among-group_of :
      (x : PhotoState F E) (place : Option String) (ps : List (PhotoState F E))
      → Among x (group_of place ps)
      → Among x ps × (same_place x.place_id place ≡ true)
  unfolding group_of
  Among-group_of x place [] a = elim a [ ]
  Among-group_of x place (p ∷ ps) a = elim (Bool-cases (same_place p.place_id place)) [
    | inl e ↦
        let eq : group_of place (p ∷ ps) ≡ p ∷ group_of place ps = rw (group_of, e) refl in
        elim (Among-cases x p (group_of place ps) (subst (Among x) eq a)) [
          | inl f ↦
              (at_front x p ps f, ap (λ (y : PhotoState F E). same_place y.place_id place) f ∙ e)
          | inr b ↦ let (d, f) = Among-group_of x place ps b in (behind d, f)
        ]
    | inr e ↦
        let eq : group_of place (p ∷ ps) ≡ group_of place ps = rw (group_of, e) refl in
        let (d, f) = Among-group_of x place ps (subst (Among x) eq a) in (behind d, f)
  ]

  pub group_of-Among :
      (x : PhotoState F E) (ps : List (PhotoState F E))
      → same_place x.place_id x.place_id ≡ true
      → Among x ps
      → Among x (group_of x.place_id ps)
  unfolding group_of
  group_of-Among x [] e a = elim a [ ]
  group_of-Among x (_ ∷ ps) e front = rw (group_of, e) front
  group_of-Among x (p ∷ ps) e (behind a) = elim (Bool-cases (same_place p.place_id x.place_id)) [
    | inl f ↦ rw (group_of, f) (behind (group_of-Among x ps e a))
    | inr f ↦ rw (group_of, f) (group_of-Among x ps e a)
  ]

  module _ {V H : Type 0} (valid : PhotoMetrics V H → Bool) (less : V → V → Bool)
      (distance : H → H → ℕ) (metrics : ℕ → Option (PhotoMetrics V H)) (blur_var_min : V)
      (phash_max_dist : ℕ) where
    judge-id :
        (kept : Option Issue) (p : PhotoState F E) (b : Bool) (o : Option (PhotoState F E))
        → photo_id (judge kept p b o).0 ≡ photo_id p
    unfolding judge
    judge-id kept p true o = refl
    judge-id kept p false none = refl
    judge-id kept p false (some o) = refl

    -- the loop over a group keeps its ids
    pub id_among-judge_group :
        (i : ℕ) (kept : Option Issue) (r ps : List (PhotoState F E))
        → id_among i (judge_group valid less distance metrics blur_var_min phash_max_dist kept r ps)
          ≡ id_among i ps
    unfolding id_among judge_group
    id_among-judge_group i kept r [] = refl
    id_among-judge_group i kept r (p ∷ ps) =
        let b = is_blurry valid less distance metrics blur_var_min phash_max_dist p in
        let o = original_of valid less distance metrics blur_var_min phash_max_dist p r in
        rw (judge-id kept p b o, id_among-judge_group i kept (retain (judge kept p b o) r) ps) refl

    pub distinct_ids-judge_group :
        (kept : Option Issue) (r ps : List (PhotoState F E))
        → distinct_ids
            (judge_group valid less distance metrics blur_var_min phash_max_dist kept r ps)
          ≡ distinct_ids ps
    unfolding distinct_ids judge_group
    distinct_ids-judge_group kept r [] = refl
    distinct_ids-judge_group kept r (p ∷ ps) =
        let b = is_blurry valid less distance metrics blur_var_min phash_max_dist p in
        let o = original_of valid less distance metrics blur_var_min phash_max_dist p r in
        let later = retain (judge kept p b o) r in
        rw
          (
            judge-id kept p b o,
            id_among-judge_group (photo_id p) kept later ps,
            distinct_ids-judge_group kept later ps,
          )
          refl

    -- the checks of the filter: no id that was seen comes again
    seen_apart :
        (i : ℕ) (seen ps : List (PhotoState F E))
        → all_valid valid less distance metrics blur_var_min phash_max_dist seen ps ≡ true
        → id_among i seen ≡ true
        → id_among i ps ≡ false
    unfolding id_among all_valid
    seen_apart i seen [] h s = refl
    seen_apart i seen (p ∷ ps) h s =
        let rest = seen_apart i (p ∷ seen) ps (ground (arith, h)) (ground (arith, s)) in
        elim (Bool-cases (photo_id p == i)) [
          | inl a ↦
              let same : photo_id p ≡ i = ground (arith, a) in
              absurd (ground (arith, h, s, ap (λ j. id_among j seen) same))
          | inr a ↦ ground (arith, a, rest)
        ]

    pub all_valid-distinct_ids :
        (seen ps : List (PhotoState F E))
        → all_valid valid less distance metrics blur_var_min phash_max_dist seen ps ≡ true
        → distinct_ids ps ≡ true
    unfolding distinct_ids all_valid id_among
    all_valid-distinct_ids seen [] h = refl
    all_valid-distinct_ids seen (p ∷ ps) h =
        let apart = seen_apart (photo_id p) (p ∷ seen) ps (ground (arith, h)) (ground arith) in
        ground (arith, apart, all_valid-distinct_ids (p ∷ seen) ps (ground (arith, h)))

    -- what the filter has checked of each photo
    pub valid_photo :
        (p : PhotoState F E) (seen ps : List (PhotoState F E))
        → all_valid valid less distance metrics blur_var_min phash_max_dist seen ps ≡ true
        → Among p ps
        → (has_order p ≡ true)
          × (measured valid (metrics (photo_id p)) ≡ true)
          × (place_fits p.place_id p.issue ≡ true)
    unfolding all_valid
    valid_photo p seen [] h a = elim a [ ]
    valid_photo p seen (_ ∷ ps) h front = (ground (arith, h), ground (arith, h), ground (arith, h))
    valid_photo p seen (q ∷ ps) h (behind a) = valid_photo p (q ∷ seen) ps (ground (arith, h)) a
