-- ===== src/Pipeline/Locating/Positions.antt =====
-- What LOCATING leaves for CLUSTERING (app/pipeline/steps/locating.py, clustering.py).
use ktb4_2nd_ai.Prelude.{
  Bool, true, false, not, ◌&&◌, ◌≡◌, refl, some, is_some, List, [], ◌∷◌, leb, arith, Bool-cases,
  inl, inr,
}
use ktb4_2nd_ai.Pipeline.{Moment, PhotoState, has_gps, photo_id}
use ktb4_2nd_ai.Pipeline.Assigning.{dated}
use ktb4_2nd_ai.Pipeline.Clustering.{misses_position, any_misses_position}
use ktb4_2nd_ai.Pipeline.Locating.{
  Role, aside, anchor, target, classify, classify_all, insert_anchor, anchors_of, most_similar,
  inherit, keep_position, settle_target, settle_all, locate_photos,
}

module _ {F E : Type 0} where
  -- a photo that is set aside has an issue, and an anchor has its own position
  data Classified : Role × PhotoState F E → Type 0 where
    put_aside : {p : PhotoState F E} → is_some p.issue ≡ true → Classified (aside, p)
    placed :
        {p : PhotoState F E}
        → has_gps p.source ≡ true
        → misses_position p ≡ false
        → Classified (anchor, p)
    searched : {p : PhotoState F E} → Classified (target, p)

  kept_position :
      (p : PhotoState F E) → has_gps p.source ≡ true → misses_position (keep_position p) ≡ false
  kept_position p c = ground (arith, c)

  inherited_position :
      (best p : PhotoState F E)
      → has_gps best.source ≡ true
      → misses_position (inherit best p) ≡ false
  inherited_position best p c = ground (arith, c)

  classify-Classified :
      (in_period : Moment → Bool) (p : PhotoState F E) → Classified (classify in_period p)
  unfolding classify
  classify-Classified in_period p = elim (Bool-cases (is_some p.issue)) [
    | inl a ↦ rw a (put_aside a)
    | inr a ↦ elim (Bool-cases (dated in_period p.taken_at)) [
      | inl b ↦ elim (Bool-cases (has_gps p.source)) [
        | inl c ↦ rw (a, b, c) (placed c (kept_position p c))
        | inr c ↦ rw (a, b, c) searched
      ]
      | inr b ↦ rw (a, b) (put_aside refl)
    ]
  ]

  -- photos that have their own position
  data Located : List (PhotoState F E) → Type 0 where
    no_anchors : Located []
    one_more :
        {p : PhotoState F E} {ps : List (PhotoState F E)}
        → has_gps p.source ≡ true
        → Located ps
        → Located (p ∷ ps)

  data AllClassified : List (Role × PhotoState F E) → Type 0 where
    all_done : AllClassified []
    and_next :
        {r : Role × PhotoState F E} {rs : List (Role × PhotoState F E)}
        → Classified r
        → AllClassified rs
        → AllClassified (r ∷ rs)

  classify_all-AllClassified :
      (in_period : Moment → Bool) (ps : List (PhotoState F E))
      → AllClassified (classify_all in_period ps)
  unfolding classify_all
  classify_all-AllClassified in_period [] = all_done
  classify_all-AllClassified in_period (p ∷ ps) =
      and_next (classify-Classified in_period p) (classify_all-AllClassified in_period ps)

  insert_anchor-Located :
      (p : PhotoState F E) (ps : List (PhotoState F E))
      → has_gps p.source ≡ true
      → Located ps
      → Located (insert_anchor p ps)
  unfolding insert_anchor
  insert_anchor-Located p [] e no_anchors = one_more e no_anchors
  insert_anchor-Located p (q ∷ qs) e (one_more f l) =
      elim (Bool-cases (leb (photo_id p) (photo_id q))) [
        | inl a ↦ rw a (one_more e (one_more f l))
        | inr a ↦ rw a (one_more f (insert_anchor-Located p qs e l))
      ]

  anchors_of-Located :
      (rs : List (Role × PhotoState F E)) → AllClassified rs → Located (anchors_of rs)
  unfolding anchors_of
  anchors_of-Located [] all_done = no_anchors
  anchors_of-Located (r ∷ rs) (and_next (put_aside a) c) = anchors_of-Located rs c
  anchors_of-Located ((anchor, p) ∷ rs) (and_next (placed g m) c) =
      insert_anchor-Located p (anchors_of rs) g (anchors_of-Located rs c)
  anchors_of-Located (r ∷ rs) (and_next searched c) = anchors_of-Located rs c

  most_similar-has_gps :
      (closer : PhotoState F E → PhotoState F E → Bool) (a : PhotoState F E)
      (ps : List (PhotoState F E))
      → has_gps a.source ≡ true
      → Located ps
      → has_gps (most_similar closer a ps).source ≡ true
  unfolding most_similar
  most_similar-has_gps closer a [] e no_anchors = e
  most_similar-has_gps closer a (b ∷ bs) e (one_more f l) = elim (Bool-cases (closer b a)) [
    | inl c ↦ rw (most_similar, c) (most_similar-has_gps closer b bs f l)
    | inr c ↦ rw (most_similar, c) (most_similar-has_gps closer a bs e l)
  ]

module _ {F E : Type 0} (closer : PhotoState F E → PhotoState F E → PhotoState F E → Bool)
    (similar : PhotoState F E → PhotoState F E → Bool)
    (embedded : List (PhotoState F E) → Bool) where
  settle_target-position :
      (anchors : List (PhotoState F E)) (p : PhotoState F E)
      → Located anchors
      → (let q = settle_target closer similar embedded anchors p in
          not (is_some q.issue) && misses_position q)
        ≡ false
  unfolding settle_target
  settle_target-position [] p l = refl
  settle_target-position (a ∷ rest) p (one_more e l) =
      elim (Bool-cases (similar p (most_similar (closer p) a rest))) [
        | inl c ↦ rw c (ground (arith, most_similar-has_gps (closer p) a rest e l))
        | inr c ↦ rw c refl
      ]

  settle_all-positions :
      (anchors : List (PhotoState F E)) (rs : List (Role × PhotoState F E))
      → Located anchors
      → AllClassified rs
      → any_misses_position (settle_all closer similar embedded anchors rs) ≡ false
  unfolding settle_all any_misses_position
  settle_all-positions anchors [] l all_done = refl
  settle_all-positions anchors ((aside, p) ∷ rs) l (and_next (put_aside a) c) =
      rw a (settle_all-positions anchors rs l c)
  settle_all-positions anchors ((anchor, p) ∷ rs) l (and_next (placed g m) c) =
      ground (arith, m, settle_all-positions anchors rs l c)
  settle_all-positions anchors ((target, p) ∷ rs) l (and_next searched c) =
      rw (settle_target-position anchors p l) (settle_all-positions anchors rs l c)

  -- Photos that LOCATING returns pass the check of positions in CLUSTERING: each that has no issue has
  -- a latitude, a longitude and an origin other than unknown.
  pub locate_photos-positions :
      (in_period : Moment → Bool) (threshold_fits period_fits : Bool)
      (photos out : List (PhotoState F E))
      → locate_photos closer similar embedded in_period threshold_fits period_fits photos ≡ some out
      → any_misses_position out ≡ false
  unfolding locate_photos
  locate_photos-positions in_period threshold_fits period_fits photos out e =
      let rs = classify_all in_period photos in
      let c = classify_all-AllClassified in_period photos in
      let good = settle_all-positions (anchors_of rs) rs (anchors_of-Located rs c) c in
      ground (arith, e, good)
