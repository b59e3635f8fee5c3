-- ===== src/Pipeline/Finalizing/Accepts.antt =====
-- Photos with positions, and lists whose photos are replaced by others of the same ids
-- (app/pipeline/steps/finalizing.py).
use ktb4_2nd_ai.Prelude.{
  ℕ, ◌≡◌, refl, String, Bool, true, false, not, ◌&&◌, ◌||◌, Option, none, some, is_some, List, [],
  ◌∷◌, map, All, eq_iff, arith, ap,
}
use ktb4_2nd_ai.Pipeline.{PhotoState, photo_id}
use ktb4_2nd_ai.Pipeline.Filtering.{same_place, kept_issue, judge, is_unclear, id_among, find_photo}
use ktb4_2nd_ai.Pipeline.Kept.{Among, front, behind}
use ktb4_2nd_ai.Pipeline.Finalizing.{
  in_range, is_duplicated, validate, original_holds, distinct_ids, get_original, photo_holds,
  all_hold, placed,
}
use ktb4_2nd_ai.Pipeline.Finalizing.Lookup.{Among-id_among}

pub same_place_reflexive : (a : Option String) → same_place a a ≡ true
same_place_reflexive none = refl
same_place_reflexive (some a) = (eq_iff a a).1 refl

pub same_place-equal : (a b : Option String) → same_place a b ≡ true → a ≡ b
same_place-equal none none e = refl
same_place-equal none (some b) e = absurd (cc (e))
same_place-equal (some a) none e = absurd (cc (e))
same_place-equal (some a) (some b) e = ap some ((eq_iff a b).0 e)

both_checks :
    (v u k d o : Bool)
    → v ≡ true
    → k ≡ true
    → (not d || o) ≡ true
    → (v && ((u || k) && (not d || o))) ≡ true
both_checks v u k d o a b e = ground (arith, a, b, e)

module _ {F E : Type 0} where
  -- coordinates in range, and a position with an origin where a photo has a place
  abbrev pub is_positioned : (F → Bool) → (F → Bool) → PhotoState F E → Bool
  is_positioned lat_ok lon_ok p =
      in_range lat_ok p.latitude && (in_range lon_ok p.longitude && placed p.place_id p)

  unfoldable pub all_positioned : (F → Bool) → (F → Bool) → List (PhotoState F E) → Bool
  all_positioned lat_ok lon_ok [] = true
  all_positioned lat_ok lon_ok (p ∷ ps) =
      is_positioned lat_ok lon_ok p && all_positioned lat_ok lon_ok ps

  pub positioned :
      (lat_ok lon_ok : F → Bool) (p : PhotoState F E) (ps : List (PhotoState F E))
      → all_positioned lat_ok lon_ok ps ≡ true
      → Among p ps
      → is_positioned lat_ok lon_ok p ≡ true
  unfolding all_positioned
  positioned lat_ok lon_ok p [] h a = elim a [ ]
  positioned lat_ok lon_ok p (_ ∷ ps) h front = ground (arith, h)
  positioned lat_ok lon_ok p (q ∷ ps) h (behind a) =
      positioned lat_ok lon_ok p ps (ground (arith, h)) a

  -- a property of every photo of a list
  pub All-intro :
      (P : PhotoState F E → Type 0) (ps : List (PhotoState F E))
      → ((p : PhotoState F E) → Among p ps → P p)
      → All P ps
  All-intro P [] h = tt
  All-intro P (p ∷ ps) h = (h p front, All-intro P ps (λ q a. h q (behind a)))

  -- photos that are replaced by others of the same ids
  module _ (f : PhotoState F E → PhotoState F E) where
    pub id_among-map :
        (i : ℕ) (ps : List (PhotoState F E))
        → ((p : PhotoState F E) → Among p ps → photo_id (f p) ≡ photo_id p)
        → id_among i (map f ps) ≡ id_among i ps
    unfolding id_among
    id_among-map i [] h = refl
    id_among-map i (p ∷ ps) h = rw (h p front, id_among-map i ps (λ q a. h q (behind a))) refl

    pub distinct_ids-map :
        (ps : List (PhotoState F E))
        → ((p : PhotoState F E) → Among p ps → photo_id (f p) ≡ photo_id p)
        → distinct_ids (map f ps) ≡ distinct_ids ps
    unfolding distinct_ids
    distinct_ids-map [] h = refl
    distinct_ids-map (p ∷ ps) h =
        let later : (q : PhotoState F E) → Among q ps → photo_id (f q) ≡ photo_id q =
          λ q a. h q (behind a) in
        rw (h p front, id_among-map (photo_id p) ps later, distinct_ids-map ps later) refl

    pub find_photo-map :
        (y : PhotoState F E) (ps : List (PhotoState F E))
        → distinct_ids ps ≡ true
        → ((p : PhotoState F E) → Among p ps → photo_id (f p) ≡ photo_id p)
        → Among y ps
        → find_photo (photo_id y) (map f ps) ≡ some (f y)
    unfolding distinct_ids find_photo
    find_photo-map y [] d h a = elim a [ ]
    find_photo-map y (_ ∷ ps) d h front = ground (arith, h y front)
    find_photo-map y (p ∷ ps) d h (behind a) =
        let rest = find_photo-map y ps (ground (arith, d)) (λ q b. h q (behind b)) a in
        ground (arith, d, Among-id_among y ps a, h p front, rest)

    pub all_hold-map :
        (lat_ok lon_ok : F → Bool) (known : ℕ → Bool) (out ps : List (PhotoState F E))
        → ((p : PhotoState F E) → Among p ps → photo_holds lat_ok lon_ok known out (f p) ≡ true)
        → all_hold lat_ok lon_ok known out (map f ps) ≡ true
    unfolding all_hold
    all_hold-map lat_ok lon_ok known out [] h = refl
    all_hold-map lat_ok lon_ok known out (p ∷ ps) h =
        rw (h p front, all_hold-map lat_ok lon_ok known out ps (λ q a. h q (behind a))) refl

  pub judge-marks :
      (place : Option String) (p : PhotoState F E) (b : Bool) (o : Option (PhotoState F E))
      → is_duplicated (judge (kept_issue place) p b o).0.issue
        ≡ is_some (judge (kept_issue place) p b o).0.duplicate_of_attachment_id
  unfolding judge
  judge-marks place p true o = refl
  judge-marks none p false none = refl
  judge-marks (some x) p false none = refl
  judge-marks place p false (some o) = refl

  -- the checks of a photo, from those of its state, its variance and its original
  pub photo_holds-intro :
      (lat_ok lon_ok : F → Bool) (known : ℕ → Bool) (photos : List (PhotoState F E))
      (q : PhotoState F E)
      → validate lat_ok lon_ok q ≡ true
      → known (photo_id q) ≡ true
      → (not (is_duplicated q.issue)
          || original_holds q (get_original q.duplicate_of_attachment_id photos))
        ≡ true
      → photo_holds lat_ok lon_ok known photos q ≡ true
  unfolding photo_holds
  photo_holds-intro lat_ok lon_ok known photos q a b e =
      both_checks (validate lat_ok lon_ok q) (is_unclear q.issue) (known (photo_id q))
        (is_duplicated q.issue)
        (original_holds q (get_original q.duplicate_of_attachment_id photos)) a b e
