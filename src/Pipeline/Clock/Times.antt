-- ===== src/Pipeline/Clock/Times.antt =====
-- What CLOCK leaves for LOCATING (app/pipeline/steps/clock.py, locating.py).
use ktb4_2nd_ai.Prelude.{
  is_nil, ◌>>=◌, ℕ, Bool, true, not, ◌||◌, ◌≡◌, refl, Option, none, some, is_some, List, [], ◌∷◌,
  arith, Bool-cases, inl, inr, Option-cases, some_injective, ap, sym, ◌∙◌,
}
use ktb4_2nd_ai.Pipeline.{Moment, PhotoState, has_gps}
use ktb4_2nd_ai.Pipeline.Filtering.{has_offset}
use ktb4_2nd_ai.Pipeline.Locating.{time_fits, times_fit}
use ktb4_2nd_ai.Pipeline.Clock.{
  is_device, all_have_offset, references_of, is_trusted, device_group, shift_time, correct_target,
  correct_one, correct_all, correct_clocks,
}

module _ {F E D : Type 0}
    (estimate : List (PhotoState F E) → List (PhotoState F E) → Option (Option D))
    (is_zero : D → Bool) (add_days : ℕ → D → Option ℕ) where
  -- an error, or a photo whose time passes the check
  data Timed : Option (PhotoState F E) → Type 0 where
    untimed : Timed none
    timed : {p : PhotoState F E} → time_fits p.time_status p.taken_at ≡ true → Timed (some p)

  shift_time-Timed :
      (p : PhotoState F E) (t : Option Moment) (days : D)
      → has_offset t ≡ true
      → Timed (shift_time estimate is_zero add_days p t days)
  unfolding shift_time
  shift_time-Timed p none days e = timed refl
  shift_time-Timed p (some t) days e = elim (Option-cases (add_days t.instant days)) [
    | inl a ↦ rw a untimed
    | inr (i, a) ↦ elim (Bool-cases (is_zero days)) [
      | inl z ↦ rw (a, z) (timed e)
      | inr z ↦ rw (a, z) (timed e)
    ]
  ]

  correct_target-Timed :
      (p : PhotoState F E) (r : Option (Option D))
      → has_offset p.source.taken_at ≡ true
      → Timed (correct_target estimate is_zero add_days p r)
  unfolding correct_target
  correct_target-Timed p none e = untimed
  correct_target-Timed p (some none) e = timed refl
  correct_target-Timed p (some (some days)) e = shift_time-Timed p p.source.taken_at days e

  correct_one-Timed :
      (anchors photos : List (PhotoState F E)) (p : PhotoState F E)
      → has_offset p.source.taken_at ≡ true
      → Timed (correct_one estimate is_zero add_days anchors photos p)
  unfolding correct_one
  correct_one-Timed anchors photos p e = elim (Bool-cases (is_some p.source.taken_at)) [
    | inr a ↦ rw a (timed refl)
    | inl a ↦ elim (Bool-cases (has_gps p.source || is_trusted p.source.device_model anchors)) [
      | inl b ↦ rw (a, b) (timed (ground (arith, a, e)))
      | inr b ↦ elim (Bool-cases (not (is_device p.source.device_model) || is_nil anchors)) [
        | inl c ↦ rw (a, b, c) (timed refl)
        | inr c ↦
            rw (a, b, c)
              (correct_target-Timed p
                (estimate (device_group anchors p.source.device_model photos) anchors) e)
      ]
    ]
  ]

  data AllTimed : Option (List (PhotoState F E)) → Type 0 where
    refused : AllTimed none
    all_timed : {ps : List (PhotoState F E)} → times_fit ps ≡ true → AllTimed (some ps)

  later-AllTimed :
      (r : Option (PhotoState F E)) (rs : Option (List (PhotoState F E)))
      → Timed r
      → AllTimed rs
      → AllTimed (do q ← r; qs ← rs; some (q ∷ qs))
  unfolding times_fit
  later-AllTimed none rs untimed l = refused
  later-AllTimed (some q) none (timed e) refused = refused
  later-AllTimed (some q) (some qs) (timed e) (all_timed f) = all_timed (rw (e, f) refl)

  correct_all-AllTimed :
      (anchors photos ps : List (PhotoState F E))
      → all_have_offset ps ≡ true
      → AllTimed (correct_all estimate is_zero add_days anchors photos ps)
  unfolding correct_all all_have_offset times_fit
  correct_all-AllTimed anchors photos [] e = all_timed refl
  correct_all-AllTimed anchors photos (p ∷ ps) e =
      later-AllTimed (correct_one estimate is_zero add_days anchors photos p)
        (correct_all estimate is_zero add_days anchors photos ps)
        (correct_one-Timed anchors photos p (ground (arith, e)))
        (correct_all-AllTimed anchors photos ps (ground (arith, e)))

  returned_times :
      (r : Option (List (PhotoState F E))) (out : List (PhotoState F E))
      → AllTimed r
      → r ≡ some out
      → times_fit out ≡ true
  returned_times none out refused e = ground (arith, e)
  returned_times (some ps) out (all_timed f) e = ap times_fit (sym (some_injective e)) ∙ f

  -- Photos that CLOCK returns pass the check of times in LOCATING: an original or corrected time is
  -- there and has an offset, no time is there where it is unknown, and none is pending.
  pub correct_clocks-times_fit :
      (settings_fit : Bool) (photos out : List (PhotoState F E))
      → correct_clocks estimate is_zero add_days settings_fit photos ≡ some out
      → times_fit out ≡ true
  unfolding correct_clocks
  correct_clocks-times_fit settings_fit photos out e =
      elim (Bool-cases (not settings_fit || not (all_have_offset photos))) [
        | inl a ↦ ground (arith, a, e)
        | inr a ↦
            returned_times
              (correct_all estimate is_zero add_days (references_of photos) photos photos) out
              (correct_all-AllTimed (references_of photos) photos photos (ground (arith, a)))
              (ground (arith, a, e))
      ]
