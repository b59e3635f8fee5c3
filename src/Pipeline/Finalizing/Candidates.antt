-- ===== src/Pipeline/Finalizing/Candidates.antt =====
-- Which places of the photos that `filter_photos` leaves have a candidate for `finalize_photos`
-- (app/pipeline/steps/filtering.py, finalizing.py).
use ktb4_2nd_ai.Prelude.{ℕ, ◌≡◌, Bool, true, not, ◌&&◌, Option, none, some, List, [], ◌∷◌, map}
use ktb4_2nd_ai.Pipeline.{PhotoState}
use ktb4_2nd_ai.Pipeline.Filtering.{PhotoMetrics, same_place, is_blurry, all_valid}
use ktb4_2nd_ai.Pipeline.Finalizing.{any_photo}
use ktb4_2nd_ai.Pipeline.Finalizing.Filtered.{judge_one}

module _ {F E V H : Type 0} (valid : PhotoMetrics V H → Bool) (less : V → V → Bool)
    (distance : H → H → ℕ) (metrics : ℕ → Option (PhotoMetrics V H)) (blur_var_min : V)
    (phash_max_dist : ℕ) where
  -- a photo that is not blurred
  abbrev pub is_sharp : PhotoState F E → Bool
  is_sharp p = not (is_blurry valid less distance metrics blur_var_min phash_max_dist p)

  -- each place of these photos has a sharp photo
  unfoldable pub all_sharp : List (PhotoState F E) → List (PhotoState F E) → Bool
  unfolding any_photo
  all_sharp photos [] = true
  all_sharp photos (p ∷ ps) =
      (elim p.place_id [
        | none ↦ true
        | some place ↦ any_photo (λ q. same_place q.place_id (some place) && is_sharp q) photos
      ])
      && all_sharp photos ps

  module _ (photos : List (PhotoState F E))
      (ok : all_valid valid less distance metrics blur_var_min phash_max_dist [] photos
        ≡ true) where
    out : List (PhotoState F E)
    out = map (judge_one valid less distance metrics blur_var_min phash_max_dist photos) photos
