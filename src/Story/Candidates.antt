-- ===== src/Story/Candidates.antt =====
-- `filter_candidates` (app/story/selection.py). The answers of `cancelled` in their order, whether the
-- images of a chunk are read and decoded, and what the measurements say of a photo and of two are
-- arguments.
use ktb4_2nd_ai.Prelude.{
  ℕ, zero, suc, ◌-◌, Bool, true, false, not, ◌&&◌, ◌||◌, List, [], ◌∷◌, ◌++◌, ◌==◌, if◌then◌else◌,
  take, is_nil,
}
use ktb4_2nd_ai.Story.Selection.{StoryAttachment, taken_before}
pub mod Usable

-- `StoryPlace`
pub record StoryPlace : Type 0 where
  pub trip_place_id : ℕ
  pub attachments : List StoryAttachment

-- what a loop leaves, or how it ends early: `PipelineCancelled`, an error of `load_images`, or
-- NO_USABLE_PHOTOS at a place
pub data Filtered (A : Type 0) : Type 0 where
  interrupted unreadable : Filtered A
  unusable : ℕ → Filtered A
  filtered : A → Filtered A

unfoldable pub insert_taken : StoryAttachment → List StoryAttachment → List StoryAttachment
insert_taken p [] = p ∷ []
insert_taken p (q ∷ qs) =
    let rest = insert_taken p qs in if taken_before p q then p ∷ q ∷ qs else q ∷ rest

unfoldable pub sort_taken : List StoryAttachment → List StoryAttachment
unfolding insert_taken
sort_taken [] = []
sort_taken (p ∷ ps) = insert_taken p (sort_taken ps)

-- `groups`
abbrev pub Groups : Type 0
Groups = List (ℕ × List StoryAttachment)

-- `groups[place_id] = retained`
unfoldable pub put_group : ℕ → List StoryAttachment → Groups → Groups
put_group id ps [] = (id, ps) ∷ []
put_group id ps ((k, qs) ∷ gs) =
    let rest = put_group id ps gs in if k == id then (id, ps) ∷ gs else (k, qs) ∷ rest

-- a place behind the loop over its photos
unfoldable pub close_place :
    ℕ → Groups → Filtered (ℕ × List StoryAttachment) → Filtered (ℕ × Groups)
unfolding put_group
close_place id groups interrupted = interrupted
close_place id groups unreadable = unreadable
close_place id groups (unusable k) = unusable k
close_place id groups (filtered (calls, retained)) =
    if is_nil retained then unusable id else filtered (calls, put_group id retained groups)

module _ (cancelled : ℕ → Bool) (loads : List StoryAttachment → Bool)
    (is_blurry : StoryAttachment → Bool) (is_close : StoryAttachment → StoryAttachment → Bool) where
  unfoldable pub any_close : StoryAttachment → List StoryAttachment → Bool
  any_close p [] = false
  any_close p (q ∷ qs) = is_close p q || any_close p qs

  -- the photos of a place after `calls` answers of `cancelled`, with `left` photos left in the chunk:
  -- the number of answers and `retained`
  unfoldable pub filter_photos :
      ℕ → ℕ → List StoryAttachment → List StoryAttachment → Filtered (ℕ × List StoryAttachment)
  unfolding any_close
  filter_photos calls left [] retained = filtered (calls, retained)
  filter_photos calls left (p ∷ ps) retained =
      let opens = left == 0 in
      let asked = if opens then suc calls else calls in
      let rest =
        filter_photos (suc asked) (if opens then 15 else left - 1) ps
          (if is_blurry p || any_close p retained then retained else retained ++ (p ∷ [])) in
      if opens && cancelled calls
      then interrupted
      else if opens && not (loads (take 16 (p ∷ ps)))
      then unreadable
      else if cancelled asked
      then interrupted
      else rest

  -- the loop over the places
  unfoldable pub filter_places : List StoryPlace → Filtered (ℕ × Groups) → Filtered (ℕ × Groups)
  unfolding filter_photos close_place sort_taken
  filter_places [] state = state
  filter_places (w ∷ ws) interrupted = interrupted
  filter_places (w ∷ ws) unreadable = unreadable
  filter_places (w ∷ ws) (unusable k) = unusable k
  filter_places (w ∷ ws) (filtered (calls, groups)) =
      filter_places ws
        (close_place w.trip_place_id groups (filter_photos calls 0 (sort_taken w.attachments) []))

  unfoldable pub filter_candidates : List StoryPlace → Filtered (ℕ × Groups)
  unfolding filter_places
  filter_candidates places = filter_places places (filtered (0, []))
