-- ===== src/Story/Candidates/Usable.antt =====
-- What `filter_candidates` leaves for `allocate` (app/story/selection.py).
use ktb4_2nd_ai.Prelude.{
  ℕ, Bool, false, ◌≡◌, refl, List, [], ◌∷◌, ◌==◌, Bool-cases, inl, inr, arith, length, ap, sym, ◌∙◌,
}
use ktb4_2nd_ai.Story.Selection.{StoryAttachment, any_empty}
use ktb4_2nd_ai.Story.Candidates.{
  StoryPlace, Filtered, interrupted, unreadable, unusable, filtered, Groups, put_group, close_place,
  filter_photos, filter_places, filter_candidates, sort_taken,
}

-- the numbers of candidates, as `allocate` is given them
abbrev pub counts_of : List (ℕ × List StoryAttachment) → List ℕ
counts_of [] = []
counts_of ((id, ps) ∷ gs) = length ps ∷ counts_of gs

put_group-any_empty :
    (id : ℕ) (p : StoryAttachment) (ps : List StoryAttachment) (gs : Groups)
    → any_empty (counts_of gs) ≡ false
    → any_empty (counts_of (put_group id (p ∷ ps) gs)) ≡ false
unfolding put_group any_empty
put_group-any_empty id p ps [] e = ground arith
put_group-any_empty id p ps ((k, qs) ∷ gs) e =
    let rest = put_group-any_empty id p ps gs (ground (arith, e)) in
    elim (Bool-cases (k == id)) [
      | inl a ↦ rw a (ground (arith, e))
      | inr a ↦ rw a (ground (arith, e, rest))
    ]

-- an early end, or groups that all have a photo
data Usable : Filtered (ℕ × Groups) → Type 0 where
  by_cancel : Usable interrupted
  by_image : Usable unreadable
  by_place : {id : ℕ} → Usable (unusable id)
  used :
      {calls : ℕ} {gs : Groups} → any_empty (counts_of gs) ≡ false → Usable (filtered (calls, gs))

close_place-Usable :
    (id : ℕ) (gs : Groups) (r : Filtered (ℕ × List StoryAttachment))
    → any_empty (counts_of gs) ≡ false
    → Usable (close_place id gs r)
unfolding close_place
close_place-Usable id gs interrupted e = by_cancel
close_place-Usable id gs unreadable e = by_image
close_place-Usable id gs (unusable k) e = by_place
close_place-Usable id gs (filtered (calls, [])) e = by_place
close_place-Usable id gs (filtered (calls, p ∷ ps)) e = used (put_group-any_empty id p ps gs e)

-- the groups of a result, none of an early end
abbrev groups_of : Filtered (ℕ × Groups) → Groups
groups_of (filtered (calls, gs)) = gs
groups_of _ = []

groups-Usable : (r : Filtered (ℕ × Groups)) → Usable r → any_empty (counts_of (groups_of r)) ≡ false
unfolding any_empty
groups-Usable interrupted by_cancel = refl
groups-Usable unreadable by_image = refl
groups-Usable (unusable k) by_place = refl
groups-Usable (filtered (calls, gs)) (used e) = e

module _ (cancelled : ℕ → Bool) (loads : List StoryAttachment → Bool)
    (is_blurry : StoryAttachment → Bool) (is_close : StoryAttachment → StoryAttachment → Bool) where
  filter_places-Usable :
      (ws : List StoryPlace) (r : Filtered (ℕ × Groups))
      → Usable r
      → Usable (filter_places cancelled loads is_blurry is_close ws r)
  unfolding filter_places
  filter_places-Usable [] r u = u
  filter_places-Usable (w ∷ ws) interrupted by_cancel = by_cancel
  filter_places-Usable (w ∷ ws) unreadable by_image = by_image
  filter_places-Usable (w ∷ ws) (unusable k) by_place = by_place
  filter_places-Usable (w ∷ ws) (filtered (calls, gs)) (used e) =
      filter_places-Usable ws
        (close_place w.trip_place_id gs
          (filter_photos cancelled loads is_blurry is_close calls 0 (sort_taken w.attachments) []))
        (close_place-Usable w.trip_place_id gs
          (filter_photos cancelled loads is_blurry is_close calls 0 (sort_taken w.attachments) [])
          e)

  -- Groups that `filter_candidates` returns have a candidate each, so that `allocate` finds no empty
  -- count among theirs.
  pub filter_candidates-any_empty :
      (places : List StoryPlace) (calls : ℕ) (gs : Groups)
      → filter_candidates cancelled loads is_blurry is_close places ≡ filtered (calls, gs)
      → any_empty (counts_of gs) ≡ false
  unfolding filter_candidates any_empty
  filter_candidates-any_empty places calls gs e =
      ap (λ r. any_empty (counts_of (groups_of r))) (sym e)
      ∙ groups-Usable (filter_candidates cancelled loads is_blurry is_close places)
          (filter_places-Usable places (filtered (0, [])) (used refl))
