-- ===== src/Story/Tests.antt =====
-- The choice of a story's photos on concrete places (app/story/selection.py).
use ktb4_2nd_ai.Prelude.{
  ℕ, ◌≤◌, ◌≡◌, refl, Bool, true, false, ◌&&◌, ◌==◌, some, List, [], ◌∷◌, length, sum, min, arith,
  map,
}
use ktb4_2nd_ai.Story.Selection.{
  nth, any_empty, allocate, distribute, shares, remainder, range, sort, insert, bump, bump_all,
  any_similar, choose, Group, StoryAttachment, photo_at, ranks_before, insert_rank, rank, photos_at,
  choose_group, choose_groups, insert_selected, sort_selected, select,
}
use ktb4_2nd_ai.Story.Candidates.{
  StoryPlace, insert_taken, sort_taken, any_close, filter_photos, put_group, close_place,
  filter_places, filter_candidates,
}
use ktb4_2nd_ai.Story.Candidates.Usable.{counts_of, filter_candidates-any_empty}
use ktb4_2nd_ai.Story.Selection.Allocation.{allocate-bounded}
use ktb4_2nd_ai.Story.Selection.Choice.{Apart, none_chosen, choose-Apart, select-bounded}

-- five photos, one and two
abbrev places : List ℕ
places = 5 ∷ 1 ∷ 2 ∷ []

shared : allocate places 6 ≡ some (3 ∷ 1 ∷ 2 ∷ [])
unfolding allocate any_empty distribute shares remainder nth range sort insert bump bump_all
shared = refl

none_empty : any_empty places ≡ false
unfolding any_empty
none_empty = refl

allocate-bounded_example :
    (xs : List ℕ) × (allocate places 6 ≡ some xs)
    × (length xs ≡ length places)
    × (sum xs ≡ min 6 (sum places))
    × (1 ≤ nth 2 xs)
    × (nth 2 xs ≤ nth 2 places)
allocate-bounded_example = allocate-bounded places 6 2 refl none_empty (ground arith) (ground arith)

-- the second candidate is like the first
abbrev like : ℕ → ℕ → Bool
like i j = i == 1 && j == 0

chosen_apart : choose like 2 (0 ∷ 1 ∷ 2 ∷ 3 ∷ []) [] ≡ 0 ∷ 2 ∷ []
unfolding choose any_similar
chosen_apart = refl

choose-Apart_example :
    (length (choose like 2 (0 ∷ 1 ∷ 2 ∷ 3 ∷ []) []) ≤ 2)
    × Apart like (choose like 2 (0 ∷ 1 ∷ 2 ∷ 3 ∷ []) [])
choose-Apart_example = choose-Apart like 2 (0 ∷ 1 ∷ 2 ∷ 3 ∷ []) [] (ground arith) none_chosen

abbrev first_photo : StoryAttachment
first_photo = record { trip_attachment_id = 4; taken_at = 20 }

abbrev second_photo : StoryAttachment
second_photo = record { trip_attachment_id = 3; taken_at = 10 }

abbrev group : Group
group = record {
  place_id = 9;
  photos = first_photo ∷ second_photo ∷ [];
  scores_above = λ i j. false;
  similar = λ i j. false;
}

selected_there : select (group ∷ []) 5 ≡ some ((9, second_photo) ∷ (9, first_photo) ∷ [])
unfolding select allocate any_empty distribute shares remainder nth range sort insert bump bump_all
    choose_groups choose_group rank insert_rank ranks_before choose any_similar photos_at photo_at
    sort_selected insert_selected
selected_there = refl

select-bounded_example : 2 ≤ min 5 (sum (map (λ g. length g.photos) (group ∷ [])))
select-bounded_example =
    select-bounded (group ∷ []) 5 ((9, second_photo) ∷ (9, first_photo) ∷ []) selected_there

-- two places: of the three photos of the first, one is blurry and one is close to the last
abbrev visited : List StoryPlace
visited =
    record {
      trip_place_id = 7;
      attachments =
          record { trip_attachment_id = 1; taken_at = 30 }
          ∷ record { trip_attachment_id = 2; taken_at = 20 }
          ∷ record { trip_attachment_id = 3; taken_at = 10 }
          ∷ [];
    }
    ∷ record {
      trip_place_id = 8;
      attachments = record { trip_attachment_id = 4; taken_at = 40 } ∷ [];
    }
    ∷ []

filter_candidates-any_empty_example :
    any_empty (
      counts_of (
        (7, record { trip_attachment_id = 3; taken_at = 10 } ∷ [])
        ∷ (8, record { trip_attachment_id = 4; taken_at = 40 } ∷ [])
        ∷ []))
    ≡ false
unfolding filter_candidates filter_places sort_taken insert_taken filter_photos any_close
    close_place put_group
filter_candidates-any_empty_example =
    filter_candidates-any_empty (λ n. false) (λ chunk. true) (λ p. p.trip_attachment_id == 2)
      (λ p q. p.trip_attachment_id == 1) visited 6
      ((7, record { trip_attachment_id = 3; taken_at = 10 } ∷ [])
        ∷ (8, record { trip_attachment_id = 4; taken_at = 40 } ∷ [])
        ∷ [])
      refl
