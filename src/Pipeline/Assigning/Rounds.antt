-- ===== src/Pipeline/Assigning/Rounds.antt =====
-- The rounds of `assign_unlocated` end (app/pipeline/steps/assigning.py): each round that goes on has
-- given a photo its place.
use ktb4_2nd_ai.Prelude.{
  ℕ, zero, suc, ◌+◌, ◌<◌, ◌≡◌, refl, Bool, true, false, none, some, List, [], ◌∷◌, ◌==◌, arith,
  Bool-cases, inl, inr, ap, ◌∙◌, ◌⊎◌,
}
use ktb4_2nd_ai.Pipeline.{Moment, PhotoState}
use ktb4_2nd_ai.Pipeline.Assigning.{
  Placed, pass, round, rounds, after_round, unplaced, insert_photo, sort_photos, targets_of,
  lacks_embedding, assign_sorted, assign_unlocated,
}
use ktb4_2nd_ai.Pipeline.Assigning.Counts.{Accounts, broken, counted, round-Accounts}

insert-unplaced :
    {F E : Type 0} (p : PhotoState F E) (ps : List (PhotoState F E))
    → unplaced (insert_photo p ps) ≡ unplaced (p ∷ ps)
unfolding insert_photo unplaced
insert-unplaced p [] = refl
insert-unplaced p (q ∷ qs) = ground (arith, insert-unplaced p qs)

sort-unplaced :
    {F E : Type 0} (ps : List (PhotoState F E)) → unplaced (sort_photos ps) ≡ unplaced ps
unfolding sort_photos unplaced
sort-unplaced [] = refl
sort-unplaced (p ∷ ps) = ground (arith, insert-unplaced p (sort_photos ps), sort-unplaced ps)

module _ {F E : Type 0} (closer : E → E → E → Bool) (similar : E → E → Bool) (gap : ℕ) where
  -- the end of the rounds: an error, or photos that another round leaves as they are
  data Rests (targets : List ℕ) (ps : List (PhotoState F E)) : Placed F E → Type 0 where
    fails : Rests targets ps none
    rests :
        {n : ℕ} {qs : List (PhotoState F E)}
        → unplaced qs + n ≡ unplaced ps
        → round closer similar gap targets qs ≡ some (0, qs)
        → Rests targets ps (some (n, qs))

  later-Rests :
      (targets : List ℕ) (ps : List (PhotoState F E)) (n : ℕ) (qs : List (PhotoState F E))
      (r : Placed F E)
      → unplaced qs + n ≡ unplaced ps
      → Rests targets qs r
      → (s : Placed F E) × (after_round n (some r) ≡ some s) × Rests targets ps s
  later-Rests targets ps n qs none e fails = (none, refl, fails)
  later-Rests targets ps n qs (some (m, rs)) e (rests f g) =
      (some (n + m, rs), refl, rests (ground (arith, e, f)) g)

  next_round :
      (fuel : ℕ) (targets : List ℕ) (ps : List (PhotoState F E)) (r : Placed F E)
      → unplaced ps < suc fuel
      → Accounts ps r
      → round closer similar gap targets ps ≡ r
      → ((qs : List (PhotoState F E))
          → unplaced qs < fuel
          → (s : Placed F E) × (rounds closer similar gap fuel targets qs ≡ some s)
            × Rests targets qs s)
      → (s : Placed F E) × (rounds closer similar gap (suc fuel) targets ps ≡ some s)
        × Rests targets ps s
  unfolding rounds
  next_round fuel targets ps none small broken eq go = (none, rw (rounds, eq) refl, fails)
  next_round fuel targets ps (some (n, qs)) small (counted e g) eq go = elim (Bool-cases (n == 0)) [
    | inl z ↦
        let zero_n : n ≡ 0 = ground arith in
        let same : qs ≡ ps = g zero_n in
        let rest : round closer similar gap targets qs ≡ some (0, qs) =
          ap (λ (x : List (PhotoState F E)). round closer similar gap targets x) same
          ∙ (eq ∙ ap (λ (x : ℕ). some (x, qs)) zero_n) in
        (some (n, qs), rw (rounds, eq, z) refl, rests e rest)
    | inr z ↦
        let (s, h, k) = go qs (ground arith) in
        let (t, l, m) = later-Rests targets ps n qs s e k in (t, rw (rounds, eq, z, h) l, m)
  ]

  rounds_return :
      (fuel : ℕ) (targets : List ℕ) (ps : List (PhotoState F E))
      → unplaced ps < fuel
      → (s : Placed F E) × (rounds closer similar gap fuel targets ps ≡ some s) × Rests targets ps s
  rounds_return zero targets ps h = absurd (ground arith)
  rounds_return (suc fuel) targets ps h =
      next_round fuel targets ps (round closer similar gap targets ps) h
        (round-Accounts closer similar gap targets ps) refl
        (λ qs k. rounds_return fuel targets qs k)

  no_targets : (ps : List (PhotoState F E)) → round closer similar gap [] ps ≡ some (0, ps)
  unfolding round pass
  no_targets ps = refl

  sorted_cases :
      (in_period : Moment → Bool) (ps : List (PhotoState F E)) (targets : List ℕ)
      → targets_of closer similar gap in_period 0 ps ≡ targets
      → (s : Placed F E) × (assign_sorted closer similar gap in_period ps ≡ some s)
        × Rests targets ps s
  unfolding assign_sorted
  sorted_cases in_period ps [] e =
      (some (0, ps), rw (assign_sorted, e) refl, rests (ground arith) (no_targets ps))
  sorted_cases in_period ps (i ∷ is) e =
      elim (Bool-cases (lacks_embedding closer similar gap in_period ps)) [
        | inl b ↦ (none, rw (assign_sorted, e, b) refl, fails)
        | inr b ↦
            let (s, h, k) = rounds_return (suc (unplaced ps)) (i ∷ is) ps (ground arith) in
            (s, rw (assign_sorted, e, b) h, k)
      ]

  sorted_returns :
      (in_period : Moment → Bool) (ps : List (PhotoState F E))
      → (s : Placed F E) × (assign_sorted closer similar gap in_period ps ≡ some s)
        × Rests (targets_of closer similar gap in_period 0 ps) ps s
  unfolding assign_sorted
  sorted_returns in_period ps =
      sorted_cases in_period ps (targets_of closer similar gap in_period 0 ps) refl

  told :
      (targets : List ℕ) (ps photos : List (PhotoState F E)) (s : Placed F E)
      → unplaced ps ≡ unplaced photos
      → Rests targets ps s
      → (s ≡ none)
        ⊎ ((n : ℕ) × (qs : List (PhotoState F E)) × (s ≡ some (n, qs))
            × (unplaced qs + n ≡ unplaced photos)
            × (round closer similar gap targets qs ≡ some (0, qs)))
  told targets ps photos none same fails = inl refl
  told targets ps photos (some (n, qs)) same (rests e g) = inr (n, qs, refl, e ∙ same, g)

  -- `assign_unlocated` returns: it raises, or it gives as many photos a place as it says, and then
  -- another round over its targets would place none.
  pub assign_unlocated-returns :
      (in_period : Moment → Bool) (settings_fit : Bool) (photos : List (PhotoState F E))
      → (s : Placed F E) × (assign_unlocated closer similar gap in_period settings_fit photos
          ≡ some s)
        × ((s ≡ none)
            ⊎ ((n : ℕ) × (qs : List (PhotoState F E)) × (s ≡ some (n, qs))
                × (unplaced qs + n ≡ unplaced photos)
                × (round closer similar gap
                      (targets_of closer similar gap in_period 0 (sort_photos photos))
                      qs
                    ≡ some (0, qs))))
  unfolding assign_unlocated
  assign_unlocated-returns in_period false photos = (none, refl, inl refl)
  assign_unlocated-returns in_period true photos =
      let ps = sort_photos photos in
      let (s, e, h) = sorted_returns in_period ps in
      (
        s,
        e,
        told (targets_of closer similar gap in_period 0 ps) ps photos s (sort-unplaced photos) h,
      )
