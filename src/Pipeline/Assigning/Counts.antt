-- ===== src/Pipeline/Assigning/Counts.antt =====
-- What a round of `assign_unlocated` does (app/pipeline/steps/assigning.py): it gives as many photos
-- a place as it counts, and none loses its place.
use ktb4_2nd_ai.Prelude.{
  ℕ, zero, suc, ◌+◌, ◌≡◌, refl, String, Bool, false, Option, none, some, is_some, List, [], ◌∷◌,
  ◌>>=◌, arith, Option-cases, Bool-cases, inl, inr, some_injective, ◌∙◌,
}
use ktb4_2nd_ai.Pipeline.{PhotoState}
use ktb4_2nd_ai.Pipeline.Assigning.{
  Entry, only_place, Placed, at, modify, nearest, anchors, settled, closer_photo, place_photo,
  place_if, time_place, by_time_one, similar_places, by_similarity_one, pass, round, track_of,
  unplaced,
}

module _ {F E : Type 0} where
  -- a result accounts for the photos that it placed
  pub data Accounts (ps : List (PhotoState F E)) : Placed F E → Type 0 where
    broken : Accounts ps none
    counted :
        {n : ℕ} {qs : List (PhotoState F E)}
        → unplaced qs + n ≡ unplaced ps
        → (n ≡ 0 → qs ≡ ps)
        → Accounts ps (some (n, qs))

  modify-unplaced :
      (place : String) (near p : PhotoState F E) (i : ℕ) (ps : List (PhotoState F E))
      → at i ps ≡ some p
      → is_some p.place_id ≡ false
      → unplaced (modify (settled place near) i ps) + 1 ≡ unplaced ps
  unfolding unplaced modify at
  modify-unplaced place near p i [] e h = absurd (cc)
  modify-unplaced place near p zero (q ∷ ps) e h =
      let eq : q ≡ p = some_injective e in
      let free : is_some q.place_id ≡ false = rw eq h in ground (arith, free)
  modify-unplaced place near p (suc i) (q ∷ ps) e h =
      ground (arith, modify-unplaced place near p i ps e h)

module _ {F E : Type 0} (closer : E → E → E → Bool) (similar : E → E → Bool) (gap : ℕ) where
  place_photo-Accounts :
      (i : ℕ) (p : PhotoState F E) (place : String) (ps : List (PhotoState F E))
      → at i ps ≡ some p
      → is_some p.place_id ≡ false
      → Accounts ps (place_photo closer similar gap i p place ps)
  unfolding place_photo
  place_photo-Accounts i p place ps e h =
      elim (Option-cases (nearest (closer_photo closer similar gap p) (anchors place ps))) [
        | inl n ↦ rw (place_photo, n) broken
        | inr (near, n) ↦
            rw (place_photo, n)
              (counted (modify-unplaced place near p i ps e h) (λ z. absurd (ground arith)))
      ]

  place_if-Accounts :
      (i : ℕ) (p : PhotoState F E) (o : Option String) (ps : List (PhotoState F E))
      → at i ps ≡ some p
      → is_some p.place_id ≡ false
      → Accounts ps (place_if closer similar gap i p o ps)
  unfolding place_if
  place_if-Accounts i p none ps e h = counted (ground arith) (λ e. refl)
  place_if-Accounts i p (some place) ps e h = place_photo-Accounts i p place ps e h

  by_time-Accounts :
      (track : List Entry) (i : ℕ) (ps : List (PhotoState F E))
      → Accounts ps (by_time_one closer similar gap track i (at i ps) ps)
  unfolding by_time_one
  by_time-Accounts track i ps = elim (Option-cases (at i ps)) [
    | inl e ↦ rw e (counted (ground arith) (λ e. refl))
    | inr (p, e) ↦ elim (Bool-cases (is_some p.place_id)) [
      | inl b ↦ rw (e, b) (counted (ground arith) (λ e. refl))
      | inr b ↦ rw (e, b) (place_if-Accounts i p (time_place gap track p.taken_at) ps e b)
    ]
  ]

  by_similarity-Accounts :
      (i : ℕ) (ps : List (PhotoState F E))
      → Accounts ps (by_similarity_one closer similar gap i (at i ps) ps)
  unfolding by_similarity_one
  by_similarity-Accounts i ps = elim (Option-cases (at i ps)) [
    | inl e ↦ rw e (counted (ground arith) (λ e. refl))
    | inr (p, e) ↦ elim (Bool-cases (is_some p.place_id)) [
      | inl b ↦ rw (e, b) (counted (ground arith) (λ e. refl))
      | inr b ↦
          rw (e, b)
            (place_if-Accounts i p (only_place (similar_places closer similar gap i p 0 ps)) ps e b)
    ]
  ]

  add :
      (ps : List (PhotoState F E)) (n : ℕ) (qs : List (PhotoState F E)) (r : Placed F E)
      → unplaced qs + n ≡ unplaced ps
      → (n ≡ 0 → qs ≡ ps)
      → Accounts qs r
      → Accounts ps (r >>= λ y. some (n + y.0, y.1))
  add ps n qs none e g broken = broken
  add ps n qs (some (m, rs)) e g (counted f h) =
      counted (ground (arith, e, f)) (λ z. h (ground arith) ∙ g (ground arith))

  bind-Accounts :
      (ps : List (PhotoState F E)) (r : Placed F E) (go : List (PhotoState F E) → Placed F E)
      → Accounts ps r
      → ((qs : List (PhotoState F E)) → Accounts qs (go qs))
      → Accounts ps (r >>= λ x. (go x.1 >>= λ y. some (x.0 + y.0, y.1)))
  bind-Accounts ps none go broken h = broken
  bind-Accounts ps (some (n, qs)) go (counted e g) h = add ps n qs (go qs) e g (h qs)

  pass-Accounts :
      (step : ℕ → Option (PhotoState F E) → List (PhotoState F E) → Placed F E) (is : List ℕ)
      (ps : List (PhotoState F E))
      → ((i : ℕ) (qs : List (PhotoState F E)) → Accounts qs (step i (at i qs) qs))
      → Accounts ps (pass closer similar gap step is ps)
  unfolding pass
  pass-Accounts step [] ps h = counted (ground arith) (λ e. refl)
  pass-Accounts step (i ∷ is) ps h =
      bind-Accounts ps (step i (at i ps) ps) (λ qs. pass closer similar gap step is qs) (h i ps)
        (λ qs. pass-Accounts step is qs h)

  pub round-Accounts :
      (targets : List ℕ) (ps : List (PhotoState F E))
      → Accounts ps (round closer similar gap targets ps)
  unfolding round
  round-Accounts targets ps =
      bind-Accounts ps _
        (λ qs. pass closer similar gap (by_similarity_one closer similar gap) targets qs)
        (pass-Accounts (by_time_one closer similar gap (track_of ps)) targets ps
          (by_time-Accounts (track_of ps)))
        (λ qs.
          pass-Accounts (by_similarity_one closer similar gap) targets qs by_similarity-Accounts)
