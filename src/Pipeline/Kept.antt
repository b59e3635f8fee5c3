-- ===== src/Pipeline/Kept.antt =====
-- What `filter_photos` (app/pipeline/steps/filtering.py) leaves in a group: each duplicate points to
-- a photo of the group that stays, which FINALIZING checks again, and photos that stay differ.
use ktb4_2nd_ai.Prelude.{
  ℕ, ◌≡◌, refl, Bool, true, false, Option, none, some, List, [], ◌∷◌, ◌++◌, All, arith, ◌⊎◌, inl,
  inr, Bool-cases, sym, subst, some_injective,
}
use ktb4_2nd_ai.Pipeline.{Issue, PhotoState, photo_id}
use ktb4_2nd_ai.Pipeline.Filtering.{
  PhotoMetrics, cleared, judge, retain, is_blurry, is_near, original_of, judge_group,
}

module _ {F E : Type 0} where
  -- the photo is one of the list
  pub data Among (o : PhotoState F E) : List (PhotoState F E) → Type 0 where
    front : {ps : List (PhotoState F E)} → Among o (o ∷ ps)
    behind : {p : PhotoState F E} {ps : List (PhotoState F E)} → Among o ps → Among o (p ∷ ps)

  pub all_among :
      (P : PhotoState F E → Type 0) (q : PhotoState F E) (qs : List (PhotoState F E))
      → Among q qs
      → All P qs
      → P q
  all_among P q [] x h = elim x [ ]
  all_among P q (_ ∷ qs) front (h, hs) = h
  all_among P q (x ∷ qs) (behind a) (h, hs) = all_among P q qs a hs

module _ {F E V H : Type 0} (less : V → V → Bool) (distance : H → H → ℕ)
    (valid : PhotoMetrics V H → Bool) (metrics : ℕ → Option (PhotoMetrics V H)) (blur_var_min : V)
    (phash_max_dist : ℕ) where
  abbrev judged :
      Option Issue → List (PhotoState F E) → List (PhotoState F E) → List (PhotoState F E)
  judged = judge_group valid less distance metrics blur_var_min phash_max_dist

  abbrev near : PhotoState F E → PhotoState F E → Bool
  near = is_near valid less distance metrics blur_var_min phash_max_dist

  Among-append :
      (o : PhotoState F E) (ps : List (PhotoState F E)) (q : PhotoState F E)
      → Among o (ps ++ (q ∷ []))
      → Among o ps ⊎ (o ≡ q)
  Among-append o [] q front = inr refl
  Among-append o [] q (behind x) = elim x [ ]
  Among-append o (p ∷ ps) q front = inl front
  Among-append o (p ∷ ps) q (behind x) = elim (Among-append o ps q x) [
    | inl y ↦ inl (behind y)
    | inr e ↦ inr e
  ]

  original_of-Among :
      (p o : PhotoState F E) (os : List (PhotoState F E))
      → original_of valid less distance metrics blur_var_min phash_max_dist p os ≡ some o
      → Among o os × (near p o ≡ true)
  unfolding original_of
  original_of-Among p o [] e = absurd (cc)
  original_of-Among p o (x ∷ os) e = elim (Bool-cases (near p x)) [
    | inl n ↦
        let eq : x ≡ o = some_injective (ground (arith, n, e)) in
        (subst (λ y. Among y (x ∷ os)) eq front, subst (λ y. near p y ≡ true) eq n)
    | inr n ↦ let (a, m) = original_of-Among p o os (ground (arith, n, e)) in (behind a, m)
  ]

  -- the photo `o` of `out` is what the duplicate `q` repeats
  pub record IsOriginal (kept : Option Issue) (out : List (PhotoState F E)) (i : ℕ)
      (q o : PhotoState F E) : Type 0 where
    pub id : photo_id o ≡ i
    pub there : Among o out
    pub stays : o.issue ≡ kept
    pub alike : near q o ≡ true

  pub HasOriginal : Option Issue → List (PhotoState F E) → PhotoState F E → Type 0
  HasOriginal kept out q =
      (i : ℕ)
      → q.duplicate_of_attachment_id ≡ some i
      → (o : PhotoState F E) × IsOriginal kept out i q o

  -- every retained photo stays and is in `out`
  AllStay : Option Issue → List (PhotoState F E) → List (PhotoState F E) → Type 0
  AllStay kept out r = (o : PhotoState F E) → Among o r → Among o out × (o.issue ≡ kept)

  judge-HasOriginal :
      (kept : Option Issue) (out r : List (PhotoState F E)) (p : PhotoState F E) (b : Bool)
      (orig : Option (PhotoState F E))
      → AllStay kept out r
      → original_of valid less distance metrics blur_var_min phash_max_dist p r ≡ orig
      → HasOriginal kept out (judge kept p b orig).0
  unfolding judge HasOriginal AllStay
  judge-HasOriginal kept out r p true orig h e i d = absurd (cc)
  judge-HasOriginal kept out r p false none h e i d = absurd (cc)
  judge-HasOriginal kept out r p false (some o) h e i d =
      let (a, n) = original_of-Among p o r e in
      let (there, stays) = h o a in
      (o, record { id = some_injective d; there = there; stays = stays; alike = n })

  judge-AllStay :
      (kept : Option Issue) (out r : List (PhotoState F E)) (p : PhotoState F E) (b : Bool)
      (orig : Option (PhotoState F E))
      → AllStay kept out r
      → Among (judge kept p b orig).0 out
      → AllStay kept out (retain (judge kept p b orig) r)
  unfolding judge AllStay
  judge-AllStay kept out r p true orig h a o x = h o x
  judge-AllStay kept out r p false (some w) h a o x = h o x
  judge-AllStay kept out r p false none h a o x = elim (Among-append o r (cleared kept p) x) [
    | inl y ↦ h o y
    | inr e ↦ (
      subst (λ y. Among y out) (sym e) a,
      subst (λ (y : PhotoState F E). y.issue ≡ kept) (sym e) refl,
    )
  ]

  group-HasOriginal :
      (kept : Option Issue) (out r ps : List (PhotoState F E))
      → AllStay kept out r
      → ((o : PhotoState F E) → Among o (judged kept r ps) → Among o out)
      → All (HasOriginal kept out) (judged kept r ps)
  unfolding judge_group
  group-HasOriginal kept out r [] h inside = tt
  group-HasOriginal kept out r (p ∷ ps) h inside =
      let b = is_blurry valid less distance metrics blur_var_min phash_max_dist p in
      let orig = original_of valid less distance metrics blur_var_min phash_max_dist p r in
      (
        judge-HasOriginal kept out r p b orig h refl,
        group-HasOriginal kept out (retain (judge kept p b orig) r) ps
            (judge-AllStay kept out r p b orig h (inside (judge kept p b orig).0 front))
            (λ o x. inside o (behind x)),
      )

  -- Of the photos that the second loop leaves in a group, every duplicate names a photo of the same
  -- group that stays, with the issue of its place, and is within the distance of it: no duplicate
  -- names a blurred photo or another duplicate.
  pub duplicates_name_kept :
      (kept : Option Issue) (ps : List (PhotoState F E)) (q : PhotoState F E) (i : ℕ)
      → Among q (judged kept [] ps)
      → q.duplicate_of_attachment_id ≡ some i
      → (o : PhotoState F E) × IsOriginal kept (judged kept [] ps) i q o
  unfolding AllStay HasOriginal
  duplicates_name_kept kept ps q i a =
      all_among (HasOriginal kept (judged kept [] ps)) q (judged kept [] ps) a
        (group-HasOriginal kept (judged kept [] ps) [] ps (λ o x. elim x [ ]) (λ o x. x)) i
