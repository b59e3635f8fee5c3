-- ===== src/Jobs/Photos/Buffer.antt =====
-- The buffer of an execution stays within its limits and has one path for each photo
-- (`stage_photos`, app/jobs/redis_store.py).
use ktb4_2nd_ai.Prelude.{
  subst, ℕ, ◌+◌, ◌≤◌, ◌≡◌, refl, String, false, Option, none, some, List, [], ◌∷◌, arith, eq_iff,
  ◌==◌, str_eq, length, All, ap, sym, ◌∙◌, Bool-cases, Option-cases, inl, inr, some_injective,
}
use ktb4_2nd_ai.Jobs.Store.{PhotoBatchBuffer, ReadyAttachment}
use ktb4_2nd_ai.Jobs.Photos.{
  Known, known_key, learn, learn_batch, learn_batches, conflicts, add_photos, get_batch, put_batch,
  merged, add_batch, merge,
}

-- every photo has its one path
pub Agrees : List ReadyAttachment → Known → Type 0
Agrees ps m = All (λ p. known_key p.trip_attachment_id m ≡ some p.analyze_storage_key) ps

unfoldable pub AllAgree : List (ℕ × List ReadyAttachment) → Known → Type 0
AllAgree bs m = All (λ b. Agrees b.1 m) bs

-- at most 200 photos and 200 batches, and one path for each photo
pub record IsTidy (b : PhotoBatchBuffer) : Type 0 where
  pub photos : length (learn_batches b.batches []) ≤ 200
  pub batches : length b.batches ≤ 200
  pub paths : AllAgree b.batches (learn_batches b.batches [])

-- what is known stays so
Extends : Known → Known → Type 0
Extends m n = (p : ℕ) (key : String) → known_key p m ≡ some key → known_key p n ≡ some key

known_key-learn : (p : ℕ) (key : String) (m : Known) → known_key p (learn p key m) ≡ some key
unfolding known_key learn
known_key-learn p key [] = ground arith
known_key-learn p key ((q, old) ∷ m) = ground (arith, known_key-learn p key m)

learn-Extends :
    (p : ℕ) (key : String) (m : Known)
    → conflicts (known_key p m) key ≡ false
    → Extends m (learn p key m)
unfolding Extends known_key learn conflicts
learn-Extends p key [] fits q k h = absurd (cc)
learn-Extends p key ((n, old) ∷ m) fits q k h = elim (Bool-cases (n == p)) [
  | inl e ↦ rw e (ground (arith, eq_iff old key, e, fits, h))
  | inr e ↦
      let rest = learn-Extends p key m (ground (arith, e, fits)) q k in
      rw e (elim (Bool-cases (n == q)) [
        | inl f ↦ rw f (ground (arith, f, h))
        | inr f ↦ rw f (rest (ground (arith, f, h)))
      ])
]

Agrees-Extends : (ps : List ReadyAttachment) (m n : Known) → Extends m n → Agrees ps m → Agrees ps n
unfolding Agrees Extends
Agrees-Extends [] m n e h = tt
Agrees-Extends (p ∷ ps) m n e (h, hs) =
    (e p.trip_attachment_id p.analyze_storage_key h, Agrees-Extends ps m n e hs)

AllAgree-Extends :
    (bs : List (ℕ × List ReadyAttachment)) (m n : Known)
    → Extends m n
    → AllAgree bs m
    → AllAgree bs n
unfolding AllAgree
AllAgree-Extends [] m n e h = tt
AllAgree-Extends (b ∷ bs) m n e (h, hs) = (Agrees-Extends b.1 m n e h, AllAgree-Extends bs m n e hs)

-- accepted photos are learned, in their place, with nothing lost
record IsLearned (ps : List ReadyAttachment) (m n : Known) : Type 0 where
  result : n ≡ learn_batch ps m
  keeps : Extends m n
  agrees : Agrees ps n

add_photos-IsLearned :
    (ps : List ReadyAttachment) (m n : Known) → add_photos ps m ≡ some n → IsLearned ps m n
unfolding add_photos learn_batch Extends Agrees
add_photos-IsLearned [] m n e = record {
  result = some_injective (sym e);
  keeps = λ p key h. ap (known_key p) (some_injective (sym e)) ∙ h;
  agrees = tt;
}
add_photos-IsLearned (p ∷ ps) m n e =
    elim (Bool-cases (conflicts (known_key p.trip_attachment_id m) p.analyze_storage_key)) [
      | inl c ↦ absurd (ground (arith, c, e))
      | inr c ↦
          let m' = learn p.trip_attachment_id p.analyze_storage_key m in
          let h = add_photos-IsLearned ps m' n (ground (arith, c, e)) in
          record {
            result = h.result;
            keeps = λ q key k.
                h.keeps q key
                  (learn-Extends p.trip_attachment_id p.analyze_storage_key m c q key k);
            agrees = (
              h.keeps p.trip_attachment_id p.analyze_storage_key
                  (known_key-learn p.trip_attachment_id p.analyze_storage_key m),
              h.agrees,
            );
          }
    ]

learn_batches-put :
    (nr : ℕ) (ps : List ReadyAttachment) (bs : List (ℕ × List ReadyAttachment)) (m : Known)
    → learn_batches (put_batch nr ps bs) m ≡ learn_batch ps (learn_batches bs m)
unfolding learn_batches put_batch
learn_batches-put nr ps [] m = refl
learn_batches-put nr ps ((n, qs) ∷ bs) m = learn_batches-put nr ps bs (learn_batch qs m)

length-put :
    (nr : ℕ) (ps : List ReadyAttachment) (bs : List (ℕ × List ReadyAttachment))
    → length (put_batch nr ps bs) ≡ length bs + 1
unfolding put_batch
length-put nr ps [] = refl
length-put nr ps (b ∷ bs) = ground (arith, length-put nr ps bs)

AllAgree-put :
    (nr : ℕ) (ps : List ReadyAttachment) (bs : List (ℕ × List ReadyAttachment)) (m : Known)
    → AllAgree bs m
    → Agrees ps m
    → AllAgree (put_batch nr ps bs) m
unfolding AllAgree put_batch
AllAgree-put nr ps [] m h a = (a, tt)
AllAgree-put nr ps (b ∷ bs) m (h, hs) a = (h, AllAgree-put nr ps bs m hs a)

add_batch-IsTidy :
    (size : PhotoBatchBuffer → ℕ) (nr : ℕ) (ps : List ReadyAttachment) (b b' : PhotoBatchBuffer)
    (o : Option Known)
    → add_photos ps (learn_batches b.batches []) ≡ o
    → add_batch size nr ps b o ≡ merged b'
    → IsTidy b
    → IsTidy b'
unfolding add_batch
add_batch-IsTidy size nr ps b b' none a e h = absurd (cc)
add_batch-IsTidy size nr ps b b' (some n) a e h =
    let l = add_photos-IsLearned ps (learn_batches b.batches []) n a in
    let known = learn_batches-put nr ps b.batches [] in
    let eq : record b { batches = put_batch nr ps b.batches } ≡ b' = ground (arith, e) in
    subst IsTidy eq (record {
      photos = ground (arith, e, known, l.result);
      batches = ground (arith, e, length-put nr ps b.batches);
      paths =
          rw (known, sym l.result)
            (AllAgree-put nr ps b.batches n
              (AllAgree-Extends b.batches (learn_batches b.batches []) n l.keeps h.paths) l.agrees);
    })

-- A batch that is merged into a buffer keeps it within 200 photos and 200 batches, with one path
-- for each photo.
pub merge-IsTidy :
    (size : PhotoBatchBuffer → ℕ) (topic : String) (nr : ℕ) (ps : List ReadyAttachment)
    (b b' : PhotoBatchBuffer)
    → IsTidy b
    → merge size topic nr ps b ≡ merged b'
    → IsTidy b'
unfolding merge
merge-IsTidy size topic nr ps b b' h e = elim (Option-cases (get_batch nr b.batches)) [
  | inl g ↦ elim (Bool-cases (str_eq b.request_topic topic)) [
    | inl t ↦
        add_batch-IsTidy size nr ps b b' (add_photos ps (learn_batches b.batches [])) refl
          (ground (arith, g, t, e)) h
    | inr t ↦ absurd (ground (arith, t, e))
  ]
  | inr (qs, g) ↦ absurd (ground (arith, g, e))
]
