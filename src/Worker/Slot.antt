-- ===== src/Worker/Slot.antt =====
-- The slot of `Runner` (app/worker/runner.py) in every interleaving of the router and the thread.
use ktb4_2nd_ai.Prelude.{
  ℕ, ◌+◌, ◌≡◌, refl, true, false, Option, none, some, is_some, List, [], ◌∷◌, ◌++◌, ◌==◌, bit,
  length, arith, Option-cases, inl, inr,
}
use ktb4_2nd_ai.Schemas.{ProcessStep}
use ktb4_2nd_ai.Worker.{
  Ending, Callback, Runner, busy, submit, cancel, begin, on_progress, conclude, deliver, Move,
  submitted, canceled, begun, reported, ended, delivered, Moves, still, step, fresh,
}

-- The slot is taken exactly while one task waits or runs; the flags are those of the trip in the
-- slot, and a callback is due only on the thread.
pub record IsSound {R : Type 0} (s : Runner R) : Type 0 where
  pub one : length s.waiting + bit (is_some s.thread) ≡ bit (busy s) + bit (is_some s.due)
  pub flags :
      (t : ℕ) → is_some (s.cancel_flags t) ≡ (elim s.current [ none ↦ false | some c ↦ c == t ])
  pub on_thread : is_some s.due ≡ true → is_some s.thread ≡ true
  pub runs : (t : ℕ) → s.thread ≡ some t → s.due ≡ none → s.current ≡ some t
  pub next : (t : ℕ) (rest : List ℕ) → s.waiting ≡ t ∷ rest → s.current ≡ some t

length-append : (xs : List ℕ) (x : ℕ) → length (xs ++ (x ∷ [])) ≡ length xs + 1
length-append [] x = refl
length-append (y ∷ xs) x = ground (arith, length-append xs x)

module _ {R : Type 0} where
  submit-IsSound : (trip : ℕ) (s : Runner R) → IsSound s → IsSound (submit trip s).1
  unfolding submit
  submit-IsSound trip s h = record {
    one = ground (arith, h.one, length-append s.waiting trip);
    flags = λ t. ground (arith, h.flags t);
    on_thread = ground (arith, h.on_thread);
    runs = λ t e d. ground (arith, h.runs t, h.one, e, d);
    next = λ t rest e. ground (arith, h.next t rest, h.one, e);
  }

  cancel-IsSound : (trip : ℕ) (s : Runner R) → IsSound s → IsSound (cancel trip s).1
  unfolding cancel
  cancel-IsSound trip s h = record {
    one = ground (arith, h.one);
    flags = λ t. ground (arith, h.flags t, h.flags trip);
    on_thread = ground (arith, h.on_thread);
    runs = λ t e d. ground (arith, h.runs t, e, d);
    next = λ t rest e. ground (arith, h.next t rest, e);
  }

  begin-IsSound :
      (s : Runner R) (w : List ℕ) (th : Option ℕ)
      → s.waiting ≡ w
      → s.thread ≡ th
      → s.due ≡ none
      → IsSound s
      → IsSound (begin s w th)
  unfolding begin
  begin-IsSound s [] th ew et ed h = h
  begin-IsSound s (t ∷ w) (some u) ew et ed h = h
  begin-IsSound s (t ∷ w) none ew et ed h = record {
    one = ground (arith, h.one, ew, et);
    flags = h.flags;
    on_thread = ground (arith, ed);
    runs = λ u e d. ground (arith, h.next t w ew, e);
    next = λ u rest e. ground (arith, h.one, ew, et, ed, e);
  }

  on_progress-IsSound :
      (st : ProcessStep) (done total : ℕ) (s : Runner R)
      → IsSound s
      → IsSound (on_progress st done total s)
  unfolding on_progress
  on_progress-IsSound st done total s h = record {
    one = ground (arith, h.one);
    flags = λ t. ground (arith, h.flags t);
    on_thread = ground (arith, h.on_thread);
    runs = λ t e d. ground (arith, h.runs t, e, d);
    next = λ t rest e. ground (arith, h.next t rest, e);
  }

  conclude-IsSound :
      (e : Ending R) (s : Runner R) → s.due ≡ none → IsSound s → IsSound (conclude e s)
  unfolding conclude
  conclude-IsSound x s ed h = record {
    one = ground (arith, h.one, ed, h.runs);
    flags = λ t. elim (Option-cases s.thread) [
      | inl n ↦ ground (arith, h.flags t, n)
      | inr (u, n) ↦ ground (arith, h.flags t, h.runs u n ed, n)
    ];
    on_thread = ground (arith, h.on_thread);
    runs = λ t e d. ground (arith, h.runs t, e, d, ed);
    next = λ t rest e. ground (arith, h.next t rest, h.one, ed, h.runs, e);
  }

  deliver-IsSound :
      (s : Runner R) (c : Option (Callback R)) → s.due ≡ c → IsSound s → IsSound (deliver s c)
  unfolding deliver
  deliver-IsSound s none e h = h
  deliver-IsSound s (some c) ed h = record {
    one = ground (arith, h.one, ed, h.on_thread);
    flags = h.flags;
    on_thread = λ e. e;
    runs = λ t e d. absurd (cc);
    next = h.next;
  }

  Move-IsSound : {s t : Runner R} → Move s t → IsSound s → IsSound t
  Move-IsSound {s} (submitted trip) h = submit-IsSound trip s h
  Move-IsSound {s} (canceled trip) h = cancel-IsSound trip s h
  Move-IsSound {s} (begun d) h = begin-IsSound s s.waiting s.thread refl refl d h
  Move-IsSound {s} (reported st done total d) h = on_progress-IsSound st done total s h
  Move-IsSound {s} (ended e d) h = conclude-IsSound e s d h
  Move-IsSound {s} delivered h = deliver-IsSound s s.due refl h

  fresh-IsSound : IsSound (fresh {R = R})
  fresh-IsSound = record {
    one = refl;
    flags = λ t. refl;
    on_thread = λ e. e;
    runs = λ t e d. absurd (cc);
    next = λ t rest e. absurd (cc);
  }

  -- In every interleaving of the router's requests and the thread's moves, the slot is taken exactly
  -- while one task waits or runs, and the flags of cancellation are those of the trip in the slot.
  pub Moves-IsSound : {s : Runner R} → Moves fresh s → IsSound s
  Moves-IsSound still = fresh-IsSound
  Moves-IsSound (step ms m) = Move-IsSound m (Moves-IsSound ms)

  -- When the last callback of a task is due, and so before it is sent, that task has left the slot:
  -- the slot is taken exactly when a later task waits for the thread.
  pub due_slot :
      {s : Runner R} (c : Callback R)
      → Moves fresh s
      → s.due ≡ some c
      → length s.waiting ≡ bit (busy s)
  due_slot {s} c ms e = let h = Moves-IsSound ms in ground (arith, h.one, h.on_thread, e)
