-- ===== src/Exec/PartScheduler/Submit.antt =====
-- A call of Submit puts the next parts in flight, and changes nothing else.
use antb.Prelude.{
  ℕ, zero, suc, ◌+◌, ◌-◌, ◌≤◌, ◌<◌, ltb, ◌&&◌, ◌||◌, not, Bool, true, false, Bool-cases, List, [],
  ◌∷◌, ◌++◌, length, length-append, ◌≡◌, ◌⊎◌, inl, inr, refl, sym, ◌∙◌, ap, ap₂, arith, if_elim,
}
use antb.Exec.PartScheduler.{
  Failure, Result, Answer, accepted, refused, bad_alloc, thrown, Submitted, filled, exception,
  failed, out_of_memory, Scheduler, is_empty, submit_part, after_answer, submit_loop, submit,
}

-- n parts from `lo` on.
abbrev pub count_up : ℕ → ℕ → List ℕ
count_up lo zero = []
count_up lo (suc n) = lo ∷ count_up (suc lo) n

append-nil : {A : Type 0} (xs : List A) → xs ++ [] ≡ xs
append-nil [] = refl
append-nil (x ∷ xs) = ap (λ ys. x ∷ ys) (append-nil xs)

append_assoc : {A : Type 0} (xs ys zs : List A) → (xs ++ ys) ++ zs ≡ xs ++ (ys ++ zs)
append_assoc [] ys zs = refl
append_assoc (x ∷ xs) ys zs = ap (λ vs. x ∷ vs) (append_assoc xs ys zs)

pub length-count_up : (lo n : ℕ) → length (count_up lo n) ≡ n
length-count_up lo zero = refl
length-count_up lo (suc n) = ap suc (length-count_up (suc lo) n)

failed-filled : {e : Failure} → failed e ≡ filled → ⊥
failed-filled h = ground (arith, h)

exception-filled : exception ≡ filled → ⊥
exception-filled h = ground (arith, h)

suc-sum : (a b : ℕ) → suc (a + b) ≡ suc a + b
suc-sum a b = omega arith

is_empty-snoc : (xs : List ℕ) (x : ℕ) → is_empty (xs ++ (x ∷ [])) ≡ false
is_empty-snoc [] x = refl
is_empty-snoc (y ∷ ys) x = refl

pub empty-length : (xs : List ℕ) → is_empty xs ≡ true → length xs ≡ 0
empty-length [] h = refl
empty-length (x ∷ xs) h = ground (arith, h)

sum-suc : (a b : ℕ) → a + suc b ≡ suc a + b
sum-suc a b = omega arith

pub count_up-append : (lo n k : ℕ) → count_up lo n ++ count_up (lo + n) k ≡ count_up lo (n + k)
count_up-append lo zero k = ap₂ count_up (omega arith) (omega arith)
count_up-append lo (suc n) k =
    ap (λ ps. lo ∷ ps)
      (ap (λ m. count_up (suc lo) n ++ count_up m k) (sum-suc lo n) ∙ count_up-append (suc lo) n k)
    ∙ ap (count_up lo) (suc-sum n k)

module _ {T : Type 0} where
  abbrev pub with_flights : ℕ → Scheduler T → Scheduler T
  with_flights k s = record s {
    in_flight = s.in_flight ++ count_up s.next_submit k;
    next_submit = s.next_submit + k;
  }

  with_flights-zero : (s : Scheduler T) → with_flights 0 s ≡ s
  with_flights-zero s =
      rw (append-nil s.in_flight) (ap (λ n. record s { next_submit = n }) (omega arith))

  with_flights-suc :
      (k : ℕ) (s : Scheduler T) → with_flights k (submit_part s) ≡ with_flights (suc k) s
  with_flights-suc k s =
      rw (append_assoc s.in_flight (s.next_submit ∷ []) (count_up (suc s.next_submit) k)) (
        ap
          (λ n. record s {
            next_submit = n;
            in_flight = s.in_flight ++ (s.next_submit ∷ count_up (suc s.next_submit) k);
          })
          (sym (sum-suc s.next_submit k)))

module _ {T : Type 0} (num_parts window : ℕ) (task : ℕ → Result T) where
  -- `k` parts are put in flight, and no more than the window has room for.
  abbrev pub Puts : ℕ → Scheduler T → Submitted × Scheduler T → Type 0
  Puts n s r =
      (x : Submitted) × (k : ℕ) × (r ≡ (x, with_flights k s))
      × (k ≤ n)
      × ((k ≡ 0) ⊎ (length s.in_flight + k ≤ s.window))

  Puts-none : (n : ℕ) (x : Submitted) (s : Scheduler T) → Puts n s (x, s)
  Puts-none n x s = (x, 0, rw (with_flights-zero s) refl, omega arith, inl refl)

  answered-Puts :
      (n : ℕ) (a : Answer) (s : Scheduler T) (more : Submitted × Scheduler T)
      → length s.in_flight < s.window
      → Puts n (submit_part s) more
      → Puts (suc n) s (after_answer a more s)
  answered-Puts n (refused e) s more h p = Puts-none (suc n) (failed e) s
  answered-Puts n bad_alloc s more h p = Puts-none (suc n) (failed out_of_memory) s
  answered-Puts n thrown s more h p = Puts-none (suc n) exception s
  answered-Puts n accepted s more h (x, k, e, le, room) = (
    x,
    suc k,
    e ∙ ap (λ t. (x, t)) (with_flights-suc k s),
    omega arith,
    inr (ground (arith, room, length-append s.in_flight (s.next_submit ∷ []))),
  )

  submit_loop-Puts :
      (n : ℕ) (pressure : ℕ → Bool) (answer : ℕ → Answer) (s : Scheduler T)
      → Puts n s (submit_loop num_parts window task n pressure answer s)
  unfolding submit_loop
  submit_loop-Puts zero pressure answer s = Puts-none 0 filled s
  submit_loop-Puts (suc n) pressure answer s =
      if_elim (Puts (suc n) s)
        (s.stopped || not (ltb s.next_submit num_parts) || not (ltb (length s.in_flight) s.window))
        _ _ (λ y. Puts-none (suc n) filled s)
        (λ no.
          if_elim (Puts (suc n) s) (not (is_empty s.in_flight) && pressure s.next_submit) _ _
            (λ y. Puts-none (suc n) filled s)
            (λ k.
              answered-Puts n (answer s.next_submit) s _ (ground (arith, no))
                (submit_loop-Puts n pressure answer (submit_part s))))

  pub submit-Puts :
      (pressure : ℕ → Bool) (answer : ℕ → Answer) (s : Scheduler T)
      → Puts (num_parts - s.next_submit) s (submit num_parts window task pressure answer s)
  unfolding submit
  submit-Puts pressure answer s = submit_loop-Puts (num_parts - s.next_submit) pressure answer s

  is_empty-append : (xs ys : List ℕ) → is_empty xs ≡ false → is_empty (xs ++ ys) ≡ false
  is_empty-append [] ys h = ground (arith, h)
  is_empty-append (x ∷ xs) ys h = refl

  pub is_empty-flights :
      (n : ℕ) (s t : Scheduler T) (x : Submitted) (r : Submitted × Scheduler T)
      → Puts n s r
      → is_empty s.in_flight ≡ false
      → r ≡ (x, t)
      → is_empty t.in_flight ≡ false
  is_empty-flights n s t x r (y, k, e, le, room) h i =
      rw (ap (λ z. z.1) (sym i ∙ e)) (is_empty-append s.in_flight (count_up s.next_submit k) h)

  is_empty-part : (s : Scheduler T) → is_empty (submit_part s).in_flight ≡ false
  is_empty-part s = is_empty-snoc s.in_flight s.next_submit

  answered-filled :
      (n : ℕ) (a : Answer) (s t : Scheduler T) (more : Submitted × Scheduler T)
      → Puts n (submit_part s) more
      → after_answer a more s ≡ (filled, t)
      → is_empty t.in_flight ≡ false
  answered-filled n accepted s t more p e =
      is_empty-flights n (submit_part s) t filled more p (is_empty-part s) e
  answered-filled n (refused f) s t more p e = absurd (failed-filled (ap (λ r. r.0) e))
  answered-filled n bad_alloc s t more p e = absurd (failed-filled (ap (λ r. r.0) e))
  answered-filled n thrown s t more p e = absurd (exception-filled (ap (λ r. r.0) e))

  -- Where a part is left and the window has room for one, a call that fails in nothing has put one
  -- in flight, if none was.
  pub submit_loop-filled :
      (n : ℕ) (pressure : ℕ → Bool) (answer : ℕ → Answer) (s t : Scheduler T)
      → s.stopped ≡ false
      → s.next_submit < num_parts
      → 1 ≤ s.window
      → submit_loop num_parts window task (suc n) pressure answer s ≡ (filled, t)
      → is_empty t.in_flight ≡ false
  unfolding submit_loop
  submit_loop-filled n pressure answer s t h l w e = elim (Bool-cases (is_empty s.in_flight)) [
    | inl y ↦
        let size = empty-length s.in_flight y in
        let room : (s.stopped
              || not (ltb s.next_submit num_parts)
              || not (ltb (length s.in_flight) s.window))
            ≡ false =
          ground (arith, h, l, w, size) in
        let idle : (not (is_empty s.in_flight) && pressure s.next_submit) ≡ false =
          ground (arith, y) in
        answered-filled n (answer s.next_submit) s t _
          (submit_loop-Puts n pressure answer (submit_part s)) (rw (room, idle) at e)
    | inr k ↦ is_empty-flights (suc n) s t filled _ (submit_loop-Puts (suc n) pressure answer s) k e
  ]
