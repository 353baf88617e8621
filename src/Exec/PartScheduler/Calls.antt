-- ===== src/Exec/PartScheduler/Calls.antt =====
-- Next up to its wait, and Next without an executor, keep the invariant.
use antb.Prelude.{
  ℕ, zero, suc, ◌-◌, ◌≤◌, ◌<◌, Bool, true, false, Bool-cases, List, [], ◌∷◌, ◌++◌, length, ◌≡◌, inl,
  inr, refl, sym, ◌∙◌, ap, ap₂, arith,
}
use antb.Exec.PartScheduler.{
  max_window, Result, ok, error, Answer, Submitted, filled, failed, exception, idle, Scheduler,
  is_empty, pop_front, done, submit, begin_wait, call, call_alone, after_alone,
}
use antb.Exec.PartScheduler.Submit.{
  count_up, length-count_up, with_flights, Puts, submit-Puts, submit_loop-filled, empty-length,
  is_empty-flights,
}
use antb.Exec.PartScheduler.Sound.{
  Windowed, Going, Sound, at_rest, waits, ended, broken, Puts-Windowed, EachOk-suc,
}
use antb.Exec.PartScheduler.Alike.{
  failed-InOrder, moved-Windowed, alike-Going, length-Windowed, raised-InOrder,
}

module _ {T : Type 0} (num_parts window : ℕ) (task : ℕ → Result T) where
  -- Next up to its wait: where Submit fails in nothing, the part is in flight.
  popped-length :
      (s : Scheduler T) (ps : List ℕ) (n : ℕ) (w : Windowed num_parts window task s s.next_result)
      {p : ℕ}
      → p ∷ ps ≡ count_up s.next_result (suc n)
      → w.count ≡ suc n
      → length ps < max_window window
  popped-length s ps n w e c =
      let size = ap length e ∙ length-count_up s.next_result (suc n) in
      ground (arith, w.room, c, size)

  pop_front-Sound :
      (s : Scheduler T) (ps : List ℕ) (n : ℕ) (w : Windowed num_parts window task s s.next_result)
      → s.next_result < num_parts
      → Going num_parts window task s
      → ps ≡ count_up s.next_result n
      → w.count ≡ n
      → is_empty ps ≡ false
      → Sound num_parts window task true (pop_front ps s)
  pop_front-Sound s [] n w l g e c f = ground (arith, f)
  pop_front-Sound s (p ∷ ps) zero w l g e c f = ground (arith, e)
  pop_front-Sound s (p ∷ ps) (suc n) w l g e c f =
      waits refl refl (ground (arith, e)) l
        (alike-Going num_parts window task s _ refl refl refl g.slots g)
        record {
          count = n;
          flights = ground (arith, e);
          next = omega (arith, w.next, c);
          within = omega (arith, w.within, c);
          room = ground (arith, w.room, c);
          positive = w.positive;
          narrow = w.narrow;
        }
        (popped-length s ps n w e c)

  begin_wait-Sound :
      (x : Submitted) (s t : Scheduler T)
      → s.next_result < num_parts
      → Going num_parts window task s
      → t.next_result ≡ s.next_result
      → Going num_parts window task t
      → Windowed num_parts window task t s.next_result
      → (x ≡ filled → is_empty t.in_flight ≡ false)
      → Sound num_parts window task true (begin_wait num_parts window task (x, t))
  begin_wait-Sound filled s t l g n h w f =
      let v = moved-Windowed num_parts window task t _ _ n w in
      pop_front-Sound t t.in_flight v.count v (omega (arith, l, n)) h v.flights refl (f refl)
  begin_wait-Sound (failed e) s t l g n h w f =
      ended refl refl refl
        (failed-InOrder num_parts window task t _ e (omega (arith, l, n)) h refl refl (inr refl))
  begin_wait-Sound exception s t l g n h w f =
      broken refl (length-Windowed num_parts window task t _ w)
        (raised-InOrder num_parts window task t _ (omega (arith, l, n)) h refl refl)

  filled-flights :
      (pressure : ℕ → Bool) (answer : ℕ → Answer) (s t : Scheduler T) (n : ℕ)
      → num_parts - s.next_submit ≡ n
      → s.stopped ≡ false
      → s.next_submit < num_parts
      → 1 ≤ s.window
      → submit num_parts window task pressure answer s ≡ (filled, t)
      → is_empty t.in_flight ≡ false
  unfolding submit
  filled-flights pressure answer s t zero k o l h e = ground (arith, k, l)
  filled-flights pressure answer s t (suc n) k o l h e =
      submit_loop-filled num_parts window task n pressure answer s t o l h (rw k at e)

  next-filled :
      (pressure : ℕ → Bool) (answer : ℕ → Answer) (s : Scheduler T)
      → s.stopped ≡ false
      → s.next_result < num_parts
      → Windowed num_parts window task s s.next_result
      → (t : Scheduler T) → submit num_parts window task pressure answer s ≡ (filled, t)
      → is_empty t.in_flight ≡ false
  next-filled pressure answer s o l w t e = elim (Bool-cases (is_empty s.in_flight)) [
    | inl y ↦
        let size = ap length (sym w.flights) ∙ empty-length s.in_flight y in
        let none_yet = length-count_up s.next_result w.count in
        filled-flights pressure answer s t _ refl o (omega (arith, l, w.next, size, none_yet))
          w.positive e
    | inr k ↦
        is_empty-flights num_parts window task (num_parts - s.next_submit) s t filled _
          (submit-Puts num_parts window task pressure answer s) k e
  ]

  called-Sound :
      (s : Scheduler T) (r : Submitted × Scheduler T)
      → s.next_result < num_parts
      → Going num_parts window task s
      → Windowed num_parts window task s s.next_result
      → ((t : Scheduler T) → r ≡ (filled, t) → is_empty t.in_flight ≡ false)
      → Puts num_parts window task (num_parts - s.next_submit) s r
      → Sound num_parts window task true (begin_wait num_parts window task r)
  called-Sound s r l g w h (x, k, e, le, free) = rw e (
      begin_wait-Sound x s (with_flights k s) l g refl
        (alike-Going num_parts window task s _ refl refl refl g.slots g)
        (Puts-Windowed num_parts window task s _ _ x w (x, k, refl, le, free))
        (λ f. h _ (e ∙ ap (λ y. (y, with_flights k s)) f)))

  pub call-Sound :
      (pressure : ℕ → Bool) (answer : ℕ → Answer) (s : Scheduler T)
      → done num_parts window task s ≡ false
      → s.phase ≡ idle
      → s.next_result < num_parts
      → Going num_parts window task s
      → Windowed num_parts window task s s.next_result
      → Sound num_parts window task true (call num_parts window task pressure answer s)
  unfolding call done
  call-Sound pressure answer s d i l g w = rw d (
      called-Sound s _ l g w (next-filled pressure answer s g.on l w)
        (submit-Puts num_parts window task pressure answer s))

  after_alone-Sound :
      (r : Result T) (s : Scheduler T)
      → s.phase ≡ idle
      → s.next_result < num_parts
      → Going num_parts window task s
      → s.in_flight ≡ []
      → task s.next_result ≡ r
      → Sound num_parts window task false (after_alone num_parts window task r s)
  after_alone-Sound (error e) s i l g f k =
      ended refl refl refl
        (failed-InOrder num_parts window task s _ e (omega (arith, l)) g refl refl (inl k))
  after_alone-Sound (ok v) s i l g f k =
      at_rest i l
        record {
          on = g.on;
          log = ap₂ (λ ds y. ds ++ (y ∷ [])) g.log (sym k);
          fine = EachOk-suc num_parts window task s.next_result v k g.fine;
          slots = g.slots;
        }
        (λ b. ground (arith, b)) (λ y. f)

  pub alone-Sound :
      (s : Scheduler T)
      → done num_parts window task s ≡ false
      → s.phase ≡ idle
      → s.next_result < num_parts
      → Going num_parts window task s
      → s.in_flight ≡ []
      → Sound num_parts window task false (call_alone num_parts window task s)
  unfolding call_alone done
  alone-Sound s d i l g f = rw d (after_alone-Sound (task s.next_result) s i l g f refl)
