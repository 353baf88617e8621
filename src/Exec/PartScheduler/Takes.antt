-- ===== src/Exec/PartScheduler/Takes.antt =====
-- Next behind its wait keeps the invariant.
use antb.Prelude.{
  ℕ, suc, ◌-◌, ◌≤◌, ◌<◌, Bool, true, false, [], ◌∷◌, ◌++◌, ◌≡◌, inl, inr, refl, sym, ◌∙◌, ap, ap₂,
  arith,
}
use antb.Exec.PartScheduler.{
  out_of_memory, invalid, other, Result, ok, error, Answer, Submitted, filled, failed, exception,
  idle, Scheduler, erase, max_window, retry, adapt, after_refill, after_take, resume,
}
use antb.Exec.PartScheduler.Steps.{Runs, results}
use antb.Exec.PartScheduler.Submit.{with_flights, Puts, submit-Puts}
use antb.Exec.PartScheduler.Sound.{
  Windowed, Going, SlotsSound, Sound, at_rest, ended, broken, Puts-Windowed, EachOk-suc,
  erase-SlotsSound,
}
use antb.Exec.PartScheduler.Alike.{
  failed-InOrder, alike-Windowed, moved-Windowed, alike-Going, length-Windowed, raised-InOrder,
}

module _ {T : Type 0} (num_parts window : ℕ) (task : ℕ → Result T) where
  -- Next, once Submit has refilled the window behind a part that was taken.
  after_refill-Sound :
      (v : T) (x : Submitted) (s t : Scheduler T)
      → s.next_result < num_parts
      → Going num_parts window task s
      → task s.next_result ≡ ok v
      → t.next_result ≡ suc s.next_result
      → t.delivered ≡ s.delivered
      → t.stopped ≡ false
      → t.phase ≡ idle
      → SlotsSound num_parts window task t
      → Windowed num_parts window task t (suc s.next_result)
      → Sound num_parts window task true (after_refill num_parts window task v (x, t))
  after_refill-Sound v filled s t l g k n d o i h w =
      at_rest i (omega (arith, l, n))
        record {
          on = o;
          log =
              ap₂ (λ ds y. ds ++ (y ∷ [])) (d ∙ g.log) (sym k)
              ∙ ap (results num_parts window task) (sym n);
          fine = rw n (EachOk-suc num_parts window task s.next_result v k g.fine);
          slots = h;
        }
        (λ y.
          alike-Windowed num_parts window task t _ _ refl refl w.positive w.narrow
            (moved-Windowed num_parts window task t _ _ n w))
        (λ b. ground (arith, b))
  after_refill-Sound v (failed e) s t l g k n d o i h w = ended i refl refl (
      failed-InOrder num_parts window task s _ e (omega (arith, l)) g refl
        (ap (λ ds. ds ++ (error e ∷ [])) d) (inr refl))
  after_refill-Sound v exception s t l g k n d o i h w =
      broken refl (length-Windowed num_parts window task t _ w)
        (raised-InOrder num_parts window task s _ (omega (arith, l)) g d refl)

  refilled-Sound :
      (v : T) (s u : Scheduler T) (r : Submitted × Scheduler T)
      → s.next_result < num_parts
      → Going num_parts window task s
      → task s.next_result ≡ ok v
      → u.next_result ≡ suc s.next_result
      → u.delivered ≡ s.delivered
      → u.stopped ≡ false
      → u.phase ≡ idle
      → SlotsSound num_parts window task u
      → Windowed num_parts window task u (suc s.next_result)
      → Puts num_parts window task (num_parts - u.next_submit) u r
      → Sound num_parts window task true (after_refill num_parts window task v r)
  refilled-Sound v s u r l g k n d o i h w (x, m, e, le, free) = rw e (
      after_refill-Sound v x s (with_flights m u) l g k n d o i h
        (Puts-Windowed num_parts window task u _ _ x w (x, m, refl, le, free)))

  adapt-positive : (now : Bool) (n : ℕ) → 1 ≤ n → 1 ≤ adapt num_parts window task now n
  adapt-positive now n h = ground (arith, h)

  adapt-narrow :
      (now : Bool) (n : ℕ)
      → n ≤ max_window window
      → adapt num_parts window task now n ≤ max_window window
  adapt-narrow now n h = ground (arith, h)

  -- Next behind Take, with its part's own result.
  after_take-Sound :
      (now : Bool) (pressure : ℕ → Bool) (answer : ℕ → Answer) (r : Result T) (s : Scheduler T)
      → s.next_result < num_parts
      → Going num_parts window task s
      → Windowed num_parts window task s (suc s.next_result)
      → task s.next_result ≡ r
      → Sound num_parts window task true (after_take num_parts window task now pressure answer r s)
  unfolding after_take
  after_take-Sound now pressure answer (error e) s l g w k =
      ended refl refl refl
        (failed-InOrder num_parts window task s _ e (omega (arith, l)) g refl refl (inl k))
  after_take-Sound now pressure answer (ok v) s l g w k =
      refilled-Sound v s _ _ l g k refl refl g.on refl g.slots
        (alike-Windowed num_parts window task s _ _ refl refl
          (adapt-positive now s.window w.positive) (adapt-narrow now s.window w.narrow) w)
        (submit-Puts num_parts window task pressure answer _)

  retry-Windowed :
      (s : Scheduler T)
      → s.next_result < num_parts
      → Windowed num_parts window task (retry num_parts window task s) (suc s.next_result)
  retry-Windowed s l = record {
    count = 0;
    flights = refl;
    next = omega arith;
    within = omega (arith, l);
    room = omega arith;
    positive = omega arith;
    narrow = ground arith;
  }

  retry-Going :
      (s : Scheduler T)
      → Going num_parts window task s
      → Going num_parts window task (retry num_parts window task s)
  retry-Going s g =
      alike-Going num_parts window task s _ refl refl refl (λ p r e. ground (arith, e)) g

  taken-Sound :
      (now : Bool) (pressure : ℕ → Bool) (answer : ℕ → Answer) (r : Result T) (s : Scheduler T)
      → s.next_result < num_parts
      → Going num_parts window task s
      → Windowed num_parts window task s (suc s.next_result)
      → task s.next_result ≡ r
      → Sound num_parts window task true (
          after_take num_parts window task now pressure answer r
            (record s { slots = erase s.next_result s.slots }))
  taken-Sound now pressure answer r s l g w k =
      after_take-Sound now pressure answer r _ l
        (alike-Going num_parts window task s _ refl refl refl
          (erase-SlotsSound num_parts window task s s.next_result g.slots) g)
        (alike-Windowed num_parts window task s _ _ refl refl w.positive w.narrow w) k

  -- Next from the end of its wait on.
  pub resume-Sound :
      (now : Bool) (pressure : ℕ → Bool) (answer : ℕ → Answer) (r : Result T) (s : Scheduler T)
      → s.next_result < num_parts
      → Going num_parts window task s
      → Windowed num_parts window task s (suc s.next_result)
      → Runs num_parts window task s.next_result r
      → Sound num_parts window task true (resume num_parts window task now pressure answer r s)
  unfolding resume
  resume-Sound now pressure answer (error out_of_memory) s l g w k =
      after_take-Sound now pressure answer (task s.next_result) _ l (retry-Going s g)
        (retry-Windowed s l) refl
  resume-Sound now pressure answer (ok v) s l g w k =
      taken-Sound now pressure answer (ok v) s l g w (ground (arith, k))
  resume-Sound now pressure answer (error invalid) s l g w k =
      taken-Sound now pressure answer (error invalid) s l g w (ground (arith, k))
  resume-Sound now pressure answer (error (other n)) s l g w k =
      taken-Sound now pressure answer (error (other n)) s l g w (ground (arith, k))
