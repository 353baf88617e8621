-- ===== src/Exec/PartScheduler/Alike.antt =====
-- States that differ in what the invariant does not read, and the ways in which a scheduler ends.
use antb.Prelude.{
  ℕ, ◌≤◌, Bool, true, Option, some, [], ◌∷◌, ◌++◌, length, ◌≡◌, ◌⊎◌, inl, inr, refl, sym, ◌∙◌, ap,
}
use antb.Exec.PartScheduler.{Failure, Result, error, raised, Scheduler, put, max_window}
use antb.Exec.PartScheduler.Steps.{Runs, results, InOrder}
use antb.Exec.PartScheduler.Submit.{length-count_up}
use antb.Exec.PartScheduler.Sound.{
  Windowed, Going, SlotsSound, Sound, at_rest, waits, ended, broken, put-SlotsSound,
}

module _ {T : Type 0} (num_parts window : ℕ) (task : ℕ → Result T) where
  -- Where nothing failed, what was delivered is in order.
  pub Going-InOrder :
      (s : Scheduler T)
      → s.next_result ≤ num_parts
      → Going num_parts window task s
      → InOrder num_parts window task s
  Going-InOrder s l g = record {
    parts = s.next_result;
    within = l;
    fine = g.fine;
    running = inr (inr (l, g.log));
    log = inl g.log;
  }

  -- A failure at the end of what was delivered, that of the next part or of Submit.
  pub failed-InOrder :
      (s t : Scheduler T) (e : Failure)
      → s.next_result ≤ num_parts
      → Going num_parts window task s
      → t.stopped ≡ true
      → t.delivered ≡ s.delivered ++ (error e ∷ [])
      → (task s.next_result ≡ error e) ⊎ (t.refusal ≡ some e)
      → InOrder num_parts window task t
  failed-InOrder s t e l g off d c = record {
    parts = s.next_result;
    within = l;
    fine = g.fine;
    running = inl off;
    log = inr (e, d ∙ ap (λ rs. rs ++ (error e ∷ [])) g.log, c);
  }

  pub alike-Windowed :
      (s t : Scheduler T) (lo : ℕ)
      → t.in_flight ≡ s.in_flight
      → t.next_submit ≡ s.next_submit
      → 1 ≤ t.window
      → t.window ≤ max_window window
      → Windowed num_parts window task s lo
      → Windowed num_parts window task t lo
  alike-Windowed s t lo f n p u w = record {
    count = w.count;
    flights = f ∙ w.flights;
    next = n ∙ w.next;
    within = w.within;
    room = w.room;
    positive = p;
    narrow = u;
  }

  pub moved-Windowed :
      (s : Scheduler T) (lo m : ℕ)
      → m ≡ lo
      → Windowed num_parts window task s lo
      → Windowed num_parts window task s m
  moved-Windowed s lo m e w = rw e w

  pub alike-Going :
      (s t : Scheduler T)
      → t.stopped ≡ s.stopped
      → t.delivered ≡ s.delivered
      → t.next_result ≡ s.next_result
      → SlotsSound num_parts window task t
      → Going num_parts window task s
      → Going num_parts window task t
  alike-Going s t o d n h g = record {
    on = o ∙ g.on;
    log = d ∙ g.log ∙ ap (results num_parts window task) (sym n);
    fine = rw n g.fine;
    slots = h;
  }

  alike-InOrder :
      (s : Scheduler T) (h : ℕ → Option (Result T))
      → InOrder num_parts window task s
      → InOrder num_parts window task (record s { slots = h })
  alike-InOrder s h o = record {
    parts = o.parts;
    within = o.within;
    fine = o.fine;
    running = o.running;
    log = o.log;
  }

  -- The task of a part finishes.
  pub put-Sound :
      {parallel : Bool} (s : Scheduler T) (p : ℕ) (r : Result T)
      → Sound num_parts window task parallel s
      → Runs num_parts window task p r
      → Sound num_parts window task parallel (record s { slots = put p r s.slots })
  put-Sound s p r (at_rest i l g w a) k =
      at_rest i l
        (alike-Going s _ refl refl refl (put-SlotsSound num_parts window task s p r g.slots k) g)
        (λ y. alike-Windowed s _ _ refl refl (w y).positive (w y).narrow (w y)) a
  put-Sound s p r (waits i y a l g w b) k =
      waits i y a l
        (alike-Going s _ refl refl refl (put-SlotsSound num_parts window task s p r g.slots k) g)
        (alike-Windowed s _ _ refl refl w.positive w.narrow w) b
  put-Sound s p r (ended i o f h) k = ended i o f (alike-InOrder s _ h)
  put-Sound s p r (broken i n h) k = broken i n (alike-InOrder s _ h)

  pub length-Windowed :
      (s : Scheduler T) (lo : ℕ)
      → Windowed num_parts window task s lo
      → length s.in_flight ≤ max_window window
  length-Windowed s lo w = rw (w.flights, length-count_up lo w.count) w.room

  pub raised-InOrder :
      (s t : Scheduler T)
      → s.next_result ≤ num_parts
      → Going num_parts window task s
      → t.delivered ≡ s.delivered
      → t.phase ≡ raised
      → InOrder num_parts window task t
  raised-InOrder s t l g d i = record {
    parts = s.next_result;
    within = l;
    fine = g.fine;
    running = inr (inl (rw i refl));
    log = inl (d ∙ g.log);
  }
