-- ===== src/Exec/PartScheduler/Order.antt =====
-- What every reachable state of the scheduler satisfies, whatever the order of the steps.
use antb.Prelude.{ℕ, ◌<◌, Bool, false, ◌≡◌, inl, refl, arith}
use antb.Exec.PartScheduler.{Result, Scheduler, stop, start, done}
use antb.Exec.PartScheduler.Steps.{
  Step, finishes, calls, resumes, calls_alone, stops, Reachable, starts, steps, InOrder,
}
use antb.Exec.PartScheduler.Sound.{Sound, at_rest, waits, ended, broken}
use antb.Exec.PartScheduler.Alike.{Going-InOrder, put-Sound}
use antb.Exec.PartScheduler.Takes.{resume-Sound}
use antb.Exec.PartScheduler.Calls.{call-Sound, alone-Sound}

module _ {T : Type 0} (num_parts window : ℕ) (task : ℕ → Result T) where
  pub done-below :
      (s : Scheduler T) → done num_parts window task s ≡ false → s.next_result < num_parts
  unfolding done
  done-below s h = ground (arith, h)

  pub done-on : (s : Scheduler T) → done num_parts window task s ≡ false → s.stopped ≡ false
  unfolding done
  done-on s h = ground (arith, h)

  stop-InOrder :
      (s : Scheduler T) → InOrder num_parts window task s → InOrder num_parts window task (stop s)
  stop-InOrder s o = record {
    parts = o.parts;
    within = o.within;
    fine = o.fine;
    running = inl refl;
    log = o.log;
  }

  pub Sound-step :
      {parallel : Bool} (s t : Scheduler T)
      → Sound num_parts window task parallel s
      → Step num_parts window task parallel s t
      → Sound num_parts window task parallel t
  Sound-step s t h (finishes p r a f k) = put-Sound num_parts window task s p r h k
  Sound-step s t (at_rest i l g w a) (calls pressure answer y j d) =
      rw y (call-Sound num_parts window task pressure answer s d i (done-below s d) g (w y))
  Sound-step s t (waits i y a l g w b) (calls pressure answer z j d) = ground (arith, i, j)
  Sound-step s t (ended i o f h) (calls pressure answer y j d) = ground (arith, o, done-on s d)
  Sound-step s t (broken i n h) (calls pressure answer y j d) = ground (arith, i, j)
  Sound-step s t (waits i y a l g w b) (resumes now pressure answer r j k) =
      let own = rw a at k in
      rw (y, own)
        (resume-Sound num_parts window task now pressure answer r s l g w
          (g.slots s.next_result r own))
  Sound-step s t (at_rest i l g w a) (resumes now pressure answer r j k) = ground (arith, i, j)
  Sound-step s t (ended i o f h) (resumes now pressure answer r j k) = ground (arith, i, j)
  Sound-step s t (broken i n h) (resumes now pressure answer r j k) = ground (arith, i, j)
  Sound-step s t (at_rest i l g w a) (calls_alone y j d) =
      rw y (alone-Sound num_parts window task s d i (done-below s d) g (a y))
  Sound-step s t (waits i y a l g w b) (calls_alone z j d) = ground (arith, i, j)
  Sound-step s t (ended i o f h) (calls_alone y j d) = ground (arith, o, done-on s d)
  Sound-step s t (broken i n h) (calls_alone y j d) = ground (arith, i, j)
  Sound-step s t (at_rest i l g w a) (stops j o) =
      ended i refl refl (stop-InOrder s (Going-InOrder num_parts window task s l g))
  Sound-step s t (waits i y a l g w b) (stops j o) = ground (arith, rw i at j)
  Sound-step s t (ended i o f h) (stops j k) = ended i refl refl (stop-InOrder s h)
  Sound-step s t (broken i n h) (stops j o) = broken i (omega arith) (stop-InOrder s h)

  start-Sound : (parallel : Bool) → Sound num_parts window task parallel (start window)
  start-Sound parallel =
      at_rest refl (omega arith)
        record { on = refl; log = refl; fine = tt; slots = λ p r e. ground (arith, e) }
        (λ y. record {
          count = 0;
          flights = refl;
          next = refl;
          within = omega arith;
          room = omega arith;
          positive = ground arith;
          narrow = omega arith;
        })
        (λ n. refl)

  pub Reachable-Sound :
      {parallel : Bool} (s : Scheduler T)
      → Reachable num_parts window task parallel s
      → Sound num_parts window task parallel s
  Reachable-Sound s starts = start-Sound _
  Reachable-Sound t (steps {s = s} h k) = Sound-step s t (Reachable-Sound s h) k

  Sound-InOrder :
      {parallel : Bool} (s : Scheduler T)
      → Sound num_parts window task parallel s
      → InOrder num_parts window task s
  Sound-InOrder s (at_rest i l g w a) = Going-InOrder num_parts window task s l g
  Sound-InOrder s (waits i y a l g w b) = Going-InOrder num_parts window task s (omega (arith, l)) g
  Sound-InOrder s (ended i o f h) = h
  Sound-InOrder s (broken i n h) = h

  -- Whatever the order in which tasks finish and Next and Stop are called: Next has returned the
  -- results of the first parts in part order, as if they ran one after another, all of them fine, and
  -- behind them at most one failure, that of the next part or of Submit; a scheduler that is at rest
  -- and was not stopped has returned those of all the parts it counts as taken.
  pub Reachable-InOrder :
      {parallel : Bool} (s : Scheduler T)
      → Reachable num_parts window task parallel s
      → InOrder num_parts window task s
  Reachable-InOrder s h = Sound-InOrder s (Reachable-Sound s h)
