-- ===== src/Exec/PartScheduler/Bounds.antt =====
-- How many parts run ahead of the consumer, and which.
use antb.Prelude.{ℕ, ◌≤◌, true, ◌≡◌, ◌≢◌, ◌⊎◌, inl, inr, refl, arith, length}
use antb.Exec.PartScheduler.{
  Result, Phase, idle, awaiting, raised, undefined, Scheduler, max_window,
}
use antb.Exec.PartScheduler.Steps.{is_raised, first_ahead, tasks_at, Reachable}
use antb.Exec.PartScheduler.Alike.{length-Windowed}
use antb.Exec.PartScheduler.Sound.{Windowed, Sound, at_rest, waits, ended, broken}
use antb.Exec.PartScheduler.Order.{Reachable-Sound}

module _ {T : Type 0} (num_parts window : ℕ) (task : ℕ → Result T) where
  -- The tasks that are submitted and not yet taken, where the consumer's thread is at `p`.
  abbrev pub Ahead : Scheduler T → Phase → Type 0
  Ahead s p =
      (p ≢ undefined)
      × (length (tasks_at p s) ≤ max_window window)
      × ((s.stopped ≡ true)
          ⊎ (is_raised p ≡ true)
          ⊎ Windowed num_parts window task s (first_ahead p s))

  Ahead-at : (s : Scheduler T) (p q : Phase) → p ≡ q → Ahead s q → Ahead s p
  Ahead-at s p q e h = rw e h

  Sound-Ahead : (s : Scheduler T) → Sound num_parts window task true s → Ahead s s.phase
  Sound-Ahead s (at_rest i l g w a) = Ahead-at s _ idle i (
    λ e. ground (arith, e),
    length-Windowed num_parts window task s _ (w refl),
    inr (inr (w refl)),
  )
  Sound-Ahead s (waits i y a l g w b) =
      Ahead-at s _ awaiting i (λ e. ground (arith, e), b, inr (inr w))
  Sound-Ahead s (ended i o f h) =
      Ahead-at s _ idle i (λ e. ground (arith, e), rw f (omega arith), inl o)
  Sound-Ahead s (broken i n h) = Ahead-at s _ raised i (λ e. ground (arith, e), n, inr (inl refl))

  -- With an executor, in each state that is reached: no call took the front of an empty queue; the
  -- tasks that are submitted and not yet taken are at most `window`; unless the scheduler was stopped
  -- or the executor threw, the parts in flight are the next ones in order, and the window stays
  -- between 1 and the one asked for.
  pub Reachable-Ahead : (s : Scheduler T) → Reachable num_parts window task true s → Ahead s s.phase
  Reachable-Ahead s h = Sound-Ahead s (Reachable-Sound num_parts window task s h)
