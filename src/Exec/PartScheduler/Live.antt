-- ===== src/Exec/PartScheduler/Live.antt =====
-- The end of a run of the scheduler, over all orders of its steps.
use antb.Prelude.{
  ℕ, zero, suc, ◌≤◌, ◌<◌, Bool, true, false, Bool-cases, ◌≡◌, ◌⊎◌, inl, inr, refl, arith,
  Option-cases, ==_refl,
}
use antb.Exec.PartScheduler.{Result, accepted, Phase, idle, awaiting, Scheduler, done}
use antb.Exec.PartScheduler.Steps.{
  tasks_at, is_among, Step, finishes, calls, resumes, calls_alone, stops, Reachable,
}
use antb.Exec.PartScheduler.Sound.{Sound, at_rest, waits, ended, broken}
use antb.Exec.PartScheduler.Order.{Sound-step, Reachable-Sound}
use antb.Exec.PartScheduler.Lower.{
  is_over, left_in, pending_in, raised-over, stopped-over, Lower-step,
}

module _ {T : Type 0} (num_parts window : ℕ) (task : ℕ → Result T) where
  abbrev is_stop :
      {parallel : Bool} {s t : Scheduler T} → Step num_parts window task parallel s t → Bool
  is_stop (stops i o) = true
  is_stop _ = false

  -- Some step other than Stop.
  abbrev pub Goes : Bool → Scheduler T → Type 0
  Goes parallel s =
      (t : Scheduler T) × (k : Step num_parts window task parallel s t) × (is_stop k ≡ false)

  -- Each step leads to a scheduler that ends, and there is a step other than Stop unless the
  -- scheduler is over.
  pub data Ends (parallel : Bool) : Scheduler T → Type 0 where
    ends :
        {s : Scheduler T}
        → (is_over num_parts window task s ≡ true) ⊎ Goes parallel s
        → ((t : Scheduler T) → Step num_parts window task parallel s t → Ends parallel t)
        → Ends parallel s

  call-Goes :
      (parallel : Bool) (s : Scheduler T)
      → s.phase ≡ idle
      → done num_parts window task s ≡ false
      → Goes parallel s
  call-Goes true s i d = (_, calls (λ p. false) (λ p. accepted) refl i d, refl)
  call-Goes false s i d = (_, calls_alone refl i d, refl)

  among_waiting :
      (p : Phase) (s : Scheduler T) → p ≡ awaiting → is_among s.awaited (tasks_at p s) ≡ true
  among_waiting p s e = rw e (ground (arith, ==_refl s.awaited))

  Sound-Goes :
      (parallel : Bool) (s : Scheduler T)
      → is_over num_parts window task s ≡ false
      → Sound num_parts window task parallel s
      → Goes parallel s
  Sound-Goes parallel s o (at_rest i l g w a) = call-Goes parallel s i (ground (arith, o))
  Sound-Goes parallel s o (waits i y a l g w b) = elim (Option-cases (s.slots s.awaited)) [
    | inl n ↦
        (_, finishes s.awaited (task s.awaited) (among_waiting s.phase s i) n (inl refl), refl)
    | inr (r, e) ↦ (_, resumes false (λ p. false) (λ p. accepted) r i e, refl)
  ]
  Sound-Goes parallel s o (ended i k f h) =
      ground (arith, o, stopped-over num_parts window task s k)
  Sound-Goes parallel s o (broken i n h) = ground (arith, o, raised-over num_parts window task s i)

  Goes-or_over :
      {parallel : Bool} (s : Scheduler T)
      → (is_over num_parts window task s ≡ false
          → Sound num_parts window task parallel s
          → Goes parallel s)
      → Sound num_parts window task parallel s
      → (is_over num_parts window task s ≡ true) ⊎ Goes parallel s
  Goes-or_over s goes h = elim (Bool-cases (is_over num_parts window task s)) [
    | inl y ↦ inl y
    | inr o ↦ inr (goes o h)
  ]

  next-Ends :
      {parallel : Bool} (s : Scheduler T)
      → Sound num_parts window task parallel s
      → ((t : Scheduler T)
          → left_in num_parts window task t < left_in num_parts window task s
          → Sound num_parts window task parallel t
          → Ends parallel t)
      → ((t : Scheduler T)
          → left_in num_parts window task t ≡ left_in num_parts window task s
          → pending_in num_parts window task t < pending_in num_parts window task s
          → Sound num_parts window task parallel t
          → Ends parallel t)
      → Ends parallel s
  next-Ends s h less same = ends (Goes-or_over s (Sound-Goes _ s) h) (λ u j.
      let sound = Sound-step num_parts window task s u h j in
      elim (Lower-step num_parts window task s u h j) [
        | inl l ↦ less u l sound
        | inr (e, l) ↦ same u e l sound
      ])

  Ends-below :
      (n m : ℕ) {parallel : Bool} (s : Scheduler T)
      → left_in num_parts window task s ≤ n
      → pending_in num_parts window task s ≤ m
      → Sound num_parts window task parallel s
      → Ends parallel s
  Ends-below zero zero s a b h =
      next-Ends s h (λ t l k. absurd (omega (arith, a, l)))
        (λ t e l k. absurd (omega (arith, b, l)))
  Ends-below zero (suc m) s a b h =
      next-Ends s h (λ t l k. absurd (omega (arith, a, l)))
        (λ t e l k. Ends-below zero m t (omega (arith, a, e)) (omega (arith, b, l)) k)
  Ends-below (suc n) zero s a b h =
      next-Ends s h
        (λ t l k.
          Ends-below n (pending_in num_parts window task t) t (omega (arith, a, l)) (omega arith) k)
        (λ t e l k. absurd (omega (arith, b, l)))
  Ends-below (suc n) (suc m) s a b h =
      next-Ends s h
        (λ t l k.
          Ends-below n (pending_in num_parts window task t) t (omega (arith, a, l)) (omega arith) k)
        (λ t e l k. Ends-below (suc n) m t (omega (arith, a, e)) (omega (arith, b, l)) k)

  -- From each state that is reached no sequence of steps is infinite, those behind the end included;
  -- and until the last result is taken, the scheduler is stopped or the executor throws, a step other
  -- than Stop is possible.
  pub Reachable-Ends :
      {parallel : Bool} (s : Scheduler T)
      → Reachable num_parts window task parallel s
      → Ends parallel s
  Reachable-Ends s h =
      Ends-below (left_in num_parts window task s) (pending_in num_parts window task s) s
        (omega arith) (omega arith) (Reachable-Sound num_parts window task s h)
