-- ===== src/Exec/PartScheduler/Sound.antt =====
-- The invariant of the scheduler.
use antb.Prelude.{
  ℕ, suc, ◌+◌, ◌-◌, ◌≤◌, ◌<◌, ◌==◌, Bool, true, false, Bool-cases, none, some, [], ◌∷◌, ◌++◌,
  length, ◌≡◌, inl, inr, refl, sym, ◌∙◌, ap, arith, ==_iff, All-append,
}
use antb.Exec.PartScheduler.{
  Result, ok, Submitted, idle, awaiting, raised, Scheduler, put, erase, max_window,
}
use antb.Exec.PartScheduler.Steps.{is_ok, Runs, results, EachOk, InOrder}
use antb.Exec.PartScheduler.Submit.{count_up, length-count_up, count_up-append, Puts}

module _ {T : Type 0} (num_parts window : ℕ) (task : ℕ → Result T) where
  -- The parts in flight are the next ones from `lo` on, no more than the window asked for.
  pub record Windowed (s : Scheduler T) (lo : ℕ) : Type 0 where
    pub count : ℕ
    pub flights : s.in_flight ≡ count_up lo count
    pub next : s.next_submit ≡ lo + count
    pub within : lo + count ≤ num_parts
    pub room : count ≤ max_window window
    pub positive : 1 ≤ s.window
    pub narrow : s.window ≤ max_window window

  abbrev pub SlotsSound : Scheduler T → Type 0
  SlotsSound s = (p : ℕ) (r : Result T) → s.slots p ≡ some r → Runs num_parts window task p r

  -- Every result so far is delivered, and none is a failure.
  pub record Going (s : Scheduler T) : Type 0 where
    pub on : s.stopped ≡ false
    pub log : s.delivered ≡ results num_parts window task s.next_result
    pub fine : EachOk num_parts window task s.next_result
    pub slots : SlotsSound s

  pub data Sound (parallel : Bool) (s : Scheduler T) : Type 0 where
    at_rest :
        s.phase ≡ idle
        → s.next_result ≤ num_parts
        → Going s
        → (parallel ≡ true → Windowed s s.next_result)
        → (parallel ≡ false → s.in_flight ≡ [])
        → Sound parallel s
    waits :
        s.phase ≡ awaiting
        → parallel ≡ true
        → s.awaited ≡ s.next_result
        → s.next_result < num_parts
        → Going s
        → Windowed s (suc s.next_result)
        → length s.in_flight < max_window window
        → Sound parallel s
    ended :
        s.phase ≡ idle
        → s.stopped ≡ true
        → s.in_flight ≡ []
        → InOrder num_parts window task s
        → Sound parallel s
    broken :
        s.phase ≡ raised
        → length s.in_flight ≤ max_window window
        → InOrder num_parts window task s
        → Sound parallel s

  -- What Submit does keeps the parts in flight in order.
  pub Puts-Windowed :
      (s t : Scheduler T) (lo : ℕ) (x : Submitted)
      → Windowed s lo
      → Puts num_parts window task (num_parts - s.next_submit) s (x, t)
      → Windowed t lo
  Puts-Windowed s t lo x w (y, k, e, le, free) =
      let size : length s.in_flight ≡ w.count = ap length w.flights ∙ length-count_up lo w.count in
      rw (ap (λ z. z.1) e) (record {
        count = w.count + k;
        flights = rw (w.flights, w.next) (count_up-append lo w.count k);
        next = omega (arith, w.next);
        within = omega (arith, w.next, w.within, le);
        room = ground (arith, w.room, w.narrow, free, size);
        positive = w.positive;
        narrow = w.narrow;
      })

  none-some : {x : Result T} → none ≡ some x → ⊥
  none-some h = ground (arith, h)

  some_injective : {x y : Result T} → some x ≡ some y → x ≡ y
  some_injective h = ground (arith, h)

  pub results-suc :
      (n : ℕ) (r : Result T)
      → task n ≡ r
      → results num_parts window task n ++ (r ∷ []) ≡ results num_parts window task (suc n)
  results-suc n r e = rw e refl

  pub EachOk-suc :
      (n : ℕ) (v : T)
      → task n ≡ ok v
      → EachOk num_parts window task n
      → EachOk num_parts window task (suc n)
  EachOk-suc n v e h =
      (All-append (λ r. is_ok r ≡ true) (results num_parts window task n) (task n ∷ [])).1
        (h, (rw e refl, tt))

  pub put-SlotsSound :
      (s : Scheduler T) (p : ℕ) (r : Result T)
      → SlotsSound s
      → Runs num_parts window task p r
      → SlotsSound (record s { slots = put p r s.slots })
  put-SlotsSound s p r h k q x e = elim (Bool-cases (q == p)) [
    | inl y ↦ rw ((==_iff q p).0 y, sym (some_injective (rw y at e))) k
    | inr n ↦ h q x (rw n at e)
  ]

  pub erase-SlotsSound :
      (s : Scheduler T) (p : ℕ) → SlotsSound s → SlotsSound (record s { slots = erase p s.slots })
  erase-SlotsSound s p h q x e = elim (Bool-cases (q == p)) [
    | inl y ↦ absurd (none-some (rw y at e))
    | inr n ↦ h q x (rw n at e)
  ]
