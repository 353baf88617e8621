-- ===== src/Exec/PartScheduler/Steps.antt =====
-- The steps of the scheduler and its executor, in any order, and what Next has returned so far.
use antb.Prelude.{
  ℕ, zero, suc, ◌==◌, ◌||◌, Bool, true, false, none, some, List, [], ◌∷◌, ◌++◌, ◌≡◌, ◌⊎◌, ◌≤◌, All,
}
use antb.Exec.PartScheduler.{
  Failure, out_of_memory, Result, ok, error, Answer, Phase, idle, awaiting, raised, Scheduler,
  take_slot, put, stop, start, done, call, resume, call_alone,
}

abbrev pub is_among : ℕ → List ℕ → Bool
is_among p [] = false
is_among p (k ∷ ks) = k == p || is_among p ks

-- The parts whose tasks the executor has: those in flight, and the one that Next waits for.
abbrev pub tasks_at : {T : Type 0} → Phase → Scheduler T → List ℕ
tasks_at awaiting s = s.awaited ∷ s.in_flight
tasks_at _ s = s.in_flight

-- The next part that no call of Next has asked for.
abbrev pub first_ahead : {T : Type 0} → Phase → Scheduler T → ℕ
first_ahead awaiting s = suc s.next_result
first_ahead _ s = s.next_result

abbrev pub is_raised : Phase → Bool
is_raised raised = true
is_raised _ = false

abbrev pub is_idle : Phase → Bool
is_idle idle = true
is_idle _ = false

abbrev pub is_waiting : Phase → Bool
is_waiting awaiting = true
is_waiting _ = false

abbrev pub is_ok : {T : Type 0} → Result T → Bool
is_ok (ok v) = true
is_ok (error e) = false

module _ {T : Type 0} (num_parts window : ℕ) (task : ℕ → Result T) where
  -- What a task may leave when it runs beside others: its result, or that it ran out of memory.
  abbrev pub Runs : ℕ → Result T → Type 0
  Runs p r = (r ≡ task p) ⊎ (r ≡ error out_of_memory)

  -- `parallel` tells whether there is an executor.
  pub data Step (parallel : Bool) (s : Scheduler T) : Scheduler T → Type 0 where
    finishes :
        (p : ℕ) (r : Result T)
        → is_among p (tasks_at s.phase s) ≡ true
        → s.slots p ≡ none
        → Runs p r
        → Step parallel s (record s { slots = put p r s.slots })
    calls :
        (pressure : ℕ → Bool) (answer : ℕ → Answer)
        → parallel ≡ true
        → s.phase ≡ idle
        → done num_parts window task s ≡ false
        → Step parallel s (call num_parts window task pressure answer s)
    resumes :
        (now : Bool) (pressure : ℕ → Bool) (answer : ℕ → Answer) (r : Result T)
        → s.phase ≡ awaiting
        → s.slots s.awaited ≡ some r
        → Step parallel s
            (resume num_parts window task now pressure answer (take_slot (s.slots s.next_result)) s)
    calls_alone :
        parallel ≡ false
        → s.phase ≡ idle
        → done num_parts window task s ≡ false
        → Step parallel s (call_alone num_parts window task s)
    stops : is_waiting s.phase ≡ false → s.stopped ≡ false → Step parallel s (stop s)

  pub data Reachable (parallel : Bool) : Scheduler T → Type 0 where
    starts : Reachable parallel (start window)
    steps : {s t : Scheduler T} → Reachable parallel s → Step parallel s t → Reachable parallel t

  -- The results of the parts 0 to n - 1, run one after another.
  abbrev pub results : ℕ → List (Result T)
  results zero = []
  results (suc n) = results n ++ (task n ∷ [])

  abbrev pub EachOk : ℕ → Type 0
  EachOk n = All (λ r. is_ok r ≡ true) (results n)

  -- The results in order; behind those that are fine, at most one failure: that of the next part, or
  -- of Submit. A scheduler that goes on has every result so far.
  pub record InOrder (s : Scheduler T) : Type 0 where
    pub parts : ℕ
    pub within : parts ≤ num_parts
    pub fine : EachOk parts
    pub running :
        (s.stopped ≡ true)
        ⊎ (is_idle s.phase ≡ false)
        ⊎ ((s.next_result ≤ num_parts) × (s.delivered ≡ results s.next_result))
    pub log :
        (s.delivered ≡ results parts)
        ⊎ ((e : Failure) × (s.delivered ≡ results parts ++ (error e ∷ []))
            × ((task parts ≡ error e) ⊎ (s.refusal ≡ some e)))
