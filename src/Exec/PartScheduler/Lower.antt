-- ===== src/Exec/PartScheduler/Lower.antt =====
-- Each step of the scheduler leaves less to do: fewer calls of Next, or fewer tasks without a result.
use antb.Prelude.{
  ℕ, suc, ◌-◌, ◌+◌, ◌*◌, ◌≤◌, ◌<◌, ◌||◌, Bool, true, false, List, [], ◌∷◌, ◌≡◌, ◌⊎◌, inl, inr, refl,
  ap, arith,
}
use antb.Exec.PartScheduler.{
  Result, ok, error, out_of_memory, invalid, other, Answer, Submitted, filled, failed, exception,
  Phase, idle, awaiting, raised, undefined, Scheduler, Slots, put, pop_front, done, begin_wait,
  call, resume, call_alone, retry, erase, after_take, after_refill, after_alone,
}
use antb.Exec.PartScheduler.Steps.{
  is_raised, is_idle, tasks_at, Step, finishes, calls, resumes, calls_alone, stops,
}
use antb.Exec.PartScheduler.Sound.{Sound, at_rest, waits, ended, broken}
use antb.Exec.PartScheduler.Order.{done-below, done-on}
use antb.Exec.PartScheduler.Submit.{Puts, submit-Puts, with_flights}
use antb.Exec.PartScheduler.Pending.{pending, pending-put}

-- Twice the calls of Next that are left, and one more between two calls.
abbrev left : ℕ → Phase → ℕ → ℕ
left num_parts idle n = suc (2 * (num_parts - n))
left num_parts _ n = 2 * (num_parts - n)

-- The calls of Stop that are left.
abbrev stops_left : Bool → ℕ
stops_left true = 0
stops_left false = 1

module _ {T : Type 0} (num_parts window : ℕ) (task : ℕ → Result T) where
  -- Every result is taken, the scheduler was stopped, or the executor threw.
  abbrev pub is_over : Scheduler T → Bool
  is_over s = done num_parts window task s || is_raised s.phase

  abbrev pub left_in : Scheduler T → ℕ
  left_in s = stops_left s.stopped + left num_parts s.phase s.next_result

  abbrev pub pending_in : Scheduler T → ℕ
  pending_in s = pending s.slots (tasks_at s.phase s)

  abbrev Lower : Scheduler T → Scheduler T → Type 0
  Lower s t = (left_in t < left_in s) ⊎ ((left_in t ≡ left_in s) × (pending_in t < pending_in s))

  tasks_at-slots :
      (p : Phase) (s : Scheduler T) (h : Slots T)
      → tasks_at p (record s { slots = h }) ≡ tasks_at p s
  tasks_at-slots idle s h = refl
  tasks_at-slots awaiting s h = refl
  tasks_at-slots raised s h = refl
  tasks_at-slots undefined s h = refl

  stops_left_less : (a b : Bool) (m n : ℕ) → a ≡ false → n < m → stops_left b + n < stops_left a + m
  stops_left_less a true m n e l = rw e (omega (arith, l))
  stops_left_less a false m n e l = rw e (omega (arith, l))

  -- A scheduler that was not stopped has less to do where less is left of the calls of Next.
  less-Lower :
      (s t : Scheduler T)
      → s.stopped ≡ false
      → left num_parts t.phase t.next_result < left num_parts s.phase s.next_result
      → Lower s t
  less-Lower s t o l = inl (stops_left_less s.stopped t.stopped _ _ o l)

  called_less :
      (p q : Phase) (m n : ℕ)
      → p ≡ idle
      → is_idle q ≡ false
      → m ≡ n
      → left num_parts q m < left num_parts p n
  called_less p idle m n e f g = ground (arith, f)
  called_less p awaiting m n e f g = rw (e, g) (omega arith)
  called_less p raised m n e f g = rw (e, g) (omega arith)
  called_less p undefined m n e f g = rw (e, g) (omega arith)

  left-phase :
      (p : Phase) (n : ℕ)
      → (2 * (num_parts - n) ≤ left num_parts p n)
        × (left num_parts p n ≤ suc (2 * (num_parts - n)))
  left-phase idle n = (omega arith, omega arith)
  left-phase awaiting n = (omega arith, omega arith)
  left-phase raised n = (omega arith, omega arith)
  left-phase undefined n = (omega arith, omega arith)

  taken_less :
      (p q : Phase) (m n : ℕ) → n ≡ suc m → m < num_parts → left num_parts q n < left num_parts p m
  taken_less p q m n e l = omega (arith, (left-phase p m).0, (left-phase q n).1, e, l)

  pub raised-over : (s : Scheduler T) → s.phase ≡ raised → is_over s ≡ true
  raised-over s h = rw h (ground arith)

  pub stopped-over : (s : Scheduler T) → s.stopped ≡ true → is_over s ≡ true
  unfolding done
  stopped-over s h = ground (arith, h)

  pop_front-Lower :
      (s : Scheduler T) (ps : List ℕ) (t : Scheduler T)
      → s.stopped ≡ false
      → s.phase ≡ idle
      → t.next_result ≡ s.next_result
      → Lower s (pop_front ps t)
  pop_front-Lower s [] t o i n =
      less-Lower s (pop_front [] t) o (called_less s.phase undefined _ _ i refl n)
  pop_front-Lower s (p ∷ ps) t o i n =
      less-Lower s (pop_front (p ∷ ps) t) o (called_less s.phase awaiting _ _ i refl n)

  begin_wait-Lower :
      (s : Scheduler T) (x : Submitted) (t : Scheduler T)
      → s.stopped ≡ false
      → s.next_result < num_parts
      → s.phase ≡ idle
      → t.next_result ≡ s.next_result
      → Lower s (begin_wait num_parts window task (x, t))
  begin_wait-Lower s filled t o l i n = pop_front-Lower s t.in_flight t o i n
  begin_wait-Lower s (failed e) t o l i n =
      less-Lower s (begin_wait num_parts window task (failed e, t)) o
        (taken_less s.phase idle _ _ (ap suc n) l)
  begin_wait-Lower s exception t o l i n =
      less-Lower s (begin_wait num_parts window task (exception, t)) o
        (called_less s.phase raised _ _ i refl n)

  after_refill-Lower :
      (s : Scheduler T) (v : T) (x : Submitted) (t : Scheduler T)
      → s.stopped ≡ false
      → t.next_result ≡ suc s.next_result
      → s.next_result < num_parts
      → Lower s (after_refill num_parts window task v (x, t))
  after_refill-Lower s v filled t o n l =
      less-Lower s (after_refill num_parts window task v (filled, t)) o
        (taken_less s.phase t.phase _ _ n l)
  after_refill-Lower s v (failed e) t o n l =
      less-Lower s (after_refill num_parts window task v (failed e, t)) o
        (taken_less s.phase t.phase _ _ n l)
  after_refill-Lower s v exception t o n l =
      less-Lower s (after_refill num_parts window task v (exception, t)) o
        (taken_less s.phase raised _ _ n l)

  Puts-refill-Lower :
      (s : Scheduler T) (v : T) (u : Scheduler T) (r : Submitted × Scheduler T)
      → s.stopped ≡ false
      → u.next_result ≡ suc s.next_result
      → s.next_result < num_parts
      → Puts num_parts window task (num_parts - u.next_submit) u r
      → Lower s (after_refill num_parts window task v r)
  Puts-refill-Lower s v u r o n l (x, k, e, le, free) =
      rw e (after_refill-Lower s v x (with_flights k u) o n l)

  after_take-Lower :
      (s u : Scheduler T) (now : Bool) (pressure : ℕ → Bool) (answer : ℕ → Answer) (r : Result T)
      → s.stopped ≡ false
      → u.next_result ≡ s.next_result
      → s.next_result < num_parts
      → Lower s (after_take num_parts window task now pressure answer r u)
  unfolding after_take
  after_take-Lower s u now pressure answer (error e) o n l =
      less-Lower s (after_take num_parts window task now pressure answer (error e) u) o
        (taken_less s.phase idle _ _ (ap suc n) l)
  after_take-Lower s u now pressure answer (ok v) o n l =
      Puts-refill-Lower s v _ _ o (ap suc n) l (submit-Puts num_parts window task pressure answer _)

  taken-Lower :
      (s : Scheduler T) (now : Bool) (pressure : ℕ → Bool) (answer : ℕ → Answer) (r : Result T)
      → s.stopped ≡ false
      → s.next_result < num_parts
      → Lower s (
          after_take num_parts window task now pressure answer r
            (record s { slots = erase s.next_result s.slots }))
  taken-Lower s now pressure answer r o l =
      after_take-Lower s (record s { slots = erase s.next_result s.slots }) now pressure answer r o
        refl l

  resume-Lower :
      (s : Scheduler T) (now : Bool) (pressure : ℕ → Bool) (answer : ℕ → Answer) (r : Result T)
      → s.stopped ≡ false
      → s.next_result < num_parts
      → Lower s (resume num_parts window task now pressure answer r s)
  unfolding resume
  resume-Lower s now pressure answer (error out_of_memory) o l =
      after_take-Lower s (retry num_parts window task s) now pressure answer (task s.next_result) o
        refl l
  resume-Lower s now pressure answer (error invalid) o l =
      taken-Lower s now pressure answer (error invalid) o l
  resume-Lower s now pressure answer (error (other n)) o l =
      taken-Lower s now pressure answer (error (other n)) o l
  resume-Lower s now pressure answer (ok v) o l = taken-Lower s now pressure answer (ok v) o l

  after_alone-Lower :
      (s : Scheduler T) (r : Result T)
      → s.stopped ≡ false
      → s.next_result < num_parts
      → Lower s (after_alone num_parts window task r s)
  after_alone-Lower s (error e) o l =
      less-Lower s (after_alone num_parts window task (error e) s) o
        (taken_less s.phase idle _ _ refl l)
  after_alone-Lower s (ok v) o l =
      less-Lower s (after_alone num_parts window task (ok v) s) o
        (taken_less s.phase s.phase _ _ refl l)

  call_alone-Lower :
      (s : Scheduler T)
      → done num_parts window task s ≡ false
      → Lower s (call_alone num_parts window task s)
  unfolding call_alone
  call_alone-Lower s d = rw d (
      after_alone-Lower s (task s.next_result) (done-on num_parts window task s d)
        (done-below num_parts window task s d))

  called-Lower :
      (s : Scheduler T) (r : Submitted × Scheduler T)
      → done num_parts window task s ≡ false
      → s.phase ≡ idle
      → Puts num_parts window task (num_parts - s.next_submit) s r
      → Lower s (begin_wait num_parts window task r)
  called-Lower s r d i (x, k, e, le, free) = rw e (
      begin_wait-Lower s x (with_flights k s) (done-on num_parts window task s d)
        (done-below num_parts window task s d) i refl)

  call-Lower :
      (s : Scheduler T) (pressure : ℕ → Bool) (answer : ℕ → Answer)
      → s.phase ≡ idle
      → done num_parts window task s ≡ false
      → Lower s (call num_parts window task pressure answer s)
  unfolding call
  call-Lower s pressure answer i d =
      rw d (called-Lower s _ d i (submit-Puts num_parts window task pressure answer s))

  awaiting-below :
      {parallel : Bool} (s : Scheduler T)
      → Sound num_parts window task parallel s
      → s.phase ≡ awaiting
      → (s.stopped ≡ false) × (s.next_result < num_parts)
  awaiting-below s (waits i y a l g w b) h = (g.on, l)
  awaiting-below s (at_rest i l g w a) h = ground (arith, i, h)
  awaiting-below s (ended i o f k) h = ground (arith, i, h)
  awaiting-below s (broken i n k) h = ground (arith, i, h)

  pub Lower-step :
      {parallel : Bool} (s t : Scheduler T)
      → Sound num_parts window task parallel s
      → Step num_parts window task parallel s t
      → Lower s t
  Lower-step s t h (finishes p r a f k) = inr (
    refl,
    rw (tasks_at-slots s.phase s (put p r s.slots))
        (pending-put s.slots p r (tasks_at s.phase s) a f),
  )
  Lower-step s t h (calls pressure answer y i d) = call-Lower s pressure answer i d
  Lower-step s t h (resumes now pressure answer r i k) =
      let (o, l) = awaiting-below s h i in resume-Lower s now pressure answer _ o l
  Lower-step s t h (calls_alone y i d) = call_alone-Lower s d
  Lower-step s t h (stops i k) = inl (rw k (omega arith))
