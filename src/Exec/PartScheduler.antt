-- ===== src/Exec/PartScheduler.antt =====
-- src/exec/part_scheduler.h: parts that run ahead of the consumer. The consumer's calls are
-- functions on the scheduler; a call of Next is split where it waits for its part, since the tasks
-- that run in between belong to the executor. What the budget and the executor answer are arguments
-- of each call, by the part they are asked about. Windows and numbers of parts are below 2^63 - 1, so
-- that no int64 overflows.
use antb.Prelude.{
  ℕ, zero, suc, ◌-◌, ◌+◌, ◌/◌, ltb, ◌==◌, ◌&&◌, ◌||◌, not, min, max, Bool, true, false, Option,
  none, some, List, [], ◌∷◌, ◌++◌, length, if◌then◌else◌,
}
pub mod Steps
pub mod Submit
pub mod Sound
pub mod Alike
pub mod Takes
pub mod Calls
pub mod Order
pub mod Bounds
pub mod Pending
pub mod Lower
pub mod Live

-- A status that is not OK.
pub data Failure : Type 0 where
  out_of_memory invalid : Failure
  other : ℕ → Failure

-- `arrow::Result`.
pub data Result (T : Type 0) : Type 0 where
  ok : T → Result T
  error : Failure → Result T

-- What the executor's Submit does: it takes the task, returns a status, throws std::bad_alloc, or
-- throws something else.
pub data Answer : Type 0 where
  accepted : Answer
  refused : Failure → Answer
  bad_alloc thrown : Answer

-- Where the consumer's thread is: outside of Next, in Take at the wait for its part, behind an
-- exception, or at the front of an empty queue, which is undefined.
pub data Phase : Type 0 where
  idle awaiting raised undefined : Phase

abbrev pub Slots : Type 0 → Type 0
Slots T = ℕ → Option (Result T)

-- A future is the part of its task, and is done once the task has left its result in a slot.
-- `awaited` is the future that Take took from the front, where it waits. `delivered` and `refusal`
-- record what Next has returned and the failure of Submit, if any.
pub record Scheduler (T : Type 0) : Type 0 where
  pub next_submit : ℕ
  pub next_result : ℕ
  pub window : ℕ
  pub stopped : Bool
  pub in_flight : List ℕ
  pub awaited : ℕ
  pub slots : Slots T
  pub phase : Phase
  pub delivered : List (Result T)
  pub refusal : Option Failure

abbrev pub max_window : ℕ → ℕ
max_window window = if ltb window 1 then 1 else window

abbrev pub no_slots : {T : Type 0} → Slots T
no_slots k = none

-- `insert_or_assign` and `erase`.
abbrev pub put : {T : Type 0} → ℕ → Result T → Slots T → Slots T
put p r slots k = if k == p then some r else slots k

abbrev pub erase : {T : Type 0} → ℕ → Slots T → Slots T
erase p slots k = if k == p then none else slots k

-- `TakeSlot`: a part without a result is Invalid.
abbrev pub take_slot : {T : Type 0} → Option (Result T) → Result T
take_slot none = error invalid
take_slot (some r) = r

abbrev pub is_empty : List ℕ → Bool
is_empty [] = true
is_empty (p ∷ ps) = false

-- How a call of Submit ends.
pub data Submitted : Type 0 where
  filled exception : Submitted
  failed : Failure → Submitted

-- `Drop`, and `Stop`.
abbrev pub drop_flights : {T : Type 0} → Scheduler T → Scheduler T
drop_flights s = record s { in_flight = []; slots = no_slots }

abbrev pub stop : {T : Type 0} → Scheduler T → Scheduler T
stop s = record s { stopped = true; in_flight = []; slots = no_slots }

abbrev pub submit_part : {T : Type 0} → Scheduler T → Scheduler T
submit_part s = record s {
  in_flight = s.in_flight ++ (s.next_submit ∷ []);
  next_submit = suc s.next_submit;
}

abbrev pub after_answer :
    {T : Type 0} → Answer → Submitted × Scheduler T → Scheduler T → Submitted × Scheduler T
after_answer accepted more s = more
after_answer (refused e) more s = (failed e, s)
after_answer bad_alloc more s = (failed out_of_memory, s)
after_answer thrown more s = (exception, s)

-- What Next returns, counted as taken.
abbrev pub deliver : {T : Type 0} → Result T → Scheduler T → Scheduler T
deliver r s = record s { delivered = s.delivered ++ (r ∷ []) }

abbrev pub pop_front : {T : Type 0} → List ℕ → Scheduler T → Scheduler T
pop_front [] s = record s { phase = undefined }
pop_front (p ∷ ps) s = record s { in_flight = ps; awaited = p; phase = awaiting }

abbrev pub start : {T : Type 0} → ℕ → Scheduler T
start window = record {
  next_submit = 0;
  next_result = 0;
  window = max_window window;
  stopped = false;
  in_flight = [];
  awaited = 0;
  slots = no_slots;
  phase = idle;
  delivered = [];
  refusal = none;
}

-- The number of parts, the window asked for, and what a part's task returns when it runs alone.
module _ {T : Type 0} (num_parts window : ℕ) (task : ℕ → Result T) where
  unfoldable pub done : Scheduler T → Bool
  done s = s.stopped || not (ltb s.next_result num_parts)

  -- The loop of `Submit`, with a unit of fuel for each part that is left.
  unfoldable pub submit_loop : ℕ → (ℕ → Bool) → (ℕ → Answer) → Scheduler T → Submitted × Scheduler T
  submit_loop zero pressure answer s = (filled, s)
  submit_loop (suc n) pressure answer s =
      let more = submit_loop n pressure answer (submit_part s) in
      if s.stopped || not (ltb s.next_submit num_parts) || not (ltb (length s.in_flight) s.window)
      then (filled, s)
      else if not (is_empty s.in_flight) && pressure s.next_submit
      then (filled, s)
      else after_answer (answer s.next_submit) more s

  unfoldable pub submit : (ℕ → Bool) → (ℕ → Answer) → Scheduler T → Submitted × Scheduler T
  unfolding submit_loop
  submit pressure answer s = submit_loop (num_parts - s.next_submit) pressure answer s

  -- Next, where Take gives a failure: the part counts as taken, and the scheduler stops.
  abbrev pub fail : Failure → Scheduler T → Scheduler T
  fail e s = stop (deliver (error e) (record s { next_result = suc s.next_result; phase = idle }))

  abbrev pub begin_wait : Submitted × Scheduler T → Scheduler T
  begin_wait (filled, s) = pop_front s.in_flight s
  begin_wait (failed e, s) = fail e (record s { refusal = some e })
  begin_wait (exception, s) = record s { phase = raised }

  -- Next with an executor, up to the wait for its part. Where it is done it returns Invalid.
  unfoldable pub call : (ℕ → Bool) → (ℕ → Answer) → Scheduler T → Scheduler T
  unfolding submit done
  call pressure answer s = if done s then s else begin_wait (submit pressure answer s)

  -- Out of memory in parallel: the parts ahead are dropped.
  abbrev pub retry : Scheduler T → Scheduler T
  retry s = record (drop_flights s) { next_submit = suc s.next_result; window = 1 }

  abbrev pub adapt : Bool → ℕ → ℕ
  adapt now w = if now then max 1 (w / 2) else min (max_window window) (w + 1)

  abbrev pub after_refill : T → Submitted × Scheduler T → Scheduler T
  after_refill v (filled, s) = deliver (ok v) s
  after_refill v (failed e, s) = stop (deliver (error e) (record s { refusal = some e }))
  after_refill v (exception, s) = record s { phase = raised }

  -- Next behind Take: the window adapts and is filled again.
  unfoldable pub after_take :
      Bool → (ℕ → Bool) → (ℕ → Answer) → Result T → Scheduler T → Scheduler T
  unfolding submit
  after_take now pressure answer (error e) s = fail e s
  after_take now pressure answer (ok v) s = after_refill v (
      submit pressure answer
        (record s { next_result = suc s.next_result; window = adapt now s.window; phase = idle }))

  -- Next from the end of the wait on, with what TakeSlot gave.
  unfoldable pub resume : Bool → (ℕ → Bool) → (ℕ → Answer) → Result T → Scheduler T → Scheduler T
  unfolding after_take
  resume now pressure answer (error out_of_memory) s =
      after_take now pressure answer (task s.next_result) (retry s)
  resume now pressure answer r s =
      after_take now pressure answer r (record s { slots = erase s.next_result s.slots })

  -- Next without an executor.
  abbrev pub after_alone : Result T → Scheduler T → Scheduler T
  after_alone (error e) s = fail e s
  after_alone (ok v) s = deliver (ok v) (record s { next_result = suc s.next_result })

  unfoldable pub call_alone : Scheduler T → Scheduler T
  unfolding done
  call_alone s = if done s then s else after_alone (task s.next_result) s
