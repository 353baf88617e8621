-- ===== src/Tests/PartScheduler.antt =====
-- Three parts, two at a time: part 0 runs out of memory beside part 1, and runs again alone.
use antb.Prelude.{ℕ, ◌≡◌, refl, Bool, true, false, [], ◌∷◌, inl, inr}
use antb.Exec.PartScheduler.{
  Result, ok, error, out_of_memory, Answer, accepted, Scheduler, start, call, resume, submit,
  submit_loop, done, after_take, put,
}
use antb.Exec.PartScheduler.Steps.{Reachable, starts, steps, calls, finishes, resumes, InOrder}
use antb.Exec.PartScheduler.Order.{Reachable-InOrder}
use antb.Exec.PartScheduler.Bounds.{Reachable-Ahead, Ahead}
use antb.Exec.PartScheduler.Live.{Reachable-Ends, Ends}

abbrev task : ℕ → Result ℕ
task p = ok p

abbrev calm : ℕ → Bool
calm p = false

abbrev takes : ℕ → Answer
takes p = accepted

abbrev called : Scheduler ℕ
called = call 3 2 task calm takes (start 2)

abbrev both_finished : Scheduler ℕ
both_finished = record called { slots = put 0 (error out_of_memory) (put 1 (ok 1) called.slots) }

abbrev retried : Scheduler ℕ
retried = resume 3 2 task false calm takes (error out_of_memory) both_finished

called-Reachable : Reachable 3 2 task true called
unfolding call done submit submit_loop
called-Reachable = steps starts (calls calm takes refl refl refl)

both_finished-Reachable : Reachable 3 2 task true both_finished
unfolding call done submit submit_loop
both_finished-Reachable =
    steps (steps called-Reachable (finishes 1 (ok 1) refl refl (inl refl)))
      (finishes 0 (error out_of_memory) refl refl (inr refl))

retried-Reachable : Reachable 3 2 task true retried
unfolding call done submit submit_loop
retried-Reachable =
    steps both_finished-Reachable (resumes false calm takes (error out_of_memory) refl refl)

-- Part 0's own result is returned, and the parts 1 and 2 are in flight again.
retried_result : retried.delivered ≡ ok 0 ∷ []
unfolding call done submit submit_loop resume after_take
retried_result = refl

retried_flights : retried.in_flight ≡ 1 ∷ 2 ∷ []
unfolding call done submit submit_loop resume after_take
retried_flights = refl

Reachable-InOrder_example : InOrder 3 2 task retried
Reachable-InOrder_example = Reachable-InOrder 3 2 task retried retried-Reachable

Reachable-Ahead_example : Ahead 3 2 task retried retried.phase
Reachable-Ahead_example = Reachable-Ahead 3 2 task retried retried-Reachable

Reachable-Ends_example : Ends 3 2 task true retried
Reachable-Ends_example = Reachable-Ends 3 2 task retried retried-Reachable
