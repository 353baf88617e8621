-- ===== src/Exec/MemoryBudget/Laws.antt =====
-- The bounds that every operation keeps, and what a failure leaves.
use antb.Prelude.{
  ℕ, ◌+◌, ◌-◌, ◌≤◌, ◌≡◌, ◌<◌, ◌%◌, ◌^◌, refl, Bool, true, false, not, ltb, ◌==◌, Option, none, some,
  if◌then◌else◌, arith, inl, inr, Bool-cases, List, [], ◌∷◌, ==_iff, ltb→lt,
}
use antb.Exec.MemoryBudget.{
  Budget, Status, ok, out_of_memory, backend_error, is_ok, passes, uncharge, charge, allocate,
  reallocate, free, reserve, release, reset_peak, Reservation, resize, after_charge, resized,
}
use antb.Exec.MemoryBudget.Counters.{
  IsValid, uncharged-used, Within-lower, uncharge-IsValid, given_back, charge-IsValid,
  after_charge-IsValid,
}

-- A call of the budget, with the backend's answer where it asks for one.
pub data Call : Type 0 where
  allocating : ℕ → Bool → Call
  reallocating : ℕ → ℕ → Bool → Call
  freeing reserving releasing : ℕ → Call
  resetting_peak : Call

unfoldable pub run : Budget → Call → Budget × Status
unfolding allocate reallocate free reserve release reset_peak
run b (allocating size served) = allocate b size served
run b (reallocating old_size new_size served) = reallocate b old_size new_size served
run b (freeing size) = (free b size, ok)
run b (reserving bytes) = reserve b bytes
run b (releasing bytes) = (release b bytes, ok)
run b resetting_peak = (reset_peak b, ok)

-- The bytes that a call takes, and those that it gives back.
abbrev pub taken : Call → ℕ
taken (allocating size served) = size
taken (reallocating old_size new_size served) = new_size
taken (reserving bytes) = bytes
taken _ = 0

abbrev pub returned : Call → ℕ
returned (reallocating old_size new_size served) = old_size
returned (freeing size) = size
returned (releasing bytes) = bytes
returned _ = 0

-- What `reallocate` returns when the buffer does not grow.
abbrev shrunk : Budget → ℕ → Bool → Bool → Budget × Status
shrunk b bytes served smaller =
    if not served then (b, backend_error) else if smaller then (uncharge b bytes, ok) else (b, ok)

shrunk-IsValid :
    (b : Budget) (bytes : ℕ) (served smaller : Bool)
    → IsValid b
    → bytes ≤ b.used
    → IsValid (shrunk b bytes served smaller).0
shrunk-IsValid b bytes false smaller v h = v
shrunk-IsValid b bytes true true v h = uncharge-IsValid b bytes h v
shrunk-IsValid b bytes true false v h = v

reallocate-IsValid :
    (b : Budget) (old_size new_size : ℕ) (served : Bool)
    → IsValid b
    → old_size ≤ b.used
    → b.used + new_size < 2 ^ 63
    → IsValid (reallocate b old_size new_size served).0
unfolding reallocate
reallocate-IsValid b o n served v l k = elim (Bool-cases (ltb o n)) [
  | inl h ↦ rw h (after_charge-IsValid b (n - o) served v (omega arith))
  | inr h ↦ rw h (shrunk-IsValid b (o - n) served (ltb n o) v (omega arith))
]

-- The caller gives back at most what is in use, and the bytes in use stay an int64.
abbrev pub IsFair : Budget → Call → Type 0
IsFair b c = (returned c ≤ b.used) × (b.used + taken c < 2 ^ 63)

run-IsValid : (b : Budget) (c : Call) → IsFair b c → IsValid b → IsValid (run b c).0
unfolding run allocate free reserve release reset_peak
run-IsValid b (allocating size served) (l, h) v = after_charge-IsValid b size served v h
run-IsValid b (reallocating o n served) (l, h) v = reallocate-IsValid b o n served v l h
run-IsValid b (freeing size) (l, h) v = uncharge-IsValid b size l v
run-IsValid b (reserving bytes) (l, h) v = elim (Bool-cases (bytes == 0)) [
  | inl e ↦ rw e v
  | inr e ↦ rw e (charge-IsValid b bytes v h)
]
run-IsValid b (releasing bytes) (l, h) v = elim (Bool-cases (ltb 0 bytes)) [
  | inl e ↦ rw e (uncharge-IsValid b bytes l v)
  | inr e ↦ rw e v
]
run-IsValid b resetting_peak (l, h) v = record {
  peak_fits = omega (arith, v.below_peak, v.peak_fits);
  limit_fits = v.limit_fits;
  below_peak = omega arith;
  below_limit = Within-lower b.limit b.used b.peak v.below_peak v.below_limit;
}

abbrev pub run_all : Budget → List Call → Budget
run_all b [] = b
run_all b (c ∷ cs) = run_all (run b c).0 cs

abbrev pub AreFair : Budget → List Call → Type 0
AreFair b [] = Unit
AreFair b (c ∷ cs) = IsFair b c × AreFair (run b c).0 cs

-- After any sequence of calls on a valid budget, each of which gives back at most what is in use and
-- takes no more than an int64 holds beside it, whatever the backend serves and whatever limit is set,
-- the bytes in use do not pass the peak, nor the peak the limit.
pub run_all-IsValid :
    (b : Budget) (calls : List Call) → AreFair b calls → IsValid b → IsValid (run_all b calls)
run_all-IsValid b [] f v = v
run_all-IsValid b (c ∷ cs) (f, g) v = run_all-IsValid (run b c).0 cs g (run-IsValid b c f v)

abbrev pub Settled : ℕ → ℕ → Budget → Budget × Status → Type 0
Settled more less before (after, ok) = after.used + less ≡ before.used + more
Settled more less before (after, e) = after.used ≡ before.used

charge-Settled : (b : Budget) (size : ℕ) → b.used + size < 2 ^ 63 → Settled size 0 b (charge b size)
unfolding charge uncharge
charge-Settled b size k = elim (Bool-cases (passes b.limit ((b.used + size) % 2 ^ 64))) [
  | inl h ↦ rw h (given_back b.used size k)
  | inr h ↦ rw h (omega (arith, k))
]

after_charge-Settled :
    (b : Budget) (r : Budget × Status) (size : ℕ) (served : Bool)
    → b.used + size < 2 ^ 63
    → Settled size 0 b r
    → Settled size 0 b (after_charge r size served)
unfolding uncharge
after_charge-Settled b (after, ok) size true k h = h
after_charge-Settled b (after, ok) size false k h = omega (arith, h, k)
after_charge-Settled b (after, out_of_memory) size served k h = h
after_charge-Settled b (after, backend_error) size served k h = h

Settled-shift :
    (more less more_shifted less_shifted m : ℕ) (b : Budget) (r : Budget × Status)
    → more_shifted ≡ more + m
    → less_shifted ≡ less + m
    → Settled more less b r
    → Settled more_shifted less_shifted b r
Settled-shift more less ms ls m b (after, ok) e f h = omega (arith, e, f, h)
Settled-shift more less ms ls m b (after, out_of_memory) e f h = h
Settled-shift more less ms ls m b (after, backend_error) e f h = h

shrunk-Settled :
    (b : Budget) (o n : ℕ) (served : Bool)
    → n ≤ o
    → o ≤ b.used
    → b.used < 2 ^ 63
    → Settled n o b (shrunk b (o - n) served (ltb n o))
unfolding uncharge
shrunk-Settled b o n false h le k = refl
shrunk-Settled b o n true h le k = elim (Bool-cases (ltb n o)) [
  | inl e ↦ rw e (omega (arith, uncharged-used b.used (o - n) (omega arith) k))
  | inr e ↦ rw e (ground arith)
]

reallocate-Settled :
    (b : Budget) (o n : ℕ) (served : Bool)
    → o ≤ b.used
    → b.used + n < 2 ^ 63
    → Settled n o b (reallocate b o n served)
unfolding reallocate
reallocate-Settled b o n served le k = elim (Bool-cases (ltb o n)) [
  | inl h ↦ rw h (
      Settled-shift (n - o) 0 n o o b (after_charge (charge b (n - o)) (n - o) served)
        (omega (arith, ltb→lt o n h)) (omega arith)
        (after_charge-Settled b (charge b (n - o)) (n - o) served (omega arith)
          (charge-Settled b (n - o) (omega arith))))
  | inr h ↦ rw h (shrunk-Settled b o n served (ground arith) le (omega arith))
]

-- A call that gives back at most what is in use, and takes no more than an int64 holds beside it, moves
-- the bytes in use by what it takes less what it gives back when it succeeds, and leaves them as they
-- were when it fails, on either error.
pub run-Settled :
    (b : Budget) (c : Call)
    → returned c ≤ b.used
    → b.used + taken c < 2 ^ 63
    → Settled (taken c) (returned c) b (run b c)
unfolding run allocate free reserve release reset_peak uncharge
run-Settled b (allocating size served) le k =
    after_charge-Settled b (charge b size) size served k (charge-Settled b size k)
run-Settled b (reallocating o n served) le k = reallocate-Settled b o n served le k
run-Settled b (freeing size) le k = omega (arith, uncharged-used b.used size le (omega arith))
run-Settled b (reserving bytes) le k = elim (Bool-cases (bytes == 0)) [
  | inl h ↦ rw h (omega (arith, (==_iff bytes 0).0 h))
  | inr h ↦ rw h (charge-Settled b bytes k)
]
run-Settled b (releasing bytes) le k = elim (Bool-cases (ltb 0 bytes)) [
  | inl h ↦ rw h (omega (arith, uncharged-used b.used bytes le (omega arith)))
  | inr h ↦ rw h (ground arith)
]
run-Settled b resetting_peak le k = omega arith

abbrev pub used_in : Option Budget → ℕ
used_in none = 0
used_in (some b) = b.used

-- The reservation and its budget have moved by the same bytes, to the size asked for if it was granted.
pub record Balanced (b : Budget) (held asked : ℕ) (result : Reservation × Status) : Type 0 where
  pub ledger : used_in result.0.budget + held ≡ b.used + result.0.bytes
  pub size : result.0.bytes ≡ (if is_ok result.1 then asked else held)

resized-Balanced :
    (b : Budget) (held asked : ℕ) (r : Budget × Status)
    → held ≤ asked
    → Settled (asked - held) 0 b r
    → Balanced b held asked (resized r (record { budget = some b; bytes = held }) asked)
resized-Balanced b held asked (after, ok) le h = record { ledger = omega (arith, h); size = refl }
resized-Balanced b held asked (after, out_of_memory) le h = record {
  ledger = omega (arith, h);
  size = refl;
}
resized-Balanced b held asked (after, backend_error) le h = record {
  ledger = omega (arith, h);
  size = refl;
}

returned-Balanced :
    (b : Budget) (held asked : ℕ)
    → held ≤ b.used
    → b.used + asked < 2 ^ 63
    → ltb held asked ≡ false
    → Balanced b held asked (record { budget = some (release b (held - asked)); bytes = asked }, ok)
unfolding run
returned-Balanced b held asked le k h =
    let settled = run-Settled b (releasing (held - asked)) (omega arith) (omega arith) in
    let below : asked ≤ held = ground arith in
    record { ledger = omega (arith, settled, below); size = refl }

-- Resizing a reservation whose bytes are in use, to a size that an int64 holds beside them, moves the
-- budget and the reservation by the same bytes;
-- the reservation then has the size asked for when it was granted, and its old size when it was not.
pub resize-Balanced :
    (b : Budget) (held asked : ℕ)
    → held ≤ b.used
    → b.used + asked < 2 ^ 63
    → Balanced b held asked (resize (record { budget = some b; bytes = held }) asked)
unfolding resize run
resize-Balanced b held asked le k = elim (Bool-cases (ltb held asked)) [
  | inl h ↦ rw h (
      resized-Balanced b held asked (reserve b (asked - held)) (ground arith)
        (run-Settled b (reserving (asked - held)) (omega arith) (omega arith)))
  | inr h ↦ rw h (returned-Balanced b held asked le k h)
]
