-- ===== src/Exec/MemoryBudget.antt =====
-- src/exec/memory_budget.cc and memory_budget.h: the memory of a session against a limit. The counters
-- are the 64 bits of an int64: a sum and a difference wrap around, and the sign counts in a comparison.
-- The sizes that a caller gives, and the limit, are at least 0 and below 2^63. The backend pool is a
-- parameter: whether it serves the call.
use antb.Prelude.{
  ℕ, ◌+◌, ◌-◌, ◌/◌, ◌%◌, ◌^◌, ◌≤◌, ◌≡◌, Bool, true, false, not, ◌&&◌, ltb, ◌==◌, max, Option, none,
  some, if◌then◌else◌,
}
pub mod Counters
pub mod Laws

pub record Budget : Type 0 where
  pub limit : Option ℕ
  pub used : ℕ
  pub peak : ℕ

pub data Status : Type 0 where
  ok out_of_memory backend_error : Status

abbrev pub is_ok : Status → Bool
is_ok ok = true
is_ok _ = false

-- a < b of the bits of two int64.
abbrev pub ltb_int64 : ℕ → ℕ → Bool
ltb_int64 a b = ltb ((a + 2 ^ 63) % 2 ^ 64) ((b + 2 ^ 63) % 2 ^ 64)

abbrev pub passes : Option ℕ → ℕ → Bool
passes none now = false
passes (some limit) now = ltb_int64 limit now

unfoldable pub uncharge : Budget → ℕ → Budget
uncharge b bytes = record b { used = (b.used + (2 ^ 64 - bytes)) % 2 ^ 64 }

-- Without other threads: the addition, the test, and the peak that the loop raises to `now`.
unfoldable pub charge : Budget → ℕ → Budget × Status
unfolding uncharge
charge b bytes =
    let now = (b.used + bytes) % 2 ^ 64 in
    let added = record b { used = now } in
    if passes b.limit now
    then (uncharge added bytes, out_of_memory)
    else (record added { peak = if ltb_int64 b.peak now then now else b.peak }, ok)

-- What follows a charge: `served` is the backend's answer.
abbrev after_charge : Budget × Status → ℕ → Bool → Budget × Status
after_charge (b, ok) size served = if served then (b, ok) else (uncharge b size, backend_error)
after_charge (b, e) size served = (b, e)

unfoldable pub allocate : Budget → ℕ → Bool → Budget × Status
unfolding charge
allocate b size served = after_charge (charge b size) size served

-- A growth is charged first; a shrinkage is given back once the backend has served it.
unfoldable pub reallocate : Budget → ℕ → ℕ → Bool → Budget × Status
unfolding charge
reallocate b old_size new_size served =
    if ltb old_size new_size
    then after_charge (charge b (new_size - old_size)) (new_size - old_size) served
    else if not served
    then (b, backend_error)
    else if ltb new_size old_size
    then (uncharge b (old_size - new_size), ok)
    else (b, ok)

unfoldable pub free : Budget → ℕ → Budget
unfolding uncharge
free b size = uncharge b size

unfoldable pub reserve : Budget → ℕ → Budget × Status
unfolding charge
reserve b bytes = if bytes == 0 then (b, ok) else charge b bytes

unfoldable pub release : Budget → ℕ → Budget
unfolding uncharge
release b bytes = if ltb 0 bytes then uncharge b bytes else b

unfoldable pub reset_peak : Budget → Budget
reset_peak b = record b { peak = b.used }

unfoldable pub under_pressure : Budget → Bool
under_pressure b = above b.limit
  where
    above : Option ℕ → Bool
    above none = false
    above (some limit) = ltb_int64 (limit / 2) b.used

-- `MemoryReservation`: the bytes that it holds, and its budget if it has one.
pub record Reservation : Type 0 where
  pub budget : Option Budget
  pub bytes : ℕ

abbrev resized : Budget × Status → Reservation → ℕ → Reservation × Status
resized (b, ok) r bytes = (record { budget = some b; bytes = bytes }, ok)
resized (b, e) r bytes = (record { budget = some b; bytes = r.bytes }, e)

abbrev resize_in : Option Budget → Reservation → ℕ → Reservation × Status
resize_in none r bytes = (record r { bytes = bytes }, ok)
resize_in (some b) r bytes =
    if ltb r.bytes bytes
    then resized (reserve b (bytes - r.bytes)) r bytes
    else (record { budget = some (release b (r.bytes - bytes)); bytes = bytes }, ok)

unfoldable pub resize : Reservation → ℕ → Reservation × Status
unfolding reserve release
resize r bytes = resize_in r.budget r bytes

abbrev release_in : Option Budget → ℕ → Option Budget
release_in none bytes = none
release_in (some b) bytes = some (release b bytes)

unfoldable pub release_reservation : Reservation → Reservation
unfolding release
release_reservation r = record { budget = release_in r.budget r.bytes; bytes = 0 }

-- The old budget, and the reservation with the new one.
unfoldable pub reset : Reservation → Option Budget → Option Budget × Reservation
unfolding release_reservation
reset r budget = ((release_reservation r).budget, record { budget = budget; bytes = 0 })
