-- ===== src/Exec/MemoryBudget/Counters.antt =====
-- The counters below 2^63, and what a charge leaves of a valid budget.
use antb.Prelude.{
  ℕ, ◌+◌, ◌-◌, ◌≤◌, ◌≡◌, ◌⊎◌, ◌<◌, ◌%◌, ◌^◌, ap, ap₂, Bool, true, false, ltb, max, Option, none,
  some, if◌then◌else◌, arith, inl, inr, Bool-cases,
}
use antb.Exec.MemoryBudget.{
  ltb_int64, Budget, ok, out_of_memory, passes, uncharge, charge, after_charge,
}

abbrev Within : Option ℕ → ℕ → Type 0
Within none n = Unit
Within (some limit) n = n ≤ limit

abbrev Fits : Option ℕ → Type 0
Fits none = Unit
Fits (some limit) = limit < 2 ^ 63

-- The bytes in use do not pass the peak, nor the peak the limit, and none of them is negative as an
-- int64.
pub record IsValid (b : Budget) : Type 0 where
  pub peak_fits : b.peak < 2 ^ 63
  pub limit_fits : Fits b.limit
  pub below_peak : b.used ≤ b.peak
  pub below_limit : Within b.limit b.peak

-- Below 2^63 the arithmetic of the counters is that of the numbers.
ltb_int64-ltb : (a b : ℕ) → a < 2 ^ 63 → b < 2 ^ 63 → ltb_int64 a b ≡ ltb a b
ltb_int64-ltb a b h k = ground (arith, h, k)

charged-used : (used bytes : ℕ) → used + bytes < 2 ^ 63 → (used + bytes) % 2 ^ 64 ≡ used + bytes
charged-used used bytes h = omega (arith, h)

pub uncharged-used :
    (used bytes : ℕ)
    → bytes ≤ used
    → used < 2 ^ 63
    → (used + (2 ^ 64 - bytes)) % 2 ^ 64 ≡ used - bytes
uncharged-used used bytes h k = omega (arith, h, k)

not_passes→Within :
    (limit : Option ℕ) (n : ℕ) → Fits limit → n < 2 ^ 63 → passes limit n ≡ false → Within limit n
not_passes→Within none n f k h = tt
not_passes→Within (some l) n f k h = ground (arith, rw (ltb_int64-ltb l n f k) at h)

Within-max : (limit : Option ℕ) (m n : ℕ) → Within limit m → Within limit n → Within limit (max m n)
Within-max none m n hm hn = tt
Within-max (some l) m n hm hn = omega arith

pub Within-lower : (limit : Option ℕ) (m n : ℕ) → m ≤ n → Within limit n → Within limit m
Within-lower none m n h hn = tt
Within-lower (some l) m n h hn = omega arith

pub uncharge-IsValid :
    (b : Budget) (bytes : ℕ) → bytes ≤ b.used → IsValid b → IsValid (uncharge b bytes)
unfolding uncharge
uncharge-IsValid b bytes h v = record {
  peak_fits = v.peak_fits;
  limit_fits = v.limit_fits;
  below_peak = omega (
    arith,
    uncharged-used b.used bytes h (omega (arith, v.peak_fits, v.below_peak)),
    v.below_peak,
  );
  below_limit = v.below_limit;
}

raised_peak :
    (peak now : ℕ)
    → peak < 2 ^ 63
    → now < 2 ^ 63
    → (if ltb_int64 peak now then now else peak) ≡ max peak now
raised_peak peak now h k = rw (ltb_int64-ltb peak now h k) (ground arith)

pub given_back :
    (used bytes : ℕ)
    → used + bytes < 2 ^ 63
    → ((used + bytes) % 2 ^ 64 + (2 ^ 64 - bytes)) % 2 ^ 64 ≡ used
given_back used bytes h = omega (arith, h)

abbrev charged : Budget → ℕ → Budget
charged b bytes = record b { used = b.used + bytes; peak = max b.peak (b.used + bytes) }

-- A charge leaves the budget as it was, or with more bytes in use and their peak.
charge-cases :
    (b : Budget) (bytes : ℕ)
    → IsValid b
    → b.used + bytes < 2 ^ 63
    → (charge b bytes ≡ (b, out_of_memory))
      ⊎ ((charge b bytes ≡ (charged b bytes, ok)) × Within b.limit (b.used + bytes))
unfolding charge uncharge
charge-cases b bytes v h = elim (Bool-cases (passes b.limit ((b.used + bytes) % 2 ^ 64))) [
  | inl p ↦
      inl
        (rw p (ap (λ (u : ℕ). (record b { used = u }, out_of_memory)) (given_back b.used bytes h)))
  | inr q ↦
      let now = charged-used b.used bytes h in
      let peak : (if ltb_int64 b.peak ((b.used + bytes) % 2 ^ 64)
            then (b.used + bytes) % 2 ^ 64
            else b.peak)
          ≡ max b.peak (b.used + bytes) =
        rw now (raised_peak b.peak (b.used + bytes) v.peak_fits h) in
      inr (
        rw q (ap₂ (λ (u k : ℕ). (record b { used = u; peak = k }, ok)) now peak),
        not_passes→Within b.limit (b.used + bytes) v.limit_fits h (rw now at q),
      )
]

charged-IsValid :
    (b : Budget) (bytes : ℕ)
    → IsValid b
    → b.used + bytes < 2 ^ 63
    → Within b.limit (b.used + bytes)
    → IsValid (charged b bytes)
charged-IsValid b bytes v h w = record {
  peak_fits = omega (arith, v.peak_fits, h);
  limit_fits = v.limit_fits;
  below_peak = omega arith;
  below_limit = Within-max b.limit b.peak (b.used + bytes) v.below_limit w;
}

pub charge-IsValid :
    (b : Budget) (bytes : ℕ) → IsValid b → b.used + bytes < 2 ^ 63 → IsValid (charge b bytes).0
charge-IsValid b bytes v h = elim (charge-cases b bytes v h) [
  | inl e ↦ rw e v
  | inr (e, w) ↦ rw e (charged-IsValid b bytes v h w)
]

served-IsValid :
    (b : Budget) (bytes : ℕ) (served : Bool)
    → IsValid b
    → bytes ≤ b.used
    → IsValid (after_charge (b, ok) bytes served).0
served-IsValid b bytes true v h = v
served-IsValid b bytes false v h = uncharge-IsValid b bytes h v

pub after_charge-IsValid :
    (b : Budget) (bytes : ℕ) (served : Bool)
    → IsValid b
    → b.used + bytes < 2 ^ 63
    → IsValid (after_charge (charge b bytes) bytes served).0
after_charge-IsValid b bytes served v h = elim (charge-cases b bytes v h) [
  | inl e ↦ rw e v
  | inr (e, w) ↦
      rw e (
        served-IsValid (charged b bytes) bytes served (charged-IsValid b bytes v h w) (omega arith))
]
