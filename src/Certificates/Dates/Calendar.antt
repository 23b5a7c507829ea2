-- ===== src/Certificates/Dates/Calendar.antt =====
-- The dates that `compute_expiry_date` of certificates/variables.py gives: days of the calendar, on
-- the side of the day of issue that the value's sign says.
use govahee.Prelude.{
  ℕ, ◌+◌, ◌-◌, ◌*◌, ◌≤◌, ◌<◌, String, ◌≡◌, refl, ap, sym, inl, inr, Bool, true, false, ◌&&◌, ◌||◌,
  Option, none, some, arith, leb, str_eq, Bool-cases, if◌then◌else◌,
}
use govahee.Prelude.Int.{ℤ, pos, negsuc, is_zero, twelvefold}
use govahee.Exec.{Error, Result, ok, err, value_error, overflow_error}
use govahee.Certificates.Dates.{
  Date, month_length, min, days_later, days_earlier, in_range, in_calendar, add_days, month_at,
  add_months, expires, expiry_by_value, compute_expiry_date,
}
use govahee.Certificates.Dates.Days.{
  IsDay, NotAfter, month_length-bounds, days_later-IsDay, Earlier, days_earlier-Earlier,
}

min-bounds : (a b : ℕ) → 1 ≤ a → 28 ≤ b → (1 ≤ min a b) × (min a b ≤ b)
min-bounds a b h k = ground arith

month_at-IsDay : (d : Date) (count : ℕ) → IsDay d → 12 ≤ count → IsDay (month_at d count)
unfolding month_at
month_at-IsDay d count h from =
    let e = month_at d count in
    record {
      year = omega (arith, from);
      month = (omega arith, omega arith);
      day =
          min-bounds d.day (month_length e.year e.month) h.day.0
            (month_length-bounds e.year e.month).0;
    }

month_at_index :
    (d : Date) (count : ℕ) → 12 * (month_at d count).year + (month_at d count).month ≡ count + 1
unfolding month_at
month_at_index d count = omega arith

later_of_index :
    (a b : Date) → IsDay a → IsDay b → 12 * a.year + a.month < 12 * b.year + b.month → NotAfter a b
unfolding NotAfter
later_of_index a b h k lt = ground (arith, h.month, k.month)

-- on which side of a day another one is, by the sign of a number
pub Moved : ℤ → Date → Date → Type 0
Moved (pos n) d x = NotAfter d x
Moved (negsuc n) d x = NotAfter x d

-- what a date of expiry is, for a value that counts
pub Expiry : ℤ → Date → Date → Type 0
Expiry value issue_date x = IsDay x × (x.year ≤ 9999) × Moved value issue_date x

date_or : Date → Result (Option Date) → Date
date_or d (ok none) = d
date_or d (ok (some x)) = x
date_or d (err e) = d

ranged :
    (b : Bool) (e : Error) (d x : Date)
    → expires (if b then ok d else err e) ≡ ok (some x)
    → (b ≡ true) × (x ≡ d)
unfolding date_or
ranged true e d x h = (refl, ap (date_or d) (sym h))
ranged false e d x h = absurd (ground arith)

in_range-inv :
    (e : Error) (y x : Date)
    → expires (in_range e y) ≡ ok (some x)
    → (1 ≤ y.year) × (y.year ≤ 9999) × (x ≡ y)
in_range-inv e y x h =
    let (within, same) = ranged (leb 1 y.year && leb y.year 9999) e y x h in
    (ground (arith, within), ground (arith, within), same)

in_range-Expiry :
    (e : Error) (value : ℤ) (d y x : Date)
    → (1 ≤ y.year → IsDay y × Moved value d y)
    → expires (in_range e y) ≡ ok (some x)
    → Expiry value d x
unfolding Expiry
in_range-Expiry e value d y x there h =
    let (from, to, same) = in_range-inv e y x h in
    let (day, side) = there from in rw (same) (day, to, side)

add_days-Expiry :
    (d : Date) (value : ℤ) (x : Date)
    → IsDay d
    → expires (add_days d value) ≡ ok (some x)
    → Expiry value d x
unfolding add_days Moved Earlier
add_days-Expiry d (pos n) x h e =
    in_range-Expiry overflow_error (pos n) d (days_later n d) x (λ from. days_later-IsDay n d h) e
add_days-Expiry d (negsuc n) x h e =
    go (days_earlier (n + 1) d) (days_earlier-Earlier (n + 1) d h) e
  where
    go :
        (m : Option Date)
        → Earlier d m
        → expires (in_calendar m) ≡ ok (some x)
        → Expiry (negsuc n) d x
    go none there e = absurd (ground arith)
    go (some y) there e = in_range-Expiry overflow_error (negsuc n) d y x (λ from. there) e

-- the count of months of a year is at least 12
counted : (d : Date) (count : ℕ) → 1 ≤ (month_at d count).year → 12 ≤ count
unfolding month_at
counted d count h = omega (arith, h)

add_months-Expiry :
    (d : Date) (value : ℤ) (x : Date)
    → IsDay d
    → is_zero value ≡ false
    → expires (add_months d value) ≡ ok (some x)
    → Expiry value d x
unfolding add_months Moved
add_months-Expiry d (pos n) x h go e =
    let count = 12 * d.year + (d.month - 1) + n in
    let y = month_at d count in
    in_range-Expiry value_error (pos n) d y x
      (λ from.
        let day = month_at-IsDay d count h (counted d count from) in
        let some_months : 1 ≤ n = ground (arith, go) in
        (
          day,
          later_of_index d y h day (omega (arith, month_at_index d count, h.month, some_months)),
        ))
      e
add_months-Expiry d (negsuc n) x h go e =
    let count = 12 * d.year + (d.month - 1) - (n + 1) in
    let y = month_at d count in
    in_range-Expiry value_error (negsuc n) d y x
      (λ from.
        let least = counted d count from in
        let day = month_at-IsDay d count h least in
        (day, later_of_index y d day h (omega (arith, month_at_index d count, h.month, least))))
      e

years-Expiry :
    (value : ℤ) (d x : Date)
    → is_zero value ≡ false
    → (is_zero (twelvefold value) ≡ false → Expiry (twelvefold value) d x)
    → Expiry value d x
unfolding Expiry Moved
years-Expiry (pos n) d x go there = there (ground (arith, go))
years-Expiry (negsuc n) d x go there = there refl

expiry_by_value-Expiry :
    (d : Date) (mode : String) (value : ℤ) (x : Date)
    → IsDay d
    → is_zero value ≡ false
    → expiry_by_value d mode value ≡ ok (some x)
    → Expiry value d x
unfolding expiry_by_value
expiry_by_value-Expiry d mode value x day go h = elim (Bool-cases (str_eq mode "days")) [
  | inl a ↦ add_days-Expiry d value x day (rw (a) at h)
  | inr a ↦ elim (Bool-cases (str_eq mode "months")) [
    | inl b ↦ add_months-Expiry d value x day go (rw (a, b) at h)
    | inr b ↦ elim (Bool-cases (str_eq mode "years")) [
      | inl c ↦
          years-Expiry value d x go
            (λ go12. add_months-Expiry d (twelvefold value) x day go12 (rw (a, b, c) at h))
      | inr c ↦ absurd (ground (arith, rw (a, b, c) at h))
    ]
  ]
]

-- Whatever the mode and the value are, also a negative one, a date of expiry that
-- `compute_expiry_date` gives for a day of the calendar comes from a value that is not 0, and is
-- itself a day of the calendar in a year up to 9999: not before that day, for a positive value, and
-- not after it, for a negative one.
pub compute_expiry_date-Expiry :
    (d : Date) (mode : String) (value : Option ℤ) (x : Date)
    → IsDay d
    → compute_expiry_date d mode value ≡ ok (some x)
    → (n : ℤ) × (value ≡ some n) × (is_zero n ≡ false) × Expiry n d x
unfolding compute_expiry_date
compute_expiry_date-Expiry d mode none x day h = absurd (ground arith)
compute_expiry_date-Expiry d mode (some n) x day h =
    let stops = str_eq mode "" || (str_eq mode "none" || (str_eq mode "date" || is_zero n)) in
    elim (Bool-cases stops) [
      | inl stop ↦ absurd (ground (arith, rw (stop) at h))
      | inr go ↦
          let counts : is_zero n ≡ false = ground (arith, go) in
          (n, refl, counts, expiry_by_value-Expiry d mode n x day counts (rw (go) at h))
    ]

-- how far a count of months is moved
pub Shifted : ℤ → ℕ → ℕ → Type 0
Shifted (pos n) a b = b ≡ a + n
Shifted (negsuc n) a b = b + n + 1 ≡ a

-- `_add_months` moves the count of months, 12 for a year, by exactly the months that are asked
-- for, and takes the day of the month over where the new month has it, its last day where not.
pub add_months_index :
    (d : Date) (value : ℤ) (x : Date)
    → IsDay d
    → add_months d value ≡ ok x
    → Shifted value (12 * d.year + d.month) (12 * x.year + x.month)
      × (x.day ≡ min d.day (month_length x.year x.month))
unfolding add_months Shifted
add_months_index d (pos n) x day h =
    let count = 12 * d.year + (d.month - 1) + n in
    let (from, to, same) = in_range-inv value_error (month_at d count) x (ap expires h) in
    rw (same) (omega (arith, month_at_index d count, day.month), unfold month_at in refl)
add_months_index d (negsuc n) x day h =
    let count = 12 * d.year + (d.month - 1) - (n + 1) in
    let (from, to, same) = in_range-inv value_error (month_at d count) x (ap expires h) in
    let least = counted d count from in
    rw (same) (omega (arith, month_at_index d count, day.month, least), unfold month_at in refl)
