-- ===== src/Certificates/Dates/Days.antt =====
-- The calendar of Python's `date`: its days, their order, and the days after and before a day.
use govahee.Prelude.{
  ℕ, zero, suc, ◌+◌, ◌-◌, ◌≤◌, ◌<◌, ◌≡◌, refl, ◌⊎◌, inl, inr, Option, none, some, arith, ltb,
  Bool-cases,
}
use govahee.Certificates.Dates.{
  Date, month_length, next_day, days_later, prev_day, prev_of, days_earlier,
}

-- the days that there are, in a year from 1 on
pub record IsDay (d : Date) : Type 0 where
  pub year : 1 ≤ d.year
  pub month : (1 ≤ d.month) × (d.month ≤ 12)
  pub day : (1 ≤ d.day) × (d.day ≤ month_length d.year d.month)

pub month_length-bounds : (y m : ℕ) → (28 ≤ month_length y m) × (month_length y m ≤ 31)
unfolding month_length
month_length-bounds y m = ground arith

-- the order of the calendar, reflexive
unfoldable pub NotAfter : Date → Date → Type 0
NotAfter a b =
    (a.year < b.year)
    ⊎ ((a.year ≡ b.year) × ((a.month < b.month) ⊎ ((a.month ≡ b.month) × (a.day ≤ b.day))))

NotAfter-refl : (d : Date) → NotAfter d d
unfolding NotAfter
NotAfter-refl d = inr (refl, inr (refl, omega arith))

NotAfter-trans : (a b c : Date) → NotAfter a b → NotAfter b c → NotAfter a c
unfolding NotAfter
NotAfter-trans a b c h k = ground arith

next_day-IsDay : (d : Date) → IsDay d → IsDay (next_day d)
unfolding next_day
next_day-IsDay d h = elim (Bool-cases (ltb d.day (month_length d.year d.month))) [
  | inl inside ↦
      rw (inside) (record { year = h.year; month = h.month; day = ground (arith, inside) })
  | inr last ↦ elim (Bool-cases (ltb d.month 12)) [
    | inl early ↦
        rw (last, early)
          (record {
            year = h.year;
            month = ground (arith, early);
            day = (omega arith, omega (arith, (month_length-bounds d.year (d.month + 1)).0));
          })
    | inr december ↦
        rw (last, december)
          (record {
            year = omega arith;
            month = (omega arith, omega arith);
            day = (omega arith, omega (arith, (month_length-bounds (d.year + 1) 1).0));
          })
  ]
]

next_day_later : (d : Date) → NotAfter d (next_day d)
unfolding next_day NotAfter
next_day_later d = ground arith

pub days_later-IsDay :
    (n : ℕ) (d : Date) → IsDay d → IsDay (days_later n d) × NotAfter d (days_later n d)
unfolding days_later
days_later-IsDay zero d h = (h, NotAfter-refl d)
days_later-IsDay (suc n) d h =
    let (day, later) = days_later-IsDay n (next_day d) (next_day-IsDay d h) in
    (day, NotAfter-trans d (next_day d) (days_later n (next_day d)) (next_day_later d) later)

-- a day that is not after another, if there is one
unfoldable pub Earlier : Date → Option Date → Type 0
Earlier d none = Unit {0}
Earlier d (some x) = IsDay x × NotAfter x d

prev_day-Earlier : (d : Date) → IsDay d → Earlier d (prev_day d)
unfolding prev_day Earlier NotAfter
prev_day-Earlier d h = elim (Bool-cases (ltb 1 d.day)) [
  | inl inside ↦ rw (inside) (
    record { year = h.year; month = h.month; day = (ground (arith, inside), omega (arith, h.day)) },
    inr (refl, inr (refl, omega arith)),
  )
  | inr first_ ↦ elim (Bool-cases (ltb 1 d.month)) [
    | inl later ↦
        rw (first_, later)
          (
            record {
              year = h.year;
              month = (ground (arith, later), omega (arith, h.month));
              day = (omega (arith, (month_length-bounds d.year (d.month - 1)).0), omega arith);
            },
            inr (refl, inl (ground (arith, h.month))),
          )
    | inr january ↦ elim (Bool-cases (ltb 1 d.year)) [
      | inl second ↦
          rw (first_, january, second)
            (
              record {
                year = ground (arith, second);
                month = (omega arith, omega arith);
                day = (omega arith, unfold month_length in omega arith);
              },
              inl (ground (arith, second)),
            )
      | inr start ↦ rw (first_, january, start) tt
    ]
  ]
]

pub days_earlier-Earlier : (n : ℕ) (d : Date) → IsDay d → Earlier d (days_earlier n d)
unfolding days_earlier Earlier
days_earlier-Earlier zero d h = (h, NotAfter-refl d)
days_earlier-Earlier (suc n) d h = go (days_earlier n d) (days_earlier-Earlier n d h)
  where
    onward : (y : Date) (m : Option Date) → NotAfter y d → Earlier y m → Earlier d m
    onward y none before_d e = tt
    onward y (some x) before_d (day, before_y) = (day, NotAfter-trans x y d before_y before_d)

    go : (m : Option Date) → Earlier d m → Earlier d (prev_of m)
    go none e = tt
    go (some y) (day, before_d) = onward y (prev_day y) before_d (prev_day-Earlier y day)
