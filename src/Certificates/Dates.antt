-- ===== src/Certificates/Dates.antt =====
-- The dates that certificates/variables.py computes with: Python's `date`, `_add_months` and
-- `compute_expiry_date`. `date` has the years from 1 to 9999.
pub mod Days
pub mod Calendar
pub mod Iso
use govahee.Prelude.{
  ℕ, zero, suc, ◌+◌, ◌-◌, ◌*◌, ◌/◌, ◌%◌, String, Bool, ◌&&◌, ◌||◌, not, Option, none, some, ◌==◌,
  ltb, leb, str_eq, if◌then◌else◌,
}
use govahee.Prelude.Int.{ℤ, pos, negsuc, is_zero, twelvefold}
use govahee.Exec.{Error, Result, ok, err, value_error, overflow_error}

pub record Date : Type 0 where
  pub year : ℕ
  pub month : ℕ
  pub day : ℕ

unfoldable pub is_leap : ℕ → Bool
is_leap year = year % 4 == 0 && (not (year % 100 == 0) || year % 400 == 0)

-- `calendar.monthrange(year, month)[1]`
unfoldable pub month_length : ℕ → ℕ → ℕ
month_length year month =
    if month == 2
    then (if is_leap year then 29 else 28)
    else if month == 4 || (month == 6 || (month == 9 || month == 11))
    then 30
    else 31

abbrev pub min : ℕ → ℕ → ℕ
min a b = if leb a b then a else b

-- `a < b` on dates
unfoldable pub before : Date → Date → Bool
before a b =
    ltb a.year b.year
    || (a.year == b.year && (ltb a.month b.month || (a.month == b.month && ltb a.day b.day)))

unfoldable pub next_day : Date → Date
next_day d =
    if ltb d.day (month_length d.year d.month)
    then record d { day = d.day + 1 }
    else if ltb d.month 12
    then record { year = d.year; month = d.month + 1; day = 1 }
    else record { year = d.year + 1; month = 1; day = 1 }

unfoldable pub days_later : ℕ → Date → Date
days_later zero d = d
days_later (suc n) d = days_later n (next_day d)

-- the day before, which the first day of the year 1 has not
unfoldable pub prev_day : Date → Option Date
prev_day d =
    if ltb 1 d.day
    then some (record d { day = d.day - 1 })
    else if ltb 1 d.month
    then some
        (record { year = d.year; month = d.month - 1; day = month_length d.year (d.month - 1) })
    else if ltb 1 d.year
    then some (record { year = d.year - 1; month = 12; day = 31 })
    else none

abbrev pub prev_of : Option Date → Option Date
prev_of none = none
prev_of (some d) = prev_day d

unfoldable pub days_earlier : ℕ → Date → Option Date
days_earlier zero d = some d
days_earlier (suc n) d = prev_of (days_earlier n d)

abbrev pub in_range : Error → Date → Result Date
in_range e d = if leb 1 d.year && leb d.year 9999 then ok d else err e

abbrev pub in_calendar : Option Date → Result Date
in_calendar none = err overflow_error
in_calendar (some d) = in_range overflow_error d

-- `value + timedelta(days=n)`
unfoldable pub add_days : Date → ℤ → Result Date
add_days value (pos n) = in_range overflow_error (days_later n value)
add_days value (negsuc n) = in_calendar (days_earlier (n + 1) value)

-- the month of a count from January of the year 0, 12 for a year, with the day of a date where the
-- month has it
unfoldable pub month_at : Date → ℕ → Date
month_at value count =
    let m = count % 12 + 1 in
    record { year = count / 12; month = m; day = min value.day (month_length (count / 12) m) }

-- `_add_months`: the count is `12 * year + month - 1 + months`, and one below 12, also below 0, is
-- of a year that `date` refuses
unfoldable pub add_months : Date → ℤ → Result Date
add_months value (pos n) =
    in_range value_error (month_at value (12 * value.year + (value.month - 1) + n))
add_months value (negsuc n) =
    in_range value_error (month_at value (12 * value.year + (value.month - 1) - (n + 1)))

abbrev pub expires : Result Date → Result (Option Date)
expires (ok d) = ok (some d)
expires (err e) = err e

-- the modes that have a value
unfoldable pub expiry_by_value : Date → String → ℤ → Result (Option Date)
expiry_by_value issue_date mode value =
    if str_eq mode "days"
    then expires (add_days issue_date value)
    else if str_eq mode "months"
    then expires (add_months issue_date value)
    else if str_eq mode "years"
    then expires (add_months issue_date (twelvefold value))
    else ok none

-- `compute_expiry_date`; the value 0 counts as none
unfoldable pub compute_expiry_date : Date → String → Option ℤ → Result (Option Date)
compute_expiry_date issue_date mode none = ok none
compute_expiry_date issue_date mode (some value) =
    if str_eq mode "" || (str_eq mode "none" || (str_eq mode "date" || is_zero value))
    then ok none
    else expiry_by_value issue_date mode value
