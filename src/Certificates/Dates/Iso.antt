-- ===== src/Certificates/Dates/Iso.antt =====
-- Python's `date.fromisoformat` (3.11 and later), which certificates/services.py and
-- certificates/bulk.py call: YYYY-MM-DD and YYYYMMDD. Dates by week, YYYY-Www-D, are left out.
use govahee.Prelude.{
  ℕ, zero, suc, ◌+◌, ◌-◌, ◌*◌, String, Bool, ◌&&◌, Option, none, some, ◌==◌, leb, if◌then◌else◌,
}
use govahee.Exec.{Result, ok, err, value_error}
use govahee.Certificates.Dates.{Date, month_length}
use Prim.Native.Char.{code}

-- the number that the next `n` digits write, and the rest
read_digits : ℕ → ℕ → String → Option (ℕ × String)
read_digits zero acc s = some (acc, s)
read_digits (suc n) acc String.[] = none
read_digits (suc n) acc (String.◌∷◌ c s) =
    let rest = read_digits n (10 * acc + (code c - 48)) s in
    if leb 48 (code c) && leb (code c) 57 then rest else none

-- `-` and the rest
after_dash : String → Option String
after_dash String.[] = none
after_dash (String.◌∷◌ c s) = if code c == 45 then some s else none

-- the date, if there is such a day
checked : ℕ → ℕ → ℕ × String → Option Date
checked year month (day, String.◌∷◌ c s) = none
checked year month (day, String.[]) =
    if (leb 1 year && (leb 1 month && leb month 12))
      && (leb 1 day && leb day (month_length year month))
    then some (record { year = year; month = month; day = day })
    else none

day_of : ℕ → ℕ → Option (ℕ × String) → Option Date
unfolding checked
day_of year month none = none
day_of year month (some d) = checked year month d

read_day : ℕ → ℕ → Option String → Option Date
unfolding day_of read_digits
read_day year month none = none
read_day year month (some s) = day_of year month (read_digits 2 0 s)

month_of : Bool → ℕ → Option (ℕ × String) → Option Date
unfolding read_day after_dash
month_of dashed year none = none
month_of dashed year (some (month, s)) =
    read_day year month (if dashed then after_dash s else some s)

-- after the year: with or without dashes
read_month : ℕ → String → Option String → Option Date
unfolding month_of read_digits
read_month year s none = month_of Bool.false year (read_digits 2 0 s)
read_month year s (some t) = month_of Bool.true year (read_digits 2 0 t)

year_of : Option (ℕ × String) → Option Date
unfolding read_month after_dash
year_of none = none
year_of (some (year, s)) = read_month year s (after_dash s)

unfoldable pub iso_date : String → Option Date
unfolding year_of read_digits
iso_date s = year_of (read_digits 4 0 s)

abbrev pub date_or_error : Option Date → Result Date
date_or_error none = err value_error
date_or_error (some d) = ok d

-- `date.fromisoformat(s)`
unfoldable pub fromisoformat : String → Result Date
fromisoformat s = date_or_error (iso_date s)

-- a date among the fields of a request: missing, a date, or a text
pub data DateInput : Type 0 where
  missing : DateInput
  given : Date → DateInput
  written : String → DateInput
