-- ===== src/Billing/Gateway/Json.antt =====
-- The values of `json.loads`, and the conversions that billing/payments/zibal.py and
-- billing/payments/bitpay.py make of them: `_decimal_or_none`, `_int_or_none`, `str`, truth.
use govahee.Prelude.{
  ℕ, ◌+◌, ◌-◌, ◌*◌, ◌/◌, ◌^◌, String, Bool, true, false, ◌&&◌, not, List, Option, none, some, ◌==◌,
  leb, truthy, if◌then◌else◌,
}
use govahee.Prelude.Text.{strip, decimal, get, ◌+++◌}
use Prim.Native.Char.{code}
use govahee.Exec.{Result, ok, err, overflow_error}
use govahee.Billing.Gateway.Decimal.{Decimal, finite, infinite, nan, parse_decimal}

-- `int negative n`; `float repr value` with its `repr`; `composite repr` is a list or an object
pub data Json : Type 0 where
  null : Json
  bool : Bool → Json
  int : Bool → ℕ → Json
  float : String → Decimal → Json
  text : String → Json
  composite : String → Json

abbrev pub Object : Type 0
Object = List (String × Json)

-- `data.get(key)`
abbrev pub field : String → Object → Json
field key data_ = elim (get key data_) [ none ↦ null | some v ↦ v ]

unfoldable pub int_text : Bool → ℕ → String
int_text negative n = if negative && not (n == 0) then "-" +++ decimal n else decimal n

-- `str(value)`
unfoldable pub json_str : Json → String
unfolding int_text
json_str null = "None"
json_str (bool b) = if b then "True" else "False"
json_str (int negative n) = int_text negative n
json_str (float repr value) = repr
json_str (text s) = s
json_str (composite repr) = repr

is_zero : Decimal → Bool
is_zero (finite negative c scale) = c == 0
is_zero _ = false

-- `bool(value)`
unfoldable pub json_truth : Json → Bool
unfolding is_zero
json_truth null = false
json_truth (bool b) = b
json_truth (int negative n) = not (n == 0)
json_truth (float repr value) = not (is_zero value)
json_truth (text s) = truthy s
json_truth (composite repr) = true

-- `str(value or "")`
unfoldable pub str_or_empty : Json → String
unfolding json_truth json_str
str_or_empty v = if json_truth v then json_str v else ""

-- `value in (None, "")`
unfoldable pub is_blank : Json → Bool
is_blank null = true
is_blank (text s) = not (truthy s)
is_blank _ = false

to_decimal : Json → Option Decimal
to_decimal (int negative n) = some (finite negative n 0)
to_decimal (float repr value) = some value
to_decimal (text s) = parse_decimal s
to_decimal _ = none

-- `_decimal_or_none`: `Decimal(str(value))`, and `None` for what it refuses
unfoldable pub decimal_or_none : Json → Option Decimal
unfolding is_blank to_decimal parse_decimal
decimal_or_none v = if is_blank v then none else to_decimal v

digits_value : ℕ → String → Option ℕ
digits_value acc String.[] = some acc
digits_value acc (String.◌∷◌ c s) =
    let more = digits_value (10 * acc + (code c - 48)) s in
    if leb 48 (code c) && leb (code c) 57 then more else none

signed_value : Bool → String → Option (Bool × ℕ)
unfolding digits_value
signed_value negative String.[] = none
signed_value negative (String.◌∷◌ c s) = elim (digits_value 0 (String.◌∷◌ c s)) [
  | none ↦ none
  | some n ↦ some (negative, n)
]

sign_value : String → Option (Bool × ℕ)
unfolding signed_value
sign_value String.[] = none
sign_value (String.◌∷◌ c s) =
    if code c == 45
    then signed_value true s
    else if code c == 43
    then signed_value false s
    else signed_value false (String.◌∷◌ c s)

-- `int(text)`, `none` where it raises ValueError; ASCII digits, no underscores
unfoldable pub parse_int : String → Option (Bool × ℕ)
unfolding sign_value
parse_int s = sign_value (strip s)

-- `_int_or_none`. `int(inf)` raises OverflowError, which the code does not catch.
unfoldable pub int_or_none : Json → Result (Option (Bool × ℕ))
unfolding is_blank parse_int
int_or_none null = ok none
int_or_none (bool b) = ok (some (false, if b then 1 else 0))
int_or_none (int negative n) = ok (some (negative, n))
int_or_none (float repr (finite negative c scale)) = ok (some (negative, c / 10 ^ scale))
int_or_none (float repr (infinite negative)) = err overflow_error
int_or_none (float repr nan) = ok none
int_or_none (text s) = if truthy s then ok (parse_int s) else ok none
int_or_none (composite repr) = ok none
