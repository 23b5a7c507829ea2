-- ===== src/Billing/Gateway/Decimal.antt =====
-- Python's `Decimal` under the default context (28 digits, ROUND_HALF_EVEN), as far as
-- billing/payments/bitpay.py and billing/payments/zibal.py use it.
use govahee.Prelude.{
  ℕ, ◌+◌, ◌-◌, ◌*◌, ◌/◌, ◌%◌, ◌^◌, String, Bool, true, false, ◌&&◌, ◌||◌, not, Option, none, some,
  ◌==◌, ltb, leb, if◌then◌else◌,
}
use govahee.Prelude.Text.{strip, lower, member}
use Prim.Native.Char.{Char, code}
use govahee.Exec.{Result, ok, err, invalid_operation}
use mathlib.Core.List.{[], ◌∷◌}

-- `finite negative coefficient scale` is the coefficient over 10 ^ scale, with its sign.
pub data Decimal : Type 0 where
  finite : Bool → ℕ → ℕ → Decimal
  infinite : Bool → Decimal
  nan : Decimal

abbrev pub whole : ℕ → Decimal
whole n = finite false n 0

-- a signed whole number is the natural number `n`; minus zero is zero
abbrev pub is_natural : Bool → ℕ → ℕ → Bool
is_natural negative c n = c == n && (not negative || c == 0)

-- `d == Decimal(n)`
unfoldable pub eq_natural : Decimal → ℕ → Bool
eq_natural (finite negative c scale) n = is_natural negative c (n * 10 ^ scale)
eq_natural (infinite negative) n = false
eq_natural nan n = false

-- the coefficient over `unit`, rounded to the nearest, a tie to the even number
unfoldable pub half_even : ℕ → ℕ → ℕ
half_even c unit =
    let q = c / unit in
    let twice = 2 * (c % unit) in
    if ltb twice unit then q else if ltb unit twice then q + 1 else q + q % 2

abbrev pub max_coefficient : ℕ
max_coefficient = 10 ^ 28

-- `d.quantize(Decimal("1"))`: a result of more than 28 digits and an infinity raise
unfoldable pub quantize : Decimal → Result Decimal
quantize (finite negative c scale) =
    let q = half_even c (10 ^ scale) in
    if ltb q max_coefficient then ok (finite negative q 0) else err invalid_operation
quantize (infinite negative) = err invalid_operation
quantize nan = ok nan

-- What `Decimal(text)` has read of a number.
pub record Scan : Type 0 where
  pub coefficient : ℕ
  pub seen : Bool
  pub scale : ℕ
  pub exponent : ℕ
  pub exponent_negative : Bool
  pub exponent_seen : Bool

pub data Mode : Type 0 where
  integer fraction exponent_sign exponent_digits : Mode

is_digit : Char → Bool
is_digit c = leb 48 (code c) && leb (code c) 57

is_e : Char → Bool
is_e c = code c == 101 || code c == 69

add_digit : Scan → Char → Scan
add_digit a c = record a { coefficient = 10 * a.coefficient + (code c - 48); seen = true }

add_fraction : Scan → Char → Scan
unfolding add_digit
add_fraction a c = let b = add_digit a c in record b { scale = b.scale + 1 }

add_exponent : Scan → Char → Scan
add_exponent a c = record a { exponent = 10 * a.exponent + (code c - 48); exponent_seen = true }

-- the number with its exponent put in
finish : Bool → Scan → Option Decimal
finish negative a =
    if a.exponent_negative
    then some (finite negative a.coefficient (a.scale + a.exponent))
    else if leb a.scale a.exponent
    then some (finite negative (a.coefficient * 10 ^ (a.exponent - a.scale)) 0)
    else some (finite negative a.coefficient (a.scale - a.exponent))

finish_if : Bool → Bool → Scan → Option Decimal
unfolding finish
finish_if test negative a = if test then finish negative a else none

-- the characters after the sign
scan : Bool → Mode → Scan → String → Option Decimal
unfolding finish_if is_digit is_e add_digit add_fraction add_exponent
scan neg integer a String.[] = finish_if a.seen neg a
scan neg fraction a String.[] = finish_if a.seen neg a
scan neg exponent_sign a String.[] = none
scan neg exponent_digits a String.[] = finish_if a.exponent_seen neg a
scan neg integer a (String.◌∷◌ c s) =
    let more = scan neg integer (add_digit a c) s in
    let point = scan neg fraction a s in
    let exp = scan neg exponent_sign a s in
    if is_digit c
    then more
    else if code c == 46
    then point
    else if is_e c && a.seen
    then exp
    else none
scan neg fraction a (String.◌∷◌ c s) =
    let more = scan neg fraction (add_fraction a c) s in
    let exp = scan neg exponent_sign a s in
    if is_digit c then more else if is_e c && a.seen then exp else none
scan neg exponent_sign a (String.◌∷◌ c s) =
    let minus = scan neg exponent_digits (record a { exponent_negative = true }) s in
    let plus = scan neg exponent_digits a s in
    let more = scan neg exponent_digits (add_exponent a c) s in
    if code c == 45 then minus else if code c == 43 then plus else if is_digit c then more else none
scan neg exponent_digits a (String.◌∷◌ c s) =
    let more = scan neg exponent_digits (add_exponent a c) s in if is_digit c then more else none

start : Scan
start = record {
  coefficient = 0;
  seen = false;
  scale = 0;
  exponent = 0;
  exponent_negative = false;
  exponent_seen = false;
}

unsigned : Bool → String → Option Decimal
unfolding scan start
unsigned negative s =
    if member (lower s) ("inf" ∷ "infinity" ∷ [])
    then some (infinite negative)
    else if member (lower s) ("nan" ∷ "snan" ∷ [])
    then some nan
    else scan negative integer start s

signed : String → Option Decimal
unfolding unsigned
signed String.[] = none
signed (String.◌∷◌ c s) =
    if code c == 45
    then unsigned true s
    else if code c == 43
    then unsigned false s
    else unsigned false (String.◌∷◌ c s)

-- `Decimal(text)`, `none` where it raises. Digits are ASCII; underscores and the payload of a NaN
-- are not read.
unfoldable pub parse_decimal : String → Option Decimal
unfolding signed
parse_decimal s = signed (strip s)
