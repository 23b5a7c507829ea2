-- ===== src/Prelude/Text/Decimal.antt =====
-- The decimal digits of `str(n)` and of a zero-padded number, read back: `int(...)` gives the
-- number, so two numbers have the same digits only if they are equal.
use Prim.Native.Nat.{ℕ, zero, suc, ◌+◌, ◌*◌, ◌/◌, ◌%◌, ◌-◌, ◌≤◌, ◌<◌}
use Prim.Native.Char.{Char, code}
use Prim.Native.String.{String, ◌++◌ as str_append}
use Prim.Native.String
use mathlib.Core.Path.{◌≡◌, refl, sym, ap, ◌∙◌}
use mathlib.Core.Logic.{inl, inr}
use mathlib.Core.Bool.{Bool, true, false}
use native.Mathlib.Omega.{arith}
use text.Mathlib.TextLemmas.{nil-append, cons-append}
use govahee.Prelude.Tests.{if◌then◌else◌, ◌==◌, ltb, Bool-cases}
use govahee.Prelude.Text.{◌+++◌, digit, digits, decimal, zeros, zero_padded}

-- `10 * acc + d` for each digit, as `int()` reads them
abbrev pub read : ℕ → String → ℕ
read acc String.[] = acc
read acc (String.◌∷◌ c s) = read (acc * 10 + (code c - 48)) s

pub read-append : (acc : ℕ) (s t : String) → read acc (s +++ t) ≡ read (read acc s) t
read-append acc String.[] t = ap (read acc) (nil-append t)
read-append acc (String.◌∷◌ c s) t =
    ap (read acc) (cons-append c s t) ∙ read-append (acc * 10 + (code c - 48)) s t

-- What holds of the ten digits.
below_ten {ℓ} :
    (P : ℕ → Type ℓ)
    → P 0
    → P 1
    → P 2
    → P 3
    → P 4
    → P 5
    → P 6
    → P 7
    → P 8
    → P 9
    → (n : ℕ) → n < 10
    → P n
below_ten P p0 p1 p2 p3 p4 p5 p6 p7 p8 p9 zero h = p0
below_ten P p0 p1 p2 p3 p4 p5 p6 p7 p8 p9 (suc zero) h = p1
below_ten P p0 p1 p2 p3 p4 p5 p6 p7 p8 p9 (suc (suc zero)) h = p2
below_ten P p0 p1 p2 p3 p4 p5 p6 p7 p8 p9 (suc (suc (suc zero))) h = p3
below_ten P p0 p1 p2 p3 p4 p5 p6 p7 p8 p9 (suc (suc (suc (suc zero)))) h = p4
below_ten P p0 p1 p2 p3 p4 p5 p6 p7 p8 p9 (suc (suc (suc (suc (suc zero))))) h = p5
below_ten P p0 p1 p2 p3 p4 p5 p6 p7 p8 p9 (suc (suc (suc (suc (suc (suc zero)))))) h = p6
below_ten P p0 p1 p2 p3 p4 p5 p6 p7 p8 p9 (suc (suc (suc (suc (suc (suc (suc zero))))))) h = p7
below_ten P p0 p1 p2 p3 p4 p5 p6 p7 p8 p9 (suc (suc (suc (suc (suc (suc (suc (suc zero)))))))) h =
    p8
below_ten P p0 p1 p2 p3 p4 p5 p6 p7 p8 p9 (suc (suc (suc (suc (suc (suc (suc (suc (suc zero)))))))))
      h =
    p9
below_ten P p0 p1 p2 p3 p4 p5 p6 p7 p8 p9
      (suc (suc (suc (suc (suc (suc (suc (suc (suc (suc n)))))))))) h =
    absurd (omega arith)

read-digit : (acc n : ℕ) → n < 10 → read acc (digit n) ≡ acc * 10 + n
unfolding digit
read-digit acc =
    below_ten (λ n. read acc (digit n) ≡ acc * 10 + n) refl refl refl refl refl refl refl refl refl
      refl

read-digits : (fuel n : ℕ) → n ≤ fuel → read 0 (digits fuel n) ≡ n
unfolding digits
read-digits zero n h = omega (arith, read-digit 0 n)
read-digits (suc fuel) n h = elim (Bool-cases (ltb n 10)) [
  | inl small ↦ rw small (omega (arith, read-digit 0 n (ground arith)))
  | inr large ↦ rw large (
      let ih = read-digits fuel (n / 10) (ground arith) in
      read-append 0 (digits fuel (n / 10)) (digit (n % 10))
      ∙ ap (λ a. read a (digit (n % 10))) ih
      ∙ read-digit (n / 10) (n % 10) (omega arith)
      ∙ omega arith)
]

pub read-decimal : (n : ℕ) → read 0 (decimal n) ≡ n
unfolding decimal
read-decimal n = read-digits n n (omega arith)

read-zeros : (n : ℕ) → read 0 (zeros n) ≡ 0
unfolding zeros
read-zeros zero = refl
read-zeros (suc n) = read-append 0 "0" (zeros n) ∙ read-zeros n

pub read-zero_padded : (width n : ℕ) → read 0 (zero_padded width n) ≡ n
unfolding zero_padded
read-zero_padded width n =
    read-append 0 (zeros (width - String.count (decimal n))) (decimal n)
    ∙ ap (λ a. read a (decimal n)) (read-zeros (width - String.count (decimal n)))
    ∙ read-decimal n

pub decimal_injective : (n m : ℕ) → decimal n ≡ decimal m → n ≡ m
decimal_injective n m h = sym (read-decimal n) ∙ ap (read 0) h ∙ read-decimal m

-- Digits hold no dash.
abbrev pub has_dash : String → Bool
has_dash String.[] = false
has_dash (String.◌∷◌ c s) = if code c == 45 then true else has_dash s

has_dash-append :
    (s t : String) → has_dash s ≡ false → has_dash t ≡ false → has_dash (s +++ t) ≡ false
has_dash-append String.[] t h k = ap has_dash (nil-append t) ∙ k
has_dash-append (String.◌∷◌ c s) t h k =
    ap has_dash (cons-append c s t) ∙ ground (arith, has_dash-append s t)

has_dash-digit : (n : ℕ) → n < 10 → has_dash (digit n) ≡ false
unfolding digit
has_dash-digit =
    below_ten (λ n. has_dash (digit n) ≡ false) refl refl refl refl refl refl refl refl refl refl

has_dash-digits : (fuel n : ℕ) → n ≤ fuel → has_dash (digits fuel n) ≡ false
unfolding digits
has_dash-digits zero n h = has_dash-digit n (omega arith)
has_dash-digits (suc fuel) n h = elim (Bool-cases (ltb n 10)) [
  | inl small ↦ rw small (has_dash-digit n (ground arith))
  | inr large ↦ rw large (
      has_dash-append (digits fuel (n / 10)) (digit (n % 10))
        (has_dash-digits fuel (n / 10) (ground arith)) (has_dash-digit (n % 10) (omega arith)))
]

pub has_dash-decimal : (n : ℕ) → has_dash (decimal n) ≡ false
unfolding decimal
has_dash-decimal n = has_dash-digits n n (omega arith)

has_dash-zeros : (n : ℕ) → has_dash (zeros n) ≡ false
unfolding zeros
has_dash-zeros zero = refl
has_dash-zeros (suc n) = has_dash-append "0" (zeros n) refl (has_dash-zeros n)

pub has_dash-zero_padded : (width n : ℕ) → has_dash (zero_padded width n) ≡ false
unfolding zero_padded
has_dash-zero_padded width n =
    has_dash-append (zeros (width - String.count (decimal n))) (decimal n)
      (has_dash-zeros (width - String.count (decimal n))) (has_dash-decimal n)

dash-append : (t : String) → "-" +++ t ≡ String.◌∷◌ "-" t
dash-append t = cons-append "-" String.[] t ∙ ap (String.◌∷◌ "-") (nil-append t)

dashed : (t : String) → "" +++ ("-" +++ t) ≡ String.◌∷◌ "-" t
dashed t = nil-append ("-" +++ t) ∙ dash-append t

dash_inside : (s t : String) → has_dash (s +++ ("-" +++ t)) ≡ true
dash_inside String.[] t = ap has_dash (dashed t)
dash_inside (String.◌∷◌ c s) t =
    ap has_dash (cons-append c s ("-" +++ t)) ∙ ground (arith, dash_inside s t)

tail : String → String
tail String.[] = String.[]
tail (String.◌∷◌ c s) = s

head : Char → String → Char
head d String.[] = d
head d (String.◌∷◌ c s) = c

-- A text is cut at its last dash in one way.
pub cut_last :
    (s s' t t' : String)
    → has_dash t ≡ false
    → has_dash t' ≡ false
    → s +++ ("-" +++ t) ≡ s' +++ ("-" +++ t')
    → (s ≡ s') × (t ≡ t')
unfolding tail head
cut_last String.[] String.[] t t' n n' h = (refl, ap tail (sym (dashed t) ∙ h ∙ dashed t'))
cut_last String.[] (String.◌∷◌ c s') t t' n n' h =
    let inside : t ≡ s' +++ ("-" +++ t') = ap tail (sym (dashed t) ∙ h ∙ cons-append c s' _) in
    absurd (ground (arith, ap has_dash inside, dash_inside s' t'))
cut_last (String.◌∷◌ c s) String.[] t t' n n' h =
    let inside : s +++ ("-" +++ t) ≡ t' = ap tail (sym (cons-append c s _) ∙ h ∙ dashed t') in
    absurd (ground (arith, ap has_dash inside, dash_inside s t))
cut_last (String.◌∷◌ c s) (String.◌∷◌ c' s') t t' n n' h =
    let same = sym (cons-append c s ("-" +++ t)) ∙ h ∙ cons-append c' s' ("-" +++ t') in
    let ih = cut_last s s' t t' n n' (ap tail same) in
    let first : c ≡ c' = ap (head c) same in (cc (first, ih.0), ih.1)
