-- ===== src/Prelude/Text.antt =====
-- Sets and dicts of texts as Python writes them: membership, `d.get(k)`, and the decimal digits
-- of `str(n)`.
pub mod Decimal
use Prim.Native.Nat.{ℕ, zero, suc, ◌/◌, ◌%◌, ◌-◌}
use Prim.Native.Char.{Char, code}
use Prim.Native.String.{String, count, ◌++◌ as str_append}
use mathlib.Core.Path.{◌≡◌, refl, ap}
use mathlib.Core.Logic.{◌⊎◌, inl, inr}
use mathlib.Core.Bool.{Bool, true, false, ◌||◌}
use mathlib.Core.List.{List, [], ◌∷◌, ◌++◌}
use mathlib.Core.Option.{Option, none, some}
use native.Mathlib.Omega.{arith}
use text.Mathlib.Text.{◌==◌ as str_eq}
use text.Mathlib.TextEquality.{eq_iff as str_eq_iff}
use govahee.Prelude.Tests.{if◌then◌else◌, ◌==◌, ltb, truthy, Bool-cases}
use govahee.Prelude.Lists.{all, any, All}

-- concatenation of texts
infixr 65 ◌+++◌
abbrev pub ◌+++◌ : String → String → String
s +++ t = str_append s t

-- `k in {...}` on a set of texts
abbrev pub member : String → List String → Bool
member k [] = false
member k (j ∷ js) = str_eq k j || member k js

-- `d.get(k)` on a dict with text keys
abbrev pub get {ℓ} : {V : Type ℓ} → String → List (String × V) → Option V
get k [] = none
get k ((j, v) ∷ d) = if str_eq k j then some v else get k d

-- `d[k] = v`: an old key keeps its place
abbrev pub put {ℓ} : {V : Type ℓ} → String → V → List (String × V) → List (String × V)
put k v [] = (k, v) ∷ []
put k v ((j, w) ∷ d) = if str_eq k j then (j, v) ∷ d else (j, w) ∷ put k v d

-- `d.get(k, set())` on a dict whose values are sets of texts
abbrev pub get_set : String → List (String × List String) → List String
get_set k d = elim (get k d) [ none ↦ [] | some set ↦ set ]

-- Python's whitespace, `str.isspace`, as far as Latin-1 and the space separators go
abbrev whitespace : List ℕ
whitespace =
    9 ∷ 10 ∷ 11 ∷ 12 ∷ 13 ∷ 28 ∷ 29 ∷ 30 ∷ 31 ∷ 32 ∷ 133 ∷ 160 ∷ 5760 ∷ 8192 ∷ 8193 ∷ 8194 ∷ 8195
    ∷ 8196 ∷ 8197 ∷ 8198 ∷ 8199 ∷ 8200 ∷ 8201 ∷ 8202 ∷ 8232 ∷ 8233 ∷ 8239 ∷ 8287 ∷ 12288 ∷ []

unfoldable pub is_space : Char → Bool
is_space c = any (λ n. n == code c) whitespace

unfoldable pub lstrip : String → String
unfolding is_space
lstrip String.[] = String.[]
lstrip (String.◌∷◌ c s) = if is_space c then lstrip s else String.◌∷◌ c s

pub rstrip : String → String
unfolding is_space
rstrip String.[] = String.[]
rstrip (String.◌∷◌ c s) =
    let rest = rstrip s in
    if truthy rest
    then String.◌∷◌ c rest
    else if is_space c
    then String.[]
    else String.◌∷◌ c String.[]

-- `s.strip()`
unfoldable pub strip : String → String
unfolding lstrip rstrip
strip s = rstrip (lstrip s)

-- `s.rstrip("/")`
unfoldable pub rstrip_slash : String → String
rstrip_slash String.[] = String.[]
rstrip_slash (String.◌∷◌ c s) =
    let rest = rstrip_slash s in
    if truthy rest
    then String.◌∷◌ c rest
    else if code c == 47
    then String.[]
    else String.◌∷◌ c String.[]

upper_lower : List (Char × Char)
upper_lower =
    ("A", "a")
    ∷ ("B", "b")
    ∷ ("C", "c")
    ∷ ("D", "d")
    ∷ ("E", "e")
    ∷ ("F", "f")
    ∷ ("G", "g")
    ∷ ("H", "h")
    ∷ ("I", "i")
    ∷ ("J", "j")
    ∷ ("K", "k")
    ∷ ("L", "l")
    ∷ ("M", "m")
    ∷ ("N", "n")
    ∷ ("O", "o")
    ∷ ("P", "p")
    ∷ ("Q", "q")
    ∷ ("R", "r")
    ∷ ("S", "s")
    ∷ ("T", "t")
    ∷ ("U", "u")
    ∷ ("V", "v")
    ∷ ("W", "w")
    ∷ ("X", "x")
    ∷ ("Y", "y")
    ∷ ("Z", "z")
    ∷ []

lower_char : Char → List (Char × Char) → Char
lower_char c [] = c
lower_char c ((upper, small) ∷ table) = if code c == code upper then small else lower_char c table

-- `s.lower()`; only the ASCII letters have case here
unfoldable pub lower : String → String
unfolding lower_char upper_lower
lower String.[] = String.[]
lower (String.◌∷◌ c s) = String.◌∷◌ (lower_char c upper_lower) (lower s)

-- a character that was made lower, or was not of the table, stays
lower_char-twice :
    (c : Char) (table : List (Char × Char))
    → All (λ p. lower_char p.1 upper_lower ≡ p.1) table
    → (lower_char c table ≡ c) ⊎ (lower_char (lower_char c table) upper_lower ≡ lower_char c table)
unfolding lower_char
lower_char-twice c [] h = inl refl
lower_char-twice c ((upper, small) ∷ table) (fixed, rest) =
    elim (Bool-cases (code c == code upper)) [
      | inl hit ↦ rw (hit) (inr fixed)
      | inr miss ↦ rw (miss) (lower_char-twice c table rest)
    ]

small_fixed : All (λ p. lower_char p.1 upper_lower ≡ p.1) upper_lower
unfolding lower_char upper_lower
small_fixed = ground arith

pub lower-lower : (s : String) → lower (lower s) ≡ lower s
unfolding lower
lower-lower String.[] = refl
lower-lower (String.◌∷◌ c s) = elim (lower_char-twice c upper_lower small_fixed) [
  | inl same ↦ rw (same, same) (ap (String.◌∷◌ c) (lower-lower s))
  | inr twice ↦ rw (twice) (ap (String.◌∷◌ (lower_char c upper_lower)) (lower-lower s))
]

-- `s[:n]`
unfoldable pub prefix : ℕ → String → String
prefix zero s = String.[]
prefix (suc n) String.[] = String.[]
prefix (suc n) (String.◌∷◌ c s) = String.◌∷◌ c (prefix n s)

digit : ℕ → String
digit n =
    if n == 0
    then "0"
    else if n == 1
    then "1"
    else if n == 2
    then "2"
    else if n == 3
    then "3"
    else if n == 4
    then "4"
    else if n == 5
    then "5"
    else if n == 6
    then "6"
    else if n == 7
    then "7"
    else if n == 8
    then "8"
    else "9"

-- the digits of `n`, most significant first; the fuel `n` is enough, since `n / 10 < n`
digits : ℕ → ℕ → String
unfolding digit
digits zero n = digit n
digits (suc fuel) n =
    let more = digits fuel (n / 10) +++ digit (n % 10) in if ltb n 10 then digit n else more

-- `str(n)`
unfoldable pub decimal : ℕ → String
unfolding digits
decimal n = digits n n

zeros : ℕ → String
zeros zero = ""
zeros (suc n) = "0" +++ zeros n

-- `f"{n:0{width}d}"`
unfoldable pub zero_padded : ℕ → ℕ → String
unfolding zeros decimal
zero_padded width n = let s = decimal n in zeros (width - count s) +++ s

pub str_eq_refl : (s : String) → str_eq s s ≡ true
str_eq_refl s = (str_eq_iff s s).1 refl

-- What holds of every item of a list holds of a member.
pub member-all :
    (test : String → Bool) (xs : List String) (k : String)
    → all test xs ≡ true
    → member k xs ≡ true
    → test k ≡ true
member-all test [] k a m = ground arith
member-all test (x ∷ xs) k a m = ground (arith, member-all test xs k, str_eq_iff k x)

pub member-append :
    (k : String) (xs ys : List String) → member k (xs ++ ys) ≡ (member k xs || member k ys)
member-append k [] ys = refl
member-append k (x ∷ xs) ys = ground (arith, member-append k xs ys)

pub get-put {ℓ} :
    {V : Type ℓ} (k j : String) (v : V) (d : List (String × V))
    → get j (put k v d) ≡ (if str_eq j k then some v else get j d)
get-put k j v [] = refl
get-put k j v ((i, w) ∷ d) =
    ground (arith, str_eq_iff k j, str_eq_iff j k, str_eq_iff k i, str_eq_iff j i, get-put k j v d)
