-- ===== src/Attachments/Storage/Bucket/Disposition.antt =====
-- `_content_disposition` of attachments/infrastructure/storage/parspack.py, with `urllib`'s quote.
use Prim.Native.Char.{Char, code}
use text.Mathlib.TextLemmas.{nil-append, cons-append}
use govahee.Prelude.{
  ℕ, zero, suc, ◌+◌, ◌/◌, ◌%◌, ◌≡◌, refl, String, Bool, true, ◌&&◌, ◌||◌, not, List, [], ◌∷◌, arith,
  ◌==◌, leb, ltb, or_else, truthy, Bool-cases, inl, inr, if◌then◌else◌,
}
use govahee.Prelude.Text.{◌+++◌}

abbrev pub between : ℕ → ℕ → Char → Bool
between low high c = leb low (code c) && leb (code c) high

-- what `filename="..."` holds as it is: printable ASCII but for the quote and the backslash
unfoldable pub is_plain : Char → Bool
is_plain c = leb 32 (code c) && ltb (code c) 127 && not (code c == 92 || code c == 34)

abbrev pub plain_or_underscore : Char → Char
plain_or_underscore c = if is_plain c then c else "_"

unfoldable pub safe_ascii : String → String
safe_ascii String.[] = String.[]
safe_ascii (String.◌∷◌ c s) = String.◌∷◌ (plain_or_underscore c) (safe_ascii s)

-- the bytes of a character in UTF-8
unfoldable pub utf8 : ℕ → List ℕ
utf8 n =
    if ltb n 128
    then n ∷ []
    else if ltb n 2048
    then (192 + n / 64) ∷ (128 + n % 64) ∷ []
    else if ltb n 65536
    then (224 + n / 4096) ∷ (128 + n / 64 % 64) ∷ (128 + n % 64) ∷ []
    else (240 + n / 262144) ∷ (128 + n / 4096 % 64) ∷ (128 + n / 64 % 64) ∷ (128 + n % 64) ∷ []

-- the text of the character of `s` at `n`, if it has one
unfoldable pub char_text : ℕ → String → String
char_text n String.[] = String.[]
char_text zero (String.◌∷◌ c s) = String.◌∷◌ c String.[]
char_text (suc n) (String.◌∷◌ c s) = char_text n s

abbrev pub hex_digit : ℕ → String
hex_digit n = char_text n "0123456789ABCDEF"

-- `%XX` for each byte
unfoldable pub percent : List ℕ → String
percent [] = ""
percent (b ∷ bs) = "%" +++ hex_digit (b / 16) +++ hex_digit (b % 16) +++ percent bs

-- the characters that `quote` leaves: letters, digits and `_.-~`
unfoldable pub is_unreserved : Char → Bool
is_unreserved c =
    between 48 57 c
    || between 65 90 c
    || between 97 122 c
    || code c == 95
    || code c == 46
    || code c == 45
    || code c == 126

-- `quote(s, safe="")`
unfoldable pub quote : String → String
quote String.[] = String.[]
quote (String.◌∷◌ c s) =
    (if is_unreserved c then String.◌∷◌ c String.[] else percent (utf8 (code c))) +++ quote s

-- `_content_disposition`
unfoldable pub content_disposition : String → Bool → String
content_disposition file_name as_attachment =
    (if as_attachment then "attachment" else "inline")
    +++ "; filename=\""
    +++ or_else (safe_ascii file_name) "file"
    +++ "\"; filename*=UTF-8''"
    +++ quote file_name

abbrev pub all_chars : (Char → Bool) → String → Bool
all_chars test String.[] = true
all_chars test (String.◌∷◌ c s) = test c && all_chars test s

-- what a quoted name consists of
unfoldable pub is_quoted : Char → Bool
is_quoted c = is_unreserved c || code c == 37

all_chars-append :
    (test : Char → Bool) (s t : String)
    → all_chars test s ≡ true
    → all_chars test t ≡ true
    → all_chars test (s +++ t) ≡ true
all_chars-append test String.[] t h k = rw (nil-append) k
all_chars-append test (String.◌∷◌ c s) t h k =
    rw (cons-append) (ground (arith, all_chars-append test s t (ground arith) k))

safe_ascii-is_plain : (s : String) → all_chars is_plain (safe_ascii s) ≡ true
unfolding safe_ascii is_plain
safe_ascii-is_plain String.[] = refl
safe_ascii-is_plain (String.◌∷◌ c s) = elim (Bool-cases (is_plain c)) [
  | inl plain ↦ rw (plain, plain) (safe_ascii-is_plain s)
  | inr other ↦ rw (other) (safe_ascii-is_plain s)
]

char_text-all_chars :
    (test : Char → Bool) (n : ℕ) (s : String)
    → all_chars test s ≡ true
    → all_chars test (char_text n s) ≡ true
unfolding char_text
char_text-all_chars test n String.[] h = refl
char_text-all_chars test zero (String.◌∷◌ c s) h = ground (arith, h)
char_text-all_chars test (suc n) (String.◌∷◌ c s) h =
    char_text-all_chars test n s (ground (arith, h))

digits-is_quoted : all_chars is_quoted "0123456789ABCDEF" ≡ true
unfolding is_quoted is_unreserved
digits-is_quoted = refl

percent_sign : all_chars is_quoted "%" ≡ true
unfolding is_quoted is_unreserved
percent_sign = refl

unreserved_quoted :
    (c : Char) → is_unreserved c ≡ true → all_chars is_quoted (String.◌∷◌ c String.[]) ≡ true
unfolding is_quoted
unreserved_quoted c h = ground (arith, h)

hex_digit-is_quoted : (n : ℕ) → all_chars is_quoted (hex_digit n) ≡ true
hex_digit-is_quoted n = char_text-all_chars is_quoted n "0123456789ABCDEF" digits-is_quoted

percent-is_quoted : (bs : List ℕ) → all_chars is_quoted (percent bs) ≡ true
unfolding percent
percent-is_quoted [] = refl
percent-is_quoted (b ∷ bs) = all_chars-append is_quoted "%" _ percent_sign (
    all_chars-append is_quoted (hex_digit (b / 16)) _ (hex_digit-is_quoted (b / 16)) (
      all_chars-append is_quoted (hex_digit (b % 16)) _ (hex_digit-is_quoted (b % 16))
        (percent-is_quoted bs)))

quote-is_quoted : (s : String) → all_chars is_quoted (quote s) ≡ true
unfolding quote
quote-is_quoted String.[] = refl
quote-is_quoted (String.◌∷◌ c s) = elim (Bool-cases (is_unreserved c)) [
  | inl kept ↦ rw (kept) (
      all_chars-append is_quoted (String.◌∷◌ c String.[]) (quote s) (unreserved_quoted c kept)
        (quote-is_quoted s))
  | inr other ↦ rw (other) (
      all_chars-append is_quoted (percent (utf8 (code c))) (quote s)
        (percent-is_quoted (utf8 (code c))) (quote-is_quoted s))
]

or_else-plain :
    (s : String)
    → all_chars is_plain s ≡ true
    → (all_chars is_plain (or_else s "file") ≡ true) × (truthy (or_else s "file") ≡ true)
unfolding is_plain
or_else-plain String.[] h = (refl, refl)
or_else-plain (String.◌∷◌ c s) h = (h, refl)

-- Whatever the name of a file is, the header that names it has two parameters and nothing else:
-- the first is a name in quotes that is not empty and holds printable ASCII only, no quote and no
-- backslash, so that it ends where the header means it to; the second holds only letters, digits
-- and the signs `_.-~%`. No name breaks out of the header.
pub content_disposition_safe :
    (file_name : String) (as_attachment : Bool)
    → (name : String) × (encoded : String) × (content_disposition file_name as_attachment
        ≡ (if as_attachment then "attachment" else "inline")
          +++ "; filename=\""
          +++ name
          +++ "\"; filename*=UTF-8''"
          +++ encoded)
      × (all_chars is_plain name ≡ true)
      × (truthy name ≡ true)
      × (all_chars is_quoted encoded ≡ true)
unfolding content_disposition
content_disposition_safe file_name as_attachment =
    let name = or_else-plain (safe_ascii file_name) (safe_ascii-is_plain file_name) in
    (
      or_else (safe_ascii file_name) "file",
      quote file_name,
      refl,
      name.0,
      name.1,
      quote-is_quoted file_name,
    )
