-- ===== src/Attachments/Storage/Paths.antt =====
-- Paths as pathlib and the file system read them, and tables of files, keyed by path or by key.
use Prim.Native.Char.{Char, code}
use govahee.Prelude.{
  ◌≡◌, String, Bool, false, ◌&&◌, not, List, [], ◌∷◌, none, ◌==◌, arith, str_eq, str_eq_iff, keep,
  truthy, if◌then◌else◌,
}
use govahee.Prelude.Text.{◌+++◌, get}

abbrev pub push_char : Char → List String → List String
push_char c [] = String.◌∷◌ c String.[] ∷ []
push_char c (s ∷ ss) = String.◌∷◌ c s ∷ ss

-- `s.split("/")`
unfoldable pub split_slash : String → List String
split_slash String.[] = "" ∷ []
split_slash (String.◌∷◌ c s) =
    let rest = split_slash s in if code c == 47 then "" ∷ rest else push_char c rest

-- the parts of a path: empty ones and `.` are dropped
unfoldable pub parts : String → List String
parts s = keep (λ p. truthy p && not (str_eq p ".")) (split_slash s)

abbrev pub is_absolute : String → Bool
is_absolute String.[] = false
is_absolute (String.◌∷◌ c s) = code c == 47

-- `..` goes one directory up; at the root it stays
abbrev pub up : List String → List String
up [] = []
up (p ∷ above) = above

-- the directories down to a path, which the file system walks through; the innermost comes first
unfoldable pub resolve : List String → List String → List String
resolve above [] = above
resolve above (p ∷ ps) =
    let deeper = resolve (p ∷ above) ps in
    let higher = resolve (up above) ps in if str_eq p ".." then higher else deeper

-- the text of such a path
unfoldable pub path_text : List String → String
path_text [] = ""
path_text (p ∷ above) = path_text above +++ "/" +++ p

-- `root / key`: a key that is an absolute path takes the place of the root
unfoldable pub full_path : String → String → List String
full_path root key =
    let below = resolve [] (parts key) in
    let inside = resolve (resolve [] (parts root)) (parts key) in
    if is_absolute key then below else inside

-- the directory and those above it
unfoldable pub ancestors : List String → List String
ancestors [] = []
ancestors (p ∷ above) = path_text (p ∷ above) ∷ ancestors above

-- `del d[k]`
abbrev pub remove {ℓ} : {V : Type ℓ} → String → List (String × V) → List (String × V)
remove k [] = []
remove k ((j, v) ∷ d) = if str_eq k j then remove k d else (j, v) ∷ remove k d

pub get-remove {ℓ} :
    {V : Type ℓ} (k j : String) (d : List (String × V))
    → get j (remove k d) ≡ (if str_eq j k then none else get j d)
get-remove k j [] = ground arith
get-remove k j ((i, w) ∷ d) =
    ground (arith, str_eq_iff k j, str_eq_iff j k, str_eq_iff k i, str_eq_iff j i, get-remove k j d)
