-- ===== src/Certificates/Variables/Filled.antt =====
-- What the substitution of variables (certificates/variables.py) makes of a text.
use text.Mathlib.TextLemmas.{nil-append, cons-append, append-nil}
use govahee.Prelude.{
  suc, ◌-◌, ◌≡◌, refl, sym, ap, ◌∙◌, ◌⊎◌, String, true, false, [], ◌∷◌, Option, none, some, arith,
  ◌==◌, ==_refl, str_eq, str_eq_iff, Bool-cases, inl, inr, if◌then◌else◌,
}
use Prim.Native.Char.{Char, code}
use Prim.Native.String.{count}
use Prim.Native.String.count.{cons as count_cons}
use govahee.Prelude.Text.{get, put, get-put, ◌+++◌}
use govahee.Billing.Models.{Payload}
use govahee.Organizations.Models.{Organization}
use govahee.Certificates.Models.{Certificate, Recipient}
use govahee.Certificates.Bulk.{has_char}
use govahee.Certificates.Variables.{
  own_variables, put_all, render_variables, starts_with, replace_from, replace, placeholder,
  substitute,
}

-- A dict has each key once.
abbrev pub IsDict : Payload → Type 0
IsDict [] = Unit {0}
IsDict ((k, v) ∷ d) = (get k d ≡ none) × IsDict d

abbrev pub or_get : Option String → Option String → Option String
or_get none old = old
or_get (some v) old = some v

get-put_all :
    (k : String) (custom values : Payload)
    → IsDict custom
    → get k (put_all custom values) ≡ or_get (get k custom) (get k values)
unfolding put_all
get-put_all k [] values h = refl
get-put_all k ((j, v) ∷ custom) values h =
    get-put_all k custom (put j v values) h.1
    ∙ ap (or_get (get k custom)) (get-put j k v values)
    ∙ first (Bool-cases (str_eq k j))
  where
    first :
        (str_eq k j ≡ true) ⊎ (str_eq k j ≡ false)
        → or_get (get k custom) (if str_eq k j then some v else get k values)
          ≡ or_get (if str_eq k j then some v else get k custom) (get k values)
    first (inl same) =
        let e : k ≡ j = (str_eq_iff k j).0 same in
        let absent : get k custom ≡ none = ap (λ i. get i custom) e ∙ h.0 in rw (same, absent) refl
    first (inr other) = rw (other) refl

-- A custom field goes before the certificate's own variable of the same name, whatever that is:
-- the number, the verification code and the address to verify it at included.
pub render_variables-get :
    (c : Certificate) (org : Organization) (recipient : Recipient) (url k : String)
    → IsDict c.custom_fields
    → get k (render_variables c org recipient url)
      ≡ or_get (get k c.custom_fields) (get k (own_variables c org recipient url))
unfolding render_variables
render_variables-get c org recipient url k h =
    get-put_all k c.custom_fields (own_variables c org recipient url) h

brace : (key : String) → placeholder key ≡ String.◌∷◌ "{" ("{" +++ (key +++ "}}"))
brace key = cons-append "{" "{" (key +++ "}}")

starts_with-append : (s t : String) → starts_with s (s +++ t) ≡ true
unfolding starts_with
starts_with-append String.[] t = refl
starts_with-append (String.◌∷◌ c s) t =
    ap (starts_with (String.◌∷◌ c s)) (cons-append c s t)
    ∙ ground (arith, ==_refl (code c), starts_with-append s t)

count-cons : (c : Char) (s : String) → count (String.◌∷◌ c s) ≡ suc (count s)
count-cons c s = λ i. count_cons c s i

-- an occurrence is left out to its end
replace_from-skip :
    (old new s t : String) → replace_from old new (s +++ t) (count s) ≡ replace_from old new t 0
unfolding replace_from
replace_from-skip old new String.[] t = ap (λ x. replace_from old new x (count "")) (nil-append t)
replace_from-skip old new (String.◌∷◌ c s) t =
    ap (λ x. replace_from old new x (count (String.◌∷◌ c s))) (cons-append c s t)
    ∙ ap (replace_from old new (String.◌∷◌ c (s +++ t))) (count-cons c s)
    ∙ replace_from-skip old new s t

-- an occurrence that a text begins with
replace-occurrence :
    (c : Char) (old new t : String)
    → replace (String.◌∷◌ c old) new (String.◌∷◌ c old +++ t)
      ≡ new +++ replace (String.◌∷◌ c old) new t
unfolding replace replace_from
replace-occurrence c old new t =
    let found : starts_with (String.◌∷◌ c old) (String.◌∷◌ c (old +++ t)) ≡ true =
      sym (ap (starts_with (String.◌∷◌ c old)) (cons-append c old t))
      ∙ starts_with-append (String.◌∷◌ c old) t in
    let length : count (String.◌∷◌ c old) - 1 ≡ count old = omega (arith, count-cons c old) in
    ap (λ x. replace_from (String.◌∷◌ c old) new x 0) (cons-append c old t)
    ∙ rw (found) refl
    ∙ ap (λ n. new +++ replace_from (String.◌∷◌ c old) new (old +++ t) n) length
    ∙ ap (λ r. new +++ r) (replace_from-skip (String.◌∷◌ c old) new old t)

-- text before the first character of what is replaced
replace-before :
    (c : Char) (old new pre t : String)
    → has_char (code c) pre ≡ false
    → replace (String.◌∷◌ c old) new (pre +++ t) ≡ pre +++ replace (String.◌∷◌ c old) new t
unfolding replace replace_from has_char starts_with
replace-before c old new String.[] t h =
    ap (λ x. replace_from (String.◌∷◌ c old) new x 0) (nil-append t)
    ∙ sym (nil-append (replace_from (String.◌∷◌ c old) new t 0))
replace-before c old new (String.◌∷◌ d pre) t h =
    let apart : (code c == code d) ≡ false = ground (arith, h) in
    let later : has_char (code c) pre ≡ false = ground (arith, h) in
    ap (λ x. replace_from (String.◌∷◌ c old) new x 0) (cons-append d pre t)
    ∙ rw (apart) refl
    ∙ ap (String.◌∷◌ d) (replace-before c old new pre t later)
    ∙ sym (cons-append d pre (replace_from (String.◌∷◌ c old) new t 0))

replace_empty : (old new : String) → replace old new "" ≡ ""
unfolding replace replace_from
replace_empty old new = refl

-- Substituting a variable fills the first placeholder of a text in: what stands before it, which
-- holds no brace, is kept, the value takes its place as it is, and the rest of the text is
-- substituted in turn; a text that holds no brace comes back unchanged.
pub substitute_fills :
    (key val before after : String)
    → has_char 123 before ≡ false
    → (substitute (before +++ (placeholder key +++ after)) ((key, val) ∷ [])
        ≡ before +++ (val +++ substitute after ((key, val) ∷ [])))
      × (substitute before ((key, val) ∷ []) ≡ before)
unfolding substitute
substitute_fills key val before after plain =
    let old = "{" +++ (key +++ "}}") in
    let same : placeholder key ≡ String.◌∷◌ "{" old = brace key in
    (
      ap (λ p. replace p val (before +++ (p +++ after))) same
          ∙ replace-before "{" old val before (String.◌∷◌ "{" old +++ after) plain
          ∙ ap (λ r. before +++ r) (replace-occurrence "{" old val after)
          ∙ ap (λ p. before +++ (val +++ replace p val after)) (sym same),
      ap (λ p. replace p val before) same
          ∙ ap (replace (String.◌∷◌ "{" old) val) (sym (append-nil before))
          ∙ replace-before "{" old val before "" plain
          ∙ ap (λ r. before +++ r) (replace_empty (String.◌∷◌ "{" old) val)
          ∙ append-nil before,
    )
