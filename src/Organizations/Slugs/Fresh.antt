-- ===== src/Organizations/Slugs/Fresh.antt =====
-- `unique_slug` of organizations/services.py ends: among as many candidates as the table has
-- slugs, and one more, some candidate is free.
use text.Mathlib.TextLemmas.{append_cancel_left, append-nil, cons-append}
use govahee.Prelude.{
  ℕ, zero, suc, ◌+◌, ◌≤◌, ◌<◌, ◌≡◌, refl, sym, ap, ◌∙◌, ◌≢◌, ◌⊎◌, inl, inr, String, true, false,
  not, List, [], ◌∷◌, none, some, length, keep, str_eq, str_eq_iff, arith, Bool-cases, Option-cases,
  truthy,
}
use govahee.Prelude.Text.{member, decimal, ◌+++◌}
use govahee.Prelude.Text.Decimal.{decimal_injective}
use govahee.Organizations.Slugs.{numbered, next_free, base_slug, unique_slug}

without : String → List String → List String
without s taken = keep (λ t. not (str_eq s t)) taken

member-without :
    (s k : String) (taken : List String) → k ≢ s → member k (without s taken) ≡ member k taken
unfolding without
member-without s k [] ne = refl
member-without s k (t ∷ ts) ne =
    ground (arith, member-without s k ts, str_eq_iff s t, str_eq_iff k t, ne)

length-without-le : (s : String) (taken : List String) → length (without s taken) ≤ length taken
unfolding without
length-without-le s [] = omega arith
length-without-le s (t ∷ ts) = ground (arith, length-without-le s ts)

length-without :
    (s : String) (taken : List String)
    → member s taken ≡ true
    → length (without s taken) < length taken
unfolding without
length-without s [] h = absurd (ground arith)
length-without s (t ∷ ts) h = ground (arith, length-without s ts, length-without-le s ts)

-- a candidate that no later round tries
abbrev IsPast : String → String → ℕ → Type 0
IsPast base s i = (j : ℕ) → i ≤ j → s ≢ numbered base j

module _ (base s : String) where
  -- rounds that never try `s` do not see it
  next_free-without :
      (fuel : ℕ) (slug : String) (i : ℕ) (taken : List String)
      → slug ≢ s
      → IsPast base s i
      → next_free fuel base slug i (without s taken) ≡ next_free fuel base slug i taken
  unfolding next_free
  next_free-without zero slug i taken ne past = refl
  next_free-without (suc fuel) slug i taken ne past =
      let later =
        next_free-without fuel (numbered base i) (i + 1) taken (λ e. past i (omega arith) (sym e))
          (λ j h. past j (omega arith)) in
      rw (member-without s slug taken ne, later)

numbered_injective : (base : String) (i j : ℕ) → numbered base i ≡ numbered base j → i ≡ j
numbered_injective base i j h =
    decimal_injective i j
      (append_cancel_left "-" (decimal i) (decimal j) (append_cancel_left base _ _ h))

dash_truthy : (t : String) → truthy ("-" +++ t) ≡ true
dash_truthy t = ap truthy (cons-append "-" String.[] t)

base-ne-numbered : (base : String) (i : ℕ) → base ≢ numbered base i
base-ne-numbered base i h =
    let nothing : "" ≡ "-" +++ decimal i =
      append_cancel_left base "" ("-" +++ decimal i) (append-nil base ∙ h) in
    cc (ap truthy nothing, dash_truthy (decimal i))

-- when no round finds a free slug, the table has a slug for each
next_free-none :
    (fuel : ℕ) (base slug : String) (i : ℕ) (taken : List String)
    → IsPast base slug i
    → next_free fuel base slug i taken ≡ none
    → fuel ≤ length taken
unfolding next_free
next_free-none zero base slug i taken past h = omega arith
next_free-none (suc fuel) base slug i taken past h = elim (Bool-cases (member slug taken)) [
  | inl used ↦
      let next = numbered base i in
      let same =
        next_free-without base slug fuel next (i + 1) taken (λ e. past i (omega arith) (sym e))
          (λ j h. past j (omega arith)) in
      let ih =
        next_free-none fuel base next (i + 1) (without slug taken)
          (λ j h e. absurd (omega (arith, numbered_injective base i j e)))
          (same ∙ rw (used) at h) in
      omega (arith, ih, length-without slug taken used)
  | inr free ↦ absurd (ground (arith, free))
]

-- A slug that the code may give: the base, or the base with a number from 2 on.
abbrev pub IsCandidate : String → String → Type 0
IsCandidate base s = (s ≡ base) ⊎ ((j : ℕ) × (2 ≤ j) × (s ≡ numbered base j))

next_free_sound :
    (fuel : ℕ) (base slug : String) (i : ℕ) (taken : List String) (s : String)
    → IsCandidate base slug
    → 2 ≤ i
    → next_free fuel base slug i taken ≡ some s
    → (member s taken ≡ false) × IsCandidate base s
unfolding next_free
next_free_sound zero base slug i taken s cand h e = absurd (ground arith)
next_free_sound (suc fuel) base slug i taken s cand h e = elim (Bool-cases (member slug taken)) [
  | inl used ↦
      next_free_sound fuel base (numbered base i) (i + 1) taken s (inr (i, h, refl)) (omega arith)
        (rw (used) at e)
  | inr free ↦ let same : slug ≡ s = ground (arith, rw (free) at e) in rw (sym same) (free, cand)
]

-- The loop ends, whatever the name and the slugs in the table: it gives a slug that no row of the
-- table has, which is the slug of the name or that slug with a number from 2 on.
pub unique_slug_total :
    (slugify : String → String) (name : String) (taken : List String)
    → (s : String) × (unique_slug slugify name taken ≡ some s)
      × (member s taken ≡ false)
      × IsCandidate (base_slug slugify name) s
unfolding unique_slug
unique_slug_total slugify name taken =
    let base = base_slug slugify name in
    elim (Option-cases (next_free (length taken + 1) base base 2 taken)) [
      | inl stuck ↦
          let many =
            next_free-none (length taken + 1) base base 2 taken (λ j h. base-ne-numbered base j)
              stuck in
          absurd (omega (arith, many))
      | inr (s, e) ↦
          let good =
            next_free_sound (length taken + 1) base base 2 taken s (inl refl) (omega arith) e in
          (s, e, good.0, good.1)
    ]
