-- ===== src/Prelude/Counts.antt =====
-- Counts of rows by a test, before and after one row is rewritten or the rows are filtered.
use Prim.Native.Nat.{ℕ, ◌+◌, ◌≤◌}
use mathlib.Core.Path.{◌≡◌, refl, ap}
use mathlib.Core.Logic.{inl, inr}
use mathlib.Core.Bool.{Bool, not}
use mathlib.Core.List.{List, [], ◌∷◌}
use mathlib.Core.Option.{Option, none, some}
use native.Mathlib.Omega.{arith}
use govahee.Prelude.Tests.{if◌then◌else◌, Bool-cases}
use govahee.Prelude.Lists.{find, count, update, length}

-- what one row adds to a count
abbrev pub hit : Bool → ℕ
hit b = if b then 1 else 0

abbrev hit_found {ℓ} : {A : Type ℓ} → (A → Bool) → Option A → ℕ
hit_found q none = 0
hit_found q (some a) = hit (q a)

module _ {ℓ} {A : Type ℓ} where
  -- a test that no row passes
  count-update_none :
      (p q : A → Bool) (f : A → A) (rows : List A)
      → count p rows ≡ 0
      → count q (update p f rows) ≡ count q rows
  count-update_none p q f [] h = refl
  count-update_none p q f (x ∷ xs) h = elim (Bool-cases (p x)) [
    | inl here ↦ absurd (ground (arith, here))
    | inr there ↦ rw there (ground (arith, there, count-update_none p q f xs))
  ]

  -- the one row that passes a test is rewritten
  pub count-update :
      (p q : A → Bool) (f : A → A) (rows : List A) (a : A)
      → find p rows ≡ some a
      → count p rows ≤ 1
      → count q (update p f rows) + hit (q a) ≡ count q rows + hit (q (f a))
  count-update p q f [] a h one = absurd (ground arith)
  count-update p q f (x ∷ xs) a h one = elim (Bool-cases (p x)) [
    | inl here ↦
        let alone : count p xs ≡ 0 = ground (arith, here) in
        let rest = count-update_none p q f xs alone in
        let old = ap (hit_found q) (rw (here) at h) in
        let new = ap (hit_found (λ y. q (f y))) (rw (here) at h) in
        rw here (omega (arith, rest, old, new))
    | inr there ↦
        let ih = count-update p q f xs a (rw (there) at h) (ground (arith, there)) in
        rw there (omega (arith, ih))
  ]

  pub count-find-none : (p : A → Bool) (rows : List A) → find p rows ≡ none → count p rows ≡ 0
  count-find-none p [] h = refl
  count-find-none p (x ∷ xs) h = ground (arith, count-find-none p xs)

  -- a rewriting that keeps a test keeps its count
  pub count-update_keeps :
      (p q : A → Bool) (f : A → A) (rows : List A)
      → ((x : A) → q (f x) ≡ q x)
      → count q (update p f rows) ≡ count q rows
  count-update_keeps p q f [] keeps = refl
  count-update_keeps p q f (x ∷ xs) keeps =
      ground (arith, keeps x, count-update_keeps p q f xs keeps)

  pub count-all :
      (p : A → Bool) (rows : List A) → count p rows + count (λ x. not (p x)) rows ≡ length rows
  count-all p [] = refl
  count-all p (x ∷ xs) = ground (arith, count-all p xs)
