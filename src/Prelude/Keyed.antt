-- ===== src/Prelude/Keyed.antt =====
-- Tables whose rows are found by a number: what a search sees after rows were rewritten.
use govahee.Prelude.Tests.{◌==◌}
use govahee.Prelude.Lists.{find, update}
use Prim.Native.Nat.{ℕ}
use mathlib.Core.Path.{◌≡◌, refl}
use mathlib.Core.Logic.{◌≢◌}
use mathlib.Core.List.{List, [], ◌∷◌}
use mathlib.Core.Option.{some}
use native.Mathlib.Omega.{arith}

module _ {ℓ} {A : Type ℓ} (key : A → ℕ) (f : A → A) (keeps : (x : A) → key (f x) ≡ key x) where
  -- the row that was rewritten
  pub find-update_self :
      (k : ℕ) (xs : List A) (x : A)
      → find (λ y. key y == k) xs ≡ some x
      → find (λ y. key y == k) (update (λ y. key y == k) f xs) ≡ some (f x)
  find-update_self k [] x h = ground arith
  find-update_self k (y ∷ ys) x h = ground (arith, keeps y, find-update_self k ys x)

  -- every other row
  pub find-update_ne :
      (k j : ℕ) (xs : List A)
      → j ≢ k
      → find (λ y. key y == j) (update (λ y. key y == k) f xs) ≡ find (λ y. key y == j) xs
  find-update_ne k j [] h = refl
  find-update_ne k j (y ∷ ys) h = ground (arith, keeps y, find-update_ne k j ys h)

module _ {ℓ} {A : Type ℓ} (key : A → ℕ) where
  pub find-key : (k : ℕ) (xs : List A) (x : A) → find (λ y. key y == k) xs ≡ some x → key x ≡ k
  find-key k [] x h = ground arith
  find-key k (y ∷ ys) x h = ground (arith, find-key k ys x)
