-- ===== src/Prelude/Lists.antt =====
-- Lists measured by native numbers, under the library's names, and search by a Boolean test.
use Prim.Native.Nat.{ℕ, suc, ◌+◌, ◌-◌}
use mathlib.Core.Path.{◌≡◌}
use mathlib.Core.Bool.{Bool, true, false, ◌||◌, ◌&&◌}
use mathlib.Core.List.{List, [], ◌∷◌, ◌++◌}
use mathlib.Core.Option.{Option, none, some}
use native.Mathlib.Omega.{arith}
use govahee.Prelude.Tests.{if◌then◌else◌, ◌==◌}

module _ {ℓ} {A : Type ℓ} where
  abbrev pub length : List A → ℕ
  length [] = 0
  length (x ∷ xs) = suc (length xs)

  pub length-append : (xs ys : List A) → length (xs ++ ys) ≡ length xs + length ys
  length-append [] ys = omega arith
  length-append (x ∷ xs) ys = omega (arith, length-append xs ys)

  -- `qs.filter(test).first()`
  abbrev pub find : (A → Bool) → List A → Option A
  find test [] = none
  find test (x ∷ xs) = if test x then some x else find test xs

  -- `xs[:n]`
  abbrev pub first : ℕ → List A → List A
  first n [] = []
  first n (x ∷ xs) = if n == 0 then [] else x ∷ first (n - 1) xs

  abbrev pub count : (A → Bool) → List A → ℕ
  count test [] = 0
  count test (x ∷ xs) = (if test x then 1 else 0) + count test xs

  abbrev pub keep : (A → Bool) → List A → List A
  keep test [] = []
  keep test (x ∷ xs) = if test x then x ∷ keep test xs else keep test xs

  abbrev pub any : (A → Bool) → List A → Bool
  any test [] = false
  any test (x ∷ xs) = test x || any test xs

  abbrev pub all : (A → Bool) → List A → Bool
  all test [] = true
  all test (x ∷ xs) = test x && all test xs

  -- `qs.filter(test).update(...)`, or a save of one row
  abbrev pub update : (A → Bool) → (A → A) → List A → List A
  update test f [] = []
  update test f (x ∷ xs) = (if test x then f x else x) ∷ update test f xs

  pub find_sound : (test : A → Bool) (xs : List A) {x : A} → find test xs ≡ some x → test x ≡ true
  find_sound test [] h = ground arith
  find_sound test (y ∷ ys) {x} h = ground (arith, find_sound test ys {x = x})

  -- Rewriting rows in a way that keeps the test is seen by the search.
  pub find-update :
      (test : A → Bool) (f : A → A) (xs : List A) {x : A}
      → find test xs ≡ some x
      → test (f x) ≡ true
      → find test (update test f xs) ≡ some (f x)
  find-update test f [] h k = ground arith
  find-update test f (y ∷ ys) {x} h k = ground (arith, find-update test f ys {x = x})

  -- A search does not see rows rewritten under a test that excludes its own.
  pub find-update_other :
      (p q : A → Bool) (f : A → A)
      → ((x : A) → q (f x) ≡ q x)
      → ((x : A) → (p x && q x) ≡ false)
      → (xs : List A)
      → ((x : A) → find q xs ≡ some x → find q (update p f xs) ≡ some x)
        × (find q xs ≡ none → find q (update p f xs) ≡ none)
  find-update_other p q f keeps apart [] = (λ x h. h, λ h. h)
  find-update_other p q f keeps apart (y ∷ ys) =
      let ih = find-update_other p q f keeps apart ys in
      (λ x h. ground (arith, keeps y, apart y, ih.0 x), λ h. ground (arith, keeps y, apart y, ih.1))

  abbrev pub All {κ} : (A → Type κ) → List A → Type κ
  All P [] = Unit
  All P (x ∷ xs) = P x × All P xs

  pub All-append {κ} :
      (P : A → Type κ) (front back : List A) → All P back → All P front → All P (front ++ back)
  All-append P [] back held given = held
  All-append P (a ∷ front) back held (first, more) = (first, All-append P front back held more)
