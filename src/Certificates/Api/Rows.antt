-- ===== src/Certificates/Api/Rows.antt =====
-- Tables of certificates in which rows of one organization are rewritten (certificates/views.py):
-- the rows of the others, and the keys.
use mathlib.Core.Path.{subst}
use govahee.Prelude.{
  ℕ, ◌≤◌, ◌≡◌, refl, sym, ap, ◌∙◌, inl, inr, Bool, true, false, ◌&&◌, ◌||◌, not, List, [], ◌∷◌,
  arith, ◌==◌, keep, count, any, update, Bool-cases,
}
use govahee.Prelude.Counts.{count-update_keeps}
use govahee.Certificates.Models.{Certificate}
use govahee.Certificates.Api.{of_org, is_certificate}

abbrev pub by_id : ℕ → Certificate → Bool
by_id k c = c.id == k

-- Primary keys are unique.
abbrev pub IsKeyed : List Certificate → Type 0
IsKeyed rows = (k : ℕ) → count (λ (c : Certificate). c.id == k) rows ≤ 1

-- the certificates of the other organizations
abbrev pub others : ℕ → List Certificate → List Certificate
others org rows = keep (λ (c : Certificate). not (of_org org c)) rows

-- a rewriting that keeps the key and the organization
abbrev pub Keeps : (Certificate → Certificate) → Type 0
Keeps f = (c : Certificate) → ((f c).id ≡ c.id) × ((f c).organization ≡ c.organization)

update_absent :
    (k : ℕ) (f : Certificate → Certificate) (rows : List Certificate)
    → count (by_id k) rows ≡ 0
    → update (by_id k) f rows ≡ rows
update_absent k f [] h = refl
update_absent k f (c ∷ cs) h = elim (Bool-cases (c.id == k)) [
  | inl here ↦ absurd (ground (arith, here))
  | inr there ↦ rw (there) (ap (◌∷◌ c) (update_absent k f cs (ground (arith, there))))
]

any-count :
    (org k : ℕ) (rows : List Certificate)
    → count (by_id k) rows ≡ 0
    → any (is_certificate org k) rows ≡ false
any-count org k [] h = refl
any-count org k (c ∷ cs) h = ground (arith, any-count org k cs)

-- the one row that has the key belongs to the organization
others-update :
    (org k : ℕ) (f : Certificate → Certificate) (rows : List Certificate)
    → Keeps f
    → count (by_id k) rows ≤ 1
    → any (is_certificate org k) rows ≡ true
    → others org (update (by_id k) f rows) ≡ others org rows
others-update org k f [] keeps one mine = cc
others-update org k f (c ∷ cs) keeps one mine = elim (Bool-cases (c.id == k)) [
  | inr there ↦
      let ih = others-update org k f cs keeps (ground (arith, there)) (ground (arith, there)) in
      rw (there) (ground (arith, ih))
  | inl here ↦
      let alone : count (by_id k) cs ≡ 0 = ground (arith, here) in
      let nothing = any-count org k cs alone in
      let own : (c.organization == org) ≡ true = ground (arith, here, nothing) in
      let (same_id, same_org) = keeps c in
      let own' : ((f c).organization == org) ≡ true = ap (λ n. n == org) same_org ∙ own in
      rw (here, own, own') (ap (others org) (update_absent k f cs alone))
]

any-update :
    (org k j : ℕ) (f : Certificate → Certificate) (rows : List Certificate)
    → Keeps f
    → any (is_certificate org j) (update (by_id k) f rows) ≡ any (is_certificate org j) rows
any-update org k j f [] keeps = refl
any-update org k j f (c ∷ cs) keeps =
    let (same_id, same_org) = keeps c in
    let ih = any-update org k j f cs keeps in
    elim (Bool-cases (c.id == k)) [
      | inl here ↦ rw (here) (
          ap (λ b. b || any (is_certificate org j) (update (by_id k) f cs))
            (ap (λ n. n == org && (f c).id == j) same_org
              ∙ ap (λ n. c.organization == org && n == j) same_id)
          ∙ ap (λ b. is_certificate org j c || b) ih)
      | inr there ↦ rw (there) (ap (λ b. is_certificate org j c || b) ih)
    ]

-- what a step may do to the certificates: nothing, or rewrite one of the organization
pub data Touched (org : ℕ) (rows : List Certificate) (rows' : List Certificate) : Type 0 where
  kept : rows' ≡ rows → Touched org rows rows'
  wrote :
      (k : ℕ) (f : Certificate → Certificate)
      → Keeps f
      → rows' ≡ update (by_id k) f rows
      → any (is_certificate org k) rows ≡ true
      → Touched org rows rows'

pub Touched-others :
    (org : ℕ) (rows rows' : List Certificate)
    → IsKeyed rows
    → Touched org rows rows'
    → (others org rows' ≡ others org rows) × IsKeyed rows'
Touched-others org rows rows' keyed (kept e) = (ap (others org) e, subst IsKeyed (sym e) keyed)
Touched-others org rows rows' keyed (wrote k f keeps e mine) = (
  ap (others org) e ∙ others-update org k f rows keeps (keyed k) mine,
  subst IsKeyed (sym e) λ j.
      subst (λ n. n ≤ 1)
        (sym (count-update_keeps (by_id k) (by_id j) f rows (λ c. ap (λ n. n == j) (keeps c).0)))
        (keyed j),
)

pub Touched-any :
    (org j : ℕ) (rows rows' : List Certificate)
    → Touched org rows rows'
    → any (is_certificate org j) rows' ≡ any (is_certificate org j) rows
Touched-any org j rows rows' (kept e) = ap (any (is_certificate org j)) e
Touched-any org j rows rows' (wrote k f keeps e mine) =
    ap (any (is_certificate org j)) e ∙ any-update org k j f rows keeps
