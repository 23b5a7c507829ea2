-- ===== src/Organizations/Provision/Types.antt =====
-- The types of certificates that `seed_org_types` of organizations/services.py seeds.
use govahee.Prelude.{
  ℕ, ◌≡◌, refl, ◌∙◌, String, Bool, true, not, List, [], ◌∷◌, Option, arith, ◌==◌, ==_refl, any, all,
  keep, Bool-cases, inl, inr,
}
use govahee.Prelude.Text.{str_eq_refl}
use govahee.Organizations.Provision.{
  SeededType, is_slug, get_or_create_type, head_of, tail_of, seed_types, default_types,
}

-- the types that an organization does not have
abbrev pub foreign_types : ℕ → List SeededType → List SeededType
foreign_types org types = keep (λ (t : SeededType). not (t.organization == org)) types

-- the organization has a type of every slug
abbrev pub has_all : ℕ → List (String × String) → List SeededType → Bool
has_all org ds types = all (λ (d : String × String). any (is_slug org d.0) types) ds

module _ (org : ℕ) where
  get_or_create_type-has :
      (d : String × String) (template : Option ℕ) (types : List SeededType)
      → any (is_slug org d.0) (get_or_create_type org d template types) ≡ true
  unfolding get_or_create_type
  get_or_create_type-has (slug, name) template types =
      elim (Bool-cases (any (is_slug org slug) types)) [
        | inl there ↦ rw (there) there
        | inr absent ↦ rw (absent) (ground (arith, ==_refl org, str_eq_refl slug))
      ]

  get_or_create_type-keeps :
      (slug : String) (d : String × String) (template : Option ℕ) (types : List SeededType)
      → any (is_slug org slug) types ≡ true
      → any (is_slug org slug) (get_or_create_type org d template types) ≡ true
  unfolding get_or_create_type
  get_or_create_type-keeps slug (s, name) template types h =
      elim (Bool-cases (any (is_slug org s) types)) [
        | inl there ↦ rw (there) h
        | inr absent ↦ rw (absent) (ground (arith, h))
      ]

  get_or_create_type-foreign :
      (d : String × String) (template : Option ℕ) (types : List SeededType)
      → foreign_types org (get_or_create_type org d template types) ≡ foreign_types org types
  unfolding get_or_create_type
  get_or_create_type-foreign (slug, name) template types =
      elim (Bool-cases (any (is_slug org slug) types)) [
        | inl there ↦ rw (there) refl
        | inr absent ↦ rw (absent) (ground (arith, ==_refl org))
      ]

  seed_types-keeps :
      (slug : String) (ds : List (String × String)) (templates : List ℕ) (types : List SeededType)
      → any (is_slug org slug) types ≡ true
      → any (is_slug org slug) (seed_types org ds templates types) ≡ true
  unfolding seed_types
  seed_types-keeps slug [] templates types h = h
  seed_types-keeps slug (d ∷ ds) templates types h =
      seed_types-keeps slug ds (tail_of templates)
        (get_or_create_type org d (head_of templates) types)
        (get_or_create_type-keeps slug d (head_of templates) types h)

  seed_types-has_all :
      (ds : List (String × String)) (templates : List ℕ) (types : List SeededType)
      → has_all org ds (seed_types org ds templates types) ≡ true
  unfolding seed_types
  seed_types-has_all [] templates types = refl
  seed_types-has_all (d ∷ ds) templates types =
      let next = get_or_create_type org d (head_of templates) types in
      ground (
        arith,
        seed_types-keeps d.0 ds (tail_of templates) next
            (get_or_create_type-has d (head_of templates) types),
        seed_types-has_all ds (tail_of templates) next,
      )

  seed_types-foreign :
      (ds : List (String × String)) (templates : List ℕ) (types : List SeededType)
      → foreign_types org (seed_types org ds templates types) ≡ foreign_types org types
  unfolding seed_types
  seed_types-foreign [] templates types = refl
  seed_types-foreign (d ∷ ds) templates types =
      seed_types-foreign ds (tail_of templates) (get_or_create_type org d (head_of templates) types)
      ∙ get_or_create_type-foreign d (head_of templates) types

  seed_types-again :
      (ds : List (String × String)) (templates : List ℕ) (types : List SeededType)
      → has_all org ds types ≡ true
      → seed_types org ds templates types ≡ types
  unfolding seed_types get_or_create_type
  seed_types-again [] templates types h = refl
  seed_types-again (d ∷ ds) templates types h =
      let there : any (is_slug org d.0) types ≡ true = ground (arith, h) in
      rw (there) (seed_types-again ds (tail_of templates) types (ground (arith, h)))

-- Seeding the types of an organization leaves it with a type of each of the five slugs and the types
-- of all other organizations as they were, whatever types there were and in whatever order its
-- templates come; and seeding again, even with other templates, changes nothing.
pub seed_types_once :
    (org : ℕ) (templates later : List ℕ) (types : List SeededType)
    → let seeded = seed_types org default_types templates types in
      (has_all org default_types seeded ≡ true)
      × (foreign_types org seeded ≡ foreign_types org types)
      × (seed_types org default_types later seeded ≡ seeded)
seed_types_once org templates later types =
    let seeded = seed_types org default_types templates types in
    let complete = seed_types-has_all org default_types templates types in
    (
      complete,
      seed_types-foreign org default_types templates types,
      seed_types-again org default_types later seeded complete,
    )
