-- ===== src/Organizations/Tests/Seeds.antt =====
-- The types that are seeded for an organization that has one of them, and one of another.
use govahee.Prelude.{◌≡◌, true, List, [], ◌∷◌, none, some}
use govahee.Organizations.Provision.{SeededType, default_types, seed_types}
use govahee.Organizations.Provision.Types.{has_all, foreign_types, seed_types_once}

abbrev types : List SeededType
types =
    record {
      id = 4;
      organization = 7;
      slug = "workshop";
      name = "Workshop";
      default_template = none;
    }
    ∷ record {
      id = 3;
      organization = 8;
      slug = "language";
      name = "Language";
      default_template = some 2;
    }
    ∷ []

seed_types_once_example :
    (has_all 7 default_types (seed_types 7 default_types (5 ∷ 6 ∷ []) types) ≡ true)
    × (foreign_types 7 (seed_types 7 default_types (5 ∷ 6 ∷ []) types) ≡ foreign_types 7 types)
    × (seed_types 7 default_types [] (seed_types 7 default_types (5 ∷ 6 ∷ []) types)
        ≡ seed_types 7 default_types (5 ∷ 6 ∷ []) types)
seed_types_once_example = seed_types_once 7 (5 ∷ 6 ∷ []) [] types
