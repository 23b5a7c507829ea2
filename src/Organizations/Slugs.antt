-- ===== src/Organizations/Slugs.antt =====
-- `unique_slug` of organizations/services.py. `slugify` is Django's, and a parameter.
pub mod Fresh
use govahee.Prelude.{
  ℕ, zero, suc, ◌+◌, String, List, Option, none, some, length, or_else, if◌then◌else◌,
}
use govahee.Prelude.Text.{member, decimal, ◌+++◌}

-- `f"{base}-{i}"`
abbrev pub numbered : String → ℕ → String
numbered base i = base +++ ("-" +++ decimal i)

-- The `while` loop, with fuel: `slug` is the candidate, `i` the number of the next one, and
-- `taken` the slugs of the table. `none` means that the fuel ran out.
unfoldable pub next_free : ℕ → String → String → ℕ → List String → Option String
next_free zero base slug i taken = none
next_free (suc fuel) base slug i taken =
    let rest = next_free fuel base (numbered base i) (i + 1) taken in
    if member slug taken then rest else some slug

-- `slugify(name, allow_unicode=True) or "org"`
abbrev pub base_slug : (String → String) → String → String
base_slug slugify name = or_else (slugify name) "org"

-- `unique_slug`; one round for each slug of the table and one more are enough
unfoldable pub unique_slug : (String → String) → String → List String → Option String
unique_slug slugify name taken =
    let base = base_slug slugify name in next_free (length taken + 1) base base 2 taken
