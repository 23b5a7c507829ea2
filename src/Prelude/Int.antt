-- ===== src/Prelude/Int.antt =====
-- The integers of Python, over the native numbers.
use govahee.Prelude.{ℕ, ◌+◌, ◌*◌, Bool, true, false, ◌==◌}

-- `negsuc n` is -(n + 1)
pub data ℤ : Type 0 where
  pos : ℕ → ℤ
  negsuc : ℕ → ℤ

-- `value == 0` and `value < 0`
abbrev pub is_zero : ℤ → Bool
is_zero (pos n) = n == 0
is_zero (negsuc n) = false

abbrev pub is_negative : ℤ → Bool
is_negative (pos n) = false
is_negative (negsuc n) = true

-- `value * 12`
abbrev pub twelvefold : ℤ → ℤ
twelvefold (pos n) = pos (n * 12)
twelvefold (negsuc n) = negsuc (n * 12 + 11)
