-- ===== src/Runner/Int64.antt =====
-- Go's int64, over the integers of `Provider`: addition wraps around.
use cursor_cli_byok.Base.{ℕ, ◌+◌, ◌-◌, ◌%◌, ◌^◌, ◌<◌, ◌≡◌, ltb, arith, if◌then◌else◌}
use cursor_cli_byok.Provider.{ℤ, pos, negsuc}

-- The two's complement pattern.
bits : ℤ → ℕ
bits (pos n) = n % 2 ^ 64
bits (negsuc n) = 2 ^ 64 - 1 - n % 2 ^ 64

pub of_bits : ℕ → ℤ
of_bits b = if ltb b (2 ^ 63) then pos b else negsuc (2 ^ 64 - 1 - b)

infixl 65 ◌+ℤ◌
unfoldable pub ◌+ℤ◌ : ℤ → ℤ → ℤ
unfolding bits of_bits
a +ℤ b = of_bits ((bits a + bits b) % 2 ^ 64)

pub +ℤ_pos : (a b : ℕ) → a + b < 2 ^ 63 → pos a +ℤ pos b ≡ pos (a + b)
unfolding ◌+ℤ◌
+ℤ_pos a b h = ground arith
