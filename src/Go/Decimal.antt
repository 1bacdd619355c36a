-- ===== src/Go/Decimal.antt =====
-- `%d` of `fmt.Sprintf` on the integers of at most 64 bits.
use cursor_cli_byok.Base.{
  ℕ, zero, suc, ◌+◌, ◌/◌, ◌%◌, [], ◌∷◌, ◌++◌, ◌≡◌, refl, Bytes, ltb, true, false,
}
use cursor_cli_byok.Provider.{ℤ, pos, negsuc}
use cursor_cli_byok.Go.Strings.{text}

-- The digits, twenty at most, in front of those that are there.
digits : ℕ → ℕ → Bytes → Bytes
digits zero n behind = behind
digits (suc f) n behind =
    let written = (48 + n % 10) ∷ behind in
    elim (ltb n 10) [ true ↦ written | false ↦ digits f (n / 10) written ]

pub decimal : ℕ → Bytes
unfolding digits
decimal n = digits 20 n []

pub signed_decimal : ℤ → Bytes
signed_decimal (pos n) = decimal n
signed_decimal (negsuc n) = text "-" ++ decimal (n + 1)

decimals :
    (decimal 0 ≡ text "0")
    × (decimal 18446744073709551615 ≡ text "18446744073709551615")
    × (signed_decimal (negsuc 41) ≡ text "-42")
unfolding decimal signed_decimal text
decimals = (refl, refl, refl)
