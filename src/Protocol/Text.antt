-- ===== src/Protocol/Text.antt =====
-- `validIdentifier` of internal/protocol/agent.go, `utf8.Valid`, and text that is trimmed.
use cursor_cli_byok.Base.{
  ℕ, zero, suc, Bool, true, false, not, ◌&&◌, [], ◌∷◌, ◌==◌, ◌≡◌, refl, leb, ltb, Bytes, length,
  if◌then◌else◌,
}
use cursor_cli_byok.Go.Strings.{is_empty, has_control, trim_space}

-- `validIdentifier`
unfoldable pub valid_identifier : Bytes → Bool
valid_identifier value =
    not (is_empty value) && (leb (length value) 1024 && not (has_control value))

-- The bytes that must follow in a rune: how many, and the range of the next one.
abbrev Pending : Type 0
Pending = ℕ × ℕ × ℕ

abbrev any_tail : ℕ → Pending
any_tail n = (n, 0x80, 0xBF)

-- What a first byte asks for: `none` of these ranges is no first byte.
first_byte : ℕ → Bool × Pending
first_byte b =
    if ltb b 0x80
    then (true, any_tail 0)
    else if leb 0xC2 b && leb b 0xDF
    then (true, any_tail 1)
    else if b == 0xE0
    then (true, (2, 0xA0, 0xBF))
    else if b == 0xED
    then (true, (2, 0x80, 0x9F))
    else if leb 0xE1 b && leb b 0xEF
    then (true, any_tail 2)
    else if b == 0xF0
    then (true, (3, 0x90, 0xBF))
    else if leb 0xF1 b && leb b 0xF3
    then (true, any_tail 3)
    else if b == 0xF4
    then (true, (3, 0x80, 0x8F))
    else (false, any_tail 0)

utf8_from : Pending → Bytes → Bool
unfolding first_byte
utf8_from (zero, lo, hi) [] = true
utf8_from (suc n, lo, hi) [] = false
utf8_from (zero, lo, hi) (b ∷ rest) = (first_byte b).0 && utf8_from (first_byte b).1 rest
utf8_from (suc n, lo, hi) (b ∷ rest) = (leb lo b && leb b hi) && utf8_from (any_tail n) rest

-- `utf8.Valid`, `utf8.ValidString`
unfoldable pub valid_utf8 : Bytes → Bool
unfolding utf8_from
valid_utf8 s = utf8_from (any_tail 0) s

-- `fallbackString`
unfoldable pub fallback_string : Bytes → Bytes → Bytes
fallback_string value fallback = if is_empty (trim_space value) then fallback else trim_space value

valid_utf8_examples :
    (valid_utf8 (0xE2 ∷ 0x82 ∷ 0xAC ∷ b'x' ∷ []) ≡ true)
    × (valid_utf8 (0xC0 ∷ 0x80 ∷ []) ≡ false)
    × (valid_utf8 (0xED ∷ 0xA0 ∷ 0x80 ∷ []) ≡ false)
    × (valid_utf8 (0xF0 ∷ 0x9F ∷ 0x98 ∷ []) ≡ false)
unfolding valid_utf8
valid_utf8_examples = (refl, refl, refl, refl)
