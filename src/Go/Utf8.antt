-- ===== src/Go/Utf8.antt =====
-- `strings.ToValidUTF8` with the replacement character. `valid` is `utf8.ValidString`.
use cursor_cli_byok.Base.{
  ℕ, zero, suc, Bool, true, false, ◌&&◌, [], ◌∷◌, ◌++◌, ◌==◌, Bytes, length, take, if◌then◌else◌,
}

-- U+FFFD
abbrev pub replacement : Bytes
replacement = 0xEF ∷ 0xBF ∷ 0xBD ∷ []

module _ (valid : Bytes → Bool) where
  -- The head of the text is a rune of that many bytes.
  rune_of : ℕ → Bytes → Bool
  rune_of n s = length (take n s) == n && valid (take n s)

  -- The bytes of the rune at the head, zero if there is none.
  rune_width : Bytes → ℕ
  unfolding rune_of
  rune_width s =
      if rune_of 1 s
      then 1
      else if rune_of 2 s
      then 2
      else if rune_of 3 s
      then 3
      else if rune_of 4 s
      then 4
      else 0

  -- `k` bytes of the rune at hand are still to be copied; `bad` says that the byte before was
  -- replaced.
  replace_invalid : ℕ → Bool → Bytes → Bytes
  unfolding rune_width
  replace_invalid k bad [] = []
  replace_invalid (suc k) bad (a ∷ s) = a ∷ replace_invalid k false s
  replace_invalid zero bad (a ∷ s) = elim (rune_width (a ∷ s)) [
    | zero ↦ let rest = replace_invalid zero true s in if bad then rest else replacement ++ rest
    | suc k ↦ a ∷ replace_invalid k false s
  ]

  unfoldable pub to_valid_utf8 : Bytes → Bytes
  unfolding replace_invalid
  to_valid_utf8 s = replace_invalid 0 false s
