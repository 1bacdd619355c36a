-- ===== src/Go/Strings.antt =====
-- Go's `strings` over bytes. Text is UTF-8: a rune of more than one byte is recognised by its
-- bytes, and none of the leading bytes below occurs inside another rune.
use Prim.Native.Char.{code}
use mathlib.Core.List.{reverse}
use cursor_cli_byok.Base.{
  ℕ, zero, suc, String, Bool, true, false, not, ◌&&◌, ◌||◌, [], ◌∷◌, ◌==◌, ◌≡◌, refl, ◌↔◌, Bytes,
  ltb, leb, if◌then◌else◌, arith,
}

-- The bytes of a literal of the source; every one used is ASCII.
unfoldable pub text : String → Bytes
text String.[] = []
text (String.◌∷◌ c s) = code c ∷ text s

-- `==` on strings, `bytes.Equal`
unfoldable pub same : Bytes → Bytes → Bool
same [] [] = true
same (a ∷ s) (b ∷ t) = a == b && same s t
same _ _ = false

pub same_iff : (s t : Bytes) → (same s t ≡ true) ↔ (s ≡ t)
unfolding same
same_iff (a ∷ s) (b ∷ t) = ground (arith, same_iff s t)
same_iff _ _ = ground arith

pub same_self : (s : Bytes) → same s s ≡ true
same_self s = (same_iff s s).1 refl

abbrev pub is_empty : Bytes → Bool
is_empty [] = true
is_empty (_ ∷ _) = false

abbrev between : ℕ → ℕ → ℕ → Bool
between lo hi b = leb lo b && leb b hi

-- The bytes of the space at the head of `a ∷ r`, less one; none if there is no space.
space_ascii : ℕ → Bool
space_ascii a = between 9 13 a || a == 32

-- U+0085 and U+00A0
space_two : ℕ → ℕ → Bool
space_two a b = a == 0xC2 && (b == 0x85 || b == 0xA0)

-- U+1680, U+2000 to U+200A, U+2028, U+2029, U+202F, U+205F, U+3000
space_three : ℕ → ℕ → ℕ → Bool
space_three a b c =
    (a == 0xE1 && (b == 0x9A && c == 0x80))
    || ((a == 0xE2
          && (b == 0x80 && (between 0x80 0x8A c || (c == 0xA8 || (c == 0xA9 || c == 0xAF)))))
        || ((a == 0xE2 && (b == 0x81 && c == 0x9F)) || (a == 0xE3 && (b == 0x80 && c == 0x80))))

-- The number of bytes of the space rune at the head, zero if there is none.
unfoldable pub space_width : Bytes → ℕ
unfolding space_ascii space_two space_three
space_width [] = 0
space_width (a ∷ []) = if space_ascii a then 1 else 0
space_width (a ∷ b ∷ []) = if space_ascii a then 1 else if space_two a b then 2 else 0
space_width (a ∷ b ∷ c ∷ _) =
    if space_ascii a then 1 else if space_two a b then 2 else if space_three a b c then 3 else 0

-- The same at the end, over the reversed text.
space_width_back : Bytes → ℕ
unfolding space_ascii space_two space_three
space_width_back [] = 0
space_width_back (a ∷ []) = if space_ascii a then 1 else 0
space_width_back (a ∷ b ∷ []) = if space_ascii a then 1 else if space_two b a then 2 else 0
space_width_back (a ∷ b ∷ c ∷ _) =
    if space_ascii a then 1 else if space_two b a then 2 else if space_three c b a then 3 else 0

-- Drops space runes from the front; `k` bytes of the current one are still to be dropped.
skip_spaces : (Bytes → ℕ) → ℕ → Bytes → Bytes
skip_spaces width k [] = []
skip_spaces width (suc k) (a ∷ r) = skip_spaces width k r
skip_spaces width zero (a ∷ r) = elim (width (a ∷ r)) [
  | zero ↦ a ∷ r
  | suc k ↦ skip_spaces width k r
]

-- `strings.TrimSpace`
unfoldable pub trim_space : Bytes → Bytes
unfolding space_width space_width_back skip_spaces
trim_space s = reverse (skip_spaces space_width_back 0 (reverse (skip_spaces space_width 0 s)))

-- A control character at the head: U+0000 to U+001F, U+007F, U+0080 to U+009F.
control_head : Bytes → Bool
control_head [] = false
control_head (a ∷ []) = ltb a 0x20 || a == 0x7F
control_head (a ∷ b ∷ _) = ltb a 0x20 || (a == 0x7F || (a == 0xC2 && between 0x80 0x9F b))

-- `strings.IndexFunc(s, unicode.IsControl) >= 0`
unfoldable pub has_control : Bytes → Bool
unfolding control_head
has_control [] = false
has_control (a ∷ r) = control_head (a ∷ r) || has_control r

-- `strings.IndexByte(s, b) >= 0`
unfoldable pub has_byte : ℕ → Bytes → Bool
has_byte b [] = false
has_byte b (a ∷ r) = a == b || has_byte b r

-- `strings.HasPrefix`
unfoldable pub has_prefix : Bytes → Bytes → Bool
has_prefix s [] = true
has_prefix [] (_ ∷ _) = false
has_prefix (a ∷ s) (b ∷ t) = a == b && has_prefix s t

-- `value != strings.TrimSpace(value)`
abbrev pub has_padding : Bytes → Bool
has_padding s = not (same s (trim_space s))

trims : trim_space (text " \t a b\n") ≡ text "a b"
unfolding trim_space text
trims = refl

trims_wide : trim_space (0xE3 ∷ 0x80 ∷ 0x80 ∷ b'x' ∷ 0xC2 ∷ 0xA0 ∷ []) ≡ b'x' ∷ []
unfolding trim_space
trims_wide = refl

control_in_two_bytes : has_control (b'x' ∷ 0xC2 ∷ 0x85 ∷ []) ≡ true
unfolding has_control
control_in_two_bytes = refl
