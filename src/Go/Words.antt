-- ===== src/Go/Words.antt =====
-- `strings.Fields`, `strings.Join`, `strings.HasSuffix`, `strings.Count`, `strings.Replace` and
-- `sort.Strings` on two keys.
use cursor_cli_byok.Base.{
  ℕ, zero, suc, Bool, true, false, ◌&&◌, ◌||◌, List, [], ◌∷◌, ◌++◌, ◌==◌, ◌≡◌, refl, Bytes, length,
  drop, ltb, if◌then◌else◌,
}
use mathlib.Core.List.{reverse}
use cursor_cli_byok.Go.Strings.{is_empty, text, has_prefix, space_width}

flush : Bytes → List Bytes → List Bytes
flush word words = if is_empty word then words else word ∷ words

-- The words, the one at hand in front; `k` bytes of a space are still to be dropped.
words_from : ℕ → Bytes → Bytes → List Bytes
unfolding flush
words_from k word [] = flush word []
words_from (suc k) word (a ∷ r) = words_from k word r
words_from zero word (a ∷ r) = elim (space_width (a ∷ r)) [
  | zero ↦ words_from zero (word ++ a ∷ []) r
  | suc k ↦ flush word (words_from k [] r)
]

-- `strings.Fields`
unfoldable pub split_words : Bytes → List Bytes
unfolding words_from
split_words s = words_from 0 [] s

-- `strings.Join`
unfoldable pub join_with : Bytes → List Bytes → Bytes
join_with separator [] = []
join_with separator (s ∷ []) = s
join_with separator (s ∷ t ∷ rest) = s ++ (separator ++ join_with separator (t ∷ rest))

-- `strings.HasSuffix`
pub has_suffix : Bytes → Bytes → Bool
has_suffix s suffix = has_prefix (reverse s) (reverse suffix)

-- `strings.Count` on a text that is not empty: the occurrences that do not overlap; `k` bytes of
-- the last one are still to be passed.
unfoldable pub count_from : ℕ → Bytes → Bytes → ℕ
count_from k old [] = 0
count_from (suc k) old (a ∷ s) = count_from k old s
count_from zero old (a ∷ s) = elim (has_prefix (a ∷ s) old) [
  | true ↦ suc (count_from (length (drop 1 old)) old s)
  | false ↦ count_from 0 old s
]

abbrev pub count : Bytes → Bytes → ℕ
count s old = count_from 0 old s

-- `strings.Replace` with a maximum of 1
unfoldable pub replace_first : Bytes → Bytes → Bytes → Bytes
replace_first [] old new = []
replace_first (a ∷ s) old new =
    let rest = replace_first s old new in
    if has_prefix (a ∷ s) old then new ++ drop (length old) (a ∷ s) else a ∷ rest

-- and with no maximum
unfoldable pub replace_from : ℕ → Bytes → Bytes → Bytes → Bytes
replace_from k [] old new = []
replace_from (suc k) (a ∷ s) old new = replace_from k s old new
replace_from zero (a ∷ s) old new = elim (has_prefix (a ∷ s) old) [
  | true ↦ new ++ replace_from (length (drop 1 old)) s old new
  | false ↦ a ∷ replace_from 0 s old new
]

abbrev pub replace_all : Bytes → Bytes → Bytes → Bytes
replace_all s old new = replace_from 0 s old new

-- `s < t` on strings
unfoldable pub precedes : Bytes → Bytes → Bool
precedes s [] = false
precedes [] (b ∷ t) = true
precedes (a ∷ s) (b ∷ t) = ltb a b || (a == b && precedes s t)

words_of : split_words (text "  go test ./...\n") ≡ text "go" ∷ text "test" ∷ text "./..." ∷ []
unfolding split_words text space_width
words_of = refl

counts : (count (text "aaaa") (text "aa") ≡ 2) × (count (text "abcab") (text "ab") ≡ 2)
unfolding count_from has_prefix text
counts = (refl, refl)

replaces :
    (replace_first (text "a.b.c") (text ".") (text "--") ≡ text "a--b.c")
    × (replace_all (text "a.b.c") (text ".") (text "--") ≡ text "a--b--c")
unfolding replace_first replace_from has_prefix text
replaces = (refl, refl)
