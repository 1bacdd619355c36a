-- ===== src/Go/Json.antt =====
-- `json.Valid`, as the byte-by-byte scanner of `encoding/json`: a mode and the stack of open
-- objects and arrays. `validJSONObject` of internal/provider/types.go stands on it.
use cursor_cli_byok.Base.{
  ℕ, zero, suc, Bool, true, false, ◌&&◌, ◌||◌, Option, none, some, List, [], ◌∷◌, ◌==◌, ◌≡◌, refl,
  Bytes, leb, if◌then◌else◌, length, ltb,
}
use cursor_cli_byok.Go.Strings.{text}

pub data Mode : Type 0 where
  begin_value begin_value_or_empty begin_string_or_empty begin_string end_value end_top : Mode
  in_string in_escape neg zero_digit digits dot dot_digits exponent exponent_sign : Mode
  exponent_digits : Mode
  in_unicode : ℕ → Mode
  in_literal : Bytes → Mode

pub data Open : Type 0 where
  object_key object_value array_value : Open

abbrev Scan : Type 0
Scan = Mode × List Open

is_space : ℕ → Bool
is_space c = c == b' ' || (c == b'\t' || (c == b'\r' || c == b'\n'))

is_digit : ℕ → Bool
is_digit c = leb b'0' c && leb c b'9'

is_hex : ℕ → Bool
is_hex c = (leb b'0' c && leb c b'9') || ((leb b'a' c && leb c b'f') || (leb b'A' c && leb c b'F'))

-- `maxNestingDepth`
abbrev max_depth : ℕ
max_depth = 10000

push : Mode → Open → List Open → Option Scan
push m o stack = if ltb max_depth (suc (length stack)) then none else some (m, o ∷ stack)

pop : List Open → Option Scan
pop [] = none
pop (_ ∷ []) = some (end_top, [])
pop (_ ∷ o ∷ stack) = some (end_value, o ∷ stack)

begins : ℕ → List Open → Option Scan
unfolding push is_digit text
begins c stack =
    if c == b'{'
    then push begin_string_or_empty object_key stack
    else if c == b'['
    then push begin_value_or_empty array_value stack
    else if c == b'"'
    then some (in_string, stack)
    else if c == b'-'
    then some (neg, stack)
    else if c == b'0'
    then some (zero_digit, stack)
    else if c == b't'
    then some (in_literal (text "rue"), stack)
    else if c == b'f'
    then some (in_literal (text "alse"), stack)
    else if c == b'n'
    then some (in_literal (text "ull"), stack)
    else if is_digit c
    then some (digits, stack)
    else none

-- `stateEndValue`
ends : ℕ → List Open → Option Scan
unfolding is_space pop
ends c [] = if is_space c then some (end_top, []) else none
ends c (object_key ∷ stack) =
    if is_space c
    then some (end_value, object_key ∷ stack)
    else if c == b':'
    then some (begin_value, object_value ∷ stack)
    else none
ends c (object_value ∷ stack) =
    if is_space c
    then some (end_value, object_value ∷ stack)
    else if c == b','
    then some (begin_string, object_key ∷ stack)
    else if c == b'}'
    then pop (object_value ∷ stack)
    else none
ends c (array_value ∷ stack) =
    if is_space c
    then some (end_value, array_value ∷ stack)
    else if c == b','
    then some (begin_value, array_value ∷ stack)
    else if c == b']'
    then pop (array_value ∷ stack)
    else none

-- After a whole value: at the top level the scanner is at its end.
after_value : List Open → Scan
after_value [] = (end_top, [])
after_value (o ∷ stack) = (end_value, o ∷ stack)

literal_step : Bytes → ℕ → List Open → Option Scan
unfolding after_value
literal_step [] c stack = none
literal_step (b ∷ []) c stack = if c == b then some (after_value stack) else none
literal_step (b ∷ d ∷ r) c stack = if c == b then some (in_literal (d ∷ r), stack) else none

step : Scan → ℕ → Option Scan
unfolding is_space is_digit is_hex begins ends pop after_value literal_step
step (begin_value, stack) c = if is_space c then some (begin_value, stack) else begins c stack
step (begin_value_or_empty, stack) c =
    if is_space c
    then some (begin_value_or_empty, stack)
    else if c == b']'
    then ends c stack
    else begins c stack
step (begin_string_or_empty, stack) c =
    if is_space c
    then some (begin_string_or_empty, stack)
    else if c == b'}'
    then pop stack
    else if c == b'"'
    then some (in_string, stack)
    else none
step (begin_string, stack) c =
    if is_space c
    then some (begin_string, stack)
    else if c == b'"'
    then some (in_string, stack)
    else none
step (end_value, stack) c = ends c stack
step (end_top, stack) c = if is_space c then some (end_top, stack) else none
step (in_string, stack) c =
    if c == b'"'
    then some (after_value stack)
    else if c == b'\\'
    then some (in_escape, stack)
    else if leb 0x20 c
    then some (in_string, stack)
    else none
step (in_escape, stack) c =
    if c == b'u'
    then some (in_unicode 3, stack)
    else if c == b'b'
        || (c == b'f'
            || (c == b'n'
                || (c == b'r' || (c == b't' || (c == b'\\' || (c == b'/' || c == b'"'))))))
    then some (in_string, stack)
    else none
step (in_unicode zero, stack) c = if is_hex c then some (in_string, stack) else none
step (in_unicode (suc k), stack) c = if is_hex c then some (in_unicode k, stack) else none
step (neg, stack) c =
    if c == b'0'
    then some (zero_digit, stack)
    else if is_digit c
    then some (digits, stack)
    else none
step (digits, stack) c =
    if is_digit c
    then some (digits, stack)
    else if c == b'.'
    then some (dot, stack)
    else if c == b'e' || c == b'E'
    then some (exponent, stack)
    else ends c stack
step (zero_digit, stack) c =
    if c == b'.'
    then some (dot, stack)
    else if c == b'e' || c == b'E'
    then some (exponent, stack)
    else ends c stack
step (dot, stack) c = if is_digit c then some (dot_digits, stack) else none
step (dot_digits, stack) c =
    if is_digit c
    then some (dot_digits, stack)
    else if c == b'e' || c == b'E'
    then some (exponent, stack)
    else ends c stack
step (exponent, stack) c =
    if c == b'+' || c == b'-'
    then some (exponent_sign, stack)
    else if is_digit c
    then some (exponent_digits, stack)
    else none
step (exponent_sign, stack) c = if is_digit c then some (exponent_digits, stack) else none
step (exponent_digits, stack) c = if is_digit c then some (exponent_digits, stack) else ends c stack
step (in_literal r, stack) c = literal_step r c stack

scan : Scan → Bytes → Option Scan
scan s [] = some s
scan s (c ∷ rest) = elim (step s c) [ none ↦ none | some s' ↦ scan s' rest ]

at_end : Scan → Bool
at_end (end_top, _) = true
at_end _ = false

-- `scan.eof`: one more space must bring the scanner to its end.
ends_well : Option Scan → Bool
ends_well none = false
ends_well (some s) = at_end s || elim (step s b' ') [ none ↦ false | some s' ↦ at_end s' ]

unfoldable pub valid : Bytes → Bool
unfolding step scan at_end ends_well
valid data_bytes = ends_well (scan (begin_value, []) data_bytes)

unfoldable pub first_is_brace : Bytes → Bool
unfolding is_space
first_is_brace [] = false
first_is_brace (c ∷ rest) =
    let later = first_is_brace rest in if is_space c then later else c == b'{'

valid_examples :
    (valid (text "{\"a\":[1,-2.5e3,{}],\"b\":null} ") ≡ true)
    × (valid (text "{\"a\":}") ≡ false)
    × (valid (text "[1,]") ≡ false)
    × (valid (text "01") ≡ false)
    × (valid (text "") ≡ false)
    × (valid (text "[]") ≡ true)
unfolding valid text
valid_examples = (refl, refl, refl, refl, refl, refl)
