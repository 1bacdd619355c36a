-- ===== src/Wire/Sample.antt =====
-- A protowire that meets the interface: base-128 varints of at most ten bytes, tags and byte
-- strings over them. It serves the tests and the examples of the theorems.
use cursor_cli_byok.Base.{
  ℕ, zero, suc, ◌+◌, ◌-◌, ◌*◌, ◌/◌, ◌%◌, ◌^◌, ◌≤◌, ◌<◌, ◌≡◌, refl, ap, true, false, ◌&&◌, Option,
  none, some, inl, inr, Option-cases, [], ◌∷◌, ◌++◌, Bytes, ltb, leb, if◌then◌else◌, length, take,
  drop, arith, length-append, append_assoc,
}
use cursor_cli_byok.Wire.Protowire.{Protowire}

unfoldable pub put_varint : ℕ → ℕ → Bytes
put_varint zero v = v ∷ []
put_varint (suc f) v = elim (ltb v 128) [
  | true ↦ v ∷ []
  | false ↦ (v % 128 + 128) ∷ put_varint f (v / 128)
]

unfoldable pub get_varint : ℕ → Bytes → Option (ℕ × ℕ)
get_varint f [] = none
get_varint zero (b ∷ r) = if ltb b 2 then some (b, 1) else none
get_varint (suc f) (b ∷ r) = elim (ltb b 128) [
  | true ↦ some (b, 1)
  | false ↦ elim (get_varint f r) [ none ↦ none | some (v, n) ↦ some (b - 128 + 128 * v, suc n) ]
]

unfoldable pub bound : ℕ → ℕ
bound zero = 2
bound (suc f) = 128 * bound f

pub get-put :
    (f v : ℕ) (rest : Bytes)
    → v < bound f
    → get_varint f (put_varint f v ++ rest) ≡ some (v, length (put_varint f v))
unfolding get_varint put_varint bound
get-put zero v rest h = ground arith
get-put (suc f) v rest h = ground (arith, get-put f (v / 128) rest)

get_varint_pos : (f : ℕ) (payload : Bytes) {v n : ℕ} → get_varint f payload ≡ some (v, n) → 1 ≤ n
unfolding get_varint
get_varint_pos f [] h = cc
get_varint_pos zero (b ∷ r) h = ground arith
get_varint_pos (suc f) (b ∷ r) h = ground arith

pub bound-64 : bound 9 ≡ 2 ^ 64
unfolding bound
bound-64 = refl

unfoldable pub put_tag : ℕ → ℕ → Bytes
put_tag number kind = put_varint 9 (number * 8 + kind)

unfoldable pub get_tag : Bytes → Option (ℕ × ℕ × ℕ)
get_tag payload = elim (get_varint 9 payload) [
  | none ↦ none
  | some (v, n) ↦ if leb 1 (v / 8) && ltb (v / 8) (2 ^ 31) then some (v / 8, v % 8, n) else none
]

unfoldable pub put_bytes : Bytes → Bytes
put_bytes value = put_varint 9 (length value) ++ value

unfoldable pub get_bytes : Bytes → Option (Bytes × ℕ)
get_bytes payload = elim (get_varint 9 payload) [
  | none ↦ none
  | some (size, n) ↦
      if leb size (length (drop n payload))
      then some (take size (drop n payload), n + size)
      else none
]

-- Little-endian numbers of `n` bytes.
unfoldable pub get_fixed : ℕ → Bytes → Option (ℕ × ℕ)
get_fixed zero payload = some (0, 0)
get_fixed (suc n) [] = none
get_fixed (suc n) (b ∷ r) = elim (get_fixed n r) [
  | none ↦ none
  | some (v, k) ↦ some (b + 256 * v, suc k)
]

unfoldable pub put_fixed : ℕ → ℕ → Bytes
put_fixed zero value = []
put_fixed (suc n) value = (value % 256) ∷ put_fixed n (value / 256)

unfoldable pub fixed_bound : ℕ → ℕ
fixed_bound zero = 1
fixed_bound (suc n) = 256 * fixed_bound n

get_fixed-cons :
    (n b : ℕ) (r : Bytes) {v k : ℕ}
    → get_fixed n r ≡ some (v, k)
    → get_fixed (suc n) (b ∷ r) ≡ some (b + 256 * v, suc k)
unfolding get_fixed
get_fixed-cons n b r e = rw e refl

pub get_fixed-put :
    (n value : ℕ) (rest : Bytes)
    → value < fixed_bound n
    → get_fixed n (put_fixed n value ++ rest) ≡ some (value, length (put_fixed n value))
unfolding put_fixed fixed_bound
get_fixed-put zero value rest h = unfold get_fixed in ground arith
get_fixed-put (suc n) value rest h =
    let e = get_fixed-put n (value / 256) rest (omega arith) in
    let split : value % 256 + 256 * (value / 256) ≡ value = omega arith in
    rw (get_fixed-cons n (value % 256) (put_fixed n (value / 256) ++ rest) e) (rw split refl)

pub fixed_bound-64 : fixed_bound 8 ≡ 2 ^ 64
unfolding fixed_bound
fixed_bound-64 = refl

pub get_tag-put :
    (number kind : ℕ) (rest : Bytes)
    → 1 ≤ number
    → number < 2 ^ 29
    → kind < 6
    → get_tag (put_tag number kind ++ rest) ≡ some (number, kind, length (put_tag number kind))
unfolding get_tag put_tag
get_tag-put number kind rest lo hi small =
    let fits : number * 8 + kind < bound 9 = rw bound-64 (omega arith) in
    rw (get-put 9 (number * 8 + kind) rest fits, get_tag) (ground arith)

take-append_length : (xs ys : Bytes) → take (length xs) (xs ++ ys) ≡ xs
take-append_length [] ys = refl
take-append_length (x ∷ xs) ys = ap (◌∷◌ x) (take-append_length xs ys)

drop-append_length : (xs ys : Bytes) → drop (length xs) (xs ++ ys) ≡ ys
drop-append_length [] ys = refl
drop-append_length (x ∷ xs) ys = drop-append_length xs ys

get_bytes_sized :
    (payload : Bytes) {size n : ℕ}
    → get_varint 9 payload ≡ some (size, n)
    → get_bytes payload ≡ (
        if leb size (length (drop n payload))
        then some (take size (drop n payload), n + size)
        else none)
unfolding get_bytes
get_bytes_sized payload e = rw (e, get_bytes)

pub get_bytes-put :
    (value rest : Bytes)
    → length value < 2 ^ 64
    → get_bytes (put_bytes value ++ rest) ≡ some (value, length (put_bytes value))
unfolding put_bytes
get_bytes-put value rest h =
    let size = put_varint 9 (length value) in
    let fits : length value < bound 9 = rw bound-64 h in
    rw (append_assoc size value rest) (
      rw (get_bytes_sized (size ++ (value ++ rest)) (get-put 9 (length value) (value ++ rest) fits))
        (rw (drop-append_length size (value ++ rest)) (
          rw (take-append_length value rest)
            (ground (arith, length-append value rest, length-append size value)))))

pub put_bytes-length : (value : Bytes) → length value ≤ length (put_bytes value)
unfolding put_bytes
put_bytes-length value = omega (arith, length-append (put_varint 9 (length value)) value)

pub get_tag_pos :
    (payload : Bytes) {number kind read : ℕ}
    → get_tag payload ≡ some (number, kind, read)
    → 1 ≤ read
unfolding get_tag
get_tag_pos payload {number} {kind} {read} h = elim (Option-cases (get_varint 9 payload)) [
  | inl q ↦ absurd (cc (rw (q, get_tag) at h))
  | inr ((v, n), q) ↦ ground (arith, q, h, get_varint_pos 9 payload q)
]

instance abbrev pub base128 : Protowire
base128 = record {
  append_tag = put_tag;
  append_varint = put_varint 9;
  append_bytes = put_bytes;
  append_fixed64 = put_fixed 8;
  consume_tag = get_tag;
  consume_varint = get_varint 9;
  consume_bytes = get_bytes;
  consume_fixed64 = get_fixed 8;
  consume_fixed32 = get_fixed 4;
  consume_field_value = λ number kind payload. none;
  consume_tag-append = get_tag-put;
  consume_varint-append = λ value rest h. get-put 9 value rest (rw bound-64 h);
  consume_bytes-append = get_bytes-put;
  consume_fixed64-append = λ value rest h. get_fixed-put 8 value rest (rw fixed_bound-64 h);
  append_bytes-length = put_bytes-length;
  consume_tag_pos = get_tag_pos;
}
