-- ===== src/Tools/Summary/Bounds.antt =====
-- How long the text is that internal/protocol/tool_mcp.go makes of an MCP result.
use cursor_cli_byok.Base.{
  ℕ, zero, suc, ◌+◌, ◌-◌, ◌*◌, ◌≤◌, ◌≡◌, refl, Bool, Bool-cases, true, false, not, Option, none,
  some, inl, inr, List, [], ◌∷◌, ◌++◌, Bytes, ok, subst, bind-eq-ok, ok_eq, map_err, leb, ltb, ◌==◌,
  length, take, length-append, append-nil, arith, on_both,
}
use cursor_cli_byok.Go.Strings.{is_empty, text}
use cursor_cli_byok.Go.Words.{join_with}
use cursor_cli_byok.Go.Utf8.{to_valid_utf8}
use cursor_cli_byok.Wire.Protowire.{Protowire}
use cursor_cli_byok.Wire.Fields.{decode_wire_fields, last_bytes_field, repeated_bytes_field}
use cursor_cli_byok.Protocol.Text.{valid_utf8}
use cursor_cli_byok.Protocol.Schema.{
  object, max_proto_json_depth, decode_proto_struct, decode_proto_value,
}
use cursor_cli_byok.Protocol.Client.{required}
use cursor_cli_byok.Tools.Json.{ToolJson}
use cursor_cli_byok.Tools.Summary.{
  max_mcp_result_items, max_mcp_result_bytes, trim_invalid, bounded_mcp_section, Sections,
  add_section, joined_sections, truncation_notice, item_section, add_items, add_structured,
  summarize_mcp_success,
}

length-take_le {ℓ} : {A : Type ℓ} (n : ℕ) (s : List A) → length (take n s) ≤ n
length-take_le zero s = omega arith
length-take_le (suc n) [] = omega arith
length-take_le (suc n) (a ∷ s) = omega (arith, length-take_le n s)

length-take_less : (n : ℕ) (s : Bytes) → length (take n s) ≤ length s
length-take_less zero s = omega arith
length-take_less (suc n) [] = omega arith
length-take_less (suc n) (a ∷ s) = omega (arith, length-take_less n s)

abbrev AtMost : ℕ → Bytes → Type 0
AtMost limit s = length s ≤ limit

trim_invalid-AtMost : (n : ℕ) (value : Bytes) → length (trim_invalid n value) ≤ length value
unfolding trim_invalid
trim_invalid-AtMost zero value = omega arith
trim_invalid-AtMost (suc n) value =
    on_both (AtMost (length value)) (valid_utf8 value) (λ y. omega arith)
      (λ x. omega (arith, trim_invalid-AtMost n (take n value), length-take_less n value))

bounded_mcp_section-AtMost :
    (value : Bytes) (limit : ℕ) → length (bounded_mcp_section value limit).0 ≤ limit
unfolding bounded_mcp_section
bounded_mcp_section-AtMost value limit =
    let whole = to_valid_utf8 valid_utf8 value in
    let Fits = λ (r : Bytes × Bool). length r.0 ≤ limit in
    on_both Fits (limit == 0) {x = ([], not (is_empty whole))} (λ y. omega arith)
      (λ x.
        on_both Fits (leb (length whole) limit) {x = (whole, false)}
          {y = (trim_invalid limit (take limit whole), true)} (λ y. ground arith)
          (λ x'.
            omega
              (arith, trim_invalid-AtMost limit (take limit whole), length-take_le limit whole)))

-- The bytes of all sections together.
total : List Bytes → ℕ
total [] = 0
total (s ∷ sections) = length s + total sections

total-snoc : (xs : List Bytes) (x : Bytes) → total (xs ++ x ∷ []) ≡ total xs + length x
unfolding total
total-snoc [] x = omega arith
total-snoc (y ∷ xs) x = omega (arith, total-snoc xs x)

empty_length : (s : Bytes) → is_empty s ≡ true → length s ≡ 0
empty_length [] h = refl
empty_length (a ∷ s) h = absurd (cc h)

length-join_with :
    (separator : Bytes) (sections : List Bytes)
    → length (join_with separator sections) ≤ total sections + length separator * length sections
unfolding join_with total
length-join_with separator [] = omega arith
length-join_with separator (s ∷ []) = omega arith
length-join_with separator (s ∷ t ∷ rest) = omega (
  arith,
  length-join_with separator (t ∷ rest),
  length-append s (separator ++ join_with separator (t ∷ rest)),
  length-append separator (join_with separator (t ∷ rest)),
)

-- The bytes are counted and within the limit, and there are no more sections than `k`.
record IsWithin (k : ℕ) (s : Sections) : Type 0 where
  counted : total s.sections ≡ s.total_bytes
  few_bytes : s.total_bytes ≤ max_mcp_result_bytes
  few_sections : length s.sections ≤ k

add_section-IsWithin :
    (k : ℕ) (value : Bytes) (s : Sections) → IsWithin k s → IsWithin (suc k) (add_section value s)
unfolding add_section
add_section-IsWithin k value s h =
    let bounded = bounded_mcp_section value (max_mcp_result_bytes - s.total_bytes) in
    let fits = bounded_mcp_section-AtMost value (max_mcp_result_bytes - s.total_bytes) in
    record {
      counted =
          on_both (λ (sections : List Bytes). total sections ≡ s.total_bytes + length bounded.0)
            (is_empty bounded.0) (λ y. omega (arith, h.counted, empty_length bounded.0 y))
            (λ x. omega (arith, h.counted, total-snoc s.sections bounded.0));
      few_bytes = omega (arith, fits, h.few_bytes);
      few_sections =
          on_both (λ (sections : List Bytes). length sections ≤ suc k) (is_empty bounded.0)
            (λ y. omega (arith, h.few_sections))
            (λ x. omega (arith, h.few_sections, length-append s.sections (bounded.0 ∷ [])));
    }

wider : {k n : ℕ} {s : Sections} → k ≤ n → IsWithin k s → IsWithin n s
wider le h = record {
  counted = h.counted;
  few_bytes = h.few_bytes;
  few_sections = omega (arith, h.few_sections);
}

-- The text of a result that has no section.
no_content_length :
    length (join_with (10 ∷ 10 ∷ []) (text "MCP tool completed without content" ∷ []))
    ≤ max_mcp_result_bytes
unfolding join_with text
no_content_length = ground arith

joined :
    (k : ℕ) (sections : List Bytes) (truncated : Bool) (bytes : ℕ)
    → total sections ≡ bytes
    → bytes ≤ max_mcp_result_bytes
    → length sections ≤ k
    → length (
        joined_sections
          (record { sections = sections; total_bytes = bytes; truncated = truncated }))
      ≤ max_mcp_result_bytes + (length truncation_notice + 2 * suc k)
unfolding joined_sections
joined k [] false bytes c b f = omega (arith, no_content_length)
joined k [] true bytes c b f = omega (
  arith,
  length-join_with (10 ∷ 10 ∷ []) (truncation_notice ∷ []),
  total-snoc [] truncation_notice,
  c,
)
joined k (x ∷ xs) false bytes c b f =
    rw (append-nil xs) (omega (arith, length-join_with (10 ∷ 10 ∷ []) (x ∷ xs)))
joined k (x ∷ xs) true bytes c b f = omega (
  arith,
  total-snoc (x ∷ xs) truncation_notice,
  length-append (x ∷ xs) (truncation_notice ∷ []),
  length-join_with (10 ∷ 10 ∷ []) (x ∷ xs ++ truncation_notice ∷ []),
)

joined_sections-AtMost :
    (k : ℕ) (s : Sections)
    → IsWithin k s
    → length (joined_sections s) ≤ max_mcp_result_bytes + (length truncation_notice + 2 * suc k)
joined_sections-AtMost k s h =
    joined k s.sections s.truncated s.total_bytes h.counted h.few_bytes h.few_sections

start :
    {truncated : Bool}
    → IsWithin 0 (record { sections = []; total_bytes = 0; truncated = truncated })
unfolding total
start = record { counted = refl; few_bytes = omega arith; few_sections = omega arith }

module _ ⦃w : Protowire⦄ where
  add_items-IsWithin :
      (k : ℕ) (payloads : List Bytes) (s : Sections) {out : Sections}
      → IsWithin k s
      → add_items payloads s ≡ ok out
      → IsWithin (length payloads + k) out
  unfolding add_items
  add_items-IsWithin k [] s h e = wider (omega arith) (subst (IsWithin k) (ok_eq e) h)
  add_items-IsWithin k (payload ∷ payloads) s h e =
      let (fields, wire, e1) = bind-eq-ok (map_err _ (decode_wire_fields payload)) _ e in
      let (value, read, e2) = bind-eq-ok (item_section fields) _ e1 in
      let s' = add_section value s in
      let h' = add_section-IsWithin k value s h in
      elim (Bool-cases (leb max_mcp_result_bytes s'.total_bytes)) [
        | inl q ↦ wider (omega arith) (
            subst (IsWithin (suc k)) (ok_eq (rw q at e2)) (record {
              counted = h'.counted;
              few_bytes = h'.few_bytes;
              few_sections = h'.few_sections;
            }))
        | inr q ↦ wider (omega arith) (add_items-IsWithin (suc k) payloads s' h' (rw q at e2))
      ]

  module _ ⦃j : ToolJson⦄ where
    add_structured-IsWithin :
        (k : ℕ) (payload : Option Bytes) (s : Sections) {out : Sections}
        → IsWithin k s
        → add_structured payload s ≡ ok out
        → IsWithin (suc k) out
    unfolding add_structured
    add_structured-IsWithin k none s h e = wider (omega arith) (subst (IsWithin k) (ok_eq e) h)
    add_structured-IsWithin k (some payload) s h e =
        elim (Bool-cases (ltb s.total_bytes max_mcp_result_bytes)) [
          | inr q ↦ wider (omega arith) (subst (IsWithin k) (ok_eq (rw (q, add_structured) at e)) h)
          | inl q ↦
              let (r, decoded, e1) =
                bind-eq-ok
                  (decode_proto_struct (decode_proto_value (max_proto_json_depth + 1)) payload 0) _
                  (rw (q, add_structured) at e) in
              let (encoded, marshalled, e2) =
                bind-eq-ok (required _ (j.marshal_value (object r.0))) _ e1 in
              subst (IsWithin (suc k)) (ok_eq e2) (add_section-IsWithin k encoded s h)
        ]

    -- Whatever the bytes, the text of a successful MCP result is no longer than 262144 bytes, the
    -- notice that it was truncated, and a blank line between its 66 sections at most.
    pub summarize_mcp_success_bounded :
        (payload : Bytes) {out : Bytes × Bool}
        → summarize_mcp_success payload ≡ ok out
        → length out.0
          ≤ max_mcp_result_bytes + (length truncation_notice + 2 * suc (suc max_mcp_result_items))
    unfolding summarize_mcp_success
    summarize_mcp_success_bounded payload e =
        let (fields, wire, e1) = bind-eq-ok (map_err _ (decode_wire_fields payload)) _ e in
        let items = take max_mcp_result_items (repeated_bytes_field fields 1) in
        let (s, added, e2) = bind-eq-ok (add_items items _) _ e1 in
        let (s', added', e3) = bind-eq-ok (add_structured (last_bytes_field fields 3) s) _ e2 in
        let within = add_items-IsWithin 0 items _ start added in
        let few : length items ≤ max_mcp_result_items =
          length-take_le max_mcp_result_items (repeated_bytes_field fields 1) in
        let within' =
          add_structured-IsWithin max_mcp_result_items (last_bytes_field fields 3) s
            (wider (omega (arith, few)) within) added' in
        subst
          (λ (r : Bytes × Bool).
            length r.0
            ≤ max_mcp_result_bytes
              + (length truncation_notice + 2 * suc (suc max_mcp_result_items)))
          (ok_eq e3) (joined_sections-AtMost (suc max_mcp_result_items) s' within')
