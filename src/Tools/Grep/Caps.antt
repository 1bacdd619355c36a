-- ===== src/Tools/Grep/Caps.antt =====
-- How much of a grep result is kept, in internal/protocol/tool_files.go.
use cursor_cli_byok.Base.{
  ◌≤◌, ◌≡◌, Bool, true, Option, none, some, List, [], ◌∷◌, ◌++◌, Bytes, ok, length, length-append,
  arith, Option-cases, inl, inr, bind-eq-ok, ok_eq, subst, on_both, map_err,
}
use cursor_cli_byok.Wire.Protowire.{Protowire}
use cursor_cli_byok.Wire.Fields.{
  decode_wire_fields, last_bytes_field, repeated_bytes_field, or_empty,
}
use cursor_cli_byok.Protocol.Client.{required}
use cursor_cli_byok.Tools.Json.{GrepMatchContent, GrepCountContent, GrepResultContent}
use cursor_cli_byok.Tools.Listing.{max_structured_tool_items}
use cursor_cli_byok.Tools.Grep.{
  has_room, add_count, add_file, add_match, add_files, decode_counts, decode_matches,
  decode_match_files, append_grep_union, append_optional, append_workspaces, parse_grep_success,
  parse_grep_result,
}

-- No list of the content is longer than the cap.
pub record IsCapped (c : GrepResultContent) : Type 0 where
  pub counts_fit : length c.counts ≤ max_structured_tool_items
  pub files_fit : length c.files ≤ max_structured_tool_items
  pub matches_fit : length c.matches ≤ max_structured_tool_items

add_count-IsCapped :
    (count : GrepCountContent) (c : GrepResultContent) → IsCapped c → IsCapped (add_count count c)
unfolding add_count
add_count-IsCapped count c h =
    on_both IsCapped (has_room c.counts) {x = record c { counts = c.counts ++ count ∷ [] }}
      {y = record c { truncated = true }}
      (λ room. record {
        counts_fit = ground (arith, length-append c.counts (count ∷ []));
        files_fit = h.files_fit;
        matches_fit = h.matches_fit;
      })
      (λ full. record {
        counts_fit = h.counts_fit;
        files_fit = h.files_fit;
        matches_fit = h.matches_fit;
      })

add_file-IsCapped : (file : Bytes) (c : GrepResultContent) → IsCapped c → IsCapped (add_file file c)
unfolding add_file
add_file-IsCapped file c h =
    on_both IsCapped (has_room c.files) {x = record c { files = c.files ++ file ∷ [] }}
      {y = record c { truncated = true }}
      (λ room. record {
        counts_fit = h.counts_fit;
        files_fit = ground (arith, length-append c.files (file ∷ []));
        matches_fit = h.matches_fit;
      })
      (λ full. record {
        counts_fit = h.counts_fit;
        files_fit = h.files_fit;
        matches_fit = h.matches_fit;
      })

add_match-IsCapped :
    (match : GrepMatchContent) (c : GrepResultContent) → IsCapped c → IsCapped (add_match match c)
unfolding add_match
add_match-IsCapped match c h =
    on_both IsCapped (has_room c.matches) {x = record c { matches = c.matches ++ match ∷ [] }}
      {y = record c { truncated = true }}
      (λ room. record {
        counts_fit = h.counts_fit;
        files_fit = h.files_fit;
        matches_fit = ground (arith, length-append c.matches (match ∷ []));
      })
      (λ full. record {
        counts_fit = h.counts_fit;
        files_fit = h.files_fit;
        matches_fit = h.matches_fit;
      })

add_files-IsCapped :
    (files : List Bytes) (c : GrepResultContent) → IsCapped c → IsCapped (add_files files c)
unfolding add_files
add_files-IsCapped [] c h = h
add_files-IsCapped (file ∷ files) c h =
    add_files-IsCapped files (add_file file c) (add_file-IsCapped file c h)

module _ ⦃w : Protowire⦄ where
  decode_counts-IsCapped :
      (items : List Bytes) (c : GrepResultContent) {out : GrepResultContent}
      → IsCapped c
      → decode_counts items c ≡ ok out
      → IsCapped out
  unfolding decode_counts
  decode_counts-IsCapped [] c h e = subst IsCapped (ok_eq e) h
  decode_counts-IsCapped (item ∷ items) c h e =
      let (fields, wire, e1) = bind-eq-ok (map_err _ (decode_wire_fields item)) _ e in
      decode_counts-IsCapped items _ (add_count-IsCapped _ c h) e1

  decode_matches-IsCapped :
      (file : Bytes) (items : List Bytes) (c : GrepResultContent) {out : GrepResultContent}
      → IsCapped c
      → decode_matches file items c ≡ ok out
      → IsCapped out
  unfolding decode_matches
  decode_matches-IsCapped file [] c h e = subst IsCapped (ok_eq e) h
  decode_matches-IsCapped file (item ∷ items) c h e =
      let (fields, wire, e1) = bind-eq-ok (map_err _ (decode_wire_fields item)) _ e in
      decode_matches-IsCapped file items _ (add_match-IsCapped _ c h) e1

  decode_match_files-IsCapped :
      (items : List Bytes) (c : GrepResultContent) {out : GrepResultContent}
      → IsCapped c
      → decode_match_files items c ≡ ok out
      → IsCapped out
  unfolding decode_match_files
  decode_match_files-IsCapped [] c h e = subst IsCapped (ok_eq e) h
  decode_match_files-IsCapped (item ∷ items) c h e =
      let (fields, wire, e1) = bind-eq-ok (map_err _ (decode_wire_fields item)) _ e in
      let (c', read, e2) =
        bind-eq-ok
          (decode_matches (or_empty (last_bytes_field fields 1)) (repeated_bytes_field fields 2) c)
          _ e1 in
      decode_match_files-IsCapped items c' (decode_matches-IsCapped _ _ c h read) e2

  append_grep_union-IsCapped :
      (payload : Bytes) (c : GrepResultContent) {out : GrepResultContent}
      → IsCapped c
      → append_grep_union payload c ≡ ok out
      → IsCapped out
  unfolding append_grep_union
  append_grep_union-IsCapped payload c {out} h e =
      let (fields, wire, e1) = bind-eq-ok (map_err _ (decode_wire_fields payload)) _ e in
      elim (Option-cases (last_bytes_field fields 1)) [
        | inr (counts, q) ↦
            let (f, wire', e2) =
              bind-eq-ok (map_err _ (decode_wire_fields counts)) _ (rw q at e1) in
            decode_counts-IsCapped (repeated_bytes_field f 1) c h e2
        | inl q ↦ elim (Option-cases (last_bytes_field fields 2)) [
          | inr (files, q') ↦
              let (f, wire', e2) =
                bind-eq-ok (map_err _ (decode_wire_fields files)) _ (rw (q, q') at e1) in
              subst IsCapped (ok_eq e2) (add_files-IsCapped (repeated_bytes_field f 1) c h)
          | inl q' ↦ elim (Option-cases (last_bytes_field fields 3)) [
            | inr (content, q'') ↦
                let (f, wire', e2) =
                  bind-eq-ok (map_err _ (decode_wire_fields content)) _ (rw (q, q', q'') at e1) in
                decode_match_files-IsCapped (repeated_bytes_field f 1) c h e2
            | inl q'' ↦ absurd (cc (rw (q, q', q'') at e1))
          ]
        ]
      ]

  append_optional-IsCapped :
      (payload : Option Bytes) (c : GrepResultContent) {out : GrepResultContent}
      → IsCapped c
      → append_optional payload c ≡ ok out
      → IsCapped out
  unfolding append_optional
  append_optional-IsCapped none c h e = subst IsCapped (ok_eq e) h
  append_optional-IsCapped (some payload) c h e = append_grep_union-IsCapped payload c h e

  append_workspaces-IsCapped :
      (payloads : List Bytes) (c : GrepResultContent) {out : GrepResultContent}
      → IsCapped c
      → append_workspaces payloads c ≡ ok out
      → IsCapped out
  unfolding append_workspaces
  append_workspaces-IsCapped [] c h e = subst IsCapped (ok_eq e) h
  append_workspaces-IsCapped (payload ∷ payloads) c h e =
      let (fields, wire, e1) = bind-eq-ok (map_err _ (decode_wire_fields payload)) _ e in
      let (c', read, e2) = bind-eq-ok (append_optional (last_bytes_field fields 2) c) _ e1 in
      append_workspaces-IsCapped payloads c' (append_optional-IsCapped _ c h read) e2

  parse_grep_success-IsCapped :
      (payload : Bytes) {out : GrepResultContent}
      → parse_grep_success payload ≡ ok out
      → IsCapped out
  unfolding parse_grep_success
  parse_grep_success-IsCapped payload e =
      let (fields, wire, e1) = bind-eq-ok (map_err _ (decode_wire_fields payload)) _ e in
      let (c, read, e2) = bind-eq-ok (append_workspaces (repeated_bytes_field fields 4) _) _ e1 in
      append_optional-IsCapped (last_bytes_field fields 5) c
        (append_workspaces-IsCapped (repeated_bytes_field fields 4) _
          (record {
            counts_fit = ground arith;
            files_fit = ground arith;
            matches_fit = ground arith;
          })
          read)
        e2

  -- Whatever the bytes, a grep result that is parsed has no more than 4096 counts, 4096 files and
  -- 4096 matches.
  pub parse_grep_result-IsCapped :
      (payload : Bytes) {out : GrepResultContent × Bool}
      → parse_grep_result payload ≡ ok out
      → IsCapped out.0
  unfolding parse_grep_result
  parse_grep_result-IsCapped payload e =
      let Capped = λ (r : GrepResultContent × Bool). IsCapped r.0 in
      let (fields, wire, e1) = bind-eq-ok (map_err _ (decode_wire_fields payload)) _ e in
      elim (Option-cases (last_bytes_field fields 2)) [
        | inr (failure, q) ↦
            let (f, wire', e2) =
              bind-eq-ok (map_err _ (decode_wire_fields failure)) _ (rw q at e1) in
            subst Capped (ok_eq e2) (record {
              counts_fit = ground arith;
              files_fit = ground arith;
              matches_fit = ground arith;
            })
        | inl q ↦
            let (success, found, e2) =
              bind-eq-ok (required _ (last_bytes_field fields 1)) _ (rw q at e1) in
            let (c, read, e3) = bind-eq-ok (parse_grep_success success) _ e2 in
            subst Capped (ok_eq e3) (parse_grep_success-IsCapped success read)
      ]
