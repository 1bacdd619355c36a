-- ===== src/Tools/Listing/Bounds.antt =====
-- How many entries `flattenListTree` of internal/protocol/tool_files.go leaves.
use cursor_cli_byok.Base.{
  ℕ, zero, suc, ◌≤◌, ◌≡◌, Bool, true, false, Bool-cases, inl, inr, List, [], ◌∷◌, ◌++◌, Bytes,
  Result, ok, subst, bind-eq-ok, ok_eq, map_err, length, length-append, arith, ◌||◌,
}
use cursor_cli_byok.Wire.Protowire.{Protowire}
use cursor_cli_byok.Wire.Fields.{
  decode_wire_fields, last_bytes_field, repeated_bytes_field, or_empty,
}
use cursor_cli_byok.Tools.Listing.{
  max_structured_tool_items, is_full, own_entry, file_entry, files_at, Flattened, flatten_children,
  append_files, flatten_list_tree,
}

-- The entries that a directory or a file adds are one at most.
abbrev AtMostOne : List Bytes → Type 0
AtMostOne entries = length entries ≤ 1

own_entry-AtMostOne : (include : Bool) (directory : Bytes) → AtMostOne (own_entry include directory)
own_entry-AtMostOne include directory = ground arith

file_entry-AtMostOne : (directory name : Bytes) → AtMostOne (file_entry directory name)
file_entry-AtMostOne directory name = ground arith

abbrev pub Fits : List Bytes → Type 0
Fits entries = length entries ≤ max_structured_tool_items

room_for :
    (entries more : List Bytes) → is_full entries ≡ false → AtMostOne more → Fits (entries ++ more)
room_for entries more room one = ground (arith, length-append entries more)

-- A visit of a child that keeps the bound.
abbrev KeepsFits : (Bytes → List Bytes → Result Flattened) → Type 0
KeepsFits visit =
    (child : Bytes) (entries : List Bytes) (out : Flattened)
    → Fits entries
    → visit child entries ≡ ok out
    → Fits out.1

abbrev FitsAfter : Flattened → Type 0
FitsAfter r = Fits r.1

flatten_children-Fits :
    (visit : Bytes → List Bytes → Result Flattened) (children : List Bytes) (truncated : Bool)
    (entries : List Bytes) {out : Flattened}
    → KeepsFits visit
    → Fits entries
    → flatten_children visit children truncated entries ≡ ok out
    → Fits out.1
unfolding flatten_children
flatten_children-Fits visit [] truncated entries keeps h e = subst FitsAfter (ok_eq e) h
flatten_children-Fits visit (child ∷ children) truncated entries keeps h e =
    let (r, visited, e1) = bind-eq-ok (visit child entries) _ e in
    let h' = keeps child entries r h visited in
    elim (Bool-cases (is_full r.1)) [
      | inl q ↦ subst FitsAfter (ok_eq (rw q at e1)) h'
      | inr q ↦ flatten_children-Fits visit children (truncated || r.0) r.1 keeps h' (rw q at e1)
    ]

module _ ⦃w : Protowire⦄ where
  append_files-Fits :
      (directory : Bytes) (payloads entries : List Bytes) {out : Flattened}
      → Fits entries
      → append_files directory payloads entries ≡ ok out
      → Fits out.1
  unfolding append_files
  append_files-Fits directory [] entries h e = subst FitsAfter (ok_eq e) h
  append_files-Fits directory (payload ∷ payloads) entries h e =
      elim (Bool-cases (is_full entries)) [
        | inl q ↦ subst FitsAfter (ok_eq (rw (q, append_files) at e)) h
        | inr q ↦
            let (fields, wire, e1) =
              bind-eq-ok (map_err _ (decode_wire_fields payload)) _ (rw (q, append_files) at e) in
            let name = or_empty (last_bytes_field fields 1) in
            append_files-Fits directory payloads (entries ++ file_entry directory name)
              (room_for entries (file_entry directory name) q (file_entry-AtMostOne directory name))
              e1
      ]

  -- Whatever the bytes and the depth, flattening a tree leaves no more than 4096 entries, if there
  -- were no more before.
  pub flatten_list_tree_bounded :
      (left : ℕ) (include : Bool) (payload : Bytes) (entries : List Bytes) {out : Flattened}
      → length entries ≤ max_structured_tool_items
      → flatten_list_tree left include payload entries ≡ ok out
      → length out.1 ≤ max_structured_tool_items
  unfolding flatten_list_tree
  flatten_list_tree_bounded zero include payload entries h e = subst FitsAfter (ok_eq e) h
  flatten_list_tree_bounded (suc left) include payload entries h e =
      elim (Bool-cases (is_full entries)) [
        | inl q ↦ subst FitsAfter (ok_eq (rw (q, flatten_list_tree) at e)) h
        | inr q ↦
            let (fields, wire, e1) =
              bind-eq-ok (map_err _ (decode_wire_fields payload)) _
                (rw (q, flatten_list_tree) at e) in
            let directory = or_empty (last_bytes_field fields 1) in
            let own = own_entry include directory in
            let (r, listed, e2) =
              bind-eq-ok (append_files directory (files_at left fields) (entries ++ own)) _ e1 in
            let h' =
              append_files-Fits directory (files_at left fields) (entries ++ own)
                (room_for entries own q (own_entry-AtMostOne include directory)) listed in
            elim (Bool-cases r.0) [
              | inl full ↦ subst FitsAfter (ok_eq (rw full at e2)) h'
              | inr more ↦
                  flatten_children-Fits (flatten_list_tree left true)
                    (repeated_bytes_field fields 2) false r.1
                    (λ child entries' out' h'' visited.
                      flatten_list_tree_bounded left true child entries' h'' visited)
                    h' (rw more at e2)
            ]
      ]
