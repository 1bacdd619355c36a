-- ===== src/Tools/Listing/Fits.antt =====
-- `flattenListTree` of internal/protocol/tool_files.go on a tree whose listing fits.
use cursor_cli_byok.Base.{
  ℕ, zero, suc, ◌+◌, ◌<◌, ◌≡◌, refl, ◌∙◌, sym, ap, subst, Bool, true, false, List, [], ◌∷◌, ◌++◌,
  append-nil, append_assoc, Bytes, Result, ok, new, ◌>>=◌, bind-eq-ok, map_err, ok_eq, ◌||◌, ltb,
  length, length-append, arith,
}
use cursor_cli_byok.Wire.Protowire.{Protowire}
use cursor_cli_byok.Wire.Fields.{
  WireField, decode_wire_fields, last_bytes_field, repeated_bytes_field, or_empty,
}
use cursor_cli_byok.Protocol.Schema.{malformed}
use cursor_cli_byok.Tools.Listing.{
  max_structured_tool_items, is_full, own_entry, file_entry, files_at, Flattened, flatten_children,
  append_files, flatten_list_tree,
}
use cursor_cli_byok.Tools.Listing.Tree.{
  list_all, own_entry-directory, file_entry-path, file_listing, files_listing, tree_listing,
}

-- There is room for one entry more than these.
abbrev HasRoom : List Bytes → Type 0
HasRoom entries = length entries < max_structured_tool_items

not_full : (entries added : List Bytes) → HasRoom (entries ++ added) → is_full entries ≡ false
not_full entries added room = ground (arith, length-append entries added, room)

-- The part in front of what is added last.
room_before :
    (entries first rest : List Bytes)
    → HasRoom (entries ++ (first ++ rest))
    → HasRoom ((entries ++ first) ++ rest)
room_before entries first rest room = rw (append_assoc entries first rest) room

module _ ⦃w : Protowire⦄ where
  file_listing-inv :
      (directory payload : Bytes) {added : List Bytes}
      → file_listing directory payload ≡ ok added
      → (fields : List WireField) × (malformed
            (new "decode tool result: malformed list file")
            (decode_wire_fields payload)
          ≡ ok fields)
        × (file_entry directory (or_empty (last_bytes_field fields 1)) ≡ added)
  unfolding file_listing
  file_listing-inv directory payload e =
      let (fields, wire, e1) = bind-eq-ok (map_err _ (decode_wire_fields payload)) _ e in
      let name = or_empty (last_bytes_field fields 1) in
      (fields, wire, file_entry-path directory name ∙ ok_eq e1)

  append_files_fits :
      (directory : Bytes) (payloads entries : List Bytes) {added : List Bytes}
      → list_all (file_listing directory) payloads ≡ ok added
      → HasRoom (entries ++ added)
      → append_files directory payloads entries ≡ ok (false, entries ++ added)
  unfolding append_files list_all
  append_files_fits directory [] entries e room =
      ap (λ (a : List Bytes). ok (false, a))
        (sym (append-nil entries) ∙ ap (◌++◌ entries) (ok_eq e))
  append_files_fits directory (payload ∷ payloads) entries {added} e room =
      let (first, listed, e1) = bind-eq-ok (file_listing directory payload) _ e in
      let (rest, listed', e2) = bind-eq-ok (list_all (file_listing directory) payloads) _ e1 in
      let (fields, wire, entry) = file_listing-inv directory payload listed in
      let room' = subst (λ (a : List Bytes). HasRoom (entries ++ a)) (sym (ok_eq e2)) room in
      rw (not_full entries added room, append_files)
        (rw wire (
          rw entry (
            append_files_fits directory payloads (entries ++ first) listed'
              (room_before entries first rest room')
            ∙ ap (λ (a : List Bytes). ok (false, a))
                (append_assoc entries first rest ∙ ap (◌++◌ entries) (ok_eq e2)))))

  -- Where the listing is found and fits, the visit finds it and is not truncated.
  abbrev Finds : (Bytes → List Bytes → Result Flattened) → (Bytes → Result (List Bytes)) → Type 0
  Finds visit listing =
      (child : Bytes) (entries added : List Bytes)
      → listing child ≡ ok added
      → HasRoom (entries ++ added)
      → visit child entries ≡ ok (false, entries ++ added)

  flatten_children_step :
      (visit : Bytes → List Bytes → Result Flattened) (child : Bytes)
      (children entries middle : List Bytes)
      → visit child entries ≡ ok (false, middle)
      → is_full middle ≡ false
      → flatten_children visit (child ∷ children) false entries
        ≡ flatten_children visit children false middle
  unfolding flatten_children
  flatten_children_step visit child children entries middle visited room =
      ap
        (λ (r : Result Flattened). r >>= λ r'. elim (is_full r'.1) [
          | true ↦ ok (true, r'.1)
          | false ↦ flatten_children visit children (false || r'.0) r'.1
        ])
        visited
      ∙ ap
          (λ (b : Bool). elim b as (λ x. Result Flattened) [
            | true ↦ ok (true, middle)
            | false ↦ flatten_children visit children false middle
          ])
          room

  flatten_children_fits :
      (visit : Bytes → List Bytes → Result Flattened) (listing : Bytes → Result (List Bytes))
      (children entries : List Bytes) {added : List Bytes}
      → Finds visit listing
      → list_all listing children ≡ ok added
      → HasRoom (entries ++ added)
      → flatten_children visit children false entries ≡ ok (false, entries ++ added)
  unfolding flatten_children list_all
  flatten_children_fits visit listing [] entries fits e room =
      ap (λ (a : List Bytes). ok (false, a))
        (sym (append-nil entries) ∙ ap (◌++◌ entries) (ok_eq e))
  flatten_children_fits visit listing (child ∷ children) entries {added} fits e room =
      let (first, listed, e1) = bind-eq-ok (listing child) _ e in
      let (rest, listed', e2) = bind-eq-ok (list_all listing children) _ e1 in
      let room' =
        room_before entries first rest
          (subst (λ (a : List Bytes). HasRoom (entries ++ a)) (sym (ok_eq e2)) room) in
      let one_room : HasRoom (entries ++ first) =
        omega (arith, room', length-append (entries ++ first) rest) in
      flatten_children_step visit child children entries (entries ++ first)
        (fits child entries first listed one_room) (not_full (entries ++ first) rest room')
      ∙ (flatten_children_fits visit listing children (entries ++ first) fits listed' room'
          ∙ ap (λ (a : List Bytes). ok (false, a))
              (append_assoc entries first rest ∙ ap (◌++◌ entries) (ok_eq e2)))

  files_listing-at :
      (maximum left depth : ℕ) (directory : Bytes) (fields : List WireField)
      → depth + left ≡ maximum
      → files_listing maximum depth directory fields
        ≡ list_all (file_listing directory) (files_at left fields)
  unfolding files_listing list_all
  files_listing-at maximum zero depth directory fields d =
      let last : ltb depth maximum ≡ false = ground (arith, d) in rw (last, files_listing) refl
  files_listing-at maximum (suc left) depth directory fields d =
      let above : ltb depth maximum ≡ true = ground (arith, d) in rw (above, files_listing) refl

  -- A tree that is flattened from a depth down to a maximum, with `maximum + 1 - depth` depths
  -- left: where its listing, of directories that lie within the depths left and of the files of
  -- the directories above the maximum, can be read and brings the entries to less than 4096,
  -- flattening adds just the listing and does not report the tree truncated.
  pub flatten_list_tree_fits :
      (maximum left depth : ℕ) (include : Bool) (payload : Bytes) (entries added : List Bytes)
      → depth + left ≡ suc maximum
      → tree_listing maximum left depth include payload ≡ ok added
      → length (entries ++ added) < max_structured_tool_items
      → flatten_list_tree left include payload entries ≡ ok (false, entries ++ added)
  unfolding flatten_list_tree tree_listing
  flatten_list_tree_fits maximum zero depth include payload entries added d e room = absurd (cc e)
  flatten_list_tree_fits maximum (suc left) depth include payload entries added d e room =
      let (fields, wire, e1) = bind-eq-ok (map_err _ (decode_wire_fields payload)) _ e in
      let directory = or_empty (last_bytes_field fields 1) in
      let own = own_entry include directory in
      let (files, listed, e2) = bind-eq-ok (files_listing maximum depth directory fields) _ e1 in
      let (children, listed', e3) =
        bind-eq-ok
          (list_all (tree_listing maximum left (suc depth) true) (repeated_bytes_field fields 2)) _
          e2 in
      let whole : own ++ (files ++ children) ≡ added =
        ap (λ (first : List Bytes). first ++ (files ++ children))
          (own_entry-directory include directory)
        ∙ ok_eq e3 in
      let room' = room_before (entries ++ own) files children (
        room_before entries own (files ++ children)
          (subst (λ (a : List Bytes). HasRoom (entries ++ a)) (sym whole) room)) in
      let files_room : HasRoom ((entries ++ own) ++ files) =
        omega (arith, room', length-append ((entries ++ own) ++ files) children) in
      let files_done =
        append_files_fits directory (files_at left fields) (entries ++ own)
          (sym (files_listing-at maximum left depth directory fields (omega (arith, d))) ∙ listed)
          files_room in
      rw (not_full entries added room, flatten_list_tree)
        (rw wire (
          rw files_done (
            flatten_children_fits (flatten_list_tree left true)
              (tree_listing maximum left (suc depth) true) (repeated_bytes_field fields 2)
              ((entries ++ own) ++ files)
              (λ child entries' added' found fits.
                flatten_list_tree_fits maximum left (suc depth) true child entries' added'
                  (omega (arith, d)) found fits)
              listed' room'
            ∙ ap (λ (a : List Bytes). ok (false, a))
                (append_assoc (entries ++ own) files children
                  ∙ (append_assoc entries own (files ++ children) ∙ ap (◌++◌ entries) whole)))))
