-- ===== src/Tools/Listing/Complete.antt =====
-- `flattenListTree` of internal/protocol/tool_files.go, not truncated, against the listing of a tree.
use cursor_cli_byok.Base.{
  ℕ, zero, suc, ◌+◌, ◌≡◌, refl, sym, ap, ltb, arith, Bool, true, false, Bool-cases, inl, inr, List,
  [], ◌∷◌, ◌++◌, append-nil, append_assoc, Bytes, Result, ok, subst, bind-eq-ok, map_err, ◌||◌, new,
}
use cursor_cli_byok.Wire.Protowire.{Protowire}
use cursor_cli_byok.Wire.Fields.{
  WireField, decode_wire_fields, last_bytes_field, repeated_bytes_field, or_empty,
}
use cursor_cli_byok.Protocol.Schema.{malformed}
use cursor_cli_byok.Tools.Listing.{
  is_full, own_entry, file_entry, files_at, Flattened, flatten_children, append_files,
  flatten_list_tree,
}
use cursor_cli_byok.Tools.Listing.Tree.{
  list_all, own_entry-directory, file_entry-path, file_listing, files_listing, tree_listing,
}

module _ ⦃w : Protowire⦄ where
  -- The entries grew by a listing.
  abbrev GrewBy : Result (List Bytes) → List Bytes → List Bytes → Type 0
  GrewBy listing entries out =
      (added : List Bytes) × (listing ≡ ok added) × (out ≡ entries ++ added)

  list_all-cons :
      (visit : Bytes → Result (List Bytes)) (child : Bytes)
      (children entries middle out : List Bytes)
      → GrewBy (visit child) entries middle
      → GrewBy (list_all visit children) middle out
      → GrewBy (list_all visit (child ∷ children)) entries out
  unfolding list_all
  list_all-cons visit child children entries middle out (a, p, q) (b, p', q') =
      (a ++ b, rw p (rw p' refl), rw q' (rw q (append_assoc entries a b)))

  append_files-GrewBy :
      (directory : Bytes) (payloads entries : List Bytes) {out : List Bytes}
      → append_files directory payloads entries ≡ ok (false, out)
      → GrewBy (list_all (file_listing directory) payloads) entries out
  unfolding append_files
  append_files-GrewBy directory [] entries {out} e =
      ([], unfold list_all in refl, cc (append-nil entries))
  append_files-GrewBy directory (payload ∷ payloads) entries {out} e =
      elim (Bool-cases (is_full entries)) [
        | inl q ↦ absurd (cc (rw (q, append_files) at e))
        | inr q ↦
            let (fields, wire, e1) =
              bind-eq-ok (map_err _ (decode_wire_fields payload)) _ (rw (q, append_files) at e) in
            let entry = file_entry directory (or_empty (last_bytes_field fields 1)) in
            list_all-cons (file_listing directory) payload payloads entries (entries ++ entry) out
              (
                entry,
                unfold file_listing in
                    rw wire (
                      ap ok
                        (sym (file_entry-path directory (or_empty (last_bytes_field fields 1))))),
                refl,
              )
              (append_files-GrewBy directory payloads (entries ++ entry) e1)
      ]

  -- What a visit that is not truncated adds is the listing.
  abbrev Lists : (Bytes → List Bytes → Result Flattened) → (Bytes → Result (List Bytes)) → Type 0
  Lists visit listing =
      (child : Bytes) (entries out : List Bytes)
      → visit child entries ≡ ok (false, out)
      → GrewBy (listing child) entries out

  neither : (a b : Bool) → a || b ≡ false → (a ≡ false) × (b ≡ false)
  neither false false h = (refl, refl)
  neither true b h = absurd (cc h)
  neither false true h = absurd (cc h)

  flatten_children-GrewBy :
      (visit : Bytes → List Bytes → Result Flattened) (listing : Bytes → Result (List Bytes))
      (children : List Bytes) (truncated : Bool) (entries : List Bytes) {out : List Bytes}
      → Lists visit listing
      → flatten_children visit children truncated entries ≡ ok (false, out)
      → (truncated ≡ false) × GrewBy (list_all listing children) entries out
  unfolding flatten_children
  flatten_children-GrewBy visit listing [] truncated entries lists e =
      (cc, ([], unfold list_all in refl, cc (append-nil entries)))
  flatten_children-GrewBy visit listing (child ∷ children) truncated entries {out} lists e =
      let (r, visited, e1) = bind-eq-ok (visit child entries) _ e in
      let Visited = λ (cut : Bool). visit child entries ≡ ok (cut, r.1) in
      elim (Bool-cases (is_full r.1)) [
        | inl q ↦ absurd (cc (rw q at e1))
        | inr q ↦
            let (uncut, grew) =
              flatten_children-GrewBy visit listing children (truncated || r.0) r.1 lists
                (rw q at e1) in
            let (whole, whole') = neither truncated r.0 uncut in
            let grew' = lists child entries r.1 (subst Visited whole' visited) in
            (whole, list_all-cons listing child children entries r.1 out grew' grew)
      ]

  -- The depths that are left decide on the files as the depth does.
  files_listing-GrewBy :
      (maximum left depth : ℕ) (directory : Bytes) (fields : List WireField) (entries : List Bytes)
      {out : List Bytes}
      → depth + left ≡ maximum
      → append_files directory (files_at left fields) entries ≡ ok (false, out)
      → GrewBy (files_listing maximum depth directory fields) entries out
  unfolding files_listing
  files_listing-GrewBy maximum zero depth directory fields entries d e =
      let last : ltb depth maximum ≡ false = ground (arith, d) in
      ([], rw (last, files_listing) refl, unfold append_files in cc (append-nil entries))
  files_listing-GrewBy maximum (suc left) depth directory fields entries d e =
      let above : ltb depth maximum ≡ true = ground (arith, d) in
      rw (above, files_listing)
        (append_files-GrewBy directory (repeated_bytes_field fields 3) entries e)

  grew_through :
      (maximum left depth : ℕ) (include : Bool) (payload : Bytes) (fields : List WireField)
      (entries middle out : List Bytes)
      → malformed (new "decode tool result: malformed list tree") (decode_wire_fields payload)
        ≡ ok fields
      → GrewBy
          (files_listing maximum depth (or_empty (last_bytes_field fields 1)) fields)
          (entries ++ own_entry include (or_empty (last_bytes_field fields 1)))
          middle
      → GrewBy
          (list_all (tree_listing maximum left (suc depth) true) (repeated_bytes_field fields 2))
          middle
          out
      → GrewBy (tree_listing maximum (suc left) depth include payload) entries out
  unfolding tree_listing
  grew_through maximum left depth include payload fields entries middle out wire (a, p, q)
        (b, p', q') =
      let directory = or_empty (last_bytes_field fields 1) in
      let own = own_entry include directory in
      (
        own ++ (a ++ b),
        rw wire (
            rw p (
              rw p' (
                ap (λ (first : List Bytes). ok (first ++ (a ++ b)))
                  (sym (own_entry-directory include directory))))),
        rw q' (rw q (rw (append_assoc (entries ++ own) a b) (append_assoc entries own (a ++ b)))),
      )

  -- The two loops on the fields of a directory.
  both_loops :
      (maximum left depth : ℕ) (include : Bool) (payload : Bytes) (fields : List WireField)
      (entries : List Bytes) (r : Flattened) {out : List Bytes}
      → depth + left ≡ maximum
      → malformed (new "decode tool result: malformed list tree") (decode_wire_fields payload)
        ≡ ok fields
      → Lists (flatten_list_tree left true) (tree_listing maximum left (suc depth) true)
      → append_files
          (or_empty (last_bytes_field fields 1))
          (files_at left fields)
          (entries ++ own_entry include (or_empty (last_bytes_field fields 1)))
        ≡ ok r
      → elim r.0 [
        | true ↦ ok (true, r.1)
        | false ↦
            flatten_children (flatten_list_tree left true) (repeated_bytes_field fields 2) false r.1
      ]
        ≡ ok (false, out)
      → GrewBy (tree_listing maximum (suc left) depth include payload) entries out
  both_loops maximum left depth include payload fields entries (true, middle) d wire lists listed
        e =
      absurd (cc e)
  both_loops maximum left depth include payload fields entries (false, middle) {out} d wire lists
        listed e =
      let directory = or_empty (last_bytes_field fields 1) in
      let before = entries ++ own_entry include directory in
      grew_through maximum left depth include payload fields entries middle out wire
        (files_listing-GrewBy maximum left depth directory fields before d listed)
        (flatten_children-GrewBy (flatten_list_tree left true)
          (tree_listing maximum left (suc depth) true) (repeated_bytes_field fields 2) false middle
          lists e).1

  -- A tree that is flattened from a depth down to a maximum, with `maximum + 1 - depth` depths left,
  -- and is not reported truncated: the entries that were added are the listing of the tree, with the
  -- directories of every depth and the files of the directories above the maximum, and no cap on how
  -- many they are. The files of a directory at the maximum are left out, and that is not reported.
  pub flatten_list_tree_listed :
      (maximum left depth : ℕ) (include : Bool) (payload : Bytes) (entries : List Bytes)
      {out : List Bytes}
      → depth + left ≡ suc maximum
      → flatten_list_tree left include payload entries ≡ ok (false, out)
      → (added : List Bytes) × (tree_listing maximum left depth include payload ≡ ok added)
        × (out ≡ entries ++ added)
  unfolding flatten_list_tree
  flatten_list_tree_listed maximum zero depth include payload entries d e = absurd (cc e)
  flatten_list_tree_listed maximum (suc left) depth include payload entries {out} d e =
      elim (Bool-cases (is_full entries)) [
        | inl q ↦ absurd (cc (rw (q, flatten_list_tree) at e))
        | inr q ↦
            let (fields, wire, e1) =
              bind-eq-ok (map_err _ (decode_wire_fields payload)) _
                (rw (q, flatten_list_tree) at e) in
            let directory = or_empty (last_bytes_field fields 1) in
            let before = entries ++ own_entry include directory in
            let (r, listed, e2) =
              bind-eq-ok (append_files directory (files_at left fields) before) _ e1 in
            both_loops maximum left depth include payload fields entries r (omega (arith, d)) wire
              (λ child entries' out' visited.
                flatten_list_tree_listed maximum left (suc depth) true child entries'
                  (omega (arith, d)) visited)
              listed e2
      ]
