-- ===== src/Tools/Listing/Tests.antt =====
-- Flattened trees of the List tool on concrete bytes, over base-128 varints.
use cursor_cli_byok.Base.{◌≤◌, ◌≡◌, refl, false, List, [], ◌∷◌, ◌++◌, Bytes, ok, length, arith}
use cursor_cli_byok.Go.Strings.{same, text}
use cursor_cli_byok.Go.Path.{join_path, clean_path}
use cursor_cli_byok.Wire.Fields.{
  consume_value, next_field, decode_loop, decode_wire_fields, last_field, last_bytes_field,
  repeated_bytes_field,
}
use cursor_cli_byok.Wire.Sample.{base128, get_varint, get_tag, get_bytes, bound}
use cursor_cli_byok.Tools.Listing.{
  max_structured_tool_items, flatten_list_tree, append_files, flatten_children,
}
use cursor_cli_byok.Tools.Listing.Bounds.{flatten_list_tree_bounded}
use cursor_cli_byok.Tools.Listing.Tree.{
  tree_listing, list_all, files_listing, file_listing, file_path, directory_entry,
}
use cursor_cli_byok.Tools.Listing.Complete.{flatten_list_tree_listed}
use cursor_cli_byok.Tools.Listing.Fits.{flatten_list_tree_fits}

-- The directory `r` with the file `x` and the directory `s`.
abbrev small_tree : Bytes
small_tree = 10 ∷ 1 ∷ 114 ∷ 26 ∷ 3 ∷ 10 ∷ 1 ∷ 120 ∷ 18 ∷ 3 ∷ 10 ∷ 1 ∷ 115 ∷ []

abbrev small_listing : List Bytes
small_listing = (114 ∷ 47 ∷ 120 ∷ []) ∷ (115 ∷ []) ∷ []

flattens : flatten_list_tree 3 false small_tree [] ≡ ok (false, small_listing)
unfolding flatten_list_tree append_files flatten_children join_path clean_path text same last_field
    last_bytes_field repeated_bytes_field decode_wire_fields decode_loop next_field consume_value
    get_tag get_varint get_bytes bound
flattens = refl

flatten_list_tree_bounded_example : length small_listing ≤ max_structured_tool_items
flatten_list_tree_bounded_example =
    flatten_list_tree_bounded 3 false small_tree [] (omega arith) flattens

flatten_list_tree_listed_example :
    (added : List Bytes) × (tree_listing 2 3 0 false small_tree ≡ ok added)
    × (small_listing ≡ [] ++ added)
flatten_list_tree_listed_example = flatten_list_tree_listed 2 3 0 false small_tree [] refl flattens

lists_small : tree_listing 2 3 0 false small_tree ≡ ok small_listing
unfolding tree_listing list_all files_listing file_listing file_path directory_entry join_path
    clean_path text same last_field last_bytes_field repeated_bytes_field decode_wire_fields
    decode_loop next_field consume_value get_tag get_varint get_bytes bound
lists_small = refl

flatten_list_tree_fits_example :
    flatten_list_tree 3 false small_tree [] ≡ ok (false, [] ++ small_listing)
flatten_list_tree_fits_example =
    flatten_list_tree_fits 2 3 0 false small_tree [] small_listing refl lists_small (omega arith)

-- The directory `r` with the file `x`, at the last depth: the file is left out without a report.
leaves_out :
    flatten_list_tree 1 false (10 ∷ 1 ∷ 114 ∷ 26 ∷ 3 ∷ 10 ∷ 1 ∷ 120 ∷ []) [] ≡ ok (false, [])
unfolding flatten_list_tree append_files flatten_children last_field last_bytes_field
    repeated_bytes_field decode_wire_fields decode_loop next_field consume_value get_tag get_varint
    get_bytes bound
leaves_out = refl
