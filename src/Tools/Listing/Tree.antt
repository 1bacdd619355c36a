-- ===== src/Tools/Listing/Tree.antt =====
-- The listing of a tree, a reference for `flattenListTree` of internal/protocol/tool_files.go: it caps
-- neither the entries nor the depth of directories, and has the files of the directories above the
-- maximum depth.
use cursor_cli_byok.Base.{
  ℕ, zero, suc, ◌≡◌, refl, err, out_of_fuel, ltb, if◌then◌else◌, Bool, true, false, List, [], ◌∷◌,
  ◌++◌, Bytes, Result, ok, ◌>>=◌, new,
}
use cursor_cli_byok.Go.Path.{join_path}
use cursor_cli_byok.Wire.Protowire.{Protowire}
use cursor_cli_byok.Wire.Fields.{
  WireField, decode_wire_fields, last_bytes_field, repeated_bytes_field, or_empty,
}
use cursor_cli_byok.Protocol.Schema.{malformed}
use cursor_cli_byok.Tools.Listing.{own_entry, file_entry}

-- The listings of the children, one behind the other.
unfoldable pub list_all : (Bytes → Result (List Bytes)) → List Bytes → Result (List Bytes)
list_all visit [] = ok []
list_all visit (child ∷ children) =
    visit child >>= λ first. list_all visit children >>= λ rest. ok (first ++ rest)

-- The entry of a directory with a name, below the root.
unfoldable pub directory_entry : Bool → Bytes → List Bytes
directory_entry true (b ∷ name) = (b ∷ name) ∷ []
directory_entry _ _ = []

-- The entry of a file with a name.
unfoldable pub file_path : Bytes → Bytes → List Bytes
file_path directory [] = []
file_path directory (b ∷ name) = join_path directory (b ∷ name) ∷ []

pub own_entry-directory :
    (include : Bool) (directory : Bytes)
    → own_entry include directory ≡ directory_entry include directory
unfolding directory_entry
own_entry-directory true [] = refl
own_entry-directory true (b ∷ name) = refl
own_entry-directory false directory = refl

pub file_entry-path :
    (directory name : Bytes) → file_entry directory name ≡ file_path directory name
unfolding file_path
file_entry-path directory [] = refl
file_entry-path directory (b ∷ name) = refl

module _ ⦃w : Protowire⦄ where
  -- What one file of a directory adds.
  unfoldable pub file_listing : Bytes → Bytes → Result (List Bytes)
  file_listing directory payload =
      malformed (new "decode tool result: malformed list file") (decode_wire_fields payload)
      >>= λ fields. ok (file_path directory (or_empty (last_bytes_field fields 1)))

  -- The files of a directory at a depth, which are one deeper than it: none behind the maximum.
  unfoldable pub files_listing : ℕ → ℕ → Bytes → List WireField → Result (List Bytes)
  files_listing maximum depth directory fields =
      if ltb depth maximum
      then list_all (file_listing directory) (repeated_bytes_field fields 3)
      else ok []

  -- A tree whose root is at a depth: a directory's own entry, its files and what its children hold,
  -- at any depth and however many they are. The fuel is for the depth of the tree.
  unfoldable pub tree_listing : ℕ → ℕ → ℕ → Bool → Bytes → Result (List Bytes)
  tree_listing maximum zero depth include payload = err out_of_fuel
  tree_listing maximum (suc fuel) depth include payload =
      malformed (new "decode tool result: malformed list tree") (decode_wire_fields payload)
      >>= λ fields.
          let directory = or_empty (last_bytes_field fields 1) in
          files_listing maximum depth directory fields >>= λ files.
          list_all (tree_listing maximum fuel (suc depth) true) (repeated_bytes_field fields 2)
          >>= λ children. ok (directory_entry include directory ++ (files ++ children))
