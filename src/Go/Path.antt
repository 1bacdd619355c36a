-- ===== src/Go/Path.antt =====
-- Go's `path.Join` on a directory and a name that is not empty.
use cursor_cli_byok.Base.{
  ℕ, Bool, false, List, [], ◌∷◌, ◌++◌, ◌==◌, ◌≡◌, refl, Bytes, if◌then◌else◌,
}
use mathlib.Core.List.{reverse}
use cursor_cli_byok.Go.Strings.{is_empty, same, text}

-- `b'/'`, which separates the elements of a path
abbrev slash : ℕ
slash = 47

-- The elements of a path, the one at hand in front.
elements : Bytes → List Bytes
elements [] = [] ∷ []
elements (b ∷ path) = start b (elements path)
  where
    start : ℕ → List Bytes → List Bytes
    start b [] = (b ∷ []) ∷ []
    start b (e ∷ es) = if b == slash then [] ∷ e ∷ es else (b ∷ e) ∷ es

-- `..` behind the elements kept, the last one in front.
back_up : Bool → List Bytes → List Bytes
back_up rooted [] = if rooted then [] else text ".." ∷ []
back_up rooted (e ∷ kept) = if same e (text "..") then text ".." ∷ e ∷ kept else kept

-- The elements that `path.Clean` keeps, the last one in front.
clean_elements : Bool → List Bytes → List Bytes → List Bytes
unfolding back_up
clean_elements rooted kept [] = kept
clean_elements rooted kept (e ∷ es) =
    clean_elements rooted
      (if is_empty e
        then kept
        else if same e (text ".")
        then kept
        else if same e (text "..")
        then back_up rooted kept
        else e ∷ kept)
      es

join_elements : List Bytes → Bytes
join_elements [] = []
join_elements (e ∷ []) = e
join_elements (e ∷ f ∷ es) = e ++ slash ∷ join_elements (f ∷ es)

is_rooted : Bytes → Bool
is_rooted [] = false
is_rooted (b ∷ path) = b == slash

-- `path.Clean`
unfoldable pub clean_path : Bytes → Bytes
unfolding clean_elements join_elements is_rooted elements
clean_path path =
    let kept = join_elements (reverse (clean_elements (is_rooted path) [] (elements path))) in
    if is_rooted path then slash ∷ kept else if is_empty kept then text "." else kept

-- `path.Join(directory, name)`
unfoldable pub join_path : Bytes → Bytes → Bytes
join_path directory name =
    if is_empty directory then clean_path name else clean_path (directory ++ slash ∷ name)

joins :
    (join_path (text "/a/b") (text "../c.go") ≡ text "/a/c.go")
    × (join_path [] (text "x//y/./z") ≡ text "x/y/z")
    × (join_path (text "a") (text "../../b") ≡ text "../b")
    × (join_path (text "/") (text "..") ≡ text "/")
unfolding join_path clean_path text same
joins = (refl, refl, refl, refl)
