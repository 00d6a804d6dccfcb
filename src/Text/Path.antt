-- ===== src/Text/Path.antt =====
-- The functions of the standard package `path` that the dashboard calls.
pub mod Join
use apicorex.Base.{
  ℕ, Bool, true, false, not, ◌&&◌, List, [], ◌∷◌, ◌++◌, reverse, nat_eq, if◌then◌else◌,
}
use apicorex.Text.{Bytes, lit, ◌==◌, is_empty, has_prefix, contains, split, join}

-- path.Ext: from the last dot of the last element.
unfoldable pub ext : Bytes → Bytes
unfolding contains
ext [] = []
ext (a ∷ s) =
    let rest = ext s in
    if not (is_empty rest)
    then rest
    else (if nat_eq a b'.' && not (contains s (lit "/")) then a ∷ s else [])

-- The elements that path.Clean has kept, the last first, and one more.
abbrev back : Bool → List Bytes → List Bytes
back rooted [] = if rooted then [] else lit ".." ∷ []
back rooted (top ∷ rest) = if top == lit ".." then lit ".." ∷ (top ∷ rest) else rest

unfoldable pub clean_step : Bool → List Bytes → Bytes → List Bytes
unfolding ◌==◌
clean_step rooted kept e =
    if is_empty e
    then kept
    else (if e == lit "." then kept else (if e == lit ".." then back rooted kept else e ∷ kept))

unfoldable pub clean_all : Bool → List Bytes → List Bytes → List Bytes
clean_all rooted kept [] = kept
clean_all rooted kept (e ∷ es) = clean_all rooted (clean_step rooted kept e) es

-- A path of its elements; with none it is the root, or the current directory.
unfoldable pub assemble : Bool → List Bytes → Bytes
assemble rooted elements =
    let p = join (lit "/") elements in
    if rooted then lit "/" ++ p else (if is_empty p then lit "." else p)

-- path.Clean
unfoldable pub clean : Bytes → Bytes
unfolding clean_all clean_step assemble has_prefix split
clean s =
    let rooted = has_prefix s (lit "/") in
    assemble rooted (reverse (clean_all rooted [] (split b'/' s)))

-- path.Join of two elements, the second of which is not empty.
unfoldable pub join_two : Bytes → Bytes → Bytes
unfolding clean
join_two a b = if is_empty a then clean b else clean (a ++ (lit "/" ++ b))
