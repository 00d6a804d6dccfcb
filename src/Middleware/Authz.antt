-- ===== src/Middleware/Authz.antt =====
-- internal/middleware/authz.go.
pub mod Laws
use apicorex.Base.{Bool, true, false, ◌&&◌, ◌||◌, Option, none, some, List, [], ◌∷◌, if◌then◌else◌}
use apicorex.Text.{Bytes, lit, ◌==◌, is_empty, cut}

-- The last test of permMatch, on the segments of both sides.
abbrev pub segments_match : Option (Bytes × Bytes) → Option (Bytes × Bytes) → Bool
segments_match (some (gr, ga)) (some (rr, ra)) =
    (gr == lit "*" || gr == rr) && (ga == lit "*" || ga == ra)
segments_match _ _ = false

-- permMatch
unfoldable pub perm_match : Bytes → Bytes → Bool
perm_match granted required =
    if granted == required || granted == lit "*:*"
    then true
    else segments_match (cut b':' granted) (cut b':' required)

some_match : List Bytes → Bytes → Bool
some_match [] required = false
some_match (g ∷ gs) required = if perm_match g required then true else some_match gs required

-- PermissionAllowed
unfoldable pub permission_allowed : List Bytes → Bytes → Bool
unfolding some_match
permission_allowed granted required =
    if is_empty required then true else some_match granted required
