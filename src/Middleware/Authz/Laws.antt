-- ===== src/Middleware/Authz/Laws.antt =====
-- What a grant covers.
use apicorex.Base.{
  ◌≡◌, ◌↔◌, ◌⊎◌, refl, sym, ap, ◌∙◌, true, false, ◌||◌, some, List, [], ◌∷◌, ◌++◌, arith, Any,
  Bool-cases, inl, inr, nat_eq, ℕ, All,
}
use mathlib.Core.Bool.{false≢true}
use apicorex.Text.{Bytes, lit, ◌==◌, cut}
use apicorex.Text.Laws.{==_iff}
use apicorex.Middleware.Authz.{segments_match, perm_match, some_match, permission_allowed}

-- A permission is a resource and an action with a colon between, the resource without a colon.
abbrev pub NoColon : Bytes → Type 0
NoColon s = All (λ (c : ℕ). nat_eq c b':' ≡ false) s

abbrev pub perm : Bytes → Bytes → Bytes
perm resource action = resource ++ (b':' ∷ action)

cut-perm : (r a : Bytes) → NoColon r → cut b':' (perm r a) ≡ some (r, a)
unfolding cut
cut-perm [] a h = refl
cut-perm (c ∷ r) a (n, h) = rw (n, cut-perm r a h)

-- A grant covers a permission: each of its segments is the same or the star.
abbrev pub Covers : Bytes → Bytes → Bytes → Bytes → Type 0
Covers gr ga rr ra = ((gr ≡ lit "*") ⊎ (gr ≡ rr)) × ((ga ≡ lit "*") ⊎ (ga ≡ ra))

segments_iff :
    (gr ga rr ra : Bytes)
    → (segments_match (some (gr, ga)) (some (rr, ra)) ≡ true) ↔ Covers gr ga rr ra
segments_iff gr ga rr ra =
    ground (arith, ==_iff gr (lit "*"), ==_iff gr rr, ==_iff ga (lit "*"), ==_iff ga ra)

perm-injective :
    (gr ga rr ra : Bytes)
    → NoColon gr
    → NoColon rr
    → perm gr ga ≡ perm rr ra
    → (gr ≡ rr) × (ga ≡ ra)
perm-injective gr ga rr ra hg hr e =
    let same = sym (cut-perm gr ga hg) ∙ ap (cut b':') e ∙ cut-perm rr ra hr in (cc, cc)

shortcut-Covers :
    (gr ga rr ra : Bytes)
    → NoColon gr
    → NoColon rr
    → (perm gr ga == perm rr ra || perm gr ga == lit "*:*") ≡ true
    → Covers gr ga rr ra
shortcut-Covers gr ga rr ra hg hr h = elim (Bool-cases (perm gr ga == perm rr ra)) [
  | inl same ↦
      let (er, ea) = perm-injective gr ga rr ra hg hr ((==_iff _ _).0 same) in (inr er, inr ea)
  | inr apart ↦
      let stars : (perm gr ga == lit "*:*") ≡ true = rw apart at h in
      let (er, ea) =
        perm-injective gr ga (lit "*") (lit "*") hg (refl, tt) ((==_iff _ _).0 stars) in
      (inl er, inl ea)
]

-- On well-formed permissions the matcher accepts exactly what the wildcards cover; the two
-- shortcuts at its top add nothing.
pub perm_match_iff :
    (gr ga rr ra : Bytes)
    → NoColon gr
    → NoColon rr
    → (perm_match (perm gr ga) (perm rr ra) ≡ true) ↔ Covers gr ga rr ra
unfolding perm_match
perm_match_iff gr ga rr ra hg hr =
    elim (Bool-cases (perm gr ga == perm rr ra || perm gr ga == lit "*:*")) [
      | inl short ↦ (λ _. shortcut-Covers gr ga rr ra hg hr short, λ _. rw short refl)
      | inr long ↦ rw (long, cut-perm gr ga hg, cut-perm rr ra hr) (segments_iff gr ga rr ra)
    ]

-- A grant, as its two segments.
abbrev pub Grant : Type 0
Grant = Bytes × Bytes

abbrev pub written : List Grant → List Bytes
written [] = []
written ((r, a) ∷ gs) = perm r a ∷ written gs

some_match_iff :
    (gs : List Grant) (rr ra : Bytes)
    → All (λ (g : Grant). NoColon g.0) gs
    → NoColon rr
    → (some_match (written gs) (perm rr ra) ≡ true) ↔ Any (λ (g : Grant). Covers g.0 g.1 rr ra) gs
unfolding some_match
some_match_iff [] rr ra hg hr = (λ h. cc, λ h. elim h [ ])
some_match_iff ((gr, ga) ∷ gs) rr ra (h, hs) hr =
    let one = perm_match_iff gr ga rr ra h hr in
    let more = some_match_iff gs rr ra hs hr in
    elim (Bool-cases (perm_match (perm gr ga) (perm rr ra))) [
      | inl hit ↦ rw hit (λ _. inl (one.0 hit), λ _. refl)
      | inr miss ↦ rw miss (
        λ h. inr (more.0 h),
        elim [ inl c ↦ absurd (false≢true (sym miss ∙ one.1 c)) | inr a ↦ more.1 a ],
      )
    ]

-- If no resource of the grants and of the required permission has a colon, a caller is allowed the
-- permission exactly if one of the grants covers it.
pub permission_allowed_iff :
    (gs : List Grant) (rr ra : Bytes)
    → All (λ (g : Grant). NoColon g.0) gs
    → NoColon rr
    → (permission_allowed (written gs) (perm rr ra) ≡ true)
      ↔ Any (λ (g : Grant). Covers g.0 g.1 rr ra) gs
unfolding permission_allowed
permission_allowed_iff gs [] ra hg hr = some_match_iff gs [] ra hg hr
permission_allowed_iff gs (c ∷ rr) ra hg hr = some_match_iff gs (c ∷ rr) ra hg hr
