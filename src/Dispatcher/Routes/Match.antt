-- ===== src/Dispatcher/Routes/Match.antt =====
-- What the search in the route table finds.
use apicorex.Base.{
  suc, ◌≡◌, ◌≢◌, ◌⊎◌, ◌↔◌, refl, sym, ap, ◌∙◌, Bool, true, false, none, some, List, [], ◌∷◌, ◌++◌,
  map, arith, All, Bool-cases, Option-cases, inl, inr, nat_eq, length, nat_eq_iff, length-append,
}
use mathlib.Core.Bool.{false≢true, and-eq-true_iff}
use mathlib.Core.List.{append-nil}
use apicorex.Text.{Bytes, lit, has_prefix, trim_suffix}
use apicorex.Text.Laws.{==_iff, ==_refl, has_prefix-append, ==-eq_of_length_ne}
use apicorex.Manifest.{Route}
use apicorex.Dispatcher.Routes.{
  RouteEntry, new_route, remove_routes, add_routes, segments, segments_match, pattern_match,
  wildcard_match, exact, loose, first, match,
}

first-none_iff :
    (p : RouteEntry → Bool) (rs : List RouteEntry) → (first p rs ≡ none) ↔ All (λ r. p r ≡ false) rs
unfolding first
first-none_iff p [] = (λ _. tt, λ _. refl)
first-none_iff p (s ∷ rs) = elim (Bool-cases (p s)) [
  | inl hit ↦ (λ h. cc (rw hit at h), λ a. absurd (false≢true (sym a.0 ∙ hit)))
  | inr miss ↦ (
    λ h. (miss, (first-none_iff p rs).0 (rw miss at h)),
    λ a. rw miss ((first-none_iff p rs).1 a.1),
  )
]

-- A search takes the first entry that passes.
first-split :
    (p : RouteEntry → Bool) (rs : List RouteEntry) (r : RouteEntry)
    → first p rs ≡ some r
    → (before : List RouteEntry) × (after : List RouteEntry) × (rs ≡ before ++ (r ∷ after))
      × All (λ s. p s ≡ false) before
      × (p r ≡ true)
unfolding first
first-split p [] r h = cc
first-split p (s ∷ rs) r h = elim (Bool-cases (p s)) [
  | inl hit ↦
      let same : s ≡ r = cc (rw hit at h) in
      ([], rs, ap (λ (x : RouteEntry). x ∷ rs) same, tt, rw (← same) hit)
  | inr miss ↦
      let (before, after, e, none_before, good) = first-split p rs r (rw miss at h) in
      (s ∷ before, after, ap (λ (xs : List RouteEntry). s ∷ xs) e, (miss, none_before), good)
]

-- The route that is found takes the method. Its pattern is the path, and no earlier route of the
-- table takes the method and has the path for its pattern; or no route of the table does both, it
-- matches the path by its segments or its wildcard, and no earlier route that takes the method does.
pub match_first :
    (method path : Bytes) (table : List RouteEntry) (r : RouteEntry)
    → match method path table ≡ some r
    → (before : List RouteEntry) × (after : List RouteEntry) × (table ≡ before ++ (r ∷ after))
      × ((All (λ s. exact method path s ≡ false) before × (exact method path r ≡ true))
          ⊎ (All (λ s. exact method path s ≡ false) table
              × All (λ s. loose method path s ≡ false) before
              × (loose method path r ≡ true)))
unfolding match
match_first method path table r h = elim (Option-cases (first (exact method path) table)) [
  | inr (s, found) ↦
      let same : s ≡ r = cc (rw (found, match) at h) in
      let (before, after, e, free, good) =
        first-split (exact method path) table r (found ∙ ap (λ x. some x) same) in
      (before, after, e, inl (free, good))
  | inl missed ↦
      let (before, after, e, free, good) =
        first-split (loose method path) table r (rw (missed, match) at h) in
      (before, after, e, inr ((first-none_iff (exact method path) table).0 missed, free, good))
]

-- No route is found exactly if no route of the table covers the request.
pub match-none_iff :
    (method path : Bytes) (table : List RouteEntry)
    → (match method path table ≡ none) ↔ (
        All (λ r. exact method path r ≡ false) table × All (λ r. loose method path r ≡ false) table)
unfolding match
match-none_iff method path table = elim (Option-cases (first (exact method path) table)) [
  | inr (s, found) ↦ (
    λ h. cc (rw (found, match) at h),
    λ a. cc (found, (first-none_iff (exact method path) table).1 a.0),
  )
  | inl missed ↦ (
    λ h. (
      (first-none_iff (exact method path) table).0 missed,
      (first-none_iff (loose method path) table).0 (rw (missed, match) at h),
    ),
    λ a. rw (missed, match) ((first-none_iff (loose method path) table).1 a.1),
  )
]

-- A pattern fits a path: segment by segment the same text, or a ":param" that takes any text.
pub data Fits : List Bytes → List Bytes → Type 0 where
  done : Fits [] []
  param :
      {p c : Bytes} {ps cs : List Bytes}
      → has_prefix p (lit ":") ≡ true
      → Fits ps cs
      → Fits (p ∷ ps) (c ∷ cs)
  same : {p c : Bytes} {ps cs : List Bytes} → p ≡ c → Fits ps cs → Fits (p ∷ ps) (c ∷ cs)

segments_sound : (ps cs : List Bytes) → segments_match ps cs ≡ true → Fits ps cs
unfolding segments_match
segments_sound [] [] h = done
segments_sound [] (c ∷ cs) h = cc
segments_sound (p ∷ ps) [] h = cc
segments_sound (p ∷ ps) (c ∷ cs) h = elim (Bool-cases (has_prefix p (lit ":"))) [
  | inl any ↦ param any (segments_sound ps cs (rw any at h))
  | inr text ↦
      let h' = rw text at h in
      let (here, later) = (and-eq-true_iff _ _).0 h' in
      same ((==_iff p c).0 here) (segments_sound ps cs later)
]

segments_complete : {ps cs : List Bytes} → Fits ps cs → segments_match ps cs ≡ true
unfolding segments_match
segments_complete done = refl
segments_complete (param any f) = rw any (segments_complete f)
segments_complete (same {p} {c} e f) = ground (arith, ==_iff p c, segments_complete f)

Fits-length : {ps cs : List Bytes} → Fits ps cs → length ps ≡ length cs
Fits-length done = refl
Fits-length (param any f) = ap suc (Fits-length f)
Fits-length (same e f) = ap suc (Fits-length f)

-- patternMatch accepts exactly the paths whose segments the pattern fits, slashes at either end
-- aside.
pub pattern_match_iff :
    (pattern path : Bytes)
    → (pattern_match pattern path ≡ true) ↔ Fits (segments pattern) (segments path)
unfolding pattern_match
pattern_match_iff pattern path =
    elim (Bool-cases (nat_eq (length (segments pattern)) (length (segments path)))) [
      | inl long ↦ rw long (segments_sound (segments pattern) (segments path), segments_complete)
      | inr short ↦ (
        λ h. cc (rw short at h),
        λ f. absurd (false≢true (sym short ∙ (nat_eq_iff _ _).1 (Fits-length f))),
      )
    ]

trim_wildcard : (p : Bytes) → trim_suffix (p ++ lit "/*") (lit "/*") ≡ p
unfolding trim_suffix
trim_wildcard [] = rw ==_refl
trim_wildcard (c ∷ p) =
    let longer : length (c ∷ (p ++ lit "/*")) ≢ length (lit "/*") =
      omega (arith, length-append p (lit "/*")) in
    rw (==-eq_of_length_ne (c ∷ (p ++ lit "/*")) (lit "/*") longer)
      (ap (λ (q : Bytes). c ∷ q) (trim_wildcard p))

-- A pattern that ends in "/*" matches every path that continues the text before it, with or
-- without a slash in between: "/billing/*" takes "/billing-export" too.
pub wildcard_match-append : (p s : Bytes) → wildcard_match (p ++ lit "/*") (p ++ s) ≡ true
unfolding wildcard_match
wildcard_match-append p s =
    let longer : length p ≢ length (p ++ lit "/*") = omega (arith, length-append p (lit "/*")) in
    simp (trim_wildcard, ==-eq_of_length_ne p (p ++ lit "/*") longer, has_prefix-append)

remove_routes-append :
    (id : Bytes) (rs ss : List RouteEntry)
    → remove_routes id (rs ++ ss) ≡ remove_routes id rs ++ remove_routes id ss
unfolding remove_routes
remove_routes-append id [] ss = refl
remove_routes-append id (r ∷ rs) ss = ground (arith, remove_routes-append id rs ss)

remove_routes-remove_routes :
    (id : Bytes) (rs : List RouteEntry)
    → remove_routes id (remove_routes id rs) ≡ remove_routes id rs
unfolding remove_routes
remove_routes-remove_routes id [] = refl
remove_routes-remove_routes id (r ∷ rs) = ground (arith, remove_routes-remove_routes id rs)

remove_routes-new :
    (id name : Bytes) (routes : List Route) → remove_routes id (map (new_route id name) routes) ≡ []
unfolding remove_routes
remove_routes-new id name [] = refl
remove_routes-new id name (r ∷ rs) = rw ==_refl (remove_routes-new id name rs)

-- Registering a plugin's routes again replaces the routes that it had, and removing them restores
-- the table without it.
pub add_routes-add_routes :
    (id name name' : Bytes) (routes routes' : List Route) (table : List RouteEntry)
    → (add_routes id name routes (add_routes id name' routes' table)
        ≡ add_routes id name routes table)
      × (remove_routes id (add_routes id name routes table) ≡ remove_routes id table)
unfolding add_routes
add_routes-add_routes id name name' routes routes' table = (
  simp (remove_routes-append, remove_routes-new, remove_routes-remove_routes, append-nil),
  simp (remove_routes-append, remove_routes-new, remove_routes-remove_routes, append-nil),
)
