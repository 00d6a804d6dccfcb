-- ===== src/Dispatcher/Nav/Order.antt =====
-- In which order the menu shows its entries.
use apicorex.Base.{◌≡◌, refl, true, false, List, [], ◌∷◌, arith, Bool-cases, inl, inr}
use apicorex.Base.Int.{ℤ, pos, negsuc, ltb_ℤ, eq_ℤ}
use apicorex.Text.{Bytes}
use apicorex.Text.Laws.{==_iff}
use apicorex.Registry.{PluginEntry}
use apicorex.Dispatcher.Nav.{NavEntry, sort_of, ltb_bytes, less, put, sort_stable, build_nav}

ltb_bytes_asym : (s t : Bytes) → ltb_bytes s t ≡ true → ltb_bytes t s ≡ false
unfolding ltb_bytes
ltb_bytes_asym [] [] h = cc
ltb_bytes_asym [] (b ∷ t) h = refl
ltb_bytes_asym (a ∷ s) [] h = cc
ltb_bytes_asym (a ∷ s) (b ∷ t) h = ground (arith, ltb_bytes_asym s t)

ltb_ℤ_asym : (a b : ℤ) → ltb_ℤ a b ≡ true → ltb_ℤ b a ≡ false
ltb_ℤ_asym (pos a) (pos b) h = ground arith
ltb_ℤ_asym (pos a) (negsuc b) h = cc
ltb_ℤ_asym (negsuc a) (pos b) h = refl
ltb_ℤ_asym (negsuc a) (negsuc b) h = ground arith

eq_ℤ_sym : (a b : ℤ) → eq_ℤ a b ≡ eq_ℤ b a
eq_ℤ_sym (pos a) (pos b) = ground arith
eq_ℤ_sym (pos a) (negsuc b) = refl
eq_ℤ_sym (negsuc a) (pos b) = refl
eq_ℤ_sym (negsuc a) (negsuc b) = ground arith

less_asym :
    (plugins : List PluginEntry) (a b : NavEntry)
    → less plugins a b ≡ true
    → less plugins b a ≡ false
unfolding less
less_asym plugins a b h = ground (
  arith,
  eq_ℤ_sym a.group_sort b.group_sort,
  ltb_ℤ_asym a.group_sort b.group_sort,
  eq_ℤ_sym (sort_of plugins a) (sort_of plugins b),
  ltb_ℤ_asym (sort_of plugins a) (sort_of plugins b),
  ltb_bytes_asym a.group b.group,
  ltb_bytes_asym a.plugin b.plugin,
  ==_iff a.group b.group,
  ==_iff b.group a.group,
)

-- No entry is less than the one just before it.
abbrev pub Ordered : List PluginEntry → List NavEntry → Type 0
Ordered plugins [] = Unit
Ordered plugins (a ∷ []) = Unit
Ordered plugins (a ∷ b ∷ es) = (less plugins b a ≡ false) × Ordered plugins (b ∷ es)

put-Ordered :
    (plugins : List PluginEntry) (a : NavEntry) (es : List NavEntry)
    → Ordered plugins es
    → Ordered plugins (put plugins a es)
unfolding put
put-Ordered plugins a [] o = tt
put-Ordered plugins a (b ∷ []) o = elim (Bool-cases (less plugins b a)) [
  | inl onward ↦ rw onward (less_asym plugins b a onward, tt)
  | inr stop ↦ rw stop (stop, tt)
]
put-Ordered plugins a (b ∷ c ∷ es) (cb, o) =
    let ih = put-Ordered plugins a (c ∷ es) o in
    elim (Bool-cases (less plugins b a)) [
      | inr stop ↦ rw stop (stop, (cb, o))
      | inl onward ↦ rw onward (elim (Bool-cases (less plugins c a)) [
        | inl further ↦ rw further (cb, rw further at ih)
        | inr here ↦ rw here (less_asym plugins b a onward, rw here at ih)
      ])
    ]

sort_stable-Ordered :
    (plugins : List PluginEntry) (es : List NavEntry) → Ordered plugins (sort_stable plugins es)
unfolding sort_stable
sort_stable-Ordered plugins [] = tt
sort_stable-Ordered plugins (a ∷ es) =
    put-Ordered plugins a (sort_stable plugins es) (sort_stable-Ordered plugins es)

-- The menu is in the declared order: by group_sort, then group, then the plugin's own sort key,
-- then plugin name.
pub build_nav-Ordered :
    (plugins : List PluginEntry) (perms features : List Bytes)
    → Ordered plugins (build_nav plugins perms features)
unfolding build_nav
build_nav-Ordered plugins perms features = sort_stable-Ordered plugins _
