-- ===== src/Dispatcher/Nav/Visible.antt =====
-- Which entries the menu holds.
use apicorex.Base.{
  ◌≢◌, false, not, ◌&&◌, arith, ◌≡◌, ◌⊎◌, ◌↔◌, refl, sym, ap, subst, ◌∙◌, true, List, [], ◌∷◌, ◌++◌,
  In, Bool-cases, inl, inr,
}
use apicorex.Text.{Bytes, lit, ◌==◌, is_empty, contains}
use apicorex.Text.Laws.{==_iff}
use apicorex.Middleware.Authz.{permission_allowed}
use apicorex.Manifest.{NavItem}
use apicorex.Registry.{PluginEntry}
use apicorex.Dispatcher.Nav.{
  NavEntry, qualify, in_set, shown, nav_entry, collect_items, collect, less, put, sort_stable,
  build_nav,
}

-- An entry of the menu: an item of a live plugin with a link and a key, whose permission this user
-- has, and whose feature, qualified by the plugin, the tenant has, if the item names one.
pub record IsVisible (perms features : List Bytes) (plugins : List PluginEntry) (e : NavEntry)
    : Type 0 where
  pub owner : PluginEntry
  pub item : NavItem
  pub registered : In owner plugins
  pub live : owner.alive ≡ true
  pub declared : In item owner.manifest.nav
  pub linked : item.href ≢ []
  pub keyed : item.key ≢ []
  pub permitted : permission_allowed perms item.permission ≡ true
  pub enabled : (item.feature ≡ []) ⊎ In (qualify owner.info.plugin_name item.feature) features
  pub made : nav_entry owner item ≡ e

not_empty : (s : Bytes) → s ≢ [] → is_empty s ≡ false
not_empty [] h = absurd (h refl)
not_empty (a ∷ s) h = refl

qualify-not_empty : (name feature : Bytes) → feature ≢ [] → is_empty (qualify name feature) ≡ false
unfolding qualify
qualify-not_empty name feature h = elim (Bool-cases (contains feature (lit ":"))) [
  | inl qualified ↦ rw qualified (not_empty feature h)
  | inr bare ↦ rw bare (append_cons-not_empty name feature)
]
  where
    append_cons-not_empty : (s t : Bytes) → is_empty (s ++ (lit ":" ++ t)) ≡ false
    append_cons-not_empty [] t = refl
    append_cons-not_empty (a ∷ s) t = refl

in_set_iff : (k : Bytes) (vs : List Bytes) → is_empty k ≡ false → (in_set k vs ≡ true) ↔ In k vs
unfolding in_set
in_set_iff k [] full = (λ h. cc, λ h. elim h [ ])
in_set_iff k (v ∷ vs) full =
    let (to, from) = in_set_iff k vs full in
    elim (Bool-cases (v == k)) [
      | inl same ↦
          let e : v ≡ k = (==_iff v k).0 same in
          (λ h. inl e, λ h. simp (same, ap is_empty e ∙ full) refl)
      | inr apart ↦ elim (Bool-cases (is_empty v)) [
        | inl none ↦ (
          λ h. inr (to (simp (none, apart) at h)),
          elim [
            | inl e ↦ cc ((==_iff v k).1 e, apart)
            | inr there ↦ simp (none, apart) (from there)
          ],
        )
        | inr some ↦ (
          λ h. inr (to (simp (some, apart) at h)),
          elim [
            | inl e ↦ cc ((==_iff v k).1 e, apart)
            | inr there ↦ simp (some, apart) (from there)
          ],
        )
      ]
    ]

-- What the tests of buildNav on one item amount to.
abbrev IsShown : List Bytes → List Bytes → PluginEntry → NavItem → Type 0
IsShown perms features p item =
    (item.href ≢ [])
    × (item.key ≢ [])
    × (permission_allowed perms item.permission ≡ true)
    × ((item.feature ≡ []) ⊎ In (qualify p.info.plugin_name item.feature) features)

module _ (perms features : List Bytes) (p : PluginEntry) (item : NavItem) where
  enabled_iff :
      (f : Bytes)
      → (not (not (is_empty f) && not (in_set (qualify p.info.plugin_name f) features)) ≡ true)
        ↔ ((f ≡ []) ⊎ In (qualify p.info.plugin_name f) features)
  enabled_iff [] = (λ h. inl refl, λ h. refl)
  enabled_iff (a ∷ f) =
      let (to, from) =
        in_set_iff (qualify p.info.plugin_name (a ∷ f)) features
          (qualify-not_empty p.info.plugin_name (a ∷ f) cons_ne_nil) in
      elim (Bool-cases (in_set (qualify p.info.plugin_name (a ∷ f)) features)) [
        | inl listed ↦ (λ h. inr (to listed), λ h. simp listed refl)
        | inr unlisted ↦ (
          λ h. cc (simp unlisted at h),
          elim [ inl e ↦ absurd (cons_ne_nil e) | inr m ↦ cc (from m, unlisted) ],
        )
      ]
    where
      cons_ne_nil : (a ∷ f) ≢ []
      cons_ne_nil e = cc e

  shown_iff : (shown perms features p item ≡ true) ↔ IsShown perms features p item
  unfolding shown
  shown_iff =
      let (to, from) = enabled_iff item.feature in
      (
        λ h. (
          λ e. cc (rw e at h),
          λ e. elim (Bool-cases (is_empty item.href)) [
            | inl bare ↦ cc (simp bare at h)
            | inr linked ↦ cc (rw linked at (rw e at h))
          ],
          ground (arith, h),
          to (ground (arith, h)),
        ),
        λ (linked, keyed, permitted, enabled).
            simp (not_empty item.href linked, not_empty item.key keyed, permitted) (from enabled),
      )

module _ (perms features : List Bytes) where
  items_sound :
      (p : PluginEntry) (items : List NavItem) (e : NavEntry)
      → In e (collect_items perms features p items)
      → (item : NavItem) × In item items
        × (shown perms features p item ≡ true)
        × (nav_entry p item ≡ e)
  unfolding collect_items
  items_sound p [] e h = elim h [ ]
  items_sound p (item ∷ items) e h = elim (Bool-cases (shown perms features p item)) [
    | inl ok ↦
        let h' : (nav_entry p item ≡ e) ⊎ In e (collect_items perms features p items) =
          rw ok at h in
        elim h' [
          | inl here ↦ (item, inl refl, ok, here)
          | inr there ↦ let (j, m, s, q) = items_sound p items e there in (j, inr m, s, q)
        ]
    | inr skip ↦ let (j, m, s, q) = items_sound p items e (rw skip at h) in (j, inr m, s, q)
  ]

  items_complete :
      (p : PluginEntry) (items : List NavItem) (item : NavItem)
      → In item items
      → shown perms features p item ≡ true
      → In (nav_entry p item) (collect_items perms features p items)
  unfolding collect_items
  items_complete p [] item m ok = elim m [ ]
  items_complete p (j ∷ items) item (inl here) ok =
      let ok' : shown perms features p j ≡ true = ap (shown perms features p) here ∙ ok in
      rw ok' (inl (ap (nav_entry p) here))
  items_complete p (j ∷ items) item (inr there) ok = elim (Bool-cases (shown perms features p j)) [
    | inl kept ↦ rw kept (inr (items_complete p items item there ok))
    | inr skip ↦ rw skip (items_complete p items item there ok)
  ]

In-append : {A : Type 0} (a : A) (xs ys : List A) → In a (xs ++ ys) ↔ (In a xs ⊎ In a ys)
In-append a [] ys = (λ h. inr h, elim [ inl h ↦ elim h [ ] | inr h ↦ h ])
In-append a (x ∷ xs) ys =
    let (to, from) = In-append a xs ys in
    (
      elim [ inl h ↦ inl (inl h) | inr h ↦ elim (to h) [ inl l ↦ inl (inr l) | inr r ↦ inr r ] ],
      elim [
        | inl h ↦ elim h [ inl e ↦ inl e | inr l ↦ inr (from (inl l)) ]
        | inr r ↦ inr (from (inr r))
      ],
    )

In-put :
    (plugins : List PluginEntry) (e a : NavEntry) (bs : List NavEntry)
    → In e (put plugins a bs) ↔ ((a ≡ e) ⊎ In e bs)
unfolding put
In-put plugins e a [] = (λ h. h, λ h. h)
In-put plugins e a (b ∷ bs) = elim (Bool-cases (less plugins b a)) [
  | inr stop ↦ rw stop (λ h. h, λ h. h)
  | inl onward ↦
      let (to, from) = In-put plugins e a bs in
      rw onward (
        elim [ inl h ↦ inr (inl h) | inr h ↦ elim (to h) [ inl l ↦ inl l | inr r ↦ inr (inr r) ] ],
        elim [
          | inl h ↦ inr (from (inl h))
          | inr h ↦ elim h [ inl q ↦ inl q | inr r ↦ inr (from (inr r)) ]
        ],
      )
]

In-sort_stable :
    (plugins : List PluginEntry) (e : NavEntry) (es : List NavEntry)
    → In e (sort_stable plugins es) ↔ In e es
unfolding sort_stable
In-sort_stable plugins e [] = (λ h. h, λ h. h)
In-sort_stable plugins e (a ∷ es) =
    let (to, from) = In-put plugins e a (sort_stable plugins es) in
    let (to', from') = In-sort_stable plugins e es in
    (
      λ h. elim (to h) [ inl q ↦ inl q | inr r ↦ inr (to' r) ],
      elim [ inl q ↦ from (inl q) | inr r ↦ from (inr (from' r)) ],
    )

collect_sound :
    (perms features : List Bytes) (ps : List PluginEntry) (e : NavEntry)
    → In e (collect perms features ps)
    → IsVisible perms features ps e
unfolding collect collect_items shown
collect_sound perms features [] e h = elim h [ ]
collect_sound perms features (p ∷ ps) e h = elim (Bool-cases p.alive) [
  | inl live ↦
      elim ((In-append e (collect_items perms features p p.manifest.nav)
          (collect perms features ps)).0
        (rw live at h)) [
          | inl here ↦
              let (item, m, ok, q) = items_sound perms features p p.manifest.nav e here in
              let shows = (shown_iff perms features p item).0 ok in
              record {
                owner = p;
                item = item;
                registered = inl refl;
                live = live;
                declared = m;
                linked = shows.0;
                keyed = shows.1;
                permitted = shows.2;
                enabled = shows.3;
                made = q;
              }
          | inr there ↦ IsVisible-cons (collect_sound perms features ps e there)
        ]
  | inr dead ↦ IsVisible-cons (collect_sound perms features ps e (rw dead at h))
]
  where
    IsVisible-cons : IsVisible perms features ps e → IsVisible perms features (p ∷ ps) e
    IsVisible-cons v = record {
      owner = v.owner;
      item = v.item;
      registered = inr v.registered;
      live = v.live;
      declared = v.declared;
      linked = v.linked;
      keyed = v.keyed;
      permitted = v.permitted;
      enabled = v.enabled;
      made = v.made;
    }

collect_complete :
    (perms features : List Bytes) (ps : List PluginEntry) (owner : PluginEntry) (item : NavItem)
    → In owner ps
    → owner.alive ≡ true
    → In item owner.manifest.nav
    → shown perms features owner item ≡ true
    → In (nav_entry owner item) (collect perms features ps)
unfolding collect collect_items shown
collect_complete perms features [] owner item m live d ok = elim m [ ]
collect_complete perms features (p ∷ ps) owner item (inl here) live d ok =
    let live' : p.alive ≡ true = ap (λ (q : PluginEntry). q.alive) here ∙ live in
    rw live' (
      (In-append (nav_entry owner item) (collect_items perms features p p.manifest.nav)
          (collect perms features ps)).1
        (inl (
          subst
            (λ (q : PluginEntry).
              In (nav_entry owner item) (collect_items perms features q q.manifest.nav))
            (sym here) (items_complete perms features owner owner.manifest.nav item d ok))))
collect_complete perms features (p ∷ ps) owner item (inr there) live d ok =
    let rest = collect_complete perms features ps owner item there live d ok in
    elim (Bool-cases p.alive) [
      | inl up ↦ rw up (
          (In-append (nav_entry owner item) (collect_items perms features p p.manifest.nav)
              (collect perms features ps)).1
            (inr rest))
      | inr down ↦ rw down rest
    ]

-- The menu holds exactly the entries that the items of live plugins make which have a key and a link,
-- of which the user has the permission, and of which the tenant has the feature, qualified by the
-- plugin's name unless it is already, if the item names one.
pub build_nav_iff :
    (perms features : List Bytes) (plugins : List PluginEntry) (e : NavEntry)
    → In e (build_nav plugins perms features) ↔ IsVisible perms features plugins e
unfolding build_nav
build_nav_iff perms features plugins e =
    let (to, from) = In-sort_stable plugins e (collect perms features plugins) in
    (
      λ h. collect_sound perms features plugins e (to h),
      λ v. from (
          subst (λ (x : NavEntry). In x (collect perms features plugins)) v.made
            (collect_complete perms features plugins v.owner v.item v.registered v.live v.declared (
              (shown_iff perms features v.owner v.item).1
                (v.linked, v.keyed, v.permitted, v.enabled)))),
    )
