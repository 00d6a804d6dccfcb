-- ===== src/Server/ProductHosts/Sound.antt =====
-- What a setting of product hosts that is accepted can do to a path.
use apicorex.Base.{
  ◌≡◌, refl, sym, ap, subst, ◌∙◌, ◌&&◌, ◌||◌, false, some, List, [], ◌∷◌, ◌++◌, arith, nat_eq,
  append-nil, Bool-cases, Option-cases, inl, inr,
}
use apicorex.Text.{
  Bytes, lit, ◌==◌, is_empty, has_prefix, trim_space, trim, trim_suffix, is_slash, cut, split,
  to_lower,
}
use apicorex.Text.Split.{Lacks}
use apicorex.Map.{Map, lookup, insert}
use apicorex.Map.Laws.{lookup-insert}
use apicorex.Http.{Context}
use apicorex.Protection.Firewall.{any_prefix, is_route_blocked}
use apicorex.Dispatcher.Routes.{RouteEntry, is_routable}
use apicorex.Server.HostPort.{strip_host_port}
use apicorex.Server.ProductHosts.{
  ok, ◌>>=◌, guard_not, bind-ok, mapped_twice, is_mapped, parse_host, parse_prefix, parse_entry,
  parse_entries, parse_product_hosts, product_host_rewrite,
}

-- A prefix of whole segments: what follows the slash does not matter to it.
has_prefix-segment :
    (w p r : Bytes)
    → Lacks b'/' w
    → has_prefix (p ++ (b'/' ∷ r)) (w ++ lit "/") ≡ has_prefix (p ++ lit "/") (w ++ lit "/")
unfolding has_prefix
has_prefix-segment [] [] r h = refl
has_prefix-segment [] (a ∷ p) r h = refl
has_prefix-segment (b ∷ w) [] r (other, h) = ground arith
has_prefix-segment (b ∷ w) (a ∷ p) r (other, h) =
    ap (λ x. nat_eq a b && x) (has_prefix-segment w p r h)

-- A path that has a prefix has it with a slash behind it, too.
has_prefix-slash : (s q : Bytes) → has_prefix (s ++ lit "/") q ≡ false → has_prefix s q ≡ false
unfolding has_prefix
has_prefix-slash s [] h = cc
has_prefix-slash [] (b ∷ q) h = refl
has_prefix-slash (a ∷ s) (b ∷ q) h = ground (arith, has_prefix-slash s q)

-- A prefix that is accepted: it starts with a slash and names no reserved part.
abbrev pub IsFreePrefix : Bytes → Type 0
IsFreePrefix p = (q : Bytes) × (p ≡ b'/' ∷ q) × (is_route_blocked (p ++ lit "/") ≡ false)

abbrev internal_lacks : Lacks b'/' (lit "internal")
internal_lacks = (refl, (refl, (refl, (refl, (refl, (refl, (refl, (refl, tt))))))))

abbrev admin_lacks : Lacks b'/' (lit "admin")
admin_lacks = (refl, (refl, (refl, (refl, (refl, tt)))))

abbrev core_lacks : Lacks b'/' (lit "_core")
core_lacks = (refl, (refl, (refl, (refl, (refl, tt)))))

-- The firewall looks only at the first segment.
blocked-segment :
    (p r : Bytes)
    → is_route_blocked (b'/' ∷ (p ++ (b'/' ∷ r))) ≡ is_route_blocked (b'/' ∷ (p ++ lit "/"))
unfolding is_route_blocked any_prefix has_prefix
blocked-segment p r =
    rw
      (
        has_prefix-segment (lit "internal") p r internal_lacks,
        has_prefix-segment (lit "admin") p r admin_lacks,
        has_prefix-segment (lit "_core") p r core_lacks,
      )
      refl

blocked-slash : (s : Bytes) → is_route_blocked (s ++ lit "/") ≡ false → is_route_blocked s ≡ false
unfolding is_route_blocked any_prefix
blocked-slash s h = ground (
  arith,
  has_prefix-slash s (lit "/internal/"),
  has_prefix-slash s (lit "/admin/"),
  has_prefix-slash s (lit "/_core/"),
)

-- Below a free prefix nothing is blocked.
free-below :
    (prefix rest : Bytes)
    → IsFreePrefix prefix
    → is_route_blocked (prefix ++ trim_suffix (b'/' ∷ rest) (lit "/")) ≡ false
unfolding trim_suffix
free-below prefix rest (q, same, free) = elim (Bool-cases ((b'/' ∷ rest) == lit "/")) [
  | inl bare ↦ rw (bare, append-nil prefix) (blocked-slash prefix free)
  | inr longer ↦ rw longer (
      ap (λ p. is_route_blocked (p ++ (b'/' ∷ trim_suffix rest (lit "/")))) same
      ∙ blocked-segment q (trim_suffix rest (lit "/"))
      ∙ sym (ap (λ p. is_route_blocked (p ++ lit "/")) same)
      ∙ free)
]

parse_prefix-IsFreePrefix : (raw p : Bytes) → parse_prefix raw ≡ ok p → IsFreePrefix p
unfolding parse_prefix
parse_prefix-IsFreePrefix raw p h =
    let given = trim_space raw in
    let prefix : Bytes = b'/' ∷ trim is_slash given in
    elim (Bool-cases (is_empty given || given == lit "/")) [
      | inl bare ↦ cc (rw (bare, parse_prefix) at h)
      | inr named ↦ elim (Bool-cases (is_route_blocked (prefix ++ lit "/"))) [
        | inl reserved ↦ cc (rw (named, reserved, parse_prefix) at h)
        | inr free ↦
            let same : prefix ≡ p = cc (rw (named, free, parse_prefix) at h) in
            (trim is_slash given, sym same, rw (← same) free)
      ]
    ]

-- Every prefix of the map is free.
abbrev pub AllFree : Map Bytes → Type 0
AllFree hosts = (h p : Bytes) → lookup h hosts ≡ some p → IsFreePrefix p

insert-AllFree :
    (host prefix : Bytes) (hosts : Map Bytes)
    → IsFreePrefix prefix
    → AllFree hosts
    → AllFree (insert host prefix hosts)
insert-AllFree host prefix hosts free all h p found =
    let found' = sym (lookup-insert host h prefix hosts) ∙ found in
    elim (Bool-cases (host == h)) [
      | inl same ↦ let q : prefix ≡ p = cc (rw same at found') in rw (← q) free
      | inr apart ↦ all h p (rw apart at found')
    ]

parse_entry-AllFree :
    (entry : Bytes) (hosts hosts' : Map Bytes)
    → AllFree hosts
    → parse_entry entry hosts ≡ ok hosts'
    → AllFree hosts'
unfolding parse_entry
parse_entry-AllFree entry hosts hosts' all h = elim (Option-cases (cut b'=' entry)) [
  | inl absent ↦ cc (rw (absent, parse_entry) at h)
  | inr ((left, right), parts) ↦
      let h1 = rw (parts, parse_entry) at h in
      let (host, read, h2) =
        bind-ok (parse_host left)
          (λ host. parse_prefix right >>= (λ prefix.
            guard_not (is_mapped host hosts) mapped_twice >>= (λ _. ok (insert host prefix hosts))))
          hosts' h1 in
      let (prefix, given, h3) =
        bind-ok (parse_prefix right)
          (λ prefix.
            guard_not (is_mapped host hosts) mapped_twice >>= (λ _. ok (insert host prefix hosts)))
          hosts' h2 in
      let (u, fresh, h4) =
        bind-ok (guard_not (is_mapped host hosts) mapped_twice) (λ _. ok (insert host prefix hosts))
          hosts' h3 in
      let same : insert host prefix hosts ≡ hosts' = cc in
      subst (λ m. AllFree m) same
        (insert-AllFree host prefix hosts (parse_prefix-IsFreePrefix right prefix given) all)
]

parse_entries-AllFree :
    (es : List Bytes) (hosts hosts' : Map Bytes)
    → AllFree hosts
    → parse_entries es hosts ≡ ok hosts'
    → AllFree hosts'
unfolding parse_entries
parse_entries-AllFree [] hosts hosts' all h =
    let same : hosts ≡ hosts' = cc in subst (λ m. AllFree m) same all
parse_entries-AllFree (e ∷ es) hosts hosts' all h = elim (Bool-cases (is_empty (trim_space e))) [
  | inl blank ↦ parse_entries-AllFree es hosts hosts' all (rw blank at h)
  | inr given ↦
      let (next, parsed, h') =
        bind-ok (parse_entry (trim_space e) hosts) (parse_entries es) hosts' (rw given at h) in
      parse_entries-AllFree es next hosts'
        (parse_entry-AllFree (trim_space e) hosts next all parsed) h'
]

-- A setting of product hosts that is accepted maps every host to a free prefix: one that starts
-- with a slash, and below which the firewall blocks nothing.
parse_product_hosts-AllFree :
    (raw : Bytes) (hosts : Map Bytes) → parse_product_hosts raw ≡ ok hosts → AllFree hosts
unfolding parse_product_hosts lookup
parse_product_hosts-AllFree raw hosts h = elim (Bool-cases (is_empty (trim_space raw))) [
  | inl blank ↦
      let same : [] ≡ hosts = cc (rw blank at h) in subst (λ m. AllFree m) same (λ k p found. cc)
  | inr given ↦ parse_entries-AllFree (split b',' raw) [] hosts (λ k p found. cc) (rw given at h)
]

rewrite-blocked :
    (hosts : Map Bytes) (routes : List RouteEntry) (c : Context) (rest : Bytes)
    → AllFree hosts
    → c.request.path ≡ b'/' ∷ rest
    → is_route_blocked (product_host_rewrite hosts routes c).request.path
      ≡ is_route_blocked c.request.path
unfolding product_host_rewrite
rewrite-blocked hosts routes c rest sound rooted =
    elim (Bool-cases (is_routable c.request.method c.request.path routes)) [
      | inl served ↦ rw (served, product_host_rewrite) refl
      | inr unserved ↦ elim (Bool-cases (is_route_blocked c.request.path)) [
        | inl blocked ↦ rw (unserved, blocked, product_host_rewrite) blocked
        | inr free ↦
            elim (Option-cases (lookup (to_lower (strip_host_port c.request.host)) hosts)) [
              | inl unmapped ↦ rw (unserved, free, unmapped, product_host_rewrite) free
              | inr (prefix, mapped) ↦
                  rw (unserved, free, mapped, product_host_rewrite)
                    (ap (λ p. is_route_blocked (prefix ++ trim_suffix p (lit "/"))) rooted
                      ∙ free-below prefix rest (sound _ prefix mapped))
            ]
      ]
    ]

-- With a setting of product hosts that is accepted, the rewrite of a path that starts with a slash
-- neither frees a path that the firewall blocks nor blocks one that it lets through.
pub product_host_rewrite-blocked :
    (raw : Bytes) (hosts : Map Bytes) (routes : List RouteEntry) (c : Context) (rest : Bytes)
    → parse_product_hosts raw ≡ ok hosts
    → c.request.path ≡ b'/' ∷ rest
    → is_route_blocked (product_host_rewrite hosts routes c).request.path
      ≡ is_route_blocked c.request.path
product_host_rewrite-blocked raw hosts routes c rest accepted rooted =
    rewrite-blocked hosts routes c rest (parse_product_hosts-AllFree raw hosts accepted) rooted
