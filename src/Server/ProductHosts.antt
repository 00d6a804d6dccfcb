-- ===== src/Server/ProductHosts.antt =====
-- server/product_host.go: hostnames that are dedicated to one plugin's paths.
pub mod Sound
use apicorex.Base.{
  ℕ, ◌≡◌, ◌⊎◌, inl, inr, refl, Bool, true, false, not, ◌&&◌, ◌||◌, Option, none, some, List, [],
  ◌∷◌, ◌++◌, if◌then◌else◌,
}
use apicorex.Text.{
  Bytes, lit, ◌==◌, is_empty, trim_space, trim, trim_suffix, is_slash, cut, split, to_lower,
}
use apicorex.Map.{Map, lookup, insert}
use apicorex.Http.{Request, Context, set_header}
use apicorex.Protection.Firewall.{is_route_blocked}
use apicorex.Middleware.Tenant.{header_host_prefix}
use apicorex.Dispatcher.Routes.{RouteEntry, is_routable}
use apicorex.Server.HostPort.{has_byte, strip_host_port}

-- Why an entry is refused.
pub data HostError : Type 0 where
  no_equals empty_host host_is_url empty_prefix reserved_prefix mapped_twice : HostError

pub data Parsed (A : Type 0) : Type 0 where
  ok : A → Parsed A
  err : HostError → Parsed A

infixl 5 ◌>>=◌
abbrev pub ◌>>=◌ : {A B : Type 0} → Parsed A → (A → Parsed B) → Parsed B
ok a >>= f = f a
err e >>= f = err e

-- `if test { return nil, error }`
abbrev pub guard_not : Bool → HostError → Parsed (Unit {0})
guard_not true e = err e
guard_not false e = ok tt

abbrev pub or_err : {A : Type 0} → Option A → HostError → Parsed A
or_err none e = err e
or_err (some a) e = ok a

pub Parsed-cases :
    {A : Type 0} (p : Parsed A) → ((a : A) × (p ≡ ok a)) ⊎ ((e : HostError) × (p ≡ err e))
Parsed-cases (ok a) = inl (a, refl)
Parsed-cases (err e) = inr (e, refl)

pub bind-ok :
    {A B : Type 0} (p : Parsed A) (f : A → Parsed B) (b : B)
    → p >>= f ≡ ok b
    → (a : A) × (p ≡ ok a) × (f a ≡ ok b)
bind-ok (ok a) f b h = (a, refl, h)
bind-ok (err e) f b h = cc

-- The host of an entry: a bare name, in lower case and without a port.
unfoldable pub parse_host : Bytes → Parsed Bytes
parse_host raw = do
  let host = trim_space raw
  _ ← guard_not (is_empty host) empty_host
  _ ← guard_not (has_byte b'/' host) host_is_url
  let bare = to_lower (strip_host_port host)
  _ ← guard_not (has_byte b':' bare) host_is_url
  ok bare

-- The prefix of an entry: one slash in front, none behind.
unfoldable pub parse_prefix : Bytes → Parsed Bytes
parse_prefix raw = do
  let given = trim_space raw
  _ ← guard_not (is_empty given || given == lit "/") empty_prefix
  let prefix = b'/' ∷ trim is_slash given
  _ ← guard_not (is_route_blocked (prefix ++ lit "/")) reserved_prefix
  ok prefix

abbrev pub is_mapped : Bytes → Map Bytes → Bool
is_mapped host out = elim (lookup host out) [ none ↦ false | some _ ↦ true ]

-- The body of the loop, for an entry that is not empty.
unfoldable pub parse_entry : Bytes → Map Bytes → Parsed (Map Bytes)
parse_entry entry out = do
  (left, right) ← or_err (cut b'=' entry) no_equals
  host ← parse_host left
  prefix ← parse_prefix right
  _ ← guard_not (is_mapped host out) mapped_twice
  ok (insert host prefix out)

unfoldable pub parse_entries : List Bytes → Map Bytes → Parsed (Map Bytes)
parse_entries [] out = ok out
parse_entries (e ∷ es) out =
    let entry = trim_space e in
    let skipped = parse_entries es out in
    let parsed = parse_entry entry out >>= parse_entries es in
    if is_empty entry then skipped else parsed

-- parseProductHosts; no setting is the empty map.
unfoldable pub parse_product_hosts : Bytes → Parsed (Map Bytes)
parse_product_hosts raw =
    if is_empty (trim_space raw) then ok [] else parse_entries (split b',' raw) []

-- A request that is moved below a prefix, which the plugin is told.
abbrev pub move_below : Bytes → Bytes → Context → Context
move_below prefix path c = record c {
  request = record (c.request) {
    path = path;
    headers = set_header header_host_prefix prefix c.request.headers;
  };
}

-- productHostRewrite. The copy of the path in RequestURI is not kept.
unfoldable pub product_host_rewrite : Map Bytes → List RouteEntry → Context → Context
product_host_rewrite hosts routes c =
    let path = c.request.path in
    if is_routable c.request.method path routes
    then c
    else if is_route_blocked path
    then c
    else elim (lookup (to_lower (strip_host_port c.request.host)) hosts) [
      | none ↦ c
      | some prefix ↦ move_below prefix (prefix ++ trim_suffix path (lit "/")) c
    ]
