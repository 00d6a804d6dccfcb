-- ===== src/Auth/Domain.antt =====
-- internal/auth/domain.go: hostnames are resolved by Identity behind the same kind of cache.
pub mod Fresh
use apicorex.Base.{ℕ, Bool, true, false, Option, none, some, [], ◌++◌, nat_eq, if◌then◌else◌}
use apicorex.Text.{Bytes, lit, trim_right, trim_space, to_lower, is_slash}
use apicorex.Map.{Map}
use apicorex.Auth.Cache.{
  AuthError, unavailable, domain_not_found, Answer, resolved, failed, CacheEntry, resolve_cached,
}
use apicorex.Auth.Introspect.{Reply}

pub record ResolvedDomain : Type 0 where
  pub tenant_id : Bytes
  pub tenant_slug : Bytes
  pub schema_name : Bytes
  pub branch_id : Bytes
  pub surface : Bytes

-- The HTTP client and the JSON decoder; `none` is an error of theirs.
pub record DomainClient : Type 0 where
  -- POST of a hostname to a URL, with the plugin key.
  pub post : Bytes → Bytes → Bytes → Option Reply
  pub decode : Bytes → Option ResolvedDomain

-- DomainResolver, without the registry that it looks Identity up in.
pub record DomainResolver : Type 0 where
  pub plugin_key : Bytes
  pub cache : Map (CacheEntry ResolvedDomain)

-- NewDomainResolver
abbrev pub new_domain_resolver : Bytes → DomainResolver
new_domain_resolver plugin_key = record { plugin_key = plugin_key; cache = [] }

abbrev pub resolve_domain_url : Bytes → Bytes
resolve_domain_url base_url = trim_right is_slash base_url ++ lit "/internal/resolve-domain"

-- strings.ToLower(strings.TrimSpace(hostname))
abbrev pub normal : Bytes → Bytes
normal hostname = to_lower (trim_space hostname)

abbrev decoded : Option ResolvedDomain → Answer ResolvedDomain
decoded none = failed unavailable
decoded (some d) = resolved d

module _ (client : DomainClient) (base_url : Option Bytes) where
  abbrev read_domain : Option Reply → Answer ResolvedDomain
  read_domain none = failed unavailable
  read_domain (some r) =
      if nat_eq r.status 200
      then decoded (client.decode r.body)
      else if nat_eq r.status 404
      then failed domain_not_found
      else failed unavailable

  -- fetch
  unfoldable pub fetch_domain : Bytes → Bytes → Answer ResolvedDomain
  fetch_domain plugin_key hostname = read_domain (elim base_url [
    | none ↦ none
    | some url ↦ client.post (resolve_domain_url url) plugin_key hostname
  ])

  abbrev cached :
      Answer ResolvedDomain × Map (CacheEntry ResolvedDomain)
      → DomainResolver
      → Answer ResolvedDomain × DomainResolver
  cached p d = (p.0, record d { cache = p.1 })

  -- Resolve
  unfoldable pub resolve_domain :
      Bytes → ℕ → DomainResolver → Answer ResolvedDomain × DomainResolver
  resolve_domain hostname now d =
      let name = normal hostname in
      cached (resolve_cached name now (fetch_domain d.plugin_key name) d.cache) d
