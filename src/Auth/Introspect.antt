-- ===== src/Auth/Introspect.antt =====
-- internal/auth/introspect.go: device tokens and platform sessions. The HTTP client, the JSON codec
-- and the digest are parameters.
pub mod Keys
use apicorex.Base.{
  ℕ, Bool, true, false, Option, none, some, List, [], ◌∷◌, ◌++◌, nat_eq, if◌then◌else◌,
}
use apicorex.Text.{Bytes, lit, contains, trim_right, is_slash}
use apicorex.Map.{Map}
use apicorex.Http.{Identity}
use apicorex.Auth.Cache.{
  AuthError, invalid_token, membership_revoked, unavailable, Answer, resolved, failed, CacheEntry,
  resolve_cached,
}

pub record IntrospectRequest : Type 0 where
  pub token_hash : Bytes
  pub acting_user_id : Bytes
  pub platform_token : Bytes

-- A reply of Identity; the client's errors, building the request included, are `none`.
pub record Reply : Type 0 where
  pub status : ℕ
  pub body : Bytes

pub record Client : Type 0 where
  -- POST of a request to a URL, with the plugin key.
  pub post : Bytes → Bytes → IntrospectRequest → Option Reply
  -- The JSON decoder; `none` is its error.
  pub decode : Bytes → Option Identity
  -- io.ReadAll of at most 4096 bytes.
  pub read_limited : Bytes → Bytes

-- Introspector, without the registry that it looks Identity up in.
pub record Introspector : Type 0 where
  pub plugin_key : Bytes
  pub cache : Map (CacheEntry Identity)

-- NewIntrospector
abbrev pub new_introspector : Bytes → Introspector
new_introspector plugin_key = record { plugin_key = plugin_key; cache = [] }

abbrev pub introspect_url : Bytes → Bytes
introspect_url base_url = trim_right is_slash base_url ++ lit "/internal/introspect"

abbrev decoded : (Identity → Identity) → Option Identity → Answer Identity
decoded f none = failed unavailable
decoded f (some id) = resolved (f id)

module _ (client : Client) (base_url : Option Bytes) (plugin_key : Bytes) where
  abbrev ask : IntrospectRequest → Option Reply
  ask req = elim base_url [
    | none ↦ none
    | some url ↦ client.post (introspect_url url) plugin_key req
  ]

  abbrev read_reply : Bytes → Option Reply → Answer Identity
  read_reply hash none = failed unavailable
  read_reply hash (some r) =
      if nat_eq r.status 200
      then decoded (λ id. record id { token_hash = hash }) (client.decode r.body)
      else if nat_eq r.status 401
      then (if contains (client.read_limited r.body) (lit "membership revoked")
          then failed membership_revoked
          else failed invalid_token)
      else failed unavailable

  -- fetch
  unfoldable pub fetch : Bytes → Bytes → Answer Identity
  fetch hash acting =
      read_reply hash
        (ask (record { token_hash = hash; acting_user_id = acting; platform_token = [] }))

  abbrev read_platform : Option Reply → Answer Identity
  read_platform none = failed unavailable
  read_platform (some r) =
      if nat_eq r.status 200
      then decoded (λ id. id) (client.decode r.body)
      else if nat_eq r.status 401
      then failed invalid_token
      else failed unavailable

  -- fetchPlatform
  unfoldable pub fetch_platform : Bytes → Answer Identity
  fetch_platform raw =
      read_platform (ask (record { token_hash = []; acting_user_id = []; platform_token = raw }))

-- The cache keys of Resolve and ResolvePlatform.
abbrev pub device_key : Bytes → Bytes → Bytes
device_key hash acting = hash ++ (b'|' ∷ acting)

abbrev pub platform_key : Bytes → Bytes
platform_key raw = lit "platform|" ++ raw

module _ (client : Client) (base_url : Option Bytes) where
  abbrev cached :
      Answer Identity × Map (CacheEntry Identity) → Introspector → Answer Identity × Introspector
  cached p i = (p.0, record i { cache = p.1 })

  -- Resolve
  unfoldable pub resolve : Bytes → Bytes → ℕ → Introspector → Answer Identity × Introspector
  resolve hash acting now i =
      cached
        (resolve_cached (device_key hash acting) now
          (fetch client base_url i.plugin_key hash acting) i.cache)
        i

  -- ResolvePlatform
  unfoldable pub resolve_platform : Bytes → ℕ → Introspector → Answer Identity × Introspector
  resolve_platform raw now i =
      cached
        (resolve_cached (platform_key raw) now (fetch_platform client base_url i.plugin_key raw)
          i.cache)
        i
