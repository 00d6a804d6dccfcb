-- ===== src/Examples/Requests.antt =====
-- The theorems on permissions, trusted headers, authentication and its cache at concrete inputs.
use apicorex.Base.{
  arith, ◌⊎◌, ℕ, ◌+◌, ◌≡◌, ◌≤◌, ◌<◌, ◌↔◌, refl, true, none, some, [], ◌∷◌, Any, ltb, if◌then◌else◌,
}
use apicorex.Text.{Bytes, lit, ◌==◌}
use apicorex.Text.Laws.{==_iff}
use apicorex.Http.{Identity, Context, next}
use apicorex.Middleware.Authz.{permission_allowed}
use apicorex.Middleware.Authz.Laws.{Grant, NoColon, Covers, perm, written, permission_allowed_iff}
use apicorex.Auth.Cache.{Answer, resolved, failed, unavailable, cache_ttl}
use apicorex.Auth.Cache.Fresh.{resolve_at, resolve_all, resolve_all-fresh}
use apicorex.Auth.Cache.{CacheEntry}
use apicorex.Map.Entries.{AllEntries}
use apicorex.Auth.Introspect.{Introspector}
use apicorex.Auth.Introspect.Keys.{Query, device, IsDigest, key-injective}
use apicorex.Middleware.Auth.{Env, auth_with_login}
use apicorex.Middleware.Auth.Gate.{Resolves, auth-next_iff}
use apicorex.Examples.{billing, caller, context}

billing-NoColon : NoColon billing
billing-NoColon = (refl, (refl, (refl, (refl, (refl, (refl, (refl, tt)))))))

permission_allowed_iff_example :
    (permission_allowed (written ((billing, lit "*") ∷ [])) (perm billing (lit "read")) ≡ true)
    ↔ Any (λ (g : Grant). Covers g.0 g.1 billing (lit "read")) ((billing, lit "*") ∷ [])
permission_allowed_iff_example =
    permission_allowed_iff ((billing, lit "*") ∷ []) billing (lit "read") (billing-NoColon, tt)
      billing-NoColon

-- Identity knows every caller up to instant 10, and is down from then on.
abbrev identity_at : ℕ → Bytes → Answer Identity
identity_at t q = if ltb t 10 then resolved caller else failed unavailable

-- One call before.
resolve_all-fresh_example :
    ((t : ℕ) × (q : Bytes) × (q ≡ billing)
      × (t ≤ 9)
      × (9 < t + cache_ttl)
      × ((resolve_at identity_at
            (λ q. q)
            9
            billing
            (resolve_all identity_at (λ q. q) 5 ((0, billing) ∷ []) []).1).0
          ≡ identity_at t q))
    × (((resolve_at identity_at
            (λ q. q)
            9
            billing
            (resolve_all identity_at (λ q. q) 5 ((0, billing) ∷ []) []).1).1
          ≡ (resolve_all identity_at (λ q. q) 5 ((0, billing) ∷ []) []).1)
        ⊎ AllEntries
            (λ (k : Bytes) (e : CacheEntry Identity). 9 ≤ e.exp)
            (resolve_at identity_at
              (λ q. q)
              9
              billing
              (resolve_all identity_at (λ q. q) 5 ((0, billing) ∷ []) []).1).1)
unfolding resolve_all
resolve_all-fresh_example =
    resolve_all-fresh identity_at (λ q. q) 5 ((0, billing) ∷ []) 9 billing (omega arith)

abbrev query : Query
query = device (lit "ab") (lit "u1")

query-IsDigest : IsDigest query
unfolding ◌==◌
query-IsDigest = ((refl, (refl, tt)), λ e. cc ((==_iff (lit "ab") (lit "platform")).1 e))

key-injective_example : query ≡ query
key-injective_example = key-injective query query query-IsDigest query-IsDigest refl

-- Identity answers with the given status; "zdt_ab" is its own digest, and no cookie is sent.
abbrev pub env : ℕ → Env
env status = record {
  client = record {
    post = λ url plugin_key req. some (record { status = status; body = [] });
    decode = λ body. some caller;
    read_limited = λ body. body;
  };
  cookie = λ h name. none;
  hash_token = λ token. token;
  query_escape = λ s. s;
}

abbrev introspector : Introspector
introspector = record { plugin_key = lit "k"; cache = [] }

abbrev arrived : Context
arrived = record context { identity = none }

abbrev known : Context
known = record context { identity = some (record caller { token_hash = lit "zdt_secret" }) }

auth-next_iff_example :
    ((auth_with_login (env 200) (lit "/login") (some (lit "http://id")) 5 arrived introspector).0
      ≡ next known)
    ↔ ((id : Identity) × Resolves
          (env 200)
          (lit "/login")
          (some (lit "http://id"))
          5
          arrived
          introspector
          (resolved id)
        × (known ≡ record arrived { identity = some id }))
auth-next_iff_example =
    auth-next_iff (env 200) (lit "/login") (some (lit "http://id")) 5 arrived introspector known
