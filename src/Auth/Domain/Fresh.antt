-- ===== src/Auth/Domain/Fresh.antt =====
-- How old the answer of the domain resolver can be.
use apicorex.Base.{ℕ, ◌+◌, ◌≤◌, ◌<◌, ◌≡◌, ap, ◌∙◌, Option}
use apicorex.Text.{Bytes}
use apicorex.Auth.Cache.{Answer, cache_ttl}
use apicorex.Auth.Cache.Fresh.{IsSound, resolve_at-fresh, resolve_at-IsSound}
use apicorex.Auth.Domain.{
  ResolvedDomain, DomainClient, DomainResolver, normal, fetch_domain, resolve_domain,
}

-- `client t` and `url t` are the client and the address of Identity at instant `t`.
module _ (client : ℕ → DomainClient) (url : ℕ → Option Bytes) where
  -- What Identity says of a hostname at an instant.
  abbrev pub said : Bytes → ℕ → Bytes → Answer ResolvedDomain
  said plugin_key t hostname = fetch_domain (client t) (url t) plugin_key (normal hostname)

  abbrev pub IsSoundAt : ℕ → DomainResolver → Type 0
  IsSoundAt now d = IsSound (said d.plugin_key) normal now d.cache

  -- From a sound cache, every call of Resolve leaves a sound cache, and its answer is what Identity
  -- said of the hostname, in lower case and without spaces around it, now or less than one TTL ago.
  pub resolve_domain-fresh :
      (hostname : Bytes) (now : ℕ) (d : DomainResolver)
      → IsSoundAt now d
      → IsSoundAt now (resolve_domain (client now) (url now) hostname now d).1
        × ((t : ℕ) × (t ≤ now)
            × (now < t + cache_ttl)
            × ((resolve_domain (client now) (url now) hostname now d).0
                ≡ said d.plugin_key t hostname))
  unfolding resolve_domain
  resolve_domain-fresh hostname now d sound =
      let (t, q, same, past, live, answer) =
        resolve_at-fresh (said d.plugin_key) normal now hostname d.cache sound in
      (
        resolve_at-IsSound (said d.plugin_key) normal now hostname d.cache sound,
        (t, past, live, answer ∙ ap (fetch_domain (client t) (url t) d.plugin_key) same),
      )
