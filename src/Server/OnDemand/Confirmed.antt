-- ===== src/Server/OnDemand/Confirmed.antt =====
-- Which hostnames may have a certificate.
use apicorex.Base.{
  ℕ, ◌+◌, ◌≤◌, ◌<◌, ◌≡◌, refl, sym, ◌∙◌, Option, false, Bool-cases, inl, inr, arith,
}
use apicorex.Text.{Bytes, is_empty, trim_space, to_lower}
use apicorex.Auth.Cache.{
  Answer, resolved, failed, invalid_token, membership_revoked, unavailable, domain_not_found,
  cache_ttl,
}
use apicorex.Auth.Domain.{ResolvedDomain, DomainClient, DomainResolver, resolve_domain}
use apicorex.Auth.Domain.Fresh.{said, IsSoundAt, resolve_domain-fresh}
use apicorex.Server.HostPort.{strip_host_port}
use apicorex.Server.OnDemand.{ask_status, ask}

ask_status-200 :
    (a : Answer ResolvedDomain) → ask_status a ≡ 200 → (r : ResolvedDomain) × (a ≡ resolved r)
ask_status-200 (resolved r) h = (r, refl)
ask_status-200 (failed unavailable) h = absurd (omega (arith, h))
ask_status-200 (failed invalid_token) h = absurd (omega (arith, h))
ask_status-200 (failed membership_revoked) h = absurd (omega (arith, h))
ask_status-200 (failed domain_not_found) h = absurd (omega (arith, h))

-- The hostname that is asked about.
abbrev pub asked_host : Bytes → Bytes
asked_host domain = strip_host_port (to_lower (trim_space domain))

-- From a sound cache, a certificate is allowed only for a hostname that is not empty and that
-- Identity resolved to a domain of a tenant now or less than one TTL ago.
pub ask-confirmed :
    (client : ℕ → DomainClient) (url : ℕ → Option Bytes) (now : ℕ) (domain : Bytes)
    (d : DomainResolver)
    → IsSoundAt client url now d
    → (ask (client now) (url now) now domain d).0 ≡ 200
    → (is_empty (asked_host domain) ≡ false)
      × ((t : ℕ) × (r : ResolvedDomain) × (t ≤ now)
          × (now < t + cache_ttl)
          × (said client url d.plugin_key t (asked_host domain) ≡ resolved r))
unfolding ask
ask-confirmed client url now domain d sound h = elim (Bool-cases (is_empty (asked_host domain))) [
  | inl missing ↦ absurd (omega (arith, rw missing at h))
  | inr given ↦
      let (r, answer) =
        ask_status-200 (resolve_domain (client now) (url now) (asked_host domain) now d).0
          (rw given at h) in
      let (kept, (t, past, live, same)) =
        resolve_domain-fresh client url (asked_host domain) now d sound in
      (given, (t, r, past, live, sym same ∙ answer))
]
