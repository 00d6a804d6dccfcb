-- ===== src/Server/OnDemand.antt =====
-- server/ondemand.go: may a hostname have a certificate?
pub mod Confirmed
use apicorex.Base.{ℕ, Option, none, some, Bool, true, false, [], ◌∷◌, if◌then◌else◌}
use apicorex.Text.{Bytes, is_empty, trim_space, to_lower}
use apicorex.Auth.Cache.{AuthError, unavailable, Answer, resolved, failed}
use apicorex.Auth.Domain.{ResolvedDomain, DomainClient, DomainResolver, resolve_domain}
use apicorex.Server.HostPort.{strip_host_port}

-- The switch of askHandler.
abbrev pub ask_status : Answer ResolvedDomain → ℕ
ask_status (resolved d) = 200
ask_status (failed unavailable) = 503
ask_status (failed _) = 404

-- askHandler: the status for the value of the query parameter "domain".
unfoldable pub ask : DomainClient → Option Bytes → ℕ → Bytes → DomainResolver → ℕ × DomainResolver
ask client base_url now domain d =
    let host = strip_host_port (to_lower (trim_space domain)) in
    if is_empty host
    then (400, d)
    else (let (answer, d') = resolve_domain client base_url host now d in (ask_status answer, d'))

-- NewOnDemandTLS: the resolver of the server that it builds, if it builds one.
abbrev pub new_on_demand_tls : Option DomainResolver → Bytes → Option DomainResolver
new_on_demand_tls resolver [] = none
new_on_demand_tls resolver (c ∷ addr) = resolver
