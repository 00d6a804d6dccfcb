-- ===== src/System/Reachable.antt =====
-- What holds in every state that the program comes to.
use apicorex.Base.{
  ℕ, ◌≡◌, refl, sym, ap, subst, ◌∙◌, true, false, not, Option, none, some, [], Bool-cases, inl, inr,
}
use apicorex.Text.{Bytes, lit, is_empty}
use apicorex.Map.Laws.{get_or-empty}
use apicorex.Http.{Request, Context, Flow}
use apicorex.Config.{Config}
use apicorex.Registry.{PluginEntry}
use apicorex.Auth.Introspect.{Introspector}
use apicorex.Protection.Bulkhead.{active_of, new_bulkhead}
use apicorex.Dispatcher.Routes.{RouteEntry}
use apicorex.Dispatcher.Gateway.{Gateway, new_gateway}
use apicorex.Dispatcher.Dispatch.{forward}
use apicorex.Dispatcher.Dispatch.Mediation.{IsAdmitted}
use apicorex.ControlPlane.Handlers.Served.{IsServed}
use apicorex.Server.ProductHosts.{Parsed, ok, err, Parsed-cases, parse_product_hosts}
use apicorex.Server.Chain.{Server, arrive, dispatched, serve}
use apicorex.Server.Chain.Identified.{AgreesWithHost, IsIdentified}
use apicorex.Server.Chain.Mediated.{serve-IsMediated}
use apicorex.Server.Chain.Kept.{is_on}
use apicorex.Program.{env_or, boot, Program, new_server}
use apicorex.System.{Env, step, Reach, start, next}
use apicorex.System.Stays.{Stays-refl, Stays-trans, Keeps, step-Keeps}

module _ (env : Env) (program : Program) where
  Reach-Keeps : (s : Server) → Reach env program s → Keeps program.server s
  Reach-Keeps _ start = (Stays-refl program.server.gateway, refl)
  Reach-Keeps _ (next e s r) =
      let (stays, on) = Reach-Keeps s r in
      let (stays', on') = step-Keeps env program e s in
      (
        Stays-trans program.server.gateway s.gateway (step env program e s).gateway stays stays',
        on' ∙ on,
      )

-- No request is in flight, and every route belongs to a plugin that is registered.
pub record IsSettled (g : Gateway) : Type 0 where
  pub served : IsServed g
  pub idle : (id : Bytes) → active_of id g.bulkhead ≡ 0

new_server-IsSettled : (key : Bytes) (cfg : Config) → IsSettled (new_server key cfg).gateway
unfolding new_server new_gateway new_bulkhead
new_server-IsSettled key cfg = record { served = tt; idle = λ id. get_or-empty 0 id }

pub new_server-on :
    (key : Bytes) (cfg : Config) → is_on (new_server key cfg).introspector ≡ not (is_empty key)
unfolding new_server
new_server-on key cfg = elim (Bool-cases (is_empty key)) [
  | inl unset ↦ rw (unset, new_server) refl
  | inr set ↦ rw (set, new_server) refl
]

-- The key that the program shares with Identity and the plugins.
abbrev pub plugin_api_key : (Bytes → Bytes) → Bytes
plugin_api_key getenv = env_or getenv (lit "PLUGIN_API_KEY") []

server_of : Server → Parsed Program → Server
server_of s (ok program) = program.server
server_of s (err e) = s

pub boot-server :
    (getenv : Bytes → Bytes) (cfg : Config) (program : Program)
    → boot getenv cfg ≡ ok program
    → program.server ≡ new_server (plugin_api_key getenv) cfg
unfolding boot server_of
boot-server getenv cfg program h =
    elim (Parsed-cases (parse_product_hosts (getenv (lit "PRODUCT_HOSTS")))) [
      | inr (e, refused) ↦ cc (rw (refused, boot) at h)
      | inl (hosts, accepted) ↦ sym (ap (server_of program.server) (rw (accepted, boot) at h))
    ]

-- In every state that the program comes to from its start, whatever requests, calls of the control
-- plane, health checks, sweeps and questions for certificates it meets, every route belongs to a
-- plugin that is registered and no plugin has a slot in use between requests; and authentication
-- is on exactly if the environment has a plugin key.
pub boot-IsSettled :
    (env : Env) (getenv : Bytes → Bytes) (cfg : Config) (program : Program) (s : Server)
    → boot getenv cfg ≡ ok program
    → Reach env program s
    → IsSettled s.gateway × (is_on s.introspector ≡ not (is_empty (plugin_api_key getenv)))
boot-IsSettled env getenv cfg program s booted reach =
    let (stays, on) = Reach-Keeps env program s reach in
    let first = boot-server getenv cfg program booted in
    let settled : IsSettled program.server.gateway =
      subst (λ (t : Server). IsSettled t.gateway) (sym first)
        (new_server-IsSettled (plugin_api_key getenv) cfg) in
    (
      record {
        served = stays.served settled.served;
        idle = λ id. stays.slots id ∙ settled.idle id;
      },
      on
          ∙ ap (λ (t : Server). is_on t.introspector) first
          ∙ new_server-on (plugin_api_key getenv) cfg,
    )

pub on-some : (o : Option Introspector) → is_on o ≡ true → (i : Introspector) × (o ≡ some i)
on-some none h = cc
on-some (some i) h = (i, refl)

-- When the environment has a plugin key, then in every state that the program comes to from its
-- start, a plugin that is called is called for a request that passed the middleware and every check
-- of Dispatch, and that is for a path of the server itself, for a public route, or of a caller who
-- is who Identity resolved the token to; and a caller who is known is of the tenant that the
-- hostname named, if it named one.
pub boot-IsMediated :
    (env : Env) (getenv : Bytes → Bytes) (cfg : Config) (program : Program) (s : Server)
    (now later : ℕ) (c : Context) (entry : RouteEntry) (pe : PluginEntry)
    (sent : Option (ℕ × Request))
    → boot getenv cfg ≡ ok program
    → is_empty (plugin_api_key getenv) ≡ false
    → Reach env program s
    → (serve env.chain program.settings now later c s).0 ≡ dispatched (forward entry pe) sent
    → (i : Introspector) × (c' : Context) × ((arrive env.chain program.settings now c s).0
        ≡ Flow.next c')
      × (IsAdmitted now c' s.gateway entry pe
          × (IsIdentified env.chain program.settings now c' s.gateway i × AgreesWithHost c'))
boot-IsMediated env getenv cfg program s now later c entry pe sent booted key reach called =
    let (settled, on) = boot-IsSettled env getenv cfg program s booted reach in
    let (i, present) = on-some s.introspector (on ∙ ap not key) in
    let (c', arrived, facts) =
      serve-IsMediated env.chain program.settings now later c s i entry pe sent present called in
    (i, c', arrived, facts)
