-- ===== src/System/Stays.antt =====
-- What one event of the running program leaves as it is.
use apicorex.Base.{
  ℕ, ◌≡◌, refl, sym, ap, subst, ◌∙◌, true, Option, none, some, List, [], ◌∷◌, Bool-cases, inl, inr,
}
use apicorex.Text.{Bytes}
use apicorex.Map.{Map}
use apicorex.Http.{Headers, Context}
use apicorex.Registry.{PluginEntry}
use apicorex.Auth.Domain.{DomainResolver}
use apicorex.Protection.HealthMonitor.{check_all}
use apicorex.Protection.HealthMonitor.OnFile.{check_all-registered}
use apicorex.Protection.Bulkhead.{Bulkhead, active_of}
use apicorex.Dispatcher.Routes.{RouteEntry}
use apicorex.Dispatcher.Gateway.{Gateway, sweep_tenants}
use apicorex.Dispatcher.Dispatch.{dispatch}
use apicorex.Dispatcher.Dispatch.Layers.{active-dispatch}
use apicorex.Dispatcher.Dispatch.Kept
use apicorex.Dispatcher.Dispatch.Kept.{dispatch-Keeps}
use apicorex.ControlPlane.Handlers.{Call, handle}
use apicorex.ControlPlane.Mount.{mounted, mounted-cases}
use apicorex.ControlPlane.Handlers.Served.{is_registered, AllServed, IsServed, handle-IsServed}
use apicorex.ControlPlane.Handlers.Slots.{handle-bulkhead}
use apicorex.Server.Chain.{Server, serve}
use apicorex.Server.Chain.Kept.{is_on, serve-on, serve-gateway}
use apicorex.Program.{tenant_max_idle, Program}
use apicorex.System.{
  Env, Event, request, control, health_check, limiter_sweep, certificate_ask, asked, check_health,
  step,
}

-- What every event does to the gateway: routes that all belong to registered plugins still do, and
-- between its requests the slots in use and the limit are the same.
pub record Stays (g g' : Gateway) : Type 0 where
  pub served : IsServed g → IsServed g'
  pub slots : (id : Bytes) → active_of id g'.bulkhead ≡ active_of id g.bulkhead
  pub limit : g'.bulkhead.max_conc ≡ g.bulkhead.max_conc

pub Stays-refl : (g : Gateway) → Stays g g
Stays-refl g = record { served = λ h. h; slots = λ id. refl; limit = refl }

pub Stays-trans : (a b c : Gateway) → Stays a b → Stays b c → Stays a c
Stays-trans a b c s t = record {
  served = λ h. t.served (s.served h);
  slots = λ id. t.slots id ∙ s.slots id;
  limit = t.limit ∙ s.limit;
}

pub kept-AllServed : (g g' : Gateway) → Kept.Keeps g g' → IsServed g → IsServed g'
kept-AllServed g g' (routes, plugins, limit) h =
    subst (λ rs. AllServed rs g'.registry.plugins) (sym routes)
      (subst (λ m. AllServed g.routes m) (sym plugins) h)

monotone-AllServed :
    (m m' : Map PluginEntry) (routes : List RouteEntry)
    → ((j : Bytes) → is_registered j m ≡ true → is_registered j m' ≡ true)
    → AllServed routes m
    → AllServed routes m'
monotone-AllServed m m' [] keeps s = tt
monotone-AllServed m m' (r ∷ rs) keeps (h, s) =
    (keeps r.plugin_id h, monotone-AllServed m m' rs keeps s)

check_health-Stays :
    (probe : Bytes → Option ℕ) (clock : Bytes → ℕ) (g : Gateway)
    → Stays g (check_health probe clock g)
check_health-Stays probe clock g = record {
  served = λ h.
      monotone-AllServed g.registry.plugins (check_all probe clock g.registry g.breaker).0.plugins
        g.routes (λ j. check_all-registered probe clock j g.registry g.breaker) h;
  slots = λ id. refl;
  limit = refl;
}

sweep_tenants-Stays : (now : ℕ) (g : Gateway) → Stays g (sweep_tenants tenant_max_idle now g)
unfolding sweep_tenants
sweep_tenants-Stays now g = record { served = λ h. h; slots = λ id. refl; limit = refl }

-- The gateway stays, and authentication is on after it exactly if it was before.
abbrev pub Keeps : Server → Server → Type 0
Keeps s s' = Stays s.gateway s'.gateway × (is_on s'.introspector ≡ is_on s.introspector)

module _ (env : Env) (program : Program) where
  dispatch-Stays :
      (now later : ℕ) (c : Context) (g : Gateway)
      → Stays g (dispatch env.chain.proxy now later c g).1
  dispatch-Stays now later c g =
      let kept = dispatch-Keeps env.chain.proxy now later c g in
      record {
        served = kept-AllServed g (dispatch env.chain.proxy now later c g).1 kept;
        slots = active-dispatch env.chain.proxy now later c g;
        limit = kept.2;
      }

  serve-Stays :
      (now later : ℕ) (c : Context) (s : Server)
      → Stays s.gateway (serve env.chain program.settings now later c s).1.gateway
  serve-Stays now later c s = elim (serve-gateway env.chain program.settings now later c s) [
    | inl e ↦ subst (λ g. Stays s.gateway g) (sym e) (Stays-refl s.gateway)
    | inr (c', e) ↦ subst (λ g. Stays s.gateway g) (sym e) (dispatch-Stays now later c' s.gateway)
  ]

  handle-Stays :
      (call : Call) (now second : ℕ) (g : Gateway)
      → Stays g (handle env.control program.handlers call now second g).1
  handle-Stays call now second g =
      let same = handle-bulkhead env.control program.handlers now second call g in
      record {
        served = handle-IsServed env.control program.handlers call now second g;
        slots = λ id. ap (λ b. active_of id b) same;
        limit = ap (λ (b : Bulkhead). b.max_conc) same;
      }

  mounted-Stays :
      (headers : Headers) (call : Call) (now second : ℕ) (g : Gateway)
      → Stays g (mounted env.control program.handlers headers call now second g).1
  mounted-Stays headers call now second g =
      elim (mounted-cases env.control program.handlers headers call now second g) [
        | inl e ↦ subst (λ x. Stays g x) (sym e) (Stays-refl g)
        | inr e ↦ subst (λ x. Stays g x) (sym e) (handle-Stays call now second g)
      ]

  asked-Keeps :
      (now : ℕ) (domain : Bytes) (s : Server) (o : Option DomainResolver)
      → Keeps s (asked env program now domain s o)
  asked-Keeps now domain s none = (Stays-refl s.gateway, refl)
  asked-Keeps now domain s (some d) = (Stays-refl s.gateway, refl)

  pub step-Keeps : (e : Event) (s : Server) → Keeps s (step env program e s)
  unfolding step
  step-Keeps (request now later c) s =
      (serve-Stays now later c s, serve-on env.chain program.settings now later c s)
  step-Keeps (control headers call now second) s =
      (mounted-Stays headers call now second s.gateway, refl)
  step-Keeps (health_check probe clock) s = (check_health-Stays probe clock s.gateway, refl)
  step-Keeps (limiter_sweep now) s = (sweep_tenants-Stays now s.gateway, refl)
  step-Keeps (certificate_ask now domain) s = elim (Bool-cases program.answers_asks) [
    | inl listens ↦ rw (listens, step) (asked-Keeps now domain s s.resolver)
    | inr closed ↦ rw (closed, step) (Stays-refl s.gateway, refl)
  ]
