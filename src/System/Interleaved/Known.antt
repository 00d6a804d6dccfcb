-- ===== src/System/Interleaved/Known.antt =====
-- What is known of a request by how far it has come, and how a turn adds to it.
use apicorex.Base.{
  ltb, ℕ, zero, suc, ◌≡◌, refl, true, false, Option, none, some, List, [], ◌∷◌, ◌++◌, All,
  Bool-cases, inl, inr, if-holds,
}
use apicorex.Map.{lookup, insert}
use apicorex.Http.{Request, Context}
use apicorex.Registry.{PluginEntry, Window, get}
use apicorex.Registry.Maintenance.{maintenance_for}
use apicorex.Protection.Firewall.{is_route_blocked}
use apicorex.Protection.CircuitBreaker
use apicorex.Protection.Bulkhead.{acquire}
use apicorex.Protection.RateLimiter.{RateLimiter}
use apicorex.Dispatcher.Routes.{RouteEntry, match}
use apicorex.Dispatcher.Gateway.{Gateway}
use apicorex.Dispatcher.Dispatch.{Decision, reject, forward, is_forbidden, tenant_of, forwarded}
use apicorex.Dispatcher.Regions.{
  Stage, begun, matched, looked, expired, cleared, metered, shared_out, limited, holding, admitted,
  calling, answered, leaving, over, Outside, allow_read, on_file, in_window, on_reply, on_route,
  turn,
}
use apicorex.Program.{Program}
use apicorex.System.{Env}
use apicorex.System.Interleaved.{Running, Event, turn_at, move, Reach, follows}
use apicorex.System.Interleaved.Slots.{acquire-lt}
use apicorex.System.Interleaved.Past.{Once-now}
use apicorex.Text.{lit, is_empty}
use apicorex.System.Interleaved.Passed.{
  Arrived, Matched, MatchedAt, OnFile, OnFileAt, Unmaintained, UnmaintainedAt, Slotted, SlottedAt,
  Closed, ClosedAt, Sent, SentAt,
}

module _ (env : Env) (program : Program) where
  abbrev SentIf : Decision → Option (ℕ × Request) → (r : Running) → Reach env program r → Type 0
  SentIf (forward entry pe) (some (status, sent)) r past = Sent env program entry pe sent r past
  SentIf d answer r past = Unit

  -- What is known of a request by how far it has come.
  abbrev pub Known : Stage → (r : Running) → Reach env program r → Type 0
  Known (begun c) r past = Arrived env program c r past
  Known (matched c entry) r past = Matched env program c entry r past
  Known (looked c entry pe) r past = OnFile env program c entry pe r past
  Known (expired c entry pe) r past = Unmaintained env program c entry pe r past
  Known (cleared c entry pe) r past = Unmaintained env program c entry pe r past
  Known (metered rl trl c entry pe) r past = Unmaintained env program c entry pe r past
  Known (shared_out trl c entry pe) r past = Unmaintained env program c entry pe r past
  Known (limited c entry pe) r past = Unmaintained env program c entry pe r past
  Known (holding c entry pe) r past = Slotted env program c entry pe r past
  Known (admitted c entry pe) r past = Closed env program c entry pe r past
  Known (calling entry pe sent) r past = Sent env program entry pe sent r past
  Known (answered entry pe sent status) r past = Sent env program entry pe sent r past
  Known (leaving entry d answer) r past = SentIf d answer r past
  Known (over d answer) r past = SentIf d answer r past

  module _ (e : Event) (r : Running) (past : Reach env program r) where
    SentIf-keeps :
        (d : Decision) (answer : Option (ℕ × Request))
        → SentIf d answer r past
        → SentIf d answer (move env program e r) (follows e r past)
    SentIf-keeps (reject status err retry) answer h = tt
    SentIf-keeps (forward entry pe) none h = tt
    SentIf-keeps (forward entry pe) (some (status, sent)) h = inr h

    -- What is known stays known.
    Known-keeps : (s : Stage) → Known s r past → Known s (move env program e r) (follows e r past)
    Known-keeps (begun c) h = inr h
    Known-keeps (matched c entry) h = inr h
    Known-keeps (looked c entry pe) h = inr h
    Known-keeps (expired c entry pe) h = inr h
    Known-keeps (cleared c entry pe) h = inr h
    Known-keeps (metered rl trl c entry pe) h = inr h
    Known-keeps (shared_out trl c entry pe) h = inr h
    Known-keeps (limited c entry pe) h = inr h
    Known-keeps (holding c entry pe) h = inr h
    Known-keeps (admitted c entry pe) h = inr h
    Known-keeps (calling entry pe sent) h = inr h
    Known-keeps (answered entry pe sent status) h = inr h
    Known-keeps (leaving entry d answer) h = SentIf-keeps d answer h
    Known-keeps (over d answer) h = SentIf-keeps d answer h

    pub All-keeps :
        (ts : List Stage)
        → All (λ s. Known s r past) ts
        → All (λ s. Known s (move env program e r) (follows e r past)) ts
    All-keeps [] h = tt
    All-keeps (t ∷ ts) (h, hs) = (Known-keeps t h, All-keeps ts hs)

    abbrev KnownNext : Stage → Type 0
    KnownNext s = Known s (move env program e r) (follows e r past)

    on_route-Known :
        (c : Context) (o : Option RouteEntry)
        → is_route_blocked c.request.path ≡ false
        → match c.request.method c.request.path r.server.gateway.routes ≡ o
        → Arrived env program c r past
        → KnownNext (on_route c o)
    on_route-Known c none free found h = tt
    on_route-Known c (some entry) free found h =
        if-holds KnownNext (is_forbidden c entry) _ (matched c entry) (λ forbidden. tt)
          (λ allowed.
            inr (
              Once-now env program (MatchedAt env program c entry) r past
                (free, found, allowed, h)))

    on_file-Known :
        (c : Context) (entry : RouteEntry) (o : Option PluginEntry)
        → get entry.plugin_id r.server.gateway.registry ≡ o
        → Matched env program c entry r past
        → KnownNext (on_file c entry o)
    on_file-Known c entry none found h = tt
    on_file-Known c entry (some pe) found h =
        if-holds KnownNext pe.alive (looked c entry pe) _
          (λ up. inr (Once-now env program (OnFileAt env program c entry pe) r past (found, up, h)))
          (λ down. tt)

    in_window-Known :
        (now : ℕ) (c : Context) (entry : RouteEntry) (pe : PluginEntry) (w : Option Window)
        → lookup entry.plugin_name r.server.gateway.registry.maint ≡ w
        → OnFile env program c entry pe r past
        → KnownNext (in_window now c entry pe w)
    unfolding maintenance_for
    in_window-Known now c entry pe none e h = inr (
        Once-now env program (UnmaintainedAt env program c entry pe) r past
          (now, rw (e, maintenance_for) refl, h))
    in_window-Known now c entry pe (some w) e h =
        if-holds KnownNext (ltb w.until now) (expired c entry pe) _
          (λ old. inr (
            Once-now env program (UnmaintainedAt env program c entry pe) r past
              (now, rw (e, maintenance_for) (rw old refl), h)))
          (λ lasts. tt)

    on_reply-Known :
        (entry : RouteEntry) (pe : PluginEntry) (sent : Request) (answer : Option ℕ)
        → Sent env program entry pe sent r past
        → KnownNext (on_reply entry pe sent answer)
    on_reply-Known entry pe sent none h = tt
    on_reply-Known entry pe sent (some status) h = inr h

    -- A turn on the state adds what it has found there.
    turn-Known :
        (o : Outside) (s : Stage)
        → Known s r past
        → KnownNext (turn env.chain.proxy o s r.server.gateway).0
    unfolding turn
    turn-Known o (begun c) h = elim (Bool-cases (is_route_blocked c.request.path)) [
      | inl blocked ↦ simp blocked tt
      | inr free ↦ simp free (
          on_route-Known c (match c.request.method c.request.path r.server.gateway.routes) free refl
            h)
    ]
    turn-Known o (matched c entry) h =
        on_file-Known c entry (get entry.plugin_id r.server.gateway.registry) refl h
    turn-Known o (looked c entry pe) h =
        in_window-Known o.now c entry pe (lookup entry.plugin_name r.server.gateway.registry.maint)
          refl h
    turn-Known o (expired c entry pe) h = inr h
    turn-Known o (cleared c entry pe) h = inr h
    turn-Known o (metered false trl c entry pe) h = inr h
    turn-Known o (metered true trl c entry pe) h =
        let g = r.server.gateway in
        let put : RateLimiter → Gateway =
          λ rl. record g { plugin_rl = insert entry.plugin_id rl g.plugin_rl } in
        elim (Bool-cases
          (allow_read o entry.plugin_id (lookup entry.plugin_id g.plugin_rl) put g).0) [
            | inl passed ↦ simp passed (inr h)
            | inr used ↦ simp used tt
          ]
    turn-Known o (shared_out false c entry pe) h = inr h
    turn-Known o (shared_out true c entry pe) h =
        let g = r.server.gateway in
        let tenant = tenant_of c.identity in
        let put : RateLimiter → Gateway =
          λ rl. record g { tenant_rl = insert entry.plugin_id rl g.tenant_rl } in
        elim (Bool-cases (is_empty tenant)) [
          | inl anonymous ↦ simp anonymous (inr h)
          | inr known ↦
              elim (Bool-cases
                (allow_read o (entry.plugin_id ++ (lit ":" ++ tenant))
                  (lookup entry.plugin_id g.tenant_rl) put g).0) [
                    | inl passed ↦ simp (known, passed) (inr h)
                    | inr used ↦ simp (known, used) tt
                  ]
        ]
    turn-Known o (limited c entry pe) h =
        if-holds KnownNext (acquire entry.plugin_id r.server.gateway.bulkhead).0
          (holding c entry pe) _
          (λ free. inr (
            Once-now env program (SlottedAt env program c entry pe) r past
              (acquire-lt entry.plugin_id r.server.gateway.bulkhead free, h)))
          (λ full. tt)
    turn-Known o (holding c entry pe) h =
        if-holds KnownNext (CircuitBreaker.allow entry.plugin_id o.now r.server.gateway.breaker).0
          (admitted c entry pe) _
          (λ ok. inr (Once-now env program (ClosedAt env program c entry pe) r past (o.now, ok, h)))
          (λ tripped. tt)
    turn-Known o (admitted c entry pe) h =
        let sent = forwarded env.chain.proxy entry pe r.server.gateway c in
        inr (Once-now env program (SentAt env program entry pe sent) r past (c, refl, h))
    turn-Known o (calling entry pe sent) h = on_reply-Known entry pe sent (o.answer pe sent) h
    turn-Known o (answered entry pe sent status) h = inr h
    turn-Known o (leaving entry d answer) h = SentIf-keeps d answer h
    turn-Known o (over d answer) h = SentIf-keeps d answer h

    pub turn_at-Known :
        (k : ℕ) (o : Outside) (ts : List Stage)
        → All (λ s. Known s r past) ts
        → All KnownNext (turn_at env program k o ts r.server.gateway).0
    unfolding turn_at
    turn_at-Known k o [] h = tt
    turn_at-Known zero o (t ∷ ts) (h, hs) = (turn-Known o t h, All-keeps ts hs)
    turn_at-Known (suc k) o (t ∷ ts) (h, hs) = (Known-keeps t h, turn_at-Known k o ts hs)
