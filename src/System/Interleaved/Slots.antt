-- ===== src/System/Interleaved/Slots.antt =====
-- What one turn of a request does to the gateway: which slots it takes and gives back, and what it
-- leaves as it is.
use apicorex.Base.{
  ℕ, ◌+◌, ◌≤◌, ◌<◌, ◌≡◌, refl, sym, ap, true, false, Option, none, some, ◌++◌, arith, Bool-cases,
  inl, inr, if◌then◌else◌,
}
use apicorex.Text.{Bytes, lit, ◌==◌, is_empty}
use apicorex.Text.Laws.{==_iff}
use apicorex.Map.{lookup, insert}
use apicorex.Http.{Request, Context}
use apicorex.Registry.{PluginEntry, Window}
use apicorex.Registry.Maintenance.{clear_maintenance}
use apicorex.Protection.Firewall.{is_route_blocked}
use apicorex.Protection.Bulkhead.{Bulkhead, active_of, acquire, release}
use apicorex.Protection.RateLimiter
use apicorex.Protection.RateLimiter.{RateLimiter}
use apicorex.Dispatcher.Routes.{RouteEntry, match}
use apicorex.Dispatcher.Gateway.{Gateway}
use apicorex.Dispatcher.Dispatch.{Env, tenant_of}
use apicorex.Dispatcher.Dispatch.Layers.{active-acquire, active-release}
use apicorex.Dispatcher.Dispatch.Kept.{Keeps, acquire-limit, release-limit}
use apicorex.Dispatcher.Regions.{
  Stage, begun, matched, looked, expired, cleared, metered, shared_out, limited, holding, admitted,
  calling, answered, leaving, over, Outside, allow_read, on_file, in_window, on_reply, on_route,
  turn,
}

abbrev is_at : Bytes → RouteEntry → ℕ
is_at id entry = if entry.plugin_id == id then 1 else 0

-- Whether a request holds a slot of a plugin: from Acquire to the deferred Release.
unfoldable pub holds : Bytes → Stage → ℕ
holds id (begun c) = 0
holds id (matched c entry) = 0
holds id (looked c entry pe) = 0
holds id (expired c entry pe) = 0
holds id (cleared c entry pe) = 0
holds id (metered rl trl c entry pe) = 0
holds id (shared_out trl c entry pe) = 0
holds id (limited c entry pe) = 0
holds id (holding c entry pe) = is_at id entry
holds id (admitted c entry pe) = is_at id entry
holds id (calling entry pe sent) = is_at id entry
holds id (answered entry pe sent status) = is_at id entry
holds id (leaving entry d answer) = is_at id entry
holds id (over d answer) = 0

-- A turn of a request on a gateway: the slots of every plugin change by what the request holds
-- before and after it, none is taken beyond the limit, and the routes, the plugins and the limit
-- stay as they are.
pub record IsFair (s : Stage) (g : Gateway) (p : Stage × Gateway) : Type 0 where
  pub kept : Keeps g p.1
  pub moved :
      (id : Bytes)
      → holds id s ≤ active_of id g.bulkhead
      → active_of id p.1.bulkhead + holds id s ≡ active_of id g.bulkhead + holds id p.0
  pub within :
      (id : Bytes)
      → active_of id g.bulkhead ≤ g.bulkhead.max_conc
      → active_of id p.1.bulkhead ≤ g.bulkhead.max_conc

-- A turn that leaves the bulkhead alone.
idle-IsFair :
    (s t : Stage) (g g' : Gateway)
    → Keeps g g'
    → g'.bulkhead ≡ g.bulkhead
    → ((id : Bytes) → holds id s ≡ holds id t)
    → IsFair s g (t, g')
idle-IsFair s t g g' kept same slots = record {
  kept = kept;
  moved = λ id used. ground (arith, ap (λ (b : Bulkhead). active_of id b) same, slots id);
  within = λ id few. ground (arith, ap (λ (b : Bulkhead). active_of id b) same);
}

holds-on_route : (id : Bytes) (c : Context) (o : Option RouteEntry) → holds id (on_route c o) ≡ 0
unfolding holds
holds-on_route id c none = refl
holds-on_route id c (some entry) = ground arith

holds-on_file :
    (id : Bytes) (c : Context) (entry : RouteEntry) (o : Option PluginEntry)
    → holds id (on_file c entry o) ≡ 0
unfolding holds
holds-on_file id c entry none = refl
holds-on_file id c entry (some pe) = ground arith

holds-in_window :
    (id : Bytes) (now : ℕ) (c : Context) (entry : RouteEntry) (pe : PluginEntry) (w : Option Window)
    → holds id (in_window now c entry pe w) ≡ 0
unfolding holds
holds-in_window id now c entry pe none = refl
holds-in_window id now c entry pe (some w) = ground arith

holds-on_reply :
    (id : Bytes) (entry : RouteEntry) (pe : PluginEntry) (sent : Request) (answer : Option ℕ)
    → holds id (on_reply entry pe sent answer) ≡ is_at id entry
unfolding holds
holds-on_reply id entry pe sent none = refl
holds-on_reply id entry pe sent (some status) = refl

-- A limiter that is put back changes nothing else.
allow_read-same {ℓ} :
    {A : Type ℓ} (f : Gateway → A) (o : Outside) (key : Bytes) (rl : Option RateLimiter)
    (put : RateLimiter → Gateway) (g : Gateway)
    → ((l : RateLimiter) → f (put l) ≡ f g)
    → f (allow_read o key rl put g).1 ≡ f g
unfolding allow_read
allow_read-same f o key none put g h = refl
allow_read-same f o key (some rl) put g h = elim (Bool-cases o.replaced) [
  | inl gone ↦ simp gone refl
  | inr there ↦ simp there (h _)
]

-- Keeping by a chain of equations that `allow_read-same` gives.
allow_read-Keeps :
    (o : Outside) (key : Bytes) (rl : Option RateLimiter) (put : RateLimiter → Gateway)
    (g : Gateway)
    → ((l : RateLimiter) → Keeps g (put l))
    → Keeps g (allow_read o key rl put g).1
unfolding allow_read
allow_read-Keeps o key none put g h = (refl, refl, refl)
allow_read-Keeps o key (some rl) put g h = elim (Bool-cases o.replaced) [
  | inl gone ↦ simp gone (refl, refl, refl)
  | inr there ↦ simp there (h (RateLimiter.allow key o.now rl).1)
]

pub acquire-lt : (id : Bytes) (b : Bulkhead) → (acquire id b).0 ≡ true → active_of id b < b.max_conc
unfolding acquire
acquire-lt id b h = ground arith

acquire-IsFair :
    (s t u : Stage) (entry : RouteEntry) (g : Gateway)
    → ((id : Bytes) → holds id s ≡ 0)
    → ((id : Bytes) → holds id t ≡ is_at id entry)
    → ((id : Bytes) → holds id u ≡ 0)
    → IsFair s g (
      if (acquire entry.plugin_id g.bulkhead).0 then t else u,
      record g { bulkhead = (acquire entry.plugin_id g.bulkhead).1 },
    )
acquire-IsFair s t u entry g hs ht hu = elim (Bool-cases (acquire entry.plugin_id g.bulkhead).0) [
  | inl free ↦ record {
    kept = (refl, refl, acquire-limit entry.plugin_id g.bulkhead);
    moved =
        λ id used. ground (arith, free, hs id, ht id, active-acquire entry.plugin_id id g.bulkhead);
    within = λ id few. ground (
      arith,
      free,
      acquire-lt entry.plugin_id g.bulkhead free,
      active-acquire entry.plugin_id id g.bulkhead,
      ==_iff entry.plugin_id id,
    );
  }
  | inr full ↦ record {
    kept = (refl, refl, acquire-limit entry.plugin_id g.bulkhead);
    moved =
        λ id used. ground (arith, full, hs id, hu id, active-acquire entry.plugin_id id g.bulkhead);
    within = λ id few. ground (arith, full, active-acquire entry.plugin_id id g.bulkhead);
  }
]

release-IsFair :
    (s t : Stage) (entry : RouteEntry) (g : Gateway)
    → ((id : Bytes) → holds id s ≡ is_at id entry)
    → ((id : Bytes) → holds id t ≡ 0)
    → IsFair s g (t, record g { bulkhead = release entry.plugin_id g.bulkhead })
release-IsFair s t entry g hs ht = record {
  kept = (refl, refl, release-limit entry.plugin_id g.bulkhead);
  moved = λ id used. ground (arith, hs id, ht id, active-release entry.plugin_id id g.bulkhead);
  within = λ id few. ground (arith, active-release entry.plugin_id id g.bulkhead);
}

module _ (env : Env) (o : Outside) where
  -- Every turn is fair.
  pub turn-IsFair : (s : Stage) (g : Gateway) → IsFair s g (turn env o s g)
  unfolding turn holds clear_maintenance
  turn-IsFair (begun c) g = elim (Bool-cases (is_route_blocked c.request.path)) [
    | inl blocked ↦ simp blocked (idle-IsFair (begun c) _ g g (refl, refl, refl) refl (λ id. refl))
    | inr free ↦ simp free (
        idle-IsFair (begun c) _ g g (refl, refl, refl) refl
          (λ id. sym (holds-on_route id c (match c.request.method c.request.path g.routes))))
  ]
  turn-IsFair (matched c entry) g =
      idle-IsFair (matched c entry) _ g g (refl, refl, refl) refl
        (λ id. sym (holds-on_file id c entry _))
  turn-IsFair (looked c entry pe) g =
      idle-IsFair (looked c entry pe) _ g g (refl, refl, refl) refl
        (λ id. sym (holds-in_window id o.now c entry pe _))
  turn-IsFair (expired c entry pe) g =
      idle-IsFair (expired c entry pe) _ g _ (refl, refl, refl) refl (λ id. refl)
  turn-IsFair (cleared c entry pe) g =
      idle-IsFair (cleared c entry pe) _ g g (refl, refl, refl) refl (λ id. refl)
  turn-IsFair (metered false trl c entry pe) g =
      idle-IsFair (metered false trl c entry pe) _ g g (refl, refl, refl) refl (λ id. refl)
  turn-IsFair (metered true trl c entry pe) g =
      idle-IsFair (metered true trl c entry pe) _ g _
        (allow_read-Keeps o entry.plugin_id (lookup entry.plugin_id g.plugin_rl)
          (λ rl. record g { plugin_rl = insert entry.plugin_id rl g.plugin_rl }) g
          (λ l. (refl, refl, refl)))
        (allow_read-same (λ (h : Gateway). h.bulkhead) o entry.plugin_id
          (lookup entry.plugin_id g.plugin_rl)
          (λ rl. record g { plugin_rl = insert entry.plugin_id rl g.plugin_rl }) g (λ l. refl))
        (λ id. ground arith)
  turn-IsFair (shared_out false c entry pe) g =
      idle-IsFair (shared_out false c entry pe) _ g g (refl, refl, refl) refl (λ id. refl)
  turn-IsFair (shared_out true c entry pe) g =
      let key = entry.plugin_id ++ (lit ":" ++ tenant_of c.identity) in
      let put : RateLimiter → Gateway =
        λ rl. record g { tenant_rl = insert entry.plugin_id rl g.tenant_rl } in
      elim (Bool-cases (is_empty (tenant_of c.identity))) [
        | inl anonymous ↦ simp anonymous (
            idle-IsFair (shared_out true c entry pe) (limited c entry pe) g g (refl, refl, refl)
              refl (λ id. refl))
        | inr known ↦ simp known (
            idle-IsFair (shared_out true c entry pe) _ g _
              (allow_read-Keeps o key (lookup entry.plugin_id g.tenant_rl) put g
                (λ l. (refl, refl, refl)))
              (allow_read-same (λ (h : Gateway). h.bulkhead) o key
                (lookup entry.plugin_id g.tenant_rl) put g (λ l. refl))
              (λ id. ground arith))
      ]
  turn-IsFair (limited c entry pe) g =
      acquire-IsFair (limited c entry pe) (holding c entry pe) _ entry g (λ id. refl) (λ id. refl)
        (λ id. refl)
  turn-IsFair (holding c entry pe) g =
      idle-IsFair (holding c entry pe) _ g _ (refl, refl, refl) refl (λ id. ground arith)
  turn-IsFair (admitted c entry pe) g =
      idle-IsFair (admitted c entry pe) _ g g (refl, refl, refl) refl (λ id. refl)
  turn-IsFair (calling entry pe sent) g =
      idle-IsFair (calling entry pe sent) _ g g (refl, refl, refl) refl
        (λ id. sym (holds-on_reply id entry pe sent (o.answer pe sent)))
  turn-IsFair (answered entry pe sent status) g =
      idle-IsFair (answered entry pe sent status) _ g _ (refl, refl, refl) refl (λ id. refl)
  turn-IsFair (leaving entry d answer) g =
      release-IsFair (leaving entry d answer) (over d answer) entry g (λ id. refl) (λ id. refl)
  turn-IsFair (over d answer) g =
      idle-IsFair (over d answer) (over d answer) g g (refl, refl, refl) refl (λ id. refl)
