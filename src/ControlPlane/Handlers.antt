-- ===== src/ControlPlane/Handlers.antt =====
-- internal/controlplane/handlers.go: the handlers that change the registry and the route table. A
-- body that does not bind is `none`. Metrics and log lines are left out. An error text that quotes a value is kept without it.
pub mod Served
pub mod Unique
pub mod Docs
pub mod Slots
use apicorex.Base.{
  ℕ, ◌+◌, ◌-◌, ◌*◌, ◌%◌, ◌^◌, ltb, Bool, true, false, not, ◌&&◌, ◌||◌, Option, none, some, List, [],
  ◌∷◌, ◌++◌, take, nat_eq, if◌then◌else◌,
}
use apicorex.Base.Int.{ℤ, pos, negsuc}
use apicorex.Text.{Bytes, lit, ◌==◌, is_empty, trim_space}
use apicorex.Map.{Map}
use apicorex.Manifest.{Manifest}
use apicorex.Registry
use apicorex.Registry.{Target, Registry, Window, ids_by_name, get_manifest}
use apicorex.Registry.Maintenance.{set_maintenance, clear_maintenance, maintenances}
use apicorex.Openapi.{add_spec, remove_spec}
use apicorex.ControlPlane.PluginToken
use apicorex.ControlPlane.PluginToken.{Codec, TokenSigner, new_token_signer}
use apicorex.Dispatcher.Gateway.{Gateway, add_plugin, remove_plugin, reset_circuit_breaker}

pub record Handlers : Type 0 where
  pub api_key : Bytes
  pub allowlist : List Bytes
  pub signer : TokenSigner
  pub apicorex_secret : Bytes
  pub session_signer : TokenSigner

-- The loop of New over the allowlist.
keep_names : List Bytes → List Bytes
keep_names [] = []
keep_names (n ∷ ns) =
    let rest = keep_names ns in
    let name = trim_space n in if is_empty name then rest else name ∷ rest

-- New; lifetimes in seconds
unfoldable pub new_handlers : Bytes → List Bytes → Bytes → Bytes → Handlers
unfolding keep_names
new_handlers api_key allowlist signer_secret apicorex_secret = record {
  api_key = api_key;
  allowlist = keep_names allowlist;
  signer = new_token_signer signer_secret (24 * 3600);
  apicorex_secret = apicorex_secret;
  session_signer = new_token_signer (apicorex_secret ++ lit ":session") (12 * 3600);
}

-- The answers: an error with its status, or what the caller gets.
pub data Reply : Type 0 where
  refused : ℕ → Bytes → Reply
  registered : Bytes → Bytes → Reply
  done : Bool → Reply
  opened : Map Window → Reply
  served : Manifest → Reply

pub record RegisterReq : Type 0 where
  pub base_url : Bytes
  pub api_key : Bytes

pub record TokenReq : Type 0 where
  pub plugin_id : Bytes
  pub plugin_token : Bytes

pub record MaintenanceReq : Type 0 where
  pub api_key : Bytes
  pub plugin : Bytes
  pub on : Bool
  pub reason : Bytes
  pub seconds : ℤ

-- What the handlers take from packages that are not modelled: url.Parse, uuid, the HTTP client with
-- its status and body (`none` is an error), and the JSON decoder.
pub record Env : Type 0 where
  pub codec : Codec
  pub parse_url : Bytes → Option Target
  pub fresh_uuid : Bytes
  pub fetch : Bytes → Option (ℕ × Bytes)
  pub decode : Bytes → Option Manifest

-- h.allowlist[name], for a name that is not empty
pub member : Bytes → List Bytes → Bool
member name [] = false
member name (n ∷ ns) = n == name || member name ns

-- The test of the shared key.
abbrev pub is_wrong_key : Handlers → Bytes → Bool
is_wrong_key h key = not (is_empty h.api_key) && not (key == h.api_key)

abbrev pub is_unlisted : Handlers → Bytes → Bool
is_unlisted h name = elim h.allowlist [ [] ↦ false | ◌∷◌ n ns ↦ not (member name h.allowlist) ]

-- A stale plugin is evicted: Deregister and RemoveRoutes, but not the injector's.
abbrev pub evict : Bytes → Gateway → Gateway
evict id g = remove_plugin id (record g { registry = Registry.deregister id g.registry })

-- The loop over IDsByName in register.
unfoldable pub evict_all : List Bytes → Gateway → Gateway
evict_all [] g = g
evict_all (id ∷ ids) g = evict_all ids (evict id g)

-- A plugin leaves, with its document.
abbrev pub retire : Bytes → Bytes → Gateway → Gateway
retire id name g = record (evict id g) { docs = remove_spec name g.docs }

-- adminDeregister, and deregister after the token is verified
unfoldable pub admin_deregister : Bytes → Gateway → Reply × Gateway
admin_deregister id g = elim (Registry.get id g.registry) [
  | none ↦ (done false, g)
  | some pe ↦ (done true, retire id pe.info.plugin_name g)
]

-- resetBreaker
unfoldable pub reset_breaker : Bytes → Gateway → Reply × Gateway
reset_breaker id g = elim (Registry.get id g.registry) [
  | none ↦ (refused 404 (lit "plugin not found"), g)
  | some _ ↦ (done true, reset_circuit_breaker id g)
]

-- The 64 bits of an int64, read as a number.
abbrev from_bits : ℕ → ℤ
from_bits n = if ltb n (2 ^ 63) then pos n else negsuc (2 ^ 64 - n - 1)

-- time.Duration(seconds) * time.Second, in nanoseconds, which wraps around at 64 bits
abbrev pub in_nanoseconds : ℤ → ℤ
in_nanoseconds (pos n) = from_bits (n * 10 ^ 9 % 2 ^ 64)
in_nanoseconds (negsuc n) = from_bits ((2 ^ 64 - (n + 1) * 10 ^ 9 % 2 ^ 64) % 2 ^ 64)

-- setMaintenance
unfoldable pub maintain : Handlers → Option MaintenanceReq → ℕ → Gateway → Reply × Gateway
maintain h none now g = (refused 400 (lit "invalid body"), g)
maintain h (some req) now g =
    if is_wrong_key h req.api_key
    then (refused 401 (lit "invalid api key"), g)
    else if is_empty req.plugin
    then (refused 400 (lit "plugin required"), g)
    else if req.on
    then (
      done true,
      record g {
        registry =
            (set_maintenance req.plugin req.reason (in_nanoseconds req.seconds) now g.registry).1;
      },
    )
    else (done false, record g { registry = clear_maintenance req.plugin g.registry })

-- listMaintenance; reading the windows drops those that have expired.
unfoldable pub list_maintenance : ℕ → Gateway → Reply × Gateway
list_maintenance now g =
    let (windows, reg) = maintenances now g.registry in
    (opened windows, record g { registry = reg })

-- pluginManifest
unfoldable pub plugin_manifest : Bytes → Gateway → Reply
plugin_manifest name g = elim (get_manifest name g.registry) [
  | none ↦ refused 404 (lit "plugin not found")
  | some m ↦ served m
]

module _ (env : Env) where
  abbrev named : Option Manifest → Option Manifest
  named none = none
  named (some m) = if is_empty m.name then none else some m

  -- pullManifest
  unfoldable pub pull_manifest : Bytes → Option Manifest
  pull_manifest base_url = elim (env.fetch (base_url ++ lit "/_apicorex/manifest")) [
    | none ↦ none
    | some (status, body) ↦ if nat_eq status 200 then named (env.decode body) else none
  ]

  abbrev pub new_id : Manifest → Bytes
  new_id m = m.name ++ (b'-' ∷ take 8 env.fresh_uuid)

  -- The part of register after the stale entries are evicted. `second` is the time in seconds.
  unfoldable pub admit_plugin : Handlers → Bytes → Manifest → ℕ → ℕ → Gateway → Reply × Gateway
  admit_plugin h base_url m now second g =
      elim (Registry.register env.parse_url (new_id m) m.name base_url m.version m now g.registry) [
        | none ↦ (refused 500 (lit "invalid base_url"), g)
        | some r ↦ (
          registered (new_id m) (PluginToken.issue env.codec h.signer (new_id m) second),
          add_plugin (new_id m) m.name m.plugin_type m.routes
              (record g { registry = r; docs = add_spec m.name m.openapi_spec g.docs }),
        )
      ]

  -- register, of a manifest that was pulled
  unfoldable pub register_manifest : Handlers → Bytes → Manifest → ℕ → ℕ → Gateway → Reply × Gateway
  register_manifest h base_url m now second g =
      if is_unlisted h m.name
      then (refused 403 (lit "not in allowlist"), g)
      else admit_plugin h base_url m now second (evict_all (ids_by_name m.name g.registry) g)

  -- register
  unfoldable pub register : Handlers → Option RegisterReq → ℕ → ℕ → Gateway → Reply × Gateway
  register h none now second g = (refused 400 (lit "invalid body"), g)
  register h (some req) now second g =
      if is_wrong_key h req.api_key
      then (refused 401 (lit "invalid api key"), g)
      else if is_empty req.base_url
      then (refused 400 (lit "base_url required"), g)
      else elim (pull_manifest req.base_url) [
        | none ↦ (refused 502 (lit "cannot pull manifest"), g)
        | some m ↦ register_manifest h req.base_url m now second g
      ]

  -- verifyToken
  unfoldable pub verify_token : Handlers → ℕ → Bytes → Bytes → Bool
  verify_token h second token id = elim (PluginToken.verify env.codec h.signer second token) [
    | none ↦ false
    | some tid ↦ tid == id
  ]

  -- heartbeat
  unfoldable pub heartbeat : Handlers → Option TokenReq → ℕ → ℕ → Gateway → Reply × Gateway
  heartbeat h none now second g = (refused 400 (lit "invalid body"), g)
  heartbeat h (some req) now second g =
      if verify_token h second req.plugin_token req.plugin_id
      then elim (Registry.heartbeat req.plugin_id now g.registry) [
        | none ↦ (refused 404 (lit "plugin not found"), g)
        | some r ↦ (done true, record g { registry = r })
      ]
      else (refused 401 (lit "invalid plugin token"), g)

  -- deregister
  unfoldable pub deregister : Handlers → Option TokenReq → ℕ → Gateway → Reply × Gateway
  deregister h none second g = (refused 400 (lit "invalid body"), g)
  deregister h (some req) second g =
      if verify_token h second req.plugin_token req.plugin_id
      then admin_deregister req.plugin_id g
      else (refused 401 (lit "invalid plugin token"), g)

-- The routes of Mount behind which a handler reads or changes the gateway.
pub data Call : Type 0 where
  call_register : Option RegisterReq → Call
  call_heartbeat call_deregister : Option TokenReq → Call
  call_admin_deregister call_reset : Bytes → Call
  call_maintenance : Option MaintenanceReq → Call
  call_list_maintenance : Call
  call_manifest : Bytes → Call

unfoldable pub handle : Env → Handlers → Call → ℕ → ℕ → Gateway → Reply × Gateway
handle env h (call_register req) now second g = register env h req now second g
handle env h (call_heartbeat req) now second g = heartbeat env h req now second g
handle env h (call_deregister req) now second g = deregister env h req second g
handle env h (call_admin_deregister id) now second g = admin_deregister id g
handle env h (call_reset id) now second g = reset_breaker id g
handle env h (call_maintenance req) now second g = maintain h req now g
handle env h call_list_maintenance now second g = list_maintenance now g
handle env h (call_manifest name) now second g = (plugin_manifest name g, g)
