-- ===== src/Config/Signed/Natural.antt =====
-- With a file that has no negative setting, the settings are those of Config.
use apicorex.Base.{
  ℕ, ◌≡◌, refl, ap, ◌∙◌, Bool, true, false, Option, none, some, [], ◌∷◌, arith, Bool-cases,
  Option-cases, inl, inr, ltb, if◌then◌else◌,
}
use apicorex.Base.Int.{ℤ, pos, negsuc, ltb_ℤ}
use apicorex.Text.{Bytes, lit, ◌==◌, is_empty}
use apicorex.Map.{Map, lookup, insert, delete}
use apicorex.Config
use apicorex.Config.{Env}
use apicorex.Config.Merge.{IsPositive, for-load-IsPositive}
use apicorex.Config.Signed.{
  Limits, Settings, for, signed, signed_all, signed_config, defaults, with_defaults, put_all,
  or_given, merge_file, Outside, env_float, env_int, env_duration, apply_env, with_env, read_config,
  with_read, load,
}

-- A setting of the environment that is not positive counts as not given.
abbrev pub pos_part : ℤ → ℕ
pos_part (pos n) = n
pos_part (negsuc n) = 0

-- The settings of the environment as natural numbers.
abbrev pub env_of : Outside → Env
env_of o = record {
  rate_per_sec = pos_part (env_float o (lit "RATE_PER_SEC"));
  bulkhead_max = pos_part (env_int o (lit "BULKHEAD_MAX"));
  cb_threshold = pos_part (env_int o (lit "CB_THRESHOLD"));
  cb_reset_timeout = pos_part (env_duration o (lit "CB_RESET_TIMEOUT"));
  request_timeout = pos_part (env_duration o (lit "REQUEST_TIMEOUT"));
  health_interval = pos_part (env_duration o (lit "HEALTH_INTERVAL"));
}

or_given-pos : (v : ℤ) (l : ℕ) → or_given v (pos l) ≡ pos (Config.or_given (pos_part v) l)
or_given-pos (pos n) l = ground arith
or_given-pos (negsuc n) l = ground arith

burst-pos :
    (v : ℤ) (l : ℕ)
    → (if ltb_ℤ (pos 0) v then (if ltb_ℤ (pos l) v then v else pos l) else pos l)
      ≡ pos (if ltb 0 (pos_part v) then (if ltb l (pos_part v) then pos_part v else l) else l)
burst-pos (pos n) l = ground arith
burst-pos (negsuc n) l = ground arith

-- The end of Load on natural numbers.
abbrev with_natural_env : Env → Config.Config → Config.Config
with_natural_env e cfg = record cfg {
  default = Config.apply_env e cfg.default;
  health_interval = Config.or_given e.health_interval cfg.health_interval;
}

abbrev signed_option : Option Config.Limits → Option Limits
signed_option none = none
signed_option (some l) = some (signed l)

lookup-signed :
    (name : Bytes) (m : Map Config.Limits)
    → lookup name (signed_all m) ≡ signed_option (lookup name m)
unfolding lookup signed_all
lookup-signed name [] = refl
lookup-signed name ((j, k) ∷ m) = elim (Bool-cases (j == name)) [
  | inl hit ↦ simp hit refl
  | inr miss ↦ simp miss (lookup-signed name m)
]

with_defaults-signed :
    (l def : Config.Limits)
    → with_defaults (signed l) (signed def) ≡ signed (Config.with_defaults l def)
unfolding with_defaults Config.with_defaults
with_defaults-signed l def = ground arith

delete-signed :
    (name : Bytes) (m : Map Config.Limits) → delete name (signed_all m) ≡ signed_all (delete name m)
unfolding delete signed_all
delete-signed name [] = refl
delete-signed name ((j, k) ∷ m) = elim (Bool-cases (j == name)) [
  | inl hit ↦ simp hit (delete-signed name m)
  | inr miss ↦ simp miss (ap (λ rest. (j, signed k) ∷ rest) (delete-signed name m))
]

insert-signed :
    (name : Bytes) (l : Config.Limits) (m : Map Config.Limits)
    → insert name (signed l) (signed_all m) ≡ signed_all (insert name l m)
unfolding insert signed_all
insert-signed name l m = ap (λ rest. (name, signed l) ∷ rest) (delete-signed name m)

put_all-signed :
    (file m : Map Config.Limits)
    → put_all (signed_all file) (signed_all m) ≡ signed_all (Config.put_all file m)
unfolding put_all Config.put_all signed_all
put_all-signed [] m = refl
put_all-signed ((name, l) ∷ file) m =
    ap (put_all (signed_all file)) (insert-signed name l m) ∙ put_all-signed file (insert name l m)

merge_file-signed :
    (cfg file : Config.Config)
    → merge_file (signed_config cfg) (signed_config file)
      ≡ signed_config (Config.merge_file cfg file)
unfolding merge_file Config.merge_file signed_config
merge_file-signed cfg file = λ i. record {
  default = with_defaults-signed file.default cfg.default i;
  plugins = put_all-signed file.plugins cfg.plugins i;
  health_interval = or_given-pos (pos file.health_interval) cfg.health_interval i;
}

apply_env-signed :
    (o : Outside) (l : Config.Limits)
    → apply_env o (signed l) ≡ signed (Config.apply_env (env_of o) l)
unfolding apply_env Config.apply_env
apply_env-signed o l = λ i. record {
  rate_per_sec = or_given-pos (env_float o (lit "RATE_PER_SEC")) l.rate_per_sec i;
  rate_burst = burst-pos (env_float o (lit "RATE_PER_SEC")) l.rate_burst i;
  tenant_rate_per_sec = pos l.tenant_rate_per_sec;
  tenant_rate_burst = pos l.tenant_rate_burst;
  bulkhead_max = or_given-pos (env_int o (lit "BULKHEAD_MAX")) l.bulkhead_max i;
  cb_threshold = or_given-pos (env_int o (lit "CB_THRESHOLD")) l.cb_threshold i;
  cb_reset_timeout = or_given-pos (env_duration o (lit "CB_RESET_TIMEOUT")) l.cb_reset_timeout i;
  request_timeout = or_given-pos (env_duration o (lit "REQUEST_TIMEOUT")) l.request_timeout i;
}

with_env-signed :
    (o : Outside) (cfg : Config.Config)
    → with_env o (signed_config cfg) ≡ signed_config (with_natural_env (env_of o) cfg)
unfolding with_env signed_config
with_env-signed o cfg = λ i. record {
  default = apply_env-signed o cfg.default i;
  plugins = signed_all cfg.plugins;
  health_interval = or_given-pos (env_duration o (lit "HEALTH_INTERVAL")) cfg.health_interval i;
}

for-signed :
    (name : Bytes) (cfg : Config.Config)
    → for name (signed_config cfg) ≡ signed (Config.for name cfg)
unfolding for signed_config Config.for
for-signed name cfg = elim (Option-cases (lookup name cfg.plugins)) [
  | inl absent ↦ rw (lookup-signed name cfg.plugins, for) (rw (absent, for, Config.for) refl)
  | inr (l, given) ↦
      rw (lookup-signed name cfg.plugins, for)
        (rw (given, for, Config.for) (with_defaults-signed l cfg.default))
]

-- The file that Load reads: none if CONFIG_FILE is not set, or one without a negative setting.
abbrev pub Reads : Outside → Option Config.Config → Type 0
Reads o none = is_empty (o.getenv (lit "CONFIG_FILE")) ≡ true
Reads o (some file) =
    (is_empty (o.getenv (lit "CONFIG_FILE")) ≡ false)
    × (read_config o (o.getenv (lit "CONFIG_FILE")) ≡ some (signed_config file))

load-signed :
    (o : Outside) (file : Option Config.Config)
    → Reads o file
    → load o ≡ (signed_config (Config.load file (env_of o)), true)
unfolding load Config.load defaults
load-signed o none unset = simp unset (ap (λ c. (c, true)) (with_env-signed o Config.defaults))
load-signed o (some file) (set, read) = simp set (
    ap (with_read o) read
    ∙ ap (λ c. (with_env o c, true)) (merge_file-signed Config.defaults file)
    ∙ ap (λ c. (c, true)) (with_env-signed o (Config.merge_file Config.defaults file)))

-- With no file, or with one that has no negative setting, Load gives without an error what it gives
-- on natural numbers, with every setting of the environment that is absent, does not parse or is not
-- positive taken as 0; and the limits of every plugin are those that they are there, which are
-- positive but for the two of tenants.
pub load-natural :
    (o : Outside) (file : Option Config.Config)
    → Reads o file
    → (load o ≡ (signed_config (Config.load file (env_of o)), true))
      × ((name : Bytes)
          → (for name (load o).0 ≡ signed (Config.for name (Config.load file (env_of o))))
            × IsPositive (Config.for name (Config.load file (env_of o))))
load-natural o file reads =
    let same = load-signed o file reads in
    (
      same,
      λ name. (
        ap (λ (p : Settings × Bool). for name p.0) same
            ∙ for-signed name (Config.load file (env_of o)),
        for-load-IsPositive file (env_of o) name,
      ),
    )
