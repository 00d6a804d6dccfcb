-- ===== src/Config.antt =====
-- internal/config/config.go. Rates are in thousandths of a token, durations in nanoseconds, and a
-- value that is zero counts as not given, as in the source; the settings of the file are taken to be
-- natural numbers, though the source keeps a negative one as it is. Reading the YAML file and the
-- environment is a parameter: a setting of the environment that is absent, does not parse or is not
-- positive is 0. Only rates and bursts that are whole thousandths are modelled.
pub mod Merge
pub mod Signed
use apicorex.Base.{
  ℕ, ◌*◌, ◌^◌, Bool, true, false, Option, none, some, List, [], ◌∷◌, nat_eq, ltb, if◌then◌else◌,
}
use apicorex.Text.{Bytes}
use apicorex.Map.{Map, lookup, insert}

pub record Limits : Type 0 where
  pub rate_per_sec : ℕ
  pub rate_burst : ℕ
  pub tenant_rate_per_sec : ℕ
  pub tenant_rate_burst : ℕ
  pub bulkhead_max : ℕ
  pub cb_threshold : ℕ
  pub cb_reset_timeout : ℕ
  pub request_timeout : ℕ

pub record Config : Type 0 where
  pub default : Limits
  pub plugins : Map Limits
  pub health_interval : ℕ

-- Defaults
abbrev pub defaults : Config
defaults = record {
  default = record {
    rate_per_sec = 1000 * 1000;
    rate_burst = 1000 * 1000;
    tenant_rate_per_sec = 0;
    tenant_rate_burst = 0;
    bulkhead_max = 100;
    cb_threshold = 5;
    cb_reset_timeout = 30 * 10 ^ 9;
    request_timeout = 30 * 10 ^ 9;
  };
  plugins = [];
  health_interval = 30 * 10 ^ 9;
}

abbrev pub or_default : ℕ → ℕ → ℕ
or_default v d = if nat_eq v 0 then d else v

-- withDefaults
unfoldable pub with_defaults : Limits → Limits → Limits
with_defaults l def = record {
  rate_per_sec = or_default l.rate_per_sec def.rate_per_sec;
  rate_burst = or_default l.rate_burst def.rate_burst;
  tenant_rate_per_sec = or_default l.tenant_rate_per_sec def.tenant_rate_per_sec;
  tenant_rate_burst = or_default l.tenant_rate_burst def.tenant_rate_burst;
  bulkhead_max = or_default l.bulkhead_max def.bulkhead_max;
  cb_threshold = or_default l.cb_threshold def.cb_threshold;
  cb_reset_timeout = or_default l.cb_reset_timeout def.cb_reset_timeout;
  request_timeout = or_default l.request_timeout def.request_timeout;
}

-- Config.For
unfoldable pub for : Bytes → Config → Limits
for plugin_name c = elim (lookup plugin_name c.plugins) [
  | none ↦ c.default
  | some l ↦ with_defaults l c.default
]

unfoldable pub put_all : Map Limits → Map Limits → Map Limits
put_all [] m = m
put_all ((name, l) ∷ file) m = put_all file (insert name l m)

-- mergeFile
unfoldable pub merge_file : Config → Config → Config
merge_file cfg file = record {
  default = with_defaults file.default cfg.default;
  plugins = put_all file.plugins cfg.plugins;
  health_interval =
      if ltb 0 file.health_interval then file.health_interval else cfg.health_interval;
}

-- The settings that applyEnv and Load read from the environment.
pub record Env : Type 0 where
  pub rate_per_sec : ℕ
  pub bulkhead_max : ℕ
  pub cb_threshold : ℕ
  pub cb_reset_timeout : ℕ
  pub request_timeout : ℕ
  pub health_interval : ℕ

abbrev pub or_given : ℕ → ℕ → ℕ
or_given v l = if ltb 0 v then v else l

-- applyEnv
unfoldable pub apply_env : Env → Limits → Limits
apply_env e l = record l {
  rate_per_sec = or_given e.rate_per_sec l.rate_per_sec;
  rate_burst =
      if ltb 0 e.rate_per_sec
      then (if ltb l.rate_burst e.rate_per_sec then e.rate_per_sec else l.rate_burst)
      else l.rate_burst;
  bulkhead_max = or_given e.bulkhead_max l.bulkhead_max;
  cb_threshold = or_given e.cb_threshold l.cb_threshold;
  cb_reset_timeout = or_given e.cb_reset_timeout l.cb_reset_timeout;
  request_timeout = or_given e.request_timeout l.request_timeout;
}

abbrev with_file : Option Config → Config
with_file none = defaults
with_file (some file) = merge_file defaults file

-- Load, with the file if CONFIG_FILE names one; a file that cannot be read or parsed ends it with
-- an error before this.
unfoldable pub load : Option Config → Env → Config
load file e =
    let cfg = with_file file in
    record cfg {
      default = apply_env e cfg.default;
      health_interval = or_given e.health_interval cfg.health_interval;
    }
