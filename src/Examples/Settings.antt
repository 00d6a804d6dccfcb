-- ===== src/Examples/Settings.antt =====
-- The theorems on the settings: a file with a burst and a bulkhead of its own, and the environment.
use apicorex.Base.{◌≡◌, refl, none, some, [], ◌∷◌, if◌then◌else◌}
use apicorex.Base.Int.{pos, negsuc}
use apicorex.Text.{Bytes, lit, ◌==◌}
use apicorex.Config
use apicorex.Map.{lookup}
use apicorex.Config.Signed.{
  with_env, merge_file, put_all, defaults, Settings, signed, for, Outside, load,
}
use apicorex.Config.Signed.Negative.{load-bulkhead_max_negative}
use apicorex.Examples.{billing}

abbrev file : Config.Config
file = record {
  default = record (Config.defaults.default) { rate_burst = 0; bulkhead_max = 20 };
  plugins = (billing, record (Config.defaults.default) { cb_threshold = 0 }) ∷ [];
  health_interval = 0;
}

abbrev getenv : Bytes → Bytes
getenv name =
    if name == lit "CONFIG_FILE"
    then lit "apicorex.yaml"
    else (if name == lit "CB_THRESHOLD" then lit "7" else [])

abbrev outside : Settings → Outside
outside settings = record {
  getenv = getenv;
  read_file = λ path. some (lit "text");
  unmarshal = λ text. some settings;
  parse_float = λ s. none;
  atoi = λ s. if s == lit "7" then some (pos 7) else none;
  parse_duration = λ s. none;
}

-- The same file with a bulkhead of -1 and no plugin of its own.
abbrev closed : Settings
closed = record {
  default = record (signed Config.defaults.default) { bulkhead_max = negsuc 0 };
  plugins = [];
  health_interval = pos 0;
}

load-bulkhead_max_negative_example : (for billing (load (outside closed)).0).bulkhead_max ≡ negsuc 0
unfolding ◌==◌ load lookup with_env merge_file put_all defaults
load-bulkhead_max_negative_example =
    load-bulkhead_max_negative (outside closed) closed 0 billing refl refl refl refl refl
