-- ===== src/Config/Merge.antt =====
-- What the merging guarantees.
use apicorex.Base.{◌<◌, Option, none, some, arith, Option-cases, inl, inr}
use apicorex.Text.{Bytes}
use apicorex.Map.{lookup}
use apicorex.Config.{Limits, Config, Env, defaults, with_defaults, for, merge_file, apply_env, load}

-- Every limit that the protection layers rely on is positive.
pub record IsPositive (l : Limits) : Type 0 where
  pub rate : 0 < l.rate_per_sec
  pub burst : 0 < l.rate_burst
  pub bulkhead : 0 < l.bulkhead_max
  pub threshold : 0 < l.cb_threshold
  pub reset : 0 < l.cb_reset_timeout
  pub timeout : 0 < l.request_timeout

with_defaults-IsPositive : (l def : Limits) → IsPositive def → IsPositive (with_defaults l def)
unfolding with_defaults
with_defaults-IsPositive l def p = ground arith

apply_env-IsPositive : (e : Env) (l : Limits) → IsPositive l → IsPositive (apply_env e l)
unfolding apply_env
apply_env-IsPositive e l p = ground arith

-- Whatever settings that are not negative the file and the environment hold, every plugin gets
-- limits that are positive.
pub for-load-IsPositive :
    (file : Option Config) (e : Env) (name : Bytes) → IsPositive (for name (load file e))
unfolding for load merge_file
for-load-IsPositive file e name = elim (Option-cases (lookup name (load file e).plugins)) [
  | inl absent ↦ rw (absent, for) (load_default file)
  | inr (l, given) ↦
      rw (given, for) (with_defaults-IsPositive l (load file e).default (load_default file))
]
  where
    load_default : (f : Option Config) → IsPositive (load f e).default
    load_default none = apply_env-IsPositive e defaults.default (omega arith)
    load_default (some f) =
        apply_env-IsPositive e (with_defaults f.default defaults.default)
          (with_defaults-IsPositive f.default defaults.default (omega arith))
