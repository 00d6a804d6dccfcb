-- ===== src/Config/Signed/Negative.antt =====
-- What becomes of a negative setting of the file.
use apicorex.Base.{ℕ, ◌≡◌, refl, ap, ◌∙◌, Bool, true, false, none, some}
use apicorex.Base.Int.{pos, negsuc, ltb_ℤ}
use apicorex.Text.{Bytes, lit, is_empty}
use apicorex.Map.{lookup}
use apicorex.Config.Signed.{
  Settings, for, defaults, with_defaults, merge_file, Outside, env_int, apply_env, with_env,
  read_config, with_read, load,
}

-- A negative bulkhead_max in the defaults of the file goes through Load, unless the environment sets
-- BULKHEAD_MAX to a positive number: it is the limit of every plugin that the file does not name.
pub load-bulkhead_max_negative :
    (o : Outside) (file : Settings) (n : ℕ) (name : Bytes)
    → is_empty (o.getenv (lit "CONFIG_FILE")) ≡ false
    → read_config o (o.getenv (lit "CONFIG_FILE")) ≡ some file
    → file.default.bulkhead_max ≡ negsuc n
    → ltb_ℤ (pos 0) (env_int o (lit "BULKHEAD_MAX")) ≡ false
    → lookup name (load o).0.plugins ≡ none
    → (for name (load o).0).bulkhead_max ≡ negsuc n
unfolding for load with_env apply_env merge_file with_defaults
load-bulkhead_max_negative o file n name set read negative unset unnamed =
    rw (unnamed, for) (default_kept)
  where
    given : load o ≡ (with_env o (merge_file defaults file), true)
    given = simp set (ap (with_read o) read)

    default_kept : (load o).0.default.bulkhead_max ≡ negsuc n
    default_kept =
        ap (λ (p : Settings × Bool). p.0.default.bulkhead_max) given ∙ simp (unset, negative) refl
