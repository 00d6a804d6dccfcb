-- ===== src/ControlPlane/PluginToken.antt =====
-- internal/controlplane/plugintoken.go. Seconds since the epoch are natural numbers; base64, the
-- HMAC and strconv are a parameter.
pub mod Roundtrip
use apicorex.Base.{ℕ, ◌+◌, ◌++◌, Bool, Option, none, some, List, [], ◌∷◌, ltb, if◌then◌else◌}
use apicorex.Text.{Bytes, ◌==◌, split}

pub record Codec : Type 0 where
  -- base64.RawURLEncoding
  pub encode : Bytes → Bytes
  pub decode : Bytes → Option Bytes
  -- strconv.FormatInt and ParseInt, in base 10
  pub format_int : ℕ → Bytes
  pub parse_int : Bytes → Option ℕ
  -- the HMAC of a payload under a secret, in base64
  pub hmac : Bytes → Bytes → Bytes

pub record TokenSigner : Type 0 where
  pub secret : Bytes
  pub ttl : ℕ

-- newTokenSigner
abbrev pub new_token_signer : Bytes → ℕ → TokenSigner
new_token_signer secret ttl = record { secret = secret; ttl = ttl }

module _ (codec : Codec) where
  -- sign
  abbrev pub sign : TokenSigner → Bytes → Bytes
  sign s payload = codec.hmac s.secret payload

  abbrev pub payload : Bytes → Bytes → Bytes
  payload plugin_id exp = plugin_id ++ (b'.' ∷ exp)

  -- issue
  unfoldable pub issue : TokenSigner → Bytes → ℕ → Bytes
  issue s plugin_id now =
      let p = payload plugin_id (codec.format_int (now + s.ttl)) in
      codec.encode (p ++ (b'.' ∷ sign s p))

  -- The test of the expiry.
  abbrev unexpired : ℕ → Bytes → Option ℕ → Option Bytes
  unexpired now plugin_id none = none
  unexpired now plugin_id (some exp) = if ltb exp now then none else some plugin_id

  -- The tests of verify on the parts between the dots.
  abbrev verify_parts : TokenSigner → ℕ → List Bytes → Option Bytes
  verify_parts s now (plugin_id ∷ exp ∷ sig ∷ []) =
      if sig == sign s (payload plugin_id exp)
      then unexpired now plugin_id (codec.parse_int exp)
      else none
  verify_parts s now _ = none

  -- verify; `none` is an error.
  unfoldable pub verify : TokenSigner → ℕ → Bytes → Option Bytes
  verify s now token = elim (codec.decode token) [
    | none ↦ none
    | some raw ↦ verify_parts s now (split b'.' raw)
  ]
