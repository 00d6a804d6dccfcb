-- ===== src/Auth/Introspect/Keys.antt =====
-- One cache serves both kinds of token, so its keys must tell the queries apart.
use apicorex.Base.{ℕ, ◌≡◌, ◌≢◌, refl, sym, ap, ◌∙◌, false, some, [], ◌∷◌, All, nat_eq}
use apicorex.Text.{Bytes, lit, cut}
use apicorex.Auth.Introspect.{device_key, platform_key}

-- A bearer's query: the digest of a device token with the acting user, or a platform session.
pub data Query : Type 0 where
  device : Bytes → Bytes → Query
  platform : Bytes → Query

abbrev pub key : Query → Bytes
key (device hash acting) = device_key hash acting
key (platform raw) = platform_key raw

-- What is known of a digest in hexadecimal: it has no bar, and is not the word "platform".
abbrev pub IsDigest : Query → Type 0
IsDigest (device hash acting) =
    All (λ (c : ℕ). nat_eq c b'|' ≡ false) hash × (hash ≢ lit "platform")
IsDigest (platform raw) = Unit

cut-device_key :
    (hash acting : Bytes)
    → All (λ (c : ℕ). nat_eq c b'|' ≡ false) hash
    → cut b'|' (device_key hash acting) ≡ some (hash, acting)
unfolding cut
cut-device_key [] acting h = refl
cut-device_key (c ∷ hash) acting (n, h) = rw (n, cut-device_key hash acting h)

cut-platform_key : (raw : Bytes) → cut b'|' (platform_key raw) ≡ some (lit "platform", raw)
unfolding cut
cut-platform_key raw = refl

-- Two queries whose digests have no bar and are not the word "platform" share a cache key only if
-- they are the same query.
pub key-injective : (p q : Query) → IsDigest p → IsDigest q → key p ≡ key q → p ≡ q
key-injective (device h a) (device g b) (n, _) (m, _) e =
    let same = sym (cut-device_key h a n) ∙ ap (cut b'|') e ∙ cut-device_key g b m in cc
key-injective (device h a) (platform r) (n, w) _ e =
    let same = sym (cut-device_key h a n) ∙ ap (cut b'|') e ∙ cut-platform_key r in absurd (w (cc))
key-injective (platform r) (device h a) _ (n, w) e =
    let same = sym (cut-device_key h a n) ∙ ap (cut b'|') (sym e) ∙ cut-platform_key r in
    absurd (w (cc))
key-injective (platform r) (platform s) _ _ e =
    let same = sym (cut-platform_key r) ∙ ap (cut b'|') e ∙ cut-platform_key s in cc
