-- ===== src/ControlPlane/PluginToken/Roundtrip.antt =====
-- Which tokens that were issued are accepted.
use apicorex.Base.{
  ℕ, ◌+◌, ◌≡◌, ◌≢◌, refl, ap, ◌∙◌, none, some, List, [], ◌∷◌, ◌++◌, arith, length, if◌then◌else◌,
  ltb,
}
use mathlib.Core.List.{append_assoc}
use apicorex.Text.{Bytes, split}
use apicorex.Text.Split.{Lacks, split-before, split-plain, length-split, length_pos-split}
use apicorex.Text.Laws.{==_refl}
use apicorex.ControlPlane.PluginToken.{
  Codec, TokenSigner, sign, payload, verify_parts, issue, verify,
}

abbrev pub NoDot : Bytes → Type 0
NoDot s = Lacks b'.' s

-- What is relied on of the packages: what is encoded is decoded again, what is formatted is parsed
-- again, and neither a number nor a signature has a dot.
pub record IsFaithful (codec : Codec) : Type 0 where
  pub decoded : (s : Bytes) → codec.decode (codec.encode s) ≡ some s
  pub parsed : (n : ℕ) → codec.parse_int (codec.format_int n) ≡ some n
  pub plain_int : (n : ℕ) → NoDot (codec.format_int n)
  pub plain_hmac : (secret s : Bytes) → NoDot (codec.hmac secret s)

module _ (codec : Codec) (v : TokenSigner) (now : ℕ) where
  parts-none : (ps : List Bytes) → length ps ≢ 3 → verify_parts codec v now ps ≡ none
  parts-none [] h = refl
  parts-none (a ∷ []) h = refl
  parts-none (a ∷ b ∷ []) h = refl
  parts-none (a ∷ b ∷ c ∷ []) h = absurd (h refl)
  parts-none (a ∷ b ∷ c ∷ d ∷ ps) h = refl

module _ (codec : Codec) (f : IsFaithful codec) (s : TokenSigner) (plugin_id : Bytes)
    (t now : ℕ) where
  expiry : Bytes
  expiry = codec.format_int (t + s.ttl)

  signature : Bytes
  signature = sign codec s (payload codec plugin_id expiry)

  verify-parts :
      (v : TokenSigner)
      → verify codec v now (issue codec s plugin_id t)
        ≡ verify_parts codec v now
            (split b'.' (plugin_id ++ (b'.' ∷ (expiry ++ (b'.' ∷ signature)))))
  unfolding issue verify expiry signature
  verify-parts v =
      rw (f.decoded (payload codec plugin_id expiry ++ (b'.' ∷ signature)), verify)
        (ap (λ (raw : Bytes). verify_parts codec v now (split b'.' raw))
          (append_assoc plugin_id (b'.' ∷ expiry) (b'.' ∷ signature)))

  -- With a faithful codec, a token issued for an id without a dot is accepted as that id up to and
  -- including the second in which its time to live ends, and refused from then on.
  pub verify-issue :
      NoDot plugin_id
      → verify codec s now (issue codec s plugin_id t)
        ≡ (if ltb (t + s.ttl) now then none else some plugin_id)
  unfolding expiry signature
  verify-issue plain =
      verify-parts s
      ∙ rw
          (
            split-before b'.' plugin_id (expiry ++ (b'.' ∷ signature)) plain,
            split-before b'.' expiry signature (f.plain_int (t + s.ttl)),
            split-plain b'.' signature (f.plain_hmac s.secret (payload codec plugin_id expiry)),
            ==_refl signature,
            f.parsed (t + s.ttl),
          )
          refl

  -- With a faithful codec, a token issued for an id with a dot is accepted by no signer at any
  -- time.
  pub verify_dotted :
      (a b : Bytes) (v : TokenSigner)
      → plugin_id ≡ a ++ (b'.' ∷ b)
      → verify codec v now (issue codec s plugin_id t) ≡ none
  verify_dotted a b v e =
      let rest = expiry ++ (b'.' ∷ signature) in
      verify-parts v
      ∙ parts-none codec v now (split b'.' (plugin_id ++ (b'.' ∷ rest))) (
          omega (
            arith,
            length-split b'.' plugin_id rest,
            ap (λ (id : Bytes). length (split b'.' id)) e,
            length-split b'.' a b,
            length-split b'.' expiry signature,
            length_pos-split b'.' a,
            length_pos-split b'.' b,
            length_pos-split b'.' expiry,
            length_pos-split b'.' signature,
          ))
