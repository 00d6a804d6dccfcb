-- ===== src/Examples/Tokens.antt =====
-- The theorems on plugin tokens with a codec that writes numbers in strokes.
use apicorex.Base.{ℕ, zero, suc, ◌≡◌, refl, ap, none, some, [], ◌∷◌, length, arith}
use apicorex.Text.{Bytes, lit}
use apicorex.ControlPlane.PluginToken.{Codec, TokenSigner, issue, verify}
use apicorex.ControlPlane.PluginToken.Roundtrip.{NoDot, IsFaithful, verify-issue, verify_dotted}

pub strokes : ℕ → Bytes
strokes zero = []
strokes (suc n) = b'1' ∷ strokes n

length-strokes : (n : ℕ) → length (strokes n) ≡ n
unfolding strokes
length-strokes zero = refl
length-strokes (suc n) = omega (arith, length-strokes n)

strokes-NoDot : (n : ℕ) → NoDot (strokes n)
unfolding strokes
strokes-NoDot zero = tt
strokes-NoDot (suc n) = (refl, strokes-NoDot n)

abbrev pub codec : Codec
codec = record {
  encode = λ s. s;
  decode = λ s. some s;
  format_int = strokes;
  parse_int = λ s. some (length s);
  hmac = λ secret s. lit "x";
}

pub codec-IsFaithful : IsFaithful codec
codec-IsFaithful = record {
  decoded = λ s. refl;
  parsed = λ n. ap some (length-strokes n);
  plain_int = strokes-NoDot;
  plain_hmac = λ secret s. (refl, tt);
}

abbrev pub signer : TokenSigner
signer = record { secret = lit "k"; ttl = 5 }

verify-issue_example : verify codec signer 7 (issue codec signer (lit "pos") 3) ≡ some (lit "pos")
verify-issue_example =
    verify-issue codec codec-IsFaithful signer (lit "pos") 3 7 (refl, (refl, (refl, tt)))

verify_dotted_example : verify codec signer 3 (issue codec signer (lit "acme.pos") 3) ≡ none
verify_dotted_example =
    verify_dotted codec codec-IsFaithful signer (lit "acme.pos") 3 3 (lit "acme") (lit "pos") signer
      refl
