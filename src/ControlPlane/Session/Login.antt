-- ===== src/ControlPlane/Session/Login.antt =====
-- A session lasts from the login until the end of its time.
use apicorex.Base.{
  ℕ, ◌+◌, ◌≡◌, refl, sym, ap, ◌∙◌, Bool, false, Option, none, some, [], ◌++◌, ltb, arith,
  Bool-cases, inl, inr, if◌then◌else◌,
}
use apicorex.Text.{Bytes, lit, ◌==◌, is_empty}
use apicorex.Text.Laws.{==_iff, ==-eq_of_length_ne, trim_prefix-append}
use apicorex.Http.{Headers, get_header}
use apicorex.ControlPlane.PluginToken
use apicorex.ControlPlane.PluginToken.{Codec}
use apicorex.ControlPlane.PluginToken.Roundtrip.{NoDot, IsFaithful, verify-issue}
use apicorex.ControlPlane.Handlers.{Handlers}
use apicorex.ControlPlane.Session.{
  bearer, Cookie, Reply, refused, session, ended, session_cookie, login, check_session,
  require_dashboard_session, require_session,
}

abbrev pub dashboard_plain : NoDot (lit "dashboard")
dashboard_plain = (refl, (refl, (refl, (refl, (refl, (refl, (refl, (refl, (refl, tt)))))))))

cookie_value : Reply → Bytes
cookie_value (refused status err) = []
cookie_value (session token cookie) = cookie.value
cookie_value (ended cookie) = cookie.value

module _ (codec : Codec) (h : Handlers) where
  -- The whole of requireSession and of RequireDashboardSession for a token that is there.
  require_session-token :
      (now : ℕ) (headers : Headers) (token : Bytes)
      → is_empty h.apicorex_secret ≡ false
      → is_empty token ≡ false
      → get_header (lit "Authorization") headers ≡ bearer ++ token
      → require_session codec h now headers ≡ check_session codec h now token
  unfolding require_session
  require_session-token now headers token secret given sent =
      let bare = trim_prefix-append bearer token in
      let differs : (token == (bearer ++ token)) ≡ false =
        ==-eq_of_length_ne token (bearer ++ token) (λ e. omega (arith, e)) in
      rw (secret, sent, require_session) (rw (bare, given, differs) refl)

  pub require_dashboard_session-token :
      (now : ℕ) (token : Bytes)
      → is_empty h.apicorex_secret ≡ false
      → is_empty token ≡ false
      → require_dashboard_session codec h now (some token) ≡ check_session codec h now token
  unfolding require_dashboard_session
  require_dashboard_session-token now token secret given = rw (secret, given) refl

  -- What a session that was opened is worth later.
  abbrev pub verdict : ℕ → ℕ → Option (ℕ × Bytes)
  verdict opened now =
      if ltb (opened + h.session_signer.ttl) now
      then some (401, lit "invalid or expired session")
      else none

  pub check_session-issue :
      (who : Bytes) (opened now : ℕ)
      → IsFaithful codec
      → NoDot who
      → check_session codec h now (PluginToken.issue codec h.session_signer who opened)
        ≡ verdict opened now
  unfolding check_session
  check_session-issue who opened now f plain =
      let said = verify-issue codec f h.session_signer who opened now plain in
      elim (Bool-cases (ltb (opened + h.session_signer.ttl) now)) [
        | inl over ↦ rw (said, check_session) (rw over refl)
        | inr lasting ↦ rw (said, check_session) (rw lasting refl)
      ]

  -- With a faithful codec that encodes no text but the empty one as nothing, and a secret that is
  -- set: a login that opens a session had the secret as its key; and from then on the session's
  -- token, as a bearer, and its cookie are accepted up to and including the second in which the
  -- signer's time to live ends, and refused from then on.
  pub login-session :
      (key token : Bytes) (tls : Bool) (headers later : Headers) (cookie : Cookie) (opened now : ℕ)
      → IsFaithful codec
      → ((s : Bytes) → is_empty s ≡ false → is_empty (codec.encode s) ≡ false)
      → is_empty h.apicorex_secret ≡ false
      → login codec h opened (some key) tls headers ≡ session token cookie
      → get_header (lit "Authorization") later ≡ bearer ++ token
      → (key ≡ h.apicorex_secret)
        × (require_session codec h now later ≡ verdict opened now)
        × (require_dashboard_session codec h now (some cookie.value) ≡ verdict opened now)
  unfolding login session_cookie cookie_value PluginToken.issue
  login-session key token tls headers later cookie opened now f encodes secret answer sent =
      elim (Bool-cases (key == h.apicorex_secret)) [
        | inr wrong ↦ cc (rw (secret, wrong) at answer)
        | inl right ↦
            let issued = PluginToken.issue codec h.session_signer (lit "dashboard") opened in
            let opens = rw (secret, right) at answer in
            let same : issued ≡ token = cc in
            let kept : issued ≡ cookie.value = ap cookie_value opens in
            let given : is_empty issued ≡ false = encodes _ refl in
            let accepted = check_session-issue (lit "dashboard") opened now f dashboard_plain in
            (
              (==_iff key h.apicorex_secret).0 right,
              require_session-token now later issued secret given
                    (sent ∙ ap (λ t. bearer ++ t) (sym same))
                  ∙ accepted,
              ap (λ t. require_dashboard_session codec h now (some t)) (sym kept)
                  ∙ require_dashboard_session-token now issued secret given
                  ∙ accepted,
            )
      ]
