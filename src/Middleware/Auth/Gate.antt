-- ===== src/Middleware/Auth/Gate.antt =====
-- What gets past the authentication, and how a request is turned away.
use apicorex.Base.{ℕ, ◌≡◌, ◌↔◌, refl, sym, ap, ◌∙◌, Option, none, some, Option-cases, inl, inr}
use apicorex.Text.{Bytes, lit}
use apicorex.Http.{Identity, Context, Response, respond, next, abort}
use apicorex.Auth.Cache.{
  Answer, resolved, failed, unavailable, membership_revoked, invalid_token, domain_not_found,
}
use apicorex.Auth.Introspect.{Introspector}
use apicorex.Middleware.Auth.{
  Env, device_token, reject_unauthenticated, resolve_token, settle, auth_with_login, optional_auth,
  adopt,
}

module _ (env : Env) (login_url : Bytes) (base_url : Option Bytes) (now : ℕ) (c : Context)
    (i : Introspector) where
  -- What the request was resolved to, if it carried a token of a known kind.
  unfoldable pub resolution : Option (Answer Identity × Introspector)
  resolution = elim (device_token env c.request.headers) [
    | none ↦ none
    | some token ↦ resolve_token env base_url token c.request.headers now i
  ]

  abbrev pub Resolves : Answer Identity → Type 0
  Resolves answer = (i' : Introspector) × (resolution ≡ some (answer, i'))

  auth-some :
      (answer : Answer Identity) (i' : Introspector)
      → resolution ≡ some (answer, i')
      → (auth_with_login env login_url base_url now c i).0 ≡ settle env login_url c answer
  unfolding auth_with_login resolution
  auth-some answer i' e = elim (Option-cases (device_token env c.request.headers)) [
    | inl no_token ↦ cc (rw (no_token, resolution) at e)
    | inr (token, found) ↦
        let e' = rw (found, resolution) at e in rw (found, auth_with_login) (rw e' refl)
  ]

  auth-none :
      resolution ≡ none
      → (r : Response) × ((auth_with_login env login_url base_url now c i).0 ≡ abort r)
  unfolding auth_with_login resolution
  auth-none e = elim (Option-cases (device_token env c.request.headers)) [
    | inl no_token ↦ (
      reject_unauthenticated env login_url (lit "missing authorization header") c.request,
      rw (no_token, auth_with_login) refl,
    )
    | inr (token, found) ↦
        let e' = rw (found, resolution) at e in
        (
          reject_unauthenticated env login_url (lit "invalid token") c.request,
          rw (found, auth_with_login) (rw e' refl),
        )
  ]

  optional-some :
      (answer : Answer Identity) (i' : Introspector)
      → resolution ≡ some (answer, i')
      → (optional_auth env base_url now c i).0 ≡ adopt env c answer
  unfolding optional_auth resolution
  optional-some answer i' e = elim (Option-cases (device_token env c.request.headers)) [
    | inl no_token ↦ cc (rw (no_token, resolution) at e)
    | inr (token, found) ↦
        let e' = rw (found, resolution) at e in rw (found, optional_auth) (rw e' refl)
  ]

  settle-next :
      (answer : Answer Identity) (c' : Context)
      → settle env login_url c answer ≡ next c'
      → (id : Identity) × (answer ≡ resolved id) × (c' ≡ record c { identity = some id })
  settle-next (resolved id) c' h = (id, refl, cc)
  settle-next (failed invalid_token) c' h = cc
  settle-next (failed membership_revoked) c' h = cc
  settle-next (failed unavailable) c' h = cc
  settle-next (failed domain_not_found) c' h = cc

  auth-next :
      (c' : Context)
      → (auth_with_login env login_url base_url now c i).0 ≡ next c'
      → (id : Identity) × Resolves (resolved id) × (c' ≡ record c { identity = some id })
  auth-next c' h = elim (Option-cases resolution) [
    | inl unresolved ↦ let (r, e) = auth-none unresolved in cc
    | inr ((answer, i'), e) ↦
        let (id, same, new) = settle-next answer c' (sym (auth-some answer i' e) ∙ h) in
        (
          id,
          (
            i',
            e
                ∙ ap
                    (λ (a : Answer Identity).
                      some (let p : Answer Identity × Introspector = (a, i') in p))
                    same,
          ),
          new,
        )
  ]

  -- With authentication on, a request goes on exactly if its token was resolved to an identity,
  -- and then with that identity and nothing else changed.
  pub auth-next_iff :
      (c' : Context)
      → ((auth_with_login env login_url base_url now c i).0 ≡ next c')
        ↔ ((id : Identity) × Resolves (resolved id) × (c' ≡ record c { identity = some id }))
  auth-next_iff c' = (auth-next c', λ w. auth-some (resolved w.0) w.1.0 w.1.1 ∙ ap next (sym w.2))

  -- A token whose resolution fails because Identity cannot be reached is answered with 503:
  -- neither with 401 nor with a redirect to the login.
  pub auth_unavailable :
      Resolves (failed unavailable)
      → (auth_with_login env login_url base_url now c i).0
        ≡ abort (respond 503 (lit "auth unavailable"))
  auth_unavailable (i', e) = auth-some (failed unavailable) i' e

  -- Where AuthWithLogin lets a request go on, OptionalAuth passes it on with the same identity and
  -- nothing else changed.
  pub optional_auth-next :
      (c' : Context)
      → (auth_with_login env login_url base_url now c i).0 ≡ next c'
      → (optional_auth env base_url now c i).0 ≡ c'
  optional_auth-next c' h =
      let (id, (i', e), new) = auth-next c' h in optional-some (resolved id) i' e ∙ sym new
