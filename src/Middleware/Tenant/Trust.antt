-- ===== src/Middleware/Tenant/Trust.antt =====
-- No header of the gateway's family carries what a client wrote.
use apicorex.Base.{
  ◌≡◌, ◌≢◌, refl, sym, ap, ◌∙◌, Option, none, some, List, [], ◌∷◌, arith, In, Bool-cases, inl, inr,
  if◌then◌else◌,
}
use apicorex.Text.{Bytes, ◌==◌, is_empty}
use apicorex.Text.Laws.{==_iff}
use apicorex.Http.{
  Headers, Identity, Context, canonical, get_header, del_header, first_value, without,
}
use apicorex.Http.Laws.{first_value-without, first_value-cons}
use apicorex.Middleware.Tenant.{
  apicorex_headers, del_all, strip_spoofed_headers, inject_forwarded_host, tenant_headers,
  inject_tenant_headers, Write, set_to, set_nonempty, header_forwarded_host, del, write, write_all,
  tenant_writes, header_request_id, client_request_id,
}

del_all-absent :
    (k : Bytes) (ks : List Bytes) (h : Headers)
    → first_value k h ≡ []
    → first_value k (del_all ks h) ≡ []
unfolding del_all
del_all-absent k [] h e = e
del_all-absent k (j ∷ js) h e =
    del_all-absent k js (del_header j h)
      (first_value-without (canonical j) k h ∙ ground (arith, ==_iff (canonical j) k))

del_all-listed :
    (name k : Bytes) (ks : List Bytes) (h : Headers)
    → In k ks
    → canonical name ≡ canonical k
    → get_header name (del_all ks h) ≡ []
unfolding del_all
del_all-listed name k [] h m e = elim m [ ]
del_all-listed name k (j ∷ js) h (inl here) e =
    del_all-absent (canonical name) js (del_header j h) (
      first_value-without (canonical j) (canonical name) h
      ∙ ground (arith, ==_iff (canonical j) (canonical name), ap canonical here))
del_all-listed name k (j ∷ js) h (inr there) e = del_all-listed name k js (del_header j h) there e

-- After the strip no header of the family is left, however the client spelled its name.
pub strip-absent :
    (name k : Bytes) (c : Context)
    → In k apicorex_headers
    → canonical name ≡ canonical k
    → get_header name (strip_spoofed_headers c).request.headers ≡ []
unfolding strip_spoofed_headers
strip-absent name k c m e = del_all-listed name k apicorex_headers c.request.headers m e

-- What a write leaves under a key where the value was `old`.
abbrev pub under : Bytes → Write → Bytes → Bytes
under k (set_to j v) old = if canonical j == k then v else old
under k (set_nonempty j v) old = if canonical j == k then if is_empty v then old else v else old
under k (del j) old = if canonical j == k then [] else old

pub unders : Bytes → List Write → Bytes → Bytes
unders k [] old = old
unders k (w ∷ ws) old = unders k ws (under k w old)

write-under :
    (k : Bytes) (w : Write) (h : Headers) → first_value k (write w h) ≡ under k w (first_value k h)
write-under k (set_to j v) h =
    first_value-cons (canonical j) k v (without (canonical j) h)
    ∙ ground (arith, first_value-without (canonical j) k h)
write-under k (set_nonempty j []) h = ground arith
write-under k (set_nonempty j (b ∷ v)) h =
    first_value-cons (canonical j) k (b ∷ v) (without (canonical j) h)
    ∙ ground (arith, first_value-without (canonical j) k h)
write-under k (del j) h = first_value-without (canonical j) k h

write_all-under :
    (k : Bytes) (ws : List Write) (h : Headers)
    → first_value k (write_all ws h) ≡ unders k ws (first_value k h)
unfolding write_all unders
write_all-under k [] h = refl
write_all-under k (w ∷ ws) h =
    write_all-under k ws (write w h) ∙ ap (unders k ws) (write-under k w h)

under-apart : (k j v old : Bytes) → k ≢ canonical j → under k (set_nonempty j v) old ≡ old
under-apart k j v old apart = ground (arith, ==_iff (canonical j) k)

tenant_headers-under :
    (id : Identity) (schema nav k : Bytes) (h : Headers)
    → k ≢ canonical header_request_id
    → first_value k (tenant_headers id schema nav h)
      ≡ unders k (tenant_writes id schema nav) (first_value k h)
unfolding tenant_headers
tenant_headers-under id schema nav k h apart =
    let set = write_all (tenant_writes id schema nav) h in
    write-under k (set_nonempty header_request_id (get_header client_request_id set)) set
    ∙ under-apart k header_request_id (get_header client_request_id set) (first_value k set) apart
    ∙ write_all-under k (tenant_writes id schema nav) h

forwarded-under :
    (k : Bytes) (c : Context)
    → first_value k (inject_forwarded_host c).request.headers
      ≡ under k
          (set_nonempty header_forwarded_host c.request.host)
          (first_value k c.request.headers)
unfolding inject_forwarded_host
forwarded-under k c = elim (Bool-cases (is_empty c.request.host)) [
  | inl none_sent ↦ rw none_sent (ground arith)
  | inr sent ↦
      rw sent (
        write-under k (set_to header_forwarded_host c.request.host) c.request.headers
        ∙ ground arith)
]

-- What the gateway alone decides of a header of its family: from the identity, the host, and the
-- schema and menu that the dispatcher computed.
abbrev pub trusted : Bytes → Bytes → Bytes → Option Identity → Bytes → Bytes
trusted k schema nav none host = under k (set_nonempty header_forwarded_host host) []
trusted k schema nav (some id) host =
    unders k (tenant_writes id schema nav) (under k (set_nonempty header_forwarded_host host) [])

forwarded-same :
    (c : Context)
    → ((inject_forwarded_host c).identity ≡ c.identity)
      × ((inject_forwarded_host c).request.host ≡ c.request.host)
unfolding inject_forwarded_host
forwarded-same c = elim (Bool-cases (is_empty c.request.host)) [
  | inl none_sent ↦ rw none_sent (refl, refl)
  | inr sent ↦ rw sent (refl, refl)
]

inject-under :
    (k schema nav : Bytes) (c : Context) (id : Option Identity)
    → c.identity ≡ id
    → k ≢ canonical header_request_id
    → first_value k c.request.headers
      ≡ under k (set_nonempty header_forwarded_host c.request.host) []
    → first_value k (inject_tenant_headers schema nav c).request.headers
      ≡ trusted k schema nav id c.request.host
unfolding inject_tenant_headers
inject-under k schema nav c none e apart h = rw (e, inject_tenant_headers) h
inject-under k schema nav c (some id) e apart h =
    rw (e, inject_tenant_headers)
      (tenant_headers-under id schema nav k c.request.headers apart
        ∙ ap (unders k (tenant_writes id schema nav)) h)

-- A header of the family that was absent is what the gateway decides after both injections.
pub injected-trusted :
    (k schema nav : Bytes) (c : Context)
    → k ≢ canonical header_request_id
    → first_value k c.request.headers ≡ []
    → first_value k (inject_tenant_headers schema nav (inject_forwarded_host c)).request.headers
      ≡ trusted k schema nav c.identity c.request.host
injected-trusted k schema nav c apart absent =
    let (same_id, same_host) = forwarded-same c in
    inject-under k schema nav (inject_forwarded_host c) c.identity same_id apart (
      forwarded-under k c
      ∙ ap (under k (set_nonempty header_forwarded_host c.request.host)) absent
      ∙ ap (λ (h : Bytes). under k (set_nonempty header_forwarded_host h) []) (sym same_host))
    ∙ ap (trusted k schema nav c.identity) same_host
