-- ===== src/Middleware/Tenant.antt =====
-- internal/middleware/tenant.go: the headers that only the gateway may set.
pub mod Trust
use apicorex.Base.{Bool, Option, none, some, List, [], ◌∷◌, not, if◌then◌else◌}
use apicorex.Text.{Bytes, lit, is_empty, join}
use apicorex.Http.{Headers, Identity, Context, get_header, set_header, del_header, with_headers}

abbrev pub header_tenant_id : Bytes
header_tenant_id = lit "X-ApiCoreX-Tenant-ID"

abbrev pub header_tenant_slug : Bytes
header_tenant_slug = lit "X-ApiCoreX-Tenant-Slug"

abbrev pub header_tenant_name : Bytes
header_tenant_name = lit "X-ApiCoreX-Tenant-Name"

abbrev pub header_schema : Bytes
header_schema = lit "X-ApiCoreX-Schema"

abbrev pub header_tenant_schema : Bytes
header_tenant_schema = lit "X-ApiCoreX-Tenant-Schema"

abbrev pub header_nav : Bytes
header_nav = lit "X-ApiCoreX-Nav"

abbrev pub header_branch_id : Bytes
header_branch_id = lit "X-ApiCoreX-Branch-ID"

abbrev pub header_branch_slug : Bytes
header_branch_slug = lit "X-ApiCoreX-Branch-Slug"

abbrev pub header_branch_name : Bytes
header_branch_name = lit "X-ApiCoreX-Branch-Name"

abbrev pub header_user_id : Bytes
header_user_id = lit "X-ApiCoreX-User-ID"

abbrev pub header_user_name : Bytes
header_user_name = lit "X-ApiCoreX-User-Name"

abbrev pub header_user_type : Bytes
header_user_type = lit "X-ApiCoreX-User-Type"

abbrev pub header_roles : Bytes
header_roles = lit "X-ApiCoreX-Roles"

abbrev pub header_permissions : Bytes
header_permissions = lit "X-ApiCoreX-Permissions"

abbrev pub header_features : Bytes
header_features = lit "X-ApiCoreX-Features"

abbrev pub header_request_id : Bytes
header_request_id = lit "X-ApiCoreX-Request-ID"

abbrev pub header_token_hash : Bytes
header_token_hash = lit "X-ApiCoreX-Token-Hash"

abbrev pub header_forwarded_host : Bytes
header_forwarded_host = lit "X-ApiCoreX-Forwarded-Host"

abbrev pub header_host_prefix : Bytes
header_host_prefix = lit "X-ApiCoreX-Host-Prefix"

-- HeaderActingUser of auth.go, and the client's request id.
abbrev pub header_acting_user : Bytes
header_acting_user = lit "X-Acting-User"

abbrev pub client_request_id : Bytes
client_request_id = lit "X-Request-ID"

abbrev pub apicorex_headers : List Bytes
apicorex_headers =
    header_tenant_id ∷ header_tenant_slug ∷ header_schema ∷ header_tenant_schema ∷ header_nav
    ∷ header_branch_id ∷ header_branch_slug ∷ header_tenant_name ∷ header_branch_name
    ∷ header_user_id ∷ header_user_name ∷ header_user_type ∷ header_roles ∷ header_permissions
    ∷ header_features ∷ header_request_id ∷ header_token_hash ∷ header_forwarded_host
    ∷ header_host_prefix ∷ []

-- The loop of StripSpoofedHeaders.
unfoldable pub del_all : List Bytes → Headers → Headers
del_all [] h = h
del_all (k ∷ ks) h = del_all ks (del_header k h)

-- StripSpoofedHeaders
unfoldable pub strip_spoofed_headers : Context → Context
strip_spoofed_headers c = with_headers (del_all apicorex_headers c.request.headers) c

-- InjectForwardedHost
unfoldable pub inject_forwarded_host : Context → Context
inject_forwarded_host c =
    if is_empty c.request.host
    then c
    else with_headers (set_header header_forwarded_host c.request.host c.request.headers) c

-- The calls on the header that InjectTenantHeaders makes: Set, Set under `if v != ""`, and Del.
pub data Write : Type 0 where
  set_to set_nonempty : Bytes → Bytes → Write
  del : Bytes → Write

abbrev pub write : Write → Headers → Headers
write (set_to k v) h = set_header k v h
write (set_nonempty k v) h = if is_empty v then h else set_header k v h
write (del k) h = del_header k h

unfoldable pub write_all : List Write → Headers → Headers
write_all [] h = h
write_all (w ∷ ws) h = write_all ws (write w h)

-- The writes of InjectTenantHeaders, in the source's order, up to the request id.
unfoldable pub tenant_writes : Identity → Bytes → Bytes → List Write
tenant_writes id schema nav =
    del header_acting_user
    ∷ set_to header_tenant_id id.tenant_id
    ∷ set_to header_tenant_slug id.tenant_slug
    ∷ set_to header_schema schema
    ∷ set_to header_tenant_schema id.schema_name
    ∷ set_nonempty header_nav nav
    ∷ set_to header_branch_id id.branch_id
    ∷ set_to header_branch_slug id.branch_slug
    ∷ set_nonempty header_tenant_name id.tenant_name
    ∷ set_nonempty header_branch_name id.branch_name
    ∷ set_to header_user_id id.user_id
    ∷ set_nonempty header_user_name id.full_name
    ∷ set_to header_user_type id.user_type
    ∷ set_to header_roles (join (lit ",") id.roles)
    ∷ set_to header_permissions (join (lit ",") id.permissions)
    ∷ set_to header_features (join (lit ",") id.features)
    ∷ set_to header_token_hash id.token_hash
    ∷ []

-- The last write reads the client's request id.
unfoldable pub tenant_headers : Identity → Bytes → Bytes → Headers → Headers
tenant_headers id schema nav h =
    let set = write_all (tenant_writes id schema nav) h in
    write (set_nonempty header_request_id (get_header client_request_id set)) set

-- InjectTenantHeaders
unfoldable pub inject_tenant_headers : Bytes → Bytes → Context → Context
inject_tenant_headers schema nav c = elim c.identity [
  | none ↦ c
  | some id ↦ with_headers (tenant_headers id schema nav c.request.headers) c
]
