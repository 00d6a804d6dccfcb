-- ===== src/Http.antt =====
-- HTTP requests as net/http and gin hand them to the gateway: http.Header, the request and the
-- context that the middleware chain passes on. A header's values are kept one to an entry.
pub mod Laws
use apicorex.Base.{
  ℕ, ◌+◌, ◌-◌, Bool, true, false, ◌&&◌, ◌||◌, Option, none, some, List, [], ◌∷◌, leb, nat_eq,
  if◌then◌else◌,
}
use apicorex.Text.{Bytes, lit, ◌==◌, is_empty, upper, lower}

-- A byte that textproto accepts in a header's name.
abbrev is_token : ℕ → Bool
is_token c =
    (leb b'a' c && leb c b'z')
    || (leb b'A' c && leb c b'Z')
    || (leb b'0' c && leb c b'9')
    || nat_eq c b'-'
    || nat_eq c b'_'
    || nat_eq c b'.'
    || nat_eq c b'~'
    || nat_eq c b'!'
    || nat_eq c b'#'
    || nat_eq c b'$'
    || nat_eq c b'%'
    || nat_eq c b'&'
    || nat_eq c b'*'
    || nat_eq c b'+'
    || nat_eq c b'^'
    || nat_eq c b'|'
    || nat_eq c 39
    || nat_eq c 96

all_tokens : Bytes → Bool
all_tokens [] = true
all_tokens (c ∷ s) = is_token c && all_tokens s

capitalise : Bool → Bytes → Bytes
capitalise start [] = []
capitalise start (c ∷ s) = (if start then upper c else lower c) ∷ capitalise (nat_eq c b'-') s

-- textproto.CanonicalMIMEHeaderKey
unfoldable pub canonical : Bytes → Bytes
unfolding all_tokens capitalise upper lower
canonical s = if all_tokens s then capitalise true s else s

abbrev pub Headers : Type 0
Headers = List (Bytes × Bytes)

-- The first value under a canonical key, "" if there is none.
unfoldable pub first_value : Bytes → Headers → Bytes
first_value k [] = []
first_value k ((j, v) ∷ h) = if j == k then v else first_value k h

unfoldable pub without : Bytes → Headers → Headers
without k [] = []
without k ((j, v) ∷ h) = let rest = without k h in if j == k then rest else (j, v) ∷ rest

-- Header.Get
abbrev pub get_header : Bytes → Headers → Bytes
get_header k h = first_value (canonical k) h

-- Header.Del
abbrev pub del_header : Bytes → Headers → Headers
del_header k h = without (canonical k) h

-- Header.Set
abbrev pub set_header : Bytes → Bytes → Headers → Headers
set_header k v h = (canonical k, v) ∷ without (canonical k) h

pub record Request : Type 0 where
  pub method : Bytes
  pub path : Bytes
  pub query : Bytes
  pub host : Bytes
  pub headers : Headers

-- Identity of internal/auth/introspect.go
pub record Identity : Type 0 where
  pub tenant_id : Bytes
  pub tenant_slug : Bytes
  pub tenant_name : Bytes
  pub schema_name : Bytes
  pub branch_id : Bytes
  pub branch_slug : Bytes
  pub branch_name : Bytes
  pub user_id : Bytes
  pub full_name : Bytes
  pub user_type : Bytes
  pub roles : List Bytes
  pub permissions : List Bytes
  pub features : List Bytes
  pub token_hash : Bytes

-- What the middleware chain passes on: the request, and the values kept under the keys
-- "identity" and "apicorex.host_tenant".
pub record Context : Type 0 where
  pub request : Request
  pub identity : Option Identity
  pub host_tenant : Option Bytes

-- An answer that the gateway gives itself: a status with an error text, or a redirect.
pub data Response : Type 0 where
  respond : ℕ → Bytes → Response
  redirect : Bytes → Response

-- c.Next() with the context, or an abort.
pub data Flow : Type 0 where
  next : Context → Flow
  abort : Response → Flow

abbrev pub with_headers : Headers → Context → Context
with_headers h c = record c { request = record (c.request) { headers = h } }
