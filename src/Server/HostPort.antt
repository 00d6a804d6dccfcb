-- ===== src/Server/HostPort.antt =====
-- stripHostPort of server/product_host.go, with net.SplitHostPort.
use apicorex.Base.{
  ℕ, Bool, false, ◌||◌, not, ◌&&◌, Option, none, some, [], ◌∷◌, nat_eq, if◌then◌else◌,
}
use apicorex.Text.{Bytes, cut}

-- strings.IndexByte(s, c) >= 0
unfoldable pub has_byte : ℕ → Bytes → Bool
has_byte c [] = false
has_byte c (a ∷ s) = nat_eq a c || has_byte c s

abbrev has_bracket : Bytes → Bool
has_bracket s = has_byte b'[' s || has_byte b']' s

-- The host of "host:port": one colon, and no bracket.
abbrev plain_host : Bytes → Option (Bytes × Bytes) → Option Bytes
plain_host s none = none
plain_host s (some (host, port)) = if has_byte b':' port || has_bracket s then none else some host

-- What follows "]": a colon and a port with no further colon or bracket.
abbrev is_port : Bytes → Bool
is_port [] = false
is_port (c ∷ port) = nat_eq c b':' && not (has_byte b':' port) && not (has_bracket port)

-- The host of "[host]:port", from what stands behind the first bracket.
abbrev bracketed_host : Option (Bytes × Bytes) → Option Bytes
bracketed_host none = none
bracketed_host (some (host, after)) =
    if is_port after && not (has_byte b'[' host) then some host else none

-- The host of net.SplitHostPort; `none` is its error.
unfoldable pub split_host_port : Bytes → Option Bytes
split_host_port [] = none
split_host_port (c ∷ s) =
    if nat_eq c b'[' then bracketed_host (cut b']' s) else plain_host (c ∷ s) (cut b':' (c ∷ s))

-- stripHostPort
unfoldable pub strip_host_port : Bytes → Bytes
strip_host_port host = elim (split_host_port host) [ none ↦ host | some h ↦ h ]
