-- ===== src/Dispatcher/Proxy.antt =====
-- The reverse proxy of internal/dispatcher/dispatcher.go, as far as it is the repository's own: where
-- a request is sent, what an error of the proxy is answered with, the status that is recorded, and
-- how a WebSocket request can end before its bytes are copied.
use apicorex.Base.{ℕ, Bool, true, false, Option, none, some, List, [], ◌∷◌, if◌then◌else◌}
use apicorex.Text.{Bytes, lit}
use apicorex.Http.{Request, Response, respond}
use apicorex.Registry.{Target}

-- A request on its way to a plugin, with the scheme and the host of its URL.
pub record Outgoing : Type 0 where
  pub scheme : Bytes
  pub url_host : Bytes
  pub request : Request

-- The Director of ProxyFor.
abbrev pub direct : Target → Request → Outgoing
direct target r = record {
  scheme = target.scheme;
  url_host = target.host;
  request = record r { host = target.host };
}

-- The ErrorHandler of ProxyFor.
abbrev pub proxy_error : Response
proxy_error = respond 502 (lit "plugin unavailable")

-- statusRecorder, without the writer that it wraps
pub record StatusRecorder : Type 0 where
  pub status : ℕ
  pub written : Bool

-- The recorder that Dispatch makes.
abbrev pub new_recorder : StatusRecorder
new_recorder = record { status = 200; written = false }

-- WriteHeader
unfoldable pub write_header : ℕ → StatusRecorder → StatusRecorder
write_header code r = if r.written then r else record { status = code; written = true }

-- WriteHeader for every status that the proxy writes, in order.
unfoldable pub write_headers : List ℕ → StatusRecorder → StatusRecorder
write_headers [] r = r
write_headers (code ∷ codes) r = write_headers codes (write_header code r)

-- proxyWebSocket up to the copying of bytes: whether the plugin was dialled, and whether the
-- client's connection can be taken over; the status that it answers with, if it answers.
unfoldable pub proxy_websocket : Bool → Bool → Option ℕ
proxy_websocket dialled can_hijack =
    if dialled then if can_hijack then none else some 500 else some 502
