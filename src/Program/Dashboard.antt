-- ===== src/Program/Dashboard.antt =====
-- cmd/apicorex/dashboard.go. The embedded files are a parameter: what fs.ReadFile gives for a name
-- under admin/out, `none` for an error.
pub mod Pages
use apicorex.Base.{ℕ, Bool, true, false, ◌||◌, Option, none, some, if◌then◌else◌}
use apicorex.Text.{Bytes, lit, ◌==◌, is_empty, trim_prefix, to_lower}
use apicorex.Text.Path.{ext, join_two}

-- contentTypeForDashboard
unfoldable pub content_type_for_dashboard : Bytes → Bytes
content_type_for_dashboard name =
    let e = to_lower (ext name) in
    if e == lit ".html"
    then lit "text/html; charset=utf-8"
    else if (e == lit ".js") || (e == lit ".mjs")
    then lit "text/javascript; charset=utf-8"
    else if e == lit ".css"
    then lit "text/css; charset=utf-8"
    else if e == lit ".json"
    then lit "application/json; charset=utf-8"
    else if e == lit ".txt"
    then lit "text/plain; charset=utf-8"
    else if e == lit ".svg"
    then lit "image/svg+xml"
    else if e == lit ".ico"
    then lit "image/x-icon"
    else if e == lit ".png"
    then lit "image/png"
    else if e == lit ".woff2"
    then lit "font/woff2"
    else if e == lit ".woff"
    then lit "font/woff"
    else lit "application/octet-stream"

-- What is answered: a status, a content type and a body.
pub record Page : Type 0 where
  pub status : ℕ
  pub content_type : Bytes
  pub body : Bytes

abbrev pub page : Option (Bytes × Bytes) → Page
page none = record {
  status = 500;
  content_type = lit "text/plain; charset=utf-8";
  body = lit "dashboard UI missing";
}
page (some (b, content_type)) = record { status = 200; content_type = content_type; body = b }

-- The name of the file that a request is for.
abbrev pub requested : Bytes → Bytes
requested filepath =
    let rel = trim_prefix filepath (lit "/") in if is_empty rel then lit "index.html" else rel

module _ (read : Bytes → Option Bytes) where
  -- The index of a directory, for a name without an extension.
  abbrev pub as_html : Option Bytes → Option (Bytes × Bytes)
  as_html none = none
  as_html (some b) = some (b, lit "text/html; charset=utf-8")

  abbrev pub or_index : Bytes → Option Bytes → Option (Bytes × Bytes)
  or_index rel none =
      if is_empty (ext rel) then as_html (read (join_two rel (lit "index.html"))) else none
  or_index rel (some b) = some (b, content_type_for_dashboard rel)

  -- readDashboardFile: the data with its content type.
  unfoldable pub read_dashboard_file : Bytes → Option (Bytes × Bytes)
  read_dashboard_file rel = or_index rel (read rel)

  abbrev pub or_app : Option (Bytes × Bytes) → Page
  or_app none = page (read_dashboard_file (lit "index.html"))
  or_app (some found) = page (some found)

  -- serveDashboard, for the path after /dashboard.
  unfoldable pub serve_dashboard : Bytes → Page
  serve_dashboard filepath = or_app (read_dashboard_file (requested filepath))
