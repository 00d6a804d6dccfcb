-- ===== src/Examples/Dashboard.antt =====
-- The theorem on the dashboard, with a page in a directory of its own.
use apicorex.Base.{◌≡◌, refl, [], Option, none, some, if◌then◌else◌}
use apicorex.Text.{Bytes, lit, ◌==◌, trim_prefix, contains, has_prefix, join}
use apicorex.Text.Path.{ext, clean, join_two}
use apicorex.Program.Dashboard.{page, requested, serve_dashboard, read_dashboard_file}
use apicorex.Program.Dashboard.Pages.{candidates, first_file, serve_dashboard-first_file}

-- The embedded files: the app, and the page of the plugins.
abbrev read : Bytes → Option Bytes
read name =
    if name == lit "index.html"
    then some (lit "<app>")
    else (if name == lit "plugins/index.html" then some (lit "<plugins>") else none)

serve_dashboard-first_file_example :
    serve_dashboard read (lit "/plugins")
    ≡ page (first_file read (candidates (requested (lit "/plugins"))))
serve_dashboard-first_file_example = serve_dashboard-first_file read (lit "/plugins")

plugins_test : (serve_dashboard read (lit "/plugins")).body ≡ lit "<plugins>"
unfolding serve_dashboard read_dashboard_file trim_prefix ext contains has_prefix join_two join ◌==◌
plugins_test = refl

route_test : (serve_dashboard read (lit "/slots")).body ≡ lit "<app>"
unfolding serve_dashboard read_dashboard_file trim_prefix ext contains has_prefix join_two join ◌==◌
route_test = refl

ext_test : (ext (lit "a.b/c.min.js") ≡ lit ".js") × (ext (lit "a.b/c") ≡ [])
unfolding ext contains has_prefix
ext_test = (refl, refl)

clean_test :
    (clean (lit "a/./b//../c/") ≡ lit "a/c")
    × (clean (lit "/../a") ≡ lit "/a")
    × (clean (lit "../../a") ≡ lit "../../a")
    × (clean (lit "a/..") ≡ lit ".")
unfolding clean join ◌==◌
clean_test = (refl, refl, refl, refl)
