-- ===== src/Program/Dashboard/Pages.antt =====
-- Which file a request of the dashboard gets.
use apicorex.Base.{
  ◌≡◌, refl, Option, none, some, List, [], ◌∷◌, ◌++◌, Bool-cases, Option-cases, inl, inr,
  if◌then◌else◌,
}
use apicorex.Text.{Bytes, lit, ◌==◌, is_empty, to_lower, lower, contains, has_prefix}
use apicorex.Text.Path.{ext, join_two}
use apicorex.Text.Path.Join.{ext-join_two}
use apicorex.Program.Dashboard.{
  content_type_for_dashboard, or_index, read_dashboard_file, page, or_app, requested,
  serve_dashboard,
}

-- The files that a name can stand for: itself; the index of the directory, for a name without an
-- extension; the app.
abbrev pub candidates : Bytes → List Bytes
candidates rel =
    rel
    ∷ ((if is_empty (ext rel) then join_two rel (lit "index.html") ∷ [] else [])
        ++ lit "index.html" ∷ [])

-- The first of some files that is embedded, with its content type.
abbrev pub first_file : (Bytes → Option Bytes) → List Bytes → Option (Bytes × Bytes)
first_file read [] = none
first_file read (name ∷ names) = elim (read name) [
  | none ↦ first_file read names
  | some b ↦ some (b, content_type_for_dashboard name)
]

index_type :
    (rel : Bytes)
    → content_type_for_dashboard (join_two rel (lit "index.html")) ≡ lit "text/html; charset=utf-8"
unfolding content_type_for_dashboard ◌==◌ to_lower lower
index_type rel = rw (ext-join_two rel) refl

module _ (read : Bytes → Option Bytes) where
  app :
      page (read_dashboard_file read (lit "index.html"))
      ≡ page (first_file read (lit "index.html" ∷ []))
  unfolding read_dashboard_file ext contains has_prefix
  app = elim (Option-cases (read (lit "index.html"))) [
    | inl absent ↦ rw (absent, read_dashboard_file) (rw (absent, first_file) refl)
    | inr (b, there) ↦ rw (there, read_dashboard_file) (rw (there, first_file) refl)
  ]

  -- What is tried after the name itself.
  beyond :
      (rel : Bytes)
      → or_app read (or_index read rel none)
        ≡ page (
            first_file read (
              (if is_empty (ext rel) then join_two rel (lit "index.html") ∷ [] else [])
              ++ lit "index.html" ∷ []))
  beyond rel = elim (Bool-cases (is_empty (ext rel))) [
    | inr named ↦ simp named app
    | inl bare ↦ elim (Option-cases (read (join_two rel (lit "index.html")))) [
      | inl absent ↦ simp (bare, absent) app
      | inr (b, there) ↦ simp (bare, there, index_type) refl
    ]
  ]

  served :
      (rel : Bytes)
      → or_app read (read_dashboard_file read rel) ≡ page (first_file read (candidates rel))
  unfolding read_dashboard_file
  served rel = elim (Option-cases (read rel)) [
    | inl absent ↦ simp absent (beyond rel)
    | inr (b, there) ↦ simp there refl
  ]

-- The dashboard answers a path with the first of these files that is embedded, and with the content
-- type of that file's own name: the file that the path names, index.html for the root; the
-- index.html of that directory, if the name has no extension; the index.html of the app. If there is
-- none of them it answers 500.
pub serve_dashboard-first_file :
    (read : Bytes → Option Bytes) (filepath : Bytes)
    → serve_dashboard read filepath ≡ page (first_file read (candidates (requested filepath)))
unfolding serve_dashboard
serve_dashboard-first_file read filepath = served read (requested filepath)
