-- ===== src/Dispatcher/Routes/InPlace.antt =====
-- removeRoutes of internal/dispatcher/dispatcher.go as it runs: it filters the array of the route table
-- in place, cell by cell, while match has given pointers to its cells.
use apicorex.Base.{
  ℕ, zero, suc, ◌+◌, ◌≡◌, refl, ap, ◌∙◌, true, false, Option, none, some, List, [], ◌∷◌, ◌++◌,
  arith, Bool-cases, inl, inr, length, length-append, sym, if◌then◌else◌,
}
use mathlib.Core.Path.{ap₂}
use mathlib.Core.List.{append_assoc}
use apicorex.Text.{Bytes, ◌==◌}
use apicorex.Dispatcher.Routes.{RouteEntry, remove_routes}

-- What a pointer to a cell reads.
unfoldable pub read_cell : ℕ → List RouteEntry → Option RouteEntry
read_cell i [] = none
read_cell zero (r ∷ rs) = some r
read_cell (suc i) (r ∷ rs) = read_cell i rs

-- The append to a slice of an array that has the room.
unfoldable pub write_cell : ℕ → RouteEntry → List RouteEntry → List RouteEntry
write_cell n r [] = []
write_cell zero r (s ∷ rs) = r ∷ rs
write_cell (suc n) r (s ∷ rs) = s ∷ write_cell n r rs

-- The loop, with how many cells are left, the cell that it reads and the one that it writes next; the
-- array after it, and the length of the table in it.
unfoldable pub filter_cells : Bytes → ℕ → ℕ → ℕ → List RouteEntry → List RouteEntry × ℕ
filter_cells id zero i n cells = (cells, n)
filter_cells id (suc k) i n cells =
    let dropped = filter_cells id k (suc i) n cells in
    elim (read_cell i cells) [
      | none ↦ (cells, n)
      | some r ↦
          let kept = filter_cells id k (suc i) (suc n) (write_cell n r cells) in
          if r.plugin_id == id then dropped else kept
    ]

-- removeRoutes
unfoldable pub remove_in_place : Bytes → List RouteEntry → List RouteEntry × ℕ
remove_in_place id cells = filter_cells id (length cells) 0 0 cells

-- The cells from an index on.
unfoldable pub cells_from : ℕ → List RouteEntry → List RouteEntry
cells_from zero cells = cells
cells_from (suc n) [] = []
cells_from (suc n) (r ∷ cells) = cells_from n cells

read_cell-append :
    (kept rest : List RouteEntry) (r : RouteEntry)
    → read_cell (length kept) (kept ++ (r ∷ rest)) ≡ some r
unfolding read_cell
read_cell-append [] rest r = refl
read_cell-append (k ∷ kept) rest r = read_cell-append kept rest r

write_cell-append :
    (kept rest : List RouteEntry) (r s : RouteEntry)
    → write_cell (length kept) r (kept ++ (s ∷ rest)) ≡ kept ++ (r ∷ rest)
unfolding write_cell
write_cell-append [] rest r s = refl
write_cell-append (k ∷ kept) rest r s =
    ap (λ (rs : List RouteEntry). k ∷ rs) (write_cell-append kept rest r s)

snoc-append : (xs ys : List RouteEntry) (r : RouteEntry) → (xs ++ (r ∷ [])) ++ ys ≡ xs ++ (r ∷ ys)
snoc-append [] ys r = refl
snoc-append (x ∷ xs) ys r = ap (λ (rs : List RouteEntry). x ∷ rs) (snoc-append xs ys r)

-- The array that is left: what is kept so far, what is still to be kept, and the old cells behind it.
abbrev left : Bytes → List RouteEntry → List RouteEntry → List RouteEntry → List RouteEntry × ℕ
left id kept gap rest = (
  kept ++ (remove_routes id rest ++ cells_from (length (remove_routes id rest)) (gap ++ rest)),
  length kept + length (remove_routes id rest),
)

module _ (id : Bytes) (r : RouteEntry) (rest : List RouteEntry) where
  left-dropped :
      (kept gap : List RouteEntry)
      → (r.plugin_id == id) ≡ true
      → left id kept (gap ++ (r ∷ [])) rest ≡ left id kept gap (r ∷ rest)
  unfolding remove_routes
  left-dropped kept gap gone = simp (gone, snoc-append) refl

  left-kept :
      (kept : List RouteEntry)
      → (r.plugin_id == id) ≡ false
      → left id (kept ++ (r ∷ [])) [] rest ≡ left id kept [] (r ∷ rest)
  unfolding remove_routes cells_from
  left-kept kept stays =
      simp (stays, snoc-append)
        (ap₂ (λ (rs : List RouteEntry) (n : ℕ). (rs, n)) refl
          (omega (arith, length-append kept (r ∷ []))))

  left-moved :
      (kept gap : List RouteEntry) (g : RouteEntry)
      → (r.plugin_id == id) ≡ false
      → left id (kept ++ (r ∷ [])) (gap ++ (r ∷ [])) rest ≡ left id kept (g ∷ gap) (r ∷ rest)
  unfolding remove_routes cells_from
  left-moved kept gap g stays =
      simp (stays, snoc-append)
        (ap₂ (λ (rs : List RouteEntry) (n : ℕ). (rs, n)) refl
          (omega (arith, length-append kept (r ∷ []))))

-- The gap after the cell behind it is written to its front.
abbrev moved : List RouteEntry → RouteEntry → List RouteEntry
moved [] r = []
moved (g ∷ gap) r = gap ++ (r ∷ [])

module _ (id : Bytes) (r : RouteEntry) (rest kept : List RouteEntry) where
  left-moved_gap :
      (gap : List RouteEntry)
      → (r.plugin_id == id) ≡ false
      → left id (kept ++ (r ∷ [])) (moved gap r) rest ≡ left id kept gap (r ∷ rest)
  left-moved_gap [] stays = left-kept id r rest kept stays
  left-moved_gap (g ∷ gap) stays = left-moved id r rest kept gap g stays

  write_cell-moved :
      (gap : List RouteEntry)
      → write_cell (length kept) r (kept ++ (gap ++ (r ∷ rest)))
        ≡ (kept ++ (r ∷ [])) ++ (moved gap r ++ rest)
  write_cell-moved [] = write_cell-append kept rest r r ∙ sym (snoc-append kept rest r)
  write_cell-moved (g ∷ gap) =
      write_cell-append kept (gap ++ (r ∷ rest)) r g
      ∙ ap (λ (rs : List RouteEntry). kept ++ (r ∷ rs)) (sym (snoc-append gap rest r))
      ∙ sym (snoc-append kept ((gap ++ (r ∷ [])) ++ rest) r)

  length-moved :
      (gap : List RouteEntry)
      → suc (length (kept ++ gap)) ≡ length ((kept ++ (r ∷ [])) ++ moved gap r)
  length-moved [] =
      let empty : List RouteEntry = [] in
      omega (
        arith,
        length-append kept empty,
        length-append kept (r ∷ []),
        length-append (kept ++ (r ∷ [])) empty,
      )
  length-moved (g ∷ gap) = omega (
    arith,
    length-append kept (g ∷ gap),
    length-append kept (r ∷ []),
    length-append gap (r ∷ []),
    length-append (kept ++ (r ∷ [])) (gap ++ (r ∷ [])),
  )

module _ (id : Bytes) (k i n : ℕ) (r : RouteEntry) (cells : List RouteEntry) where
  filter_cells-dropped :
      read_cell i cells ≡ some r
      → (r.plugin_id == id) ≡ true
      → filter_cells id (suc k) i n cells ≡ filter_cells id k (suc i) n cells
  unfolding filter_cells
  filter_cells-dropped read gone = rw (read, filter_cells) (rw gone refl)

  filter_cells-kept :
      read_cell i cells ≡ some r
      → (r.plugin_id == id) ≡ false
      → filter_cells id (suc k) i n cells ≡ filter_cells id k (suc i) (suc n) (write_cell n r cells)
  unfolding filter_cells
  filter_cells-kept read stays = rw (read, filter_cells) (rw stays refl)

-- The loop from a cell on, with what it has kept in front of the gap that it leaves.
filter_cells-left :
    (id : Bytes) (rest kept gap : List RouteEntry) (i n : ℕ) (cells : List RouteEntry)
    → i ≡ length (kept ++ gap)
    → n ≡ length kept
    → cells ≡ kept ++ (gap ++ rest)
    → filter_cells id (length rest) i n cells ≡ left id kept gap rest
unfolding filter_cells remove_routes cells_from
filter_cells-left id [] kept gap i n cells ei en ec =
    ap₂ (λ (rs : List RouteEntry) (n : ℕ). (rs, n)) ec (omega (arith, en))
filter_cells-left id (r ∷ rest) kept gap i n cells ei en ec =
    let k = length rest in
    let read : read_cell i cells ≡ some r =
      ap (λ (j : ℕ). read_cell j cells) ei
      ∙ ap (read_cell (length (kept ++ gap))) (ec ∙ sym (append_assoc kept gap (r ∷ rest)))
      ∙ read_cell-append (kept ++ gap) rest r in
    elim (Bool-cases (r.plugin_id == id)) [
      | inl gone ↦
          filter_cells-dropped id k i n r cells read gone
          ∙ filter_cells-left id rest kept (gap ++ (r ∷ [])) (suc i) n cells
              (omega (
                arith,
                ei,
                length-append kept gap,
                length-append gap (r ∷ []),
                length-append kept (gap ++ (r ∷ [])),
              ))
              en (ec ∙ ap (λ (rs : List RouteEntry). kept ++ rs) (sym (snoc-append gap rest r)))
          ∙ left-dropped id r rest kept gap gone
      | inr stays ↦
          filter_cells-kept id k i n r cells read stays
          ∙ filter_cells-left id rest (kept ++ (r ∷ [])) (moved gap r) (suc i) (suc n)
              (write_cell n r cells) (ap suc ei ∙ length-moved id r rest kept gap)
              (omega (arith, en, length-append kept (r ∷ [])))
              (ap (λ (m : ℕ). write_cell m r cells) en
                ∙ ap (write_cell (length kept) r) ec
                ∙ write_cell-moved id r rest kept gap)
          ∙ left-moved_gap id r rest kept gap stays
    ]

-- The table after removeRoutes is the routes of the other plugins in their order, in the cells from the
-- first on, and the cells behind it keep what they held.
pub remove_in_place_lem :
    (id : Bytes) (cells : List RouteEntry)
    → remove_in_place id cells ≡ (
      remove_routes id cells ++ cells_from (length (remove_routes id cells)) cells,
      length (remove_routes id cells),
    )
unfolding remove_in_place
remove_in_place_lem id cells =
    filter_cells-left id cells [] [] 0 0 cells refl refl refl
    ∙ ap
        (λ (n : ℕ).
          (remove_routes id cells ++ cells_from (length (remove_routes id cells)) cells, n))
        (omega arith)
