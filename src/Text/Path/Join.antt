-- ===== src/Text/Path/Join.antt =====
-- What a joined path ends with.
use apicorex.Base.{
  ◌≡◌, refl, sym, ap, ◌∙◌, Bool, true, false, List, [], ◌∷◌, ◌++◌, reverse, subst, if◌then◌else◌,
}
use mathlib.Core.List.{append_assoc, reverse-append}
use apicorex.Text.{Bytes, lit, ◌==◌, is_empty, has_prefix, split, join}
use apicorex.Text.Split.{split-append}
use apicorex.Text.Path.{ext, clean_step, clean_all, assemble, clean, join_two}

abbrev index : Bytes
index = lit "index.html"

-- It ends with that text.
abbrev EndsWith : Bytes → Bytes → Type 0
EndsWith t s = (p : Bytes) × (s ≡ p ++ t)

join-snoc : (sep x : Bytes) (xs : List Bytes) → EndsWith x (join sep (xs ++ x ∷ []))
unfolding join
join-snoc sep x [] = ([], refl)
join-snoc sep x (y ∷ []) = (y ++ sep, sym (append_assoc y sep x))
join-snoc sep x (y ∷ (z ∷ zs)) =
    let (p, e) = join-snoc sep x (z ∷ zs) in
    (
      y ++ (sep ++ p),
      ap (λ t. y ++ (sep ++ t)) e
          ∙ ap (λ t. y ++ t) (sym (append_assoc sep p x))
          ∙ sym (append_assoc y (sep ++ p) x),
    )

clean_all-snoc :
    (rooted : Bool) (es kept : List Bytes)
    → clean_all rooted kept (es ++ index ∷ []) ≡ index ∷ clean_all rooted kept es
unfolding clean_all clean_step ◌==◌
clean_all-snoc rooted [] kept = refl
clean_all-snoc rooted (e ∷ es) kept = clean_all-snoc rooted es _

not_dot : (p : Bytes) → EndsWith index (if is_empty (p ++ index) then lit "." else p ++ index)
not_dot [] = ([], refl)
not_dot (a ∷ p) = (a ∷ p, refl)

assemble-EndsWith :
    (rooted : Bool) (xs : List Bytes) → EndsWith index (assemble rooted (xs ++ index ∷ []))
unfolding assemble
assemble-EndsWith true xs =
    let (p, e) = join-snoc (lit "/") index xs in (lit "/" ++ p, ap (λ t. lit "/" ++ t) e)
assemble-EndsWith false xs =
    let (p, e) = join-snoc (lit "/") index xs in
    subst (λ t. EndsWith index (if is_empty t then lit "." else t)) (sym e) (not_dot p)

clean-index : (s : Bytes) → EndsWith index (clean (s ++ (lit "/" ++ index)))
unfolding clean split
clean-index s =
    let rooted = has_prefix (s ++ (lit "/" ++ index)) (lit "/") in
    let kept = clean_all rooted [] (split b'/' s) in
    subst (λ xs. EndsWith index (assemble rooted xs))
      (sym (
        ap (λ es. reverse (clean_all rooted [] es)) (split-append b'/' s index)
        ∙ ap reverse (clean_all-snoc rooted (split b'/' s) [])
        ∙ reverse-append (index ∷ []) kept))
      (assemble-EndsWith rooted (reverse kept))

join_two-index : (a : Bytes) → EndsWith index (join_two a index)
unfolding join_two join
join_two-index [] = ([], refl)
join_two-index (x ∷ a) = clean-index (x ∷ a)

ext-index : (p : Bytes) → ext (p ++ index) ≡ lit ".html"
unfolding ext has_prefix
ext-index [] = refl
ext-index (a ∷ p) = rw (ext-index p) refl

-- A file that is called index.html has that extension, in whatever directory.
pub ext-join_two : (a : Bytes) → ext (join_two a (lit "index.html")) ≡ lit ".html"
ext-join_two a = let (p, e) = join_two-index a in ap ext e ∙ ext-index p
