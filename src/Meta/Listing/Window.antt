-- ===== src/Meta/Listing/Window.antt =====
-- What a page of `ListEntries` holds: rows of the table that match, in some order, none twice.
use specula.Prelude.{
  ℕ, zero, suc, String, ◌≡◌, inr, ◌↔◌, Bool, true, false, none, List, [], ◌∷◌, In, In-keep, keep,
  take, arith, refl,
}
use specula.Artifact.{ArtifactRef}
use specula.Meta.{Row, find_row, same_ref}
use specula.Meta.Rows.{IsUnique, same_ref_comm}
use specula.Meta.Listing.{
  EntryFilter, Page, matches, insert, sorted, drop, list_entries, clamp_limit, clamp_offset,
}

In-insert : (p : Page) (r x : Row) (xs : List Row) → In r (insert p x xs) ↔ In r (x ∷ xs)
unfolding insert
In-insert p r x [] = ground arith
In-insert p r x (y ∷ ys) = ground (arith, In-insert p r x ys)

pub In-sorted : (p : Page) (r : Row) (xs : List Row) → In r (sorted p xs) ↔ In r xs
unfolding sorted
In-sorted p r [] = ground arith
In-sorted p r (x ∷ xs) = ground (arith, In-sorted p r xs, In-insert p r x (sorted p xs))

In-take : (n : ℕ) (r : Row) (xs : List Row) → In r (take n xs) → In r xs
In-take zero r xs m = absurd m
In-take (suc n) r [] m = m
In-take (suc n) r (x ∷ xs) m = ground (arith, In-take n r xs)

In-drop : (n : ℕ) (r : Row) (xs : List Row) → In r (drop n xs) → In r xs
In-drop zero r xs m = m
In-drop (suc n) r [] m = m
In-drop (suc n) r (x ∷ xs) m = inr (In-drop n r xs m)

-- A row on a page is a row of the table that matches the filter.
pub In-list_entries :
    (protocol : String) (f : EntryFilter) (p : Page) (r : Row) (rows : List Row)
    → In r (list_entries protocol f p rows).entries
    → In r rows × (matches protocol f r ≡ true)
unfolding list_entries
In-list_entries protocol f p r rows m = In-keep (matches protocol f) r rows (
    (In-sorted p r (keep (matches protocol f) rows)).0 (
      In-drop (clamp_offset p.offset) r (sorted p (keep (matches protocol f) rows)) (
        In-take (clamp_limit p.limit) r
          (drop (clamp_offset p.offset) (sorted p (keep (matches protocol f) rows))) m)))

find-insert :
    (p : Page) (k : ArtifactRef) (x : Row) (xs : List Row)
    → find_row k (insert p x xs) ≡ none ↔ ((same_ref x.ref k ≡ false) × (find_row k xs ≡ none))
unfolding insert find_row
find-insert p k x [] = ground arith
find-insert p k x (y ∷ ys) = ground (arith, find-insert p k x ys)

insert-IsUnique :
    (p : Page) (x : Row) (xs : List Row)
    → find_row x.ref xs ≡ none
    → IsUnique xs
    → IsUnique (insert p x xs)
unfolding insert find_row
insert-IsUnique p x [] h u = (refl, tt)
insert-IsUnique p x (y ∷ ys) h u =
    ground (arith, insert-IsUnique p x ys, find-insert p y.ref x ys, same_ref_comm x.ref y.ref)

find-sorted :
    (p : Page) (k : ArtifactRef) (xs : List Row)
    → find_row k xs ≡ none
    → find_row k (sorted p xs) ≡ none
unfolding sorted find_row
find-sorted p k [] h = refl
find-sorted p k (x ∷ xs) h = ground (arith, find-sorted p k xs, find-insert p k x (sorted p xs))

pub sorted-IsUnique : (p : Page) (xs : List Row) → IsUnique xs → IsUnique (sorted p xs)
unfolding sorted
sorted-IsUnique p [] u = tt
sorted-IsUnique p (x ∷ xs) u =
    insert-IsUnique p x (sorted p xs) (find-sorted p x.ref xs u.0) (sorted-IsUnique p xs u.1)

find-keep :
    (t : Row → Bool) (k : ArtifactRef) (xs : List Row)
    → find_row k xs ≡ none
    → find_row k (keep t xs) ≡ none
unfolding find_row
find-keep t k [] h = refl
find-keep t k (x ∷ xs) h = ground (arith, find-keep t k xs)

pub keep-IsUnique : (t : Row → Bool) (xs : List Row) → IsUnique xs → IsUnique (keep t xs)
keep-IsUnique t [] u = tt
keep-IsUnique t (x ∷ xs) u = ground (arith, find-keep t x.ref xs u.0, keep-IsUnique t xs u.1)

find-take :
    (n : ℕ) (k : ArtifactRef) (xs : List Row) → find_row k xs ≡ none → find_row k (take n xs) ≡ none
unfolding find_row
find-take zero k xs h = refl
find-take (suc n) k [] h = refl
find-take (suc n) k (x ∷ xs) h = ground (arith, find-take n k xs)

take-IsUnique : (n : ℕ) (xs : List Row) → IsUnique xs → IsUnique (take n xs)
take-IsUnique zero xs u = tt
take-IsUnique (suc n) [] u = tt
take-IsUnique (suc n) (x ∷ xs) u = (find-take n x.ref xs u.0, take-IsUnique n xs u.1)

drop-IsUnique : (n : ℕ) (xs : List Row) → IsUnique xs → IsUnique (drop n xs)
drop-IsUnique zero xs u = u
drop-IsUnique (suc n) [] u = tt
drop-IsUnique (suc n) (x ∷ xs) u = drop-IsUnique n xs u.1

-- No row stands on a page twice.
pub list_entries-IsUnique :
    (protocol : String) (f : EntryFilter) (p : Page) (rows : List Row)
    → IsUnique rows
    → IsUnique (list_entries protocol f p rows).entries
unfolding list_entries
list_entries-IsUnique protocol f p rows u =
    take-IsUnique (clamp_limit p.limit)
      (drop (clamp_offset p.offset) (sorted p (keep (matches protocol f) rows)))
      (drop-IsUnique (clamp_offset p.offset) (sorted p (keep (matches protocol f) rows)) (
        sorted-IsUnique p (keep (matches protocol f) rows)
          (keep-IsUnique (matches protocol f) rows u)))
