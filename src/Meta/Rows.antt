-- ===== src/Meta/Rows.antt =====
-- Laws of the two tables of the metadata store.
use specula.Prelude.{
  ◌+◌, String, ◌≡◌, ◌↔◌, inl, inr, true, false, Option, none, some, List, [], ◌∷◌, ◌==◌, eq_iff, In,
  arith, refl, sym, subst, ap, ◌∙◌, Bool-cases, if◌then◌else◌,
}
use specula.Artifact.{ArtifactRef, MutableEntry, normalize_origin}
use specula.Meta.{
  Row, same_ref, find_row, updated, upsert, delete, get_mutable, delete_mutable, stored,
  put_mutable, size_of_origin,
}

get-delete_mutable :
    (k j : String) (es : List MutableEntry)
    → get_mutable j (delete_mutable k es) ≡ (if k == j then none else get_mutable j es)
unfolding get_mutable delete_mutable
get-delete_mutable k j [] = ground arith
get-delete_mutable k j (e ∷ es) =
    ground (arith, get-delete_mutable k j es, eq_iff k j, eq_iff e.key k, eq_iff e.key j)

-- A mutable entry that was put is read back, with its fetch time in whole seconds, and every other
-- key answers as before.
pub get-put_mutable :
    (e : MutableEntry) (j : String) (es : List MutableEntry)
    → get_mutable j (put_mutable e es) ≡ (if e.key == j then some (stored e) else get_mutable j es)
unfolding get_mutable put_mutable
get-put_mutable e j es = ground (arith, get-delete_mutable e.key j es)

pub same_ref_iff :
    (a b : ArtifactRef)
    → (same_ref a b ≡ true)
      ↔ ((a.protocol ≡ b.protocol) × (a.name ≡ b.name) × (a.version ≡ b.version))
unfolding same_ref
same_ref_iff a b =
    ground (arith, eq_iff a.protocol b.protocol, eq_iff a.name b.name, eq_iff a.version b.version)

pub same_ref_refl : (a : ArtifactRef) → same_ref a a ≡ true
same_ref_refl a = (same_ref_iff a a).1 (refl, refl, refl)

pub same_ref_comm : (a b : ArtifactRef) → same_ref a b ≡ same_ref b a
same_ref_comm a b = ground (arith, same_ref_iff a b, same_ref_iff b a)

pub same_ref_trans : (a b c : ArtifactRef) → same_ref a b ≡ true → same_ref b c ≡ same_ref a c
same_ref_trans a b c h = ground (arith, same_ref_iff a b, same_ref_iff b c, same_ref_iff a c)

pub find-delete :
    (k j : ArtifactRef) (rows : List Row)
    → find_row j (delete k rows) ≡ (if same_ref k j then none else find_row j rows)
unfolding find_row delete
find-delete k j [] = ground arith
find-delete k j (r ∷ rs) =
    ground (arith, find-delete k j rs, same_ref_iff k j, same_ref_iff r.ref k, same_ref_iff r.ref j)

-- The row that an upsert leaves under its key.
abbrev pub merged : Row → Option Row → Row
merged new none = new
merged new (some old) = updated old new

-- After an upsert the row is found under its own key, merged into the row that was there, and every other
-- key answers as before.
pub find-upsert :
    (new : Row) (j : ArtifactRef) (rows : List Row)
    → find_row j (upsert new rows)
      ≡ (if same_ref new.ref j then some (merged new (find_row new.ref rows)) else find_row j rows)
unfolding find_row upsert
find-upsert new j [] = ground arith
find-upsert new j (r ∷ rs) = ground (
  arith,
  find-upsert new j rs,
  same_ref_iff new.ref j,
  same_ref_iff r.ref new.ref,
  same_ref_iff r.ref j,
)

-- The primary key: no two rows have the same reference.
abbrev pub IsUnique : List Row → Type 0
IsUnique [] = Unit {0}
IsUnique (r ∷ rs) = (find_row r.ref rs ≡ none) × IsUnique rs

pub delete-IsUnique : (k : ArtifactRef) (rows : List Row) → IsUnique rows → IsUnique (delete k rows)
unfolding delete
delete-IsUnique k [] u = tt
delete-IsUnique k (r ∷ rs) u = ground (arith, delete-IsUnique k rs, find-delete k r.ref rs)

find-same :
    (a b : ArtifactRef) (rows : List Row)
    → same_ref a b ≡ true
    → find_row a rows ≡ none
    → find_row b rows ≡ none
unfolding find_row
find-same a b [] e h = refl
find-same a b (r ∷ rs) e h =
    ground (arith, find-same a b rs, same_ref_iff a b, same_ref_iff r.ref a, same_ref_iff r.ref b)

pub upsert-IsUnique : (new : Row) (rows : List Row) → IsUnique rows → IsUnique (upsert new rows)
unfolding upsert find_row
upsert-IsUnique new [] u = (refl, tt)
upsert-IsUnique new (r ∷ rs) u = elim (Bool-cases (same_ref r.ref new.ref)) [
  | inl e ↦ rw e (find-same r.ref new.ref rs e u.0, u.1)
  | inr e ↦ rw e (
    ground (arith, find-upsert new r.ref rs, same_ref_comm r.ref new.ref),
    upsert-IsUnique new rs u.1,
  )
]

pub In-find : (r : Row) (rows : List Row) → IsUnique rows → In r rows → find_row r.ref rows ≡ some r
unfolding find_row
In-find r [] u m = absurd m
In-find r (x ∷ xs) u (inl e) = rw e (rw (same_ref_refl x.ref))
In-find r (x ∷ xs) u (inr m) = ground (arith, In-find r xs u.1 m, find-same x.ref r.ref xs)

pub find-In :
    (k : ArtifactRef) (r : Row) (rows : List Row)
    → find_row k rows ≡ some r
    → In r rows × (same_ref r.ref k ≡ true)
unfolding find_row
find-In k r [] h = cc
find-In k r (x ∷ xs) h = ground (arith, find-In k r xs)

delete_absent : (k : ArtifactRef) (rows : List Row) → find_row k rows ≡ none → delete k rows ≡ rows
unfolding find_row delete
delete_absent k [] h = refl
delete_absent k (r ∷ rs) h = ground (arith, delete_absent k rs)

delete_head :
    (r : Row) (rows : List Row) → find_row r.ref rows ≡ none → delete r.ref (r ∷ rows) ≡ rows
unfolding delete
delete_head r rows h = rw (same_ref_refl r.ref) (delete_absent r.ref rows h)

delete_other :
    (k : ArtifactRef) (r : Row) (rows : List Row)
    → same_ref r.ref k ≡ false
    → delete k (r ∷ rows) ≡ r ∷ delete k rows
unfolding delete
delete_other k r rows e = ground arith

-- Deleting the row of a key takes exactly its size from the total of its origin.
pub size-delete :
    (o : String) (r : Row) (rows : List Row)
    → IsUnique rows
    → In r rows
    → size_of_origin o rows
      ≡ size_of_origin o (delete r.ref rows)
        + (if normalize_origin r.origin == o then r.size else 0)
unfolding size_of_origin
size-delete o r [] u m = absurd m
size-delete o r (x ∷ xs) u (inl e) =
    subst
      (λ (y : Row).
        size_of_origin o (x ∷ xs)
        ≡ size_of_origin o (delete y.ref (x ∷ xs))
          + (if normalize_origin y.origin == o then y.size else 0))
      (sym e) (omega (arith, ap (size_of_origin o) (delete_head x xs u.0)))
size-delete o r (x ∷ xs) u (inr m) =
    let there : find_row r.ref xs ≡ some r = In-find r xs u.1 m in
    elim (Bool-cases (same_ref x.ref r.ref)) [
      | inl e ↦ cc (find-same x.ref r.ref xs e u.0)
      | inr e ↦
          omega (arith, size-delete o r xs u.1 m, ap (size_of_origin o) (delete_other r.ref x xs e))
    ]

pub find_row-same :
    (a b : ArtifactRef) (rows : List Row) → same_ref a b ≡ true → find_row a rows ≡ find_row b rows
unfolding find_row
find_row-same a b [] e = refl
find_row-same a b (r ∷ rs) e =
    ground
      (arith, find_row-same a b rs, same_ref_iff a b, same_ref_iff r.ref a, same_ref_iff r.ref b)

-- Two rows of the table with the same key are one.
pub same_ref-In :
    (a b : Row) (rows : List Row)
    → IsUnique rows
    → In a rows
    → In b rows
    → same_ref a.ref b.ref ≡ true
    → a ≡ b
same_ref-In a b rows u m n e =
    cc (sym (In-find a rows u m) ∙ find_row-same a.ref b.ref rows e ∙ In-find b rows u n)
