-- ===== src/Meta/Listing.antt =====
-- internal/store/meta/meta.go, `Page.Normalize`, and internal/store/sqlite/list.go, `ListEntries`:
-- filter, order, window. The substring search on names is left out: no modelled caller sets it.
pub mod Window
use Prim.Native.String.{compare}
use Prim.Native.Nat.{Ordering}
use Prim.Native.Nat as Nat
use specula.Prelude.{
  ℕ, zero, suc, ◌+◌, String, Bool, true, false, not, ◌&&◌, ◌||◌, Option, none, some, List, [], ◌∷◌,
  ◌==◌, keep, take, length, leb, ltb, eqb, if◌then◌else◌,
}
use specula.Prelude.Int.{ℤ, pos, negsuc, pos_part, neg_part, ltb_ℤ, leb_ℤ}
use specula.Artifact.{Tier, rank, normalize_origin}
use specula.Meta.{Row}

pub record EntryFilter : Type 0 where
  pub tier : Option Tier
  pub upstream : String
  pub pinned : Option Bool
  pub origin : String
  pub digest : String

abbrev pub any_entry : EntryFilter
any_entry = record { tier = none; upstream = ""; pinned = none; origin = ""; digest = "" }

pub data SortField : Type 0 where
  created_at size name verified_at : SortField

-- `limit` and `offset` are Go ints.
pub record Page : Type 0 where
  pub limit : ℤ
  pub offset : ℤ
  pub sort : SortField
  pub desc : Bool

abbrev pub default_limit : ℕ
default_limit = 50

abbrev pub max_limit : ℕ
max_limit = 500

-- The clamped window.
unfoldable pub clamp_limit : ℤ → ℕ
clamp_limit l =
    if leb_ℤ l (pos 0)
    then default_limit
    else if ltb_ℤ (pos max_limit) l
    then max_limit
    else pos_part l

unfoldable pub clamp_offset : ℤ → ℕ
clamp_offset o = pos_part o

abbrev same_bool : Bool → Bool → Bool
same_bool true b = b
same_bool false b = not b

-- An empty text, or no value, is no constraint.
abbrev text_is : String → String → Bool
text_is want got = want == "" || want == got

abbrev tier_is : Option Tier → Tier → Bool
tier_is none t = true
tier_is (some w) t = eqb (rank w) (rank t)

abbrev pinned_is : Option Bool → Bool → Bool
pinned_is none b = true
pinned_is (some w) b = same_bool w b

abbrev origin_is : String → String → Bool
origin_is want got = want == "" || got == normalize_origin want

-- The WHERE clause.
unfoldable pub matches : String → EntryFilter → Row → Bool
matches protocol f r =
    text_is protocol r.ref.protocol
    && tier_is f.tier r.tier
    && text_is f.upstream r.upstream
    && pinned_is f.pinned r.pinned
    && origin_is f.origin r.origin
    && text_is f.digest r.digest

abbrev compare_ℤ : ℤ → ℤ → Ordering
compare_ℤ a b = Nat.compare (pos_part a + neg_part b) (pos_part b + neg_part a)

abbrev flip : Bool → Ordering → Ordering
flip false o = o
flip true Ordering.lt = Ordering.gt
flip true Ordering.eq = Ordering.eq
flip true Ordering.gt = Ordering.lt

abbrev column : SortField → Row → Row → Ordering
column created_at a b = compare_ℤ a.created_at b.created_at
column size a b = Nat.compare a.size b.size
column name a b = compare a.ref.name b.ref.name
column verified_at a b = compare_ℤ a.verified_at b.verified_at

-- Ties are broken by the primary key.
abbrev then_by : Ordering → Ordering → Ordering
then_by Ordering.eq next = next
then_by Ordering.lt next = Ordering.lt
then_by Ordering.gt next = Ordering.gt

abbrev not_after : Ordering → Bool
not_after Ordering.gt = false
not_after Ordering.lt = true
not_after Ordering.eq = true

unfoldable pub comes_first : Page → Row → Row → Bool
comes_first p a b = not_after (
    then_by (flip p.desc (column p.sort a b)) (
      then_by (compare a.ref.protocol b.ref.protocol)
        (then_by (compare a.ref.name b.ref.name) (compare a.ref.version b.ref.version))))

unfoldable pub insert : Page → Row → List Row → List Row
insert p r [] = r ∷ []
insert p r (x ∷ xs) = let rest = insert p r xs in if comes_first p r x then r ∷ x ∷ xs else x ∷ rest

-- The ORDER BY clause.
unfoldable pub sorted : Page → List Row → List Row
unfolding insert
sorted p [] = []
sorted p (r ∷ rs) = insert p r (sorted p rs)

abbrev pub drop : {A : Type 0} → ℕ → List A → List A
drop zero xs = xs
drop (suc n) [] = []
drop (suc n) (x ∷ xs) = drop n xs

pub record EntryPage : Type 0 where
  pub entries : List Row
  pub total : ℕ
  pub limit : ℕ
  pub offset : ℕ

unfoldable pub list_entries : String → EntryFilter → Page → List Row → EntryPage
unfolding matches sorted clamp_limit clamp_offset
list_entries protocol f p rows = record {
  entries =
      take (clamp_limit p.limit)
        (drop (clamp_offset p.offset) (sorted p (keep (matches protocol f) rows)));
  total = length (keep (matches protocol f) rows);
  limit = clamp_limit p.limit;
  offset = clamp_offset p.offset;
}
