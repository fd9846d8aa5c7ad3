-- ===== src/Meta.antt =====
-- The metadata store: internal/store/meta/meta.go as internal/store/sqlite implements it. Two tables,
-- the immutable entries with the primary key (protocol, name, version) and the mutable entries with
-- the primary key `key`. An SQL statement is its effect on the rows; a failing database is a fault
-- that the callers pass in. Times are stored as whole seconds.
pub mod Rows
pub mod Listing
use Prim.Native.String.{compare}
use Prim.Native.Nat.{Ordering}
use specula.Prelude.{
  ℕ, ◌+◌, ◌*◌, ◌/◌, ◌^◌, String, Bool, true, false, not, ◌||◌, ◌&&◌, Option, none, some, List, [],
  ◌∷◌, ◌++◌, ◌==◌, keep, length, ltb, if◌then◌else◌,
}
use specula.Prelude.Int.{ℤ, pos, negsuc, ◌*ℤ◌, ltb_ℤ}
use specula.Artifact.{Tier, ArtifactRef, CacheEntry, MutableEntry, normalize_origin, origin_hosted}

-- One row of cache_entries.
pub record Row : Type 0 where
  pub ref : ArtifactRef
  pub digest : String
  pub size : ℕ
  pub tier : Tier
  pub upstream : String
  pub etag : String
  pub verified_at : ℤ
  pub created_at : ℤ
  pub origin : String
  pub pinned : Bool

pub record Store : Type 0 where
  pub rows : List Row
  pub mutables : List MutableEntry

abbrev pub second : ℕ
second = 10 ^ 9

-- t.Unix() of a time in nanoseconds, rounded down.
unfoldable pub unix : ℤ → ℤ
unix (pos n) = pos (n / second)
unix (negsuc n) = negsuc (n / second)

-- time.Unix(s, 0)
unfoldable pub from_unix : ℤ → ℤ
unfolding ◌*ℤ◌
from_unix s = s *ℤ pos second

-- The two references have the same primary key.
unfoldable pub same_ref : ArtifactRef → ArtifactRef → Bool
same_ref a b = a.protocol == b.protocol && a.name == b.name && a.version == b.version

unfoldable pub to_entry : Row → CacheEntry
unfolding from_unix
to_entry r = record {
  ref = r.ref;
  digest = r.digest;
  size = r.size;
  protocol = r.ref.protocol;
  tier = r.tier;
  upstream = r.upstream;
  etag = r.etag;
  verified_at = from_unix r.verified_at;
  created_at = from_unix r.created_at;
  origin = normalize_origin r.origin;
  soft_expired = false;
}

unfoldable pub find_row : ArtifactRef → List Row → Option Row
find_row ref [] = none
find_row ref (r ∷ rs) = if same_ref r.ref ref then some r else find_row ref rs

unfoldable pub get : ArtifactRef → List Row → Option CacheEntry
unfolding find_row
get ref rows = elim (find_row ref rows) [ none ↦ none | some r ↦ some (to_entry r) ]

-- The row that an entry becomes on insertion. The top-level protocol is preferred.
unfoldable pub to_row : CacheEntry → Row
unfolding unix
to_row e = record {
  ref = record e.ref { protocol = if e.protocol == "" then e.ref.protocol else e.protocol };
  digest = e.digest;
  size = e.size;
  tier = e.tier;
  upstream = e.upstream;
  etag = e.etag;
  verified_at = unix e.verified_at;
  created_at = unix e.created_at;
  origin = normalize_origin e.origin;
  pinned = false;
}

-- ON CONFLICT DO UPDATE: the first creation time and the pin stay, and hosted stays hosted.
abbrev pub updated : Row → Row → Row
updated old new = record new {
  created_at = old.created_at;
  origin = if old.origin == origin_hosted then origin_hosted else new.origin;
  pinned = old.pinned;
}

unfoldable pub upsert : Row → List Row → List Row
upsert new [] = new ∷ []
upsert new (r ∷ rs) =
    let rest = upsert new rs in if same_ref r.ref new.ref then updated r new ∷ rs else r ∷ rest

unfoldable pub put : CacheEntry → List Row → List Row
unfolding to_row upsert
put e rows = upsert (to_row e) rows

unfoldable pub delete : ArtifactRef → List Row → List Row
delete ref [] = []
delete ref (r ∷ rs) = let rest = delete ref rs in if same_ref r.ref ref then rest else r ∷ rest

unfoldable pub set_pinned : ArtifactRef → Bool → List Row → List Row
set_pinned ref p [] = []
set_pinned ref p (r ∷ rs) =
    (if same_ref r.ref ref then record r { pinned = p } else r) ∷ set_pinned ref p rs

unfoldable pub get_mutable : String → List MutableEntry → Option MutableEntry
get_mutable key [] = none
get_mutable key (e ∷ es) = if e.key == key then some e else get_mutable key es

unfoldable pub delete_mutable : String → List MutableEntry → List MutableEntry
delete_mutable key [] = []
delete_mutable key (e ∷ es) =
    let rest = delete_mutable key es in if e.key == key then rest else e ∷ rest

-- The fetch time loses its fraction of a second.
abbrev pub stored : MutableEntry → MutableEntry
stored e = record e { fetched_at = from_unix (unix e.fetched_at) }

unfoldable pub put_mutable : MutableEntry → List MutableEntry → List MutableEntry
unfolding delete_mutable
put_mutable e es = stored e ∷ delete_mutable e.key es

-- SUM(size) of the rows of one origin.
unfoldable pub size_of_origin : String → List Row → ℕ
size_of_origin o [] = 0
size_of_origin o (r ∷ rs) =
    (if normalize_origin r.origin == o then r.size else 0) + size_of_origin o rs
