-- ===== src/Cache/Evict.antt =====
-- internal/cache/evict.go: `enforceCapacity`. The oldest cached and unpinned entries go until the
-- cached bytes fit. A round lists at most `evict_batch` candidates; a round that removes nothing is the
-- last, so one round more than there are rows is enough.
pub mod Sweep
pub mod OnePage
pub mod Keeps
pub mod Blobs
pub mod Reaches
use specula.Prelude.{
  ℕ, zero, suc, ◌-◌, String, Bool, true, false, not, ◌&&◌, Option, none, some, List, [], ◌∷◌, ◌==◌,
  if◌then◌else◌, length, leb, eqb,
}
use specula.Prelude.Int.{ℤ, pos}
use specula.Artifact.{ArtifactRef, origin_cached}
use specula.Meta.{Row, same_ref, delete, size_of_origin}
use specula.Meta.Listing.{EntryFilter, any_entry, Page, created_at, list_entries}
use specula.Cache.{Object, remove, Cache, Faults, Cause, reported}

abbrev pub evict_batch : ℕ
evict_batch = 64

abbrev pub candidates : EntryFilter
candidates = record any_entry { pinned = some false; origin = origin_cached }

abbrev pub oldest_first : Page
oldest_first = record { limit = pos evict_batch; offset = pos 0; sort = created_at; desc = false }

abbrev pub shares : String → EntryFilter
shares digest = record any_entry { digest = digest }

-- No entry that is left has the digest. An error counts as a use.
unfoldable pub blob_is_unreferenced : Faults → String → List Row → Bool
unfolding list_entries
blob_is_unreferenced w digest rows =
    if w.count_refs digest
    then false
    else eqb
        ((list_entries "" (shares digest)
          (record { limit = pos 1; offset = pos 0; sort = created_at; desc = false }) rows).total)
        0

-- The variables of the loop. `need` is the number of bytes above the ceiling, 0 once there is none.
pub record Round : Type 0 where
  pub rows : List Row
  pub blobs : List Object
  pub need : ℕ
  pub progress : Bool
  pub error : Option Cause

-- The blobs after the row of an evicted entry is gone.
unfoldable pub release : Faults → Row → List Row → List Object → List Object
unfolding blob_is_unreferenced
release w e rows blobs =
    let rest = remove e.digest blobs in
    if not (e.digest == "") && blob_is_unreferenced w e.digest rows && not (w.blob_delete e.digest)
    then rest
    else blobs

unfoldable pub evicted : Faults → Row → Round → Round
unfolding release
evicted w e s = record {
  rows = delete e.ref s.rows;
  blobs = release w e (delete e.ref s.rows) s.blobs;
  need = s.need - e.size;
  progress = true;
  error = none;
}

-- One entry of the page, by whether enough is freed and whether the entry is protected.
abbrev pub evict_one : (Round → Round) → Row → Bool → Bool → Option String → Round → Faults → Round
evict_one rest e true guarded failed s w = s
evict_one rest e false true failed s w = rest s
evict_one rest e false false (some x) s w = record s { error = some (reported x) }
evict_one rest e false false none s w = rest (evicted w e s)

module _ (w : Faults) (protect : ArtifactRef) where
  unfoldable pub evict_page : List Row → Round → Round
  unfolding evicted
  evict_page [] s = s
  evict_page (e ∷ es) s =
      evict_one (evict_page es) e (eqb s.need 0) (same_ref e.ref protect) (w.delete e.ref) s w

  unfoldable pub page_of : List Row → List Row
  unfolding list_entries
  page_of rows = (list_entries "" candidates oldest_first rows).entries

  -- After a page: an error ends the loop, and so does a page that moved nothing.
  abbrev pub resume : (Round → Round) → Option Cause → Bool → Round → Round
  resume rest (some x) moved s = s
  resume rest none false s = s
  resume rest none true s = rest s

  -- One round, then the rounds that are left: by whether bytes are needed, the error of the listing and
  -- the page.
  abbrev pub evict_round : (Round → Round) → Bool → Option String → List Row → Round → Round
  evict_round rest true failed page s = s
  evict_round rest false (some x) page s = record s { error = some (reported x) }
  evict_round rest false none [] s = s
  evict_round rest false none (e ∷ es) s =
      let t = evict_page (e ∷ es) (record s { progress = false }) in
      resume rest t.error t.progress t

  unfoldable pub evict_loop : ℕ → Round → Round
  unfolding evict_page page_of
  evict_loop zero s = s
  evict_loop (suc fuel) s = evict_round (evict_loop fuel) (eqb s.need 0) w.list (page_of s.rows) s

  unfoldable pub total_cached_bytes : Cache → ℕ
  total_cached_bytes c = size_of_origin origin_cached c.rows

  unfoldable pub first_round : Cache → Round
  unfolding total_cached_bytes
  first_round c = record {
    rows = c.rows;
    blobs = c.blobs;
    need = total_cached_bytes c - c.max_bytes;
    progress = false;
    error = none;
  }

  abbrev pub settled : Cache → Round → Cache
  settled c s = record c { meta = record c.meta { rows = s.rows }; blobs = s.blobs }

  -- By whether there is no ceiling, the error of the size query and whether everything fits.
  abbrev pub enforced : Cache → Bool → Option String → Bool → Round → Cache × Option Cause
  enforced c true failed fits s = (c, none)
  enforced c false (some x) fits s = (c, some (reported x))
  enforced c false none true s = (c, none)
  enforced c false none false s = (settled c s, s.error)

  -- What is left, with the error if there is one.
  unfoldable pub enforce_capacity : Cache → Cache × Option Cause
  unfolding first_round evict_loop
  enforce_capacity c =
      enforced c (eqb c.max_bytes 0) w.size (leb (total_cached_bytes c) c.max_bytes)
        (evict_loop (suc (length c.rows)) (first_round c))
