-- ===== src/Examples/Evicting.antt =====
-- The theorems on eviction, staleness and the windows of freshness at concrete inputs.
use specula.Prelude.{
  ℕ, true, false, ◌≡◌, ◌≢◌, ◌≤◌, ◌⊎◌, inl, refl, none, some, [], ◌∷◌, In, arith, not,
}
use specula.Prelude.Int.{pos}
use specula.Artifact.{ArtifactRef, MutableEntry, origin_cached, normalize_origin}
use specula.Meta.{Row, size_of_origin, get_mutable, same_ref, delete}
use specula.Meta.Rows.{IsUnique}
use specula.Meta.Listing.{comes_first}
use specula.Cache.{Cache, no_faults, ok, exists, find_object}
use specula.Cache.Fresh.{is_hard_expired_at, is_mutable_fresh_at}
use specula.Cache.Lookup.{lookup, lookup_stale, mutable_key, entry_of}
use specula.Cache.Lookup.Staleness.{lookup-mutable}
use specula.Cache.Evict.{enforce_capacity}
use specula.Cache.Evict.Keeps.{enforce_capacity-Kept}
use specula.Cache.Evict.Blobs.{enforce_capacity-exists}
use specula.Cache.Evict.Reaches.{NothingLeft, enforce_capacity-fits}
use specula.Examples.{six, row_at, small_cache, toy_floats, small-IsUnique}

-- Two entries with three bytes, of which two are allowed.
abbrev full_cache : Cache
full_cache = record small_cache { max_bytes = 2 }

abbrev old_row : Row
old_row = row_at "old" "d3" 2 (pos 1)

abbrev new_row : Row
new_row = row_at "new" "d4" 1 (pos 2)

two_not_zero : ◌≢◌ {A = ℕ} 2 0
two_not_zero h = omega (arith, h)

enforce_capacity-fits_example :
    ((enforce_capacity no_faults six full_cache).1 ≡ none)
    × ((size_of_origin origin_cached (enforce_capacity no_faults six full_cache).0.rows ≤ 2)
        ⊎ NothingLeft six (enforce_capacity no_faults six full_cache).0.rows)
enforce_capacity-fits_example =
    enforce_capacity-fits no_faults six full_cache (λ ref. refl) refl refl two_not_zero
      small-IsUnique

-- The oldest entry goes, and its blob with it.
evicted_oldest : (enforce_capacity no_faults six full_cache).0.rows ≡ new_row ∷ []
unfolding enforce_capacity size_of_origin normalize_origin comes_first same_ref delete
evicted_oldest = refl

new_is_left : In new_row (enforce_capacity no_faults six full_cache).0.rows
unfolding enforce_capacity size_of_origin normalize_origin comes_first same_ref delete
new_is_left = inl refl

new_has_blob : exists "d4" full_cache.blobs ≡ true
unfolding exists find_object
new_has_blob = refl

enforce_capacity-exists_example :
    exists "d4" (enforce_capacity no_faults six full_cache).0.blobs ≡ true
enforce_capacity-exists_example =
    enforce_capacity-exists no_faults six new_row full_cache new_has_blob new_is_left

old_guarded : same_ref old_row.ref old_row.ref ≡ true
unfolding same_ref
old_guarded = refl

enforce_capacity-Kept_example :
    IsUnique (enforce_capacity no_faults old_row.ref full_cache).0.rows
    × In old_row (enforce_capacity no_faults old_row.ref full_cache).0.rows
enforce_capacity-Kept_example =
    enforce_capacity-Kept no_faults old_row.ref old_row full_cache small-IsUnique (inl refl)
      (inl old_guarded)

-- An index page that is good for a minute.
abbrev index_page : MutableEntry
index_page = record {
  key = "pypi:six:1.16";
  protocol = "pypi";
  digest = "";
  payload = 1 ∷ [];
  etag = "";
  last_modified = "";
  ttl_seconds = pos 60;
  upstream = "pypi.org";
  fetched_at = pos 0;
}

abbrev index_ref : ArtifactRef
index_ref = record six { mutable = true }

abbrev index_cache : Cache
index_cache = record small_cache { meta = record { rows = []; mutables = index_page ∷ [] } }

index_fresh : is_mutable_fresh_at toy_floats index_page (pos 5) 1 ≡ true
unfolding is_mutable_fresh_at
index_fresh = refl

index_found :
    lookup toy_floats no_faults (pos 5) 1 index_ref index_cache
    ≡ ok (some (entry_of index_ref index_page false))
unfolding lookup
index_found = refl

lookup-mutable_example :
    (me : MutableEntry) × (get_mutable (mutable_key index_ref) index_cache.mutables ≡ some me)
    × (is_hard_expired_at me (pos 5) ≡ false)
    × (false ≡ not (is_mutable_fresh_at toy_floats me (pos 5) 1))
    × (lookup_stale toy_floats no_faults (pos 5) 1 index_ref index_cache
        ≡ ok (some (entry_of index_ref index_page false)))
lookup-mutable_example =
    lookup-mutable toy_floats no_faults (pos 5) 1 index_ref index_cache
      (entry_of index_ref index_page false) refl index_found
