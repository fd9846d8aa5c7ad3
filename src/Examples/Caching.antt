-- ===== src/Examples/Caching.antt =====
-- The theorems on the cache at concrete inputs.
use specula.Prelude.{
  any, String, true, ◌≡◌, ◌≢◌, inl, inr, refl, sym, subst, none, some, List, [], ◌∷◌,
}
use specula.Prelude.Int.{pos, minus_one}
use specula.Artifact.{warn, fail, ArtifactRef, CacheEntry}
use specula.Meta.{same_ref, find_row, Row, Store, to_entry, get_mutable}
use specula.Meta.Rows.{IsUnique}
use specula.Verify.{Verifier}
use specula.Verify.Chain.{verify}
use specula.Verify.Tofu
use specula.Verify.Checksum
use specula.Verify.Tofu.{meta_tofu_store}
use specula.Cache.{Object, Cache, no_faults, ok, exists, find_object}
use specula.Cache.Lookup.{lookup, lookup_immutable, serve}
use specula.Cache.Lookup.Pins.{IsSound, served_pin}
use specula.Cache.Promote.{store_once, new_entry}
use specula.Cache.Promote.Publishes.{Judged, store_once-Judged}
use specula.Verify.Chain.Verdict.{answers, rejects}
use specula.Cache.Promote.Backed.{Backed, store_once-Backed}
use specula.Cache.Promote.RoundTrip.{store_once-lookup}
use specula.Cache.Promote.Succeeds.{store_once-ok}
use specula.Examples.{
  six, six_pinned, wheel, toy_hash, bytes_of_wheel, tofu_chain, row_at, small_cache, toy_floats,
}

abbrev warm_row : Row
warm_row = row_at "six" "d1" 2 (pos 1)

abbrev warm_cache : Cache
warm_cache = record small_cache {
  meta = record { rows = warm_row ∷ []; mutables = [] };
  blobs = record { name = "d1"; bytes = bytes_of_wheel } ∷ [];
}

warm-IsSound : IsSound toy_hash warm_cache.blobs
warm-IsSound o (inl e) = subst (λ (x : Object). toy_hash x.name x.bytes ≡ x.name) (sym e) refl
warm-IsSound o (inr m) = absurd m

warm_served :
    serve toy_floats no_faults (pos 5) 1 six_pinned (pos 0) minus_one warm_cache
    ≡ ok (bytes_of_wheel, some (to_entry warm_row))
unfolding serve same_ref to_entry
warm_served = refl

six-pinned : ◌≢◌ {A = String} "d1" ""
six-pinned h = cc

served_pin_example : toy_hash "d1" bytes_of_wheel ≡ "d1"
served_pin_example =
    served_pin toy_hash toy_floats no_faults (pos 5) 1 six_pinned warm_cache bytes_of_wheel
      (to_entry warm_row) warm-IsSound six-pinned warm_served

warm_found :
    lookup toy_floats no_faults (pos 5) 1 six_pinned warm_cache ≡ ok (some (to_entry warm_row))
unfolding lookup same_ref to_entry
warm_found = refl

stored_ok :
    (store_once toy_hash no_faults (pos 9) six wheel tofu_chain small_cache).0
    ≡ ok (new_entry six wheel (verify six wheel tofu_chain small_cache.meta).result (pos 9))
unfolding store_once Tofu.verifier meta_tofu_store get_mutable
stored_ok = refl

stored_digest : six.digest ≡ ""
stored_digest = refl

tofu-IsUnique : IsUnique (verify six wheel tofu_chain small_cache.meta).state.rows
unfolding verify Tofu.verifier meta_tofu_store get_mutable find_row same_ref
tofu-IsUnique = (refl, (refl, tt))

store_once-lookup_example :
    (e : CacheEntry) × (lookup_immutable no_faults six
        (store_once toy_hash no_faults (pos 9) six wheel tofu_chain small_cache).1
      ≡ ok (some e))
    × (e.digest ≡ "d1")
store_once-lookup_example =
    store_once-lookup toy_hash no_faults (pos 9) six wheel tofu_chain small_cache
      (new_entry six wheel (verify six wheel tofu_chain small_cache.meta).result (pos 9))
      tofu-IsUnique (inr stored_digest) stored_ok

small-Backed : Backed small_cache.rows small_cache.blobs
unfolding exists find_object
small-Backed r (inl e) = subst (λ (x : Row). exists x.digest small_cache.blobs ≡ true) (sym e) refl
small-Backed r (inr (inl e)) =
    subst (λ (x : Row). exists x.digest small_cache.blobs ≡ true) (sym e) refl
small-Backed r (inr (inr m)) = absurd m

tofu-Backed : Backed (verify six wheel tofu_chain small_cache.meta).state.rows small_cache.blobs
unfolding verify Tofu.verifier meta_tofu_store get_mutable
tofu-Backed = small-Backed

store_once-Backed_example :
    Backed
      (store_once toy_hash no_faults (pos 9) six wheel tofu_chain small_cache).1.rows
      (store_once toy_hash no_faults (pos 9) six wheel tofu_chain small_cache).1.blobs
store_once-Backed_example =
    store_once-Backed toy_hash no_faults (pos 9) six wheel tofu_chain small_cache tofu-Backed

-- A chain that fails: the reference asks for another digest.
abbrev six_other : ArtifactRef
six_other = record six { digest = "d9" }

abbrev checksum_chain : List (Verifier Store)
checksum_chain = Checksum.verifier ∷ []

store_once-Judged_example :
    (find_object wheel.path
        (store_once toy_hash no_faults (pos 9) six_other wheel checksum_chain small_cache).1.files
      ≡ none)
    × Judged toy_hash no_faults
        (pos 9)
        six_other
        wheel
        (record small_cache {
          meta = (verify six_other wheel checksum_chain small_cache.meta).state;
        })
        (any rejects (answers six_other wheel checksum_chain small_cache.meta))
        (verify six_other wheel checksum_chain small_cache.meta).result
        (store_once toy_hash no_faults (pos 9) six_other wheel checksum_chain small_cache)
store_once-Judged_example =
    store_once-Judged toy_hash no_faults (pos 9) six_other wheel checksum_chain small_cache

tofu_fine : (verify six wheel tofu_chain small_cache.meta).error ≡ none
unfolding verify Tofu.verifier meta_tofu_store get_mutable
tofu_fine = refl

tofu_warns : (verify six wheel tofu_chain small_cache.meta).result.status ≡ warn
unfolding verify Tofu.verifier meta_tofu_store get_mutable
tofu_warns = refl

warn_fail : warn ≢ fail
warn_fail h = cc

file_there : find_object "/quarantine/1" small_cache.files ≡ some bytes_of_wheel
unfolding find_object
file_there = refl

store_once-ok_example :
    (store_once toy_hash no_faults (pos 9) six wheel tofu_chain small_cache).0
    ≡ ok (new_entry six wheel (verify six wheel tofu_chain small_cache.meta).result (pos 9))
store_once-ok_example =
    store_once-ok toy_hash (pos 9) six wheel tofu_chain small_cache bytes_of_wheel tofu_fine
      (subst (λ x. x ≢ fail) (sym tofu_warns) warn_fail) file_there refl refl
