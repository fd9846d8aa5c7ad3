-- ===== src/Cache/Promote/Rejected.antt =====
-- Where `storeOnce` leaves the quarantined file.
use specula.Prelude.{
  ℕ, String, Bool, true, false, ◌≡◌, refl, Option, none, some, List, [], ◌∷◌, arith, subst, sym,
  eqb, leb, suc, length,
}
use specula.Prelude.Int.{ℤ}
use specula.Artifact.{Status, pass, warn, fail, skip, ArtifactRef, Artifact, CacheEntry, Result}
use specula.Meta.{Store, put, put_mutable}
use specula.Verify.{Verifier}
use specula.Verify.Chain.{verify}
use specula.Cache.{Object, find_object, remove, Put, done, refused, put_blob, Cache, Faults}
use specula.Cache.Evict.{
  Round, enforced, enforce_capacity, total_cached_bytes, evict_loop, first_round,
}
use specula.Cache.Promote.{
  new_entry, index_entry, dropped, indexed, recorded, blobbed, opened, judged, store_once,
}

find-remove : (k : String) (os : List Object) → find_object k (remove k os) ≡ none
unfolding find_object remove
find-remove k [] = refl
find-remove k (o ∷ os) = ground (arith, find-remove k os)

-- The quarantined file is gone.
abbrev Gone : Artifact → Cache → Type 0
Gone art c = find_object art.path c.files ≡ none

dropped-Gone : (art : Artifact) (c : Cache) → Gone art (dropped art c)
unfolding dropped
dropped-Gone art c = find-remove art.path c.files

enforced-files :
    (w : Faults) (protect : ArtifactRef) (c : Cache) (unlimited : Bool) (failed : Option String)
    (fits : Bool) (s : Round)
    → (enforced w protect c unlimited failed fits s).0.files ≡ c.files
enforced-files w protect c true failed fits s = refl
enforced-files w protect c false (some x) fits s = refl
enforced-files w protect c false none true s = refl
enforced-files w protect c false none false s = refl

enforce_capacity-files :
    (w : Faults) (protect : ArtifactRef) (c : Cache)
    → (enforce_capacity w protect c).0.files ≡ c.files
unfolding enforce_capacity
enforce_capacity-files w protect c =
    enforced-files w protect c (eqb c.max_bytes 0) w.size
      (leb (total_cached_bytes w protect c) c.max_bytes)
      (evict_loop w protect (suc (length c.rows)) (first_round w protect c))

module _ (w : Faults) (now : ℤ) (ref : ArtifactRef) (art : Artifact) where
  finished-Gone :
      (entry : CacheEntry) (c : Cache) → Gone art c → Gone art (enforce_capacity w entry.ref c).0
  finished-Gone entry c h =
      subst (λ files. find_object art.path files ≡ none)
        (sym (enforce_capacity-files w entry.ref c)) h

  indexed-Gone :
      (entry : CacheEntry) (mutable : Bool) (failed : Option String) (c : Cache)
      → Gone art c
      → Gone art (indexed w now ref art entry mutable failed c).1
  indexed-Gone entry false failed c h = finished-Gone entry c h
  indexed-Gone entry true (some e) c h = h
  indexed-Gone entry true none c h =
      finished-Gone entry
        (record c {
          meta = record c.meta { mutables = put_mutable (index_entry ref art now) c.mutables };
        })
        h

  blobbed-Gone :
      (entry : CacheEntry) (failed : Option String) (p : Put) (c : Cache)
      → Gone art (blobbed w now ref art entry failed p c).1
  blobbed-Gone entry (some e) p c = dropped-Gone art c
  blobbed-Gone entry none (refused x) c = dropped-Gone art c
  blobbed-Gone entry none (done blobs) c = recorded-Gone w.meta_put
    where
      recorded-Gone :
          (failed : Option String)
          → Gone art (recorded w now ref art entry failed (record c { blobs = blobs })).1
      recorded-Gone (some e) = dropped-Gone art (record c { blobs = blobs })
      recorded-Gone none =
          indexed-Gone entry ref.mutable w.mutable_put
            (dropped art
              (record c { meta = record c.meta { rows = put entry c.rows }; blobs = blobs }))
            (dropped-Gone art
              (record c { meta = record c.meta { rows = put entry c.rows }; blobs = blobs }))

  module _ (hash : String → List ℕ → String) where
    opened-Gone :
        (entry : CacheEntry) (failed : Option String) (f : Option (List ℕ)) (c : Cache)
        → Gone art (opened hash w now ref art entry failed f c).1
    opened-Gone entry (some e) f c = dropped-Gone art c
    opened-Gone entry none none c = dropped-Gone art c
    opened-Gone entry none (some bytes) c =
        blobbed-Gone entry w.blob_put (put_blob hash art.digest bytes art.size c.blobs) c

    judged-Gone :
        (error : Option String) (status : Status) (res : Result) (c : Cache)
        → Gone art (judged hash w now ref art error status res c).1
    judged-Gone (some e) status res c = dropped-Gone art c
    judged-Gone none fail res c = dropped-Gone art c
    judged-Gone none pass res c =
        opened-Gone (new_entry ref art res now) w.open_file (find_object art.path c.files) c
    judged-Gone none warn res c =
        opened-Gone (new_entry ref art res now) w.open_file (find_object art.path c.files) c
    judged-Gone none skip res c =
        opened-Gone (new_entry ref art res now) w.open_file (find_object art.path c.files) c

-- Whatever happens, no quarantined file of the artifact is left.
pub store_once-files :
    (hash : String → List ℕ → String) (w : Faults) (now : ℤ) (ref : ArtifactRef) (art : Artifact)
    (vs : List (Verifier Store)) (c : Cache)
    → find_object art.path (store_once hash w now ref art vs c).1.files ≡ none
unfolding store_once
store_once-files hash w now ref art vs c =
    judged-Gone w now ref art hash (verify ref art vs c.meta).error
      (verify ref art vs c.meta).result.status (verify ref art vs c.meta).result
      (record c { meta = (verify ref art vs c.meta).state })
