-- ===== src/Cache/Promote/Stages.antt =====
-- What every way through `storeOnce` has in common.
use specula.Prelude.{ℕ, String, Bool, true, false, ◌≡◌, refl, Option, none, some, List}
use specula.Prelude.Int.{ℤ}
use specula.Artifact.{Status, pass, warn, fail, skip, ArtifactRef, Artifact, Result, CacheEntry}
use specula.Meta.{Row, Store, put, put_mutable}
use specula.Verify.{Verifier}
use specula.Verify.Chain.{verify}
use specula.Cache.{Object, find_object, Put, done, refused, put_blob, Cache, Faults}
use specula.Cache.Evict.{enforce_capacity}
use specula.Cache.Promote.{
  Stored, new_entry, index_entry, dropped, indexed, recorded, blobbed, opened, judged, store_once,
}

module _ (w : Faults) (now : ℤ) (ref : ArtifactRef) (art : Artifact)
    (P : List Row → List Object → Type 0) where
  -- `P` holds of the rows and blobs that are left.
  abbrev pub Leaves : Stored → Type 0
  Leaves out = P out.1.rows out.1.blobs

  -- Capacity enforcement keeps `P`.
  abbrev pub Survives : Type 0
  Survives =
      (protect : ArtifactRef) (c : Cache)
      → P c.rows c.blobs
      → P (enforce_capacity w protect c).0.rows (enforce_capacity w protect c).0.blobs

  indexed-Leaves :
      (entry : CacheEntry) (mutable : Bool) (failed : Option String) (c : Cache)
      → Survives
      → P c.rows c.blobs
      → Leaves (indexed w now ref art entry mutable failed c)
  indexed-Leaves entry false failed c survives h = survives entry.ref c h
  indexed-Leaves entry true (some e) c survives h = h
  indexed-Leaves entry true none c survives h =
      survives entry.ref
        (record c {
          meta = record c.meta { mutables = put_mutable (index_entry ref art now) c.mutables };
        })
        h

  recorded-Leaves :
      (entry : CacheEntry) (failed : Option String) (c : Cache)
      → Survives
      → P c.rows c.blobs
      → P (put entry c.rows) c.blobs
      → Leaves (recorded w now ref art entry failed c)
  unfolding dropped
  recorded-Leaves entry (some e) c survives h k = h
  recorded-Leaves entry none c survives h k =
      indexed-Leaves entry ref.mutable w.mutable_put
        (dropped art (record c { meta = record c.meta { rows = put entry c.rows } })) survives k

  -- Putting the blob, and then the row, keeps `P`.
  abbrev pub Puts : CacheEntry → Cache → Put → Type 0
  Puts entry c p =
      (blobs : List Object) → p ≡ done blobs → P c.rows blobs × P (put entry c.rows) blobs

  blobbed-Leaves :
      (entry : CacheEntry) (failed : Option String) (p : Put) (c : Cache)
      → Survives
      → P c.rows c.blobs
      → Puts entry c p
      → Leaves (blobbed w now ref art entry failed p c)
  unfolding dropped
  blobbed-Leaves entry (some e) p c survives h k = h
  blobbed-Leaves entry none (refused x) c survives h k = h
  blobbed-Leaves entry none (done blobs) c survives h k =
      recorded-Leaves entry w.meta_put (record c { blobs = blobs }) survives (k blobs refl).0
        (k blobs refl).1

module _ (hash : String → List ℕ → String) (w : Faults) (now : ℤ) (ref : ArtifactRef)
    (art : Artifact) (P : List Row → List Object → Type 0) where
  -- Putting any bytes under the digest of the artifact, and then its row, keeps `P`.
  abbrev pub PutsAny : Cache → Type 0
  PutsAny c =
      (res : Result) (bytes : List ℕ)
      → Puts w now ref art P (new_entry ref art res now) c
          (put_blob hash art.digest bytes art.size c.blobs)

  opened-Leaves :
      (res : Result) (failed : Option String) (f : Option (List ℕ)) (c : Cache)
      → Survives w now ref art P
      → P c.rows c.blobs
      → PutsAny c
      → Leaves w now ref art P (opened hash w now ref art (new_entry ref art res now) failed f c)
  unfolding dropped
  opened-Leaves res (some e) f c survives h k = h
  opened-Leaves res none none c survives h k = h
  opened-Leaves res none (some bytes) c survives h k =
      blobbed-Leaves w now ref art P (new_entry ref art res now) w.blob_put
        (put_blob hash art.digest bytes art.size c.blobs) c survives h (k res bytes)

  judged-Leaves :
      (error : Option String) (status : Status) (res : Result) (c : Cache)
      → Survives w now ref art P
      → P c.rows c.blobs
      → PutsAny c
      → Leaves w now ref art P (judged hash w now ref art error status res c)
  unfolding dropped
  judged-Leaves (some e) status res c survives h k = h
  judged-Leaves none fail res c survives h k = h
  judged-Leaves none pass res c survives h k =
      opened-Leaves res w.open_file (find_object art.path c.files) c survives h k
  judged-Leaves none warn res c survives h k =
      opened-Leaves res w.open_file (find_object art.path c.files) c survives h k
  judged-Leaves none skip res c survives h k =
      opened-Leaves res w.open_file (find_object art.path c.files) c survives h k

  -- What the verifiers leave, the puts keep and capacity enforcement keeps, `storeOnce` leaves.
  pub store_once-Leaves :
      (vs : List (Verifier Store)) (c : Cache)
      → Survives w now ref art P
      → P (verify ref art vs c.meta).state.rows c.blobs
      → PutsAny (record c { meta = (verify ref art vs c.meta).state })
      → Leaves w now ref art P (store_once hash w now ref art vs c)
  unfolding store_once
  store_once-Leaves vs c survives h k =
      let v = verify ref art vs c.meta in
      judged-Leaves v.error v.result.status v.result (record c { meta = v.state }) survives h k
