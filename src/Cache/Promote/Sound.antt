-- ===== src/Cache/Promote/Sound.antt =====
-- The blobs of the cache have the digests that they are stored under.
use specula.Prelude.{ℕ, String, ◌≡◌, inl, inr, List, [], ◌∷◌, In, arith, subst, sym}
use specula.Prelude.Int.{ℤ}
use specula.Artifact.{ArtifactRef, Artifact}
use specula.Meta.{Row, Store, delete}
use specula.Verify.{Verifier}
use specula.Cache.{Object, remove, done, put_blob, Cache, Faults}
use specula.Cache.Blobs.{put_blob-Puts}
use specula.Cache.Lookup.Pins.{IsSound}
use specula.Cache.Evict.{release, page_of, enforce_capacity}
use specula.Cache.Evict.Sweep.{evict_page-keeps, enforce_capacity-keeps}
use specula.Cache.Promote.{store_once}
use specula.Cache.Promote.Stages.{store_once-Leaves}

In-remove : (k : String) (o : Object) (os : List Object) → In o (remove k os) → In o os
unfolding remove
In-remove k o [] m = m
In-remove k o (x ∷ xs) m = ground (arith, In-remove k o xs)

In-release :
    (w : Faults) (e : Row) (rows : List Row) (blobs : List Object) (o : Object)
    → In o (release w e rows blobs)
    → In o blobs
unfolding release
In-release w e rows blobs o m = ground (arith, In-remove e.digest o blobs)

put_blob-IsSound :
    (hash : String → List ℕ → String) (d : String) (bytes : List ℕ) (size : ℕ)
    (os blobs : List Object)
    → put_blob hash d bytes size os ≡ done blobs
    → IsSound hash os
    → IsSound hash blobs
put_blob-IsSound hash d bytes size os blobs h sound =
    elim (put_blob-Puts hash d bytes size os blobs h) [
      | inl (there, same) ↦ subst (IsSound hash) same sound
      | inr (new, good, fits) ↦ subst (IsSound hash) new (λ o m. elim m [
        | inl one ↦ subst (λ (x : Object). hash x.name x.bytes ≡ x.name) (sym one) good
        | inr old ↦ sound o old
      ])
    ]

enforce_capacity-IsSound :
    (hash : String → List ℕ → String) (w : Faults) (protect : ArtifactRef) (c : Cache)
    → IsSound hash c.blobs
    → IsSound hash (enforce_capacity w protect c).0.blobs
enforce_capacity-IsSound hash w protect c sound =
    enforce_capacity-keeps w protect (λ rows blobs. IsSound hash blobs) c
      (λ s k.
        evict_page-keeps w protect (λ rows blobs. IsSound hash blobs) (page_of w protect s.rows) s
          (λ e n free rows blobs q o m. q o (In-release w e (delete e.ref rows) blobs o m)) k)
      sound

-- `storeOnce` keeps every blob under the digest of its bytes, whatever the verifiers answer and whatever
-- fails.
pub store_once-IsSound :
    (hash : String → List ℕ → String) (w : Faults) (now : ℤ) (ref : ArtifactRef) (art : Artifact)
    (vs : List (Verifier Store)) (c : Cache)
    → IsSound hash c.blobs
    → IsSound hash (store_once hash w now ref art vs c).1.blobs
store_once-IsSound hash w now ref art vs c sound =
    store_once-Leaves hash w now ref art (λ rows blobs. IsSound hash blobs) vs c
      (λ protect d k. enforce_capacity-IsSound hash w protect d k) sound
      (λ res bytes blobs h.
        let k = put_blob-IsSound hash art.digest bytes art.size c.blobs blobs h sound in (k, k))
