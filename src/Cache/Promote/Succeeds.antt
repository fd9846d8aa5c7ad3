-- ===== src/Cache/Promote/Succeeds.antt =====
-- When `storeOnce` succeeds.
use specula.Prelude.{
  ℕ, String, Bool, true, false, ◌≡◌, ◌≢◌, refl, Option, none, some, List, ◌∷◌, arith, eq_iff, subst,
  length, Option-cases, inl, inr,
}
use specula.Prelude.Int.{ℤ}
use specula.Artifact.{Status, pass, warn, fail, skip, ArtifactRef, Artifact, CacheEntry, Result}
use specula.Meta.{Store}
use specula.Verify.{Verifier}
use specula.Verify.Chain.{verify}
use specula.Cache.{Object, find_object, Put, done, refused, put_blob, Cache, ok, no_faults}
use specula.Cache.Promote.{new_entry, indexed, blobbed, opened, judged, store_once}

put_blob-done :
    (hash : String → List ℕ → String) (d : String) (bytes : List ℕ) (size : ℕ) (os : List Object)
    → hash d bytes ≡ d
    → length bytes ≡ size
    → (blobs : List Object) × (put_blob hash d bytes size os ≡ done blobs)
unfolding put_blob
put_blob-done hash d bytes size os h n = elim (Option-cases (find_object d os)) [
  | inr (b, found) ↦ (os, ground arith)
  | inl absent ↦ (record { name = d; bytes = bytes } ∷ os, ground (arith, eq_iff (hash d bytes) d))
]

module _ (now : ℤ) (ref : ArtifactRef) (art : Artifact) where
  indexed-ok :
      (entry : CacheEntry) (mutable : Bool) (c : Cache)
      → (indexed no_faults now ref art entry mutable none c).0 ≡ ok entry
  indexed-ok entry false c = refl
  indexed-ok entry true c = refl

  blobbed-ok :
      (entry : CacheEntry) (p : Put) (c : Cache) (blobs : List Object)
      → p ≡ done blobs
      → (blobbed no_faults now ref art entry none p c).0 ≡ ok entry
  blobbed-ok entry (refused x) c blobs h = cc
  blobbed-ok entry (done os) c blobs h = indexed-ok entry ref.mutable _

  module _ (hash : String → List ℕ → String) (bytes : List ℕ) where
    opened-ok :
        (entry : CacheEntry) (f : Option (List ℕ)) (c : Cache)
        → f ≡ some bytes
        → hash art.digest bytes ≡ art.digest
        → length bytes ≡ art.size
        → (opened hash no_faults now ref art entry none f c).0 ≡ ok entry
    opened-ok entry none c h d n = cc
    opened-ok entry (some other) c h d n =
        let same : bytes ≡ other = cc in
        let (blobs, put) =
          put_blob-done hash art.digest other art.size c.blobs
            (subst (λ b. hash art.digest b ≡ art.digest) same d)
            (subst (λ b. length b ≡ art.size) same n) in
        blobbed-ok entry (put_blob hash art.digest other art.size c.blobs) c blobs put

    judged-ok :
        (error : Option String) (status : Status) (res : Result) (c : Cache)
        → error ≡ none
        → status ≢ fail
        → find_object art.path c.files ≡ some bytes
        → hash art.digest bytes ≡ art.digest
        → length bytes ≡ art.size
        → (judged hash no_faults now ref art error status res c).0 ≡ ok (new_entry ref art res now)
    judged-ok (some e) status res c fine accepted file d n = cc
    judged-ok none fail res c fine accepted file d n = absurd (accepted refl)
    judged-ok none pass res c fine accepted file d n =
        opened-ok (new_entry ref art res now) (find_object art.path c.files) c file d n
    judged-ok none warn res c fine accepted file d n =
        opened-ok (new_entry ref art res now) (find_object art.path c.files) c file d n
    judged-ok none skip res c fine accepted file d n =
        opened-ok (new_entry ref art res now) (find_object art.path c.files) c file d n

-- `storeOnce` succeeds when the chain accepts the artifact, its file holds the bytes of its digest and
-- size, and the stores answer.
pub store_once-ok :
    (hash : String → List ℕ → String) (now : ℤ) (ref : ArtifactRef) (art : Artifact)
    (vs : List (Verifier Store)) (c : Cache) (bytes : List ℕ)
    → (verify ref art vs c.meta).error ≡ none
    → (verify ref art vs c.meta).result.status ≢ fail
    → find_object art.path c.files ≡ some bytes
    → hash art.digest bytes ≡ art.digest
    → length bytes ≡ art.size
    → (store_once hash no_faults now ref art vs c).0
      ≡ ok (new_entry ref art (verify ref art vs c.meta).result now)
unfolding store_once
store_once-ok hash now ref art vs c bytes fine accepted file digest size =
    let v = verify ref art vs c.meta in
    judged-ok now ref art hash bytes v.error v.result.status v.result (record c { meta = v.state })
      fine accepted file digest size
