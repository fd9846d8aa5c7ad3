-- ===== src/Cache/Promote/Backed.antt =====
-- Metadata never comes before its blob.
use specula.Prelude.{ℕ, String, true, ◌≡◌, ◌⊎◌, inl, inr, List, [], ◌∷◌, In, arith, subst, sym}
use specula.Prelude.Int.{ℤ}
use specula.Artifact.{ArtifactRef, Artifact, CacheEntry}
use specula.Meta.{Row, Store, to_row, upsert, put}
use specula.Verify.{Verifier}
use specula.Verify.Chain.{verify}
use specula.Cache.{Object, done, put_blob, exists, Cache, Faults}
use specula.Cache.Blobs.{put_blob-exists}
use specula.Cache.Evict.Blobs.{enforce_capacity-exists, enforce_capacity-In}
use specula.Cache.Promote.{store_once, new_entry}
use specula.Cache.Promote.Stages.{store_once-Leaves}

-- The blob of every row is there.
abbrev pub Backed : List Row → List Object → Type 0
Backed rows blobs = (r : Row) → In r rows → exists r.digest blobs ≡ true

In-upsert :
    (new r : Row) (rows : List Row) → In r (upsert new rows) → (r.digest ≡ new.digest) ⊎ In r rows
unfolding upsert
In-upsert new r [] m = ground arith
In-upsert new r (x ∷ xs) m = ground (arith, In-upsert new r xs)

put-Backed :
    (hash : String → List ℕ → String) (entry : CacheEntry) (bytes : List ℕ) (rows : List Row)
    (os blobs : List Object)
    → put_blob hash entry.digest bytes entry.size os ≡ done blobs
    → Backed rows os
    → Backed rows blobs × Backed (put entry rows) blobs
unfolding put to_row
put-Backed hash entry bytes rows os blobs h backed = (
  λ r m. kept r (backed r m),
  λ r m. elim (In-upsert (to_row entry) r rows m) [
    | inl same ↦ subst (λ d. exists d blobs ≡ true) (sym same) (kept_new)
    | inr old ↦ kept r (backed r old)
  ],
)
  where
    kept : (r : Row) → exists r.digest os ≡ true → exists r.digest blobs ≡ true
    kept r = (put_blob-exists hash entry.digest r.digest bytes entry.size os blobs h).1

    kept_new : exists entry.digest blobs ≡ true
    kept_new = (put_blob-exists hash entry.digest entry.digest bytes entry.size os blobs h).0

-- If every row's blob is there after the verifiers, every row's blob is there after `storeOnce`, whatever
-- fails: an interrupted promotion leaves a blob without a row, never a row without its blob.
pub store_once-Backed :
    (hash : String → List ℕ → String) (w : Faults) (now : ℤ) (ref : ArtifactRef) (art : Artifact)
    (vs : List (Verifier Store)) (c : Cache)
    → Backed (verify ref art vs c.meta).state.rows c.blobs
    → Backed
        (store_once hash w now ref art vs c).1.rows
        (store_once hash w now ref art vs c).1.blobs
store_once-Backed hash w now ref art vs c backed =
    store_once-Leaves hash w now ref art Backed vs c
      (λ protect d k r m.
        enforce_capacity-exists w protect r d (k r (enforce_capacity-In w protect r d m)) m)
      backed
      (λ res bytes blobs h.
        put-Backed hash (new_entry ref art res now) bytes (verify ref art vs c.meta).state.rows
          c.blobs blobs h backed)
