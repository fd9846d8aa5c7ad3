-- ===== src/Cache/Promote/Publishes.antt =====
-- What every way through `storeOnce` publishes, told by the verifiers' own answers.
use specula.Prelude.{
  ℕ, String, Bool, true, false, ◌≡◌, ◌≢◌, ◌⊎◌, refl, inl, inr, Option, none, some, List, [], ◌∷◌,
  arith, any,
}
use specula.Prelude.Int.{ℤ}
use specula.Artifact.{Status, pass, warn, fail, skip, ArtifactRef, Artifact, CacheEntry, Result}
use specula.Meta.{Store, put}
use specula.Verify.{Answer, Verifier}
use specula.Verify.Chain.{Progress, accepted, start, run, verify}
use specula.Verify.Chain.Verdict.{answers, rejects, verify-accepts}
use specula.Cache.{
  Object, find_object, Put, done, refused, put_blob, Cache, Faults, Error, Outcome, ok, err,
}
use specula.Cache.Blobs.{put_blob-Puts}
use specula.Cache.Promote.{
  Stored, new_entry, dropped, indexed, recorded, blobbed, opened, judged, store_once,
}
use specula.Cache.Promote.Rejected.{store_once-files}

-- A chain that ends with an error has failed.
run-error :
    {S : Type 0} (ref : ArtifactRef) (art : Artifact) (vs : List (Verifier S)) (p : Progress)
    (s : S) (e : String)
    → (run ref art vs p s).error ≡ some e
    → (run ref art vs p s).result.status ≡ fail
unfolding run
run-error ref art [] p s e h = cc
run-error {S} ref art (v ∷ vs) p s e h =
    let a : Answer S = v.verify ref art s in
    ground (
      arith,
      run-error ref art vs p a.state e,
      run-error ref art vs (accepted ref v a.result p) a.state e,
    )

verify-error :
    {S : Type 0} (ref : ArtifactRef) (art : Artifact) (vs : List (Verifier S)) (s : S) (e : String)
    → (verify ref art vs s).error ≡ some e
    → (verify ref art vs s).result.status ≡ fail
unfolding verify
verify-error ref art [] s e h = cc
verify-error ref art (v ∷ vs) s e h = run-error ref art (v ∷ vs) start s e h

abbrev pub Errs : Outcome CacheEntry → Type 0
Errs out = (e : Error) × (out ≡ err e)

-- The blobs are the same, or the one with the artifact's digest has been added to them.
abbrev pub Grown : (String → List ℕ → String) → String → List Object → List Object → Type 0
Grown hash d os blobs =
    (os ≡ blobs)
    ⊎ ((bytes : List ℕ) × (record { name = d; bytes = bytes } ∷ os ≡ blobs) × (hash d bytes ≡ d))

-- The index entry of a mutable reference could not be written, and its row had been.
abbrev pub Unindexed : Faults → ArtifactRef → CacheEntry → Store → Store → Type 0
Unindexed w ref entry before after =
    (ref.mutable ≡ true)
    × ((e : String) × (w.mutable_put ≡ some e))
    × (after ≡ record before { rows = put entry before.rows })

module _ (hash : String → List ℕ → String) (w : Faults) (now : ℤ) (ref : ArtifactRef)
    (art : Artifact) (c : Cache) where
  -- An accepted artifact is stored, or the metadata is as before.
  abbrev pub Promoted : CacheEntry → Stored → Type 0
  Promoted entry out =
      (Errs out.0
        × Grown hash art.digest c.blobs out.1.blobs
        × ((out.1.meta ≡ c.meta) ⊎ Unindexed w ref entry c.meta out.1.meta))
      ⊎ (out.0 ≡ ok entry)

  recorded-Promoted :
      (entry : CacheEntry) (failed : Option String) (blobs : List Object)
      → Grown hash art.digest c.blobs blobs
      → Promoted entry (recorded w now ref art entry failed (record c { blobs = blobs }))
  unfolding dropped
  recorded-Promoted entry (some e) blobs grown = inl ((_, refl), grown, inl refl)
  recorded-Promoted entry none blobs grown = by_index ref.mutable w.mutable_put refl refl
    where
      kept : Cache
      kept =
          dropped art (record c { meta = record c.meta { rows = put entry c.rows }; blobs = blobs })

      by_index :
          (b : Bool) (o : Option String)
          → ref.mutable ≡ b
          → w.mutable_put ≡ o
          → Promoted entry (indexed w now ref art entry b o kept)
      by_index false o p q = inr refl
      by_index true (some e) p q = inl ((_, refl), grown, inr (p, (e, q), refl))
      by_index true none p q = inr refl

  blobbed-Promoted :
      (entry : CacheEntry) (failed : Option String) (bytes : List ℕ) (p : Put)
      → put_blob hash art.digest bytes art.size c.blobs ≡ p
      → Promoted entry (blobbed w now ref art entry failed p c)
  unfolding dropped
  blobbed-Promoted entry (some e) bytes p q = inl ((_, refl), inl refl, inl refl)
  blobbed-Promoted entry none bytes (refused x) q = inl ((_, refl), inl refl, inl refl)
  blobbed-Promoted entry none bytes (done blobs) q =
      recorded-Promoted entry w.meta_put blobs
        (elim (put_blob-Puts hash art.digest bytes art.size c.blobs blobs q) [
          | inl (there, same) ↦ inl same
          | inr (new, good, fits) ↦ inr (bytes, new, good)
        ])

  opened-Promoted :
      (entry : CacheEntry) (failed : Option String) (f : Option (List ℕ))
      → Promoted entry (opened hash w now ref art entry failed f c)
  unfolding dropped
  opened-Promoted entry (some e) f = inl ((_, refl), inl refl, inl refl)
  opened-Promoted entry none none = inl ((_, refl), inl refl, inl refl)
  opened-Promoted entry none (some bytes) = blobbed-Promoted entry w.blob_put bytes _ refl

  -- The artifact was refused and nothing happened, or it was accepted.
  abbrev pub Judged : Bool → Result → Stored → Type 0
  Judged refuses res out =
      ((refuses ≡ true) × Errs out.0 × (out.1.meta ≡ c.meta) × (out.1.blobs ≡ c.blobs))
      ⊎ ((refuses ≡ false) × Promoted (new_entry ref art res now) out)

  judged-Judged :
      (refuses : Bool) (error : Option String) (status : Status) (res : Result)
      → ((e : String) → error ≡ some e → status ≡ fail)
      → (refuses ≡ false → status ≢ fail)
      → (status ≢ fail → refuses ≡ false)
      → Judged refuses res (judged hash w now ref art error status res c)
  unfolding dropped
  judged-Judged true (some e) status res h f g = inl (refl, (_, refl), refl, refl)
  judged-Judged false (some e) status res h f g = absurd (f refl (h e refl))
  judged-Judged true none fail res h f g = inl (refl, (_, refl), refl, refl)
  judged-Judged false none fail res h f g = absurd (f refl refl)
  judged-Judged refuses none pass res h f g =
      inr (g (λ q. cc), opened-Promoted _ w.open_file (find_object art.path c.files))
  judged-Judged refuses none warn res h f g =
      inr (g (λ q. cc), opened-Promoted _ w.open_file (find_object art.path c.files))
  judged-Judged refuses none skip res h f g =
      inr (g (λ q. cc), opened-Promoted _ w.open_file (find_object art.path c.files))

-- Whatever the verifiers answer and whichever calls fail, no quarantined file of the artifact is
-- left, and one of three things has happened. A verifier errs or fails when all are run in order:
-- the caller gets an error, the metadata is what the chain left and the blobs are as before. None
-- does, and the promotion failed: the caller gets an error, at most the blob of the artifact has
-- been added, with bytes of its digest, and the metadata is what the chain left, but for the new row
-- when only the index entry of a mutable reference could not be written. None does, and the caller
-- gets the new entry.
pub store_once-Judged :
    (hash : String → List ℕ → String) (w : Faults) (now : ℤ) (ref : ArtifactRef) (art : Artifact)
    (vs : List (Verifier Store)) (c : Cache)
    → (find_object art.path (store_once hash w now ref art vs c).1.files ≡ none)
      × Judged hash w now ref art
          (record c { meta = (verify ref art vs c.meta).state })
          (any rejects (answers ref art vs c.meta))
          (verify ref art vs c.meta).result
          (store_once hash w now ref art vs c)
unfolding store_once
store_once-Judged hash w now ref art vs c =
    let v = verify ref art vs c.meta in
    let (to, from) = (verify-accepts ref art vs c.meta).0 in
    (
      store_once-files hash w now ref art vs c,
      judged-Judged hash w now ref art (record c { meta = v.state })
          (any rejects (answers ref art vs c.meta)) v.error v.result.status v.result
          (verify-error ref art vs c.meta) from to,
    )
