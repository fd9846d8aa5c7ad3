-- ===== src/Cache/Promote/RoundTrip.antt =====
-- What `storeOnce` stored, `Lookup` finds.
use specula.Prelude.{
  ℕ, String, Bool, true, false, ◌≡◌, ◌⊎◌, refl, inl, Option, none, some, List, In, arith, eq_iff,
  subst, sym, ◌∙◌,
}
use specula.Prelude.Int.{ℤ}
use specula.Artifact.{Status, pass, warn, fail, skip, ArtifactRef, Artifact, CacheEntry, Result}
use specula.Meta.{Row, Store, same_ref, find_row, to_row, to_entry, upsert, put, get, put_mutable}
use specula.Meta.Rows.{
  IsUnique, find-upsert, upsert-IsUnique, find-In, In-find, merged, find_row-same, same_ref_refl,
  same_ref_iff, same_ref_trans,
}
use specula.Verify.{Verifier}
use specula.Verify.Chain.{verify}
use specula.Cache.{
  Object, find_object, exists, Put, done, refused, put_blob, Cache, Faults, ok, no_faults,
}
use specula.Cache.Blobs.{put_blob-exists}
use specula.Cache.Lookup.{check_digest_pin, lookup_immutable}
use specula.Cache.Evict.{enforce_capacity}
use specula.Cache.Evict.Keeps.{enforce_capacity-Kept}
use specula.Cache.Evict.Blobs.{enforce_capacity-exists}
use specula.Cache.Promote.{
  Stored, new_entry, index_entry, dropped, indexed, recorded, blobbed, opened, judged, store_once,
}

-- The table has unique keys and the row of `entry`, whose blob is there.
abbrev Has : CacheEntry → List Row → List Object → Type 0
Has entry rows blobs =
    IsUnique rows
    × ((r : Row) × In r rows × (same_ref r.ref entry.ref ≡ true) × (r.digest ≡ entry.digest))
    × (exists entry.digest blobs ≡ true)

finished-Has :
    (w : Faults) (entry : CacheEntry) (c : Cache)
    → Has entry c.rows c.blobs
    → Has entry (enforce_capacity w entry.ref c).0.rows (enforce_capacity w entry.ref c).0.blobs
finished-Has w entry c (u, (r, m, same, digest), there) =
    let (v, n) = enforce_capacity-Kept w entry.ref r c u m (inl same) in
    (
      v,
      (r, n, same, digest),
      subst (λ d. exists d (enforce_capacity w entry.ref c).0.blobs ≡ true) digest
          (enforce_capacity-exists w entry.ref r c
            (subst (λ d. exists d c.blobs ≡ true) (sym digest) there) n),
    )

to_row-key :
    (entry : CacheEntry)
    → entry.protocol ≡ entry.ref.protocol
    → same_ref (to_row entry).ref entry.ref ≡ true
unfolding to_row
to_row-key entry p = (same_ref_iff (to_row entry).ref entry.ref).1 (ground arith, refl, refl)

merged-digest : (new : Row) (old : Option Row) → (merged new old).digest ≡ new.digest
merged-digest new none = refl
merged-digest new (some old) = refl

to_row-digest : (entry : CacheEntry) → (to_row entry).digest ≡ entry.digest
unfolding to_row
to_row-digest entry = refl

put-Has :
    (entry : CacheEntry) (rows : List Row) (blobs : List Object)
    → entry.protocol ≡ entry.ref.protocol
    → IsUnique rows
    → exists entry.digest blobs ≡ true
    → Has entry (put entry rows) blobs
unfolding put
put-Has entry rows blobs p u there =
    let new = to_row entry in
    let left = merged new (find_row new.ref rows) in
    let found : find_row new.ref (upsert new rows) ≡ some left =
      ground (arith, find-upsert new new.ref rows, same_ref_refl new.ref) in
    let (m, same) = find-In new.ref left (upsert new rows) found in
    (
      upsert-IsUnique new rows u,
      (
        left,
        m,
        sym (same_ref_trans left.ref new.ref entry.ref same) ∙ to_row-key entry p,
        merged-digest new (find_row new.ref rows) ∙ to_row-digest entry,
      ),
      there,
    )

to_entry-digest : (r : Row) → (to_entry r).digest ≡ r.digest
unfolding to_entry
to_entry-digest r = refl

agreed :
    (ref : ArtifactRef) (want got : String)
    → want ≡ got
    → ref.digest ≡ want ⊎ ref.digest ≡ ""
    → check_digest_pin ref got ≡ none
unfolding check_digest_pin
agreed ref want got e h = ground (arith, eq_iff ref.digest "", eq_iff ref.digest got)

Has-lookup :
    (ref : ArtifactRef) (entry : CacheEntry) (c : Cache)
    → entry.ref ≡ ref
    → ref.digest ≡ entry.digest ⊎ ref.digest ≡ ""
    → Has entry c.rows c.blobs
    → (e : CacheEntry) × (lookup_immutable no_faults ref c ≡ ok (some e))
      × (e.digest ≡ entry.digest)
unfolding lookup_immutable get
Has-lookup ref entry c same pin (u, (r, m, key, digest), there) =
    let found : find_row ref c.rows ≡ some r =
      sym (find_row-same r.ref ref c.rows (subst (λ k. same_ref r.ref k ≡ true) same key))
      ∙ In-find r c.rows u m in
    let here : exists (to_entry r).digest c.blobs ≡ true =
      subst (λ d. exists d c.blobs ≡ true) (sym (to_entry-digest r ∙ digest)) there in
    let agrees : check_digest_pin ref (to_entry r).digest ≡ none =
      agreed ref entry.digest (to_entry r).digest (sym (to_entry-digest r ∙ digest)) pin in
    (to_entry r, ground arith, to_entry-digest r ∙ digest)

-- If the call succeeded, the cache has the entry.
abbrev Succeeds : CacheEntry → Stored → Type 0
Succeeds entry out = (e : CacheEntry) → out.0 ≡ ok e → Has entry out.1.rows out.1.blobs

module _ (w : Faults) (now : ℤ) (ref : ArtifactRef) (art : Artifact) where
  indexed-Succeeds :
      (entry : CacheEntry) (mutable : Bool) (failed : Option String) (c : Cache)
      → Has entry c.rows c.blobs
      → Succeeds entry (indexed w now ref art entry mutable failed c)
  indexed-Succeeds entry false failed c h e q = finished-Has w entry c h
  indexed-Succeeds entry true (some x) c h e q = cc
  indexed-Succeeds entry true none c h e q =
      finished-Has w entry
        (record c {
          meta = record c.meta { mutables = put_mutable (index_entry ref art now) c.mutables };
        })
        h

  recorded-Succeeds :
      (entry : CacheEntry) (failed : Option String) (c : Cache)
      → entry.protocol ≡ entry.ref.protocol
      → IsUnique c.rows
      → exists entry.digest c.blobs ≡ true
      → Succeeds entry (recorded w now ref art entry failed c)
  unfolding dropped
  recorded-Succeeds entry (some x) c p u there e q = cc
  recorded-Succeeds entry none c p u there e q =
      indexed-Succeeds entry ref.mutable w.mutable_put
        (dropped art (record c { meta = record c.meta { rows = put entry c.rows } }))
        (put-Has entry c.rows c.blobs p u there) e q

  module _ (hash : String → List ℕ → String) (res : Result) (c : Cache) (u : IsUnique c.rows) where
    blobbed-Succeeds :
        (failed : Option String) (bytes : List ℕ) (p : Put)
        → put_blob hash art.digest bytes art.size c.blobs ≡ p
        → Succeeds
            (new_entry ref art res now)
            (blobbed w now ref art (new_entry ref art res now) failed p c)
    blobbed-Succeeds (some x) bytes p h e q = cc
    blobbed-Succeeds none bytes (refused x) h e q = cc
    blobbed-Succeeds none bytes (done blobs) h e q =
        recorded-Succeeds (new_entry ref art res now) w.meta_put (record c { blobs = blobs }) refl u
          (put_blob-exists hash art.digest art.digest bytes art.size c.blobs blobs h).0 e q

    opened-Succeeds :
        (failed : Option String) (f : Option (List ℕ))
        → Succeeds
            (new_entry ref art res now)
            (opened hash w now ref art (new_entry ref art res now) failed f c)
    opened-Succeeds (some x) f e q = cc
    opened-Succeeds none none e q = cc
    opened-Succeeds none (some bytes) e q =
        blobbed-Succeeds w.blob_put bytes (put_blob hash art.digest bytes art.size c.blobs) refl e q

    judged-Succeeds :
        (error : Option String) (status : Status)
        → Succeeds (new_entry ref art res now) (judged hash w now ref art error status res c)
    judged-Succeeds (some x) status e q = cc
    judged-Succeeds none fail e q = cc
    judged-Succeeds none pass e q = opened-Succeeds w.open_file (find_object art.path c.files) e q
    judged-Succeeds none warn e q = opened-Succeeds w.open_file (find_object art.path c.files) e q
    judged-Succeeds none skip e q = opened-Succeeds w.open_file (find_object art.path c.files) e q

-- After `storeOnce` succeeds, with capacity enforcement behind it, an immutable lookup that asks for the
-- artifact's digest or for none finds an entry with that digest, when the keys of the table are unique
-- and the stores answer.
pub store_once-lookup :
    (hash : String → List ℕ → String) (w : Faults) (now : ℤ) (ref : ArtifactRef) (art : Artifact)
    (vs : List (Verifier Store)) (c : Cache) (stored : CacheEntry)
    → IsUnique (verify ref art vs c.meta).state.rows
    → ref.digest ≡ art.digest ⊎ ref.digest ≡ ""
    → (store_once hash w now ref art vs c).0 ≡ ok stored
    → (e : CacheEntry) × (lookup_immutable no_faults ref (store_once hash w now ref art vs c).1
        ≡ ok (some e))
      × (e.digest ≡ art.digest)
unfolding store_once
store_once-lookup hash w now ref art vs c stored u pin h =
    let v = verify ref art vs c.meta in
    Has-lookup ref (new_entry ref art v.result now) (store_once hash w now ref art vs c).1 refl pin
      (judged-Succeeds w now ref art hash v.result (record c { meta = v.state }) u v.error
        v.result.status stored h)
