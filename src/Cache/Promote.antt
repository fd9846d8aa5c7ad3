-- ===== src/Cache/Promote.antt =====
-- internal/cache/cache.go: `storeOnce`, verify-on-write. The quarantined file is verified; then the
-- blob is put before the metadata, the index entry of a mutable reference after it, and the capacity
-- is enforced last. The verifiers run on the metadata store, where the pins are. The hooks that count
-- evictions and verifications are left out, and so is the coalescing of equal calls.
pub mod Stages
pub mod Rejected
pub mod Sound
pub mod Backed
pub mod RoundTrip
pub mod Succeeds
pub mod Publishes
use specula.Prelude.{ℕ, String, Bool, true, false, Option, none, some, List, []}
use specula.Prelude.Int.{ℤ}
use specula.Artifact.{
  Status, pass, warn, fail, skip, ArtifactRef, Artifact, Result, CacheEntry, MutableEntry,
  origin_cached,
}
use specula.Meta.{Store, put, put_mutable}
use specula.Verify.{Verifier}
use specula.Verify.Chain.{verify}
use specula.Cache.{
  Object, find_object, remove, Put, done, refused, put_blob, Cache, Faults, Error, verify_failed,
  wrapped, Cause, reported, Outcome, ok, err,
}
use specula.Cache.Fresh.{ttl_always_revalidate}
use specula.Cache.Lookup.{mutable_key}
use specula.Cache.Evict.{enforce_capacity}

-- What an operation returns, and the cache after it.
abbrev pub Stored : Type 0
Stored = Outcome CacheEntry × Cache

abbrev pub new_entry : ArtifactRef → Artifact → Result → ℤ → CacheEntry
new_entry ref art res now = record {
  ref = ref;
  digest = art.digest;
  size = art.size;
  protocol = ref.protocol;
  tier = res.tier;
  upstream = art.meta.upstream;
  etag = art.meta.etag;
  verified_at = now;
  created_at = now;
  origin = "";
  soft_expired = false;
}

unfoldable pub index_entry : ArtifactRef → Artifact → ℤ → MutableEntry
unfolding mutable_key
index_entry ref art now = record {
  key = mutable_key ref;
  protocol = ref.protocol;
  digest = art.digest;
  payload = [];
  etag = art.meta.etag;
  last_modified = art.meta.last_modified;
  ttl_seconds = ttl_always_revalidate;
  upstream = art.meta.upstream;
  fetched_at = now;
}

-- os.Remove(art.Path)
unfoldable pub dropped : Artifact → Cache → Cache
unfolding remove
dropped art c = record c { files = remove art.path c.files }

module _ (w : Faults) (now : ℤ) (ref : ArtifactRef) (art : Artifact) where
  -- A failure of the capacity enforcement is only logged.
  abbrev pub finished : CacheEntry → Cache → Stored
  finished entry c = (ok entry, (enforce_capacity w entry.ref c).0)

  -- By whether the reference is mutable and the error of PutMutable.
  abbrev pub indexed : CacheEntry → Bool → Option String → Cache → Stored
  indexed entry false failed c = finished entry c
  indexed entry true (some e) c = (err (wrapped "mutable meta put" (reported e)), c)
  indexed entry true none c = finished entry (record c {
    meta = record c.meta { mutables = put_mutable (index_entry ref art now) c.mutables };
  })

  -- By the error of meta.Put.
  abbrev pub recorded : CacheEntry → Option String → Cache → Stored
  recorded entry (some e) c = (err (wrapped "meta put" (reported e)), dropped art c)
  recorded entry none c =
      indexed entry ref.mutable w.mutable_put
        (dropped art (record c { meta = record c.meta { rows = put entry c.rows } }))

  -- By the outcome of the blob store's Put.
  abbrev pub blobbed : CacheEntry → Option String → Put → Cache → Stored
  blobbed entry (some e) p c = (err (wrapped "blob put" (reported e)), dropped art c)
  blobbed entry none (refused x) c = (err (wrapped "blob put" x), dropped art c)
  blobbed entry none (done blobs) c = recorded entry w.meta_put (record c { blobs = blobs })

module _ (hash : String → List ℕ → String) (w : Faults) (now : ℤ) (ref : ArtifactRef)
    (art : Artifact) where
  -- By the outcome of os.Open.
  abbrev pub opened : CacheEntry → Option String → Option (List ℕ) → Cache → Stored
  opened entry (some e) f c = (err (wrapped "open quarantine" (reported e)), dropped art c)
  opened entry none none c =
      (err (wrapped "open quarantine" (reported "no such file or directory")), dropped art c)
  opened entry none (some bytes) c =
      blobbed w now ref art entry w.blob_put (put_blob hash art.digest bytes art.size c.blobs) c

  abbrev pub promote : Result → Cache → Stored
  promote res c = opened (new_entry ref art res now) w.open_file (find_object art.path c.files) c

  -- By the error of the chain and the status of its result.
  abbrev pub judged : Option String → Status → Result → Cache → Stored
  judged (some e) status res c = (err (wrapped "verify chain" (reported e)), dropped art c)
  judged none fail res c = (err (verify_failed ref res), dropped art c)
  judged none pass res c = promote res c
  judged none warn res c = promote res c
  judged none skip res c = promote res c

  unfoldable pub store_once : List (Verifier Store) → Cache → Stored
  unfolding verify index_entry dropped put put_mutable put_blob find_object enforce_capacity
  store_once vs c =
      let v = verify ref art vs c.meta in
      judged v.error v.result.status v.result (record c { meta = v.state })
