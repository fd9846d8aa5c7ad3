-- ===== src/Cache/Lookup.antt =====
-- internal/cache/cache.go: `Lookup`, `LookupStale`, `Serve` and `ServeEntry`. The clock, the random
-- draw and the failures of the stores are arguments.
pub mod Pins
pub mod Staleness
use specula.Prelude.{
  ℕ, String, Bool, true, false, not, ◌||◌, Option, none, some, List, [], ◌∷◌, ◌==◌, if◌then◌else◌,
  take, length, leb, ltb,
}
use Prim.Native.String.{◌++◌}
use specula.Prelude.Int.{ℤ, pos, negsuc, pos_part}
use specula.Prelude.Text.{folded_contains}
use specula.Artifact.{ArtifactRef, CacheEntry, MutableEntry, checksum}
use specula.Meta.{get, get_mutable}
use specula.Meta.Listing.{drop}
use specula.Cache.{
  Object, Cache, Faults, Error, miss, pin_mismatch, wrapped, Cause, reported, Outcome, ok, err,
  exists, find_object,
}
use specula.Cache.Fresh.{Floats, is_hard_expired_at, is_mutable_fresh_at}

-- ref.Protocol + ":" + ref.Name + ":" + ref.Version
unfoldable pub mutable_key : ArtifactRef → String
mutable_key ref = ref.protocol ++ (":" ++ (ref.name ++ (":" ++ ref.version)))

-- What contradicts the digest that the caller asks for, if anything.
unfoldable pub check_digest_pin : ArtifactRef → String → Option Error
check_digest_pin ref got =
    if ref.digest == "" || ref.digest == got then none else some (pin_mismatch ref ref.digest got)

-- The blob is there and the caller's pin agrees, or why not.
abbrev pub guarded :
    String → Option String → Bool → Option Error → CacheEntry → Outcome (Option CacheEntry)
guarded what (some e) there pin entry = err (wrapped what (reported e))
guarded what none false pin entry = ok none
guarded what none true none entry = ok (some entry)
guarded what none true (some e) entry = err e

unfoldable pub lookup_immutable : Faults → ArtifactRef → Cache → Outcome (Option CacheEntry)
unfolding get exists check_digest_pin
lookup_immutable w ref c = elim w.get [
  | some e ↦ err (wrapped "meta get" (reported e))
  | none ↦ elim (get ref c.rows) [
    | none ↦ ok none
    | some entry ↦
        guarded "blob exists" w.blob_exists (exists entry.digest c.blobs)
          (check_digest_pin ref entry.digest) entry
  ]
]

-- The entry that stands for a mutable one.
abbrev pub entry_of : ArtifactRef → MutableEntry → Bool → CacheEntry
entry_of ref me soft = record {
  ref = ref;
  digest = me.digest;
  size = 0;
  protocol = me.protocol;
  tier = checksum;
  upstream = me.upstream;
  etag = me.etag;
  verified_at = me.fetched_at;
  created_at = me.fetched_at;
  origin = "";
  soft_expired = soft;
}

-- The checks on a mutable entry that may be returned.
unfoldable pub found_mutable :
    Faults → ArtifactRef → Cache → MutableEntry → Bool → Outcome (Option CacheEntry)
unfolding exists check_digest_pin
found_mutable w ref c me soft =
    if me.digest == ""
    then guarded "mutable blob exists" none true (check_digest_pin ref me.digest)
        (entry_of ref me soft)
    else guarded "mutable blob exists" w.blob_exists (exists me.digest c.blobs)
        (check_digest_pin ref me.digest) (entry_of ref me soft)

module _ (f : Floats) (w : Faults) (now : ℤ) (u : f.Float) where
  unfoldable pub lookup_mutable : ArtifactRef → Bool → Cache → Outcome (Option CacheEntry)
  unfolding mutable_key get_mutable is_hard_expired_at is_mutable_fresh_at found_mutable
  lookup_mutable ref allow_stale c = elim w.get_mutable [
    | some e ↦ err (wrapped "mutable meta get" (reported e))
    | none ↦ elim (get_mutable (mutable_key ref) c.mutables) [
      | none ↦ ok none
      | some me ↦
          if allow_stale
          then found_mutable w ref c me false
          else if is_hard_expired_at me now
          then ok none
          else found_mutable w ref c me (not (is_mutable_fresh_at f me now u))
    ]
  ]

  unfoldable pub lookup : ArtifactRef → Cache → Outcome (Option CacheEntry)
  unfolding lookup_mutable lookup_immutable
  lookup ref c = if ref.mutable then lookup_mutable ref false c else lookup_immutable w ref c

  unfoldable pub lookup_stale : ArtifactRef → Cache → Outcome (Option CacheEntry)
  unfolding lookup_mutable
  lookup_stale ref c = lookup_mutable ref true c

-- `length` bytes at most, all if it is negative, from `offset`.
abbrev pub limited : ℤ → List ℕ → List ℕ
limited (pos n) bytes = take n bytes
limited (negsuc n) bytes = bytes

abbrev pub ranged : ℤ → ℤ → List ℕ → List ℕ
ranged offset n bytes = limited n (drop (pos_part offset) bytes)

-- Whether the text of an error of the blob store says that the object is not there.
unfoldable pub is_blob_missing : String → Bool
is_blob_missing e =
    folded_contains e "no such key"
    || folded_contains e "nosuchkey"
    || folded_contains e "not found"
    || folded_contains e "notfound"
    || folded_contains e "no such file"

unfoldable pub serve_mutable_payload : Faults → ArtifactRef → ℤ → ℤ → Cache → Outcome (List ℕ)
unfolding mutable_key get_mutable
serve_mutable_payload w ref offset n c = elim w.get_mutable [
  | some e ↦ err (wrapped "mutable get for payload serve" (reported e))
  | none ↦ elim (get_mutable (mutable_key ref) c.mutables) [
    | none ↦ err miss
    | some me ↦ elim me.payload [ [] ↦ err miss | x ∷ xs ↦ ok (ranged offset n (x ∷ xs)) ]
  ]
]

unfoldable pub serve_entry : Faults → Option CacheEntry → ℤ → ℤ → Cache → Outcome (List ℕ)
unfolding find_object is_blob_missing serve_mutable_payload
serve_entry w none offset n c = err miss
serve_entry w (some entry) offset n c =
    if entry.digest == "" then serve_mutable_payload w entry.ref offset n c else elim w.blob_get [
      | some e ↦ if is_blob_missing e then err miss else err (wrapped "blob get" (reported e))
      | none ↦ elim (find_object entry.digest c.blobs) [
        | none ↦ err miss
        | some bytes ↦ ok (ranged offset n bytes)
      ]
    ]

-- The bytes with the entry that they belong to.
abbrev paired : Option CacheEntry → Outcome (List ℕ) → Outcome (List ℕ × Option CacheEntry)
paired entry (ok bytes) = ok (bytes, entry)
paired entry (err e) = err e

-- The words that `Serve` puts before the error of a lookup are left out.
unfoldable pub serve :
    (f : Floats)
    → Faults
    → ℤ
    → f.Float
    → ArtifactRef
    → ℤ
    → ℤ
    → Cache
    → Outcome (List ℕ × Option CacheEntry)
unfolding lookup serve_entry
serve f w now u ref offset n c = elim (lookup f w now u ref c) [
  | err e ↦ err e
  | ok entry ↦ paired entry (serve_entry w entry offset n c)
]
