-- ===== src/Cache.antt =====
-- internal/cache: the two-tier cache. Its state is the metadata store, the content-addressed blobs
-- and the quarantine files; every operation is a function on that state. A call of a store or of the
-- file system that fails is an entry of `Faults`, which each operation takes.
pub mod Fresh
pub mod Blobs
pub mod Lookup
pub mod Evict
pub mod Promote
use specula.Prelude.{
  ℕ, String, Bool, true, false, ◌||◌, Option, none, some, List, [], ◌∷◌, ◌==◌, if◌then◌else◌, not,
  eqb, length,
}
use specula.Prelude.Int.{ℤ, pos, pos_part}
use specula.Artifact.{ArtifactRef, CacheEntry, Result}
use specula.Meta.{Store}

-- A file or an object, by its path or its digest.
pub record Object : Type 0 where
  pub name : String
  pub bytes : List ℕ

unfoldable pub find_object : String → List Object → Option (List ℕ)
find_object k [] = none
find_object k (o ∷ os) = if o.name == k then some o.bytes else find_object k os

unfoldable pub remove : String → List Object → List Object
remove k [] = []
remove k (o ∷ os) = let rest = remove k os in if o.name == k then rest else o ∷ rest

-- Why a call failed: what a store or the file system reports, or what the blob store finds.
pub data Cause : Type 0 where
  reported : String → Cause
  size_mismatch : ℕ → ℕ → Cause
  digest_mismatch : String → Cause

pub data Put : Type 0 where
  done : List Object → Put
  refused : Cause → Put

-- LocalDiskDriver.Put, where `hash` digests the bytes with the algorithm that the digest names. The
-- blob store keeps what it has: a second put of a digest reads nothing. An object is kept under the whole
-- text of its digest; the source's file name drops the algorithm.
unfoldable pub put_blob : (String → List ℕ → String) → String → List ℕ → ℕ → List Object → Put
unfolding find_object
put_blob hash d bytes size os = elim (find_object d os) [
  | some b ↦ done os
  | none ↦
      if not (eqb (length bytes) size)
      then refused (size_mismatch size (length bytes))
      else if not (hash d bytes == d)
      then refused (digest_mismatch d)
      else done (record { name = d; bytes = bytes } ∷ os)
]

unfoldable pub exists : String → List Object → Bool
unfolding find_object
exists d os = elim (find_object d os) [ none ↦ false | some b ↦ true ]

-- `max_bytes` 0 is unlimited.
pub record Cache : Type 0 where
  pub meta : Store
  pub open meta use {rows, mutables}
  pub blobs : List Object
  pub files : List Object
  pub max_bytes : ℕ

-- WithMaxBytes and SetMaxBytes: a negative ceiling is none.
unfoldable pub set_max_bytes : ℤ → Cache → Cache
set_max_bytes n c = record c { max_bytes = pos_part n }

pub data Error : Type 0 where
  miss : Error
  verify_failed : ArtifactRef → Result → Error
  pin_mismatch : ArtifactRef → String → String → Error
  wrapped : String → Cause → Error

pub data Outcome (A : Type 0) : Type 0 where
  ok : A → Outcome A
  err : Error → Outcome A

-- The errors of the calls that one operation makes; `none` where the call succeeds. A call that is
-- made once for each of several entries fails by its argument.
pub record Faults : Type 0 where
  pub get : Option String
  pub get_mutable : Option String
  pub blob_exists : Option String
  pub open_file : Option String
  pub blob_put : Option String
  pub meta_put : Option String
  pub mutable_put : Option String
  pub size : Option String
  pub list : Option String
  pub delete : ArtifactRef → Option String
  pub count_refs : String → Bool
  pub blob_delete : String → Bool
  pub blob_get : Option String

abbrev pub no_faults : Faults
no_faults = record {
  get = none;
  get_mutable = none;
  blob_exists = none;
  open_file = none;
  blob_put = none;
  meta_put = none;
  mutable_put = none;
  size = none;
  list = none;
  delete = λ r. none;
  count_refs = λ d. false;
  blob_delete = λ d. false;
  blob_get = none;
}
