-- ===== src/Examples.antt =====
-- The theorems at concrete inputs, and the data that these share.
pub mod Caching
pub mod Evicting
pub mod Access
pub mod Registry
pub mod Verifying
pub mod Tables
pub mod Uploading
pub mod Deciding
pub mod Locking
use specula.Prelude.{
  leb, refl, ℕ, String, Bool, true, false, none, List, [], ◌∷◌, length, eqb, if◌then◌else◌,
}
use specula.Prelude.Int.{ℤ, pos}
use specula.Artifact.{ArtifactRef, Artifact, UpstreamMeta, MutableEntry, checksum, origin_cached}
use specula.Meta.{Row, Store, find_row, same_ref}
use specula.Meta.Rows.{IsUnique}
use specula.Cache.Fresh.{Floats}
use specula.Verify.{Verifier}
use specula.Verify.Tofu
use specula.Verify.Tofu.{meta_tofu_store}
use specula.Cache.{Object, Cache}

abbrev pub six : ArtifactRef
six = record {
  protocol = "pypi";
  name = "six";
  version = "1.16";
  digest = "";
  upstream = "pypi.org";
  mutable = false;
}

-- The same version, asked for by its digest.
abbrev pub six_pinned : ArtifactRef
six_pinned = record six { digest = "d1" }

abbrev pub upstream_meta : UpstreamMeta
upstream_meta = record { etag = ""; last_modified = ""; upstream = "pypi.org"; published_at = none }

abbrev pub wheel : Artifact
wheel = record { path = "/quarantine/1"; digest = "d1"; size = 2; meta = upstream_meta }

-- A digest by length, which the example needs nothing more of.
abbrev pub toy_hash : String → List ℕ → String
toy_hash d bytes = if eqb (length bytes) 2 then "d1" else "d2"

abbrev pub bytes_of_wheel : List ℕ
bytes_of_wheel = 80 ∷ 75 ∷ []

-- Trust on first use over the mutable table.
abbrev pub tofu_chain : List (Verifier Store)
tofu_chain = Tofu.verifier (meta_tofu_store none (pos 0)) ∷ []

abbrev pub row_at : String → String → ℕ → ℤ → Row
row_at name digest size created = record {
  ref = record six { name = name };
  digest = digest;
  size = size;
  tier = checksum;
  upstream = "pypi.org";
  etag = "";
  verified_at = created;
  created_at = created;
  origin = origin_cached;
  pinned = false;
}

-- The wheel waits in quarantine, two entries are cached and three bytes are allowed.
abbrev pub small_cache : Cache
small_cache = record {
  meta = record {
    rows = row_at "old" "d3" 2 (pos 1) ∷ row_at "new" "d4" 1 (pos 2) ∷ [];
    mutables = [];
  };
  blobs = record { name = "d3"; bytes = 1 ∷ [] } ∷ record { name = "d4"; bytes = [] } ∷ [];
  files = record { name = "/quarantine/1"; bytes = bytes_of_wheel } ∷ [];
  max_bytes = 3;
}

-- Numbers 0 to 2 stand for the draws, with the logarithm of each taken as 0.
abbrev pub toy_floats : Floats
toy_floats = record {
  Float = ℕ;
  not_positive = λ u. eqb u 0;
  at_least_one = λ u. leb 2 u;
  tiny = 1;
  almost_one = 1;
  scaled_log = λ d u. pos 0;
}

pub small-IsUnique : IsUnique small_cache.rows
unfolding find_row same_ref
small-IsUnique = (refl, (refl, tt))
