-- ===== src/Artifact.antt =====
-- pkg/artifact/types.go: the types that every part of the proxy shares. A time is a number of
-- nanoseconds since the Unix epoch, and `none` where Go's zero time means "unknown". The message of a
-- result is kept as data, one constructor for each format string; attachments and the reported
-- content type of an upstream are left out, since nothing modelled reads them.
use specula.Prelude.{ℕ, String, Bool, List, Option, ◌==◌, if◌then◌else◌}
use specula.Prelude.Int.{ℤ}

pub data Tier : Type 0 where
  checksum tofu consensus signed : Tier

-- The position of the constant in Go's `iota` order.
abbrev pub rank : Tier → ℕ
rank checksum = 0
rank tofu = 1
rank consensus = 2
rank signed = 3

pub data Status : Type 0 where
  pass warn fail skip : Status

pub record ArtifactRef : Type 0 where
  pub protocol : String
  pub name : String
  pub version : String
  pub digest : String
  pub upstream : String
  pub mutable : Bool

pub record UpstreamMeta : Type 0 where
  pub etag : String
  pub last_modified : String
  pub upstream : String
  pub published_at : Option ℤ

pub record Artifact : Type 0 where
  pub path : String
  pub digest : String
  pub size : ℕ
  pub meta : UpstreamMeta

-- What a result says, by the format string that makes the text.
pub data Note : Type 0 where
  tagged : String → Note → Note
  no_verifiers : Note
  verifier_error : String → String → Note
  digest_empty : Note
  no_reference : String → Note
  digest_mismatch : String → String → Note
  digest_verified : String → Note
  tofu_mutable : Note
  tofu_read_error : String → String → Note
  tofu_pin_error : String → String → Note
  first_lock : String → String → Note
  digest_changed : String → String → String → Note
  digest_confirmed : String → String → Note
  maturity_unconfigured maturity_mutable publish_time_unknown : Note
  mature : ℤ → ℤ → Note
  too_young : ℤ → ℤ → Note
  consensus_skipped no_fetcher : Note
  origin_disagrees : String → String → Note
  none_reached : Note
  quorum_not_met : ℕ → Note
  split_brain : List String → Note
  body_mismatch : String → String → Note
  mirrors_agreed : ℕ → String → Note

pub record Result : Type 0 where
  pub status : Status
  pub tier : Tier
  pub message : List Note
  pub retryable : Bool

pub record CacheEntry : Type 0 where
  pub ref : ArtifactRef
  pub digest : String
  pub size : ℕ
  pub protocol : String
  pub tier : Tier
  pub upstream : String
  pub etag : String
  pub verified_at : ℤ
  pub created_at : ℤ
  pub origin : String
  pub soft_expired : Bool

abbrev pub origin_cached : String
origin_cached = "cached"

abbrev pub origin_hosted : String
origin_hosted = "hosted"

unfoldable pub normalize_origin : String → String
normalize_origin o = if o == origin_hosted then origin_hosted else origin_cached

pub record MutableEntry : Type 0 where
  pub key : String
  pub protocol : String
  pub digest : String
  pub payload : List ℕ
  pub etag : String
  pub last_modified : String
  pub ttl_seconds : ℤ
  pub upstream : String
  pub fetched_at : ℤ
