-- ===== src/Upload/Handler/Manifest.antt =====
-- registry.go, manifest_refs.go and discovery.go of internal/handler/registry: what a manifest push
-- writes. JSON decoding is a parameter: the digests that a body references, the fields that the
-- referrers index needs, and the index blob. Of a descriptor, the digest and the artifact type are
-- kept, and the rest is one text.
pub mod Grows
pub mod Accepts
use specula.Prelude.{
  ℕ, ◌*◌, ◌^◌, String, Bool, true, false, not, ◌&&◌, Option, none, some, List, [], ◌∷◌, ◌++◌, ◌==◌,
  any, eqb, leb, length, if◌then◌else◌,
}
use specula.Prelude.Int.{ℤ, minus_one}
use specula.Prelude.Text.{trim_space}
use specula.Prelude.Strings.{cut_first}
use specula.Artifact.{MutableEntry}
use specula.Meta.{get_mutable, put_mutable}
use specula.Cache.{Object, find_object, Put, done, refused, put_blob, exists}
use specula.Repo.{Repo}
use specula.Repo.Tags.{Tag, put_tag}
use specula.Upload.{Disk}
use specula.Upload.Handler.{
  Response, fails, succeeds, Authorized, allowed, authz_error, Config, record_hosted_blob,
}

pub record Descriptor : Type 0 where
  pub digest : String
  pub artifact_type : String
  pub rest : String

-- A manifest that refers to a subject: its own descriptor, and the subject's digest.
pub record Referral : Type 0 where
  pub descriptor : Descriptor
  pub subject : String

-- What JSON decoding gives. `references` is in the order of the fields: config, layers, manifests and
-- subject; `none` is a body that is no JSON object.
pub record Codec : Type 0 where
  pub references : List ℕ → Option (List String)
  pub referral : List ℕ → Option Referral
  pub encode_index : List Descriptor → List ℕ
  pub decode_index : List ℕ → Option (List Descriptor)

pub record Registry : Type 0 where
  pub disk : Disk
  pub tags : List Tag

pub record ManifestFaults : Type 0 where
  pub read_body : Bool
  pub probe : String → Bool
  pub put : Bool
  pub record_blob : Option String
  pub put_tag : Bool
  pub record_tag : Bool
  pub get_index : Bool
  pub read_index : Bool
  pub put_index : Bool
  pub record_index : Option String
  pub point_index : Bool

-- 4 << 20
abbrev pub max_manifest_bytes : ℕ
max_manifest_bytes = 4 * 2 ^ 20

-- readLimited, of a body that can be read
unfoldable pub read_limited : ℕ → List ℕ → Option (List ℕ)
read_limited limit body = if leb (length body) limit then some body else none

-- The unique digests that are not blank, in order.
abbrev gather : List String → List String → List String
gather seen [] = []
gather seen (raw ∷ rest) =
    let d = trim_space raw in
    let others = gather (d ∷ seen) rest in
    let same = gather seen rest in
    if d == "" then same else if any (λ s. s == d) seen then same else d ∷ others

unfoldable pub referenced_blob_digests : Codec → List ℕ → List String
referenced_blob_digests codec body = elim (codec.references body) [
  | none ↦ []
  | some ds ↦ gather [] ds
]

-- A failed check, the first digest that is missing, or neither.
pub data Existence : Type 0 where
  check_failed : Existence
  absent : String → Existence
  present : Existence

abbrev pub all_exist :
    (String → Option String) → (String → Bool) → List Object → List String → Existence
all_exist parse probe os [] = present
all_exist parse probe os (d ∷ ds) =
    let rest = all_exist parse probe os ds in
    elim (parse d) [
      | none ↦ absent d
      | some a ↦ if probe d then check_failed else if exists d os then rest else absent d
    ]

unfoldable pub ensure_referenced_blobs_exist :
    Config → Codec → (String → Bool) → List Object → List ℕ → Existence
unfolding referenced_blob_digests
ensure_referenced_blobs_exist cfg codec probe os body =
    all_exist cfg.parse probe os (referenced_blob_digests codec body)

-- isDigestRef: the reference has a ':'.
unfoldable pub is_digest_ref : String → Bool
is_digest_ref ref = elim (cut_first ":" ref) [ none ↦ false | some p ↦ true ]

-- The mutable pointer of a hosted tag or of an index: never revalidated.
abbrev pub pointer : ℤ → String → String → MutableEntry
pointer now key digest = record {
  key = key;
  protocol = "oci";
  digest = digest;
  payload = [];
  etag = "";
  last_modified = "";
  ttl_seconds = minus_one;
  upstream = "";
  fetched_at = now;
}

abbrev join : String → String → String
join a b = Prim.Native.String.◌++◌ a b

unfoldable pub hosted_tag_key : String → String → String
hosted_tag_key name tag = join "oci:" (join name (join ":" tag))

unfoldable pub referrers_key : String → String → String
referrers_key name subject = join "oci-referrers:" (join name (join ":" subject))

abbrev pub pointed : Bool → Bool → MutableEntry → Disk → Disk
pointed true false e d = record d { meta = record d.meta { mutables = put_mutable e d.mutables } }
pointed true true e d = d
pointed false fault e d = d

-- recordHostedTag
unfoldable pub record_hosted_tag : Config → Bool → ℤ → String → String → String → Disk → Disk
unfolding hosted_tag_key
record_hosted_tag cfg fault now name tag digest d =
    pointed cfg.has_meta fault (pointer now (hosted_tag_key name tag) digest) d

-- The descriptor replaces the first one of the same digest, or is added.
unfoldable pub add_descriptor : Descriptor → List Descriptor → List Descriptor
add_descriptor new [] = new ∷ []
add_descriptor new (x ∷ xs) =
    let rest = add_descriptor new xs in if x.digest == new.digest then new ∷ xs else x ∷ rest

abbrev or_empty : Option (List Descriptor) → List Descriptor
or_empty none = []
or_empty (some ds) = ds

abbrev index_bytes : Codec → Bool → Option (List ℕ) → List Descriptor
index_bytes codec true b = []
index_bytes codec false none = []
index_bytes codec false (some b) = or_empty (codec.decode_index b)

abbrev index_at : Codec → Bool → Option MutableEntry → List Object → List Descriptor
index_at codec fault none os = []
index_at codec fault (some e) os =
    if e.digest == "" then [] else index_bytes codec fault (find_object e.digest os)

-- loadReferrers, as recordReferrer uses it: what cannot be read is an empty index.
unfoldable pub load_referrers : Codec → ManifestFaults → String → String → Disk → List Descriptor
unfolding referrers_key
load_referrers codec w name subject d =
    if w.get_index
    then []
    else index_at codec w.read_index (get_mutable (referrers_key name subject) d.mutables) d.blobs

abbrev indexed :
    Config → ManifestFaults → ℤ → String → String → String → ℕ → Bool → Put → Disk → Disk
indexed cfg w now name subject digest size true p d = d
indexed cfg w now name subject digest size false (refused cause) d = d
indexed cfg w now name subject digest size false (done blobs) d =
    pointed true w.point_index (pointer now (referrers_key name subject) digest)
      (record_hosted_blob cfg w.record_index now name digest size (record d { blobs = blobs }))

-- storeReferrers
unfoldable pub store_referrers :
    Config → Codec → ManifestFaults → ℤ → String → String → List Descriptor → Disk → Disk
store_referrers cfg codec w now name subject index d =
    let bytes = codec.encode_index index in
    let digest = cfg.digest "sha256" bytes in
    indexed cfg w now name subject digest (length bytes) w.put_index
      (put_blob cfg.env.hash digest bytes (length bytes) d.blobs) d

unfoldable pub record_referrer :
    Config → Codec → ManifestFaults → ℤ → String → Descriptor → String → Disk → Disk
unfolding store_referrers load_referrers add_descriptor
record_referrer cfg codec w now name desc subject d =
    if cfg.has_meta && cfg.has_blobs
    then store_referrers cfg codec w now name subject
        (add_descriptor desc (load_referrers codec w name subject d)) d
    else d

abbrev pub referred :
    Config
    → Codec
    → ManifestFaults
    → ℤ
    → String
    → String
    → Option Referral
    → Registry
    → Response × Registry
referred cfg codec w now name computed none s = (succeeds 201 none, s)
referred cfg codec w now name computed (some m) s = (
  succeeds 201 none,
  if m.subject == "" then s else record s {
    disk =
        record_referrer cfg codec w now name (record m.descriptor { digest = computed }) m.subject
          s.disk;
  },
)

abbrev pub manifest_error : Response
manifest_error = fails 500 "MANIFEST_INVALID"

-- A tag push writes the tag's row and its mirror; a push by digest does not.
abbrev pub tagged :
    Config
    → Codec
    → ManifestFaults
    → ℤ
    → Repo
    → String
    → String
    → String
    → List ℕ
    → Bool
    → Bool
    → Registry
    → Response × Registry
tagged cfg codec w now r name ref computed body true fault s =
    referred cfg codec w now name computed (codec.referral body) s
tagged cfg codec w now r name ref computed body false true s = (manifest_error, s)
tagged cfg codec w now r name ref computed body false false s =
    referred cfg codec w now name computed (codec.referral body) (record {
      disk = record_hosted_tag cfg w.record_tag now name ref computed s.disk;
      tags = put_tag now r.id ref computed s.tags;
    })

abbrev pub kept :
    Config
    → Codec
    → ManifestFaults
    → ℤ
    → Repo
    → String
    → String
    → String
    → List ℕ
    → Bool
    → Put
    → Registry
    → Response × Registry
kept cfg codec w now r name ref computed body true p s = (manifest_error, s)
kept cfg codec w now r name ref computed body false (refused cause) s = (manifest_error, s)
kept cfg codec w now r name ref computed body false (done blobs) s =
    tagged cfg codec w now r name ref computed body (is_digest_ref ref) w.put_tag (record s {
      disk =
          record_hosted_blob cfg w.record_blob now name computed (length body)
            (record s.disk { blobs = blobs });
    })

abbrev pub referenced :
    Config
    → Codec
    → ManifestFaults
    → ℤ
    → Repo
    → String
    → String
    → String
    → List ℕ
    → Existence
    → Registry
    → Response × Registry
referenced cfg codec w now r name ref computed body check_failed s = (fails 500 "UNKNOWN", s)
referenced cfg codec w now r name ref computed body (absent d) s =
    (fails 400 "MANIFEST_BLOB_UNKNOWN", s)
referenced cfg codec w now r name ref computed body present s =
    kept cfg codec w now r name ref computed body w.put
      (put_blob cfg.env.hash computed body (length body) s.disk.blobs) s

-- `algorithm` is none for a reference that does not parse as the digest that it should be.
abbrev pub digested :
    Config
    → Codec
    → ManifestFaults
    → ℤ
    → Repo
    → String
    → String
    → List ℕ
    → Option String
    → Registry
    → Response × Registry
digested cfg codec w now r name ref body none s = (fails 400 "DIGEST_INVALID", s)
digested cfg codec w now r name ref body (some algorithm) s =
    let computed = cfg.digest algorithm body in
    if is_digest_ref ref && not (ref == computed)
    then (fails 400 "DIGEST_INVALID", s)
    else referenced cfg codec w now r name ref computed body
        (ensure_referenced_blobs_exist cfg codec w.probe s.disk.blobs body) s

abbrev pub bounded :
    Config
    → Codec
    → ManifestFaults
    → ℤ
    → Repo
    → String
    → String
    → Option (List ℕ)
    → Registry
    → Response × Registry
bounded cfg codec w now r name ref none s = (fails 400 "MANIFEST_INVALID", s)
bounded cfg codec w now r name ref (some []) s = (fails 400 "MANIFEST_INVALID", s)
bounded cfg codec w now r name ref (some (b ∷ bs)) s =
    digested cfg codec w now r name ref (b ∷ bs)
      (if is_digest_ref ref then cfg.parse ref else some "sha256") s

unfoldable pub put_manifest :
    Config
    → Codec
    → ManifestFaults
    → ℤ
    → Authorized
    → String
    → String
    → List ℕ
    → Registry
    → Response × Registry
put_manifest cfg codec w now (allowed r) name ref body s =
    if cfg.has_blobs
    then bounded cfg codec w now r name ref
        (if w.read_body then none else read_limited max_manifest_bytes body) s
    else (fails 501 "UNSUPPORTED", s)
put_manifest cfg codec w now denied name ref body s = (authz_error denied, s)
