-- ===== src/Upload/Handler.antt =====
-- registry.go and discovery.go of internal/handler/registry: the upload handlers over SharedSessions.
-- What the authorizer answers is an argument, since RegistryAuthz models it; the handlers of one request
-- see one time. `parse` and `digest` are go-digest's `Parse` and hash, which are third-party: the
-- algorithm that a digest names, and the digest of bytes by an algorithm. Of a response, the status, the
-- error code and the end of the Range header are kept.
pub mod Untouched
pub mod Finishes
pub mod Manifest
pub mod Deletes
use specula.Prelude.{
  ℕ, ◌-◌, String, Bool, true, false, not, ◌&&◌, Option, none, some, List, ◌==◌, eqb, length,
  if◌then◌else◌, ◌⊎◌, inl, inr,
}
use specula.Prelude.Int.{ℤ, pos, negsuc, leb_ℤ}
use specula.Prelude.Text.{trim_space}
use specula.Prelude.Strings.{cut_prefix, cut_first, parse_int}
use specula.Artifact.{CacheEntry, checksum, origin_hosted}
use specula.Meta.{put}
use specula.Cache.{Object, reported, Put, done, refused, put_blob, exists}
use specula.Repo.{Repo}
use specula.Upload.{Session, Error, session_not_found, wrapped, Reply, got, lost, Disk, Env, Faults}
use specula.Upload.Shared.{create, get, append, open_chunks, content, read_all, abandon, complete}

pub record Response : Type 0 where
  pub status : ℕ
  pub error_code : String
  pub range_end : Option ℕ

-- An OCI error without headers.
abbrev pub fails : ℕ → String → Response
fails status code = record { status = status; error_code = code; range_end = none }

abbrev pub succeeds : ℕ → Option ℕ → Response
succeeds status range = record { status = status; error_code = ""; range_end = range }

-- What Authorize answers: the repository, or the class of its error.
pub data Authorized : Type 0 where
  allowed : Repo → Authorized
  forbidden unknown_repo authz_failed : Authorized

-- writeAuthzError
abbrev pub authz_error : Authorized → Response
authz_error (allowed r) = fails 500 "UNKNOWN"
authz_error forbidden = fails 403 "DENIED"
authz_error unknown_repo = fails 404 "NAME_UNKNOWN"
authz_error authz_failed = fails 500 "UNKNOWN"

-- `has_blobs` and `has_meta` say which stores the handler was given.
pub record Config : Type 0 where
  pub env : Env
  pub parse : String → Option String
  pub digest : String → List ℕ → String
  pub has_blobs : Bool
  pub has_meta : Bool

-- The last byte that a session with this many bytes has: offset - 1, or 0.
unfoldable pub range_end_of : ℕ → ℕ
range_end_of offset = offset - 1

-- The failures of the calls that one request makes.
pub record Calls : Type 0 where
  pub create : Faults
  pub get : Faults
  pub append : Faults
  pub reget : Faults
  pub read : Faults
  pub reread : Faults
  pub delete : Faults
  pub complete : Faults
  pub put : Option String
  pub record_blob : Option String

abbrev pub started : Reply Session × Disk → Response × Disk
started (lost e, d) = (fails 500 "BLOB_UPLOAD_INVALID", d)
started (got s, d) = (succeeds 202 (some 0), d)

-- startUpload, where `id` is the new random id.
unfoldable pub start_upload :
    Config → Calls → ℤ → Authorized → String → String → Disk → Response × Disk
start_upload cfg w now (allowed r) id name d = started (create cfg.env w.create now id name d)
start_upload cfg w now denied id name d = (authz_error denied, d)

abbrev session_error : Error → Response
session_error session_not_found = fails 404 "BLOB_UPLOAD_UNKNOWN"
session_error (wrapped what cause) = fails 500 "BLOB_UPLOAD_INVALID"

-- The session that a request names, if it is one of the repository.
abbrev pub looked_up : String → Reply Session → Response ⊎ Session
looked_up name (lost e) = inl (session_error e)
looked_up name (got s) = if s.repo == name then inr s else inl (fails 404 "BLOB_UPLOAD_UNKNOWN")

abbrev pub session_for : Config → Faults → ℤ → String → String → Disk → Response ⊎ Session
session_for cfg w now name uuid d = looked_up name (get cfg.env w now uuid d)

abbrev or_whole : String → Option (String × String) → String
or_whole s none = s
or_whole s (some (before, after)) = before

abbrev or_text : String → Option String → String
or_text s none = s
or_text s (some rest) = rest

abbrev ordered : Option ℤ → Option ℤ → Option (ℕ × ℕ)
ordered (some (pos a)) (some (pos b)) = if leb_ℤ (pos a) (pos b) then some (a, b) else none
ordered (some s) (some e) = none
ordered (some s) none = none
ordered none e = none

abbrev dashed : Option (String × String) → Option (ℕ × ℕ)
dashed none = none
dashed (some (a, b)) =
    if a == "" then none else ordered (parse_int (trim_space a)) (parse_int (trim_space b))

-- parseContentRange
unfoldable pub parse_content_range : String → Option (ℕ × ℕ)
parse_content_range v =
    let bare = or_text (trim_space v) (cut_prefix "bytes " (trim_space v)) in
    dashed (cut_first "-" (or_whole bare (cut_first "/" bare)))

abbrev pub gap : ℕ → Response
gap offset = record {
  status = 416;
  error_code = "BLOB_UPLOAD_INVALID";
  range_end = some (range_end_of offset);
}

abbrev contiguous : Option (ℕ × ℕ) → ℕ → Option Response
contiguous none offset = some (fails 400 "BLOB_UPLOAD_INVALID")
contiguous (some (start, end)) offset = if eqb start offset then none else some (gap offset)

-- checkChunkContiguous: the error response, if the chunk does not start at the offset.
unfoldable pub check_chunk : String → Session → Option Response
check_chunk header s =
    if header == "" then none else contiguous (parse_content_range header) s.offset

abbrev pub patched : (ℕ × Option Error) × Disk → Response × Disk
patched ((offset, some e), d) = (fails 500 "BLOB_UPLOAD_INVALID", d)
patched ((offset, none), d) = (succeeds 202 (some (range_end_of offset)), d)

abbrev pub patch_checked :
    Config → Faults → ℤ → String → List ℕ → Option Response → Disk → Response × Disk
patch_checked cfg w now uuid body (some r) d = (r, d)
patch_checked cfg w now uuid body none d = patched (append cfg.env w now uuid body d)

abbrev pub patch_session :
    Config → Faults → ℤ → String → String → List ℕ → Response ⊎ Session → Disk → Response × Disk
patch_session cfg w now uuid header body (inl r) d = (r, d)
patch_session cfg w now uuid header body (inr s) d =
    patch_checked cfg w now uuid body (check_chunk header s) d

-- patchUpload
unfoldable pub patch_upload :
    Config → Calls → ℤ → Authorized → String → String → String → List ℕ → Disk → Response × Disk
patch_upload cfg w now (allowed r) name uuid header body d =
    patch_session cfg w.append now uuid header body (session_for cfg w.get now name uuid d) d
patch_upload cfg w now denied name uuid header body d = (authz_error denied, d)

abbrev status_of : Response ⊎ Session → Response
status_of (inl r) = r
status_of (inr s) = succeeds 204 (some (range_end_of s.offset))

-- uploadStatus
unfoldable pub upload_status : Config → Calls → ℤ → Authorized → String → String → Disk → Response
upload_status cfg w now (allowed r) name uuid d = status_of (session_for cfg w.get now name uuid d)
upload_status cfg w now denied name uuid d = authz_error denied

-- recordHostedBlob: a failure is only logged.
abbrev pub hosted_entry : ℤ → String → String → ℕ → CacheEntry
hosted_entry now name d size = record {
  ref = record {
    protocol = "oci";
    name = name;
    version = d;
    digest = d;
    upstream = "";
    mutable = false;
  };
  digest = d;
  size = size;
  protocol = "oci";
  tier = checksum;
  upstream = "";
  etag = "";
  verified_at = now;
  created_at = now;
  origin = origin_hosted;
  soft_expired = false;
}

abbrev hosted : Bool → Option String → ℤ → String → String → ℕ → Disk → Disk
hosted false fault now name digest size d = d
hosted true (some e) now name digest size d = d
hosted true none now name digest size d = record d {
  meta = record d.meta { rows = put (hosted_entry now name digest size) d.rows };
}

unfoldable pub record_hosted_blob : Config → Option String → ℤ → String → String → ℕ → Disk → Disk
record_hosted_blob cfg fault now name digest size d =
    hosted cfg.has_meta fault now name digest size d

-- A failed completion: the session is abandoned, whether or not that succeeds.
abbrev pub dropped : Config → Calls → ℤ → String → Response → Disk → Response × Disk
dropped cfg w now uuid r d = (r, (abandon cfg.env w.delete now uuid d).1)

abbrev pub upload_error : Response
upload_error = fails 500 "BLOB_UPLOAD_INVALID"

-- The blob store reads the content only when it does not have the digest.
abbrev pub put_content : Config → Option String → String → Reply (List ℕ) → ℕ → List Object → Put
put_content cfg (some e) digest c size os = refused (reported e)
put_content cfg none digest (got bytes) size os = put_blob cfg.env.hash digest bytes size os
put_content cfg none digest (lost e) size os =
    if exists digest os then done os else refused (reported "read staged chunk")

abbrev pub stored : Config → Calls → ℤ → String → String → String → ℕ → Put → Disk → Response × Disk
stored cfg w now name uuid digest size (refused cause) d = dropped cfg w now uuid upload_error d
stored cfg w now name uuid digest size (done blobs) d = (
  succeeds 201 none,
  (complete cfg.env w.complete now uuid digest
      (record_hosted_blob cfg w.record_blob now name digest size (record d { blobs = blobs }))).1,
)

abbrev pub reopened :
    Config → Calls → ℤ → String → String → String → ℕ → Reply (List String) → Disk → Response × Disk
reopened cfg w now name uuid digest size (lost e) d = dropped cfg w now uuid upload_error d
reopened cfg w now name uuid digest size (got keys) d =
    stored cfg w now name uuid digest size
      (put_content cfg w.put digest (read_all w.reread keys d.blobs) size d.blobs) d

abbrev pub verified :
    Config → Calls → ℤ → String → String → String → ℕ → Bool → Disk → Response × Disk
verified cfg w now name uuid digest size false d =
    dropped cfg w now uuid (fails 501 "UNSUPPORTED") d
verified cfg w now name uuid digest size true d =
    reopened cfg w now name uuid digest size (open_chunks cfg.env w.reread now uuid d) d

-- `actual` is the digest of what was uploaded.
abbrev pub compared :
    Config → Calls → ℤ → String → String → String → String → ℕ → Disk → Response × Disk
compared cfg w now name uuid declared actual size d =
    if actual == declared
    then verified cfg w now name uuid actual size cfg.has_blobs d
    else dropped cfg w now uuid (fails 400 "DIGEST_INVALID") d

abbrev pub hashed :
    Config → Calls → ℤ → String → String → String → String → Reply (List ℕ) → Disk → Response × Disk
hashed cfg w now name uuid declared algorithm (lost e) d = dropped cfg w now uuid upload_error d
hashed cfg w now name uuid declared algorithm (got bytes) d =
    compared cfg w now name uuid declared (cfg.digest algorithm bytes) (length bytes) d

abbrev pub refetched :
    Config → Calls → ℤ → String → String → String → String → Reply Session → Disk → Response × Disk
refetched cfg w now name uuid declared algorithm (lost e) d = dropped cfg w now uuid upload_error d
refetched cfg w now name uuid declared algorithm (got s) d =
    hashed cfg w now name uuid declared algorithm (content cfg.env w.read now uuid d) d

abbrev pub closed :
    Config
    → Calls
    → ℤ
    → String
    → String
    → String
    → String
    → (ℕ × Option Error) × Disk
    → Response × Disk
closed cfg w now name uuid declared algorithm ((offset, some e), d) =
    dropped cfg w now uuid upload_error d
closed cfg w now name uuid declared algorithm ((offset, none), d) =
    refetched cfg w now name uuid declared algorithm (get cfg.env w.reget now uuid d) d

abbrev pub complete_checked :
    Config
    → Calls
    → ℤ
    → String
    → String
    → String
    → String
    → List ℕ
    → Option Response
    → Disk
    → Response × Disk
complete_checked cfg w now name uuid declared algorithm body (some r) d = (r, d)
complete_checked cfg w now name uuid declared algorithm body none d =
    closed cfg w now name uuid declared algorithm (append cfg.env w.append now uuid body d)

abbrev pub complete_session :
    Config
    → Calls
    → ℤ
    → String
    → String
    → String
    → String
    → String
    → List ℕ
    → Response ⊎ Session
    → Disk
    → Response × Disk
complete_session cfg w now name uuid declared algorithm header body (inl r) d = (r, d)
complete_session cfg w now name uuid declared algorithm header body (inr s) d =
    complete_checked cfg w now name uuid declared algorithm body (check_chunk header s) d

abbrev pub complete_parsed :
    Config
    → Calls
    → ℤ
    → String
    → String
    → String
    → Option String
    → String
    → List ℕ
    → Disk
    → Response × Disk
complete_parsed cfg w now name uuid declared none header body d =
    dropped cfg w now uuid (fails 400 "DIGEST_INVALID") d
complete_parsed cfg w now name uuid declared (some algorithm) header body d =
    complete_session cfg w now name uuid declared algorithm header body
      (session_for cfg w.get now name uuid d) d

-- completeUpload, where `declared` is the digest of the query.
unfoldable pub complete_upload :
    Config
    → Calls
    → ℤ
    → Authorized
    → String
    → String
    → String
    → String
    → List ℕ
    → Disk
    → Response × Disk
complete_upload cfg w now (allowed r) name uuid declared header body d =
    if declared == ""
    then (fails 400 "DIGEST_INVALID", d)
    else complete_parsed cfg w now name uuid declared (cfg.parse declared) header body d
complete_upload cfg w now denied name uuid declared header body d = (authz_error denied, d)
