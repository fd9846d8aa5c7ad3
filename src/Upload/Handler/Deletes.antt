-- ===== src/Upload/Handler/Deletes.antt =====
-- registry.go of internal/handler/registry: deleting tags, manifests and blobs of a hosted repository.
pub mod Untags
use specula.Prelude.{
  ℕ, String, Bool, true, false, not, ◌&&◌, Option, none, some, List, [], ◌∷◌, ◌==◌, if◌then◌else◌,
}
use specula.Artifact.{ArtifactRef}
use specula.Meta.{delete, delete_mutable}
use specula.Cache.{remove, exists}
use specula.Repo.{Repo}
use specula.Repo.Tags.{Tag, list_tags, delete_tag}
use specula.Upload.{Disk}
use specula.Upload.Handler.{Response, fails, succeeds, Authorized, allowed, authz_error, Config}
use specula.Upload.Handler.Manifest.{Registry, is_digest_ref, hosted_tag_key}

-- The calls that fail. A tag that is not there is no failure.
pub record DeleteFaults : Type 0 where
  pub list_tags : Bool
  pub delete_tag : String → Bool
  pub delete_pointer : String → Bool
  pub delete_row : Bool
  pub probe : Bool
  pub delete_blob : Bool

-- removeHostedTag: a failure is only logged.
unfoldable pub remove_hosted_tag : Config → Bool → String → String → Disk → Disk
unfolding hosted_tag_key
remove_hosted_tag cfg fault name tag d =
    if cfg.has_meta && not fault
    then record d {
      meta = record d.meta { mutables = delete_mutable (hosted_tag_key name tag) d.mutables };
    }
    else d

abbrev hosted_ref : String → String → ArtifactRef
hosted_ref name digest = record {
  protocol = "oci";
  name = name;
  version = digest;
  digest = digest;
  upstream = "";
  mutable = false;
}

-- removeHostedBlob: a failure is only logged.
unfoldable pub remove_hosted_blob : Config → Bool → String → String → Disk → Disk
remove_hosted_blob cfg fault name digest d =
    if cfg.has_meta && not fault
    then record d { meta = record d.meta { rows = delete (hosted_ref name digest) d.rows } }
    else d

-- A tag and its mirror go.
abbrev pub untagged : Config → DeleteFaults → Repo → String → String → Registry → Registry
untagged cfg w r name tag s = record {
  disk = remove_hosted_tag cfg (w.delete_pointer tag) name tag s.disk;
  tags = delete_tag r.id tag s.tags;
}

-- The loop over the tags: whether a deletion failed, and what is left then.
unfoldable pub drop_tags :
    Config → DeleteFaults → Repo → String → String → List Tag → Registry → Bool × Registry
drop_tags cfg w r name digest [] s = (false, s)
drop_tags cfg w r name digest (t ∷ ts) s = elim (t.digest == digest) [
  | false ↦ drop_tags cfg w r name digest ts s
  | true ↦ elim (w.delete_tag t.tag) [
    | true ↦ (true, s)
    | false ↦ drop_tags cfg w r name digest ts (untagged cfg w r name t.tag s)
  ]
]

-- Without a blob store nothing is removed, and nothing fails.
abbrev pub bytes_removed : Bool → Bool → String → Disk → Bool × Disk
bytes_removed false fault digest d = (false, d)
bytes_removed true true digest d = (true, d)
bytes_removed true false digest d = (false, record d { blobs = remove digest d.blobs })

abbrev pub remove_bytes : Config → Bool → String → Disk → Bool × Disk
remove_bytes cfg fault digest d = bytes_removed cfg.has_blobs fault digest d

abbrev with_disk : Registry → Bool × Disk → Bool × Registry
with_disk s (failed, d) = (failed, record s { disk = d })

abbrev pub pointers_dropped :
    Config → DeleteFaults → String → String → Bool × Registry → Bool × Registry
pointers_dropped cfg w name digest (true, s) = (true, s)
pointers_dropped cfg w name digest (false, s) =
    with_disk s (
      remove_bytes cfg w.delete_blob digest
        (remove_hosted_blob cfg w.delete_row name digest s.disk))

-- deleteManifestByDigest: pointers first, bytes last.
unfoldable pub delete_manifest_by_digest :
    Config → DeleteFaults → Repo → String → String → Registry → Bool × Registry
unfolding drop_tags list_tags
delete_manifest_by_digest cfg w r name digest s =
    if w.list_tags
    then (true, s)
    else pointers_dropped cfg w name digest
        (drop_tags cfg w r name digest (list_tags r.id s.tags) s)

abbrev pub deleted : Bool × Registry → Response × Registry
deleted (true, s) = (fails 500 "MANIFEST_UNKNOWN", s)
deleted (false, s) = (succeeds 202 none, s)

abbrev pub untag : Config → DeleteFaults → Repo → String → String → Registry → Bool × Registry
untag cfg w r name ref s =
    if w.delete_tag ref then (true, s) else (false, untagged cfg w r name ref s)

unfoldable pub delete_manifest :
    Config → DeleteFaults → Authorized → String → String → Registry → Response × Registry
delete_manifest cfg w (allowed r) name ref s = deleted (
    if is_digest_ref ref
    then delete_manifest_by_digest cfg w r name ref s
    else untag cfg w r name ref s)
delete_manifest cfg w denied name ref s = (authz_error denied, s)

abbrev blob_deleted : Bool × Disk → Response × Disk
blob_deleted (true, d) = (fails 500 "BLOB_UNKNOWN", d)
blob_deleted (false, d) = (succeeds 202 none, d)

abbrev pub delete_known :
    Config → DeleteFaults → String → String → Bool → Bool → Disk → Response × Disk
delete_known cfg w name digest true there d = (fails 500 "UNKNOWN", d)
delete_known cfg w name digest false false d = (fails 404 "BLOB_UNKNOWN", d)
delete_known cfg w name digest false true d =
    blob_deleted
      (remove_bytes cfg w.delete_blob digest (remove_hosted_blob cfg w.delete_row name digest d))

abbrev pub delete_valid :
    Config → DeleteFaults → String → String → Option String → Disk → Response × Disk
delete_valid cfg w name digest none d = (fails 400 "DIGEST_INVALID", d)
delete_valid cfg w name digest (some a) d =
    delete_known cfg w name digest w.probe (exists digest d.blobs) d

unfoldable pub delete_blob :
    Config → DeleteFaults → Authorized → String → String → Disk → Response × Disk
delete_blob cfg w (allowed r) name digest d =
    if cfg.has_blobs
    then delete_valid cfg w name digest (cfg.parse digest) d
    else (fails 501 "UNSUPPORTED", d)
delete_blob cfg w denied name digest d = (authz_error denied, d)
