-- ===== src/Examples/Uploading.antt =====
-- Upload sessions, manifests and tags of the hosted registry at concrete inputs.
use specula.Prelude.{
  ℕ, String, Bool, true, false, not, ◌≡◌, ◌≢◌, refl, sym, ◌∙◌, ap, Option, none, some, List, [],
  ◌∷◌, ◌++◌, ◌&&◌, eqb, inl, inr, ◌⊎◌, ◌||◌, arith, eq_iff, length, all, any, ◌==◌, if◌then◌else◌,
}
use specula.Prelude.Int.{pos}
use specula.Cache.{Object, find_object, exists}
use specula.Cache.Blobs.{IsAddressed}
use specula.Repo.{Repo}
use specula.Repo.Tags.{Tag, get_tag}
use specula.Upload.{
  Chunk, State, Session, Error, session_not_found, Reply, got, lost, Disk, Env, no_faults,
}
use specula.Upload.Shared.{
  create, add_chunk, new_state, append, content, get, chunk_key, abandon, complete,
}
use specula.Upload.Shared.Content.{append-content}
use specula.Upload.Shared.Runs.{Call, run, appends, abandons, create-run}
use specula.Upload.Shared.Evicts.{abandon-evicts}
use specula.Upload.Memory
use specula.Upload.Memory.{Sessions}
use specula.Upload.Refines.{append-refines}
use specula.Upload.Handler.{
  Response, Config, Calls, allowed, gap, fails, patch_upload, complete_upload,
}
use specula.Upload.Handler.Untouched.{gap-Resumes, bad_digest-Removes}
use specula.Upload.Handler.Finishes.{complete_upload-stored}
use specula.Upload.Handler.Manifest.{
  Codec, Registry, ManifestFaults, put_manifest, referenced_blob_digests,
}
use specula.Upload.Handler.Manifest.Accepts.{put_manifest-accepts}
use specula.Upload.Handler.Deletes.{DeleteFaults, delete_manifest}
use specula.Upload.Handler.Deletes.Untags.{delete_manifest-Gone}

abbrev layer : List ℕ
layer = 1 ∷ 2 ∷ 3 ∷ []

abbrev is_layer : List ℕ → Bool
is_layer (x ∷ y ∷ z ∷ []) = eqb x 1 && eqb y 2 && eqb z 3
is_layer _ = false

-- A digest that tells the layer from all other bytes.
abbrev toy_sha : List ℕ → String
toy_sha b = if is_layer b then "aa" else "bb"

abbrev toy_digest : String → List ℕ → String
toy_digest k b = if is_layer b then "sha256:aa" else "sha256:bb"

abbrev opened : State
opened = new_state "acme/app" (pos 100)

abbrev staged : Bool → State
staged pre = record {
  repo = "acme/app";
  offset = 3;
  started_at = pos 100;
  updated_at = some (pos 100);
  chunks = record { key = "sha256:aa"; size = 3; pre_existed = pre } ∷ [];
}

-- The sessions of these examples are empty or have the layer.
abbrev toy_encode : List Chunk → List ℕ
toy_encode [] = 0 ∷ []
toy_encode (c ∷ cs) = (if c.pre_existed then 2 else 1) ∷ []

abbrev toy_decode : List ℕ → Option State
toy_decode (n ∷ []) =
    some (if eqb n 0 then opened else if eqb n 1 then staged false else staged true)
toy_decode _ = none

abbrev toy_env : Env
toy_env = record {
  sha256 = toy_sha;
  hash = toy_digest;
  encode = λ st. toy_encode st.chunks;
  decode = toy_decode;
  idle = pos 1000;
}

abbrev no_disk : Disk
no_disk = record { meta = record { rows = []; mutables = [] }; blobs = [] }

abbrev one_session : Disk
one_session = (create toy_env no_faults (pos 100) "u1" "acme/app" no_disk).1

abbrev two_sessions : Disk
two_sessions = (create toy_env no_faults (pos 100) "u2" "acme/app" one_session).1

none-some : {A : Type 0} {a : A} → none ≡ some a → ⊥
none-some q = cc

empty-IsAddressed : IsAddressed toy_digest []
unfolding find_object
empty-IsAddressed k b h = absurd (none-some h)

is_layer-only : (b : List ℕ) → is_layer b ≡ true → b ≡ layer
is_layer-only [] h = cc
is_layer-only (x ∷ []) h = cc
is_layer-only (x ∷ y ∷ []) h = cc
is_layer-only (x ∷ y ∷ z ∷ []) h =
    let a : x ≡ 1 = ground arith in
    let b : y ≡ 2 = ground arith in let c : z ≡ 3 = ground arith in cc
is_layer-only (x ∷ y ∷ z ∷ w ∷ rest) h = cc

layer-only : (b : List ℕ) → ◌≡◌ {A = String} (toy_digest "sha256:aa" b) "sha256:aa" → b ≡ layer
layer-only b h = is_layer-only b (by_test (is_layer b) h)
  where
    by_test :
        (t : Bool)
        → ◌≡◌ {A = String} (if t then "sha256:aa" else "sha256:bb") "sha256:aa"
        → t ≡ true
    by_test true q = refl
    by_test false q = absurd (ground (arith, eq_iff "sha256:bb" "sha256:aa"))

append-content_example :
    (content toy_env no_faults
        (pos 200)
        "u1"
        (append toy_env no_faults (pos 100) "u1" layer one_session).1
      ≡ got ([] ++ layer))
    × ((append toy_env no_faults (pos 100) "u1" layer one_session).0.0 ≡ 3)
unfolding create specula.Upload.Shared.save specula.Upload.Shared.load specula.Meta.get_mutable
    specula.Upload.Shared.state_key specula.Upload.Shared.expired specula.Upload.Shared.read_all
    chunk_key add_chunk exists append specula.Cache.put_blob
append-content_example =
    append-content toy_env no_faults (pos 100) (pos 200) "u1" opened [] one_session
      empty-IsAddressed refl refl layer layer-only refl refl refl

abbrev in_memory : Sessions
in_memory =
    (Memory.create none "u1" "/tmp/1" (pos 100) "acme/app" (record { entries = []; files = [] })).1

append-refines_example :
    let kept : (ℕ × Option Error) × Sessions = Memory.append none "u1" layer in_memory in
    let shared : (ℕ × Option Error) × Disk =
      append toy_env no_faults (pos 100) "u1" layer one_session in
    (kept.0 ≡ shared.0)
    × (Memory.get "u1" kept.1 ≡ get toy_env no_faults (pos 200) "u1" shared.1)
    × (Memory.content "u1" kept.1 ≡ content toy_env no_faults (pos 200) "u1" shared.1)
unfolding specula.Upload.Shared.load specula.Meta.get_mutable create specula.Upload.Shared.save
    specula.Upload.Shared.state_key specula.Upload.Shared.expired chunk_key add_chunk exists content
    specula.Upload.Shared.read_all get Memory.get Memory.find_entry Memory.create Memory.set_entry
    Memory.content Memory.write_file find_object
append-refines_example =
    append-refines toy_env (pos 100) (pos 200) "u1" opened [] one_session refl layer in_memory
      empty-IsAddressed refl layer-only refl refl refl refl refl

texts-differ : (s t : String) → (s == t) ≡ false → s ≢ t
texts-differ s t h = ground (arith, eq_iff s t)

abandon-evicts_example :
    let d : Disk =
      (append toy_env no_faults
        (pos 100)
        "u2"
        layer
        (append toy_env no_faults (pos 100) "u1" layer two_sessions).1).1 in
    let finished : Disk = (complete toy_env no_faults (pos 100) "u2" "sha256:aa" d).1 in
    (exists "sha256:aa" finished.blobs ≡ true)
    × (exists "sha256:aa" (abandon toy_env no_faults (pos 100) "u1" finished).1.blobs ≡ false)
unfolding specula.Upload.Shared.state_key specula.Upload.Shared.expired chunk_key exists create
    specula.Upload.Shared.save specula.Upload.Shared.load specula.Meta.get_mutable add_chunk
abandon-evicts_example =
    abandon-evicts toy_env (pos 100) 1 (2 ∷ 3 ∷ []) "u1" "u2" "acme/app" "acme/app" two_sessions
      (texts-differ "oci-upload:u1" "oci-upload:u2" refl) refl refl refl refl refl refl refl

abbrev stocked : Disk
stocked = record no_disk { blobs = record { name = "sha256:bb"; bytes = 9 ∷ [] } ∷ [] }

abbrev calls : List Call
calls =
    record { faults = no_faults; now = pos 100; operation = appends layer }
    ∷ record { faults = no_faults; now = pos 160; operation = abandons }
    ∷ []

create-run_example :
    exists "sha256:bb"
      (run toy_env "u1" calls (create toy_env no_faults (pos 100) "u1" "acme/app" stocked).1).blobs
    ≡ true
unfolding specula.Meta.get_mutable specula.Upload.Shared.save create exists
    specula.Upload.Shared.load specula.Upload.Shared.state_key specula.Upload.Shared.expired
    add_chunk chunk_key
create-run_example =
    create-run toy_env no_faults (pos 100) "u1" "acme/app" "sha256:bb" calls stocked refl refl
      (refl, (tt, tt)) refl

abbrev toy_config : Config
toy_config = record {
  env = toy_env;
  parse = λ d. if d == "sha256:aa" || d == "sha256:bb" then some "sha256" else none;
  digest = λ algorithm b. toy_digest algorithm b;
  has_blobs = true;
  has_meta = true;
}

abbrev no_calls : Calls
no_calls = record {
  create = no_faults;
  get = no_faults;
  append = no_faults;
  reget = no_faults;
  read = no_faults;
  reread = no_faults;
  delete = no_faults;
  complete = no_faults;
  put = none;
  record_blob = none;
}

abbrev app : Repo
app = record {
  id = "r1";
  org_id = "acme";
  name = "acme/app";
  visibility = "private";
  owner_user_id = "alice";
}

abbrev session : Session
session = record { id = "u1"; repo = "acme/app"; offset = 0; started_at = pos 100 }

abbrev half_full : Disk
half_full = (append toy_env no_faults (pos 100) "u1" layer one_session).1

gap-Resumes_example :
    let refused : Response × Disk =
      patch_upload toy_config no_calls
        (pos 100)
        (allowed app)
        "acme/app"
        "u1"
        "5-7"
        layer
        half_full in
    let resumed : Response × Disk =
      patch_upload toy_config no_calls
        (pos 100)
        (allowed app)
        "acme/app"
        "u1"
        "3-5"
        layer
        refused.1 in
    (complete_upload toy_config no_calls
        (pos 100)
        (allowed app)
        "acme/app"
        "u1"
        "sha256:aa"
        "5-7"
        layer
        half_full
      ≡ refused)
    × (refused.1 ≡ half_full)
    × (refused.0.status ≡ 416)
    × (refused.0.error_code ≡ "BLOB_UPLOAD_INVALID")
    × (refused.0.range_end ≡ some 2)
    × (resumed.0.status ≡ 202)
    × (resumed.0.range_end ≡ some 5)
    × (resumed.1 ≡ (append toy_env no_faults (pos 100) "u1" layer half_full).1)
unfolding get specula.Upload.Shared.load specula.Meta.get_mutable create specula.Upload.Shared.save
    specula.Upload.Shared.state_key specula.Upload.Shared.expired
    specula.Upload.Handler.parse_content_range specula.Prelude.Strings.cut_first
    specula.Prelude.Text.trim_space specula.Prelude.Strings.parse_int append chunk_key add_chunk
    exists specula.Cache.put_blob
gap-Resumes_example =
    gap-Resumes toy_config no_calls (pos 100) app "acme/app" "u1" "5-7" layer half_full
      (record { id = "u1"; repo = "acme/app"; offset = 3; started_at = pos 100 }) refl 5 7
      "sha256:aa" "sha256" "3-5" 5 layer 6
      (append toy_env no_faults (pos 100) "u1" layer half_full).1 refl (texts-differ "5-7" "" refl)
      refl (omega arith) (texts-differ "sha256:aa" "" refl) refl refl refl

bad_digest-Removes_example :
    let out : Response × Disk =
      complete_upload toy_config no_calls
        (pos 100)
        (allowed app)
        "evil/app"
        "u1"
        "md5"
        ""
        []
        one_session in
    (out.0 ≡ fails 400 "DIGEST_INVALID")
    × (get toy_env no_faults (pos 100) "u1" out.1 ≡ lost session_not_found)
unfolding get specula.Upload.Shared.load specula.Meta.get_mutable create specula.Upload.Shared.save
    specula.Upload.Shared.state_key specula.Upload.Shared.expired
bad_digest-Removes_example =
    bad_digest-Removes toy_config no_calls (pos 100) app "evil/app" "u1" "" [] one_session session
      refl "md5" (texts-differ "md5" "" refl) refl refl

complete_upload-stored_example :
    let left : Disk =
      (complete_upload toy_config no_calls
        (pos 100)
        (allowed app)
        "acme/app"
        "u1"
        "sha256:aa"
        ""
        layer
        one_session).1 in
    (exists "sha256:aa" left.blobs ≡ true) × IsAddressed toy_digest left.blobs
unfolding create specula.Upload.Shared.save complete_upload get specula.Upload.Shared.load
    specula.Meta.get_mutable specula.Upload.Shared.state_key specula.Upload.Shared.expired
    specula.Upload.Handler.check_chunk append specula.Cache.put_blob chunk_key add_chunk exists
    content specula.Upload.Shared.read_all
complete_upload-stored_example =
    complete_upload-stored toy_config no_calls (pos 100) (allowed app) "acme/app" "u1" "sha256:aa"
      "" layer one_session empty-IsAddressed refl

-- The body of a manifest that references the layer, and what decodes it.
abbrev toy_codec : Codec
toy_codec = record {
  references = λ body. some ("sha256:aa" ∷ []);
  referral = λ body. none;
  encode_index = λ ds. [];
  decode_index = λ b. none;
}

abbrev no_manifest_faults : ManifestFaults
no_manifest_faults = record {
  read_body = false;
  probe = λ d. false;
  put = false;
  record_blob = none;
  put_tag = false;
  record_tag = false;
  get_index = false;
  read_index = false;
  put_index = false;
  record_index = none;
  point_index = false;
}

abbrev with_layer : Registry
with_layer = record {
  disk = record no_disk { blobs = record { name = "sha256:aa"; bytes = layer } ∷ [] };
  tags = [];
}

put_manifest-accepts_example :
    let left : Registry =
      (put_manifest toy_config toy_codec no_manifest_faults
        (pos 100)
        (allowed app)
        "acme/app"
        "v1"
        (7 ∷ [])
        with_layer).1 in
    (algorithm : String) × (all
        (λ k. exists k left.disk.blobs)
        (referenced_blob_digests toy_codec (7 ∷ []))
      ≡ true)
    × (exists (toy_digest algorithm (7 ∷ [])) left.disk.blobs ≡ true)
    × (("v1" ≡ toy_digest algorithm (7 ∷ []))
        ⊎ ((t : Tag) × (get_tag "r1" "v1" left.tags ≡ some t)
            × (t.digest ≡ toy_digest algorithm (7 ∷ []))))
unfolding put_manifest specula.Upload.Handler.Manifest.read_limited
    specula.Upload.Handler.Manifest.is_digest_ref specula.Prelude.Strings.cut_first
    specula.Upload.Handler.Manifest.ensure_referenced_blobs_exist specula.Prelude.Text.trim_space
    exists specula.Cache.put_blob
put_manifest-accepts_example =
    put_manifest-accepts toy_config toy_codec no_manifest_faults (pos 100) app "acme/app" "v1"
      (7 ∷ []) with_layer refl

abbrev no_delete_faults : DeleteFaults
no_delete_faults = record {
  list_tags = false;
  delete_tag = λ t. false;
  delete_pointer = λ t. false;
  delete_row = false;
  probe = false;
  delete_blob = false;
}

abbrev tagged_twice : Registry
tagged_twice = record {
  disk = stocked;
  tags =
      record { repo_id = "r1"; tag = "v1"; digest = "sha256:bb"; updated_at = pos 1 }
      ∷ record { repo_id = "r1"; tag = "v2"; digest = "sha256:aa"; updated_at = pos 2 }
      ∷ record { repo_id = "r1"; tag = "latest"; digest = "sha256:bb"; updated_at = pos 3 }
      ∷ [];
}

delete_manifest-Gone_example :
    let left : Registry =
      (delete_manifest toy_config no_delete_faults
        (allowed app)
        "acme/app"
        "sha256:bb"
        tagged_twice).1 in
    (any (λ u. u.repo_id == "r1" && u.digest == "sha256:bb") left.tags ≡ false)
    × (exists "sha256:bb" left.disk.blobs ≡ false)
unfolding specula.Upload.Handler.Manifest.is_digest_ref specula.Prelude.Strings.cut_first
    delete_manifest specula.Upload.Handler.Deletes.delete_manifest_by_digest
delete_manifest-Gone_example =
    delete_manifest-Gone toy_config no_delete_faults app "acme/app" "sha256:bb" tagged_twice refl
      refl refl
