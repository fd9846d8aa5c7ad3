-- ===== src/Upload.antt =====
-- internal/handler/registry/session.go and shared_session.go: the sessions of the OCI push protocol,
-- and the handlers of registry.go that drive them. The digest functions, the JSON codec of a session
-- row and the random ids are parameters. A call of a store or of the file system that fails is an
-- entry of `Faults`. Times are nanoseconds, and `none` is Go's zero time.
pub mod Shared
pub mod Memory
pub mod Refines
pub mod Handler
use specula.Prelude.{ℕ, String, Bool, Option, none, List, ◌≡◌, ◌<◌, some, false}
use specula.Prelude.Int.{ℤ}
use specula.Meta.{Store}
use specula.Cache.{Object, Cause}

-- sharedChunk
pub record Chunk : Type 0 where
  pub key : String
  pub size : ℕ
  pub pre_existed : Bool

-- sharedState
pub record State : Type 0 where
  pub repo : String
  pub offset : ℕ
  pub started_at : ℤ
  pub updated_at : Option ℤ
  pub chunks : List Chunk

-- UploadSession, less the path that only MemorySessions has.
pub record Session : Type 0 where
  pub id : String
  pub repo : String
  pub offset : ℕ
  pub started_at : ℤ

pub data Error : Type 0 where
  session_not_found : Error
  wrapped : String → Cause → Error

pub data Reply (A : Type 0) : Type 0 where
  got : A → Reply A
  lost : Error → Reply A

-- The metadata store and the blob store behind SharedSessions.
pub record Disk : Type 0 where
  pub meta : Store
  pub open meta use {rows, mutables}
  pub blobs : List Object

-- `sha256` is the digest in hexadecimal, and `hash` the digest by the algorithm that a name starts
-- with, as the blob store computes it.
pub record Env : Type 0 where
  pub sha256 : List ℕ → String
  pub hash : String → List ℕ → String
  pub encode : State → List ℕ
  pub decode : List ℕ → Option State
  pub idle : ℤ

-- The errors of the calls that one operation makes. Deletions and reads of blobs fail by their key.
pub record Faults : Type 0 where
  pub read : Option String
  pub spool : Option String
  pub probe : Option String
  pub put : Option String
  pub save : Option String
  pub delete : Option String
  pub drop : String → Bool
  pub fetch : String → Option String

abbrev pub no_faults : Faults
no_faults = record {
  read = none;
  spool = none;
  probe = none;
  put = none;
  save = none;
  delete = none;
  drop = λ k. false;
  fetch = λ k. none;
}
