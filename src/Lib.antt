-- ===== src/Lib.antt =====
-- Specula: a caching proxy for package registries that verifies what it downloads, and a hosted
-- registry with organizations.
--
-- A client asks a protocol handler for an artifact. The cache manager (internal/cache) looks it up
-- in the metadata store (internal/store) and serves its blob. On a miss the handler downloads into a
-- quarantine file and calls Store: the chain of verifiers (internal/verify) judges the file, and only
-- an accepted one is promoted, its blob first and its metadata row after it; then the oldest entries
-- are evicted down to the capacity. Beside the cache stands the hosted registry: who may pull, push or
-- create a repository is decided by internal/registryauthz from the access rules (internal/acl), the
-- role ladder (internal/org), the grants (internal/grant), the scopes of the API key (internal/apikey)
-- and the row of the repository (internal/repo). A push uploads
-- blobs through a session of several requests, which may reach different replicas, and then a manifest
-- that references them (internal/handler/registry).
--
-- The modules, and the code that each is about:
--   Prelude        shared names, Boolean tests, lists over native numbers, Go's int64 and the part of
--                  Go's `strings` that the program uses
--   Artifact       pkg/artifact/types.go
--   Meta           internal/store/meta/meta.go and internal/store/sqlite: the rows of cache_entries
--                  (Get, Put, Delete, SetPinned) and of mutable_entries (GetMutable, PutMutable,
--                  DeleteMutable); Meta/Listing is ListEntries
--   Cache          internal/cache: the state (metadata, blobs, quarantine files, ceiling) and the blob
--                  store of internal/store/local; Cache/Fresh is xfetch.go, Cache/Lookup the read
--                  path of cache.go, Cache/Promote its storeOnce, Cache/Evict is evict.go
--   Verify         internal/verify: Chain.Verify, the checksum, TOFU and consensus verifiers, and the
--                  pin store of cmd/specula/main.go over the mutable table,
--                  the maturity gate (maturity.go) and the guard of private names (depconfusion.go).
--                  Verify/Consensus is the quorum on digests, its ContentId the one on content ids, and its
--                  Poll the verifier that chooses between them
--   Acl            internal/acl/acl.go
--   Org            internal/org/org.go, the role ladder, and internal/org/mem.go, the in-memory store
--   Upload         internal/handler/registry: the upload sessions, Upload/Shared as shared_session.go keeps
--                  them in the metadata and blob stores and Upload/Memory as session.go does in one
--                  process; Upload/Handler is the write handlers of registry.go over the shared sessions,
--                  with manifest_refs.go and the referrers index of discovery.go
--   Routing        the dispatch of registry.go and internal/registrytoken/scope.go
--   Settings       internal/settings/resolver.go
--   Coalesce       internal/coalesce/locker.go; Coalesce/Calls is the goroutines that share a locker
--   ApiKey         internal/apikey/scopes.go
--   Grant          internal/grant/grant.go
--   Repo           internal/repo/repo.go and authz.go, and the tags of sql.go
--   RegistryAuthz  internal/registryauthz/authz.go: the decision at /token and the data plane, with
--                  Access and Allows of internal/registrytoken and CreateRepo of internal/repo/sql.go
--   Examples       the theorems at concrete inputs
--
-- How the code is read. An operation is a function from the state before to a result and the state
-- after. A verifier is a step on a state that the chain passes along; in the cache this state is the
-- metadata store, where the pins are. A call of a database, a blob store or the file system may fail:
-- the failures of one operation are its argument (Faults, Weather), and every theorem says whether it
-- needs them to be absent. The clock, the random draw of the soft expiry, its logarithm, the hash of
-- the blob store, the fresh ids, JSON coding, go-digest, path.Match, http.ParseTime and the organization
-- store of the registry's authorization are parameters. The calls of one request see one time. Removing a quarantine file
-- never fails. What other requests write between two database calls of a first push is an argument of
-- the handler; the other operations are modelled one at a time. A TTL in nanoseconds is an int64 that
-- wraps; the sizes of entries are natural numbers without a bound.
--
-- Fuel. The eviction loop runs on fuel, one round more than the table has rows: a round that goes on
-- has removed a row, and a round that removes none is the last.
--
-- Not modelled. The pull handlers of the protocols, the upstream client, single flight, the distributed
-- locks, the signature verifiers, the admin API and the command line. Of the modelled files: the tag and
-- referrer listings of the registry, the fetches of consensus, the list of known settings, the
-- coalescing of equal Store calls, the hooks that count, the logging, the test hook of the chain, the
-- substring search on names, the order of ListRepos and the JSON coding of scope lists. An object of the
-- blob store is kept under its whole digest; the file name is only the hexadecimal part of it
-- (internal/store/local, hexDigest), so that digests with the same part share a file, and this is not
-- modelled.
pub mod Prelude
pub mod Artifact
pub mod Meta
pub mod Upload
pub mod Verify
pub mod Cache
pub mod Acl
pub mod Org
pub mod ApiKey
pub mod Grant
pub mod RegistryAuthz
pub mod Repo
pub mod Routing
pub mod Settings
pub mod Coalesce
pub mod Examples
