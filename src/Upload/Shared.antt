-- ===== src/Upload/Shared.antt =====
-- shared_session.go: SharedSessions keeps a session's state as a row of the mutable tier, and its bytes
-- as chunks in the blob store under their own digests. `now` is the time of the call.
pub mod Rows
pub mod Content
pub mod Keeps
pub mod Runs
pub mod Evicts
use specula.Prelude.{
  ℕ, zero, suc, ◌+◌, ◌-◌, ◌/◌, String, Bool, true, false, ◌||◌, ◌&&◌, Option, none, some, List, [],
  ◌∷◌, ◌++◌, map, ◌==◌, length, if◌then◌else◌,
}
use specula.Prelude.Int.{ℤ, pos, ◌+ℤ◌, ltb_ℤ}
use specula.Artifact.{MutableEntry}
use specula.Meta.{get_mutable, put_mutable, delete_mutable, unix}
use specula.Cache.{Object, find_object, remove, reported, Put, done, refused, put_blob, exists}
use specula.Upload.{
  Chunk, State, Session, Error, session_not_found, wrapped, Reply, got, lost, Disk, Env, Faults,
}

-- uploadStateKey
unfoldable pub state_key : String → String
state_key id = Prim.Native.String.◌++◌ "oci-upload:" id

-- idle > 0 && !t.IsZero() && now - t > idle
unfoldable pub expired : ℤ → ℤ → Option ℤ → Bool
unfolding ◌+ℤ◌
expired idle now none = false
expired idle now (some t) = ltb_ℤ (pos 0) idle && ltb_ℤ (t +ℤ idle) now

abbrev pub decoded : Env → ℤ → Option State → Reply State
decoded env now none = lost session_not_found
decoded env now (some st) =
    if expired env.idle now st.updated_at then lost session_not_found else got st

abbrev pub row_state : Env → ℤ → Option MutableEntry → Reply State
row_state env now none = lost session_not_found
row_state env now (some e) = decoded env now (env.decode e.payload)

abbrev pub loaded : Env → ℤ → String → Option String → List MutableEntry → Reply State
loaded env now id (some e) es = lost (wrapped "read upload session" (reported e))
loaded env now id none es = row_state env now (get_mutable (state_key id) es)

unfoldable pub load : Env → Faults → ℤ → String → Disk → Reply State
load env w now id d = loaded env now id w.read d.mutables

-- The row that `save` writes. The idle time is in whole seconds.
unfoldable pub session_row : Env → ℤ → String → State → MutableEntry
session_row env now id st = record {
  key = state_key id;
  protocol = "oci";
  digest = "";
  payload = env.encode st;
  etag = "";
  last_modified = "";
  ttl_seconds = unix env.idle;
  upstream = "";
  fetched_at = now;
}

unfoldable pub save : Env → ℤ → String → State → Disk → Disk
unfolding put_mutable session_row
save env now id st d = record d {
  meta = record d.meta { mutables = put_mutable (session_row env now id st) d.mutables };
}

abbrev pub save_error : String → Error
save_error e = wrapped "save upload session" (reported e)

-- A session with no chunks.
abbrev pub new_state : String → ℤ → State
new_state repo now = record {
  repo = repo;
  offset = 0;
  started_at = now;
  updated_at = some now;
  chunks = [];
}

abbrev pub created : Env → ℤ → String → String → Option String → Disk → Reply Session × Disk
created env now id repo (some e) d = (lost (save_error e), d)
created env now id repo none d = (
  got (record { id = id; repo = repo; offset = 0; started_at = now }),
  save env now id (new_state repo now) d,
)

-- `id` is the new random id.
unfoldable pub create : Env → Faults → ℤ → String → String → Disk → Reply Session × Disk
create env w now id repo d = created env now id repo w.save d

abbrev pub session_of : String → Reply State → Reply Session
session_of id (lost e) = lost e
session_of id (got st) =
    got (record { id = id; repo = st.repo; offset = st.offset; started_at = st.started_at })

unfoldable pub get : Env → Faults → ℤ → String → Disk → Reply Session
get env w now id d = session_of id (load env w now id d)

-- The digest that a chunk is stored under.
unfoldable pub chunk_key : Env → List ℕ → String
chunk_key env bytes = Prim.Native.String.◌++◌ "sha256:" (env.sha256 bytes)

-- An existence check that fails counts as an object that was there.
abbrev pub provenance : Option String → Bool → Bool
provenance (some e) there = true
provenance none there = there

unfoldable pub add_chunk : Chunk → ℤ → State → State
add_chunk c now st = record st {
  chunks = st.chunks ++ (c ∷ []);
  offset = st.offset + c.size;
  updated_at = some now;
}

abbrev pub recorded :
    Env → ℤ → String → Chunk → State → Option String → Disk → (ℕ × Option Error) × Disk
recorded env now id c st (some e) d = ((st.offset - c.size, some (save_error e)), d)
recorded env now id c st none d = ((st.offset, none), save env now id st d)

abbrev pub staged :
    Env
    → Faults
    → ℤ
    → String
    → Chunk
    → State
    → Option String
    → Put
    → Disk
    → (ℕ × Option Error) × Disk
staged env w now id c st (some e) p d = ((st.offset, some (wrapped "stage chunk" (reported e))), d)
staged env w now id c st none (refused cause) d =
    ((st.offset, some (wrapped "stage chunk" cause)), d)
staged env w now id c st none (done blobs) d =
    recorded env now id c (add_chunk c now st) w.save (record d { blobs = blobs })

abbrev pub new_chunk : Env → Faults → List ℕ → List Object → Chunk
new_chunk env w bytes os = record {
  key = chunk_key env bytes;
  size = length bytes;
  pre_existed = provenance w.probe (exists (chunk_key env bytes) os);
}

abbrev pub spooled :
    Env → Faults → ℤ → String → State → Option String → List ℕ → Disk → (ℕ × Option Error) × Disk
spooled env w now id st (some e) bytes d =
    ((st.offset, some (wrapped "spool chunk" (reported e))), d)
spooled env w now id st none [] d = ((st.offset, none), d)
spooled env w now id st none (b ∷ bs) d =
    staged env w now id (new_chunk env w (b ∷ bs) d.blobs) st w.put
      (put_blob env.hash (chunk_key env (b ∷ bs)) (b ∷ bs) (length (b ∷ bs)) d.blobs) d

abbrev pub appended :
    Env → Faults → ℤ → String → List ℕ → Reply State → Disk → (ℕ × Option Error) × Disk
appended env w now id bytes (lost e) d = ((0, some e), d)
appended env w now id bytes (got st) d = spooled env w now id st w.spool bytes d

-- The new offset, with the error if there is one.
unfoldable pub append : Env → Faults → ℤ → String → List ℕ → Disk → (ℕ × Option Error) × Disk
append env w now id bytes d = appended env w now id bytes (load env w now id d) d

abbrev pub keys_of : Reply State → Reply (List String)
keys_of (lost e) = lost e
keys_of (got st) = got (map (λ c. c.key) st.chunks)

unfoldable pub open_chunks : Env → Faults → ℤ → String → Disk → Reply (List String)
open_chunks env w now id d = keys_of (load env w now id d)

abbrev pub read_error : String → Error
read_error e = wrapped "read staged chunk" (reported e)

abbrev pub fetched : Option String → Option (List ℕ) → Reply (List ℕ)
fetched (some e) b = lost (read_error e)
fetched none none = lost (read_error "not found")
fetched none (some b) = got b

abbrev pub joined : Reply (List ℕ) → Reply (List ℕ) → Reply (List ℕ)
joined (lost e) rest = lost e
joined (got b) (lost e) = lost e
joined (got b) (got bs) = got (b ++ bs)

-- chunkReader, read to the end: the chunks one after the other, up to the first that fails.
unfoldable pub read_all : Faults → List String → List Object → Reply (List ℕ)
unfolding find_object
read_all w [] os = got []
read_all w (k ∷ ks) os = joined (fetched (w.fetch k) (find_object k os)) (read_all w ks os)

abbrev pub read_reply : Faults → List Object → Reply (List String) → Reply (List ℕ)
read_reply w os (lost e) = lost e
read_reply w os (got ks) = read_all w ks os

-- Open, and its reader read to the end.
unfoldable pub content : Env → Faults → ℤ → String → Disk → Reply (List ℕ)
unfolding open_chunks
content env w now id d = read_reply w d.blobs (open_chunks env w now id d)

-- The chunks that a session may remove: not the promoted blob, nor what it did not stage.
unfoldable pub drop_chunks : Faults → String → List Chunk → List Object → List Object
unfolding remove
drop_chunks w kept [] os = os
drop_chunks w kept (c ∷ cs) os =
    drop_chunks w kept cs
      (if c.key == kept || c.pre_existed || w.drop c.key then os else remove c.key os)

abbrev pub erased : String → Option String → Disk → Option Error × Disk
erased id (some e) d = (some (wrapped "delete upload session" (reported e)), d)
erased id none d = (
  none,
  record d { meta = record d.meta { mutables = delete_mutable (state_key id) d.mutables } },
)

abbrev pub discarded : Faults → String → String → Reply State → Disk → Option Error × Disk
discarded w id kept (lost session_not_found) d = (none, d)
discarded w id kept (lost (wrapped what cause)) d = (some (wrapped what cause), d)
discarded w id kept (got st) d =
    erased id w.delete (record d { blobs = drop_chunks w kept st.chunks d.blobs })

unfoldable pub discard : Env → Faults → ℤ → String → String → Disk → Option Error × Disk
discard env w now id kept d = discarded w id kept (load env w now id d) d

-- Delete
unfoldable pub abandon : Env → Faults → ℤ → String → Disk → Option Error × Disk
unfolding discard
abandon env w now id d = discard env w now id "" d

unfoldable pub complete : Env → Faults → ℤ → String → String → Disk → Option Error × Disk
unfolding discard
complete env w now id promoted d = discard env w now id promoted d
