-- ===== src/Upload/Memory.antt =====
-- session.go: MemorySessions, one replica's map of sessions and their chunk files. The name of a new
-- file and the random id are arguments. A call of the file system that fails is an argument.
use specula.Prelude.{
  ℕ, ◌+◌, String, Option, none, some, List, [], ◌∷◌, ◌++◌, ◌==◌, length, if◌then◌else◌,
}
use specula.Prelude.Int.{ℤ}
use specula.Cache.{Object, find_object, remove, reported}
use specula.Upload.{Session, Error, session_not_found, wrapped, Reply, got, lost}

-- A session and the path of its chunk file.
pub record Entry : Type 0 where
  pub session : Session
  pub path : String

pub record Sessions : Type 0 where
  pub entries : List Entry
  pub files : List Object

unfoldable pub find_entry : String → List Entry → Option Entry
find_entry id [] = none
find_entry id (e ∷ es) = if e.session.id == id then some e else find_entry id es

unfoldable pub drop_entry : String → List Entry → List Entry
drop_entry id [] = []
drop_entry id (e ∷ es) =
    let rest = drop_entry id es in if e.session.id == id then rest else e ∷ rest

-- m.sessions[id] = e
unfoldable pub set_entry : Entry → List Entry → List Entry
unfolding drop_entry
set_entry e es = e ∷ drop_entry e.session.id es

-- The file with the bytes appended.
unfoldable pub write_file : String → List ℕ → List Object → List Object
unfolding remove
write_file path bytes os = record { name = path; bytes = bytes } ∷ remove path os

abbrev pub created_in :
    String → String → ℤ → String → Option String → Sessions → Reply Session × Sessions
created_in id path now repo (some e) m = (lost (wrapped "create upload temp" (reported e)), m)
created_in id path now repo none m =
    let s : Session = record { id = id; repo = repo; offset = 0; started_at = now } in
    (
      got s,
      record {
        entries = set_entry (record { session = s; path = path }) m.entries;
        files = write_file path [] m.files;
      },
    )

-- `path` is the file that os.CreateTemp makes.
unfoldable pub create :
    Option String → String → String → ℤ → String → Sessions → Reply Session × Sessions
create fault id path now repo m = created_in id path now repo fault m

abbrev pub session_in : Option Entry → Reply Session
session_in none = lost session_not_found
session_in (some e) = got e.session

unfoldable pub get : String → Sessions → Reply Session
get id m = session_in (find_entry id m.entries)

abbrev pub grow : ℕ → Entry → Entry
grow n e = record e { session = record e.session { offset = e.session.offset + n } }

abbrev pub written :
    Entry → Option (List ℕ) → Option String → List ℕ → Sessions → (ℕ × Option Error) × Sessions
written e none fault bytes m =
    ((0, some (wrapped "open upload chunk file" (reported "not found"))), m)
written e (some old) (some x) bytes m = (
  (e.session.offset, some (wrapped "append upload chunk" (reported x))),
  record m { files = write_file e.path (old ++ bytes) m.files },
)
written e (some old) none bytes m = (
  (e.session.offset + length bytes, none),
  record {
    entries = set_entry (grow (length bytes) e) m.entries;
    files = write_file e.path (old ++ bytes) m.files;
  },
)

abbrev pub appended_to :
    Option Entry → Option String → List ℕ → Sessions → (ℕ × Option Error) × Sessions
appended_to none fault bytes m = ((0, some session_not_found), m)
appended_to (some e) fault bytes m = written e (find_object e.path m.files) fault bytes m

-- With a fault, `bytes` is the part of the body that was copied before it.
unfoldable pub append : Option String → String → List ℕ → Sessions → (ℕ × Option Error) × Sessions
append fault id bytes m = appended_to (find_entry id m.entries) fault bytes m

abbrev pub file_reply : Option (List ℕ) → Reply (List ℕ)
file_reply none = lost (wrapped "open upload chunk file" (reported "not found"))
file_reply (some b) = got b

abbrev pub opened : Option Entry → List Object → Reply (List ℕ)
opened none os = lost session_not_found
opened (some e) os = file_reply (find_object e.path os)

-- Open, and its file read to the end.
unfoldable pub content : String → Sessions → Reply (List ℕ)
content id m = opened (find_entry id m.entries) m.files

abbrev pub deleted : String → Option Entry → Sessions → Sessions
deleted id none m = m
deleted id (some e) m = record { entries = drop_entry id m.entries; files = remove e.path m.files }

-- Delete
unfoldable pub abandon : String → Sessions → Sessions
abandon id m = deleted id (find_entry id m.entries) m

unfoldable pub complete : String → String → Sessions → Sessions
unfolding abandon
complete id promoted m = abandon id m
