-- ===== src/Grant.antt =====
-- internal/grant/grant.go: the table of sharing grants, one row for each resource and subject. The
-- in-memory store and the SQL store answer alike; rows are kept in a list. The order in which Go
-- walks its map is not modelled, and neither is the sorted listing.
pub mod Table
use specula.Prelude.{
  String, Bool, true, false, not, ◌||◌, ◌&&◌, Option, none, some, List, [], ◌∷◌, ◌==◌, keep, map,
  if◌then◌else◌,
}
use specula.Prelude.Int.{ℤ}

abbrev pub subject_org : String
subject_org = "org"

abbrev pub subject_user : String
subject_user = "user"

abbrev pub access_read : String
access_read = "read"

abbrev pub access_write : String
access_write = "write"

-- `created_at` is `none` for Go's zero time.
pub record Grant : Type 0 where
  pub resource_type : String
  pub resource_id : String
  pub subject_type : String
  pub subject_id : String
  pub access : String
  pub granted_by : String
  pub created_at : Option ℤ

abbrev pub Table : Type 0
Table = List Grant

unfoldable pub allows : String → Bool → Bool
allows access need_write =
    if not (access == access_read) && not (access == access_write)
    then false
    else if need_write
    then access == access_write
    else true

unfoldable pub norm_access : String → String
norm_access a = if a == access_write then access_write else access_read

pub record MemKey : Type 0 where
  pub resource_type : String
  pub resource_id : String
  pub subject_type : String
  pub subject_id : String

abbrev pub key_of : Grant → MemKey
key_of g = record {
  resource_type = g.resource_type;
  resource_id = g.resource_id;
  subject_type = g.subject_type;
  subject_id = g.subject_id;
}

unfoldable pub key_eq : MemKey → MemKey → Bool
key_eq a b =
    a.resource_type == b.resource_type
    && a.resource_id == b.resource_id
    && a.subject_type == b.subject_type
    && a.subject_id == b.subject_id

unfoldable pub find : MemKey → Table → Option Grant
find k [] = none
find k (g ∷ gs) = if key_eq (key_of g) k then some g else find k gs

unfoldable pub delete : MemKey → Table → Table
delete k [] = []
delete k (g ∷ gs) = let rest = delete k gs in if key_eq (key_of g) k then rest else g ∷ rest

-- The row that `upsert` writes: the creation time defaults to the clock.
unfoldable pub stamped : ℤ → Grant → Grant
unfolding norm_access
stamped now g = record g {
  access = norm_access g.access;
  created_at = elim g.created_at [ none ↦ some now | some t ↦ some t ];
}

unfoldable pub upsert : ℤ → Grant → Table → Table
unfolding delete stamped
upsert now g gs = stamped now g ∷ delete (key_of g) gs

unfoldable pub granted_orgs : String → String → Table → List String
granted_orgs rt rid [] = []
granted_orgs rt rid (g ∷ gs) =
    let rest = granted_orgs rt rid gs in
    if g.resource_type == rt && g.resource_id == rid && g.subject_type == subject_org
    then g.subject_id ∷ rest
    else rest

abbrev pub org_key : String → String → String → MemKey
org_key rt rid org_id = record {
  resource_type = rt;
  resource_id = rid;
  subject_type = subject_org;
  subject_id = org_id;
}

-- "" where there is no grant.
unfoldable pub access_of : Option Grant → String
unfolding norm_access
access_of none = ""
access_of (some g) = norm_access g.access

unfoldable pub org_access : String → String → String → Table → String
unfolding find access_of
org_access rt rid org_id gs =
    if org_id == "" then "" else access_of (find (org_key rt rid org_id) gs)

unfoldable pub purge_subject : String → String → Table → Table
purge_subject st sid [] = []
purge_subject st sid (g ∷ gs) =
    let rest = purge_subject st sid gs in
    if g.subject_type == st && g.subject_id == sid then rest else g ∷ rest
