-- ===== src/RegistryAuthz.antt =====
-- internal/registryauthz/authz.go, with the principal and the token claims of
-- internal/registrytoken: which registry actions a caller is granted, the repository that a write
-- acts on, and who may read a hosted repository. The organization store is a parameter; the
-- repositories are the rows of internal/repo/sql.go and the grants are the table of Grant. What other
-- requests write between two calls of one handler is an argument of the handler.
pub mod Token
pub mod DataPlane
pub mod Namespace
pub mod Actions
pub mod FirstPush
use Prim.Native.Char.{code}
use specula.Prelude.{
  ℕ, String, Bool, true, false, not, ◌||◌, ◌&&◌, Option, none, some, List, [], ◌∷◌, ◌++◌, ◌==◌, eqb,
  any, keep, length, ltb, if◌then◌else◌,
}
use specula.Prelude.Text.{trim_space}
use specula.Acl.{Subject, Resource}
use specula.Acl
use specula.ApiKey.{allows_action}
use specula.Grant.{Table, granted_orgs, org_access}
use specula.Grant
use specula.Org.{normalize_role, role_admin, role_editor, role_viewer}
use specula.Repo.{
  Repo, to_acl_resource, authorize, normalize_visibility, visibility_private, visibility_public,
}

abbrev pub action_pull : String
action_pull = "pull"

abbrev pub action_push : String
action_push = "push"

abbrev pub action_delete : String
action_delete = "delete"

-- What a store answers: a row, no row, or an error.
pub data Answer (A : Type 0) : Type 0 where
  found : A → Answer A
  missing : Answer A
  failed : String → Answer A

-- The organization store, by slug, by id, by membership (the member's role) and by email.
pub record OrgStore : Type 0 where
  pub by_slug : String → Answer String
  pub by_id : String → Answer String
  pub member_role : String → String → Answer String
  pub orgs_for_email : String → Answer (List String)

pub record Principal : Type 0 where
  pub subject : String
  pub org_id : String
  pub email : String
  pub anonymous : Bool
  pub key_scopes : List String

-- `repo_fault` is the error of a repository database that cannot be read.
pub record Authz : Type 0 where
  pub orgs : Option OrgStore
  pub repos : List Repo
  pub repo_fault : Option String
  pub grants : Option Table

-- The part of a name before its first slash.
before_slash : String → Option String
before_slash String.[] = none
before_slash (String.◌∷◌ c s) =
    let rest = before_slash s in
    if eqb (code c) b'/'
    then some ""
    else elim rest [ none ↦ none | some n ↦ some (String.◌∷◌ c n) ]

unfoldable pub namespace_of : String → String
unfolding before_slash
namespace_of name = elim (before_slash name) [ none ↦ "" | some n ↦ n ]

-- The first of two answers that is a row.
abbrev or_else : Answer String → Option String → Option String
or_else (found o) next = some o
or_else missing next = next
or_else (failed e) next = next

abbrev resolve_in : Option OrgStore → String → Option String
resolve_in none ns = none
resolve_in (some orgs) ns =
    if ns == "" then none else or_else (orgs.by_slug ns) (or_else (orgs.by_id ns) none)

unfoldable pub resolve_org_id : Authz → String → Option String
resolve_org_id a ns = resolve_in a.orgs ns

-- WHERE org_id = ? AND name = ?
unfoldable pub row_is : String → String → Repo → Bool
row_is org_id name r = r.org_id == org_id && r.name == name

unfoldable pub find_repo : String → String → List Repo → Option Repo
find_repo org_id name [] = none
find_repo org_id name (r ∷ rs) = if row_is org_id name r then some r else find_repo org_id name rs

abbrev pub answered : Option Repo → Answer Repo
answered none = missing
answered (some r) = found r

unfoldable pub get_repo : Option String → String → String → List Repo → Answer Repo
get_repo (some e) org_id name rows = failed e
get_repo none org_id name rows = answered (find_repo org_id (trim_space name) rows)

abbrev role_in : Option OrgStore → String → String → Answer String
role_in none org_id email = missing
role_in (some orgs) org_id email = if email == "" then missing else orgs.member_role org_id email

unfoldable pub subject_for_org : Authz → Principal → String → Subject
subject_for_org a p org_id =
    if p.anonymous || p.subject == ""
    then record { user_id = ""; org_id = ""; admin = false }
    else if not (p.org_id == "")
    then record { user_id = p.subject; org_id = p.org_id; admin = false }
    else elim (role_in a.orgs org_id p.email) [
      | found role ↦ record { user_id = p.subject; org_id = org_id; admin = false }
      | _ ↦ record { user_id = p.subject; org_id = ""; admin = false }
    ]

unfoldable pub org_role_of : Authz → Principal → String → String
org_role_of a p org_id =
    if p.anonymous || p.subject == "" || org_id == ""
    then ""
    else if not (p.org_id == "")
    then (if not (p.org_id == org_id) then "" else role_admin)
    else elim (role_in a.orgs org_id p.email) [ found role ↦ normalize_role role | _ ↦ "" ]

unfoldable pub role_needed_for : Bool → String
role_needed_for need_write = if need_write then role_editor else role_viewer

-- A repository that does not exist yet is an org-writable resource.
abbrev new_resource : String → Resource
new_resource org_id = record {
  owner_user_id = "";
  org_id = org_id;
  visibility = Acl.org;
  access = Acl.write;
}

abbrev pub resource_of : String → Answer Repo → Resource
resource_of org_id (found r) = to_acl_resource r
resource_of org_id missing = new_resource org_id
resource_of org_id (failed e) = new_resource org_id

unfoldable pub resource_for : Authz → String → String → Resource
resource_for a org_id name = resource_of org_id (get_repo a.repo_fault org_id name a.repos)

unfoldable pub pull_only : List String → List String
pull_only requested = keep (λ action. action == action_pull) requested
