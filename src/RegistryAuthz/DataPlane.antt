-- ===== src/RegistryAuthz/DataPlane.antt =====
-- The data plane of internal/registryauthz/authz.go, which trusts the verified token: `Authorize`
-- with the creation of a repository on its first push, `ResolveHosted`, `IsOwnedNamespace` and
-- `AuthorizeRead`; and `Allows` of internal/registrytoken/token.go.
use specula.Prelude.{
  String, Bool, true, false, not, ◌||◌, Option, none, some, List, [], ◌∷◌, ◌++◌, ◌==◌, any,
  if◌then◌else◌,
}
use specula.Prelude.Text.{trim_space}
use specula.Repo.{Repo, normalize_visibility, visibility_private, visibility_public}
use specula.RegistryAuthz.{
  Answer, found, missing, failed, Authz, action_pull, action_push, namespace_of, resolve_org_id,
  find_repo, get_repo,
}

pub record Access : Type 0 where
  pub kind : String
  pub name : String
  pub actions : List String

pub record AccessClaims : Type 0 where
  pub subject : String
  pub access : List Access

unfoldable pub allows : AccessClaims → String → String → Bool
allows c repo_name action = scan c.access
  where
    scan : List Access → Bool
    scan [] = false
    scan (a ∷ rest) =
        let later = scan rest in
        if not (a.kind == "repository") || not (a.name == repo_name)
        then later
        else any (λ act. act == action) a.actions || later

pub data Error : Type 0 where
  forbidden not_found unauthorized : Error
  store : String → Error

pub data Result (A : Type 0) : Type 0 where
  ok : A → Result A
  err : Error → Result A

abbrev pub new_row : String → String → String → String → String → Repo
new_row id org_id name visibility owner = record {
  id = id;
  org_id = org_id;
  name = trim_space name;
  visibility = normalize_visibility visibility;
  owner_user_id = owner;
}

abbrev insert : Option String → Option Repo → Repo → List Repo → Result Repo × List Repo
insert (some e) _ row rows = (err (store e), rows)
insert none none row rows = (ok row, rows ++ row ∷ [])
insert none (some r) row rows =
    (err (store "UNIQUE constraint failed: repos.org_id, repos.name"), rows)

-- `INSERT INTO repos`: the unique index on (org_id, name) refuses a second row. `id` is the fresh
-- identifier, `fault` an error of the database.
unfoldable pub create_repo :
    Option String → String → String → String → String → String → List Repo → Result Repo × List Repo
create_repo fault id org_id name visibility owner rows =
    insert fault (find_repo org_id (trim_space name) rows) (new_row id org_id name visibility owner)
      rows

-- What the environment does during one `Authorize`: the faults of its three database calls, the
-- fresh id, and the rows that other requests leave between the first call and the second.
pub record Weather : Type 0 where
  pub get_fault : Option String
  pub create_fault : Option String
  pub again_fault : Option String
  pub fresh_id : String
  pub meanwhile : List Repo → List Repo

abbrev reread : Result Repo × List Repo → Answer Repo → Result Repo × List Repo
reread (ok r, rows) again = (ok r, rows)
reread (err e, rows) (found r) = (ok r, rows)
reread (err e, rows) _ = (err e, rows)

-- The first push: create the repository, and on a conflict take the winner's row.
unfoldable pub first_push : Weather → String → String → String → List Repo → Result Repo × List Repo
unfolding create_repo
first_push w org_id name owner rows =
    let created = create_repo w.create_fault w.fresh_id org_id name visibility_private owner rows in
    reread created (get_repo w.again_fault org_id name created.1)

abbrev act_on :
    Weather → String → String → String → String → List Repo → Answer Repo → Result Repo × List Repo
act_on w org_id name owner action rows (found r) = (ok r, rows)
act_on w org_id name owner action rows (failed e) = (err (store e), rows)
act_on w org_id name owner action rows missing =
    if not (action == action_push)
    then (err not_found, rows)
    else first_push w org_id name owner (w.meanwhile rows)

abbrev authorize_claims :
    Authz → Weather → Option AccessClaims → String → String → List Repo → Result Repo × List Repo
authorize_claims a w none name action rows = (err forbidden, rows)
authorize_claims a w (some c) name action rows =
    if not (allows c name action)
    then (err forbidden, rows)
    else elim (resolve_org_id a (namespace_of name)) [
      | none ↦ (err not_found, rows)
      | some org_id ↦
          act_on w org_id name c.subject action rows (get_repo w.get_fault org_id name rows)
    ]

unfoldable pub authorize :
    Authz → Weather → Option AccessClaims → String → String → List Repo → Result Repo × List Repo
unfolding allows first_push
authorize a w claims name action rows = authorize_claims a w claims name action rows

unfoldable pub resolve_hosted : Authz → String → Result Bool
resolve_hosted a name = elim (resolve_org_id a (namespace_of name)) [
  | none ↦ ok false
  | some org_id ↦ elim (get_repo a.repo_fault org_id name a.repos) [
    | found r ↦ ok true
    | missing ↦ ok false
    | failed e ↦ err (store e)
  ]
]

unfoldable pub is_owned_namespace : Authz → String → Bool
is_owned_namespace a name = elim (resolve_org_id a (namespace_of name)) [
  | none ↦ false
  | some org_id ↦ true
]

-- The repository exists and is public.
unfoldable pub is_public_repo : Authz → String → Bool
is_public_repo a name = elim (resolve_org_id a (namespace_of name)) [
  | none ↦ false
  | some org_id ↦ elim (get_repo a.repo_fault org_id name a.repos) [
    | found r ↦ normalize_visibility r.visibility == visibility_public
    | _ ↦ false
  ]
]

-- `none` allows the read.
unfoldable pub authorize_read : Authz → Option AccessClaims → String → Option Error
unfolding allows is_public_repo
authorize_read a none name = if is_public_repo a name then none else some unauthorized
authorize_read a (some c) name =
    if allows c name action_pull
    then none
    else if is_public_repo a name
    then none
    else some forbidden
