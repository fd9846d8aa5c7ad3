-- ===== src/RegistryAuthz/Token.antt =====
-- The decision at /token of internal/registryauthz/authz.go: `GrantedActions`.
use specula.Prelude.{
  String, Bool, true, false, not, Option, none, some, List, [], ◌∷◌, ◌==◌, any, keep, if◌then◌else◌,
}
use specula.ApiKey.{allows_action}
use specula.Acl.{Denied}
use specula.Grant.{Table, granted_orgs, org_access}
use specula.Grant
use specula.Repo.{Repo, OrgRoleGrant, authorize}
use specula.RegistryAuthz.{
  Answer, found, OrgStore, Principal, Authz, action_pull, namespace_of, resolve_org_id, get_repo,
  subject_for_org, org_role_of, role_needed_for, resource_of, pull_only,
}

abbrev pub orgs_in : Option OrgStore → String → List String
orgs_in none email = []
orgs_in (some orgs) email =
    if email == ""
    then []
    else elim (orgs.orgs_for_email email) [ found ids ↦ keep (λ o. not (o == "")) ids | _ ↦ [] ]

unfoldable pub caller_org_ids : Authz → Principal → List String
caller_org_ids a p = if not (p.org_id == "") then p.org_id ∷ [] else orgs_in a.orgs p.email

-- The grants on a repository that was found.
abbrev pub granted_on : Option Table → Answer Repo → List String
granted_on (some table) (found r) = granted_orgs "repo" r.id table
granted_on _ _ = []

abbrev pub shared_with : Option Table → Answer Repo → List String → Bool → Bool
shared_with (some table) (found r) callers need_write =
    any (λ oid. Grant.allows (org_access "repo" r.id oid table) need_write) callers
shared_with _ _ callers need_write = false

unfoldable pub grant_allows : Authz → Principal → Answer Repo → Bool → Bool
unfolding caller_org_ids
grant_allows a p r need_write = shared_with a.grants r (caller_org_ids a p) need_write

abbrev pub allowed : Option Denied → Bool
allowed none = true
allowed (some d) = false

abbrev pub key_refuses : List String → String → Bool
key_refuses [] action = false
key_refuses (s ∷ ss) action = not (allows_action (s ∷ ss) action)

-- The role that stands in for ownership in `org_id`.
abbrev pub role_for : Authz → Principal → String → Bool → OrgRoleGrant
role_for a p org_id need_write = record {
  org_id = org_id;
  have = org_role_of a p org_id;
  need = role_needed_for need_write;
}

-- One round of the loop over the requested actions, with the repository that was looked up.
abbrev pub permits_on : Authz → Principal → String → Answer Repo → String → Bool → Bool
permits_on a p org_id repo action need_write =
    if key_refuses p.key_scopes action
    then false
    else if allowed (
        authorize (resource_of org_id repo) (subject_for_org a p org_id) need_write
          (granted_on a.grants repo) (role_for a p org_id need_write))
    then true
    else grant_allows a p repo need_write

unfoldable pub permits : Authz → Principal → String → String → String → Bool
permits a p org_id name action =
    permits_on a p org_id (get_repo a.repo_fault org_id name a.repos) action
      (not (action == action_pull))

unfoldable pub permitted : Authz → Principal → String → String → List String → List String
unfolding permits
permitted a p org_id name [] = []
permitted a p org_id name (action ∷ rest) =
    let granted = permitted a p org_id name rest in
    if permits a p org_id name action then action ∷ granted else granted

unfoldable pub granted_actions : Authz → Principal → String → List String → List String
unfolding permitted pull_only
granted_actions a p name requested = elim (resolve_org_id a (namespace_of name)) [
  | none ↦ pull_only requested
  | some org_id ↦ permitted a p org_id name requested
]
