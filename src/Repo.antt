-- ===== src/Repo.antt =====
-- internal/repo/repo.go and internal/repo/authz.go: a hosted repository as a resource, and the
-- decision that joins the resource's own access rules with the role ladder of its organization.
pub mod Decision
pub mod Tags
use specula.Prelude.{
  ℕ, String, Bool, true, false, not, ◌||◌, ◌&&◌, Option, none, some, List, ◌==◌, if◌then◌else◌,
}
use specula.Acl.{Subject, Resource, Denied, can_access_granted}
use specula.Acl
use specula.Org.{normalize_legacy_role, at_least}

abbrev pub visibility_private : String
visibility_private = "private"

abbrev pub visibility_public : String
visibility_public = "public"

pub record Repo : Type 0 where
  pub id : String
  pub org_id : String
  pub name : String
  pub visibility : String
  pub owner_user_id : String

unfoldable pub normalize_visibility : String → String
normalize_visibility v = if v == visibility_public then visibility_public else visibility_private

unfoldable pub to_acl_resource : Repo → Resource
unfolding normalize_visibility
to_acl_resource r = record {
  owner_user_id = r.owner_user_id;
  org_id = r.org_id;
  visibility =
      if normalize_visibility r.visibility == visibility_public then Acl.public else Acl.private;
  access = Acl.read;
}

-- The role that the caller holds in an organization, and the rung that stands in for ownership.
pub record OrgRoleGrant : Type 0 where
  pub org_id : String
  pub have : String
  pub need : String

unfoldable pub allows : OrgRoleGrant → String → Bool
allows g resource_org_id =
    if g.org_id == "" || not (g.org_id == resource_org_id)
    then false
    else let have = normalize_legacy_role g.have in
      if have == "" || g.need == "" then false else at_least have g.need

-- What `authorize` makes of the per-resource decision.
or_role : Option Denied → Resource → Subject → OrgRoleGrant → Option Denied
unfolding allows
or_role none res s role = none
or_role (some err) res s role =
    if s.user_id == "" then some err else if allows role res.org_id then none else some err

unfoldable pub authorize : Resource → Subject → Bool → List String → OrgRoleGrant → Option Denied
unfolding or_role
authorize res s need_write granted role =
    or_role (can_access_granted res s need_write granted) res s role
