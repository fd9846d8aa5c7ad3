-- ===== src/Repo/Decision.antt =====
-- The shared decision of internal/repo/authz.go.
use specula.Prelude.{String, ◌≡◌, ◌≢◌, ◌↔◌, ◌⊎◌, Bool, true, none, List, arith, eq_iff}
use specula.Acl.{Resource, Subject, can_access_granted}
use specula.Org.{normalize_legacy_role, at_least}
use specula.Repo.{OrgRoleGrant, allows, or_role, authorize}

-- The caller holds, in the resource's own organization, a recognised role of at least the needed
-- rung.
pub record Holds (g : OrgRoleGrant) (resource_org_id : String) : Type 0 where
  pub named : g.org_id ≢ ""
  pub here : g.org_id ≡ resource_org_id
  pub role : normalize_legacy_role g.have ≢ ""
  pub needed : g.need ≢ ""
  pub enough : at_least (normalize_legacy_role g.have) g.need ≡ true

allows-exact : (g : OrgRoleGrant) (o : String) → (allows g o ≡ true) ↔ Holds g o
unfolding allows
allows-exact g o = ground (
  arith,
  eq_iff g.org_id "",
  eq_iff g.org_id o,
  eq_iff (normalize_legacy_role g.have) "",
  eq_iff g.need "",
)

-- Access is allowed exactly when the resource's own rules allow it or the identified caller holds
-- the needed rung in the resource's organization.
pub authorize-exact :
    (res : Resource) (s : Subject) (need_write : Bool) (granted : List String) (role : OrgRoleGrant)
    → (authorize res s need_write granted role ≡ none) ↔ (
        (can_access_granted res s need_write granted ≡ none)
        ⊎ ((s.user_id ≢ "") × Holds role res.org_id))
unfolding authorize or_role
authorize-exact res s need_write granted role =
    ground (arith, eq_iff s.user_id "", allows-exact role res.org_id)

-- A refusal is the refusal of the resource's own rules.
pub authorize_denied :
    (res : Resource) (s : Subject) (need_write : Bool) (granted : List String) (role : OrgRoleGrant)
    → authorize res s need_write granted role ≢ none
    → authorize res s need_write granted role ≡ can_access_granted res s need_write granted
unfolding authorize or_role
authorize_denied res s need_write granted role h = ground arith
