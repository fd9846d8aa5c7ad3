-- ===== src/Examples/Access.antt =====
-- The theorems on access control at concrete inputs.
use specula.Prelude.{String, ◌≡◌, ◌≢◌, ◌↔◌, ◌⊎◌, true, false, none, some, [], ◌∷◌, any, refl}
use specula.Prelude.Text.{folds_to}
use specula.Acl
use specula.Acl.{Subject, Resource, read_only, can_access, can_access_granted}
use specula.Acl.Decision.{MayRead, MayWrite, can_access_granted-exact}
use specula.ApiKey.{scope_pull, scope_push, names, allows_action}
use specula.ApiKey.Scopes.{unknown_scopes_allow_all}
use specula.Org.{role_editor, role_admin}
use specula.Repo.{OrgRoleGrant, authorize}
use specula.Repo.Decision.{Holds, authorize-exact}

-- A document of one organization, and a member of another that holds a grant.
abbrev document : Resource
document = record {
  owner_user_id = "ann";
  org_id = "acme";
  visibility = Acl.org;
  access = Acl.read;
}

abbrev draft : Resource
draft = record document { visibility = "private" }

abbrev guest : Subject
guest = record { user_id = "bob"; org_id = "initech"; admin = false }

abbrev nobody : Subject
nobody = record { user_id = ""; org_id = ""; admin = false }

can_access_granted-exact_example :
    ((can_access_granted document guest false ("initech" ∷ []) ≡ none)
      ↔ MayRead document guest ("initech" ∷ []))
    × ((can_access_granted document guest true ("initech" ∷ []) ≡ none)
        ↔ MayWrite document guest ("initech" ∷ []))
    × ((can_access_granted document guest true ("initech" ∷ []) ≡ some read_only)
        ↔ (MayRead document guest ("initech" ∷ []) × ¬ MayWrite document guest ("initech" ∷ [])))
can_access_granted-exact_example = can_access_granted-exact document guest ("initech" ∷ [])

not_org : ◌≢◌ {A = String} "private" Acl.org
not_org h = cc

not_public : ◌≢◌ {A = String} "private" Acl.public
not_public h = cc

guest_reads : can_access_granted document guest false ("initech" ∷ []) ≡ none
unfolding can_access_granted Acl.can_read Acl.normalize_visibility Acl.is_owner Acl.same_org
guest_reads = refl

no_pull : any (names scope_pull) ("read-only" ∷ []) ≡ false
unfolding folds_to
no_pull = refl

no_push : any (names scope_push) ("read-only" ∷ []) ≡ false
unfolding folds_to
no_push = refl

unknown_scopes_allow_all_example :
    (allows_action ("read-only" ∷ []) "pull" ≡ true)
    × (allows_action ("read-only" ∷ []) "push" ≡ true)
    × (allows_action ("read-only" ∷ []) "delete" ≡ true)
unknown_scopes_allow_all_example = unknown_scopes_allow_all ("read-only" ∷ []) no_pull no_push

abbrev editor : OrgRoleGrant
editor = record { org_id = "acme"; have = role_admin; need = role_editor }

authorize-exact_example : (authorize document guest true [] editor ≡ none) ↔ (
    (can_access_granted document guest true [] ≡ none)
    ⊎ ((guest.user_id ≢ "") × Holds editor "acme"))
authorize-exact_example = authorize-exact document guest true [] editor
