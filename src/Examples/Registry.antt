-- ===== src/Examples/Registry.antt =====
-- The theorems on the registry's authorization at concrete inputs.
use specula.Prelude.{String, ◌≡◌, true, false, none, some, List, [], ◌∷◌, refl, inl, In, ◌==◌}
use specula.ApiKey.{allows_action}
use specula.Prelude.Text.{folds_to, trim_space}
use specula.Acl.{can_access_granted, can_read, normalize_visibility}
use specula.Repo.{authorize as repo_authorize, to_acl_resource, Repo, visibility_public}
use specula.RegistryAuthz.{
  found, missing, OrgStore, Principal, Authz, action_pull, action_push, namespace_of,
  resolve_org_id, subject_for_org, row_is, get_repo, find_repo,
}
use specula.RegistryAuthz.Token.{granted_actions}
use specula.RegistryAuthz.DataPlane.{allows, AccessClaims, Weather, authorize}
use specula.RegistryAuthz.Actions.{granted-allows_action, anonymous_granted}
use specula.RegistryAuthz.FirstPush.{Lands, IsUnique, push_finds_its_row}

-- One organization, "acme", whose id is "o1".
abbrev orgs : OrgStore
orgs = record {
  by_slug = λ s. elim (s == "acme") [ true ↦ found "o1" | false ↦ missing ];
  by_id = λ s. missing;
  member_role = λ o e. missing;
  orgs_for_email = λ e. missing;
}

abbrev app : Repo
app = record {
  id = "r1";
  org_id = "o1";
  name = "acme/app";
  visibility = visibility_public;
  owner_user_id = "ann";
}

abbrev registry : Authz
registry = record { orgs = some orgs; repos = app ∷ []; repo_fault = none; grants = none }

abbrev anonymous : Principal
anonymous = record { subject = ""; org_id = ""; email = ""; anonymous = true; key_scopes = [] }

-- A key of the owner that may only pull.
abbrev puller : Principal
puller = record {
  subject = "ann";
  org_id = "o1";
  email = "";
  anonymous = false;
  key_scopes = "pull" ∷ [];
}

abbrev both : List String
both = "pull" ∷ "push" ∷ []

abbrev calm : Weather
calm = record {
  get_fault = none;
  create_fault = none;
  again_fault = none;
  fresh_id = "r2";
  meanwhile = λ rows. rows;
}

abbrev pusher : AccessClaims
pusher = record {
  subject = "ann";
  access = record { kind = "repository"; name = "acme/web"; actions = "push" ∷ [] } ∷ [];
}

acme : resolve_org_id registry (namespace_of "acme/app") ≡ some "o1"
unfolding resolve_org_id namespace_of
acme = refl

no_org : resolve_org_id registry (namespace_of "library/app") ≡ none
unfolding resolve_org_id namespace_of
no_org = refl

acme_web : resolve_org_id registry (namespace_of "acme/web") ≡ some "o1"
unfolding resolve_org_id namespace_of
acme_web = refl

scoped : allows pusher "acme/web" action_push ≡ true
unfolding allows
scoped = refl

unscoped : (c : AccessClaims) → none ≡ some c → allows c "acme/web" action_push ≡ false
unscoped c h = cc

app-IsUnique : IsUnique (app ∷ [])
unfolding find_repo
app-IsUnique = (refl, tt)

pull_granted : In "pull" (granted_actions registry puller "acme/app" both)
unfolding granted_actions resolve_org_id namespace_of allows_action folds_to trim_space
    repo_authorize can_access_granted can_read subject_for_org normalize_visibility get_repo
    find_repo row_is to_acl_resource
pull_granted = inl refl

pull_anonymous : In "pull" (granted_actions registry anonymous "acme/app" both)
unfolding granted_actions resolve_org_id namespace_of allows_action folds_to trim_space
    repo_authorize can_access_granted can_read subject_for_org normalize_visibility get_repo
    find_repo row_is to_acl_resource
pull_anonymous = inl refl

granted-allows_action_example : In "pull" both × (allows_action ("pull" ∷ []) "pull" ≡ true)
granted-allows_action_example =
    granted-allows_action registry puller "acme/app" "o1" "pull" both "pull" [] acme refl
      pull_granted

anonymous_granted_example :
    (◌≡◌ {A = String} "pull" action_pull)
    × ((r : Repo) × (get_repo none "o1" "acme/app" (app ∷ []) ≡ found r)
        × (r.visibility ≡ visibility_public))
anonymous_granted_example =
    anonymous_granted registry anonymous "acme/app" "o1" "pull" both acme refl refl refl
      pull_anonymous

push_finds_its_row_example :
    Lands "o1" "acme/web" (authorize registry calm (some pusher) "acme/web" action_push (app ∷ []))
push_finds_its_row_example =
    push_finds_its_row registry calm pusher "acme/web" "o1" (app ∷ []) scoped acme_web refl refl
      refl
