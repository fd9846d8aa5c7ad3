-- ===== src/RegistryAuthz/Actions.antt =====
-- What /token grants, by internal/registryauthz/authz.go.
use specula.Prelude.{
  String, ◌≡◌, ◌≢◌, ◌↔◌, ◌⊎◌, inl, inr, Bool, true, false, not, none, some, List, [], ◌∷◌, ◌==◌,
  eq_iff, In, In-keep, keep-In, arith, refl, sym, subst, String-cases,
}
use specula.Acl.{Resource, Subject, Denied, can_access_granted}
use specula.Acl
use specula.Acl.Decision.{anonymous_limits}
use specula.ApiKey.{allows_action}
use specula.Repo.{Repo, authorize, to_acl_resource, normalize_visibility, visibility_public}
use specula.Repo.Decision.{authorize-exact}
use specula.RegistryAuthz.{
  Answer, found, missing, failed, Principal, Authz, action_pull, namespace_of, resolve_org_id,
  get_repo, subject_for_org, resource_of, pull_only,
}
use specula.RegistryAuthz.Token.{
  granted_on, role_for, permits, permits_on, permitted, grant_allows, granted_actions,
  caller_org_ids,
}

permitted-In :
    (a : Authz) (p : Principal) (org_id name : String) (act : String) (requested : List String)
    → In act (permitted a p org_id name requested)
    → In act requested × (permits a p org_id name act ≡ true)
unfolding permitted
permitted-In a p org_id name act [] m = absurd m
permitted-In a p org_id name act (x ∷ xs) m = ground (arith, permitted-In a p org_id name act xs)

granted_unowned :
    (a : Authz) (p : Principal) (name : String) (requested : List String)
    → resolve_org_id a (namespace_of name) ≡ none
    → granted_actions a p name requested ≡ pull_only requested
unfolding granted_actions
granted_unowned a p name requested unowned = ground arith

granted_owned :
    (a : Authz) (p : Principal) (name org_id : String) (requested : List String)
    → resolve_org_id a (namespace_of name) ≡ some org_id
    → granted_actions a p name requested ≡ permitted a p org_id name requested
unfolding granted_actions
granted_owned a p name org_id requested owned = ground arith

pull_only-In :
    (act : String) (requested : List String)
    → In act (pull_only requested) ↔ (In act requested × (act ≡ action_pull))
unfolding pull_only
pull_only-In act requested = (
  λ m.
      let (r, e) = In-keep (λ x. x == action_pull) act requested m in
      (r, (eq_iff act action_pull).0 e),
  λ h. keep-In (λ x. x == action_pull) act requested h.0 ((eq_iff act action_pull).1 h.1),
)

-- Outside every organization's namespace exactly the requested pulls are granted, to everyone.
pub granted_mirror :
    (a : Authz) (p : Principal) (name act : String) (requested : List String)
    → resolve_org_id a (namespace_of name) ≡ none
    → In act (granted_actions a p name requested) ↔ (In act requested × (act ≡ action_pull))
granted_mirror a p name act requested unowned =
    subst (λ l. In act l ↔ (In act requested × (act ≡ action_pull)))
      (sym (granted_unowned a p name requested unowned)) (pull_only-In act requested)

module _ (a : Authz) (p : Principal) (name org_id act : String) (requested : List String)
    (owned : resolve_org_id a (namespace_of name) ≡ some org_id)
    (m : In act (granted_actions a p name requested)) where
  granted-permits : In act requested × (permits a p org_id name act ≡ true)
  granted-permits =
      permitted-In a p org_id name act requested
        (subst (In act) (granted_owned a p name org_id requested owned) m)

-- In a hosted namespace a key with scopes is granted only requested actions that its scopes allow.
pub granted-allows_action :
    (a : Authz) (p : Principal) (name org_id act : String) (requested : List String) (s : String)
    (ss : List String)
    → resolve_org_id a (namespace_of name) ≡ some org_id
    → p.key_scopes ≡ s ∷ ss
    → In act (granted_actions a p name requested)
    → In act requested × (allows_action (s ∷ ss) act ≡ true)
unfolding permits
granted-allows_action a p name org_id act requested s ss owned scopes m =
    let (r, t) = granted-permits a p name org_id act requested owned m in (r, ground arith)

-- The two ways in which an action is permitted on the repository that was looked up.
permits_on_cases :
    (a : Authz) (p : Principal) (org_id act : String) (repo : Answer Repo) (need_write : Bool)
    → permits_on a p org_id repo act need_write ≡ true
    → (authorize
          (resource_of org_id repo)
          (subject_for_org a p org_id)
          need_write
          (granted_on a.grants repo)
          (role_for a p org_id need_write)
        ≡ none)
      ⊎ (grant_allows a p repo need_write ≡ true)
permits_on_cases a p org_id act repo need_write h = ground arith

anonymous_subject :
    (a : Authz) (p : Principal) (org_id : String)
    → p.anonymous ≡ true
    → ((subject_for_org a p org_id).user_id ≡ "") × ((subject_for_org a p org_id).admin ≡ false)
unfolding subject_for_org
anonymous_subject a p org_id anon = ground arith

public_shown :
    (r : Repo)
    → (r.visibility == visibility_public) ≡ false
    → Acl.private ≡ (to_acl_resource r).visibility
unfolding to_acl_resource normalize_visibility
public_shown r f = rw (f, normalize_visibility) refl

public_resource :
    (org_id : String) (repo : Answer Repo)
    → (resource_of org_id repo).visibility ≡ Acl.public
    → (r : Repo) × (repo ≡ found r) × (r.visibility ≡ visibility_public)
unfolding to_acl_resource normalize_visibility
public_resource org_id (found r) h = elim (String-cases r.visibility visibility_public) [
  | inl (e, _) ↦ (r, refl, e)
  | inr (_, f) ↦ absurd (cc (public_shown r f))
]
public_resource org_id missing h = cc
public_resource org_id (failed e) h = cc

no_callers :
    (a : Authz) (p : Principal) (repo : Answer Repo) (need_write : Bool)
    → p.org_id ≡ ""
    → p.email ≡ ""
    → grant_allows a p repo need_write ≡ false
unfolding grant_allows caller_org_ids
no_callers a p repo need_write o e = ground (arith, eq_iff p.org_id "", eq_iff p.email "")

anonymous_on :
    (a : Authz) (p : Principal) (org_id act : String) (repo : Answer Repo) (need_write : Bool)
    → p.anonymous ≡ true
    → authorize
        (resource_of org_id repo)
        (subject_for_org a p org_id)
        need_write
        (granted_on a.grants repo)
        (role_for a p org_id need_write)
      ≡ none
    → (need_write ≡ false) × ((resource_of org_id repo).visibility ≡ Acl.public)
anonymous_on a p org_id act repo need_write anon h =
    let s : Subject = subject_for_org a p org_id in
    let r : Resource = resource_of org_id repo in
    let g : List String = granted_on a.grants repo in
    let (u, ad) = anonymous_subject a p org_id anon in
    let limits = anonymous_limits r s g u ad in
    elim ((authorize-exact r s need_write g (role_for a p org_id need_write)).0 h) [
      | inl c ↦ by_need need_write limits c
      | inr (named, _) ↦ absurd (named u)
    ]
  where
    by_need :
        (w : Bool)
        → (can_access_granted
              (resource_of org_id repo)
              (subject_for_org a p org_id)
              true
              (granted_on a.grants repo)
            ≢ none)
          × ((can_access_granted
                  (resource_of org_id repo)
                  (subject_for_org a p org_id)
                  false
                  (granted_on a.grants repo)
                ≡ none)
              ↔ ((resource_of org_id repo).visibility ≡ Acl.public))
        → can_access_granted
            (resource_of org_id repo)
            (subject_for_org a p org_id)
            w
            (granted_on a.grants repo)
          ≡ none
        → (w ≡ false) × ((resource_of org_id repo).visibility ≡ Acl.public)
    by_need true limits c = absurd (limits.0 c)
    by_need false limits c = (refl, limits.1.0 c)

-- In a hosted namespace an anonymous caller, who has neither a key's organization nor an email, is
-- granted at most a pull, and only on a repository that exists and is public.
pub anonymous_granted :
    (a : Authz) (p : Principal) (name org_id act : String) (requested : List String)
    → resolve_org_id a (namespace_of name) ≡ some org_id
    → p.anonymous ≡ true
    → p.org_id ≡ ""
    → p.email ≡ ""
    → In act (granted_actions a p name requested)
    → (act ≡ action_pull)
      × ((r : Repo) × (get_repo a.repo_fault org_id name a.repos ≡ found r)
          × (r.visibility ≡ visibility_public))
unfolding permits
anonymous_granted a p name org_id act requested owned anon o e m =
    let repo : Answer Repo = get_repo a.repo_fault org_id name a.repos in
    let (r, t) = granted-permits a p name org_id act requested owned m in
    elim (permits_on_cases a p org_id act repo (not (act == action_pull)) t) [
      | inl h ↦
          let (pull, shown) = anonymous_on a p org_id act repo (not (act == action_pull)) anon h in
          (ground (arith, eq_iff act action_pull, pull), public_resource org_id repo shown)
      | inr g ↦ cc (no_callers a p repo (not (act == action_pull)) o e)
    ]
