-- ===== src/Routing/Scoped.antt =====
-- The scope that the token of a /v2/ request needs, and the access that its handler authorizes.
use specula.Prelude.{
  String, Bool, true, false, ◌||◌, ◌≡◌, refl, sym, ◌∙◌, ap, subst, inl, inr, Option, none, some,
  arith, eq_iff, ◌==◌, String-cases, if◌then◌else◌,
}
use specula.Prelude.Strings.{cut_prefix, cut_first, cut_last, cut_suffix}
use specula.RegistryAuthz.{action_push, action_delete}
use specula.Routing.{
  Route, serve_read, route, authorizes, upload_route, manifest_route, blob_route, tags_route,
  referrers_route, fifth, fourth, third, second, first, under_v2, action_for_method, scoped,
  scope_fifth, scope_fourth, scope_third, scope_second, scope_first, scope_under,
  parse_resource_scope,
}

-- What the handler authorizes is what the scope grants.
abbrev Agrees : Route → Option (String × String) → Type 0
Agrees r scope = (p : String × String) → authorizes r ≡ some p → scope ≡ some p

upload-Agrees :
    (method name tail : String) → Agrees (upload_route method name tail) (scoped name action_push)
unfolding authorizes
upload-Agrees method name tail p h = ground arith

put-action : (method : String) → (method == "PUT") ≡ true → action_for_method method ≡ action_push
unfolding action_for_method
put-action method h =
    subst (λ m. action_for_method m ≡ action_push) (sym ((eq_iff method "PUT").0 h)) refl

delete-action :
    (method : String) → (method == "DELETE") ≡ true → action_for_method method ≡ action_delete
unfolding action_for_method
delete-action method h =
    subst (λ m. action_for_method m ≡ action_delete) (sym ((eq_iff method "DELETE").0 h)) refl

module _ (method : String) where
  manifest-Agrees :
      (name ref : String)
      → Agrees (manifest_route method name ref) (scoped name (action_for_method method))
  unfolding authorizes
  manifest-Agrees name ref p h = ground (arith, put-action method, delete-action method)

  blob-Agrees :
      (name digest : String)
      → Agrees (blob_route method name digest) (scoped name (action_for_method method))
  unfolding authorizes
  blob-Agrees name digest p h = ground (arith, delete-action method)

  tags-Agrees :
      (name : String) → Agrees (tags_route method name) (scoped name (action_for_method method))
  unfolding authorizes action_for_method
  tags-Agrees name p h = ground arith

  referrers-Agrees :
      (name subject : String)
      → Agrees (referrers_route method name subject) (scoped name (action_for_method method))
  unfolding authorizes action_for_method
  referrers-Agrees name subject p h = ground arith

  fifth-Agrees :
      (o : Option (String × String))
      → Agrees (fifth method o) (scope_fifth (action_for_method method) o)
  unfolding authorizes
  fifth-Agrees none p h = cc
  fifth-Agrees (some (name, subject)) p h = referrers-Agrees name subject p h

  module _ (rest : String) where
    fourth-Agrees :
        (o : Option String)
        → Agrees (fourth method rest o) (scope_fourth (action_for_method method) rest o)
    fourth-Agrees none p h = fifth-Agrees (cut_last "/referrers/" rest) p h
    fourth-Agrees (some name) p h = tags-Agrees name p h

    third-Agrees :
        (o : Option (String × String))
        → Agrees (third method rest o) (scope_third (action_for_method method) rest o)
    third-Agrees none p h = fourth-Agrees (cut_suffix "/tags/list" rest) p h
    third-Agrees (some (name, digest)) p h = blob-Agrees name digest p h

    second-Agrees :
        (o : Option (String × String))
        → Agrees (second method rest o) (scope_second (action_for_method method) rest o)
    second-Agrees none p h = third-Agrees (cut_last "/blobs/" rest) p h
    second-Agrees (some (name, ref)) p h = manifest-Agrees name ref p h

    first-Agrees :
        (o : Option (String × String))
        → Agrees (first method rest o) (scope_first (action_for_method method) rest o)
    first-Agrees none p h = second-Agrees (cut_last "/manifests/" rest) p h
    first-Agrees (some (name, tail)) p h = upload-Agrees method name tail p h

  under-Agrees :
      (o : Option String) → Agrees (under_v2 method o) (scope_under (action_for_method method) o)
  unfolding authorizes
  under-Agrees none p h = cc
  under-Agrees (some rest) p h = first-Agrees rest (cut_first "/blobs/uploads" rest) p h

-- Whenever ServeHTTP sends a request to a handler that authorizes an action on a repository, the scope that
-- the token middleware asks for is that action on that repository.
pub route-scope :
    (method path : String) (p : String × String)
    → authorizes (route method path) ≡ some p
    → parse_resource_scope method path ≡ some p
unfolding route parse_resource_scope authorizes cut_prefix
route-scope method path p h = elim (String-cases path "/v2/") [
  | inl (same, t) ↦ absurd (nothing (sym (by_path true t) ∙ h))
  | inr (other, t) ↦ elim (String-cases path "/v2") [
    | inl (bare, u) ↦ absurd (
        nothing (
          sym (by_path false t ∙ ap (λ q. authorizes (under_v2 method (cut_prefix "/v2/" q))) bare)
          ∙ h))
    | inr (longer, u) ↦
        ap
          (λ b. if b then none else scope_under (action_for_method method) (cut_prefix "/v2/" path))
          (both t u)
        ∙ under-Agrees method (cut_prefix "/v2/" path) p (sym (by_path false t) ∙ h)
  ]
]
  where
    nothing : none ≡ some p → ⊥
    nothing q = cc

    by_path :
        (b : Bool)
        → (path == "/v2/") ≡ b
        → authorizes (route method path)
          ≡ authorizes (if b then serve_read else under_v2 method (cut_prefix "/v2/" path))
    by_path b t =
        ap (λ b. authorizes (if b then serve_read else under_v2 method (cut_prefix "/v2/" path))) t

    both :
        (path == "/v2/") ≡ false
        → (path == "/v2") ≡ false
        → (path == "/v2" || path == "/v2/") ≡ false
    both t u = ground arith
