-- ===== src/Routing.antt =====
-- The routes of /v2/: internal/handler/registry/registry.go (ServeHTTP) sends a request to a handler, and
-- internal/registrytoken/scope.go says which scope the token of a request needs, and parses the scopes
-- that a token request asks for.
pub mod Scoped
use specula.Prelude.{
  String, Bool, true, false, not, ◌||◌, ◌&&◌, Option, none, some, List, [], ◌∷◌, ◌==◌,
  if◌then◌else◌,
}
use specula.Prelude.Text.{trim_space}
use specula.Prelude.Strings.{cut_prefix, cut_first, cut_last, cut_suffix, split}
use specula.RegistryAuthz.{action_pull, action_push, action_delete}

-- What ServeHTTP does with a request: the handler that it calls, with the parts of the path, or the
-- answer that it gives.
pub data Route : Type 0 where
  serve_read : Route
  start_upload : String → Route
  patch_upload complete_upload upload_status : String → String → Route
  put_manifest delete_manifest : String → String → Route
  delete_blob : String → String → Route
  list_tags : String → Route
  list_referrers : String → String → Route
  bad_request : String → Route
  method_not_allowed : Route

abbrev or_text : String → Option String → String
or_text s none = s
or_text s (some rest) = rest

abbrev pub upload_route : String → String → String → Route
upload_route method name tail =
    let uuid = or_text tail (cut_prefix "/" tail) in
    if name == ""
    then bad_request "NAME_INVALID"
    else if method == "POST"
    then start_upload name
    else if method == "PATCH"
    then patch_upload name uuid
    else if method == "PUT"
    then complete_upload name uuid
    else if method == "GET"
    then upload_status name uuid
    else method_not_allowed

abbrev pub manifest_route : String → String → String → Route
manifest_route method name ref =
    if name == "" || ref == ""
    then bad_request "NAME_INVALID"
    else if method == "PUT"
    then put_manifest name ref
    else if method == "DELETE"
    then delete_manifest name ref
    else serve_read

abbrev pub blob_route : String → String → String → Route
blob_route method name digest =
    if name == "" || digest == ""
    then bad_request "DIGEST_INVALID"
    else if method == "DELETE"
    then delete_blob name digest
    else serve_read

abbrev pub reads : String → Bool
reads method = method == "GET" || method == "HEAD"

abbrev pub tags_route : String → String → Route
tags_route method name =
    if name == ""
    then bad_request "NAME_INVALID"
    else if reads method
    then list_tags name
    else method_not_allowed

abbrev pub referrers_route : String → String → String → Route
referrers_route method name subject =
    if name == "" || subject == ""
    then bad_request "NAME_INVALID"
    else if reads method
    then list_referrers name subject
    else method_not_allowed

abbrev pub fifth : String → Option (String × String) → Route
fifth method none = serve_read
fifth method (some (name, subject)) = referrers_route method name subject

abbrev pub fourth : String → String → Option String → Route
fourth method rest none = fifth method (cut_last "/referrers/" rest)
fourth method rest (some name) = tags_route method name

abbrev pub third : String → String → Option (String × String) → Route
third method rest none = fourth method rest (cut_suffix "/tags/list" rest)
third method rest (some (name, digest)) = blob_route method name digest

abbrev pub second : String → String → Option (String × String) → Route
second method rest none = third method rest (cut_last "/blobs/" rest)
second method rest (some (name, ref)) = manifest_route method name ref

abbrev pub first : String → String → Option (String × String) → Route
first method rest none = second method rest (cut_last "/manifests/" rest)
first method rest (some (name, tail)) = upload_route method name tail

abbrev pub under_v2 : String → Option String → Route
under_v2 method none = serve_read
under_v2 method (some rest) = first method rest (cut_first "/blobs/uploads" rest)

-- ServeHTTP
unfoldable pub route : String → String → Route
route method path = if path == "/v2/" then serve_read else under_v2 method (cut_prefix "/v2/" path)

-- The repository and the action that the handler of a route authorizes.
unfoldable pub authorizes : Route → Option (String × String)
authorizes serve_read = none
authorizes (start_upload name) = some (name, action_push)
authorizes (patch_upload name uuid) = some (name, action_push)
authorizes (complete_upload name uuid) = some (name, action_push)
authorizes (upload_status name uuid) = some (name, action_push)
authorizes (put_manifest name ref) = some (name, action_push)
authorizes (delete_manifest name ref) = some (name, action_delete)
authorizes (delete_blob name digest) = some (name, action_delete)
authorizes (list_tags name) = some (name, action_pull)
authorizes (list_referrers name subject) = some (name, action_pull)
authorizes (bad_request code) = none
authorizes method_not_allowed = none

unfoldable pub action_for_method : String → String
action_for_method method =
    if reads method then action_pull else if method == "DELETE" then action_delete else action_push

abbrev pub scoped : String → String → Option (String × String)
scoped name action = if name == "" then none else some (name, action)

abbrev pub scope_fifth : String → Option (String × String) → Option (String × String)
scope_fifth action none = none
scope_fifth action (some (name, after)) = scoped name action

abbrev pub scope_fourth : String → String → Option String → Option (String × String)
scope_fourth action rest none = scope_fifth action (cut_last "/referrers/" rest)
scope_fourth action rest (some name) = scoped name action

abbrev pub scope_third : String → String → Option (String × String) → Option (String × String)
scope_third action rest none = scope_fourth action rest (cut_suffix "/tags/list" rest)
scope_third action rest (some (name, after)) = scoped name action

abbrev pub scope_second : String → String → Option (String × String) → Option (String × String)
scope_second action rest none = scope_third action rest (cut_last "/blobs/" rest)
scope_second action rest (some (name, after)) = scoped name action

abbrev pub scope_first : String → String → Option (String × String) → Option (String × String)
scope_first action rest none = scope_second action rest (cut_last "/manifests/" rest)
scope_first action rest (some (name, tail)) = scoped name action_push

abbrev pub scope_under : String → Option String → Option (String × String)
scope_under action none = none
scope_under action (some rest) = scope_first action rest (cut_first "/blobs/uploads" rest)

-- ParseResourceScope: the repository and the action, where the request is for a repository.
unfoldable pub parse_resource_scope : String → String → Option (String × String)
unfolding action_for_method
parse_resource_scope method path =
    if path == "/v2" || path == "/v2/"
    then none
    else scope_under (action_for_method method) (cut_prefix "/v2/" path)

-- A parsed scope.
pub record Scope : Type 0 where
  pub kind : String
  pub name : String
  pub actions : List String

abbrev filled : List String → List String
filled [] = []
filled (a ∷ more) =
    let rest = filled more in let t = trim_space a in if t == "" then rest else t ∷ rest

abbrev with_actions : String → String → List String → Option Scope
with_actions kind name [] = none
with_actions kind name (a ∷ more) = some (record { kind = kind; name = name; actions = a ∷ more })

abbrev named : String → String → String → Option Scope
named kind name raw =
    if kind == "" || name == "" || raw == ""
    then none
    else with_actions kind name (filled (split b',' raw))

abbrev last_split : String → Option (String × String) → Option Scope
last_split kind none = none
last_split kind (some (name, raw)) = named kind name raw

abbrev first_split : Option (String × String) → Option Scope
first_split none = none
first_split (some (kind, rest)) = last_split kind (cut_last ":" rest)

-- One entry of ParseScopes: the kind up to the first ':', the actions after the last.
unfoldable pub parse_scope : String → Option Scope
parse_scope raw = first_split (cut_first ":" (trim_space raw))

-- ParseScopes: malformed entries are skipped.
unfoldable pub parse_scopes : List String → List Scope
unfolding parse_scope
parse_scopes [] = []
parse_scopes (s ∷ ss) =
    let rest = parse_scopes ss in elim (parse_scope s) [ none ↦ rest | some x ↦ x ∷ rest ]
