-- ===== src/ApiKey.antt =====
-- internal/apikey/scopes.go: the registry scopes of an API key.
pub mod Scopes
use specula.Prelude.{String, Bool, false, not, ◌||◌, ◌&&◌, List, [], ◌∷◌, ◌==◌, any, if◌then◌else◌}
use specula.Prelude.Text.{folds_to}

abbrev pub scope_pull : String
scope_pull = "pull"

abbrev pub scope_push : String
scope_push = "push"

abbrev pub default_scopes : List String
default_scopes = scope_pull ∷ scope_push ∷ []

abbrev pub names : String → String → Bool
names scope s = folds_to s scope

unfoldable pub normalize_scopes : List String → List String
normalize_scopes [] = default_scopes
normalize_scopes (s ∷ rest) =
    let want_pull = any (names scope_pull) (s ∷ rest) in
    let want_push = any (names scope_push) (s ∷ rest) in
    if not want_pull && not want_push
    then default_scopes
    else if want_pull
    then (if want_push then scope_pull ∷ scope_push ∷ [] else scope_pull ∷ [])
    else scope_push ∷ []

unfoldable pub allows_action : List String → String → Bool
unfolding normalize_scopes
allows_action scopes action =
    let has = λ (k : String). any (λ s. s == k) (normalize_scopes scopes) in
    if action == "pull"
    then has scope_pull
    else if action == "push" || action == "delete"
    then has scope_push
    else false
