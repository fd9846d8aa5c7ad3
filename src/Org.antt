-- ===== src/Org.antt =====
-- internal/org/org.go: the ladder of organization roles, viewer < editor < admin < owner.
pub mod Ladder
pub mod Store
use specula.Prelude.{ℕ, String, Bool, ◌||◌, ◌==◌, leb, if◌then◌else◌}
use specula.Prelude.Text.{folds_to}

abbrev pub role_viewer : String
role_viewer = "viewer"

abbrev pub role_editor : String
role_editor = "editor"

abbrev pub role_admin : String
role_admin = "admin"

abbrev pub role_owner : String
role_owner = "owner"

unfoldable pub role_rank : String → ℕ
role_rank role =
    if role == role_owner
    then 4
    else if role == role_admin
    then 3
    else if role == role_editor
    then 2
    else if role == role_viewer
    then 1
    else 0

-- "" stands for a value that is no role.
unfoldable pub normalize_legacy_role : String → String
normalize_legacy_role role =
    if folds_to role role_owner
    then role_owner
    else if folds_to role role_admin || folds_to role "org_admin"
    then role_admin
    else if folds_to role role_editor || folds_to role "member"
    then role_editor
    else if folds_to role role_viewer
    then role_viewer
    else ""

unfoldable pub normalize_role : String → String
unfolding normalize_legacy_role
normalize_role role = let r = normalize_legacy_role role in if r == "" then role_viewer else r

unfoldable pub normalize_system_role : String → String
normalize_system_role role =
    if folds_to role role_viewer
    then role_viewer
    else if folds_to role role_editor
    then role_editor
    else if folds_to role role_admin
    then role_admin
    else ""

unfoldable pub at_least : String → String → Bool
unfolding role_rank
at_least have want = leb (role_rank want) (role_rank have)
