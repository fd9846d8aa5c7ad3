-- ===== src/Acl.antt =====
-- internal/acl/acl.go: who may read and who may write a resource, from its visibility, its owner and
-- the organizations involved. `nil` is `none`; the two denials are `some read_only` and
-- `some forbidden`.
pub mod Decision
use specula.Prelude.{
  String, Bool, true, false, ◌&&◌, not, Option, none, some, List, [], ◌==◌, any, if◌then◌else◌,
}

abbrev pub private : String
private = "private"

abbrev pub org : String
org = "org"

abbrev pub public : String
public = "public"

abbrev pub read : String
read = "read"

abbrev pub write : String
write = "write"

pub data Denied : Type 0 where
  forbidden read_only : Denied

pub record Subject : Type 0 where
  pub user_id : String
  pub org_id : String
  pub admin : Bool

pub record Resource : Type 0 where
  pub owner_user_id : String
  pub org_id : String
  pub visibility : String
  pub access : String

unfoldable pub normalize_visibility : String → String
normalize_visibility v = if v == org then org else if v == public then public else private

unfoldable pub normalize_access : String → String
normalize_access a = if a == write then write else read

unfoldable pub is_owner : Resource → Subject → Bool
is_owner r s = not (r.owner_user_id == "") && r.owner_user_id == s.user_id

unfoldable pub same_org : Resource → Subject → List String → Bool
same_org r s granted =
    if r.org_id == s.org_id
    then true
    else if s.org_id == ""
    then false
    else any (λ g. g == s.org_id) granted

unfoldable pub can_read : Resource → Subject → List String → Bool
can_read r s granted =
    if s.admin
    then true
    else if normalize_visibility r.visibility == public
    then true
    else if s.user_id == ""
    then false
    else if is_owner r s
    then true
    else same_org r s granted && not (normalize_visibility r.visibility == private)

unfoldable pub can_write : Resource → Subject → List String → Bool
can_write r s granted =
    if s.user_id == ""
    then false
    else if s.admin
    then true
    else if is_owner r s
    then true
    else same_org r s granted
      && normalize_visibility r.visibility == org
      && normalize_access r.access == write

unfoldable pub can_access_granted : Resource → Subject → Bool → List String → Option Denied
can_access_granted r s need_write granted =
    if need_write
    then if can_write r s granted
      then none
      else if can_read r s granted
      then some read_only
      else some forbidden
    else if can_read r s granted
    then none
    else some forbidden

unfoldable pub can_access : Resource → Subject → Bool → Option Denied
unfolding can_access_granted
can_access r s need_write = can_access_granted r s need_write []
