-- ===== src/Org/Store.antt =====
-- internal/org/mem.go: MemStore, the organizations, their members and their invitations, as three maps.
-- A new random id and the time are arguments, and are used where the caller gave none. What a map's
-- iteration order decides is decided by the order of the list here. The transient fields of Org are left
-- out, but for the role that ListOrgsForEmail gives.
pub mod Members
use specula.Prelude.{
  ℕ, String, Bool, true, false, not, ◌||◌, ◌&&◌, Option, none, some, List, [], ◌∷◌, ◌==◌, keep,
  length, if◌then◌else◌,
}
use specula.Prelude.Int.{ℤ, ltb_ℤ}
use specula.Prelude.Text.{trim_space, to_lower}
use specula.Org.{role_viewer, role_editor, role_admin, role_owner}

pub record Org : Type 0 where
  pub id : String
  pub name : String
  pub slug : String
  pub status : String
  pub created_by : String
  pub created_at : Option ℤ

pub record Member : Type 0 where
  pub id : String
  pub org_id : String
  pub email : String
  pub role : String
  pub invited_by : String
  pub created_at : Option ℤ

pub record Invitation : Type 0 where
  pub id : String
  pub org_id : String
  pub email : String
  pub role : String
  pub invited_by : String
  pub token : String
  pub status : String
  pub expires_at : Option ℤ
  pub created_at : Option ℤ

-- A map from texts, with each key once.
pub record Slot (A : Type 0) : Type 0 where
  pub key : String
  pub value : A

module _ {A : Type 0} where
  abbrev pub lookup : String → List (Slot A) → Option A
  lookup k [] = none
  lookup k (x ∷ xs) = if x.key == k then some x.value else lookup k xs

  abbrev pub erase : String → List (Slot A) → List (Slot A)
  erase k xs = keep (λ x. not (x.key == k)) xs

  abbrev pub insert : String → A → List (Slot A) → List (Slot A)
  insert k v xs = record { key = k; value = v } ∷ erase k xs

  -- The value under the key is changed in place.
  abbrev pub adjust : String → (A → A) → List (Slot A) → List (Slot A)
  adjust k f [] = []
  adjust k f (x ∷ xs) = (if x.key == k then record x { value = f x.value } else x) ∷ adjust k f xs

  abbrev pub values : List (Slot A) → List A
  values [] = []
  values (x ∷ xs) = x.value ∷ values xs

pub record OrgStore : Type 0 where
  pub orgs : List (Slot Org)
  pub members : List (Slot Member)
  pub invitations : List (Slot Invitation)

abbrev or_default : String → String → String
or_default s d = if s == "" then d else s

abbrev or_now : Option ℤ → ℤ → Option ℤ
or_now none now = some now
or_now (some t) now = some t

unfoldable pub norm_email : String → String
norm_email email = to_lower (trim_space email)

-- memberKey
unfoldable pub member_key : String → String → String
unfolding norm_email
member_key org_id email =
    Prim.Native.String.◌++◌ org_id (Prim.Native.String.◌++◌ "\0" (norm_email email))

-- x was created after y, where Go's zero time is before every other.
abbrev later : Option ℤ → Option ℤ → Bool
later none y = false
later (some a) none = true
later (some a) (some b) = ltb_ℤ b a

module _ {A : Type 0} (time : A → Option ℤ) where
  -- A stable step of the sort: x goes before the first that is older.
  insert_newest : A → List A → List A
  insert_newest x [] = x ∷ []
  insert_newest x (y ∷ ys) =
      let rest = insert_newest x ys in if later (time y) (time x) then y ∷ rest else x ∷ y ∷ ys

  unfoldable pub newest_first : List A → List A
  unfolding insert_newest
  newest_first [] = []
  newest_first (x ∷ xs) = insert_newest x (newest_first xs)

unfoldable pub create_org : ℤ → String → Org → OrgStore → OrgStore
create_org now fresh o s =
    let id = or_default o.id fresh in
    record s {
      orgs =
          insert id
            (record o {
              id = id;
              status = or_default o.status "active";
              created_at = or_now o.created_at now;
            })
            s.orgs;
    }

unfoldable pub get_org : String → OrgStore → Option Org
get_org id s = lookup id s.orgs

abbrev first_with : (Org → Bool) → List Org → Option Org
first_with p [] = none
first_with p (o ∷ os) = if p o then some o else first_with p os

unfoldable pub get_org_by_slug : String → OrgStore → Option Org
get_org_by_slug slug s = first_with (λ o. o.slug == slug) (values s.orgs)

unfoldable pub list_orgs : OrgStore → List Org
unfolding newest_first
list_orgs s = newest_first (λ o. o.created_at) (values s.orgs)

unfoldable pub update_org : Org → OrgStore → OrgStore
update_org o s = record s { orgs = adjust o.id (λ cur. record cur { name = o.name }) s.orgs }

-- The organization goes with its invitations and its members.
unfoldable pub delete_org : String → OrgStore → OrgStore
delete_org id s = record {
  orgs = erase id s.orgs;
  members = keep (λ m. not (m.value.org_id == id)) s.members;
  invitations = keep (λ i. not (i.value.org_id == id)) s.invitations;
}

abbrev with_role : Option Org → Member → List (Org × String) → List (Org × String)
with_role none m rest = rest
with_role (some o) m rest = (o, m.role) ∷ rest

abbrev joined : String → OrgStore → List Member → List (Org × String)
joined email s [] = []
joined email s (m ∷ ms) =
    let rest = joined email s ms in
    if m.email == email then with_role (lookup m.org_id s.orgs) m rest else rest

-- ListOrgsForEmail: each organization with the member's role in it.
unfoldable pub list_orgs_for_email : String → OrgStore → List (Org × String)
unfolding norm_email newest_first
list_orgs_for_email email s =
    newest_first (λ p. p.0.created_at) (joined (norm_email email) s (values s.members))

unfoldable pub set_org_status : String → String → OrgStore → OrgStore
set_org_status id status s = record s {
  orgs = adjust id (λ o. record o { status = status }) s.orgs;
}

unfoldable pub count_org_admins : String → OrgStore → ℕ
count_org_admins org_id s = length (
    keep (λ m. m.org_id == org_id && (m.role == role_admin || m.role == "org_admin"))
      (values s.members))

unfoldable pub count_org_owners : String → OrgStore → ℕ
count_org_owners org_id s =
    length (keep (λ m. m.org_id == org_id && m.role == role_owner) (values s.members))

unfoldable pub count_orgs : OrgStore → ℕ
count_orgs s = length s.orgs

unfoldable pub count_orgs_by_creator : String → OrgStore → ℕ
count_orgs_by_creator user s = length (keep (λ o. o.created_by == user) (values s.orgs))

-- The member as AddOrgMember normalizes it.
abbrev pub normal_member : Member → Member
normal_member m = record m { email = norm_email m.email; role = or_default m.role role_editor }

abbrev pub added :
    ℤ → String → Member → String → Option Member → List (Slot Member) → List (Slot Member)
added now fresh m k (some old) ms = adjust k (λ x. record x { role = m.role }) ms
added now fresh m k none ms =
    insert k (record m { id = or_default m.id fresh; created_at = or_now m.created_at now }) ms

-- An upsert: a member that is there keeps everything but its role.
unfoldable pub add_org_member : ℤ → String → Member → OrgStore → OrgStore
unfolding norm_email member_key
add_org_member now fresh m s =
    let k = member_key m.org_id (norm_email m.email) in
    record s { members = added now fresh (normal_member m) k (lookup k s.members) s.members }

unfoldable pub get_org_member : String → String → OrgStore → Option Member
unfolding member_key
get_org_member org_id email s = lookup (member_key org_id email) s.members

unfoldable pub list_org_members : String → OrgStore → List Member
unfolding newest_first
list_org_members org_id s =
    newest_first (λ m. m.created_at) (keep (λ m. m.org_id == org_id) (values s.members))

unfoldable pub remove_org_member : String → String → OrgStore → OrgStore
unfolding member_key
remove_org_member org_id email s = record s { members = erase (member_key org_id email) s.members }

unfoldable pub create_invitation : ℤ → String → Invitation → OrgStore → OrgStore
unfolding norm_email
create_invitation now fresh i s =
    let id = or_default i.id fresh in
    record s {
      invitations =
          insert id
            (record i {
              id = id;
              email = norm_email i.email;
              role = or_default i.role role_viewer;
              status = or_default i.status "pending";
              created_at = or_now i.created_at now;
            })
            s.invitations;
    }

abbrev invited : String → List Invitation → Option Invitation
invited token [] = none
invited token (i ∷ is) = if i.token == token then some i else invited token is

unfoldable pub get_invitation_by_token : String → OrgStore → Option Invitation
get_invitation_by_token token s = invited token (values s.invitations)

unfoldable pub list_invitations : String → OrgStore → List Invitation
unfolding newest_first
list_invitations org_id s =
    newest_first (λ i. i.created_at) (keep (λ i. i.org_id == org_id) (values s.invitations))

unfoldable pub set_invitation_status : String → String → OrgStore → OrgStore
set_invitation_status id status s = record s {
  invitations = adjust id (λ i. record i { status = status }) s.invitations;
}

-- Expired: the invitation has an end, and it is past.
unfoldable pub expired : ℤ → Invitation → Bool
expired now i = elim i.expires_at [ none ↦ false | some t ↦ ltb_ℤ t now ]
