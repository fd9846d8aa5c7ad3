-- ===== src/Org/Store/Members.antt =====
-- Memberships in the store of internal/org/mem.go: what an upsert leaves, and what goes with an
-- organization.
use specula.Prelude.{
  String, not, ◌≡◌, ◌≢◌, refl, ◌∙◌, ap, inl, inr, Option, none, some, List, [], ◌∷◌, arith, eq_iff,
  ◌==◌, keep, Bool-cases, String-cases,
}
use specula.Prelude.Int.{ℤ}
use specula.Org.{role_editor}
use specula.Org.Store.{
  Member, Invitation, Slot, lookup, erase, adjust, values, OrgStore, or_default, or_now, norm_email,
  member_key, newest_first, get_org, delete_org, normal_member, added, add_org_member,
  get_org_member, list_org_members, list_invitations,
}

module _ {A : Type 0} where
  pub lookup-erase : (k : String) (xs : List (Slot A)) → lookup k (erase k xs) ≡ none
  lookup-erase k [] = refl
  lookup-erase k (x ∷ xs) = ground (arith, lookup-erase k xs)

  pub lookup-erase_other :
      (k j : String) (xs : List (Slot A)) → j ≢ k → lookup j (erase k xs) ≡ lookup j xs
  lookup-erase_other k j [] h = refl
  lookup-erase_other k j (x ∷ xs) h = elim (String-cases x.key k) [
    | inl (same, t) ↦ ground (arith, lookup-erase_other k j xs h, eq_iff x.key j)
    | inr (other, t) ↦ ground (arith, lookup-erase_other k j xs h)
  ]

  lookup-adjust :
      (k : String) (f : A → A) (v : A) (xs : List (Slot A))
      → lookup k xs ≡ some v
      → lookup k (adjust k f xs) ≡ some (f v)
  lookup-adjust k f v [] h = cc
  lookup-adjust k f v (x ∷ xs) h = elim (Bool-cases (x.key == k)) [
    | inl here ↦ ground arith
    | inr there ↦ ground (arith, lookup-adjust k f v xs)
  ]

  lookup-adjust_other :
      (k j : String) (f : A → A) (xs : List (Slot A))
      → j ≢ k
      → lookup j (adjust k f xs) ≡ lookup j xs
  lookup-adjust_other k j f [] h = refl
  lookup-adjust_other k j f (x ∷ xs) h = elim (String-cases x.key k) [
    | inl (same, t) ↦ ground (arith, lookup-adjust_other k j f xs h, eq_iff x.key j)
    | inr (other, t) ↦ ground (arith, lookup-adjust_other k j f xs h)
  ]

-- What is found after an upsert: the old row with the new role, or the new one.
abbrev pub upserted : ℤ → String → Member → Option Member → Member
upserted now fresh m (some old) = record old { role = or_default m.role role_editor }
upserted now fresh m none = record (normal_member m) {
  id = or_default m.id fresh;
  created_at = or_now m.created_at now;
}

module _ (now : ℤ) (fresh : String) (m : Member) (k : String) (ms : List (Slot Member)) where
  lookup-added :
      (o : Option Member)
      → lookup k ms ≡ o
      → lookup k (added now fresh (normal_member m) k o ms) ≡ some (upserted now fresh m o)
  lookup-added none h = ground (arith, eq_iff k k)
  lookup-added (some old) h = lookup-adjust k _ old ms h

  lookup-added_other :
      (j : String) (o : Option Member)
      → j ≢ k
      → lookup j (added now fresh (normal_member m) k o ms) ≡ lookup j ms
  lookup-added_other j none h = ground (arith, eq_iff k j, lookup-erase_other k j ms h)
  lookup-added_other j (some old) h = lookup-adjust_other k j _ ms h

key-norm :
    (org_id email : String)
    → norm_email (norm_email email) ≡ norm_email email
    → member_key org_id (norm_email email) ≡ member_key org_id email
unfolding member_key
key-norm org_id email h =
    ap (λ e. Prim.Native.String.◌++◌ org_id (Prim.Native.String.◌++◌ "\0" e)) h

-- After AddOrgMember the member is found under its organization and its email: an old membership keeps
-- everything but its role, and a new one has the defaults filled in. Every membership under another key is
-- as it was. The normal form of the email is its own normal form.
pub add_org_member-get :
    (now : ℤ) (fresh : String) (m : Member) (org_id email : String) (s : OrgStore)
    → norm_email (norm_email m.email) ≡ norm_email m.email
    → member_key org_id email ≢ member_key m.org_id m.email
    → (get_org_member m.org_id m.email (add_org_member now fresh m s)
        ≡ some (upserted now fresh m (get_org_member m.org_id m.email s)))
      × (get_org_member org_id email (add_org_member now fresh m s) ≡ get_org_member org_id email s)
unfolding add_org_member get_org_member
add_org_member-get now fresh m org_id email s normal other =
    let same : member_key m.org_id (norm_email m.email) ≡ member_key m.org_id m.email =
      key-norm m.org_id m.email normal in
    (
      ap
            (λ k.
              lookup (member_key m.org_id m.email)
                (added now fresh (normal_member m) k (lookup k s.members) s.members))
            same
          ∙ lookup-added now fresh m (member_key m.org_id m.email) s.members _ refl,
      lookup-added_other now fresh m (member_key m.org_id (norm_email m.email)) s.members
          (member_key org_id email) _ (λ q. other (q ∙ same)),
    )

module _ (id other : String) where
  members-erased :
      (xs : List (Slot Member))
      → (keep (λ m. m.org_id == id) (values (keep (λ m. not (m.value.org_id == id)) xs)) ≡ [])
  members-erased [] = refl
  members-erased (x ∷ xs) = ground (arith, members-erased xs)

  invitations-erased :
      (xs : List (Slot Invitation))
      → (keep (λ m. m.org_id == id) (values (keep (λ m. not (m.value.org_id == id)) xs)) ≡ [])
  invitations-erased [] = refl
  invitations-erased (x ∷ xs) = ground (arith, invitations-erased xs)

  members-kept :
      (xs : List (Slot Member))
      → other ≢ id
      → keep (λ m. m.org_id == other) (values (keep (λ m. not (m.value.org_id == id)) xs))
        ≡ keep (λ m. m.org_id == other) (values xs)
  members-kept [] h = refl
  members-kept (x ∷ xs) h = elim (String-cases x.value.org_id id) [
    | inl (same, t) ↦ ground (arith, members-kept xs h, eq_iff x.value.org_id other)
    | inr (apart, t) ↦ ground (arith, members-kept xs h)
  ]

  -- After DeleteOrg the organization is not found and has neither members nor invitations, and the
  -- members of every other organization are listed as before.
  pub delete_org-cascade :
      (s : OrgStore)
      → other ≢ id
      → (get_org id (delete_org id s) ≡ none)
        × (list_org_members id (delete_org id s) ≡ [])
        × (list_invitations id (delete_org id s) ≡ [])
        × (list_org_members other (delete_org id s) ≡ list_org_members other s)
  unfolding delete_org get_org list_org_members list_invitations newest_first
  delete_org-cascade s h = (
    lookup-erase id s.orgs,
    ap (newest_first (λ m. m.created_at)) (members-erased s.members),
    ap (newest_first (λ m. m.created_at)) (invitations-erased s.invitations),
    ap (newest_first (λ m. m.created_at)) (members-kept s.members h),
  )
