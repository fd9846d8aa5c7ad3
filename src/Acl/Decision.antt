-- ===== src/Acl/Decision.antt =====
-- The access decision of internal/acl/acl.go against a relational reading of the four visibility
-- levels.
use specula.Prelude.{
  String, ◌≡◌, ◌≢◌, ◌↔◌, inl, inr, Bool, true, false, none, some, List, [], ◌∷◌, arith, ◌==◌,
  eq_iff, any, In, any-In, In-any, String-cases, subst, eq_refl, not, ◌||◌, ◌++◌,
}
use specula.Acl.{
  Resource, Subject, private, org, public, write, read_only, normalize_visibility, normalize_access,
  is_owner, same_org, can_read, can_write, can_access, can_access_granted,
}

-- The subject counts as a member of the resource's organization: it is in the same one, or its
-- organization, which is named, holds a grant.
pub data Colleague (r : Resource) (s : Subject) (granted : List String) : Type 0 where
  same : r.org_id ≡ s.org_id → Colleague r s granted
  guest : s.org_id ≢ "" → In s.org_id granted → Colleague r s granted

pub data MayRead (r : Resource) (s : Subject) (granted : List String) : Type 0 where
  admin : s.admin ≡ true → MayRead r s granted
  anyone : r.visibility ≡ public → MayRead r s granted
  owner : s.user_id ≢ "" → r.owner_user_id ≡ s.user_id → MayRead r s granted
  member : s.user_id ≢ "" → r.visibility ≡ org → Colleague r s granted → MayRead r s granted

pub data MayWrite (r : Resource) (s : Subject) (granted : List String) : Type 0 where
  admin : s.user_id ≢ "" → s.admin ≡ true → MayWrite r s granted
  owner : s.user_id ≢ "" → r.owner_user_id ≡ s.user_id → MayWrite r s granted
  member :
      s.user_id ≢ ""
      → r.visibility ≡ org
      → r.access ≡ write
      → Colleague r s granted
      → MayWrite r s granted

-- The tests that the decision makes of a normalized visibility, as tests of the stored one.
normalize-public : (v : String) → (normalize_visibility v == public) ≡ (v == public)
unfolding normalize_visibility
normalize-public v = elim (String-cases v org) [
  | inl (e, _) ↦ rw e
  | inr (_, e) ↦ elim (String-cases v public) [ inl (p, _) ↦ rw p | inr (_, f) ↦ rw (e, f) ]
]

normalize-private :
    (v : String) → not (normalize_visibility v == private) ≡ (v == org || v == public)
unfolding normalize_visibility
normalize-private v = elim (String-cases v org) [
  | inl (e, _) ↦ rw e
  | inr (_, e) ↦ elim (String-cases v public) [ inl (p, _) ↦ rw p | inr (_, f) ↦ rw (e, f) ]
]

pub normalize-org : (v : String) → (normalize_visibility v == org) ≡ (v == org)
unfolding normalize_visibility
normalize-org v = elim (String-cases v org) [
  | inl (e, _) ↦ rw e
  | inr (_, e) ↦ elim (String-cases v public) [ inl (p, _) ↦ rw p | inr (_, f) ↦ rw (e, f) ]
]

normalize-write : (a : String) → (normalize_access a == write) ≡ (a == write)
unfolding normalize_access
normalize-write a = elim (String-cases a write) [ inl (e, _) ↦ rw e | inr (_, e) ↦ rw (e) ]

module _ (r : Resource) (s : Subject) (granted : List String) where
  same_org_sound : same_org r s granted ≡ true → Colleague r s granted
  unfolding same_org
  same_org_sound h = elim (String-cases r.org_id s.org_id) [
    | inl (e, _) ↦ same e
    | inr (_, differ) ↦ elim (String-cases s.org_id "") [
      | inl (_, e) ↦ absurd (ground (arith, differ, e))
      | inr (named, e) ↦
          let hit : any (λ g. g == s.org_id) granted ≡ true = ground (arith, differ, e) in
          let (g, m, t) = In-any (λ g. g == s.org_id) granted hit in
          guest named (subst (λ x. In x granted) ((eq_iff g s.org_id).0 t) m)
    ]
  ]

  same_org_complete : Colleague r s granted → same_org r s granted ≡ true
  unfolding same_org
  same_org_complete (same e) = ground (arith, eq_iff r.org_id s.org_id)
  same_org_complete (guest named m) =
      ground (
        arith,
        eq_iff s.org_id "",
        any-In (λ g. g == s.org_id) s.org_id granted m (eq_refl s.org_id),
      )

  can_read_sound : can_read r s granted ≡ true → MayRead r s granted
  unfolding can_read is_owner
  can_read_sound h = ground (
    arith,
    normalize-public r.visibility,
    normalize-private r.visibility,
    eq_iff r.visibility public,
    eq_iff r.visibility org,
    eq_iff s.user_id "",
    eq_iff r.owner_user_id s.user_id,
    same_org_sound,
    read_admin,
    read_anyone,
    read_owner,
    read_member,
  )
    where
      read_admin : s.admin ≡ true → MayRead r s granted
      read_admin = MayRead.admin

      read_anyone : r.visibility ≡ public → MayRead r s granted
      read_anyone = MayRead.anyone

      read_owner : s.user_id ≢ "" → r.owner_user_id ≡ s.user_id → MayRead r s granted
      read_owner = MayRead.owner

      read_member :
          s.user_id ≢ "" → r.visibility ≡ org → Colleague r s granted → MayRead r s granted
      read_member = MayRead.member

  can_read_complete : MayRead r s granted → can_read r s granted ≡ true
  unfolding can_read is_owner
  can_read_complete (MayRead.admin a) = ground arith
  can_read_complete (MayRead.anyone e) =
      ground (arith, eq_iff r.visibility public, normalize-public r.visibility)
  can_read_complete (MayRead.owner u e) =
      ground
        (arith, eq_iff s.user_id "", eq_iff r.owner_user_id "", eq_iff r.owner_user_id s.user_id)
  can_read_complete (MayRead.member u e c) = ground (
    arith,
    eq_iff s.user_id "",
    eq_iff r.visibility org,
    normalize-private r.visibility,
    same_org_complete c,
  )

  can_write_sound : can_write r s granted ≡ true → MayWrite r s granted
  unfolding can_write is_owner
  can_write_sound h = ground (
    arith,
    normalize-org r.visibility,
    normalize-write r.access,
    eq_iff r.visibility org,
    eq_iff r.access write,
    eq_iff s.user_id "",
    eq_iff r.owner_user_id s.user_id,
    same_org_sound,
    write_admin,
    write_owner,
    write_member,
  )
    where
      write_admin : s.user_id ≢ "" → s.admin ≡ true → MayWrite r s granted
      write_admin = MayWrite.admin

      write_owner : s.user_id ≢ "" → r.owner_user_id ≡ s.user_id → MayWrite r s granted
      write_owner = MayWrite.owner

      write_member :
          s.user_id ≢ ""
          → r.visibility ≡ org
          → r.access ≡ write
          → Colleague r s granted
          → MayWrite r s granted
      write_member = MayWrite.member

  can_write_complete : MayWrite r s granted → can_write r s granted ≡ true
  unfolding can_write is_owner
  can_write_complete (MayWrite.admin u a) = ground (arith, eq_iff s.user_id "")
  can_write_complete (MayWrite.owner u e) =
      ground
        (arith, eq_iff s.user_id "", eq_iff r.owner_user_id "", eq_iff r.owner_user_id s.user_id)
  can_write_complete (MayWrite.member u v a c) = ground (
    arith,
    eq_iff s.user_id "",
    eq_iff r.visibility org,
    eq_iff r.access write,
    normalize-org r.visibility,
    normalize-write r.access,
    same_org_complete c,
  )

-- Whoever may write may read.
pub can_write-can_read :
    (r : Resource) (s : Subject) (granted : List String)
    → can_write r s granted ≡ true
    → can_read r s granted ≡ true
unfolding can_write can_read
can_write-can_read r s granted h =
    ground (arith, normalize-org r.visibility, normalize-private r.visibility)

-- The decision is exact: a read is allowed exactly to a system administrator, to anyone on a public
-- resource, to the owner, and to a colleague on an org resource; a write exactly to an identified
-- administrator, owner, or colleague on an org resource with write access; and a refused write is
-- reported as read-only exactly when the read would be allowed.
pub can_access_granted-exact :
    (r : Resource) (s : Subject) (granted : List String)
    → ((can_access_granted r s false granted ≡ none) ↔ MayRead r s granted)
      × ((can_access_granted r s true granted ≡ none) ↔ MayWrite r s granted)
      × ((can_access_granted r s true granted ≡ some read_only)
          ↔ (MayRead r s granted × ¬ MayWrite r s granted))
unfolding can_access_granted
can_access_granted-exact r s granted = ground (
  arith,
  can_read_sound r s granted,
  can_read_complete r s granted,
  can_write_sound r s granted,
  can_write_complete r s granted,
)

-- On a resource that is neither org nor public, grants change nothing.
pub grants_keep_private :
    (r : Resource) (s : Subject) (need_write : Bool) (granted : List String)
    → r.visibility ≢ org
    → r.visibility ≢ public
    → can_access_granted r s need_write granted ≡ can_access r s need_write
unfolding can_access_granted can_access can_read can_write
grants_keep_private r s need_write granted o p = ground (
  arith,
  normalize-org r.visibility,
  normalize-private r.visibility,
  eq_iff r.visibility org,
  eq_iff r.visibility public,
)

In-grow : (x : String) (xs : List String) (ys : List String) → In x xs → In x (xs ++ ys)
In-grow x [] ys m = absurd m
In-grow x (y ∷ zs) ys (inl e) = inl e
In-grow x (y ∷ zs) ys (inr m) = inr (In-grow x zs ys m)

Colleague-grow :
    (r : Resource) (s : Subject) (granted more : List String)
    → Colleague r s granted
    → Colleague r s (granted ++ more)
Colleague-grow r s granted more (same e) = same e
Colleague-grow r s granted more (guest named m) = guest named (In-grow s.org_id granted more m)

same_org-grow :
    (r : Resource) (s : Subject) (granted more : List String)
    → same_org r s granted ≡ true
    → same_org r s (granted ++ more) ≡ true
same_org-grow r s granted more h =
    same_org_complete r s (granted ++ more)
      (Colleague-grow r s granted more (same_org_sound r s granted h))

-- More grants never take an access away.
pub grants_monotone :
    (r : Resource) (s : Subject) (need_write : Bool) (granted more : List String)
    → can_access_granted r s need_write granted ≡ none
    → can_access_granted r s need_write (granted ++ more) ≡ none
unfolding can_access_granted can_read can_write
grants_monotone r s need_write granted more h = ground (arith, same_org-grow r s granted more)

-- A caller with no user id who is not a system administrator reads public resources only, and
-- writes nothing.
pub anonymous_limits :
    (r : Resource) (s : Subject) (granted : List String)
    → s.user_id ≡ ""
    → s.admin ≡ false
    → (can_access_granted r s true granted ≢ none)
      × ((can_access_granted r s false granted ≡ none) ↔ (r.visibility ≡ public))
unfolding can_access_granted can_read can_write
anonymous_limits r s granted u a =
    ground (arith, eq_iff s.user_id "", eq_iff r.visibility public, normalize-public r.visibility)
