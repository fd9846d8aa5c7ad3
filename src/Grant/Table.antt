-- ===== src/Grant/Table.antt =====
-- Laws of the grant table of internal/grant/grant.go.
use specula.Prelude.{
  String, ◌≡◌, ◌≢◌, ◌↔◌, inl, inr, true, false, Option, none, some, [], ◌∷◌, arith, ◌==◌, ◌&&◌,
  eq_iff, refl, In, if◌then◌else◌, String-cases,
}
use specula.Prelude.Int.{ℤ}
use specula.Grant.{
  Grant, Table, MemKey, subject_org, key_of, key_eq, norm_access, find, delete, stamped, upsert,
  granted_orgs, access_of, org_access, org_key, purge_subject, allows, access_write,
}

pub key_eq_iff : (a b : MemKey) → (key_eq a b ≡ true) ↔ (a ≡ b)
unfolding key_eq
key_eq_iff a b = ground (
  arith,
  eq_iff a.resource_type b.resource_type,
  eq_iff a.resource_id b.resource_id,
  eq_iff a.subject_type b.subject_type,
  eq_iff a.subject_id b.subject_id,
)

find-delete :
    (k j : MemKey) (gs : Table) → find j (delete k gs) ≡ (if key_eq k j then none else find j gs)
unfolding find delete
find-delete k j [] = ground arith
find-delete k j (g ∷ gs) =
    ground
      (arith, find-delete k j gs, key_eq_iff k j, key_eq_iff (key_of g) k, key_eq_iff (key_of g) j)

-- After an upsert the row is found under its own key, with its access normalized and its creation
-- time filled in, and every other key answers as before; after a delete the key has no row, and
-- every other key answers as before.
pub find-upsert-delete :
    (now : ℤ) (g : Grant) (k j : MemKey) (gs : Table)
    → (find j (upsert now g gs) ≡ (if key_eq (key_of g) j then some (stamped now g) else find j gs))
      × (find j (delete k gs) ≡ (if key_eq k j then none else find j gs))
unfolding find upsert
find-upsert-delete now g k j gs = (ground (arith, find-delete (key_of g) j gs), find-delete k j gs)

norm_access-named : (a : String) → norm_access a ≢ ""
unfolding norm_access
norm_access-named a = elim (String-cases a access_write) [
  | inl (_, e) ↦ rw e (λ p. cc)
  | inr (_, e) ↦ rw e (λ p. cc)
]

granted_orgs-find :
    (rt rid o : String) (gs : Table)
    → In o (granted_orgs rt rid gs) ↔ (find (org_key rt rid o) gs ≢ none)
unfolding granted_orgs find key_eq
granted_orgs-find rt rid o [] = ground arith
granted_orgs-find rt rid o (g ∷ gs) = ground (
  arith,
  granted_orgs-find rt rid o gs,
  eq_iff g.resource_type rt,
  eq_iff g.resource_id rid,
  eq_iff g.subject_type subject_org,
  eq_iff g.subject_id o,
)

access_of-named : (r : Option Grant) → (access_of r ≢ "") ↔ (r ≢ none)
unfolding access_of
access_of-named none = (λ h p. h refl, λ h p. h refl)
access_of-named (some g) = (λ h p. cc, λ h. norm_access-named g.access)

-- The organizations listed for a resource are exactly those whose access to it is not empty.
pub granted_orgs-org_access :
    (rt rid o : String) (gs : Table)
    → o ≢ ""
    → In o (granted_orgs rt rid gs) ↔ (org_access rt rid o gs ≢ "")
unfolding org_access
granted_orgs-org_access rt rid o gs named = ground (
  arith,
  eq_iff o "",
  granted_orgs-find rt rid o gs,
  access_of-named (find (org_key rt rid o) gs),
)

-- A purged subject has no row left, for any resource, and the rows of other subjects are kept.
pub find-purge_subject :
    (st sid : String) (k : MemKey) (gs : Table)
    → find k (purge_subject st sid gs)
      ≡ (if k.subject_type == st && k.subject_id == sid then none else find k gs)
unfolding find purge_subject
find-purge_subject st sid k [] = ground arith
find-purge_subject st sid k (g ∷ gs) =
    ground (arith, find-purge_subject st sid k gs, key_eq_iff (key_of g) k)

-- A stored access level allows writing exactly if the row says write, and always allows reading.
pub stamped-allows :
    (now : ℤ) (g : Grant)
    → (allows (stamped now g).access true ≡ (g.access == access_write))
      × (allows (stamped now g).access false ≡ true)
unfolding stamped allows
stamped-allows now g = elim (String-cases g.access access_write) [
  | inl (_, e) ↦ rw (e, norm_access) (refl, refl)
  | inr (_, e) ↦ rw (e, norm_access) (refl, refl)
]
