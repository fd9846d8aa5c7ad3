-- ===== src/Org/Ladder.antt =====
-- Facts about the role ladder of internal/org/org.go.
use specula.Prelude.{String, ◌≡◌, ◌⊎◌, inl, inr, arith, refl, ◌==◌, if◌then◌else◌}
use specula.Prelude.Text.{folds_to}
use specula.Org.{
  role_viewer, role_editor, role_admin, role_owner, normalize_legacy_role, normalize_role,
}

abbrev pub Rung : String → Type 0
Rung r = (r ≡ role_owner) ⊎ (r ≡ role_admin) ⊎ (r ≡ role_editor) ⊎ (r ≡ role_viewer)

normalize_legacy_role_cases :
    (role : String) → Rung (normalize_legacy_role role) ⊎ (normalize_legacy_role role ≡ "")
unfolding normalize_legacy_role
normalize_legacy_role_cases role = ground arith

again : (r : String) → Rung r ⊎ (r ≡ "") → normalize_legacy_role r ≡ r
unfolding normalize_legacy_role folds_to
again r (inl (inl e)) = rw e
again r (inl (inr (inl e))) = rw e
again r (inl (inr (inr (inl e)))) = rw e
again r (inl (inr (inr (inr e)))) = rw e
again r (inr e) = rw e

-- Normalizing a role a second time changes nothing.
pub normalize_legacy_role_again :
    (role : String)
    → normalize_legacy_role (normalize_legacy_role role) ≡ normalize_legacy_role role
normalize_legacy_role_again role = again _ (normalize_legacy_role_cases role)

or_viewer : (r : String) → Rung r ⊎ (r ≡ "") → Rung (if r == "" then role_viewer else r)
or_viewer r (inl (inl e)) = rw e (inl refl)
or_viewer r (inl (inr (inl e))) = rw e (inr (inl refl))
or_viewer r (inl (inr (inr (inl e)))) = rw e (inr (inr (inl refl)))
or_viewer r (inl (inr (inr (inr e)))) = rw e (inr (inr (inr refl)))
or_viewer r (inr e) = rw e (inr (inr (inr refl)))

-- Any text normalizes to a rung of the ladder.
pub normalize_role-Rung : (role : String) → Rung (normalize_role role)
unfolding normalize_role
normalize_role-Rung role = or_viewer _ (normalize_legacy_role_cases role)
