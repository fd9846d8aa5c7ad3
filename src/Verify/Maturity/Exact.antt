-- ===== src/Verify/Maturity/Exact.antt =====
-- When the gate of internal/verify/maturity.go rejects a version.
use specula.Prelude.{
  ℕ, ◌+◌, String, Bool, true, false, ◌≡◌, ◌≢◌, ◌⊎◌, ◌↔◌, refl, Option, none, some, List, [], ◌∷◌,
  sym, subst, ◌∙◌, arith, leb, if◌then◌else◌, ◌≤◌, eq_iff,
}
use specula.Prelude.Int.{ℤ, pos, sub_ℕ, ◌+ℤ◌, ◌≤ℤ◌, +ℤ_parts, leb_ℤ, pos_part, neg_part}
use specula.Prelude.Text.{trim_space, to_lower}
use specula.Artifact.{fail, ArtifactRef, Artifact}
use specula.Verify.Maturity.{
  MaturitySpec, spec_for, active, configured, resolve_publish_time, is_mature, Rejected, age,
  verify_maturity, verify_maturity-Rejected,
}

-- The map of the specs has `s` under the protocol.
abbrev pub Specified : String → MaturitySpec → List MaturitySpec → Type 0
Specified p s [] = ⊥
Specified p s (x ∷ xs) = ((x.protocol ≡ p) × (s ≡ x)) ⊎ ((x.protocol ≢ p) × Specified p s xs)

-- The publish time: the one of the metadata, or without it the one of the Last-Modified header.
abbrev pub Published : (String → Option ℤ) → Artifact → ℤ → Type 0
Published parse art t =
    (art.meta.published_at ≡ some t)
    ⊎ ((art.meta.published_at ≡ none)
        × (trim_space art.meta.last_modified ≢ "")
        × (parse (trim_space art.meta.last_modified) ≡ some t))

spec_for-Specified :
    (p : String) (s : MaturitySpec) (specs : List MaturitySpec)
    → (spec_for p specs ≡ some s) ↔ Specified p s specs
spec_for-Specified p s [] = ((λ e. absurd cc), λ h. absurd h)
spec_for-Specified p s (x ∷ xs) = ground (arith, eq_iff x.protocol p, spec_for-Specified p s xs)

resolve-Published :
    (parse : String → Option ℤ) (art : Artifact) (t : ℤ)
    → (resolve_publish_time parse art ≡ some t) ↔ Published parse art t
unfolding resolve_publish_time
resolve-Published parse art t = ground (arith, eq_iff (trim_space art.meta.last_modified) "")

sub_ℕ_parts : (a b : ℕ) → pos_part (sub_ℕ a b) + b ≡ neg_part (sub_ℕ a b) + a
sub_ℕ_parts a b = ground arith

is_mature-sum :
    (now t : ℤ) (s : MaturitySpec) → (is_mature now s t ≡ false) ↔ (¬ (t +ℤ s.min_age ≤ℤ now))
is_mature-sum now t s =
    compared (pos_part s.min_age) (neg_part s.min_age) (pos_part now) (neg_part now) (pos_part t)
      (neg_part t) (pos_part (age now t)) (neg_part (age now t)) (pos_part (t +ℤ s.min_age))
      (neg_part (t +ℤ s.min_age))
      (sub_ℕ_parts (pos_part now + neg_part t) (neg_part now + pos_part t)) (+ℤ_parts t s.min_age)
  where
    compared :
        (m m' n n' t t' a a' b b' : ℕ)
        → a + (n' + t) ≡ a' + (n + t')
        → b + t' + m' ≡ b' + t + m
        → (leb (m + a') (a + m') ≡ false) ↔ (¬ (b + n' ≤ n + b'))
    compared m m' n n' t t' a a' b b' p q = ground arith

-- A version that the specs reject.
abbrev pub TooYoung : (String → Option ℤ) → ℤ → List MaturitySpec → ArtifactRef → Artifact → Type 0
TooYoung parse now specs ref art =
    (s : MaturitySpec) × (t : ℤ) × Specified (to_lower (trim_space ref.protocol)) s specs
    × (pos 1 ≤ℤ s.min_age)
    × (ref.mutable ≡ false)
    × Published parse art t
    × (¬ (t +ℤ s.min_age ≤ℤ now))
    × (s.policy ≡ "enforce")

module _ (now : ℤ) (s : MaturitySpec) (b : Bool) where
  abbrev Fails : Option ℤ → Type 0
  Fails r =
      (pos 1 ≤ℤ s.min_age)
      × (t : ℤ) × (r ≡ some t)
      × (b ≡ false)
      × (is_mature now s t ≡ false)
      × (s.policy ≡ "enforce")

  active-Fails : (r : Option ℤ) → Rejected now (active (some s)) b r → Fails r
  active-Fails r = by_age (leb_ℤ s.min_age (pos 0)) refl r
    where
      by_age :
          (c : Bool)
          → leb_ℤ s.min_age (pos 0) ≡ c
          → (r : Option ℤ) → Rejected now (if c then none else some s) b r
          → Fails r
      by_age true q r h = absurd h
      by_age false q none h = absurd h
      by_age false q (some t) (fixed, young, strict) = (ground arith, t, refl, fixed, young, strict)

  Fails-active :
      (t : ℤ)
      → pos 1 ≤ℤ s.min_age
      → b ≡ false
      → is_mature now s t ≡ false
      → s.policy ≡ "enforce"
      → Rejected now (active (some s)) b (some t)
  Fails-active t old fixed young strict = by_age (leb_ℤ s.min_age (pos 0)) refl
    where
      by_age :
          (c : Bool)
          → leb_ℤ s.min_age (pos 0) ≡ c
          → Rejected now (if c then none else some s) b (some t)
      by_age true q = absurd (ground arith)
      by_age false q = (fixed, young, strict)

-- The gate rejects a version exactly when its protocol has a spec with a positive age, the reference is
-- immutable, its publish time is known, from the metadata or, only without it, from Last-Modified, the
-- minimum age after that time is not reached yet, and the policy of the spec is to enforce it.
pub verify_maturity-exact :
    (parse : String → Option ℤ) (now : ℤ) (specs : List MaturitySpec) (ref : ArtifactRef)
    (art : Artifact)
    → ((verify_maturity parse now specs ref art).status ≡ fail) ↔ TooYoung parse now specs ref art
unfolding configured
verify_maturity-exact parse now specs ref art =
    let (f, g) = verify_maturity-Rejected parse now specs ref art in
    (
      (λ e. to (spec_for p specs) refl (resolve_publish_time parse art) refl (f e)),
      λ (s, t, spec, old, fixed, published, young, strict). g (
          subst (λ o. Rejected now (active o) ref.mutable (resolve_publish_time parse art))
            (sym ((spec_for-Specified p s specs).1 spec))
            (subst (Rejected now (active (some s)) ref.mutable)
              (sym ((resolve-Published parse art t).1 published))
              (Fails-active now s ref.mutable t old fixed ((is_mature-sum now t s).1 young)
                strict))),
    )
  where
    p : String
    p = to_lower (trim_space ref.protocol)

    to :
        (o : Option MaturitySpec)
        → spec_for p specs ≡ o
        → (r : Option ℤ) → resolve_publish_time parse art ≡ r
        → Rejected now (active o) ref.mutable r
        → TooYoung parse now specs ref art
    to none q r e h = absurd h
    to (some s) q r e h =
        let (old, t, found, fixed, young, strict) = active-Fails now s ref.mutable r h in
        (
          s,
          t,
          (spec_for-Specified p s specs).0 q,
          old,
          fixed,
          (resolve-Published parse art t).0 (e ∙ found),
          (is_mature-sum now t s).0 young,
          strict,
        )
