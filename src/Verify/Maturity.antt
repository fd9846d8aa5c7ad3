-- ===== src/Verify/Maturity.antt =====
-- internal/verify/maturity.go: the gate on versions that were published too recently. `parse` is
-- `http.ParseTime`, and the times are nanoseconds.
pub mod Exact
use specula.Prelude.{
  ◌+◌, refl, String, Bool, true, false, ◌≡◌, ◌↔◌, Option, none, some, List, [], ◌∷◌, ◌==◌,
  if◌then◌else◌, arith, eq_iff,
}
use specula.Prelude.Int.{ℤ, pos, leb_ℤ, sub_ℕ, pos_part, neg_part}
use specula.Prelude.Text.{trim_space, to_lower}
use specula.Artifact.{
  pass, warn, fail, skip, checksum, ArtifactRef, Artifact, Result, maturity_unconfigured,
  maturity_mutable, publish_time_unknown, mature, too_young,
}
use specula.Verify.{Verifier, result_of}

-- The policy of a protocol that is set. Every policy but `enforce` warns.
pub record MaturitySpec : Type 0 where
  pub protocol : String
  pub min_age : ℤ
  pub policy : String

abbrev spec_for : String → List MaturitySpec → Option MaturitySpec
spec_for p [] = none
spec_for p (s ∷ ss) = if s.protocol == p then some s else spec_for p ss

-- The specs of a protocol with a positive age.
abbrev active : Option MaturitySpec → Option MaturitySpec
active none = none
active (some s) = if leb_ℤ s.min_age (pos 0) then none else some s

unfoldable pub configured : List MaturitySpec → ArtifactRef → Option MaturitySpec
configured specs ref = active (spec_for (to_lower (trim_space ref.protocol)) specs)

abbrev or_modified : (String → Option ℤ) → String → Option ℤ → Option ℤ
or_modified parse modified (some t) = some t
or_modified parse modified none =
    let lm = trim_space modified in if lm == "" then none else parse lm

unfoldable pub resolve_publish_time : (String → Option ℤ) → Artifact → Option ℤ
resolve_publish_time parse art = or_modified parse art.meta.last_modified art.meta.published_at

-- now - published
abbrev pub age : ℤ → ℤ → ℤ
age now published = sub_ℕ (pos_part now + neg_part published) (neg_part now + pos_part published)

abbrev pub is_mature : ℤ → MaturitySpec → ℤ → Bool
is_mature now s published = leb_ℤ s.min_age (age now published)

abbrev pub young : MaturitySpec → ℤ → ℤ → Result
young s now published =
    result_of (if s.policy == "enforce" then fail else warn) checksum
      (too_young (age now published) s.min_age)

abbrev pub aged : ℤ → MaturitySpec → Option ℤ → Result
aged now s none = result_of skip checksum publish_time_unknown
aged now s (some published) =
    if is_mature now s published
    then result_of pass checksum (mature (age now published) s.min_age)
    else young s now published

-- By the spec, whether the reference is mutable, and the publish time.
abbrev pub gate : ℤ → Option MaturitySpec → Bool → Option ℤ → Result
gate now none mutable published = result_of skip checksum maturity_unconfigured
gate now (some s) true published = result_of skip checksum maturity_mutable
gate now (some s) false published = aged now s published

unfoldable pub verify_maturity :
    (String → Option ℤ) → ℤ → List MaturitySpec → ArtifactRef → Artifact → Result
unfolding configured resolve_publish_time
verify_maturity parse now specs ref art =
    gate now (configured specs ref) ref.mutable (resolve_publish_time parse art)

unfoldable pub verifier : {S : Type 0} → (String → Option ℤ) → ℤ → List MaturitySpec → Verifier S
unfolding verify_maturity
verifier parse now specs = record {
  name = "maturity";
  tier = checksum;
  verify = λ ref art s. record {
    result = verify_maturity parse now specs ref art;
    error = none;
    state = s;
  };
}

-- A spec, a mutability and a publish time for which the gate rejects.
abbrev pub Rejected : ℤ → Option MaturitySpec → Bool → Option ℤ → Type 0
Rejected now none b p = ⊥
Rejected now (some s) b none = ⊥
Rejected now (some s) b (some t) =
    (b ≡ false) × (is_mature now s t ≡ false) × (s.policy ≡ "enforce")

by_age :
    (now : ℤ) (s : MaturitySpec) (t : ℤ)
    → ((aged now s (some t)).status ≡ fail) ↔ ((is_mature now s t ≡ false) × (s.policy ≡ "enforce"))
by_age now s t = by_test (is_mature now s t) (s.policy == "enforce") refl
  where
    by_test :
        (b c : Bool)
        → (s.policy == "enforce") ≡ c
        → ((if b
              then result_of pass checksum (mature (age now t) s.min_age)
              else result_of
                  (if c then fail else warn)
                  checksum
                  (too_young (age now t) s.min_age)).status
            ≡ fail)
          ↔ ((b ≡ false) × (s.policy ≡ "enforce"))
    by_test true c q = ((λ e. cc), λ h. cc)
    by_test false true q = ((λ e. (refl, (eq_iff s.policy "enforce").0 q)), λ h. refl)
    by_test false false q = ((λ e. cc), λ h. ground (arith, eq_iff s.policy "enforce"))

-- The gate rejects exactly on a spec, a mutability and a publish time for which it should.
pub verify_maturity-Rejected :
    (parse : String → Option ℤ) (now : ℤ) (specs : List MaturitySpec) (ref : ArtifactRef)
    (art : Artifact)
    → ((verify_maturity parse now specs ref art).status ≡ fail)
      ↔ Rejected now (configured specs ref) ref.mutable (resolve_publish_time parse art)
unfolding verify_maturity
verify_maturity-Rejected parse now specs ref art =
    by_spec (configured specs ref) ref.mutable (resolve_publish_time parse art)
  where
    by_spec :
        (o : Option MaturitySpec) (b : Bool) (p : Option ℤ)
        → ((gate now o b p).status ≡ fail) ↔ Rejected now o b p
    by_spec none b p = ((λ e. cc), λ h. absurd h)
    by_spec (some s) true none = ((λ e. cc), λ h. absurd h)
    by_spec (some s) true (some t) = ((λ e. cc), λ h. cc)
    by_spec (some s) false none = ((λ e. cc), λ h. absurd h)
    by_spec (some s) false (some t) =
        let (f, g) = by_age now s t in
        ((λ e. (refl, (f e).0, (f e).1)), λ (_, young, strict). g (young, strict))
