-- ===== src/Verify/Tofu/Pins.antt =====
-- Trust on first use over any lawful store of pins, for internal/verify/tofu.go.
use specula.Prelude.{
  String, ◌≡◌, ◌≢◌, ◌↔◌, inl, inr, false, List, [], ◌∷◌, ◌==◌, eq_iff, arith, refl, subst, ◌∙◌,
  String-cases, Bool-cases,
}
use specula.Artifact.{ArtifactRef, Artifact, fail}
use specula.Verify.Tofu.{
  PinRead, pin, read_error, TofuStore, IsLawful, tofu_key, compared, verify_tofu,
}

module _ {S : Type 0} (t : TofuStore S) where
  -- Any number of verifications, one after the other.
  abbrev pub verify_all : List (ArtifactRef × Artifact) → S → S
  verify_all [] s = s
  verify_all ((ref, art) ∷ rest) s = verify_all rest (verify_tofu t ref art s).state

module _ {S : Type 0} (t : TofuStore S) (lawful : IsLawful t) where
  compared_same :
      (key digest d : String) (s : S) → d ≢ "" → (compared t key digest s (pin d)).state ≡ s
  compared_same key digest d s named = ground (arith, eq_iff d "")

  compared_other :
      (k key digest : String) (s : S) (r : PinRead)
      → (k == key) ≡ false
      → t.get_pin key (compared t k digest s r).state ≡ t.get_pin key s
  compared_other k key digest s r f = ground (arith, lawful.others k key digest s f)

  -- A digest that is pinned stays pinned, whatever is verified.
  pin_kept :
      (ref : ArtifactRef) (art : Artifact) (s : S) (key d : String)
      → d ≢ ""
      → t.get_pin key s ≡ pin d
      → t.get_pin key (verify_tofu t ref art s).state ≡ pin d
  unfolding verify_tofu
  pin_kept ref art s key d named held = elim (Bool-cases ref.mutable) [
    | inl m ↦ rw m held
    | inr m ↦ elim (String-cases (tofu_key ref) key) [
      | inl (e, _) ↦ rw (m, e, held) (rw (compared_same key art.digest d s named) held)
      | inr (_, f) ↦
          rw m
            (compared_other (tofu_key ref) key art.digest s (t.get_pin (tofu_key ref) s) f ∙ held)
    ]
  ]

  pins_kept :
      (later : List (ArtifactRef × Artifact)) (s : S) (key d : String)
      → d ≢ ""
      → t.get_pin key s ≡ pin d
      → t.get_pin key (verify_all t later s) ≡ pin d
  pins_kept [] s key d named held = held
  pins_kept ((ref, art) ∷ rest) s key d named held =
      pins_kept rest (verify_tofu t ref art s).state key d named
        (pin_kept ref art s key d named held)

  compared_accepted :
      (k digest : String) (s : S) (r : PinRead)
      → t.get_pin k s ≡ r
      → (compared t k digest s r).result.status ≢ fail
      → t.get_pin k (compared t k digest s r).state ≡ pin digest
  compared_accepted k digest s (read_error e) read held = absurd (held refl)
  compared_accepted k digest s (pin p) read held =
      ground (arith, lawful.read_back k digest s, eq_iff p digest)

  compared_decides :
      (k digest d : String) (s : S)
      → d ≢ ""
      → ((compared t k digest s (pin d)).result.status ≢ fail) ↔ (digest ≡ d)
  compared_decides k digest d s named = ground (arith, eq_iff d "", eq_iff d digest)

  -- A digest that is accepted at an immutable version is pinned there.
  accepted_pin :
      (ref : ArtifactRef) (art : Artifact) (s : S)
      → ref.mutable ≡ false
      → (verify_tofu t ref art s).result.status ≢ fail
      → t.get_pin (tofu_key ref) (verify_tofu t ref art s).state ≡ pin art.digest
  unfolding verify_tofu
  accepted_pin ref art s m =
      rw m (compared_accepted (tofu_key ref) art.digest s (t.get_pin (tofu_key ref) s) refl)

  pinned_decides :
      (ref : ArtifactRef) (art : Artifact) (s : S) (d : String)
      → ref.mutable ≡ false
      → d ≢ ""
      → t.get_pin (tofu_key ref) s ≡ pin d
      → ((verify_tofu t ref art s).result.status ≢ fail) ↔ (art.digest ≡ d)
  unfolding verify_tofu
  pinned_decides ref art s d m named held =
      rw (m, held) (compared_decides (tofu_key ref) art.digest d s named)

-- Trust on first use: once an artifact with a digest was accepted for an immutable version, then
-- after any number of other verifications an artifact is accepted for a version with the same key
-- exactly if it has the same digest.
pub accepted_once :
    {S : Type 0} (t : TofuStore S) (lawful : IsLawful t) (ref ref' : ArtifactRef)
    (art art' : Artifact) (later : List (ArtifactRef × Artifact)) (s : S)
    → ref.mutable ≡ false
    → ref'.mutable ≡ false
    → tofu_key ref ≡ tofu_key ref'
    → art.digest ≢ ""
    → (verify_tofu t ref art s).result.status ≢ fail
    → (((verify_tofu t ref' art' (verify_all t later (verify_tofu t ref art s).state)).result.status
          ≢ fail)
        ↔ (art'.digest ≡ art.digest))
accepted_once {S} t lawful ref ref' art art' later s m m' same named accepted =
    let s₁ : S = (verify_tofu t ref art s).state in
    let held =
      pins_kept t lawful later s₁ (tofu_key ref) art.digest named
        (accepted_pin t lawful ref art s m accepted) in
    pinned_decides t lawful ref' art' (verify_all t later s₁) art.digest m' named
      (subst (λ k. t.get_pin k (verify_all t later s₁) ≡ pin art.digest) same held)
