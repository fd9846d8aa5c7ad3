-- ===== src/Verify/Chain/Verdict.antt =====
-- What the outcome of the chain of internal/verify/verify.go says of the verifiers' answers.
use specula.Prelude.{
  ◌≡◌, ◌≢◌, ◌≤◌, ◌↔◌, ◌⊎◌, inl, List, [], ◌∷◌, Bool, true, false, not, ◌||◌, ◌&&◌, any, all,
  is_some, arith, refl, if◌then◌else◌,
}
use specula.Artifact.{Tier, Status, pass, warn, fail, skip, ArtifactRef, Artifact, checksum, rank}
use specula.Verify.{Answer, Verifier}
use specula.Verify.Chain.{
  Progress, is_warn, start, accepted, finished, sample, check_chain, run, verify,
}

abbrev pub is_fail : Status → Bool
is_fail fail = true
is_fail _ = false

-- The verifier ran and formed an opinion.
abbrev pub ran : Status → Bool
ran pass = true
ran warn = true
ran _ = false

module _ {S : Type 0} where
  abbrev pub rejects : Answer S → Bool
  rejects a = is_some a.error || is_fail a.result.status

  abbrev pub warns : Answer S → Bool
  warns a = is_warn a.result.status

module _ {S : Type 0} (ref : ArtifactRef) (art : Artifact) where
  -- The answers of all verifiers, each run on the state that the one before it leaves.
  abbrev pub answers : List (Verifier S) → S → List (Answer S)
  answers [] s = []
  answers (v ∷ vs) s = let a = v.verify ref art s in a ∷ answers vs a.state

  run-accepts :
      (vs : List (Verifier S)) (p : Progress) (s : S)
      → ((run ref art vs p s).result.status ≢ fail) ↔ (any rejects (answers vs s) ≡ false)
  unfolding run
  run-accepts [] p s = ground arith
  run-accepts (v ∷ vs) p s =
      let a : Answer S = v.verify ref art s in
      ground (arith, run-accepts vs p a.state, run-accepts vs (accepted ref v a.result p) a.state)

  -- Some verifier that ran reached exactly this tier.
  abbrev pub Attained : Tier → List (Answer S) → Type 0
  Attained t [] = ⊥
  Attained t (a ∷ rest) = ((ran a.result.status ≡ true) × (a.result.tier ≡ t)) ⊎ Attained t rest

  -- No verifier that ran reached a higher tier.
  abbrev pub Tops : Tier → List (Answer S) → Type 0
  Tops t [] = Unit {0}
  Tops t (a ∷ rest) = (ran a.result.status ≡ true → rank a.result.tier ≤ rank t) × Tops t rest

  run-tier-le :
      (vs : List (Verifier S)) (p : Progress) (s : S)
      → (run ref art vs p s).result.status ≢ fail
      → (rank p.highest ≤ rank (run ref art vs p s).result.tier)
        × Tops (run ref art vs p s).result.tier (answers vs s)
  unfolding run
  run-tier-le [] p s h = (omega arith, tt)
  run-tier-le (v ∷ vs) p s h =
      let a : Answer S = v.verify ref art s in
      ground (arith, run-tier-le vs p a.state, run-tier-le vs (accepted ref v a.result p) a.state)

  run-Attained :
      (vs : List (Verifier S)) (p : Progress) (s : S)
      → (run ref art vs p s).result.status ≢ fail
      → ((run ref art vs p s).result.tier ≡ p.highest)
        ⊎ Attained (run ref art vs p s).result.tier (answers vs s)
  unfolding run
  run-Attained [] p s h = inl refl
  run-Attained (v ∷ vs) p s h =
      let a : Answer S = v.verify ref art s in
      ground (arith, run-Attained vs p a.state, run-Attained vs (accepted ref v a.result p) a.state)

  run-warns :
      (vs : List (Verifier S)) (p : Progress) (s : S)
      → (run ref art vs p s).result.status ≢ fail
      → (run ref art vs p s).result.status
        ≡ (if p.warn_seen || any warns (answers vs s) then warn else pass)
  unfolding run
  run-warns [] p s h = ground arith
  run-warns (v ∷ vs) p s h =
      let a : Answer S = v.verify ref art s in
      ground (arith, run-warns vs p a.state, run-warns vs (accepted ref v a.result p) a.state)

-- A chain accepts, with pass or warn, exactly if no verifier errs or fails when all are run in
-- order; it then warns exactly if one of them warns.
pub verify-accepts :
    {S : Type 0} (ref : ArtifactRef) (art : Artifact) (vs : List (Verifier S)) (s : S)
    → (((verify ref art vs s).result.status ≢ fail) ↔ (any rejects (answers ref art vs s) ≡ false))
      × ((verify ref art vs s).result.status ≢ fail
          → (verify ref art vs s).result.status
            ≡ (if any warns (answers ref art vs s) then warn else pass))
unfolding verify
verify-accepts ref art [] s = ground arith
verify-accepts ref art (v ∷ vs) s =
    (run-accepts ref art (v ∷ vs) start s, run-warns ref art (v ∷ vs) start s)

-- The tier of an accepting chain is honest: no verifier that ran reached a higher one, and unless it
-- is the lowest, some verifier that ran reached it.
pub verify-tier :
    {S : Type 0} (ref : ArtifactRef) (art : Artifact) (vs : List (Verifier S)) (s : S)
    → (verify ref art vs s).result.status ≢ fail
    → Tops ref art (verify ref art vs s).result.tier (answers ref art vs s)
      × (((verify ref art vs s).result.tier ≡ checksum)
          ⊎ Attained ref art (verify ref art vs s).result.tier (answers ref art vs s))
unfolding verify
verify-tier ref art [] s h = (tt, inl refl)
verify-tier ref art (v ∷ vs) s h =
    ((run-tier-le ref art (v ∷ vs) start s h).1, run-Attained ref art (v ∷ vs) start s h)

abbrev pub skips : {S : Type 0} → Answer S → Bool
skips a = not (is_some a.error) && is_skip a.result.status
  where
    is_skip : Status → Bool
    is_skip skip = true
    is_skip _ = false

run-skips :
    {S : Type 0} (ref : ArtifactRef) (art : Artifact) (vs : List (Verifier S)) (p : Progress)
    (s : S)
    → all skips (answers ref art vs s) ≡ true
    → ((run ref art vs p s).result ≡ (finished ref p s).result)
      × ((run ref art vs p s).samples ≡ (finished ref p s).samples)
unfolding run
run-skips ref art [] p s h = (refl, refl)
run-skips {S} ref art (v ∷ vs) p s h =
    let a : Answer S = v.verify ref art s in ground (arith, run-skips ref art vs p a.state)

-- When every verifier of a chain with at least one declines to look, the artifact still passes, and
-- the chain still reports a pass at the checksum tier to the metrics.
pub all_skip-passes :
    {S : Type 0} (ref : ArtifactRef) (art : Artifact) (v : Verifier S) (vs : List (Verifier S))
    (s : S)
    → all skips (answers ref art (v ∷ vs) s) ≡ true
    → ((verify ref art (v ∷ vs) s).result.status ≡ pass)
      × ((verify ref art (v ∷ vs) s).result.tier ≡ checksum)
      × ((verify ref art (v ∷ vs) s).samples ≡ sample ref check_chain checksum pass ∷ [])
unfolding verify
all_skip-passes ref art v vs s h = ground (arith, run-skips ref art (v ∷ vs) start s)
