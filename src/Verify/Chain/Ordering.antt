-- ===== src/Verify/Chain/Ordering.antt =====
-- The order in which the chain of internal/verify/verify.go runs its verifiers, and where it stops.
use specula.Prelude.{
  ◌≡◌, Option, none, some, List, [], ◌∷◌, ◌++◌, true, false, any, arith, refl, sym, subst,
}
use specula.Artifact.{fail, ArtifactRef, Artifact}
use specula.Verify.{Answer, Verifier}
use specula.Verify.Chain.{
  Progress, Outcome, Sample, start, overall, accepted, sample, check_chain, run, verify,
}
use specula.Verify.Chain.Verdict.{answers, rejects}

module _ {S : Type 0} (ref : ArtifactRef) (art : Artifact) where
  -- The state that a list of verifiers leaves when all of them are run.
  abbrev pub state_after : List (Verifier S) → S → S
  state_after [] s = s
  state_after (v ∷ vs) s = state_after vs (v.verify ref art s).state

  -- The chain failed at this verifier, and the state is the one that it left.
  abbrev pub StopsAt : Verifier S → S → Outcome S → Type 0
  StopsAt v s o =
      (o.result.status ≡ fail) × (o.result.tier ≡ v.tier) × (o.state ≡ (v.verify ref art s).state)

  run-StopsAt :
      (before : List (Verifier S)) (v : Verifier S) (after : List (Verifier S)) (p : Progress)
      (s : S)
      → any rejects (answers ref art before s) ≡ false
      → rejects (v.verify ref art (state_after before s)) ≡ true
      → StopsAt v (state_after before s) (run ref art (before ++ v ∷ after) p s)
  unfolding run
  run-StopsAt [] v after p s h r = ground arith
  run-StopsAt (u ∷ us) v after p s h r =
      let a : Answer S = u.verify ref art s in
      ground (
        arith,
        run-StopsAt us v after p a.state,
        run-StopsAt us v after (accepted ref u a.result p) a.state,
      )

  pub verify-run :
      (before : List (Verifier S)) (v : Verifier S) (after : List (Verifier S)) (s : S)
      → verify ref art (before ++ v ∷ after) s ≡ run ref art (before ++ v ∷ after) start s
  unfolding verify
  verify-run [] v after s = refl
  verify-run (u ∷ us) v after s = refl

abbrev pub last : List Sample → Option Sample
last [] = none
last (x ∷ xs) = elim (last xs) [ none ↦ some x | some y ↦ some y ]

last-append : (xs : List Sample) (y : Sample) → last (xs ++ y ∷ []) ≡ some y
last-append [] y = refl
last-append (x ∷ xs) y = rw (last-append xs y)

last-append₂ : (xs : List Sample) (x y : Sample) → last (xs ++ x ∷ y ∷ []) ≡ some y
last-append₂ [] x y = refl
last-append₂ (z ∷ zs) x y = rw (last-append₂ zs x y)

-- The first verifier that errs or fails ends the chain: the result is a failure at its tier, and
-- none of the verifiers behind it is run, so the state is the one that it left.
pub verify-StopsAt :
    {S : Type 0} (ref : ArtifactRef) (art : Artifact) (before : List (Verifier S)) (v : Verifier S)
    (after : List (Verifier S)) (s : S)
    → any rejects (answers ref art before s) ≡ false
    → rejects (v.verify ref art (state_after ref art before s)) ≡ true
    → StopsAt ref art v (state_after ref art before s) (verify ref art (before ++ v ∷ after) s)
verify-StopsAt ref art before v after s h r =
    subst (StopsAt ref art v (state_after ref art before s))
      (sym (verify-run ref art before v after s)) (run-StopsAt ref art before v after start s h r)

run-reported :
    {S : Type 0} (ref : ArtifactRef) (art : Artifact) (vs : List (Verifier S)) (p : Progress)
    (s : S)
    → last (run ref art vs p s).samples
      ≡ some (
          sample ref check_chain
            (run ref art vs p s).result.tier
            (run ref art vs p s).result.status)
unfolding run
run-reported ref art [] p s = last-append p.samples (sample ref check_chain p.highest (overall p))
run-reported {S} ref art (v ∷ vs) p s =
    let a : Answer S = v.verify ref art s in
    ground (
      arith,
      run-reported ref art vs p a.state,
      run-reported ref art vs (accepted ref v a.result p) a.state,
      last-append₂ p.samples (sample ref v.name v.tier fail) (sample ref check_chain v.tier fail),
    )

-- What a chain of at least one verifier reports last to the metrics is the tier and the status of
-- the result that it returns.
pub verify-reported :
    {S : Type 0} (ref : ArtifactRef) (art : Artifact) (v : Verifier S) (vs : List (Verifier S))
    (s : S)
    → last (verify ref art (v ∷ vs) s).samples
      ≡ some (
          sample ref check_chain
            (verify ref art (v ∷ vs) s).result.tier
            (verify ref art (v ∷ vs) s).result.status)
unfolding verify
verify-reported ref art v vs s = run-reported ref art (v ∷ vs) start s
