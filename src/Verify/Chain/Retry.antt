-- ===== src/Verify/Chain/Retry.antt =====
-- What the chain makes of the mark by which a verifier says that a retry may succeed.
use specula.Prelude.{◌≡◌, true, false, none, List, [], ◌∷◌, ◌++◌, any, arith, subst, sym}
use specula.Artifact.{ArtifactRef, Artifact, fail}
use specula.Verify.{Answer, Verifier}
use specula.Verify.Chain.{Outcome, Progress, accepted, start, run, verify}
use specula.Verify.Chain.Verdict.{answers, rejects}
use specula.Verify.Chain.Ordering.{state_after, verify-run}

-- The chain fails with the message of the answer and without a mark.
abbrev pub FailsPlainly : {S : Type 0} → Answer S → Outcome S → Type 0
FailsPlainly a out =
    (out.result.status ≡ fail)
    × (out.result.message ≡ a.result.message)
    × (out.result.retryable ≡ false)

module _ {S : Type 0} (ref : ArtifactRef) (art : Artifact) where
  run-FailsPlainly :
      (before : List (Verifier S)) (v : Verifier S) (after : List (Verifier S)) (p : Progress)
      (s : S)
      → any rejects (answers ref art before s) ≡ false
      → (v.verify ref art (state_after ref art before s)).error ≡ none
      → (v.verify ref art (state_after ref art before s)).result.status ≡ fail
      → FailsPlainly
          (v.verify ref art (state_after ref art before s))
          (run ref art (before ++ v ∷ after) p s)
  unfolding run
  run-FailsPlainly [] v after p s h e f = ground arith
  run-FailsPlainly (u ∷ us) v after p s h e f =
      let a : Answer S = u.verify ref art s in
      ground (
        arith,
        run-FailsPlainly us v after p a.state,
        run-FailsPlainly us v after (accepted ref u a.result p) a.state,
      )

-- When a verifier fails with a result that it marks as retryable, the chain fails with its message, and
-- the mark is gone.
pub retryable_dropped :
    {S : Type 0} (ref : ArtifactRef) (art : Artifact) (before : List (Verifier S)) (v : Verifier S)
    (after : List (Verifier S)) (s : S)
    → any rejects (answers ref art before s) ≡ false
    → (v.verify ref art (state_after ref art before s)).error ≡ none
    → (v.verify ref art (state_after ref art before s)).result.status ≡ fail
    → (v.verify ref art (state_after ref art before s)).result.retryable ≡ true
    → FailsPlainly
        (v.verify ref art (state_after ref art before s))
        (verify ref art (before ++ v ∷ after) s)
retryable_dropped ref art before v after s h e f marked =
    subst (FailsPlainly (v.verify ref art (state_after ref art before s)))
      (sym (verify-run ref art before v after s))
      (run-FailsPlainly ref art before v after start s h e f)
