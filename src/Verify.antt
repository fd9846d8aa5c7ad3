-- ===== src/Verify.antt =====
-- internal/verify: the verifiers that look at a quarantined artifact, and the chain that runs them.
-- A verifier may keep state (the pins of TOFU), so it is a step on the state that the chain passes
-- along.
pub mod Chain
pub mod Checksum
pub mod Tofu
pub mod Consensus
pub mod Maturity
pub mod Confusion
use specula.Prelude.{String, Option, none, some, List, [], ◌∷◌, Bool, true, false}
use specula.Artifact.{Tier, Status, ArtifactRef, Artifact, Result, Note}

-- What a verifier gives back: a result, an error (Go's second result) and the state it leaves.
pub record Answer (S : Type 0) : Type 0 where
  pub result : Result
  pub error : Option String
  pub state : S

pub record Verifier (S : Type 0) : Type 0 where
  pub name : String
  pub tier : Tier
  pub verify : ArtifactRef → Artifact → S → Answer S

-- A result with one message that is not retryable.
abbrev pub result_of : Status → Tier → Note → Result
result_of s t n = record { status = s; tier = t; message = n ∷ []; retryable = false }
