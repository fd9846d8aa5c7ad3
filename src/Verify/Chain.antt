-- ===== src/Verify/Chain.antt =====
-- internal/verify/verify.go: `Chain.Verify`, with the metrics that it records. The chain stops at
-- the first verifier that errs or fails, and otherwise reports the highest tier that was reached.
pub mod Verdict
pub mod Ordering
pub mod Retry
use specula.Prelude.{
  ℕ, String, Option, none, some, List, [], ◌∷◌, ◌++◌, map, Bool, true, false, ltb, if◌then◌else◌,
}
use specula.Artifact.{
  Tier, Status, pass, warn, fail, skip, ArtifactRef, Artifact, Result, Note, tagged, no_verifiers,
  verifier_error, checksum, rank,
}
use specula.Verify.{Answer, Verifier, result_of}

abbrev pub check_chain : String
check_chain = "chain"

-- One call of metrics.RecordVerification: protocol, check, tier, status.
pub record Sample : Type 0 where
  pub protocol : String
  pub check : String
  pub tier : Tier
  pub status : Status

abbrev pub sample : ArtifactRef → String → Tier → Status → Sample
sample ref check t s = record { protocol = ref.protocol; check = check; tier = t; status = s }

-- The result of the chain with Go's error, the verifiers' state and the samples, oldest first.
pub record Outcome (S : Type 0) : Type 0 where
  pub result : Result
  pub error : Option String
  pub state : S
  pub samples : List Sample

-- The variables of the loop.
pub record Progress : Type 0 where
  pub highest : Tier
  pub warn_seen : Bool
  pub messages : List Note
  pub samples : List Sample

abbrev pub higher : Tier → Tier → Tier
higher a b = if ltb (rank a) (rank b) then b else a

abbrev pub is_warn : Status → Bool
is_warn warn = true
is_warn _ = false

abbrev pub overall : Progress → Status
overall p = if p.warn_seen then warn else pass

abbrev pub start : Progress
start = record { highest = checksum; warn_seen = false; messages = []; samples = [] }

module _ {S : Type 0} (ref : ArtifactRef) where
  -- An error or a failure ends the chain at the tier of the verifier.
  abbrev pub rejected : Verifier S → Progress → S → Option String → List Note → Outcome S
  rejected v p s error message = record {
    result = record { status = fail; tier = v.tier; message = message; retryable = false };
    error = error;
    state = s;
    samples =
        p.samples ++ (sample ref v.name v.tier fail ∷ sample ref check_chain v.tier fail ∷ []);
  }

  -- A verifier that ran and accepted.
  abbrev pub accepted : Verifier S → Result → Progress → Progress
  accepted v res p = record {
    highest = higher p.highest res.tier;
    warn_seen = if is_warn res.status then true else p.warn_seen;
    messages = p.messages ++ map (tagged v.name) res.message;
    samples = p.samples ++ sample ref v.name res.tier res.status ∷ [];
  }

  abbrev pub finished : Progress → S → Outcome S
  finished p s = record {
    result = record {
      status = overall p;
      tier = p.highest;
      message = p.messages;
      retryable = false;
    };
    error = none;
    state = s;
    samples = p.samples ++ sample ref check_chain p.highest (overall p) ∷ [];
  }

  -- One round of the loop, and the rounds that are left.
  abbrev pub settle :
      Verifier S
      → Progress
      → Answer S
      → (Progress → S → Outcome S)
      → Option String
      → Status
      → Outcome S
  settle v p a rest (some e) status = rejected v p a.state (some e) (verifier_error v.name e ∷ [])
  settle v p a rest none fail = rejected v p a.state none a.result.message
  settle v p a rest none skip = rest p a.state
  settle v p a rest none pass = rest (accepted v a.result p) a.state
  settle v p a rest none warn = rest (accepted v a.result p) a.state

  unfoldable pub run : Artifact → List (Verifier S) → Progress → S → Outcome S
  run art [] p s = finished p s
  run art (v ∷ vs) p s =
      let a = v.verify ref art s in settle v p a (run art vs) a.error a.result.status

  unfoldable pub verify : Artifact → List (Verifier S) → S → Outcome S
  unfolding run
  verify art [] s = record {
    result = result_of pass checksum no_verifiers;
    error = none;
    state = s;
    samples = [];
  }
  verify art (v ∷ vs) s = run art (v ∷ vs) start s
