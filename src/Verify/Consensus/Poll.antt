-- ===== src/Verify/Consensus/Poll.antt =====
-- internal/verify/consensus.go: Verify, over the answers of all mirrors and of the official source.
use specula.Prelude.{
  ℕ, String, Bool, true, false, ◌||◌, ◌==◌, Option, none, some, List, if◌then◌else◌,
}
use specula.Prelude.Int.{ℤ}
use specula.Artifact.{
  fail, skip, checksum, consensus, ArtifactRef, Artifact, Result, consensus_skipped, no_fetcher,
}
use specula.Verify.{result_of}
use specula.Verify.Consensus.{Arrival, votes_of, origin_of, effective_quorum, verify_cas_quorum}
use specula.Verify.Consensus.ContentId.{Hashes, verify_content_id_quorum}

abbrev pub identity_content_id : String
identity_content_id = "content_id"

-- `fetcher` says whether a MirrorDigestFetcher is wired. The mirrors and the official source are in the
-- arrivals.
pub record ConsensusConfig : Type 0 where
  pub fetcher : Bool
  pub quorum : ℤ
  pub identity_mode : String

module _ (h : Hashes) (cfg : ConsensusConfig) (art : Artifact) (body : Option (List ℕ)) where
  -- By the identity mode: the quorum on content ids, or the one on the artifact's digest.
  abbrev pub judged : List String → ℕ → Option String → Result
  judged votes quorum origin =
      if cfg.identity_mode == identity_content_id
      then verify_content_id_quorum h body votes quorum origin
      else verify_cas_quorum art votes quorum origin

  -- The result with Go's error: by whether the reference has nothing to check and whether a fetcher is
  -- there.
  abbrev pub polled : List Arrival → Bool → Bool → Result × Option String
  polled arrivals true wired = (result_of skip checksum consensus_skipped, none)
  polled arrivals false false =
      (result_of fail consensus no_fetcher, some "MirrorDigestFetcher is nil")
  polled arrivals false true =
      (judged (votes_of arrivals) (effective_quorum cfg.quorum) (origin_of arrivals), none)

-- `body` is the quarantine file, if it can be read.
unfoldable pub verify_consensus :
    Hashes
    → ConsensusConfig
    → ArtifactRef
    → Artifact
    → Option (List ℕ)
    → List Arrival
    → Result × Option String
unfolding verify_cas_quorum verify_content_id_quorum votes_of effective_quorum origin_of
verify_consensus h cfg ref art body arrivals =
    polled h cfg art body arrivals (ref.mutable || art.digest == "") cfg.fetcher
