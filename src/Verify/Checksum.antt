-- ===== src/Verify/Checksum.antt =====
-- internal/verify/checksum.go: the streaming digest against the reference digest.
use specula.Prelude.{◌≡◌, ◌≢◌, ◌↔◌, ◌==◌, eq_iff, none, not, arith, if◌then◌else◌}
use specula.Artifact.{
  ArtifactRef, Artifact, Result, pass, fail, skip, checksum, digest_empty, no_reference,
  digest_mismatch, digest_verified,
}
use specula.Verify.{Verifier, result_of}

unfoldable pub verify_checksum : ArtifactRef → Artifact → Result
verify_checksum ref art =
    if art.digest == ""
    then result_of fail checksum digest_empty
    else if ref.digest == ""
    then result_of skip checksum (no_reference art.digest)
    else if not (art.digest == ref.digest)
    then result_of fail checksum (digest_mismatch art.digest ref.digest)
    else result_of pass checksum (digest_verified art.digest)

unfoldable pub verifier : {S : Type 0} → Verifier S
unfolding verify_checksum
verifier = record {
  name = "checksum";
  tier = checksum;
  verify = λ ref art s. record { result = verify_checksum ref art; error = none; state = s };
}

-- The artifact passes exactly if its digest is computed and equals the reference; without a
-- reference the verifier has no opinion; in every other case the artifact fails.
pub verify_checksum-exact :
    (ref : ArtifactRef) (art : Artifact)
    → (((verify_checksum ref art).status ≡ pass) ↔ ((art.digest ≢ "") × (art.digest ≡ ref.digest)))
      × (((verify_checksum ref art).status ≡ skip) ↔ ((art.digest ≢ "") × (ref.digest ≡ "")))
      × (((verify_checksum ref art).status ≡ fail)
          ↔ ((art.digest ≢ "" → ref.digest ≢ "") × (art.digest ≢ "" → art.digest ≢ ref.digest)))
unfolding verify_checksum
verify_checksum-exact ref art =
    ground (arith, eq_iff art.digest "", eq_iff ref.digest "", eq_iff art.digest ref.digest)
