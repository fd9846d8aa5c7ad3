-- ===== src/Examples/Verifying.antt =====
-- The theorems on verification at concrete inputs.
use specula.Prelude.{
  ◌≤◌, String, ◌≡◌, ◌≢◌, ◌↔◌, true, false, none, some, List, [], ◌∷◌, ◌++◌, any, all, refl, subst,
  sym, if◌then◌else◌,
}
use specula.Prelude.Int.{pos}
use specula.Artifact.{pass, warn, fail, consensus, none_reached, ArtifactRef, Artifact}
use specula.Meta.{Store, get_mutable}
use specula.Verify.{Verifier}
use specula.Verify.Checksum
use specula.Verify.Checksum.{verify_checksum, verify_checksum-exact}
use specula.Verify.Tofu
use specula.Verify.Tofu.{TofuStore, IsLawful, verify_tofu, meta_tofu_store}
use specula.Verify.Tofu.Adapter.{meta_tofu_store-IsLawful}
use specula.Verify.Tofu.Pins.{verify_all, accepted_once}
use specula.Verify.Chain.{verify}
use specula.Verify.Chain.Verdict.{answers, rejects, warns, skips, verify-accepts}
use specula.Verify.Consensus.{Arrival, votes_of, origin_of}
use specula.Verify.Consensus.ContentId.{Hashes}
use specula.Verify.Consensus.Poll.{ConsensusConfig, verify_consensus}
use specula.Verify.Consensus.Exact.{Agreed, verify_consensus-exact}
use specula.Verify.Chain.Retry.{FailsPlainly, retryable_dropped}
use specula.Verify.Chain.Ordering.{state_after, StopsAt, verify-StopsAt}
use specula.Examples.{six, wheel, tofu_chain, small_cache}

abbrev both : List (Verifier Store)
both = Checksum.verifier ∷ tofu_chain

abbrev other : ArtifactRef
other = record six { digest = "d9" }

verify-accepts_example :
    (((verify six wheel both small_cache.meta).result.status ≢ fail)
      ↔ (any rejects (answers six wheel both small_cache.meta) ≡ false))
    × ((verify six wheel both small_cache.meta).result.status ≢ fail
        → (verify six wheel both small_cache.meta).result.status
          ≡ (if any warns (answers six wheel both small_cache.meta) then warn else pass))
verify-accepts_example = verify-accepts six wheel both small_cache.meta

both_warn : (verify six wheel both small_cache.meta).result.status ≡ warn
unfolding verify Checksum.verifier Tofu.verifier meta_tofu_store get_mutable
both_warn = refl

warn_fail : warn ≢ fail
warn_fail h = cc

stops : rejects (Checksum.verifier.verify other wheel small_cache.meta) ≡ true
unfolding Checksum.verifier
stops = refl

verify-StopsAt_example :
    StopsAt other wheel Checksum.verifier small_cache.meta
      (verify other wheel ([] ++ Checksum.verifier ∷ tofu_chain) small_cache.meta)
verify-StopsAt_example =
    verify-StopsAt other wheel [] Checksum.verifier tofu_chain small_cache.meta refl stops

no_reference : all skips (answers six wheel (Checksum.verifier ∷ []) small_cache.meta) ≡ true
unfolding Checksum.verifier
no_reference = refl

abbrev pins : TofuStore Store
pins = meta_tofu_store none (pos 0)

meta_tofu_store-IsLawful_example : IsLawful pins
meta_tofu_store-IsLawful_example = meta_tofu_store-IsLawful none (pos 0)

named : ◌≢◌ {A = String} "d1" ""
named h = cc

first_use : (verify_tofu pins six wheel small_cache.meta).result.status ≡ warn
unfolding verify_tofu meta_tofu_store get_mutable
first_use = refl

abbrev wheel_again : Artifact
wheel_again = record wheel { digest = "d9" }

accepted_once_example :
    ((verify_tofu pins six wheel_again (
        verify_all pins
          ((six, wheel) ∷ [])
          (verify_tofu pins six wheel small_cache.meta).state)).result.status
      ≢ fail)
    ↔ (wheel_again.digest ≡ wheel.digest)
accepted_once_example =
    accepted_once pins (meta_tofu_store-IsLawful none (pos 0)) six six wheel wheel_again
      ((six, wheel) ∷ []) small_cache.meta refl refl refl named
      (subst (λ x. x ≢ fail) (sym first_use) warn_fail)

-- A check that could not reach anyone.
abbrev unreachable : Verifier Store
unreachable = record {
  name = "consensus";
  tier = consensus;
  verify = λ ref art s. record {
    result = record {
      status = fail;
      tier = consensus;
      message = none_reached ∷ [];
      retryable = true;
    };
    error = none;
    state = s;
  };
}

no_opinion : any rejects (answers six wheel (Checksum.verifier ∷ []) small_cache.meta) ≡ false
unfolding Checksum.verifier
no_opinion = refl

retryable_dropped_example :
    FailsPlainly
      (unreachable.verify six wheel
        (state_after six wheel (Checksum.verifier ∷ []) small_cache.meta))
      (verify six wheel ((Checksum.verifier ∷ []) ++ unreachable ∷ tofu_chain) small_cache.meta)
retryable_dropped_example =
    retryable_dropped six wheel (Checksum.verifier ∷ []) unreachable tofu_chain small_cache.meta
      no_opinion refl refl refl

-- Two mirrors vote for the digest, one spells it with its algorithm, and the origin is silent.
abbrev arrivals : List Arrival
arrivals =
    record { digest = some "d1"; is_origin = false }
    ∷ record { digest = none; is_origin = true }
    ∷ record { digest = some "sha256:d1"; is_origin = false }
    ∷ []

abbrev toy_hashes : Hashes
toy_hashes = record { sum = λ algo body. body; hex = λ sum. "d1"; decode = λ s. some (1 ∷ 2 ∷ []) }

abbrev two_of_cas : ConsensusConfig
two_of_cas = record { fetcher = true; quorum = pos 2; identity_mode = "cas" }

abbrev two_of_ids : ConsensusConfig
two_of_ids = record { fetcher = true; quorum = pos 2; identity_mode = "content_id" }

verify_consensus-exact_example :
    ((verify_consensus toy_hashes two_of_cas six wheel none arrivals).0.status ≡ pass) ↔ (
      (six.mutable ≡ false)
      × (wheel.digest ≢ "")
      × (true ≡ true)
      × Agreed toy_hashes two_of_cas wheel none (votes_of arrivals) (origin_of arrivals))
verify_consensus-exact_example =
    verify_consensus-exact toy_hashes two_of_cas six wheel none arrivals

two_agree : (verify_consensus toy_hashes two_of_cas six wheel none arrivals).0.status ≡ pass
unfolding verify_consensus
two_agree = refl

-- Two mirrors vote for an integrity text, which the body has and which is not the artifact's digest.
abbrev integrities : List Arrival
integrities =
    record { digest = some "sha512-AQI="; is_origin = false }
    ∷ record { digest = some "sha512-AQI="; is_origin = false }
    ∷ []

ids_agree :
    (verify_consensus toy_hashes two_of_ids six wheel (some (1 ∷ 2 ∷ [])) integrities).0.status
    ≡ pass
unfolding verify_consensus specula.Verify.Consensus.ContentId.verify_body_content_id
    specula.Prelude.Text.trim_space specula.Prelude.Strings.cut_first
ids_agree = refl
