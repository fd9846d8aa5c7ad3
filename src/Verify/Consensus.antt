-- ===== src/Verify/Consensus.antt =====
-- internal/verify/consensus.go in its CAS mode: the mirrors vote on the digest of the artifact, and the
-- official source, if it is reached, has a veto. The answers of the fetches arrive in any order. The
-- names of the mirrors stand in messages only and are left out. ContentId is the content-id mode and Poll is
-- Verify, which chooses between the two.
pub mod ContentId
pub mod Poll
pub mod Quorum
pub mod Body
pub mod Exact
use Prim.Native.Char.{code}
use specula.Prelude.{
  ℕ, zero, suc, String, Bool, true, false, not, ◌||◌, ◌&&◌, Option, none, some, List, [], ◌∷◌, ◌==◌,
  keep, length, ltb, eqb, any, if◌then◌else◌,
}
use specula.Prelude.Text.{codes, codes_eq, starts_with}
use specula.Meta.Listing.{drop}
use specula.Prelude.Int.{ℤ, pos, ltb_ℤ, pos_part}
use specula.Artifact.{
  Tier, Status, pass, fail, skip, checksum, consensus, ArtifactRef, Artifact, Result,
  consensus_skipped, no_fetcher, origin_disagrees, none_reached, quorum_not_met, mirrors_agreed,
}
use specula.Verify.{Answer, result_of}

-- One arrival on the result channel: `none` where the fetch failed.
pub record Arrival : Type 0 where
  pub digest : Option String
  pub is_origin : Bool

-- The configured quorum, raised to 1.
unfoldable pub effective_quorum : ℤ → ℕ
effective_quorum q = if ltb_ℤ q (pos 1) then 1 else pos_part q

-- What the loop over the channel collects: the digests of the mirrors that answered, and the last
-- answer of the origin.
unfoldable pub votes_of : List Arrival → List String
votes_of [] = []
votes_of (a ∷ rest) =
    let later = votes_of rest in
    if a.is_origin then later else elim a.digest [ none ↦ later | some d ↦ d ∷ later ]

unfoldable pub origin_of : List Arrival → Option String
origin_of [] = none
origin_of (a ∷ rest) =
    let later = origin_of rest in
    elim later [ some d ↦ some d | none ↦ if a.is_origin then a.digest else none ]

abbrev pub prefixed : String → Bool
prefixed d = starts_with (codes d) (codes "sha256:")

-- strings.TrimPrefix(d, "sha256:"), as code points.
abbrev pub trimmed : String → List ℕ
trimmed d = if prefixed d then drop 7 (codes d) else codes d

-- A digest in the form of npm's integrity texts.
abbrev pub dashed : String → Bool
dashed d = any (λ c. eqb c b'-') (codes d) && not (prefixed d)

unfoldable pub digests_equal : String → String → Bool
digests_equal a b =
    if a == "" || b == ""
    then false
    else if dashed a || dashed b
    then false
    else codes_eq (trimmed a) (trimmed b)

unfoldable pub agreeing : Artifact → List String → ℕ
unfolding digests_equal
agreeing art votes = length (keep (λ d. digests_equal d art.digest) votes)

abbrev pub origin_objects : Artifact → Option String → Bool
origin_objects art none = false
origin_objects art (some d) = not (digests_equal d art.digest)

abbrev pub claimed : Option String → String
claimed none = ""
claimed (some d) = d

abbrev pub unreached : Result
unreached = record {
  status = fail;
  tier = consensus;
  message = none_reached ∷ [];
  retryable = true;
}

-- By whether the origin objects, too few mirrors agree and no mirror answered.
abbrev pub counted : Artifact → Option String → ℕ → Bool → Bool → Bool → Result
counted art origin agree true few silent =
    result_of fail consensus (origin_disagrees (claimed origin) art.digest)
counted art origin agree false true true = unreached
counted art origin agree false true false = result_of fail consensus (quorum_not_met agree)
counted art origin agree false false silent =
    result_of pass consensus (mirrors_agreed agree art.digest)

unfoldable pub verify_cas_quorum : Artifact → List String → ℕ → Option String → Result
unfolding agreeing
verify_cas_quorum art votes quorum origin =
    counted art origin (agreeing art votes) (origin_objects art origin)
      (ltb (agreeing art votes) quorum) (eqb (length votes) 0)
