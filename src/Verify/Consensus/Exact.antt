-- ===== src/Verify/Consensus/Exact.antt =====
-- When Verify of internal/verify/consensus.go passes, in both of its modes.
use specula.Prelude.{
  ℕ, ◌≤◌, String, ◌≡◌, ◌≢◌, ◌↔◌, ◌⊎◌, Bool, true, false, not, ◌||◌, ◌==◌, Option, List, [], ◌∷◌,
  refl, sym, ap, ◌∙◌, inl, inr, arith, eq_iff, leb, keep, all, all-In, In, In-keep, String-cases,
  if◌then◌else◌,
}
use specula.Prelude.Int.{ℤ}
use specula.Artifact.{pass, ArtifactRef, Artifact, Result}
use specula.Verify.Consensus.{Arrival, votes_of, origin_of, effective_quorum, verify_cas_quorum}
use specula.Verify.Consensus.ContentId.{
  Hashes, count, distinct, candidates, bound, elected, verify_body_content_id,
  verify_content_id_quorum, Attested, verify_content_id_quorum-Attested,
}
use specula.Verify.Consensus.Poll.{
  identity_content_id, ConsensusConfig, judged, polled, verify_consensus,
}
use specula.Verify.Consensus.Body.{HasId, verify_body-HasId, ConfirmsId, objects-ConfirmsId}
use specula.Verify.Consensus.Quorum.{Backs, verify_cas_quorum-Backs}

distinct-In : (id : String) (votes : List String) → In id (distinct votes) → In id votes
distinct-In id [] m = m
distinct-In id (v ∷ vs) (inl here) = inl here
distinct-In id (v ∷ vs) (inr there) =
    inr (distinct-In id vs (In-keep (λ x. not (x == v)) id (distinct vs) there).0)

count-In : (id : String) (votes : List String) → 1 ≤ count id votes → In id votes
count-In id [] h = absurd (omega arith)
count-In id (v ∷ vs) h = elim (String-cases v id) [
  | inl (same, t) ↦ inl (sym same)
  | inr (other, t) ↦ inr (count-In id vs (ground arith))
]

keep-none :
    (f : String → Bool) (xs : List String) → ((x : String) → In x xs → f x ≡ false) → keep f xs ≡ []
keep-none f [] h = refl
keep-none f (x ∷ xs) h =
    let rest = keep-none f xs (λ y m. h y (inr m)) in let head = h x (inl refl) in ground arith

keep-skip :
    (f : String → Bool) (v : String) (xs : List String)
    → f v ≡ false
    → keep f (keep (λ x. not (x == v)) xs) ≡ keep f xs
keep-skip f v [] h = refl
keep-skip f v (x ∷ xs) h = elim (String-cases x v) [
  | inl (same, t) ↦
      let rest = keep-skip f v xs h in let gone : f x ≡ false = ap f same ∙ h in ground arith
  | inr (other, t) ↦ let rest = keep-skip f v xs h in ground arith
]

-- The only vote that passes a test is alone among the distinct votes that do.
keep-distinct :
    (f : String → Bool) (w : String) (votes : List String)
    → In w votes
    → f w ≡ true
    → all (λ id. not (f id) || id == w) votes ≡ true
    → keep f (distinct votes) ≡ w ∷ []
keep-distinct f w [] m h sole = absurd m
keep-distinct f w (v ∷ vs) m h sole = elim (String-cases v w) [
  | inl (same, t) ↦
      let rest = keep-none f (keep (λ x. not (x == v)) (distinct vs)) (λ x mx.
        let (there, apart) = In-keep (λ y. not (y == v)) x (distinct vs) mx in
        let only =
          all-In (λ id. not (f id) || id == w) x vs (ground arith) (distinct-In x vs there) in
        let differs : (x == w) ≡ false = ap (λ y. x == y) (sym same) ∙ ground arith in
        ground arith) in
      let kept : f v ≡ true = ap f same ∙ h in
      ap
        (λ b.
          if b
          then v ∷ keep f (keep (λ x. not (x == v)) (distinct vs))
          else keep f (keep (λ x. not (x == v)) (distinct vs)))
        kept
      ∙ ap (λ ys. v ∷ ys) rest
      ∙ ap (λ y. y ∷ []) same
  | inr (other, t) ↦
      let gone : f v ≡ false = ground arith in
      let there : In w vs = elim m [ inl same ↦ absurd (other (sym same)) | inr later ↦ later ] in
      ap
        (λ b.
          if b
          then v ∷ keep f (keep (λ x. not (x == v)) (distinct vs))
          else keep f (keep (λ x. not (x == v)) (distinct vs)))
        gone
      ∙ keep-skip f v (distinct vs) gone
      ∙ keep-distinct f w vs there h (ground arith)
]

Attested-passes :
    (h : Hashes) (body : Option (List ℕ)) (votes : List String) (quorum : ℕ)
    (origin : Option String)
    → 1 ≤ quorum
    → Attested h body votes quorum origin
    → (verify_content_id_quorum h body votes quorum origin).status ≡ pass
unfolding verify_content_id_quorum candidates
Attested-passes h body votes quorum origin some_needed (w, enough, sole, confirmed, bound_to) =
    let alone =
      keep-distinct (λ id. leb quorum (count id votes)) w votes (count-In w votes (omega arith))
        (ground arith) sole in
    ap (λ cs. (elected h body votes quorum origin cs).status) alone
    ∙ ap (λ b. (bound (count w votes) w origin b (verify_body_content_id h body w)).status)
        confirmed
    ∙ ap (λ b. (bound (count w votes) w origin false b).status) bound_to

effective_quorum-positive : (quorum : ℤ) → 1 ≤ effective_quorum quorum
unfolding effective_quorum
effective_quorum-positive quorum = ground arith

-- One id has a quorum of votes and no other id voted for has, the official source gives it too if it
-- answered, and the body has it.
abbrev pub Elected : Hashes → Option (List ℕ) → List String → ℕ → Option String → Type 0
Elected h body votes quorum origin =
    (w : String) × (quorum ≤ count w votes)
    × (all (λ id. not (leb quorum (count id votes)) || id == w) votes ≡ true)
    × ConfirmsId origin w
    × HasId h body w

module _ (h : Hashes) (body : Option (List ℕ)) (votes : List String) (quorum : ℕ)
    (origin : Option String) where
  Attested-Elected : Attested h body votes quorum origin → Elected h body votes quorum origin
  Attested-Elected (w, enough, sole, confirmed, bound_to) = (
    w,
    enough,
    sole,
    (objects-ConfirmsId origin w).0 confirmed,
    (verify_body-HasId h body w).0 bound_to,
  )

  Elected-Attested : Elected h body votes quorum origin → Attested h body votes quorum origin
  Elected-Attested (w, enough, sole, confirmed, bound_to) = (
    w,
    enough,
    sole,
    (objects-ConfirmsId origin w).1 confirmed,
    (verify_body-HasId h body w).1 bound_to,
  )

-- What the mode of the configuration asks of the votes: in the content-id mode, one id for the content and
-- no word on the digest of the artifact, and in every other mode, that digest.
abbrev pub Agreed :
    Hashes → ConsensusConfig → Artifact → Option (List ℕ) → List String → Option String → Type 0
Agreed h cfg art body votes origin =
    ((cfg.identity_mode ≡ identity_content_id)
      × Elected h body votes (effective_quorum cfg.quorum) origin)
    ⊎ ((cfg.identity_mode ≢ identity_content_id) × Backs cfg.quorum art votes origin)

module _ (h : Hashes) (cfg : ConsensusConfig) (art : Artifact) (body : Option (List ℕ))
    (votes : List String) (origin : Option String) where
  judged-Agreed :
      ((judged h cfg art body votes (effective_quorum cfg.quorum) origin).status ≡ pass)
      ↔ Agreed h cfg art body votes origin
  judged-Agreed = elim (String-cases cfg.identity_mode identity_content_id) [
    | inl (same, t) ↦ (
      (λ e. inl (
        same,
        Attested-Elected h body votes _ origin (
            verify_content_id_quorum-Attested h body votes _ origin
              (ap (λ b. (mode b).status) (sym t) ∙ e)),
      )),
      λ e. ap (λ b. (mode b).status) t ∙ elim e [
        | inl (_, held) ↦
            Attested-passes h body votes _ origin (effective_quorum-positive cfg.quorum)
              (Elected-Attested h body votes _ origin held)
        | inr (other, _) ↦ absurd (other same)
      ],
    )
    | inr (other, t) ↦
        let (to, from) = verify_cas_quorum-Backs cfg.quorum art votes origin in
        (
          (λ e. inr (other, to (ap (λ b. (mode b).status) (sym t) ∙ e))),
          λ e.
              ap (λ b. (mode b).status) t
              ∙ elim e [ inl (same, _) ↦ absurd (other same) | inr (_, held) ↦ from held ],
        )
  ]
    where
      mode : Bool → Result
      mode b =
          if b
          then verify_content_id_quorum h body votes (effective_quorum cfg.quorum) origin
          else verify_cas_quorum art votes (effective_quorum cfg.quorum) origin

-- The consensus verifier passes exactly when the reference is immutable, the artifact has a digest,
-- a fetcher is there, and the votes agree. In the content-id mode, whatever the artifact's digest:
-- one id has the configured number of votes, and at least one, and no other id voted for has, the
-- official source gives the same id if it answered, and the body has the hash that the id spells, as
-- an integrity text or in hexadecimal. In every other mode: the configured number of mirrors, and at
-- least one, name the sha256 of the artifact's digest, and so does the official source if it
-- answered.
pub verify_consensus-exact :
    (h : Hashes) (cfg : ConsensusConfig) (ref : ArtifactRef) (art : Artifact)
    (body : Option (List ℕ)) (arrivals : List Arrival)
    → ((verify_consensus h cfg ref art body arrivals).0.status ≡ pass) ↔ (
        (ref.mutable ≡ false)
        × (art.digest ≢ "")
        × (cfg.fetcher ≡ true)
        × Agreed h cfg art body (votes_of arrivals) (origin_of arrivals))
unfolding verify_consensus
verify_consensus-exact h cfg ref art body arrivals =
    let (to, from) = judged-Agreed h cfg art body (votes_of arrivals) (origin_of arrivals) in
    gated ref.mutable (art.digest == "") cfg.fetcher refl to from
  where
    gated :
        (mutable empty wired : Bool)
        → (art.digest == "") ≡ empty
        → ((judged h cfg art body
                (votes_of arrivals)
                (effective_quorum cfg.quorum)
                (origin_of arrivals)).status
              ≡ pass
            → Agreed h cfg art body (votes_of arrivals) (origin_of arrivals))
        → (Agreed h cfg art body (votes_of arrivals) (origin_of arrivals)
            → (judged h cfg art body
                (votes_of arrivals)
                (effective_quorum cfg.quorum)
                (origin_of arrivals)).status
              ≡ pass)
        → ((polled h cfg art body arrivals (mutable || empty) wired).0.status ≡ pass) ↔ (
            (mutable ≡ false)
            × (art.digest ≢ "")
            × (wired ≡ true)
            × Agreed h cfg art body (votes_of arrivals) (origin_of arrivals))
    gated true e w q to from = ((λ x. cc), λ x. absurd (let no_way = x.0 in cc))
    gated false true w q to from =
        ((λ x. cc), λ (x, filled, _, _). absurd (filled ((eq_iff art.digest "").0 q)))
    gated false false false q to from = ((λ x. cc), λ (x, y, z, _). absurd cc)
    gated false false true q to from =
        ((λ x. (refl, ground (arith, eq_iff art.digest ""), refl, to x)), λ (_, _, _, x). from x)
