-- ===== src/Verify/Consensus/ContentId.antt =====
-- internal/verify/content_id.go, and the content-id mode of internal/verify/consensus.go: the mirrors vote
-- on an advertised identity of the content, and the body must have it. The hash functions and the base64
-- decoders are parameters.
use specula.Prelude.{
  ℕ, ◌≤◌, String, Bool, true, false, not, ◌||◌, ◌&&◌, ◌≡◌, ◌≢◌, refl, sym, subst, inl, inr, Option,
  none, some, List, [], ◌∷◌, ◌==◌, keep, length, any, all, In, In-keep, keep-In, In-all, eqb, leb,
  leb→le, if◌then◌else◌, arith, eq_iff, Bool-cases, String-cases,
}
use specula.Prelude.Text.{codes, to_lower, trim_space}
use specula.Prelude.Strings.{cut_prefix, cut_first}
use specula.Artifact.{
  pass, fail, consensus, Result, origin_disagrees, quorum_not_met, split_brain, body_mismatch,
  mirrors_agreed,
}
use specula.Verify.{result_of}
use specula.Verify.Consensus.{unreached, claimed}

-- `sum` hashes by the name of an algorithm, and `decode` is standard base64 or, failing that, URL-safe
-- base64 without padding.
pub record Hashes : Type 0 where
  pub sum : String → List ℕ → List ℕ
  pub hex : List ℕ → String
  pub decode : String → Option (List ℕ)

abbrev pub same_bytes : List ℕ → List ℕ → Bool
same_bytes [] [] = true
same_bytes (x ∷ xs) (y ∷ ys) = eqb x y && same_bytes xs ys
same_bytes _ _ = false

abbrev is_hex : ℕ → Bool
is_hex c = (leb b'0' c && leb c b'9') || (leb b'a' c && leb c b'f') || (leb b'A' c && leb c b'F')

unfoldable pub looks_like_sha256_hex : String → Bool
looks_like_sha256_hex s = eqb (length (codes s)) 64 && all is_hex (codes s)

unfoldable pub verify_hex_digest : Hashes → List ℕ → String → Bool
verify_hex_digest h body want = to_lower (h.hex (h.sum "sha256" body)) == to_lower want

abbrev pub known : String → Bool
known algo = algo == "sha256" || algo == "sha384" || algo == "sha512"

abbrev pub decoded : Hashes → List ℕ → String → Option (List ℕ) → Bool
decoded h body algo none = false
decoded h body algo (some want) = known algo && same_bytes (h.sum algo body) want

abbrev pub dashed : Hashes → List ℕ → Option (String × String) → Bool
dashed h body none = false
dashed h body (some (algo, want)) =
    if algo == "" || want == "" then false else decoded h body algo (h.decode want)

-- verifySSRI
unfoldable pub verify_ssri : Hashes → List ℕ → String → Bool
verify_ssri h body integrity = dashed h body (cut_first "-" integrity)

abbrev pub has : ℕ → String → Bool
has c s = any (λ x. eqb x c) (codes s)

abbrev pub hexed : Hashes → List ℕ → String → Option String → Bool
hexed h body id (some want) = verify_hex_digest h body want
hexed h body id none = if looks_like_sha256_hex id then verify_hex_digest h body id else false

abbrev pub of_body : Hashes → String → Option (List ℕ) → Bool
of_body h id none = false
of_body h id (some body) =
    if has b'-' id && not (has b':' id)
    then verify_ssri h body id
    else hexed h body id (cut_prefix "sha256:" id)

-- verifyBodyContentID, where `body` is the quarantine file, if it can be read.
unfoldable pub verify_body_content_id : Hashes → Option (List ℕ) → String → Bool
unfolding verify_ssri verify_hex_digest looks_like_sha256_hex
verify_body_content_id h body content_id =
    let id = trim_space content_id in if id == "" then false else of_body h id body

unfoldable pub content_ids_equal : String → String → Bool
content_ids_equal a b = not (a == "") && not (b == "") && a == b

-- The votes for an id, and each id once.
abbrev pub count : String → List String → ℕ
count id votes = length (keep (λ v. v == id) votes)

abbrev pub distinct : List String → List String
distinct [] = []
distinct (v ∷ vs) = v ∷ keep (λ x. not (x == v)) (distinct vs)

unfoldable pub candidates : List String → ℕ → List String
candidates votes quorum = keep (λ id. leb quorum (count id votes)) (distinct votes)

abbrev pub objects : Option String → String → Bool
objects none winning = false
objects (some d) winning = not (content_ids_equal d winning)

abbrev pub bound : ℕ → String → Option String → Bool → Bool → Result
bound n winning origin true matches =
    result_of fail consensus (origin_disagrees (claimed origin) winning)
bound n winning origin false false = result_of fail consensus (body_mismatch winning "")
bound n winning origin false true = result_of pass consensus (mirrors_agreed n winning)

abbrev pub elected :
    Hashes → Option (List ℕ) → List String → ℕ → Option String → List String → Result
elected h body votes quorum origin [] =
    if eqb (length votes) 0 then unreached else result_of fail consensus (quorum_not_met quorum)
elected h body votes quorum origin (w ∷ []) =
    bound (count w votes) w origin (objects origin w) (verify_body_content_id h body w)
elected h body votes quorum origin (w ∷ x ∷ rest) =
    result_of fail consensus (split_brain (w ∷ x ∷ rest))

-- verifyContentIDQuorum. `origin` is what the official source answered, if it was reached.
unfoldable pub verify_content_id_quorum :
    Hashes → Option (List ℕ) → List String → ℕ → Option String → Result
unfolding candidates
verify_content_id_quorum h body votes quorum origin =
    elected h body votes quorum origin (candidates votes quorum)

In-distinct : (id : String) (votes : List String) → In id votes → In id (distinct votes)
In-distinct id [] m = m
In-distinct id (v ∷ vs) (inl here) = inl here
In-distinct id (v ∷ vs) (inr there) = elim (String-cases id v) [
  | inl (same, t) ↦ inl same
  | inr (other, t) ↦
      inr (keep-In (λ x. not (x == v)) id (distinct vs) (In-distinct id vs there) (ground arith))
]

-- The content that a pass attests: one id with a quorum of votes, and no other, which the official source,
-- if it was reached, confirms, and which the body has.
abbrev pub Attested : Hashes → Option (List ℕ) → List String → ℕ → Option String → Type 0
Attested h body votes quorum origin =
    (w : String) × (quorum ≤ count w votes)
    × (all (λ id. not (leb quorum (count id votes)) || id == w) votes ≡ true)
    × (objects origin w ≡ false)
    × (verify_body_content_id h body w ≡ true)

module _ (h : Hashes) (body : Option (List ℕ)) (votes : List String) (quorum : ℕ)
    (origin : Option String) where
  only :
      (w : String)
      → candidates votes quorum ≡ w ∷ []
      → (quorum ≤ count w votes)
        × (all (λ id. not (leb quorum (count id votes)) || id == w) votes ≡ true)
  unfolding candidates
  only w q =
      let (m, enough) =
        In-keep (λ id. leb quorum (count id votes)) w (distinct votes)
          (subst (In w) (sym q) (inl refl)) in
      (leb→le quorum (count w votes) enough, In-all _ votes (λ id v. sole id v))
    where
      sole : (id : String) → In id votes → (not (leb quorum (count id votes)) || id == w) ≡ true
      sole id v = elim (Bool-cases (leb quorum (count id votes))) [
        | inr few ↦ ground arith
        | inl many ↦
            elim (subst (In id) q (
              keep-In (λ id. leb quorum (count id votes)) id (distinct votes)
                (In-distinct id votes v) many)) [
                  | inl same ↦ ground (arith, eq_iff id w)
                  | inr nowhere ↦ elim nowhere [ ]
                ]
      ]

  elected-Attested :
      (cs : List String)
      → candidates votes quorum ≡ cs
      → (elected h body votes quorum origin cs).status ≡ pass
      → Attested h body votes quorum origin
  elected-Attested [] q e = absurd (by_silence (eqb (length votes) 0) e)
    where
      by_silence :
          (b : Bool)
          → (if b then unreached else result_of fail consensus (quorum_not_met quorum)).status
            ≢ pass
      by_silence true e = cc
      by_silence false e = cc
  elected-Attested (w ∷ x ∷ rest) q e = cc
  elected-Attested (w ∷ []) q e =
      by_checks (objects origin w) (verify_body_content_id h body w) refl refl e
    where
      by_checks :
          (b c : Bool)
          → objects origin w ≡ b
          → verify_body_content_id h body w ≡ c
          → (bound (count w votes) w origin b c).status ≡ pass
          → Attested h body votes quorum origin
      by_checks true c p r e = cc
      by_checks false false p r e = cc
      by_checks false true p r e = let (enough, sole) = only w q in (w, enough, sole, p, r)

  pub verify_content_id_quorum-Attested :
      (verify_content_id_quorum h body votes quorum origin).status ≡ pass
      → Attested h body votes quorum origin
  unfolding verify_content_id_quorum
  verify_content_id_quorum-Attested e = elected-Attested (candidates votes quorum) refl e
