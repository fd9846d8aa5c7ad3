-- ===== src/Verify/Consensus/Body.antt =====
-- Which bytes a content id names, for verifyBodyContentID of internal/verify/content_id.go.
use specula.Prelude.{
  ℕ, String, ◌≡◌, ◌≢◌, ◌↔◌, ◌⊎◌, Bool, true, false, not, ◌&&◌, ◌==◌, Option, none, some, List, [],
  ◌∷◌, refl, subst, ap, inl, inr, arith, eq_iff, In, if◌then◌else◌,
}
use specula.Prelude.Text.{to_lower, trim_space}
use specula.Prelude.Strings.{cut_prefix, cut_first}
use specula.Verify.Consensus.ContentId.{
  Hashes, same_bytes, known, decoded, dashed, has, hexed, of_body, looks_like_sha256_hex,
  verify_hex_digest, verify_ssri, verify_body_content_id, objects, content_ids_equal,
}

-- An integrity text: the name of an algorithm, a dash and the base64 of the hash.
abbrev pub Integrity : Hashes → List ℕ → String → Type 0
Integrity h b id =
    (has b'-' id ≡ true)
    × (has b':' id ≡ false)
    × (algo : String) × (want : String) × (cut_first "-" id ≡ some (algo, want))
    × In algo ("sha256" ∷ "sha384" ∷ "sha512" ∷ [])
    × (want ≢ "")
    × (h.decode want ≡ some (h.sum algo b))

-- The hexadecimal sha256 of the bytes, in any case.
abbrev pub Hexed : Hashes → List ℕ → String → Type 0
Hexed h b want = to_lower (h.hex (h.sum "sha256" b)) ≡ to_lower want

-- The id, without the blanks around it, names the bytes as an integrity text, or as a sha256 with or
-- without its prefix.
abbrev pub Names : Hashes → List ℕ → String → Type 0
Names h b id =
    Integrity h b id
    ⊎ (((has b'-' id ≡ false) ⊎ (has b':' id ≡ true))
        × (((want : String) × (cut_prefix "sha256:" id ≡ some want) × Hexed h b want)
            ⊎ ((cut_prefix "sha256:" id ≡ none)
                × (looks_like_sha256_hex id ≡ true)
                × Hexed h b id)))

-- The quarantine file can be read and has the bytes of the id.
abbrev pub HasId : Hashes → Option (List ℕ) → String → Type 0
HasId h none id = ⊥
HasId h (some b) id = (trim_space id ≢ "") × Names h b (trim_space id)

same_bytes-≡ : (xs ys : List ℕ) → (same_bytes xs ys ≡ true) ↔ (xs ≡ ys)
same_bytes-≡ [] [] = ((λ e. refl), λ e. refl)
same_bytes-≡ [] (y ∷ ys) = ((λ e. cc), λ e. cc)
same_bytes-≡ (x ∷ xs) [] = ((λ e. cc), λ e. cc)
same_bytes-≡ (x ∷ xs) (y ∷ ys) = ground (arith, same_bytes-≡ xs ys)

known-In : (algo : String) → (known algo ≡ true) ↔ In algo ("sha256" ∷ "sha384" ∷ "sha512" ∷ [])
known-In algo = ground (arith, eq_iff algo "sha256", eq_iff algo "sha384", eq_iff algo "sha512")

known-filled :
    (algo : String) → In algo ("sha256" ∷ "sha384" ∷ "sha512" ∷ []) → (algo == "") ≡ false
known-filled algo (inl same) = ap (λ a. a == "") same
known-filled algo (inr (inl same)) = ap (λ a. a == "") same
known-filled algo (inr (inr (inl same))) = ap (λ a. a == "") same
known-filled algo (inr (inr (inr nowhere))) = absurd nowhere

module _ (h : Hashes) (b : List ℕ) where
  hex-Hexed : (want : String) → (verify_hex_digest h b want ≡ true) ↔ Hexed h b want
  unfolding verify_hex_digest
  hex-Hexed want = eq_iff (to_lower (h.hex (h.sum "sha256" b))) (to_lower want)

  decoded-sum :
      (algo : String) (o : Option (List ℕ))
      → (decoded h b algo o ≡ true) ↔ ((known algo ≡ true) × (o ≡ some (h.sum algo b)))
  decoded-sum algo none = ((λ e. cc), λ e. cc)
  decoded-sum algo (some want) =
      let (to, from) = same_bytes-≡ (h.sum algo b) want in
      (
        (λ e. let same = to (ground arith) in (ground arith, cc)),
        λ e. let same = from cc in ground arith,
      )

  dashed-parts :
      (o : Option (String × String))
      → (dashed h b o ≡ true) ↔ (
          (algo : String) × (want : String) × (o ≡ some (algo, want))
          × In algo ("sha256" ∷ "sha384" ∷ "sha512" ∷ [])
          × (want ≢ "")
          × (h.decode want ≡ some (h.sum algo b)))
  dashed-parts none = ((λ e. cc), λ e. cc)
  dashed-parts (some (algo, want)) =
      let (to, from) = decoded-sum algo (h.decode want) in
      let (in_list, listed) = known-In algo in
      (
        (λ e.
            let accepted : decoded h b algo (h.decode want) ≡ true = ground arith in
            let (known_algo, same) = to accepted in
            (algo, want, refl, in_list known_algo, ground (arith, eq_iff want ""), same)),
        λ (a, t, q, m, filled, same).
            let one : a ≡ algo = cc in
            let two : t ≡ want = cc in
            let member = subst (λ x. In x ("sha256" ∷ "sha384" ∷ "sha512" ∷ [])) one m in
            let named = known-filled algo member in
            let accepted = from (listed member, cc) in ground (arith, eq_iff want ""),
      )

module _ (h : Hashes) (b : List ℕ) (id : String) where
  hexed-sum :
      (o : Option String)
      → (hexed h b id o ≡ true) ↔ (
          ((want : String) × (o ≡ some want) × Hexed h b want)
          ⊎ ((o ≡ none) × (looks_like_sha256_hex id ≡ true) × Hexed h b id))
  hexed-sum (some want) =
      let (to, from) = hex-Hexed h b want in
      (
        (λ e. inl (want, refl, to e)),
        λ e. elim e [
          | inl (other, q, same) ↦ let one : other ≡ want = cc in from (subst (Hexed h b) one same)
          | inr (q, _, _) ↦ absurd cc
        ],
      )
  hexed-sum none =
      let (to, from) = hex-Hexed h b id in
      (
        (λ e. inr (refl, ground arith, to (ground arith))),
        λ e. elim e [
          | inl (other, q, _) ↦ absurd cc
          | inr (_, form, same) ↦ let hex = from same in ground arith
        ],
      )

  hexed-Names :
      ((has b'-' id ≡ false) ⊎ (has b':' id ≡ true))
      → (Integrity h b id → ⊥)
      → (hexed h b id (cut_prefix "sha256:" id) ≡ true) ↔ Names h b id
  hexed-Names form other =
      let (to, from) = hexed-sum (cut_prefix "sha256:" id) in
      (
        (λ e. inr (form, to e)),
        λ e. elim e [ inl text ↦ absurd (other text) | inr (_, hex) ↦ from hex ],
      )

of_body-Names :
    (h : Hashes) (b : List ℕ) (id : String) → (of_body h id (some b) ≡ true) ↔ Names h b id
unfolding verify_ssri
of_body-Names h b id = by_form (has b'-' id) (has b':' id) refl refl
  where
    by_form :
        (dash colon : Bool)
        → has b'-' id ≡ dash
        → has b':' id ≡ colon
        → ((if dash && not colon
              then verify_ssri h b id
              else hexed h b id (cut_prefix "sha256:" id))
            ≡ true)
          ↔ Names h b id
    by_form true false p q =
        let (to, from) = dashed-parts h b (cut_first "-" id) in
        (
          (λ e.
              let (algo, want, cut, listed, filled, same) = to e in
              inl (p, q, algo, want, cut, listed, filled, same)),
          λ e. elim e [
            | inl (_, _, algo, want, cut, listed, filled, same) ↦
                from (algo, want, cut, listed, filled, same)
            | inr (form, _) ↦ absurd (ground arith)
          ],
        )
    by_form true true p q = hexed-Names h b id (inr q) (λ (_, r, _, _, _, _, _, _). absurd cc)
    by_form false true p q = hexed-Names h b id (inr q) (λ (r, _, _, _, _, _, _, _). absurd cc)
    by_form false false p q = hexed-Names h b id (inl p) (λ (r, _, _, _, _, _, _, _). absurd cc)

-- verifyBodyContentID accepts exactly the bytes that the id names.
pub verify_body-HasId :
    (h : Hashes) (body : Option (List ℕ)) (id : String)
    → (verify_body_content_id h body id ≡ true) ↔ HasId h body id
unfolding verify_body_content_id
verify_body-HasId h none id = ground arith
verify_body-HasId h (some b) id =
    ground (arith, eq_iff (trim_space id) "", of_body-Names h b (trim_space id))

-- The official source, if it answered, gives the same id.
abbrev pub ConfirmsId : Option String → String → Type 0
ConfirmsId none id = Unit {0}
ConfirmsId (some d) id = (d ≡ id) × (d ≢ "")

pub objects-ConfirmsId :
    (o : Option String) (id : String) → (objects o id ≡ false) ↔ ConfirmsId o id
unfolding content_ids_equal
objects-ConfirmsId none id = ((λ e. tt), λ e. refl)
objects-ConfirmsId (some d) id = ground (arith, eq_iff d id, eq_iff d "", eq_iff id "")
