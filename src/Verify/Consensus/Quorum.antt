-- ===== src/Verify/Consensus/Quorum.antt =====
-- What a pass of the CAS mode of internal/verify/consensus.go attests: digests that are the same up to
-- the prefix of their algorithm.
use specula.Prelude.{
  ℕ, zero, suc, ◌≤◌, String, ◌≡◌, ◌≢◌, ◌↔◌, ◌⊎◌, Bool, true, false, ◌||◌, ◌==◌, Option, none, some,
  List, [], ◌∷◌, ◌++◌, refl, sym, ap, ◌∙◌, subst, inl, inr, arith, eq_iff, eqb, any, keep, length,
  Bool-cases, if◌then◌else◌,
}
use specula.Prelude.Int.{ℤ, pos_part}
use specula.Prelude.Text.{codes, codes_eq, starts_with}
use specula.Meta.Listing.{drop}
use specula.Artifact.{pass, Artifact}
use specula.Verify.Consensus.{
  effective_quorum, prefixed, trimmed, dashed, digests_equal, agreeing, origin_objects,
  verify_cas_quorum,
}

-- The text is `xs` after the prefix of sha256, or it is `xs` without the prefix and has no dash, unlike
-- npm's integrity texts.
abbrev pub Bare : String → List ℕ → Type 0
Bare d xs =
    (codes d ≡ codes "sha256:" ++ xs)
    ⊎ ((prefixed d ≡ false) × (any (λ c. eqb c b'-') (codes d) ≡ false) × (codes d ≡ xs))

-- Two texts name the same sha256.
abbrev pub Same : String → String → Type 0
Same a b = (a ≢ "") × (b ≢ "") × (xs : List ℕ) × Bare a xs × Bare b xs

-- At least so many of the elements have the property.
abbrev pub AtLeast : {A : Type 0} → ℕ → (A → Type 0) → List A → Type 0
AtLeast zero P xs = Unit {0}
AtLeast (suc n) P [] = ⊥
AtLeast (suc n) P (x ∷ xs) = (P x × AtLeast n P xs) ⊎ AtLeast (suc n) P xs

-- The official source, if it answered, names the same digest.
abbrev pub Confirms : Option String → String → Type 0
Confirms none digest = Unit {0}
Confirms (some d) digest = Same d digest

codes_eq-≡ : (xs ys : List ℕ) → (codes_eq xs ys ≡ true) ↔ (xs ≡ ys)
codes_eq-≡ [] [] = ((λ e. refl), λ e. refl)
codes_eq-≡ [] (y ∷ ys) = ((λ e. cc), λ e. cc)
codes_eq-≡ (x ∷ xs) [] = ((λ e. cc), λ e. cc)
codes_eq-≡ (x ∷ xs) (y ∷ ys) = ground (arith, codes_eq-≡ xs ys)

starts_with-drop : (p xs : List ℕ) → starts_with xs p ≡ true → xs ≡ p ++ drop (length p) xs
starts_with-drop [] xs h = refl
starts_with-drop (y ∷ p) [] h = cc
starts_with-drop (y ∷ p) (x ∷ xs) h =
    let rest = starts_with-drop p xs (ground arith) in let head : x ≡ y = ground arith in cc

starts_with-append : (p xs : List ℕ) → starts_with (p ++ xs) p ≡ true
starts_with-append [] xs = refl
starts_with-append (y ∷ p) xs = ground (arith, starts_with-append p xs)

abbrev prefix : List ℕ
prefix = codes "sha256:"

trimmed-Bare : (d : String) → dashed d ≡ false → Bare d (trimmed d)
trimmed-Bare d h = by_prefix (prefixed d) refl
  where
    by_prefix : (b : Bool) → prefixed d ≡ b → Bare d (if b then drop 7 (codes d) else codes d)
    by_prefix true q = inl (starts_with-drop prefix (codes d) q)
    by_prefix false q = inr (q, ground arith, refl)

Bare-trimmed : (d : String) (xs : List ℕ) → Bare d xs → (dashed d ≡ false) × (trimmed d ≡ xs)
Bare-trimmed d xs (inl q) =
    let there : prefixed d ≡ true =
      ap (λ c. starts_with c prefix) q ∙ starts_with-append prefix xs in
    (ground arith, ap (λ b. if b then drop 7 (codes d) else codes d) there ∙ ap (drop 7) q)
Bare-trimmed d xs (inr (p, dash, q)) =
    (ground arith, ap (λ b. if b then drop 7 (codes d) else codes d) p ∙ q)

digests_equal-Same : (a b : String) → (digests_equal a b ≡ true) ↔ Same a b
unfolding digests_equal
digests_equal-Same a b = (to, from)
  where
    parts :
        (a_empty b_empty a_dashed b_dashed : Bool)
        → (if a_empty || b_empty
            then false
            else if a_dashed || b_dashed
            then false
            else codes_eq (trimmed a) (trimmed b))
          ≡ true
        → (a_empty ≡ false)
          × (b_empty ≡ false)
          × (a_dashed ≡ false)
          × (b_dashed ≡ false)
          × (codes_eq (trimmed a) (trimmed b) ≡ true)
    parts true y z w q = cc
    parts false true z w q = cc
    parts false false true w q = cc
    parts false false false true q = cc
    parts false false false false q = (refl, refl, refl, refl, q)

    to : digests_equal a b ≡ true → Same a b
    to q =
        let (x, y, z, w, same) = parts (a == "") (b == "") (dashed a) (dashed b) q in
        (
          ground (arith, eq_iff a ""),
          ground (arith, eq_iff b ""),
          trimmed b,
          subst (Bare a) ((codes_eq-≡ (trimmed a) (trimmed b)).0 same) (trimmed-Bare a z),
          trimmed-Bare b w,
        )

    from : Same a b → digests_equal a b ≡ true
    from (x, y, xs, p, q) =
        let (plain_a, bare_a) = Bare-trimmed a xs p in
        let (plain_b, bare_b) = Bare-trimmed b xs q in
        let same = (codes_eq-≡ (trimmed a) (trimmed b)).1 (bare_a ∙ sym bare_b) in
        let filled_a : (a == "") ≡ false = ground (arith, eq_iff a "") in
        let filled_b : (b == "") ≡ false = ground (arith, eq_iff b "") in
        joined (a == "") (b == "") (dashed a) (dashed b) filled_a filled_b plain_a plain_b same
      where
        joined :
            (x y z w : Bool)
            → x ≡ false
            → y ≡ false
            → z ≡ false
            → w ≡ false
            → codes_eq (trimmed a) (trimmed b) ≡ true
            → (if x || y then false else if z || w then false else codes_eq (trimmed a) (trimmed b))
              ≡ true
        joined true y z w e f g h s = cc
        joined false true z w e f g h s = cc
        joined false false true w e f g h s = cc
        joined false false false true e f g h s = cc
        joined false false false false e f g h s = s

keep-AtLeast :
    {A : Type 0} (n : ℕ) (p : A → Bool) (P : A → Type 0) (xs : List A)
    → ((x : A) → (p x ≡ true) ↔ P x)
    → (n ≤ length (keep p xs)) ↔ AtLeast n P xs
keep-AtLeast zero p P xs h = ((λ e. tt), λ e. omega arith)
keep-AtLeast (suc n) p P [] h = ((λ e. absurd (omega arith)), λ e. absurd e)
keep-AtLeast (suc n) p P (x ∷ xs) h =
    let less = keep-AtLeast n p P xs h in
    let more = keep-AtLeast (suc n) p P xs h in
    elim (Bool-cases (p x)) [
      | inl kept ↦ (
        (λ e. inl ((h x).0 kept, less.0 (ground arith))),
        λ e. elim e [
          | inl (_, rest) ↦ let few = less.1 rest in ground arith
          | inr rest ↦ let few = more.1 rest in ground arith
        ],
      )
      | inr gone ↦ (
        (λ e. inr (more.0 (ground arith))),
        λ e. elim e [
          | inl (held, _) ↦ let clash = (h x).1 held in absurd cc
          | inr rest ↦ let few = more.1 rest in ground arith
        ],
      )
    ]

origin-Confirms :
    (art : Artifact) (o : Option String) → (origin_objects art o ≡ false) ↔ Confirms o art.digest
origin-Confirms art none = ((λ e. tt), λ e. refl)
origin-Confirms art (some d) =
    let (to, from) = digests_equal-Same d art.digest in
    ((λ e. to (ground arith)), λ e. let same = from e in ground arith)

-- The mirrors and the official source back the digest of the artifact.
abbrev pub Backs : ℤ → Artifact → List String → Option String → Type 0
Backs quorum art votes origin =
    Confirms origin art.digest
    × AtLeast 1 (λ d. Same d art.digest) votes
    × AtLeast (pos_part quorum) (λ d. Same d art.digest) votes

-- The CAS mode passes exactly when the mirrors and the official source back the digest.
pub verify_cas_quorum-Backs :
    (quorum : ℤ) (art : Artifact) (votes : List String) (origin : Option String)
    → ((verify_cas_quorum art votes (effective_quorum quorum) origin).status ≡ pass)
      ↔ Backs quorum art votes origin
unfolding verify_cas_quorum agreeing effective_quorum
verify_cas_quorum-Backs quorum art votes origin =
    let same : (d : String) → (digests_equal d art.digest ≡ true) ↔ Same d art.digest =
      λ d. digests_equal-Same d art.digest in
    ground (
      arith,
      origin-Confirms art origin,
      keep-AtLeast 1 (λ d. digests_equal d art.digest) (λ d. Same d art.digest) votes same,
      keep-AtLeast (pos_part quorum) (λ d. digests_equal d art.digest) (λ d. Same d art.digest)
          votes same,
    )
