-- ===== src/Cache/Blobs.antt =====
-- What a put into the blob store leaves.
use specula.Prelude.{
  ℕ, String, true, ◌≡◌, ◌⊎◌, inl, inr, List, ◌∷◌, arith, eq_iff, length, Option-cases, subst, sym,
  ap, ◌∙◌, String-cases, none, some, refl, [], false,
}
use specula.Cache.{Object, find_object, remove, exists, done, put_blob}

-- The object was there, or it is new and has its digest and its size.
abbrev pub Puts :
    (String → List ℕ → String) → String → List ℕ → ℕ → List Object → List Object → Type 0
Puts hash d bytes size os blobs =
    ((exists d os ≡ true) × (os ≡ blobs))
    ⊎ ((record { name = d; bytes = bytes } ∷ os ≡ blobs)
        × (hash d bytes ≡ d)
        × (length bytes ≡ size))

pub put_blob-Puts :
    (hash : String → List ℕ → String) (d : String) (bytes : List ℕ) (size : ℕ)
    (os blobs : List Object)
    → put_blob hash d bytes size os ≡ done blobs
    → Puts hash d bytes size os blobs
unfolding put_blob exists
put_blob-Puts hash d bytes size os blobs h = elim (Option-cases (find_object d os)) [
  | inr (b, found) ↦ inl (ground arith)
  | inl absent ↦ ground (arith, eq_iff (hash d bytes) d)
]

-- What was there is there, and so is the digest that was put.
pub put_blob-exists :
    (hash : String → List ℕ → String) (d k : String) (bytes : List ℕ) (size : ℕ)
    (os blobs : List Object)
    → put_blob hash d bytes size os ≡ done blobs
    → (exists d blobs ≡ true) × (exists k os ≡ true → exists k blobs ≡ true)
unfolding exists find_object
put_blob-exists hash d k bytes size os blobs h = elim (put_blob-Puts hash d bytes size os blobs h) [
  | inl (there, same) ↦
      subst (λ x. (exists d x ≡ true) × (exists k os ≡ true → exists k x ≡ true)) same
        (there, λ q. q)
  | inr (new, good, fits) ↦
      subst (λ x. (exists d x ≡ true) × (exists k os ≡ true → exists k x ≡ true)) new
        (ground (arith, eq_iff d d), λ q. ground arith)
]

pub exists-remove : (k : String) (os : List Object) → exists k (remove k os) ≡ false
unfolding exists find_object remove
exists-remove k [] = refl
exists-remove k (o ∷ os) = ground (arith, exists-remove k os)

-- Every object has the digest that it is stored under.
abbrev pub IsAddressed : (String → List ℕ → String) → List Object → Type 0
IsAddressed hash os = (k : String) (b : List ℕ) → find_object k os ≡ some b → hash k b ≡ k

-- What was stored is stored, and under the digest are the bytes, if no others have it.
abbrev pub Extends : String → List ℕ → List Object → List Object → Type 0
Extends d bytes os blobs =
    (find_object d blobs ≡ some bytes)
    × ((k : String) (b : List ℕ) → find_object k os ≡ some b → find_object k blobs ≡ some b)

find_object-cons :
    (d k : String) (bytes b : List ℕ) (os : List Object)
    → find_object d os ≡ none
    → find_object k os ≡ some b
    → find_object k (record { name = d; bytes = bytes } ∷ os) ≡ some b
unfolding find_object
find_object-cons d k bytes b os absent h = elim (String-cases d k) [
  | inl (same, t) ↦ absurd (none_some (sym absent ∙ ap (λ x. find_object x os) same ∙ h))
  | inr (other, t) ↦ ground arith
]
  where
    none_some : none ≡ some b → ⊥
    none_some q = cc

module _ (hash : String → List ℕ → String) (d : String) (bytes : List ℕ) (size : ℕ)
    (os blobs : List Object) (stored : put_blob hash d bytes size os ≡ done blobs) where
  pub put_blob-Extends :
      IsAddressed hash os → ((b : List ℕ) → hash d b ≡ d → b ≡ bytes) → Extends d bytes os blobs
  unfolding put_blob find_object
  put_blob-Extends addressed only = elim (Option-cases (find_object d os)) [
    | inr (b, found) ↦
        let same : os ≡ blobs = ground arith in
        subst (Extends d bytes os) same (found ∙ ap some (only b (addressed d b found)), λ k c h. h)
    | inl absent ↦
        let new : record { name = d; bytes = bytes } ∷ os ≡ blobs = ground arith in
        subst (Extends d bytes os) new
          (ground (arith, eq_iff d d), λ k b h. find_object-cons d k bytes b os absent h)
  ]

  pub put_blob-IsAddressed : IsAddressed hash os → IsAddressed hash blobs
  unfolding find_object
  put_blob-IsAddressed addressed = elim (put_blob-Puts hash d bytes size os blobs stored) [
    | inl (there, same) ↦ subst (IsAddressed hash) same addressed
    | inr (new, good, fits) ↦ subst (IsAddressed hash) new (λ k b h. elim (String-cases d k) [
      | inl (same, t) ↦ named k b good same (ground arith)
      | inr (other, t) ↦ addressed k b (ground arith)
    ])
  ]
    where
      named : (k : String) (b : List ℕ) → hash d bytes ≡ d → d ≡ k → bytes ≡ b → hash k b ≡ k
      named k b good s t = cc
