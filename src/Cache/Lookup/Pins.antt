-- ===== src/Cache/Lookup/Pins.antt =====
-- What a caller of `Lookup` and `Serve` can rely on: the digest that was asked for is the digest of
-- what is returned.
use specula.Prelude.{
  ℕ, String, ◌≡◌, ◌≢◌, ◌⊎◌, inl, inr, Bool, true, false, Option, none, some, List, [], ◌∷◌, refl,
  arith, eq_iff, Option-cases, String-cases, not, subst, In, sym, ◌∙◌,
}
use specula.Prelude.Int.{ℤ, pos, minus_one}
use specula.Artifact.{ArtifactRef, CacheEntry, MutableEntry}
use specula.Meta.{get, get_mutable}
use specula.Cache.{Object, Cache, Faults, Error, Outcome, ok, err, exists, find_object}
use specula.Cache.Fresh.{Floats, is_mutable_fresh_at}
use specula.Cache.Lookup.{
  check_digest_pin, guarded, lookup_immutable, found_mutable, entry_of, lookup_mutable, lookup,
  serve_entry, serve, mutable_key,
}

-- The pin of the reference agrees with the entry, and the blob of the entry is there.
abbrev pub Servable : ArtifactRef → Cache → CacheEntry → Type 0
Servable ref c e =
    ((ref.digest ≡ "") ⊎ (ref.digest ≡ e.digest))
    × ((e.digest ≡ "") ⊎ (exists e.digest c.blobs ≡ true))

check_digest_pin-none :
    (ref : ArtifactRef) (got : String)
    → check_digest_pin ref got ≡ none
    → (ref.digest ≡ "") ⊎ (ref.digest ≡ got)
unfolding check_digest_pin
check_digest_pin-none ref got h = ground (arith, eq_iff ref.digest "", eq_iff ref.digest got)

guarded-ok :
    (what : String) (fault : Option String) (there : Bool) (pin : Option Error)
    (entry e : CacheEntry)
    → guarded what fault there pin entry ≡ ok (some e)
    → (entry ≡ e) × (there ≡ true) × (pin ≡ none)
guarded-ok what (some x) there pin entry e h = cc
guarded-ok what none false pin entry e h = cc
guarded-ok what none true none entry e h = (cc, refl, refl)
guarded-ok what none true (some x) entry e h = cc

guarded-Servable :
    (what : String) (fault : Option String) (ref : ArtifactRef) (c : Cache) (entry e : CacheEntry)
    → guarded what fault (exists entry.digest c.blobs) (check_digest_pin ref entry.digest) entry
      ≡ ok (some e)
    → Servable ref c e
guarded-Servable what fault ref c entry e h =
    let (same, there, pin) =
      guarded-ok what fault (exists entry.digest c.blobs) (check_digest_pin ref entry.digest) entry
        e h in
    subst (Servable ref c) same (check_digest_pin-none ref entry.digest pin, inr there)

lookup_immutable-Servable :
    (w : Faults) (ref : ArtifactRef) (c : Cache) (e : CacheEntry)
    → lookup_immutable w ref c ≡ ok (some e)
    → Servable ref c e
unfolding lookup_immutable
lookup_immutable-Servable w ref c e h = elim (Option-cases (get ref c.rows)) [
  | inl absent ↦ ground arith
  | inr (entry, found) ↦ guarded-Servable "blob exists" w.blob_exists ref c entry e (ground arith)
]

found_mutable-Servable :
    (w : Faults) (ref : ArtifactRef) (c : Cache) (me : MutableEntry) (soft : Bool) (e : CacheEntry)
    → found_mutable w ref c me soft ≡ ok (some e)
    → Servable ref c e
unfolding found_mutable
found_mutable-Servable w ref c me soft e h = elim (String-cases me.digest "") [
  | inl (empty, test) ↦
      let (same, there, pin) =
        guarded-ok "mutable blob exists" none true (check_digest_pin ref me.digest)
          (entry_of ref me soft) e (ground arith) in
      subst (Servable ref c) same (check_digest_pin-none ref me.digest pin, inl empty)
  | inr (full, test) ↦
      guarded-Servable "mutable blob exists" w.blob_exists ref c (entry_of ref me soft) e
        (ground arith)
]

lookup_mutable-Servable :
    (f : Floats) (w : Faults) (now : ℤ) (u : f.Float) (ref : ArtifactRef) (stale : Bool) (c : Cache)
    (e : CacheEntry)
    → lookup_mutable f w now u ref stale c ≡ ok (some e)
    → Servable ref c e
unfolding lookup_mutable
lookup_mutable-Servable f w now u ref stale c e h =
    elim (Option-cases (get_mutable (mutable_key ref) c.mutables)) [
      | inl absent ↦ ground arith
      | inr (me, found) ↦ ground (
        arith,
        found_mutable-Servable w ref c me false e,
        found_mutable-Servable w ref c me (not (is_mutable_fresh_at f me now u)) e,
      )
    ]

-- An entry that `Lookup` returns never contradicts the digest that the caller pins, and its blob is in
-- the store unless the entry names none.
pub lookup-Servable :
    (f : Floats) (w : Faults) (now : ℤ) (u : f.Float) (ref : ArtifactRef) (c : Cache)
    (e : CacheEntry)
    → lookup f w now u ref c ≡ ok (some e)
    → Servable ref c e
unfolding lookup
lookup-Servable f w now u ref c e h =
    ground
      (arith, lookup_mutable-Servable f w now u ref false c e, lookup_immutable-Servable w ref c e)

-- Every blob has the digest that it is stored under.
abbrev pub IsSound : (String → List ℕ → String) → List Object → Type 0
IsSound hash os = (o : Object) → In o os → hash o.name o.bytes ≡ o.name

find_object-IsSound :
    (hash : String → List ℕ → String) (d : String) (bytes : List ℕ) (os : List Object)
    → IsSound hash os
    → find_object d os ≡ some bytes
    → hash d bytes ≡ d
unfolding find_object
find_object-IsSound hash d bytes [] s h = cc
find_object-IsSound hash d bytes (o ∷ os) s h = elim (String-cases o.name d) [
  | inl (same, test) ↦ cc (s o (inl refl))
  | inr (other, test) ↦ find_object-IsSound hash d bytes os (λ x m. s x (inr m)) (ground arith)
]

serve_entry-whole :
    (w : Faults) (e : CacheEntry) (c : Cache) (bytes : List ℕ)
    → e.digest ≢ ""
    → serve_entry w (some e) (pos 0) minus_one c ≡ ok bytes
    → find_object e.digest c.blobs ≡ some bytes
unfolding serve_entry
serve_entry-whole w e c bytes full h = ground (arith, eq_iff e.digest "")

Outcome-cases : {A : Type 0} (o : Outcome A) → ((a : A) × (o ≡ ok a)) ⊎ ((e : Error) × (o ≡ err e))
Outcome-cases (ok a) = inl (a, refl)
Outcome-cases (err e) = inr (e, refl)

serve-found :
    (f : Floats) (w : Faults) (now : ℤ) (u : f.Float) (ref : ArtifactRef) (offset n : ℤ) (c : Cache)
    (bytes : List ℕ) (e : CacheEntry)
    → serve f w now u ref offset n c ≡ ok (bytes, some e)
    → (lookup f w now u ref c ≡ ok (some e)) × (serve_entry w (some e) offset n c ≡ ok bytes)
unfolding serve
serve-found f w now u ref offset n c bytes e h = elim (Outcome-cases (lookup f w now u ref c)) [
  | inr (x, failed) ↦ ground arith
  | inl (entry, found) ↦ elim (Outcome-cases (serve_entry w entry offset n c)) [
    | inr (x, failed) ↦ ground arith
    | inl (out, served) ↦ ground arith
  ]
]

-- While every blob has its digest, a whole artifact that is served under a pin has the pinned digest.
pub served_pin :
    (hash : String → List ℕ → String) (f : Floats) (w : Faults) (now : ℤ) (u : f.Float)
    (ref : ArtifactRef) (c : Cache) (bytes : List ℕ) (e : CacheEntry)
    → IsSound hash c.blobs
    → ref.digest ≢ ""
    → serve f w now u ref (pos 0) minus_one c ≡ ok (bytes, some e)
    → hash ref.digest bytes ≡ ref.digest
served_pin hash f w now u ref c bytes e sound pinned h =
    let (found, served) = serve-found f w now u ref (pos 0) minus_one c bytes e h in
    let (honoured, _) = lookup-Servable f w now u ref c e found in
    elim honoured [
      | inl empty ↦ absurd (pinned empty)
      | inr same ↦
          subst (λ d. hash d bytes ≡ d) (sym same)
            (find_object-IsSound hash e.digest bytes c.blobs sound
              (serve_entry-whole w e c bytes (λ empty. pinned (same ∙ empty)) served))
    ]
