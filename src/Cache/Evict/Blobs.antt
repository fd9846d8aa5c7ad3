-- ===== src/Cache/Evict/Blobs.antt =====
-- Blobs are shared by content: evicting one entry never takes the bytes of another.
use specula.Prelude.{
  String, ◌≡◌, ◌≢◌, inl, inr, true, false, List, [], ◌∷◌, In, arith, refl, String-cases, eqb,
  eq_iff, keep, keep-In, length,
}
use specula.Artifact.{ArtifactRef}
use specula.Meta.{Row, delete}
use specula.Meta.Listing.{matches, list_entries}
use specula.Cache.{Object, Cache, Faults, exists, remove, find_object}
use specula.Cache.Evict.{shares, release, blob_is_unreferenced, page_of, enforce_capacity}
use specula.Cache.Evict.Sweep.{evict_page-keeps, enforce_capacity-keeps, PageStep, In-delete}

exists-remove : (d k : String) (os : List Object) → d ≢ k → exists d (remove k os) ≡ exists d os
unfolding exists find_object remove
exists-remove d k [] h = refl
exists-remove d k (o ∷ os) h =
    ground (arith, exists-remove d k os h, eq_iff o.name d, eq_iff o.name k)

matches-shares : (d : String) (r : Row) → r.digest ≡ d → matches "" (shares d) r ≡ true
unfolding matches
matches-shares d r e = ground (arith, eq_iff d r.digest)

In-nonempty : {A : Type 0} (x : A) (xs : List A) → In x xs → eqb (length xs) 0 ≡ false
In-nonempty x [] m = absurd m
In-nonempty x (y ∷ ys) m = ground arith

referenced :
    (w : Faults) (d : String) (r : Row) (rows : List Row)
    → In r rows
    → r.digest ≡ d
    → blob_is_unreferenced w d rows ≡ false
unfolding blob_is_unreferenced list_entries
referenced w d r rows m e = ground (
  arith,
  In-nonempty r (keep (matches "" (shares d)) rows)
      (keep-In (matches "" (shares d)) r rows m (matches-shares d r e)),
)

release-exists :
    (w : Faults) (e r : Row) (rows : List Row) (blobs : List Object)
    → In r rows
    → exists r.digest blobs ≡ true
    → exists r.digest (release w e rows blobs) ≡ true
unfolding release
release-exists w e r rows blobs m h = elim (String-cases r.digest e.digest) [
  | inl (same, test) ↦ rw (referenced w e.digest r rows m same) (ground arith)
  | inr (other, test) ↦ ground (arith, exists-remove r.digest e.digest blobs other)
]

-- If `r` is still listed, its blob is there.
abbrev Backed : Row → List Row → List Object → Type 0
Backed r rows blobs = In r rows → exists r.digest blobs ≡ true

module _ (w : Faults) (protect : ArtifactRef) (r : Row) where
  page-Backed : PageStep w protect (Backed r)
  page-Backed s h =
      evict_page-keeps w protect (Backed r) (page_of w protect s.rows) s
        (λ e n free rows blobs k m.
          release-exists w e r (delete e.ref rows) blobs m (k (In-delete e.ref r rows m).0))
        h

  -- An entry that is left after capacity enforcement still has its blob if it had it before, whatever
  -- entries that share the digest were evicted.
  pub enforce_capacity-exists :
      (c : Cache)
      → exists r.digest c.blobs ≡ true
      → In r (enforce_capacity w protect c).0.rows
      → exists r.digest (enforce_capacity w protect c).0.blobs ≡ true
  enforce_capacity-exists c there m =
      enforce_capacity-keeps w protect (Backed r) c page-Backed (λ k. there) m

  pub enforce_capacity-In : (c : Cache) → In r (enforce_capacity w protect c).0.rows → In r c.rows
  enforce_capacity-In c m =
      enforce_capacity-keeps w protect (λ rows blobs. In r rows → In r c.rows) c
        (λ s h.
          evict_page-keeps w protect (λ rows blobs. In r rows → In r c.rows)
            (page_of w protect s.rows) s (λ e n free rows blobs k q. k (In-delete e.ref r rows q).0)
            h)
        (λ q. q) m
