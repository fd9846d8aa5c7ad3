-- ===== src/Cache/Evict/Keeps.antt =====
-- What capacity enforcement leaves alone.
use specula.Prelude.{
  ◌≡◌, ◌⊎◌, inl, inr, true, false, List, In, arith, Bool-cases, eq_iff, subst, sym, ◌∙◌,
}
use specula.Artifact.{ArtifactRef, normalize_origin, origin_hosted, origin_cached}
use specula.Meta.{Row, same_ref}
use specula.Meta.Rows.{IsUnique, delete-IsUnique, same_ref-In}
use specula.Meta.Listing.{matches}
use specula.Meta.Listing.Window.{In-list_entries}
use specula.Cache.{Object, Cache, Faults}
use specula.Cache.Evict.{candidates, oldest_first, page_of, enforce_capacity}
use specula.Cache.Evict.Sweep.{evict_page-keeps, enforce_capacity-keeps, PageStep, delete-In}

-- A row that is not for eviction: the entry just stored, a pinned one or a hosted one.
abbrev pub Kept : ArtifactRef → Row → Type 0
Kept protect r =
    (same_ref r.ref protect ≡ true)
    ⊎ (r.pinned ≡ true)
    ⊎ (normalize_origin r.origin ≡ origin_hosted)

pub matches-candidates :
    (r : Row)
    → matches "" candidates r ≡ true
    → (r.pinned ≡ false) × (normalize_origin r.origin ≡ origin_cached)
unfolding matches normalize_origin
matches-candidates r h =
    ground (arith, eq_iff r.origin origin_hosted, eq_iff r.origin origin_cached)

true-false : true ≡ false → ⊥
true-false h = cc

hosted_cached : origin_hosted ≡ origin_cached → ⊥
hosted_cached h = true-false (sym ((eq_iff origin_hosted origin_cached).1 h))

not_evicted :
    (protect : ArtifactRef) (r e : Row) (rows : List Row)
    → IsUnique rows
    → In r rows
    → Kept protect r
    → In e rows
    → matches "" candidates e ≡ true
    → same_ref e.ref protect ≡ false
    → same_ref r.ref e.ref ≡ false
not_evicted protect r e rows u m kept n candidate free = elim (Bool-cases (same_ref r.ref e.ref)) [
  | inr other ↦ other
  | inl same ↦
      let one : r ≡ e = same_ref-In r e rows u m n same in
      let (loose, cached) = matches-candidates e candidate in
      elim (subst (Kept protect) one kept) [
        | inl guarded ↦ absurd (true-false (sym guarded ∙ free))
        | inr (inl pinned) ↦ absurd (true-false (sym pinned ∙ loose))
        | inr (inr hosted) ↦ absurd (hosted_cached (sym hosted ∙ cached))
      ]
]

-- A table where `r` stands once, with one entry for each key.
abbrev Stands : Row → List Row → List Object → Type 0
Stands r rows blobs = IsUnique rows × In r rows

module _ (w : Faults) (protect : ArtifactRef) (r : Row) where
  page_keeps : Kept protect r → PageStep w protect (Stands r)
  unfolding page_of
  page_keeps kept s (u, m) =
      evict_page-keeps w protect (Stands r) (page_of w protect s.rows) s
        (λ e n free rows blobs (v, k).
          let (there, candidate) = In-list_entries "" candidates oldest_first e s.rows n in
          (
            delete-IsUnique e.ref rows v,
            delete-In e.ref r rows k (not_evicted protect r e s.rows u m kept there candidate free),
          ))
        (u, m)

  -- Whatever fails on the way, capacity enforcement leaves every pinned entry, every hosted entry and
  -- the entry just stored in a table with unique keys, and the keys stay unique.
  pub enforce_capacity-Kept :
      (c : Cache)
      → IsUnique c.rows
      → In r c.rows
      → Kept protect r
      → IsUnique (enforce_capacity w protect c).0.rows × In r (enforce_capacity w protect c).0.rows
  enforce_capacity-Kept c u m kept =
      enforce_capacity-keeps w protect (Stands r) c (page_keeps kept) (u, m)
