-- ===== src/Cache/Evict/Reaches.antt =====
-- Capacity enforcement ends within its ceiling unless nothing is left to evict.
use specula.Prelude.{
  ℕ, zero, suc, ◌≤◌, ◌<◌, String, ◌≡◌, ◌≢◌, ◌⊎◌, inl, inr, Bool, true, false, Option, none, some,
  List, [], ◌∷◌, In, arith, refl, eqb, leb, subst, sym, keep, keep-In, length, take,
}
use specula.Artifact.{ArtifactRef, origin_cached}
use specula.Meta.{Row, same_ref, find_row, size_of_origin}
use specula.Meta.Rows.{IsUnique, same_ref_comm, same_ref_trans}
use specula.Meta.Listing.{matches, sorted, list_entries, clamp_limit, clamp_offset}
use specula.Meta.Listing.Window.{
  In-sorted, sorted-IsUnique, keep-IsUnique, In-list_entries, list_entries-IsUnique,
}
use specula.Cache.{Cache, Faults, Cause}
use specula.Cache.Evict.{
  Round, candidates, oldest_first, evict_page, page_of, resume, evict_round, evict_loop, enforced,
  enforce_capacity, first_round, total_cached_bytes,
}
use specula.Cache.Evict.Sweep.{evict_page-keeps, In-delete}
use specula.Cache.Evict.Keeps.{matches-candidates}
use specula.Cache.Evict.OnePage.{Good, Listed, Comes, evict_page-Comes, evict_page-still}

-- Every candidate among the rows is the protected entry.
abbrev pub NothingLeft : ArtifactRef → List Row → Type 0
NothingLeft protect rows =
    (r : Row) → In r rows → matches "" candidates r ≡ true → same_ref r.ref protect ≡ true

-- Of rows without a repeated key, two cannot both be the protected entry.
alone :
    (protect : ArtifactRef) (xs : List Row)
    → IsUnique xs
    → ((x : Row) → In x (take 64 xs) → same_ref x.ref protect ≡ true)
    → (r : Row) → In r xs
    → same_ref r.ref protect ≡ true
unfolding find_row
alone protect [] u h r m = absurd m
alone protect (x ∷ []) u h r m = h r m
alone protect (x ∷ y ∷ ys) u h r m = absurd (clash (h x (inl refl)) (h y (inr (inl refl))))
  where
    clash : same_ref x.ref protect ≡ true → same_ref y.ref protect ≡ true → ⊥
    clash a b = ground (arith, same_ref_comm x.ref protect, same_ref_trans y.ref protect x.ref)

first_round-Good :
    (w : Faults) (protect : ArtifactRef) (c : Cache)
    → IsUnique c.rows
    → Good c.max_bytes (first_round w protect c)
unfolding first_round total_cached_bytes
first_round-Good w protect c u = (u, omega arith, refl)

rows_below :
    (w : Faults) (protect : ArtifactRef) (c : Cache)
    → length (first_round w protect c).rows < suc (length c.rows)
unfolding first_round
rows_below w protect c = omega arith

page-rows :
    (w : Faults) (protect : ArtifactRef) (r : Row) (page : List Row) (s : Round)
    → In r (evict_page w protect page s).rows
    → In r s.rows
page-rows w protect r page s m =
    evict_page-keeps w protect (λ rows blobs. In r rows → In r s.rows) page s
      (λ e n free rows blobs k q. k (In-delete e.ref r rows q).0) (λ q. q) m

page-Listed :
    (w : Faults) (protect : ArtifactRef) (rows : List Row)
    → IsUnique rows
    → Listed (page_of w protect rows) rows
unfolding page_of
page-Listed w protect rows u = (
  list_entries-IsUnique "" candidates oldest_first rows u,
  λ e m.
      let (there, candidate) = In-list_entries "" candidates oldest_first e rows m in
      (there, (matches-candidates e candidate).1),
)

page-NothingLeft :
    (w : Faults) (protect : ArtifactRef) (rows : List Row)
    → IsUnique rows
    → ((x : Row) → In x (page_of w protect rows) → same_ref x.ref protect ≡ true)
    → NothingLeft protect rows
unfolding page_of list_entries clamp_limit clamp_offset
page-NothingLeft w protect rows u h r m candidate =
    alone protect (sorted oldest_first (keep (matches "" candidates) rows))
      (sorted-IsUnique oldest_first (keep (matches "" candidates) rows)
        (keep-IsUnique (matches "" candidates) rows u))
      h r
      ((In-sorted oldest_first r (keep (matches "" candidates) rows)).1
        (keep-In (matches "" candidates) r rows m candidate))

-- What the loop is for.
abbrev pub Done : ArtifactRef → ℕ → Round → Type 0
Done protect ceiling s =
    (s.error ≡ none)
    × ((size_of_origin origin_cached s.rows ≤ ceiling) ⊎ NothingLeft protect s.rows)

module _ (w : Faults) (protect : ArtifactRef) (deletes : (ref : ArtifactRef) → w.delete ref ≡ none)
    (ceiling : ℕ) where
  resume-Done :
      (rest : Round → Round) (error : Option Cause) (moved : Bool) (s : Round)
      → error ≡ none
      → (moved ≡ true → Done protect ceiling (rest s))
      → (moved ≡ false → Done protect ceiling s)
      → Done protect ceiling (resume w protect rest error moved s)
  resume-Done rest (some x) moved s e go stop = cc
  resume-Done rest none false s e go stop = stop refl
  resume-Done rest none true s e go stop = go refl

  evict_round-Done :
      (rest : Round → Round) (enough : Bool) (failed : Option String) (page : List Row) (s : Round)
      → failed ≡ none
      → enough ≡ eqb s.need 0
      → page ≡ page_of w protect s.rows
      → Good ceiling s
      → ((t : Round)
          → length t.rows < length s.rows
          → Good ceiling t
          → Done protect ceiling (rest t))
      → Done protect ceiling (evict_round w protect rest enough failed page s)
  evict_round-Done rest true failed page s f n p good others =
      (good.2, inl (ground (arith, good.1)))
  evict_round-Done rest false (some x) page s f n p good others = cc
  evict_round-Done rest false none [] s f n p good others = (
    good.2,
    inr (
        page-NothingLeft w protect s.rows good.0 (
          subst (λ page. (x : Row) → In x page → same_ref x.ref protect ≡ true) p
            (λ x m. absurd m))),
  )
  evict_round-Done rest false none (e ∷ es) s f n p good others =
      let before = record s { progress = false } in
      let t = evict_page w protect (e ∷ es) before in
      let listed : Listed (e ∷ es) s.rows =
        subst (λ page. Listed page s.rows) (sym p) (page-Listed w protect s.rows good.0) in
      let came : Comes w protect deletes ceiling before t =
        evict_page-Comes w protect deletes ceiling (e ∷ es) before listed good in
      resume-Done rest t.error t.progress t came.0.2
        (λ moved. others t (fewer t came.2 moved) came.0)
        (λ still. (
          came.0.2,
          inr (λ r m candidate.
              page-NothingLeft w protect s.rows good.0
                (subst (λ page. (x : Row) → In x page → same_ref x.ref protect ≡ true) p
                  (evict_page-still w protect deletes (e ∷ es) before (sym n) still))
                r (page-rows w protect r (e ∷ es) before m) candidate),
        ))
    where
      fewer :
          (t : Round)
          → (t.progress ≡ true → (false ≡ true) ⊎ (length t.rows < length s.rows))
          → t.progress ≡ true
          → length t.rows < length s.rows
      fewer t h moved = elim (h moved) [ inl never ↦ cc | inr less ↦ less ]

  loop-Done :
      w.list ≡ none
      → (fuel : ℕ) (s : Round) → length s.rows < fuel
      → Good ceiling s
      → Done protect ceiling (evict_loop w protect fuel s)
  unfolding evict_loop
  loop-Done lists zero s enough good = absurd (omega (arith, enough))
  loop-Done lists (suc fuel) s enough good =
      evict_round-Done (evict_loop w protect fuel) (eqb s.need 0) w.list (page_of w protect s.rows)
        s lists refl refl good (λ t less g. loop-Done lists fuel t (omega (arith, less, enough)) g)

  enforced-Done :
      (c : Cache) (unlimited : Bool) (failed : Option String) (fits : Bool) (s : Round)
      → unlimited ≡ false
      → failed ≡ none
      → (fits ≡ true → size_of_origin origin_cached c.rows ≤ ceiling)
      → (fits ≡ false → Done protect ceiling s)
      → ((enforced w protect c unlimited failed fits s).1 ≡ none)
        × ((size_of_origin origin_cached (enforced w protect c unlimited failed fits s).0.rows
              ≤ ceiling)
            ⊎ NothingLeft protect (enforced w protect c unlimited failed fits s).0.rows)
  enforced-Done c true failed fits s l f small large = cc
  enforced-Done c false (some x) fits s l f small large = cc
  enforced-Done c false none true s l f small large = (refl, inl (small refl))
  enforced-Done c false none false s l f small large = large refl

-- When no call fails and there is a ceiling, capacity enforcement ends without an error, and what is
-- cached either fits the ceiling or holds no unpinned cached entry but the one just stored.
pub enforce_capacity-fits :
    (w : Faults) (protect : ArtifactRef) (c : Cache)
    → ((ref : ArtifactRef) → w.delete ref ≡ none)
    → w.list ≡ none
    → w.size ≡ none
    → c.max_bytes ≢ 0
    → IsUnique c.rows
    → ((enforce_capacity w protect c).1 ≡ none)
      × ((size_of_origin origin_cached (enforce_capacity w protect c).0.rows ≤ c.max_bytes)
          ⊎ NothingLeft protect (enforce_capacity w protect c).0.rows)
unfolding enforce_capacity total_cached_bytes
enforce_capacity-fits w protect c deletes lists sizes bounded u =
    enforced-Done w protect deletes c.max_bytes c (eqb c.max_bytes 0) w.size
      (leb (total_cached_bytes w protect c) c.max_bytes)
      (evict_loop w protect (suc (length c.rows)) (first_round w protect c)) (ground arith) sizes
      (λ fits. ground arith)
      (λ over.
        loop-Done w protect deletes c.max_bytes lists (suc (length c.rows))
          (first_round w protect c) (rows_below w protect c) (first_round-Good w protect c u))
