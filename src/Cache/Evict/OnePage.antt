-- ===== src/Cache/Evict/OnePage.antt =====
-- One page of evictions: what is freed is counted, and a page that moves nothing holds only the entry
-- just stored.
use specula.Prelude.{
  ℕ, ◌+◌, ◌≤◌, ◌<◌, String, ◌≡◌, ◌⊎◌, inl, inr, Bool, true, false, Option, none, some, List, [],
  ◌∷◌, In, arith, refl, Bool-cases, eqb, eq_iff, subst, sym, length,
}
use specula.Artifact.{ArtifactRef, normalize_origin, origin_cached}
use specula.Meta.{Row, same_ref, delete, find_row, size_of_origin}
use specula.Meta.Rows.{IsUnique, delete-IsUnique, size-delete, same_ref_refl}
use specula.Cache.{Faults}
use specula.Cache.Evict.{Round, evicted, evict_one, evict_page}
use specula.Cache.Evict.Sweep.{delete-In}

-- The keys are unique, `need` covers what is above the ceiling, and nothing failed.
abbrev pub Good : ℕ → Round → Type 0
Good ceiling s =
    IsUnique s.rows × (size_of_origin origin_cached s.rows ≤ ceiling + s.need) × (s.error ≡ none)

-- The entries of the page are cached entries of the table, none twice.
abbrev pub Listed : List Row → List Row → Type 0
Listed page rows =
    IsUnique page
    × ((e : Row) → In e page → In e rows × (normalize_origin e.origin ≡ origin_cached))

absent-In :
    (k : ArtifactRef) (x : Row) (xs : List Row)
    → find_row k xs ≡ none
    → In x xs
    → same_ref x.ref k ≡ false
unfolding find_row
absent-In k x [] h m = absurd m
absent-In k x (y ∷ ys) h m = ground (arith, absent-In k x ys)

length-delete_le : (k : ArtifactRef) (rows : List Row) → length (delete k rows) ≤ length rows
unfolding delete
length-delete_le k [] = ground arith
length-delete_le k (x ∷ xs) = ground (arith, length-delete_le k xs)

length-delete :
    (k : ArtifactRef) (r : Row) (rows : List Row)
    → In r rows
    → same_ref r.ref k ≡ true
    → length (delete k rows) < length rows
unfolding delete
length-delete k r [] m e = absurd m
length-delete k r (x ∷ xs) m e = ground (arith, length-delete k r xs, length-delete_le k xs)

Listed-delete :
    (e : Row) (es rows : List Row) → Listed (e ∷ es) rows → Listed es (delete e.ref rows)
Listed-delete e es rows (u, there) = (
  u.1,
  λ x m. (
    delete-In e.ref x rows (there x (inr m)).0 (absent-In e.ref x es u.0 m),
    (there x (inr m)).1,
  ),
)

evicted-Good :
    (w : Faults) (e : Row) (ceiling : ℕ) (s : Round)
    → In e s.rows
    → normalize_origin e.origin ≡ origin_cached
    → Good ceiling s
    → Good ceiling (evicted w e s)
unfolding evicted
evicted-Good w e ceiling s m cached (u, covered, fine) = (
  delete-IsUnique e.ref s.rows u,
  ground (
    arith,
    size-delete origin_cached e s.rows u m,
    eq_iff (normalize_origin e.origin) origin_cached,
  ),
  refl,
)

Listed-evicted :
    (w : Faults) (e : Row) (es : List Row) (s : Round)
    → Listed (e ∷ es) s.rows
    → Listed es (evicted w e s).rows
unfolding evicted
Listed-evicted w e es s listed = Listed-delete e es s.rows listed

evicted-progress : (w : Faults) (e : Row) (s : Round) → (evicted w e s).progress ≡ true
unfolding evicted
evicted-progress w e s = refl

module _ (w : Faults) (protect : ArtifactRef)
    (works : (ref : ArtifactRef) → w.delete ref ≡ none) where
  evict_one-has :
      (Q : Round → Type 0) (rest : Round → Round) (e : Row) (enough guarded : Bool)
      (failed : Option String) (s : Round)
      → failed ≡ none
      → Q s
      → Q (rest s)
      → Q (rest (evicted w e s))
      → Q (evict_one rest e enough guarded failed s w)
  evict_one-has Q rest e true guarded failed s n here next gone = here
  evict_one-has Q rest e false true failed s n here next gone = next
  evict_one-has Q rest e false false (some x) s n here next gone = cc
  evict_one-has Q rest e false false none s n here next gone = gone

  -- The state `t` comes from `s`: it is good, it has no more rows, and fewer if it made progress.
  abbrev pub Comes : ℕ → Round → Round → Type 0
  Comes ceiling s t =
      Good ceiling t
      × (length t.rows ≤ length s.rows)
      × (t.progress ≡ true → (s.progress ≡ true) ⊎ (length t.rows < length s.rows))

  evicted-Comes :
      (ceiling : ℕ) (e : Row) (s t : Round)
      → In e s.rows
      → Comes ceiling (evicted w e s) t
      → Comes ceiling s t
  unfolding evicted
  evicted-Comes ceiling e s t m (good, fewer, moved) =
      let less = length-delete e.ref e s.rows m (same_ref_refl e.ref) in
      (good, omega (arith, less, fewer), λ p. inr (omega (arith, less, fewer)))

  pub evict_page-Comes :
      (ceiling : ℕ) (page : List Row) (s : Round)
      → Listed page s.rows
      → Good ceiling s
      → Comes ceiling s (evict_page w protect page s)
  unfolding evict_page
  evict_page-Comes ceiling [] s listed good = (good, omega arith, inl)
  evict_page-Comes ceiling (e ∷ es) s listed good =
      evict_one-has (Comes ceiling s) (evict_page w protect es) e (eqb s.need 0)
        (same_ref e.ref protect) (w.delete e.ref) s (works e.ref) (good, omega arith, inl)
        (evict_page-Comes ceiling es s (listed.0.1, λ x m. listed.1 x (inr m)) good)
        (evicted-Comes ceiling e s (evict_page w protect es (evicted w e s))
          (listed.1 e (inl refl)).0
          (evict_page-Comes ceiling es (evicted w e s) (Listed-evicted w e es s listed)
            (evicted-Good w e ceiling s (listed.1 e (inl refl)).0 (listed.1 e (inl refl)).1 good)))

  evict_page-progress :
      (page : List Row) (s : Round)
      → s.progress ≡ true
      → (evict_page w protect page s).progress ≡ true
  unfolding evict_page
  evict_page-progress [] s h = h
  evict_page-progress (e ∷ es) s h =
      evict_one-has (λ t. t.progress ≡ true) (evict_page w protect es) e (eqb s.need 0)
        (same_ref e.ref protect) (w.delete e.ref) s (works e.ref) h (evict_page-progress es s h)
        (evict_page-progress es (evicted w e s) (evicted-progress w e s))

  -- A page that moved nothing while bytes were needed holds only the protected entry.
  pub evict_page-still :
      (page : List Row) (s : Round)
      → eqb s.need 0 ≡ false
      → (evict_page w protect page s).progress ≡ false
      → (x : Row) → In x page
      → same_ref x.ref protect ≡ true
  unfolding evict_page
  evict_page-still [] s n h x m = absurd m
  evict_page-still (e ∷ es) s n h x m = elim (Bool-cases (same_ref e.ref protect)) [
    | inl guarded ↦ elim m [
      | inl one ↦ subst (λ (y : Row). same_ref y.ref protect ≡ true) (sym one) guarded
      | inr there ↦ evict_page-still es s n (ground arith) x there
    ]
    | inr free ↦
        let p = evict_page-progress es (evicted w e s) (evicted-progress w e s) in
        ground (arith, works e.ref)
  ]
