-- ===== src/Cache/Evict/Sweep.antt =====
-- What holds before a sweep and outlives every eviction holds after it.
use specula.Prelude.{
  ℕ, zero, suc, String, ◌≡◌, inl, inr, Bool, true, false, Option, none, some, List, [], ◌∷◌, In,
  arith, refl, eqb, subst, leb, length,
}
use specula.Artifact.{ArtifactRef}
use specula.Meta.{Row, same_ref, delete}
use specula.Cache.{Cache, Object, Faults, Cause}
use specula.Cache.Evict.{
  Round, release, evicted, evict_one, evict_page, evict_round, evict_loop, page_of, resume,
  enforced, enforce_capacity, first_round, total_cached_bytes,
}

pub In-delete :
    (k : ArtifactRef) (r : Row) (rows : List Row)
    → In r (delete k rows)
    → In r rows × (same_ref r.ref k ≡ false)
unfolding delete
In-delete k r [] m = absurd m
In-delete k r (x ∷ xs) m = ground (arith, In-delete k r xs)

pub delete-In :
    (k : ArtifactRef) (r : Row) (rows : List Row)
    → In r rows
    → same_ref r.ref k ≡ false
    → In r (delete k rows)
unfolding delete
delete-In k r [] m e = absurd m
delete-In k r (x ∷ xs) m e = ground (arith, delete-In k r xs)

module _ (w : Faults) (protect : ArtifactRef) (P : List Row → List Object → Type 0) where
  -- An eviction of `e` keeps `P`.
  abbrev pub Step : Row → Type 0
  Step e =
      (rows : List Row) (blobs : List Object)
      → P rows blobs
      → P (delete e.ref rows) (release w e (delete e.ref rows) blobs)

  evict_one-keeps :
      (rest : Round → Round) (e : Row) (enough guarded : Bool) (failed : Option String) (s : Round)
      → ((t : Round) → P t.rows t.blobs → P (rest t).rows (rest t).blobs)
      → (guarded ≡ false → Step e)
      → P s.rows s.blobs
      → P
          (evict_one rest e enough guarded failed s w).rows
          (evict_one rest e enough guarded failed s w).blobs
  unfolding evicted
  evict_one-keeps rest e true guarded failed s others step h = h
  evict_one-keeps rest e false true failed s others step h = others s h
  evict_one-keeps rest e false false (some x) s others step h = h
  evict_one-keeps rest e false false none s others step h =
      others (evicted w e s) (step refl s.rows s.blobs h)

  pub evict_page-keeps :
      (page : List Row) (s : Round)
      → ((e : Row) → In e page → same_ref e.ref protect ≡ false → Step e)
      → P s.rows s.blobs
      → P (evict_page w protect page s).rows (evict_page w protect page s).blobs
  unfolding evict_page
  evict_page-keeps [] s step h = h
  evict_page-keeps (e ∷ es) s step h =
      evict_one-keeps (evict_page w protect es) e (eqb s.need 0) (same_ref e.ref protect)
        (w.delete e.ref) s (λ t k. evict_page-keeps es t (λ x m. step x (inr m)) k)
        (step e (inl refl)) h

  -- A whole page of the rows keeps `P`.
  abbrev pub PageStep : Type 0
  PageStep =
      (s : Round)
      → P s.rows s.blobs
      → P (evict_page w protect (page_of w protect s.rows) s).rows
          (evict_page w protect (page_of w protect s.rows) s).blobs

  abbrev Holds : Round → Type 0
  Holds s = P s.rows s.blobs

  resume-keeps :
      (rest : Round → Round) (error : Option Cause) (moved : Bool) (s : Round)
      → ((t : Round) → Holds t → Holds (rest t))
      → Holds s
      → Holds (resume w protect rest error moved s)
  resume-keeps rest (some x) moved s others h = h
  resume-keeps rest none false s others h = h
  resume-keeps rest none true s others h = others s h

  evict_round-keeps :
      (rest : Round → Round) (enough : Bool) (failed : Option String) (page : List Row) (s : Round)
      → ((t : Round) → Holds t → Holds (rest t))
      → ((t : Round) → t.rows ≡ s.rows → Holds t → Holds (evict_page w protect page t))
      → Holds s
      → Holds (evict_round w protect rest enough failed page s)
  evict_round-keeps rest true failed page s others step h = h
  evict_round-keeps rest false (some x) page s others step h = h
  evict_round-keeps rest false none [] s others step h = h
  evict_round-keeps rest false none (e ∷ es) s others step h =
      let t = evict_page w protect (e ∷ es) (record s { progress = false }) in
      let k : Holds t = step (record s { progress = false }) refl h in
      resume-keeps rest t.error t.progress t others k

  pub evict_loop-keeps :
      PageStep → (fuel : ℕ) (s : Round) → Holds s → Holds (evict_loop w protect fuel s)
  unfolding evict_loop
  evict_loop-keeps step zero s h = h
  evict_loop-keeps step (suc fuel) s h =
      evict_round-keeps (evict_loop w protect fuel) (eqb s.need 0) w.list (page_of w protect s.rows)
        s (λ t k. evict_loop-keeps step fuel t k)
        (λ t same k.
          subst (λ rows. Holds (evict_page w protect (page_of w protect rows) t)) same (step t k))
        h

  enforced-keeps :
      (c : Cache) (unlimited : Bool) (failed : Option String) (fits : Bool) (s : Round)
      → P c.rows c.blobs
      → Holds s
      → P
          (enforced w protect c unlimited failed fits s).0.rows
          (enforced w protect c unlimited failed fits s).0.blobs
  enforced-keeps c true failed fits s h k = h
  enforced-keeps c false (some x) fits s h k = h
  enforced-keeps c false none true s h k = h
  enforced-keeps c false none false s h k = k

  pub enforce_capacity-keeps :
      (c : Cache)
      → PageStep
      → P c.rows c.blobs
      → P (enforce_capacity w protect c).0.rows (enforce_capacity w protect c).0.blobs
  unfolding enforce_capacity first_round
  enforce_capacity-keeps c step h =
      enforced-keeps c (eqb c.max_bytes 0) w.size (leb (total_cached_bytes w protect c) c.max_bytes)
        (evict_loop w protect (suc (length c.rows)) (first_round w protect c)) h
        (evict_loop-keeps step (suc (length c.rows)) (first_round w protect c) h)
