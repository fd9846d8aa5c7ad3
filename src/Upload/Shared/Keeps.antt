-- ===== src/Upload/Shared/Keeps.antt =====
-- What the sessions of shared_session.go leave in the blob store: an object that was there before a
-- session, and the blob that a finished session was promoted to.
use specula.Prelude.{
  ℕ, String, Bool, true, ◌≡◌, ◌≢◌, refl, sym, ◌∙◌, ap, subst, ◌⊎◌, inl, inr, Option, none, some,
  List, [], ◌∷◌, ◌++◌, In, arith, eq_iff, length, String-cases, Bool-cases, if◌then◌else◌, ◌==◌,
  ◌||◌,
}
use specula.Prelude.Int.{ℤ}
use specula.Artifact.{MutableEntry}
use specula.Meta.{get_mutable}
use specula.Cache.{Object, find_object, remove, exists, Put, done, refused, put_blob}
use specula.Cache.Blobs.{put_blob-exists}
use specula.Upload.{Chunk, State, session_not_found, wrapped, Reply, got, lost, Disk, Env, Faults}
use specula.Upload.Shared.{
  state_key, load, loaded, row_state, decoded, session_row, save, created, new_state, add_chunk,
  chunk_key, new_chunk, recorded, staged, spooled, drop_chunks, erased, discarded, expired,
  provenance,
}
use specula.Upload.Shared.Rows.{
  Codes, got_injective, some_injective, get_mutable-put, get_mutable-deleted,
}
use specula.Upload.Shared.Content.{state_after}

-- The session did not stage the object.
abbrev pub Spares : String → List Chunk → Type 0
Spares k cs = (c : Chunk) → In c cs → c.key ≡ k → c.pre_existed ≡ true

remove-exists :
    (k j : String) (os : List Object) → j ≢ k → exists k os ≡ true → exists k (remove j os) ≡ true
unfolding exists find_object remove
remove-exists k j [] h e = e
remove-exists k j (o ∷ os) h e = elim (String-cases o.name j) [
  | inl (same, t) ↦ ground (arith, remove-exists k j os h, eq_iff o.name k)
  | inr (other, t) ↦ ground (arith, remove-exists k j os h)
]

drop_chunks-step :
    (w : Faults) (kept k : String) (c : Chunk) (os : List Object)
    → (c.key ≡ k → c.pre_existed ≡ true) ⊎ (k ≡ kept)
    → exists k os ≡ true
    → exists k (if c.key == kept || c.pre_existed || w.drop c.key then os else remove c.key os)
      ≡ true
drop_chunks-step w kept k c os spare there = elim (String-cases c.key k) [
  | inr (other, t) ↦ elim (Bool-cases (c.key == kept || c.pre_existed || w.drop c.key)) [
    | inl stays ↦ ground arith
    | inr goes ↦ ground (arith, remove-exists k c.key os other there)
  ]
  | inl (same, t) ↦ elim spare [
    | inl mine ↦ ground (arith, mine same)
    | inr promoted ↦ ground (arith, eq_iff c.key kept)
  ]
]

-- Cleaning up keeps what the session did not stage, and what it was promoted to.
pub drop_chunks-exists :
    (w : Faults) (kept k : String) (cs : List Chunk) (os : List Object)
    → Spares k cs ⊎ (k ≡ kept)
    → exists k os ≡ true
    → exists k (drop_chunks w kept cs os) ≡ true
unfolding drop_chunks
drop_chunks-exists w kept k [] os spare there = there
drop_chunks-exists w kept k (c ∷ cs) os spare there =
    drop_chunks-exists w kept k cs _
      (elim spare [ inl mine ↦ inl (λ x m. mine x (inr m)) | inr promoted ↦ inr promoted ])
      (drop_chunks-step w kept k c os
        (elim spare [ inl mine ↦ inl (mine c (inl refl)) | inr promoted ↦ inr promoted ]) there)

Spares-snoc :
    (k : String) (cs : List Chunk) (c : Chunk)
    → Spares k cs
    → (c.key ≡ k → c.pre_existed ≡ true)
    → Spares k (cs ++ (c ∷ []))
Spares-snoc k [] c h last x (inl here) =
    subst (λ x. x.key ≡ k → x.pre_existed ≡ true) (sym here) last
Spares-snoc k [] c h last x (inr there) = elim there [ ]
Spares-snoc k (y ∷ cs) c h last x (inl here) = h x (inl here)
Spares-snoc k (y ∷ cs) c h last x (inr there) = Spares-snoc k cs c (λ z m. h z (inr m)) last x there

-- The object is stored, and the session's row does not claim it.
abbrev pub Safe : Env → String → String → Disk → Type 0
Safe env k id d =
    (exists k d.blobs ≡ true)
    × ((e : MutableEntry) (st : State)
        → get_mutable (state_key id) d.mutables ≡ some e
        → env.decode e.payload ≡ some st
        → Spares k st.chunks)

module _ (env : Env) (k : String) where
  save-Safe :
      (now : ℤ) (id : String) (st : State) (d : Disk)
      → Codes env st
      → Spares k st.chunks
      → exists k d.blobs ≡ true
      → Safe env k id (save env now id st d)
  unfolding save session_row
  save-Safe now id st d code spare there = (
    there,
    λ e s h q.
        let same : e ≡ _ =
          some_injective (sym h ∙ get_mutable-put (session_row env now id st) d.mutables) in
        let back : some s ≡ some st = sym q ∙ ap (λ e. env.decode e.payload) same ∙ code in
        subst (λ s. Spares k s.chunks) (sym (some_injective back)) spare,
  )

  decoded-some :
      (now : ℤ) (o : Option State) (st : State) → decoded env now o ≡ got st → o ≡ some st
  decoded-some now none st h = cc
  decoded-some now (some s) st h = elim (Bool-cases (expired env.idle now s.updated_at)) [
    | inl old ↦ absurd (got_lost (sym h ∙ ground arith))
    | inr young ↦ ap some (got_injective (sym (ground arith) ∙ h))
  ]
    where
      got_lost : got st ≡ lost session_not_found → ⊥
      got_lost q = cc

  pub load-Spares :
      (w : Faults) (now : ℤ) (id : String) (st : State) (d : Disk)
      → Safe env k id d
      → load env w now id d ≡ got st
      → Spares k st.chunks
  unfolding load
  load-Spares w now id st d (there, rows) h = by_fault w.read h
    where
      by_row :
          (o : Option MutableEntry)
          → get_mutable (state_key id) d.mutables ≡ o
          → row_state env now o ≡ got st
          → Spares k st.chunks
      by_row none q h = cc
      by_row (some e) q h = rows e st q (decoded-some now (env.decode e.payload) st h)

      by_fault : (f : Option String) → loaded env now id f d.mutables ≡ got st → Spares k st.chunks
      by_fault (some e) h = cc
      by_fault none h = by_row (get_mutable (state_key id) d.mutables) refl h

  module _ (w : Faults) (now : ℤ) (id : String) where
    recorded-Safe :
        (c : Chunk) (st : State) (f : Option String) (d : Disk)
        → Codes env st
        → Spares k st.chunks
        → Safe env k id d
        → Safe env k id (recorded env now id c st f d).1
    recorded-Safe c st (some e) d code spare s = s
    recorded-Safe c st none d code spare s = save-Safe now id st d code spare s.0

    provenance-true : (f : Option String) (b : Bool) → b ≡ true → provenance f b ≡ true
    provenance-true (some e) b h = refl
    provenance-true none b h = h

    staged-Safe :
        (st : State) (b : ℕ) (bs : List ℕ) (f : Option String) (p : Put) (d : Disk)
        → put_blob env.hash (chunk_key env (b ∷ bs)) (b ∷ bs) (length (b ∷ bs)) d.blobs ≡ p
        → Codes env (state_after env w now st (b ∷ bs) d.blobs)
        → Spares k st.chunks
        → Safe env k id d
        → Safe env k id (staged env w now id (new_chunk env w (b ∷ bs) d.blobs) st f p d).1
    unfolding add_chunk
    staged-Safe st b bs (some e) p d q code spare s = s
    staged-Safe st b bs none (refused cause) d q code spare s = s
    staged-Safe st b bs none (done blobs) d q code spare (there, rows) =
        let key = chunk_key env (b ∷ bs) in
        recorded-Safe (new_chunk env w (b ∷ bs) d.blobs) (state_after env w now st (b ∷ bs) d.blobs)
          w.save (record d { blobs = blobs }) code
          (Spares-snoc k st.chunks (new_chunk env w (b ∷ bs) d.blobs) spare (λ same.
            provenance-true w.probe (exists key d.blobs)
              (subst (λ j. exists j d.blobs ≡ true) (sym same) there)))
          (
            (put_blob-exists env.hash key k (b ∷ bs) (length (b ∷ bs)) d.blobs blobs q).1 there,
            rows,
          )

    pub spooled-Safe :
        (st : State) (f : Option String) (bytes : List ℕ) (d : Disk)
        → Codes env (state_after env w now st bytes d.blobs)
        → Spares k st.chunks
        → Safe env k id d
        → Safe env k id (spooled env w now id st f bytes d).1
    spooled-Safe st (some e) bytes d code spare s = s
    spooled-Safe st none [] d code spare s = s
    spooled-Safe st none (b ∷ bs) d code spare s = staged-Safe st b bs w.put _ d refl code spare s

    erased-Safe : (f : Option String) (d : Disk) → Safe env k id d → Safe env k id (erased id f d).1
    erased-Safe (some e) d s = s
    erased-Safe none d (there, rows) = (
      there,
      λ e st h q. absurd (none_some (sym (get_mutable-deleted (state_key id) d.mutables) ∙ h)),
    )
      where
        none_some : {e : MutableEntry} → none ≡ some e → ⊥
        none_some q = cc

    pub discarded-Safe :
        (kept : String) (r : Reply State) (d : Disk)
        → ((st : State) → r ≡ got st → Spares k st.chunks)
        → Safe env k id d
        → Safe env k id (discarded w id kept r d).1
    discarded-Safe kept (lost session_not_found) d spare s = s
    discarded-Safe kept (lost (wrapped what cause)) d spare s = s
    discarded-Safe kept (got st) d spare (there, rows) =
        erased-Safe w.delete (record d { blobs = drop_chunks w kept st.chunks d.blobs })
          (drop_chunks-exists w kept k st.chunks d.blobs (inl (spare st refl)) there, rows)

    pub created-Safe :
        (repo : String) (f : Option String) (d : Disk)
        → Codes env (new_state repo now)
        → Safe env k id d
        → Safe env k id (created env now id repo f d).1
    created-Safe repo (some e) d code s = s
    created-Safe repo none d code s = save-Safe now id _ d code (λ c m. elim m [ ]) s.0
