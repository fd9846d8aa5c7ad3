-- ===== src/Upload/Shared/Evicts.antt =====
-- Two sessions of shared_session.go that stage the same bytes: the one that staged them first owns the
-- object, also after the other was promoted to it.
use text.Mathlib.TextLemmas.{append-eq-nil_iff}
use specula.Prelude.{
  ℕ, String, true, false, ◌≡◌, ◌≢◌, refl, sym, ◌∙◌, ap, subst, none, some, List, ◌∷◌, ◌==◌, arith,
  eq_iff, length,
}
use specula.Prelude.Int.{ℤ}
use specula.Meta.{delete_mutable}
use specula.Cache.{find_object, remove, exists, done, put_blob}
use specula.Cache.Blobs.{exists-remove}
use specula.Upload.{Chunk, State, got, Disk, Env, no_faults}
use specula.Upload.Shared.{
  state_key, load, row_state, save, add_chunk, chunk_key, new_state, new_chunk, staged, appended,
  append, drop_chunks, erased, discarded, abandon, complete, expired,
}
use specula.Upload.Shared.Rows.{Codes, load-save, load-save_other, get_mutable-delete}

chunk_key-nonempty : (env : Env) (bytes : List ℕ) → (chunk_key env bytes == "") ≡ false
unfolding chunk_key
chunk_key-nonempty env bytes = ground (
  arith,
  eq_iff (chunk_key env bytes) "",
  append-eq-nil_iff {p = "sha256:"} {q = env.sha256 bytes},
  eq_iff "sha256:" "",
)

module _ (env : Env) (now : ℤ) (b : ℕ) (bs : List ℕ) where
  abbrev key : String
  key = chunk_key env (b ∷ bs)

  abbrev mine : Chunk
  mine = record { key = key; size = length (b ∷ bs); pre_existed = false }

  abbrev theirs : Chunk
  theirs = record { key = key; size = length (b ∷ bs); pre_existed = true }

  put-fresh :
      (d : Disk)
      → exists key d.blobs ≡ false
      → env.hash key (b ∷ bs) ≡ key
      → put_blob env.hash key (b ∷ bs) (length (b ∷ bs)) d.blobs
        ≡ done (record { name = key; bytes = b ∷ bs } ∷ d.blobs)
  unfolding put_blob exists
  put-fresh d absent good = ground (arith, eq_iff (env.hash key (b ∷ bs)) key)

  put-known :
      (d : Disk)
      → exists key d.blobs ≡ true
      → put_blob env.hash key (b ∷ bs) (length (b ∷ bs)) d.blobs ≡ done d.blobs
  unfolding put_blob exists
  put-known d there = ground arith

  append-fresh :
      (id : String) (st : State) (d : Disk)
      → load env no_faults now id d ≡ got st
      → exists key d.blobs ≡ false
      → env.hash key (b ∷ bs) ≡ key
      → (append env no_faults now id (b ∷ bs) d).1
        ≡ save env now id
            (add_chunk mine now st)
            (record d { blobs = record { name = key; bytes = b ∷ bs } ∷ d.blobs })
  unfolding append
  append-fresh id st d here absent good =
      ap (λ r. (appended env no_faults now id (b ∷ bs) r d).1) here
      ∙ ap
          (λ p.
            (staged env no_faults now id (new_chunk env no_faults (b ∷ bs) d.blobs) st none p d).1)
          (put-fresh d absent good)
      ∙ ap
          (λ pre.
            save env now id
              (add_chunk (record { key = key; size = length (b ∷ bs); pre_existed = pre }) now st)
              (record d { blobs = record { name = key; bytes = b ∷ bs } ∷ d.blobs }))
          absent

  append-known :
      (id : String) (st : State) (d : Disk)
      → load env no_faults now id d ≡ got st
      → exists key d.blobs ≡ true
      → (append env no_faults now id (b ∷ bs) d).1 ≡ save env now id (add_chunk theirs now st) d
  unfolding append
  append-known id st d here there =
      ap (λ r. (appended env no_faults now id (b ∷ bs) r d).1) here
      ∙ ap
          (λ p.
            (staged env no_faults now id (new_chunk env no_faults (b ∷ bs) d.blobs) st none p d).1)
          (put-known d there)
      ∙ ap
          (λ pre.
            save env now id
              (add_chunk (record { key = key; size = length (b ∷ bs); pre_existed = pre }) now st)
              d)
          there

module _ (env : Env) (now : ℤ) (b : ℕ) (bs : List ℕ) (i j repo_i repo_j : String) (d : Disk)
    (apart : state_key i ≢ state_key j) (young : expired env.idle now (some now) ≡ false)
    (good : env.hash (chunk_key env (b ∷ bs)) (b ∷ bs) ≡ chunk_key env (b ∷ bs))
    (absent : exists (chunk_key env (b ∷ bs)) d.blobs ≡ false)
    (first : load env no_faults now i d ≡ got (new_state repo_i now))
    (second : load env no_faults now j d ≡ got (new_state repo_j now))
    (code_i : Codes env (add_chunk (mine env now b bs) now (new_state repo_i now)))
    (code_j : Codes env (add_chunk (theirs env now b bs) now (new_state repo_j now))) where
  abbrev k : String
  k = chunk_key env (b ∷ bs)

  abbrev state_i : State
  state_i = add_chunk (mine env now b bs) now (new_state repo_i now)

  abbrev state_j : State
  state_j = add_chunk (theirs env now b bs) now (new_state repo_j now)

  abbrev with_object : Disk
  with_object = record d { blobs = record { name = k; bytes = b ∷ bs } ∷ d.blobs }

  abbrev both : Disk
  both = save env now j state_j (save env now i state_i with_object)

  abbrev promoted : Disk
  promoted = record both {
    meta = record both.meta { mutables = delete_mutable (state_key j) both.mutables };
  }

  stored_there : exists k with_object.blobs ≡ true
  unfolding exists find_object
  stored_there = ground (arith, eq_iff k k)

  load-blobs :
      load env no_faults now j d ≡ got (new_state repo_j now)
      → load env no_faults now j with_object ≡ got (new_state repo_j now)
  unfolding load
  load-blobs h = h

  twice : (append env no_faults now j (b ∷ bs) (append env no_faults now i (b ∷ bs) d).1).1 ≡ both
  unfolding save
  twice =
      ap (λ x. (append env no_faults now j (b ∷ bs) x).1)
        (append-fresh env now b bs i (new_state repo_i now) d first absent good)
      ∙ append-known env now b bs j (new_state repo_j now) (save env now i state_i with_object)
          (load-save_other env now now i state_i no_faults j with_object (λ q. apart (sym q))
            ∙ load-blobs second)
          stored_there

  load_j : load env no_faults now j both ≡ got state_j
  unfolding add_chunk
  load_j =
      load-save env now now j state_j no_faults (save env now i state_i with_object) refl code_j
        young

  load_i : load env no_faults now i promoted ≡ got state_i
  unfolding load add_chunk save
  load_i =
      ap (row_state env now) (get_mutable-delete (state_key j) (state_key i) both.mutables apart)
      ∙ load-save_other env now now j state_j no_faults i (save env now i state_i with_object) apart
      ∙ load-save env now now i state_i no_faults with_object refl code_i young

  completed : (complete env no_faults now j k both).1 ≡ promoted
  unfolding complete add_chunk drop_chunks
  completed =
      ap (λ r. (discarded no_faults j k r both).1) load_j
      ∙ ap (λ os. (erased j none (record both { blobs = os })).1) (ground (arith, eq_iff k k))

  abandoned : (abandon env no_faults now i promoted).1.blobs ≡ remove k both.blobs
  unfolding abandon add_chunk drop_chunks
  abandoned =
      ap (λ r. (discarded no_faults i "" r promoted).1.blobs) load_i
      ∙ ground (arith, chunk_key-nonempty env (b ∷ bs))

  -- Two sessions that were just opened stage the same bytes, which no object has, and the second one is
  -- completed with their digest: the promoted blob is stored. Abandoning the first session then removes
  -- it. The sessions have different rows, no call fails, nothing has expired, the digest of the bytes is
  -- their digest and the codec gives back the two states.
  pub abandon-evicts :
      let staged_twice =
        (append env no_faults now j (b ∷ bs) (append env no_faults now i (b ∷ bs) d).1).1 in
      let finished = (complete env no_faults now j k staged_twice).1 in
      (exists k finished.blobs ≡ true)
      × (exists k (abandon env no_faults now i finished).1.blobs ≡ false)
  unfolding save
  abandon-evicts =
      let path = ap (λ x. (complete env no_faults now j k x).1) twice ∙ completed in
      subst
        (λ x.
          (exists k x.blobs ≡ true) × (exists k (abandon env no_faults now i x).1.blobs ≡ false))
        (sym path) (stored_there, ap (exists k) abandoned ∙ exists-remove k both.blobs)
