-- ===== src/Upload/Shared/Content.antt =====
-- The bytes that a session of shared_session.go has: what `Append` adds, `Open` returns in order.
use specula.Prelude.{
  ℕ, ◌+◌, String, ◌≡◌, refl, sym, ◌∙◌, ap, false, Option, none, some, List, [], ◌∷◌, ◌++◌, map,
  arith, length, subst,
}
use mathlib.Core.List.{append-nil, append_assoc}
use specula.Prelude.Int.{ℤ}
use specula.Cache.{Object, find_object, Put, done, refused, put_blob}
use specula.Cache.Blobs.{IsAddressed, Extends, put_blob-Extends}
use specula.Upload.{Chunk, State, Error, Reply, got, lost, Disk, Env, Faults, no_faults}
use specula.Upload.Shared.{
  load, save, add_chunk, chunk_key, new_chunk, recorded, staged, spooled, appended, append,
  read_all, content, expired, joined, fetched, keys_of, read_reply, open_chunks,
}
use specula.Upload.Shared.Rows.{Codes, got_injective, load-save, load-later}

-- The state that an append leaves. An empty body leaves the state it finds.
abbrev pub state_after : Env → Faults → ℤ → State → List ℕ → List Object → State
state_after env w now st [] os = st
state_after env w now st (b ∷ bs) os = add_chunk (new_chunk env w (b ∷ bs) os) now st

-- What a successful append leaves on disk, and the offset that it reports.
abbrev pub Appends :
    Env → Faults → ℤ → String → State → List ℕ → Disk → (ℕ × Option Error) × Disk → Type 0
Appends env w now id st [] d out = out ≡ ((st.offset, none), d)
Appends env w now id st (b ∷ bs) d out =
    let next = state_after env w now st (b ∷ bs) d.blobs in
    (blobs : List Object) × (put_blob env.hash (chunk_key env (b ∷ bs)) (b ∷ bs) (length (b ∷ bs))
        d.blobs
      ≡ done blobs)
    × (out ≡ ((next.offset, none), save env now id next (record d { blobs = blobs })))

module _ (env : Env) (w : Faults) (now : ℤ) (id : String) where
  recorded-Appends :
      (c : Chunk) (st : State) (f : Option String) (d : Disk)
      → (recorded env now id c st f d).0.1 ≡ none
      → recorded env now id c st f d ≡ ((st.offset, none), save env now id st d)
  recorded-Appends c st (some e) d h = cc
  recorded-Appends c st none d h = refl

  staged-Appends :
      (st : State) (b : ℕ) (bs : List ℕ) (d : Disk) (f : Option String) (p : Put)
      → put_blob env.hash (chunk_key env (b ∷ bs)) (b ∷ bs) (length (b ∷ bs)) d.blobs ≡ p
      → (staged env w now id (new_chunk env w (b ∷ bs) d.blobs) st f p d).0.1 ≡ none
      → Appends env w now id st
          (b ∷ bs)
          d
          (staged env w now id (new_chunk env w (b ∷ bs) d.blobs) st f p d)
  staged-Appends st b bs d (some e) p q h = cc
  staged-Appends st b bs d none (refused cause) q h = cc
  staged-Appends st b bs d none (done blobs) q h = (
    blobs,
    q,
    recorded-Appends (new_chunk env w (b ∷ bs) d.blobs) (state_after env w now st (b ∷ bs) d.blobs)
        w.save (record d { blobs = blobs }) h,
  )

  spooled-Appends :
      (st : State) (f : Option String) (bytes : List ℕ) (d : Disk)
      → (spooled env w now id st f bytes d).0.1 ≡ none
      → Appends env w now id st bytes d (spooled env w now id st f bytes d)
  spooled-Appends st (some e) bytes d h = cc
  spooled-Appends st none [] d h = refl
  spooled-Appends st none (b ∷ bs) d h = staged-Appends st b bs d w.put _ refl h

  pub append-Appends :
      (st : State) (bytes : List ℕ) (d : Disk)
      → load env w now id d ≡ got st
      → (append env w now id bytes d).0.1 ≡ none
      → Appends env w now id st bytes d (append env w now id bytes d)
  unfolding append
  append-Appends st bytes d here =
      subst
        (λ r.
          (appended env w now id bytes r d).0.1 ≡ none
          → Appends env w now id st bytes d (appended env w now id bytes r d))
        (sym here) (spooled-Appends st w.spool bytes d)

-- The keys of a session's chunks, and the bytes that they name.
abbrev pub keys : State → List String
keys st = map (λ c. c.key) st.chunks

map-++ :
    (xs : List Chunk) (c : Chunk)
    → map (λ c. c.key) (xs ++ (c ∷ [])) ≡ map (λ c. c.key) xs ++ (c.key ∷ [])
map-++ [] c = refl
map-++ (x ∷ xs) c = ap (λ r. x.key ∷ r) (map-++ xs c)

-- What was read in order was each chunk and then the rest.
read_all-split :
    (f : Option (List ℕ)) (rest : Reply (List ℕ)) (before : List ℕ)
    → joined (fetched none f) rest ≡ got before
    → (b : List ℕ) × (mid : List ℕ) × (f ≡ some b) × (rest ≡ got mid) × (b ++ mid ≡ before)
read_all-split none rest before h = cc
read_all-split (some b) (lost e) before h = cc
read_all-split (some b) (got mid) before h = (b, mid, refl, refl, got_injective h)

-- A longer store that has the last key gives the bytes so far and the last ones.
read_all-snoc :
    (ks : List String) (k : String) (os blobs : List Object) (before more : List ℕ)
    → Extends k more os blobs
    → read_all no_faults ks os ≡ got before
    → read_all no_faults (ks ++ (k ∷ [])) blobs ≡ got (before ++ more)
unfolding read_all
read_all-snoc [] k os blobs before more (last, _) h =
    ap (λ f. joined (fetched none f) (got [])) last
    ∙ ap got (append-nil more ∙ ap (λ b. b ++ more) (got_injective h))
read_all-snoc (x ∷ ks) k os blobs before more (last, stays) h =
    let (b, mid, first, rest, whole) =
      read_all-split (find_object x os) (read_all no_faults ks os) before h in
    ap (λ f. joined (fetched none f) (read_all no_faults (ks ++ (k ∷ [])) blobs)) (stays x b first)
    ∙ ap (joined (got b)) (read_all-snoc ks k os blobs mid more (last, stays) rest)
    ∙ ap got (sym (append_assoc b mid more) ∙ ap (λ c. c ++ more) whole)

pub reads :
    (env : Env) (w : Faults) (now : ℤ) (id : String) (d : Disk) (st : State)
    → load env w now id d ≡ got st
    → content env w now id d ≡ read_all w (keys st) d.blobs
unfolding content open_chunks
reads env w now id d st h = ap (λ r. read_reply w d.blobs (keys_of r)) h

module _ (env : Env) (w : Faults) (now later : ℤ) (id : String) (st : State) (before : List ℕ)
    (d : Disk) (addressed : IsAddressed env.hash d.blobs) (here : load env w now id d ≡ got st)
    (read : read_all no_faults (keys st) d.blobs ≡ got before) where
  -- What the session has after an append, and its offset.
  abbrev Grown : List ℕ → (ℕ × Option Error) × Disk → Type 0
  Grown bytes out =
      (content env no_faults later id out.1 ≡ got (before ++ bytes))
      × (out.0.0 ≡ st.offset + length bytes)

  Appends-content :
      (bytes : List ℕ) (out : (ℕ × Option Error) × Disk)
      → ((b : List ℕ) → env.hash (chunk_key env bytes) b ≡ chunk_key env bytes → b ≡ bytes)
      → Codes env (state_after env w now st bytes d.blobs)
      → expired env.idle later (state_after env w now st bytes d.blobs).updated_at ≡ false
      → Appends env w now id st bytes d out
      → Grown bytes out
  unfolding save read_all add_chunk
  Appends-content [] out only code fresh h = subst (Grown []) (sym h) (
    reads env no_faults later id d st (load-later env now later st fresh w id d here)
        ∙ read
        ∙ ap got (sym (append-nil before)),
    ground arith,
  )
  Appends-content (b ∷ bs) out only code fresh (blobs, p, h) =
      let next = state_after env w now st (b ∷ bs) d.blobs in
      let k = chunk_key env (b ∷ bs) in
      let after = save env now id next (record d { blobs = blobs }) in
      let ext =
        put_blob-Extends env.hash k (b ∷ bs) (length (b ∷ bs)) d.blobs blobs p addressed only in
      subst (Grown (b ∷ bs)) (sym h) (
        reads env no_faults later id after next (
              load-save env now later id next no_faults (record d { blobs = blobs }) refl code
                fresh)
            ∙ ap (λ ks. read_all no_faults ks blobs)
                (map-++ st.chunks (new_chunk env w (b ∷ bs) d.blobs))
            ∙ read_all-snoc (keys st) k d.blobs blobs before (b ∷ bs) ext read,
        ground arith,
      )

  -- A successful append to a session whose chunks read as `before` leaves a session that reads as
  -- `before` followed by the body, and reports the old offset plus the length of the body. The blob store
  -- is content-addressed, no other bytes have the digest of the body, the codec gives back the state
  -- written, and the session is read back before it has been idle too long.
  pub append-content :
      (bytes : List ℕ)
      → ((b : List ℕ) → env.hash (chunk_key env bytes) b ≡ chunk_key env bytes → b ≡ bytes)
      → Codes env (state_after env w now st bytes d.blobs)
      → expired env.idle later (state_after env w now st bytes d.blobs).updated_at ≡ false
      → (append env w now id bytes d).0.1 ≡ none
      → (content env no_faults later id (append env w now id bytes d).1 ≡ got (before ++ bytes))
        × ((append env w now id bytes d).0.0 ≡ st.offset + length bytes)
  append-content bytes only code fresh well =
      Appends-content bytes (append env w now id bytes d) only code fresh
        (append-Appends env w now id st bytes d here well)
