-- ===== src/Upload/Refines.antt =====
-- The two stores of upload sessions answer alike: what SharedSessions keeps in the shared tiers is what
-- MemorySessions keeps in its map and its files.
use specula.Prelude.{
  ℕ, ◌+◌, String, ◌≡◌, ◌≢◌, refl, sym, ◌∙◌, ap, subst, false, Option, none, some, List, [], ◌∷◌,
  ◌++◌, arith, eq_iff, length, if◌then◌else◌, ◌==◌, true,
}
use specula.Prelude.Int.{ℤ}
use specula.Cache.{Object, find_object, Put, done, refused, put_blob, Cause}
use specula.Cache.Blobs.{IsAddressed}
use specula.Upload.{State, Session, Error, got, lost, Disk, Env, no_faults}
use specula.Upload.Memory.{
  Entry, Sessions, find_entry, drop_entry, set_entry, write_file, session_in, grow, written,
  appended_to, file_reply, opened,
}
use specula.Upload.Memory
use specula.Upload.Shared.{
  load, append, appended, staged, new_chunk, session_of, add_chunk, save, read_all, expired,
  chunk_key,
}
use specula.Upload.Shared
use specula.Upload.Shared.Rows.{Codes, got_injective, load-save, load-later}
use specula.Upload.Shared.Content.{state_after, Appends, append-Appends, append-content, reads}

find_entry-id :
    (id : String) (es : List Entry) (e : Entry) → find_entry id es ≡ some e → e.session.id ≡ id
unfolding find_entry
find_entry-id id [] e h = cc
find_entry-id id (x ∷ es) e h = ground (arith, find_entry-id id es e, eq_iff x.session.id id)

-- The session that a map entry and its file make.
abbrev Entered : Sessions → Session → List ℕ → Type 0
Entered m s bytes =
    (e : Entry) × (find_entry s.id m.entries ≡ some e)
    × (e.session ≡ s)
    × (find_object e.path m.files ≡ some bytes)

got-lost : {A : Type 0} {a : A} {e : Error} → got a ≡ lost e → ⊥
got-lost q = cc

entered :
    (s : Session) (bytes : List ℕ) (m : Sessions)
    → Memory.get s.id m ≡ got s
    → Memory.content s.id m ≡ got bytes
    → Entered m s bytes
unfolding Memory.get Memory.content
entered s bytes m g c = by_entry (find_entry s.id m.entries) refl g c
  where
    by_file :
        (e : Entry) (o : Option (List ℕ))
        → find_entry s.id m.entries ≡ some e
        → find_object e.path m.files ≡ o
        → got e.session ≡ got s
        → file_reply o ≡ got bytes
        → Entered m s bytes
    by_file e none q r g c = cc
    by_file e (some b) q r g c = (e, q, got_injective g, r ∙ ap some (got_injective c))

    by_entry :
        (o : Option Entry)
        → find_entry s.id m.entries ≡ o
        → session_in o ≡ got s
        → opened o m.files ≡ got bytes
        → Entered m s bytes
    by_entry none q g c = cc
    by_entry (some e) q g c = by_file e (find_object e.path m.files) q refl g c

abbrev longer : ℕ → Session → Session
longer n s = record s { offset = s.offset + n }

-- An append in memory.
grown :
    (s : Session) (before bytes : List ℕ) (m : Sessions)
    → Entered m s before
    → (Memory.get s.id (Memory.append none s.id bytes m).1 ≡ got (longer (length bytes) s))
      × (Memory.content s.id (Memory.append none s.id bytes m).1 ≡ got (before ++ bytes))
      × ((Memory.append none s.id bytes m).0 ≡ (s.offset + length bytes, none))
unfolding Memory.get Memory.content Memory.append find_entry set_entry write_file find_object
grown s before bytes m (e, found, same, file) =
    subst
      (λ out.
        (session_in (find_entry s.id out.1.entries) ≡ got (longer (length bytes) s))
        × (opened (find_entry s.id out.1.entries) out.1.files ≡ got (before ++ bytes))
        × (out.0 ≡ (s.offset + length bytes, none)))
      (sym (ap (λ o. appended_to o none bytes m) found ∙ ap (λ o. written e o none bytes m) file))
      (
        ap (λ b. session_in (if b then some (grow (length bytes) e) else find_entry s.id rest)) key
            ∙ ap (λ x. got (longer (length bytes) x)) same,
        ap (λ b. opened (if b then some (grow (length bytes) e) else find_entry s.id rest) files)
              key
            ∙ ground (arith, eq_iff e.path e.path),
        ap (λ x. (x.offset + length bytes, none)) same,
      )
  where
    rest : List Entry
    rest = drop_entry e.session.id m.entries

    files : List Object
    files = write_file e.path (before ++ bytes) m.files

    key : (e.session.id == s.id) ≡ true
    key = ground (arith, eq_iff e.session.id s.id, find_entry-id s.id m.entries e found)

put-done :
    (env : Env) (b : ℕ) (bs : List ℕ) (os : List Object) (cause : Cause)
    → env.hash (chunk_key env (b ∷ bs)) (b ∷ bs) ≡ chunk_key env (b ∷ bs)
    → put_blob env.hash (chunk_key env (b ∷ bs)) (b ∷ bs) (length (b ∷ bs)) os ≢ refused cause
unfolding put_blob
put-done env b bs os cause good h =
    ground (arith, eq_iff (env.hash (chunk_key env (b ∷ bs)) (b ∷ bs)) (chunk_key env (b ∷ bs)))

pair_path :
    {a b : ℕ} {e f : Option Error} → a ≡ b → e ≡ f → ◌≡◌ {A = ℕ × Option Error} (a, e) (b, f)
pair_path p q = cc

-- The session that a state stands for.
abbrev session : String → State → Session
session id st = record { id = id; repo = st.repo; offset = st.offset; started_at = st.started_at }

module _ (env : Env) (now later : ℤ) (id : String) (st : State) (before : List ℕ) (d : Disk)
    (here : load env no_faults now id d ≡ got st) where
  -- The session that an append leaves.
  shared-get :
      (bytes : List ℕ) (out : (ℕ × Option Error) × Disk)
      → Codes env (state_after env no_faults now st bytes d.blobs)
      → expired env.idle later (state_after env no_faults now st bytes d.blobs).updated_at ≡ false
      → Appends env no_faults now id st bytes d out
      → Shared.get env no_faults later id out.1 ≡ got (longer (length bytes) (session id st))
  unfolding Shared.get add_chunk
  shared-get [] out code fresh h =
      ap (λ x. session_of id (load env no_faults later id x.1)) h
      ∙ ap (session_of id) (load-later env now later st fresh no_faults id d here)
      ∙ ap (λ n. got (record (session id st) { offset = n })) (ground arith)
  shared-get (b ∷ bs) out code fresh (blobs, p, h) =
      ap (λ x. session_of id (load env no_faults later id x.1)) h
      ∙ ap (session_of id) (
          load-save env now later id (state_after env no_faults now st (b ∷ bs) d.blobs) no_faults
            (record d { blobs = blobs }) refl code fresh)

  accepted :
      (b : ℕ) (bs : List ℕ) (p : Put)
      → put_blob env.hash (chunk_key env (b ∷ bs)) (b ∷ bs) (length (b ∷ bs)) d.blobs ≡ p
      → env.hash (chunk_key env (b ∷ bs)) (b ∷ bs) ≡ chunk_key env (b ∷ bs)
      → (staged env no_faults now id (new_chunk env no_faults (b ∷ bs) d.blobs) st none p d).0.1
        ≡ none
  accepted b bs (done blobs) q good = refl
  accepted b bs (refused cause) q good = absurd (put-done env b bs d.blobs cause good q)

  succeeds :
      (bytes : List ℕ)
      → env.hash (chunk_key env bytes) bytes ≡ chunk_key env bytes
      → (append env no_faults now id bytes d).0.1 ≡ none
  unfolding append
  succeeds [] good = ap (λ r. (appended env no_faults now id [] r d).0.1) here
  succeeds (b ∷ bs) good =
      ap (λ r. (appended env no_faults now id (b ∷ bs) r d).0.1) here ∙ accepted b bs _ refl good

  -- When a replica's memory and the shared tiers answer alike for a session, they answer alike to an
  -- append, without error, and for the session that it leaves: the offset, the session and the bytes.
  -- No call fails; the blob store is content-addressed, the body has its digest and no other bytes have
  -- it, the codec gives back the state written, and the session is read before it has been idle too
  -- long.
  pub append-refines :
      (bytes : List ℕ) (m : Sessions)
      → IsAddressed env.hash d.blobs
      → env.hash (chunk_key env bytes) bytes ≡ chunk_key env bytes
      → ((b : List ℕ) → env.hash (chunk_key env bytes) b ≡ chunk_key env bytes → b ≡ bytes)
      → Codes env (state_after env no_faults now st bytes d.blobs)
      → expired env.idle later (state_after env no_faults now st bytes d.blobs).updated_at ≡ false
      → Shared.content env no_faults now id d ≡ got before
      → Memory.get id m ≡ Shared.get env no_faults now id d
      → Memory.content id m ≡ Shared.content env no_faults now id d
      → let kept = Memory.append none id bytes m in
        let shared = append env no_faults now id bytes d in
        (kept.0 ≡ shared.0)
        × (Memory.get id kept.1 ≡ Shared.get env no_faults later id shared.1)
        × (Memory.content id kept.1 ≡ Shared.content env no_faults later id shared.1)
  unfolding Shared.get
  append-refines bytes m addressed good only code fresh read same_get same_content =
      let well = succeeds bytes good in
      let after = append-Appends env no_faults now id st bytes d here well in
      let got_session = shared-get bytes (append env no_faults now id bytes d) code fresh after in
      let (whole, offset) =
        append-content env no_faults now later id st before d addressed here
          (sym (reads env no_faults now id d st here) ∙ read) bytes only code fresh well in
      let (g, c, r) =
        grown (session id st) before bytes m
          (entered (session id st) before m (same_get ∙ shared_session) (same_content ∙ read)) in
      (r ∙ pair_path (sym offset) (sym well), g ∙ sym got_session, c ∙ sym whole)
    where
      shared_session : Shared.get env no_faults now id d ≡ got (session id st)
      shared_session = ap (session_of id) here
