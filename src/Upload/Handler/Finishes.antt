-- ===== src/Upload/Handler/Finishes.antt =====
-- What completeUpload of internal/handler/registry/registry.go leaves when it answers 201.
use specula.Prelude.{
  ℕ, String, Bool, true, false, ◌≡◌, ◌≢◌, refl, sym, ◌∙◌, ap, subst, ◌⊎◌, inl, inr, Option, none,
  some, List, [], ◌∷◌, arith, eq_iff, length, String-cases, Bool-cases, if◌then◌else◌, ◌==◌, ◌||◌,
  eqb,
}
use specula.Prelude.Int.{ℤ}
use specula.Cache.{
  Object, find_object, remove, exists, Cause, Put, done, refused, put_blob, reported,
}
use specula.Cache.Blobs.{IsAddressed, put_blob-exists, put_blob-IsAddressed}
use specula.Upload.{
  Chunk, State, Session, Error, session_not_found, wrapped, Reply, got, lost, Disk, Env, Faults,
}
use specula.Upload.Shared.{
  load, save, add_chunk, chunk_key, new_chunk, recorded, staged, spooled, appended, append,
  drop_chunks, erased, discarded, complete, content, get, open_chunks, read_all,
}
use specula.Upload.Shared.Keeps.{drop_chunks-exists}
use specula.Upload.Handler.{
  Response, gap, fails, dropped, Config, Calls, Authorized, allowed, forbidden, unknown_repo,
  authz_failed, looked_up, session_for, contiguous, check_chunk, record_hosted_blob, hosted,
  put_content, stored, reopened, verified, compared, hashed, refetched, closed, complete_checked,
  complete_session, complete_parsed, complete_upload, parse_content_range,
}

find_object-remove :
    (k j : String) (os : List Object) (b : List ℕ)
    → find_object k (remove j os) ≡ some b
    → find_object k os ≡ some b ⊎ (k ≡ j)
unfolding find_object remove
find_object-remove k j [] b h = inl h
find_object-remove k j (o ∷ os) b h = elim (String-cases o.name k) [
  | inr (other, t) ↦ ground (arith, find_object-remove k j os b)
  | inl (same, t) ↦ ground (arith, find_object-remove k j os b, eq_iff o.name j)
]

absent-remove : (k : String) (os : List Object) → find_object k (remove k os) ≡ none
unfolding find_object remove
absent-remove k [] = refl
absent-remove k (o ∷ os) = ground (arith, absent-remove k os)

none-some : {A : Type 0} {a : A} → none ≡ some a → ⊥
none-some q = cc

module _ (hash : String → List ℕ → String) where
  remove-IsAddressed :
      (j : String) (os : List Object) → IsAddressed hash os → IsAddressed hash (remove j os)
  remove-IsAddressed j os h k b q = elim (find_object-remove k j os b q) [
    | inl still ↦ h k b still
    | inr same ↦ absurd (
        none-some
          (sym (absent-remove j os) ∙ subst (λ x. find_object x (remove j os) ≡ some b) same q))
  ]

  drop_chunks-IsAddressed :
      (w : Faults) (kept : String) (cs : List Chunk) (os : List Object)
      → IsAddressed hash os
      → IsAddressed hash (drop_chunks w kept cs os)
  unfolding drop_chunks
  drop_chunks-IsAddressed w kept [] os h = h
  drop_chunks-IsAddressed w kept (c ∷ cs) os h =
      drop_chunks-IsAddressed w kept cs _ (by_test (c.key == kept || c.pre_existed || w.drop c.key))
    where
      by_test : (b : Bool) → IsAddressed hash (if b then os else remove c.key os)
      by_test true = h
      by_test false = remove-IsAddressed c.key os h

-- The object is stored, and every object under its own digest.
abbrev Keeps : Env → String → List Object → Type 0
Keeps env k os = (exists k os ≡ true) × IsAddressed env.hash os

module _ (env : Env) (w : Faults) (now : ℤ) (id : String) where
  staged-IsAddressed :
      (c : Chunk) (st : State) (k : String) (bytes : List ℕ) (f : Option String) (p : Put)
      (d : Disk)
      → put_blob env.hash k bytes (length bytes) d.blobs ≡ p
      → IsAddressed env.hash d.blobs
      → IsAddressed env.hash (staged env w now id c st f p d).1.blobs
  unfolding save
  staged-IsAddressed c st k bytes (some e) p d q h = h
  staged-IsAddressed c st k bytes none (refused cause) d q h = h
  staged-IsAddressed c st k bytes none (done blobs) d q h = by_save w.save
    where
      by_save :
          (f : Option String)
          → IsAddressed env.hash
              (recorded env now id c (add_chunk c now st) f (record d { blobs = blobs })).1.blobs
      by_save (some e) = put_blob-IsAddressed env.hash k bytes (length bytes) d.blobs blobs q h
      by_save none = put_blob-IsAddressed env.hash k bytes (length bytes) d.blobs blobs q h

  spooled-IsAddressed :
      (st : State) (f : Option String) (bytes : List ℕ) (d : Disk)
      → IsAddressed env.hash d.blobs
      → IsAddressed env.hash (spooled env w now id st f bytes d).1.blobs
  spooled-IsAddressed st (some e) bytes d h = h
  spooled-IsAddressed st none [] d h = h
  spooled-IsAddressed st none (b ∷ bs) d h =
      staged-IsAddressed (new_chunk env w (b ∷ bs) d.blobs) st (chunk_key env (b ∷ bs)) (b ∷ bs)
        w.put _ d refl h

  appended-IsAddressed :
      (bytes : List ℕ) (r : Reply State) (d : Disk)
      → IsAddressed env.hash d.blobs
      → IsAddressed env.hash (appended env w now id bytes r d).1.blobs
  appended-IsAddressed bytes (lost e) d h = h
  appended-IsAddressed bytes (got st) d h = spooled-IsAddressed st w.spool bytes d h

  discarded-Keeps :
      (k : String) (r : Reply State) (d : Disk)
      → Keeps env k d.blobs
      → Keeps env k (discarded w id k r d).1.blobs
  discarded-Keeps k (lost session_not_found) d h = h
  discarded-Keeps k (lost (wrapped what cause)) d h = h
  discarded-Keeps k (got st) d (there, addressed) = by_delete w.delete
    where
      left : Keeps env k (drop_chunks w k st.chunks d.blobs)
      left = (
        drop_chunks-exists w k k st.chunks d.blobs (inr refl) there,
        drop_chunks-IsAddressed env.hash w k st.chunks d.blobs addressed,
      )

      by_delete :
          (f : Option String)
          → Keeps env k
              (erased id f (record d { blobs = drop_chunks w k st.chunks d.blobs })).1.blobs
      by_delete (some e) = left
      by_delete none = left

option_or : Response → Option Response → Response
option_or r none = r
option_or r (some x) = x

refused_with : (x r : Response) → x.status ≢ 201 → some x ≡ some r → r.status ≢ 201
unfolding option_or
refused_with x r h q = subst (λ y. y.status ≢ 201) (ap (option_or x) q) h

-- No refusal of a session or of a chunk is a 201.
contiguous-refusal :
    (p : Option (ℕ × ℕ)) (offset : ℕ) (r : Response) → contiguous p offset ≡ some r → r.status ≢ 201
contiguous-refusal none offset r h =
    refused_with (fails 400 "BLOB_UPLOAD_INVALID") r (omega arith) h
contiguous-refusal (some (start, end)) offset r h = elim (Bool-cases (eqb start offset)) [
  | inl fits ↦ absurd (none-some (sym (ground arith) ∙ h))
  | inr skips ↦ refused_with (gap offset) r (omega arith) (sym (ground arith) ∙ h)
]

chunk-refusal :
    (header : String) (s : Session) (r : Response) → check_chunk header s ≡ some r → r.status ≢ 201
unfolding check_chunk
chunk-refusal header s r h = elim (Bool-cases (header == "")) [
  | inl bare ↦ absurd (none-some (sym (ground arith) ∙ h))
  | inr given ↦ contiguous-refusal (parse_content_range header) s.offset r (sym (ground arith) ∙ h)
]

left_or : Response → Response ⊎ Session → Response
left_or r (inl x) = x
left_or r (inr s) = r

left_status :
    (x r : Response)
    → x.status ≢ 201
    → ◌≡◌ {A = Response ⊎ Session} (inl x) (inl r)
    → r.status ≢ 201
unfolding left_or
left_status x r h q = subst (λ y. y.status ≢ 201) (ap (left_or x) q) h

session-refusal :
    (name : String) (r : Reply Session) (x : Response) → looked_up name r ≡ inl x → x.status ≢ 201
session-refusal name (lost session_not_found) x h = left_status _ x (omega arith) h
session-refusal name (lost (wrapped what cause)) x h = left_status _ x (omega arith) h
session-refusal name (got s) x h = elim (Bool-cases (s.repo == name)) [
  | inl same ↦ absurd (apart (sym h ∙ ground arith))
  | inr other ↦
      left_status (fails 404 "BLOB_UPLOAD_UNKNOWN") x (omega arith) (sym (ground arith) ∙ h)
]
  where
    apart : inl x ≡ inr s → ⊥
    apart q = cc

put_content-Keeps :
    (cfg : Config) (f : Option String) (k : String) (r : Reply (List ℕ)) (size : ℕ)
    (os blobs : List Object)
    → put_content cfg f k r size os ≡ done blobs
    → IsAddressed cfg.env.hash os
    → Keeps cfg.env k blobs
put_content-Keeps cfg (some e) k r size os blobs h a = cc
put_content-Keeps cfg none k (got bytes) size os blobs h a = (
  (put_blob-exists cfg.env.hash k k bytes size os blobs h).0,
  put_blob-IsAddressed cfg.env.hash k bytes size os blobs h a,
)
put_content-Keeps cfg none k (lost e) size os blobs h a = elim (Bool-cases (exists k os)) [
  | inl there ↦ subst (Keeps cfg.env k) (done_injective (ground arith)) (there, a)
  | inr absent ↦ absurd (apart (reported "read staged chunk") (sym h ∙ ground arith))
]
  where
    blobs_of : Put → List Object
    blobs_of (done x) = x
    blobs_of (refused c) = []

    done_injective : done os ≡ done blobs → os ≡ blobs
    done_injective q = ap blobs_of q

    apart : (c : Cause) → done blobs ≡ refused c → ⊥
    apart c q = cc

module _ (cfg : Config) (w : Calls) (now : ℤ) (name uuid : String) where
  -- A 201 leaves the digest stored.
  abbrev Finished : String → Response × Disk → Type 0
  Finished k out = out.0.status ≡ 201 → Keeps cfg.env k out.1.blobs

  stored-Finished :
      (k : String) (size : ℕ) (p : Put) (d : Disk)
      → ((blobs : List Object) → p ≡ done blobs → Keeps cfg.env k blobs)
      → Finished k (stored cfg w now name uuid k size p d)
  unfolding complete record_hosted_blob
  stored-Finished k size (refused cause) d h e = absurd (omega arith)
  stored-Finished k size (done blobs) d h e =
      discarded-Keeps cfg.env w.complete now uuid k _ _ (by_meta cfg.has_meta w.record_blob)
    where
      by_meta :
          (m : Bool) (f : Option String)
          → Keeps cfg.env k (hosted m f now name k size (record d { blobs = blobs })).blobs
      by_meta false f = h blobs refl
      by_meta true (some x) = h blobs refl
      by_meta true none = h blobs refl

  reopened-Finished :
      (k : String) (size : ℕ) (r : Reply (List String)) (d : Disk)
      → IsAddressed cfg.env.hash d.blobs
      → Finished k (reopened cfg w now name uuid k size r d)
  reopened-Finished k size (lost x) d a e = absurd (omega arith)
  reopened-Finished k size (got keys) d a e =
      stored-Finished k size (put_content cfg w.put k (read_all w.reread keys d.blobs) size d.blobs)
        d (λ blobs q. put_content-Keeps cfg w.put k _ size d.blobs blobs q a) e

  verified-Finished :
      (k : String) (size : ℕ) (b : Bool) (d : Disk)
      → IsAddressed cfg.env.hash d.blobs
      → Finished k (verified cfg w now name uuid k size b d)
  verified-Finished k size false d a e = absurd (omega arith)
  verified-Finished k size true d a e =
      reopened-Finished k size (open_chunks cfg.env w.reread now uuid d) d a e

  module _ (declared algorithm : String) where
    compared-Finished :
        (actual : String) (size : ℕ) (d : Disk)
        → IsAddressed cfg.env.hash d.blobs
        → Finished declared (compared cfg w now name uuid declared actual size d)
    compared-Finished actual size d a e = by_test (actual == declared) refl e
      where
        by_test :
            (b : Bool)
            → (actual == declared) ≡ b
            → Finished declared (
                if b
                then verified cfg w now name uuid actual size cfg.has_blobs d
                else dropped cfg w now uuid (fails 400 "DIGEST_INVALID") d)
        by_test false t e = absurd (omega arith)
        by_test true t e =
            subst
              (λ k.
                Keeps cfg.env k (verified cfg w now name uuid actual size cfg.has_blobs d).1.blobs)
              ((eq_iff actual declared).0 t) (verified-Finished actual size cfg.has_blobs d a e)

    hashed-Finished :
        (r : Reply (List ℕ)) (d : Disk)
        → IsAddressed cfg.env.hash d.blobs
        → Finished declared (hashed cfg w now name uuid declared algorithm r d)
    hashed-Finished (lost x) d a e = absurd (omega arith)
    hashed-Finished (got bytes) d a e =
        compared-Finished (cfg.digest algorithm bytes) (length bytes) d a e

    refetched-Finished :
        (r : Reply Session) (d : Disk)
        → IsAddressed cfg.env.hash d.blobs
        → Finished declared (refetched cfg w now name uuid declared algorithm r d)
    refetched-Finished (lost x) d a e = absurd (omega arith)
    refetched-Finished (got s) d a e = hashed-Finished (content cfg.env w.read now uuid d) d a e

    closed-Finished :
        (out : (ℕ × Option Error) × Disk)
        → IsAddressed cfg.env.hash out.1.blobs
        → Finished declared (closed cfg w now name uuid declared algorithm out)
    closed-Finished ((n, some x), d) a e = absurd (omega arith)
    closed-Finished ((n, none), d) a e = refetched-Finished (get cfg.env w.reget now uuid d) d a e

    module _ (header : String) (body : List ℕ) (d : Disk)
        (a : IsAddressed cfg.env.hash d.blobs) where
      checked-Finished :
          (f : Option Response)
          → ((r : Response) → f ≡ some r → r.status ≢ 201)
          → Finished declared (complete_checked cfg w now name uuid declared algorithm body f d)
      unfolding append
      checked-Finished (some r) q e = absurd (q r refl e)
      checked-Finished none q e =
          closed-Finished (append cfg.env w.append now uuid body d)
            (appended-IsAddressed cfg.env w.append now uuid body (load cfg.env w.append now uuid d)
              d a)
            e

      session-Finished :
          (s : Response ⊎ Session)
          → ((r : Response) → s ≡ inl r → r.status ≢ 201)
          → Finished declared
              (complete_session cfg w now name uuid declared algorithm header body s d)
      session-Finished (inl r) q e = absurd (q r refl e)
      session-Finished (inr s) q e =
          checked-Finished (check_chunk header s) (chunk-refusal header s) e

-- When completeUpload answers 201, the declared digest is stored, and every object of the blob store has
-- the digest that it is stored under, if that was so before. Any calls may fail.
pub complete_upload-stored :
    (cfg : Config) (w : Calls) (now : ℤ) (auth : Authorized) (name uuid declared header : String)
    (body : List ℕ) (d : Disk)
    → IsAddressed cfg.env.hash d.blobs
    → (complete_upload cfg w now auth name uuid declared header body d).0.status ≡ 201
    → (exists declared (complete_upload cfg w now auth name uuid declared header body d).1.blobs
        ≡ true)
      × IsAddressed cfg.env.hash
          (complete_upload cfg w now auth name uuid declared header body d).1.blobs
unfolding complete_upload
complete_upload-stored cfg w now forbidden name uuid declared header body d a e =
    absurd (omega arith)
complete_upload-stored cfg w now unknown_repo name uuid declared header body d a e =
    absurd (omega arith)
complete_upload-stored cfg w now authz_failed name uuid declared header body d a e =
    absurd (omega arith)
complete_upload-stored cfg w now (allowed r) name uuid declared header body d a e =
    by_empty (declared == "") e
  where
    parsed :
        (p : Option String)
        → Finished cfg w now name uuid declared
            (complete_parsed cfg w now name uuid declared p header body d)
    parsed none e = absurd (omega arith)
    parsed (some algorithm) e =
        session-Finished cfg w now name uuid declared algorithm header body d a
          (session_for cfg w.get now name uuid d)
          (session-refusal name (get cfg.env w.get now uuid d)) e

    by_empty :
        (b : Bool)
        → Finished cfg w now name uuid declared (
            if b
            then (fails 400 "DIGEST_INVALID", d)
            else complete_parsed cfg w now name uuid declared (cfg.parse declared) header body d)
    by_empty true e = absurd (omega arith)
    by_empty false e = parsed (cfg.parse declared) e
