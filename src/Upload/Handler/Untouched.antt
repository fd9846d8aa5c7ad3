-- ===== src/Upload/Handler/Untouched.antt =====
-- The requests of registry.go that leave an upload session as it is.
use specula.Prelude.{
  ℕ, ◌-◌, String, Bool, true, false, ◌≡◌, ◌≢◌, refl, sym, ◌∙◌, ap, subst, ◌⊎◌, inl, inr, Option,
  none, some, List, ◌==◌, arith, eq_iff, if◌then◌else◌,
}
use specula.Prelude.Int.{ℤ}
use specula.Artifact.{MutableEntry}
use specula.Meta.{get_mutable}
use specula.Cache.{Cause}
use specula.Upload.{
  Session, State, session_not_found, wrapped, Reply, got, lost, Disk, Env, no_faults,
}
use specula.Upload.Shared.Rows.{get_mutable-deleted}
use specula.Upload.Shared.{
  get, load, row_state, decoded, expired, state_key, session_of, discarded, abandon, append,
}
use specula.Upload.Handler.{
  Response, Config, Calls, allowed, patch_upload, patch_session, patch_checked, complete_upload,
  complete_parsed, complete_session, complete_checked, check_chunk, session_for, looked_up,
  parse_content_range, contiguous, gap, fails, succeeds, patched, range_end_of,
}
use specula.Repo.{Repo}

own_session :
    (name : String) (s : Session)
    → s.repo ≡ name
    → ◌≡◌ {A = Response ⊎ Session} (looked_up name (got s)) (inr s)
own_session name s h = ground (arith, eq_iff s.repo name)

not_here :
    (name : String) (s : Session)
    → s.repo ≢ name
    → ◌≡◌ {A = Response ⊎ Session} (looked_up name (got s)) (inl (fails 404 "BLOB_UPLOAD_UNKNOWN"))
not_here name s h = ground (arith, eq_iff s.repo name)

skipping :
    (header : String) (s : Session) (start end : ℕ)
    → header ≢ ""
    → parse_content_range header ≡ some (start, end)
    → start ≢ s.offset
    → check_chunk header s ≡ some (gap s.offset)
unfolding check_chunk
skipping header s start end given parsed skips =
    ap (λ b. if b then none else contiguous (parse_content_range header) s.offset) filled
    ∙ ap (λ p. contiguous p s.offset) parsed
    ∙ ground arith
  where
    filled : (header == "") ≡ false
    filled = ground (arith, eq_iff header "")

decoded-wrapped :
    (env : Env) (now : ℤ) (o : Option State) (what : String) (cause : Cause)
    → decoded env now o ≢ lost (wrapped what cause)
decoded-wrapped env now none what cause q = cc
decoded-wrapped env now (some st) what cause q = by_age (expired env.idle now st.updated_at) q
  where
    by_age : (b : Bool) → (if b then lost session_not_found else got st) ≢ lost (wrapped what cause)
    by_age true q = cc
    by_age false q = cc

row_state-wrapped :
    (env : Env) (now : ℤ) (o : Option MutableEntry) (what : String) (cause : Cause)
    → row_state env now o ≢ lost (wrapped what cause)
row_state-wrapped env now none what cause q = cc
row_state-wrapped env now (some e) what cause q =
    decoded-wrapped env now (env.decode e.payload) what cause q

-- An abandoned session is not found.
abandon-lost :
    (env : Env) (now : ℤ) (id : String) (d : Disk)
    → load env no_faults now id (abandon env no_faults now id d).1 ≡ lost session_not_found
unfolding abandon load
abandon-lost env now id d = gone (row_state env now (get_mutable (state_key id) d.mutables)) refl
  where
    gone :
        (r : Reply State)
        → row_state env now (get_mutable (state_key id) d.mutables) ≡ r
        → row_state env now (get_mutable (state_key id) (discarded no_faults id "" r d).1.mutables)
          ≡ lost session_not_found
    gone (got st) q = ap (row_state env now) (get_mutable-deleted (state_key id) d.mutables)
    gone (lost session_not_found) q = q
    gone (lost (wrapped what cause)) q = absurd (row_state-wrapped env now _ what cause q)

module _ (cfg : Config) (w : Calls) (now : ℤ) (r : Repo) (name uuid header : String) (body : List ℕ)
    (d : Disk) (s : Session) (found : get cfg.env w.get now uuid d ≡ got s) where
  -- A chunk that does not start at the offset is answered with the gap, in a PATCH and in a closing PUT.
  gap-Refused :
      (start end : ℕ) (declared algorithm : String)
      → s.repo ≡ name
      → header ≢ ""
      → parse_content_range header ≡ some (start, end)
      → start ≢ s.offset
      → declared ≢ ""
      → cfg.parse declared ≡ some algorithm
      → (patch_upload cfg w now (allowed r) name uuid header body d ≡ (gap s.offset, d))
        × (complete_upload cfg w now (allowed r) name uuid declared header body d
            ≡ (gap s.offset, d))
  unfolding patch_upload complete_upload
  gap-Refused start end declared algorithm own given parsed skips query digest = (
    ap (λ x. patch_session cfg w.append now uuid header body x d) session
        ∙ ap (λ f. patch_checked cfg w.append now uuid body f d) refusal,
    ap
          (λ b.
            if b
            then (fails 400 "DIGEST_INVALID", d)
            else complete_parsed cfg w now name uuid declared (cfg.parse declared) header body d)
          named
        ∙ ap (λ p. complete_parsed cfg w now name uuid declared p header body d) digest
        ∙ ap (λ x. complete_session cfg w now name uuid declared algorithm header body x d) session
        ∙ ap (λ f. complete_checked cfg w now name uuid declared algorithm body f d) refusal,
  )
    where
      named : (declared == "") ≡ false
      named = ground (arith, eq_iff declared "")

      refusal : check_chunk header s ≡ some (gap s.offset)
      refusal = skipping header s start end given parsed skips

      session : session_for cfg w.get now name uuid d ≡ inr s
      session = ap (looked_up name) found ∙ own_session name s own

  chunk_at_offset :
      (again : String) (last : ℕ)
      → parse_content_range again ≡ some (s.offset, last)
      → check_chunk again s ≡ none
  unfolding check_chunk
  chunk_at_offset again last parsed = by_header (again == "")
    where
      starts : contiguous (parse_content_range again) s.offset ≡ none
      starts = ap (λ p. contiguous p s.offset) parsed ∙ ground arith

      by_header :
          (b : Bool) → (if b then none else contiguous (parse_content_range again) s.offset) ≡ none
      by_header true = refl
      by_header false = starts

  -- A chunk whose Content-Range does not start at the session's offset, sent to the session's repository by
  -- an authorized caller, is refused alike as a PATCH and with the closing PUT, whose digest parses: 416,
  -- the range up to the last byte that the session has, and the stores as they are. The session is not
  -- lost: a PATCH after it whose Content-Range does start at the offset is answered with 202 and leaves
  -- what the session's append leaves, if that succeeds.
  pub gap-Resumes :
      (start end : ℕ) (declared algorithm again : String) (last : ℕ) (next : List ℕ) (n : ℕ)
      (after : Disk)
      → s.repo ≡ name
      → header ≢ ""
      → parse_content_range header ≡ some (start, end)
      → start ≢ s.offset
      → declared ≢ ""
      → cfg.parse declared ≡ some algorithm
      → parse_content_range again ≡ some (s.offset, last)
      → append cfg.env w.append now uuid next d ≡ ((n, none), after)
      → let refused : Response × Disk =
          patch_upload cfg w now (allowed r) name uuid header body d in
        let resumed : Response × Disk =
          patch_upload cfg w now (allowed r) name uuid again next refused.1 in
        (complete_upload cfg w now (allowed r) name uuid declared header body d ≡ refused)
        × (refused.1 ≡ d)
        × (refused.0.status ≡ 416)
        × (refused.0.error_code ≡ "BLOB_UPLOAD_INVALID")
        × (refused.0.range_end ≡ some (s.offset - 1))
        × (resumed.0.status ≡ 202)
        × (resumed.0.range_end ≡ some (n - 1))
        × (resumed.1 ≡ after)
  unfolding patch_upload range_end_of
  gap-Resumes start end declared algorithm again last next n after own given parsed skips query
        digest there appended =
      let (patch, put) =
        gap-Refused start end declared algorithm own given parsed skips query digest in
      let resumed : patch_upload cfg w now (allowed r) name uuid again next d
          ≡ (succeeds 202 (some (range_end_of n)), after) =
        ap (λ x. patch_session cfg w.append now uuid again next x d)
          (ap (looked_up name) found ∙ own_session name s own)
        ∙ ap (λ f. patch_checked cfg w.append now uuid next f d) (chunk_at_offset again last there)
        ∙ ap patched appended in
      let retried =
        ap (λ x. patch_upload cfg w now (allowed r) name uuid again next x.1) patch ∙ resumed in
      (
        put ∙ sym patch,
        ap (λ x. x.1) patch,
        ap (λ x. x.0.status) patch,
        ap (λ x. x.0.error_code) patch,
        ap (λ x. x.0.range_end) patch,
        ap (λ x. x.0.status) retried,
        ap (λ x. x.0.range_end) retried,
        ap (λ x. x.1) retried,
      )

  -- A PATCH through a repository that the session does not belong to is answered as if there were no
  -- session, and leaves the stores as they are; so is a PUT, if the digest of its query parses.
  pub stranger-Refused :
      (declared algorithm : String)
      → s.repo ≢ name
      → declared ≢ ""
      → cfg.parse declared ≡ some algorithm
      → (patch_upload cfg w now (allowed r) name uuid header body d
          ≡ (fails 404 "BLOB_UPLOAD_UNKNOWN", d))
        × (complete_upload cfg w now (allowed r) name uuid declared header body d
            ≡ (fails 404 "BLOB_UPLOAD_UNKNOWN", d))
  unfolding patch_upload complete_upload
  stranger-Refused declared algorithm other query digest = (
    ap (λ x. patch_session cfg w.append now uuid header body x d) session,
    ap
          (λ b.
            if b
            then (fails 400 "DIGEST_INVALID", d)
            else complete_parsed cfg w now name uuid declared (cfg.parse declared) header body d)
          named
        ∙ ap (λ p. complete_parsed cfg w now name uuid declared p header body d) digest
        ∙ ap (λ x. complete_session cfg w now name uuid declared algorithm header body x d) session,
  )
    where
      named : (declared == "") ≡ false
      named = ground (arith, eq_iff declared "")

      session : session_for cfg w.get now name uuid d ≡ inl (fails 404 "BLOB_UPLOAD_UNKNOWN")
      session = ap (looked_up name) found ∙ not_here name s other

  -- A PUT whose digest does not parse destroys the session, whichever repository the session belongs to:
  -- an authorized caller of any repository `name` removes it by its id, when no call fails.
  pub bad_digest-Removes :
      (declared : String)
      → declared ≢ ""
      → cfg.parse declared ≡ none
      → w.delete ≡ no_faults
      → ((complete_upload cfg w now (allowed r) name uuid declared header body d).0
          ≡ fails 400 "DIGEST_INVALID")
        × (get cfg.env no_faults now uuid
              (complete_upload cfg w now (allowed r) name uuid declared header body d).1
            ≡ lost session_not_found)
  unfolding complete_upload get
  bad_digest-Removes declared query digest calm =
      let path =
        ap
          (λ b.
            if b
            then (fails 400 "DIGEST_INVALID", d)
            else complete_parsed cfg w now name uuid declared (cfg.parse declared) header body d)
          named
        ∙ ap (λ p. complete_parsed cfg w now name uuid declared p header body d) digest in
      subst
        (λ x.
          (x.0 ≡ fails 400 "DIGEST_INVALID")
          × (session_of uuid (load cfg.env no_faults now uuid x.1) ≡ lost session_not_found))
        (sym path)
        (
          refl,
          ap
                (λ x.
                  session_of uuid
                    (load cfg.env no_faults now uuid (abandon cfg.env x now uuid d).1))
                calm
              ∙ ap (session_of uuid) (abandon-lost cfg.env now uuid d),
        )
    where
      named : (declared == "") ≡ false
      named = ground (arith, eq_iff declared "")
