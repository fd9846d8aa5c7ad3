-- ===== src/Upload/Handler/Manifest/Accepts.antt =====
-- What putManifest of internal/handler/registry/registry.go leaves when it answers 201.
use specula.Prelude.{
  ℕ, String, Bool, true, false, not, ◌&&◌, ◌≡◌, ◌≢◌, refl, sym, ◌∙◌, ap, subst, ◌⊎◌, inl, inr,
  Option, none, some, List, [], ◌∷◌, In, arith, eq_iff, length, Bool-cases, In-all, all,
  if◌then◌else◌, ◌==◌,
}
use specula.Prelude.Int.{ℤ}
use specula.Cache.{Object, exists, Put, done, refused, put_blob}
use specula.Cache.Blobs.{put_blob-exists}
use specula.Repo.{Repo}
use specula.Repo.Tags.{Tag, get_tag, put_tag}
use specula.Repo.Tags.Pointers.{put_tag-get}
use specula.Upload.Handler.{Response, fails, allowed, Config}
use specula.Upload.Handler.Manifest.Grows.{
  all_exist-In, hosted-blobs, pointed-blobs, referred-exists, referred-tags,
}
use specula.Upload.Handler.Manifest.{
  Codec, Registry, ManifestFaults, Existence, check_failed, absent, present,
  referenced_blob_digests, ensure_referenced_blobs_exist, is_digest_ref, record_hosted_tag,
  referred, tagged, kept, referenced, digested, bounded, put_manifest, read_limited,
  max_manifest_bytes,
}

module _ (cfg : Config) (codec : Codec) (w : ManifestFaults) (now : ℤ) (r : Repo)
    (name ref : String) (body : List ℕ) where
  -- What the manifest references is stored, and so is an object under the digest `computed`.
  abbrev Stored : String → List Object → Type 0
  Stored computed os =
      ((k : String) → In k (referenced_blob_digests codec body) → exists k os ≡ true)
      × (exists computed os ≡ true)

  -- If the answer is 201, and a tag resolves to the digest.
  abbrev Pushed : String → Response × Registry → Type 0
  Pushed computed out =
      out.0.status ≡ 201
      → Stored computed out.1.disk.blobs
        × (is_digest_ref ref ≡ false
            → (t : Tag) × (get_tag r.id ref out.1.tags ≡ some t) × (t.digest ≡ computed))

  -- A push by digest names the digest of the body.
  abbrev Accepted : Response × Registry → Type 0
  Accepted out =
      (algorithm : String) × Pushed (cfg.digest algorithm body) out
      × (is_digest_ref ref ≡ true → out.0.status ≡ 201 → ref ≡ cfg.digest algorithm body)

  referred-Stored :
      (computed : String) (s : Registry)
      → Stored computed s.disk.blobs
      → Stored computed
          (referred cfg codec w now name computed (codec.referral body) s).1.disk.blobs
  referred-Stored computed s (refs, own) = (
    λ k m. referred-exists cfg codec w now k name computed (codec.referral body) s (refs k m),
    referred-exists cfg codec w now computed name computed (codec.referral body) s own,
  )

  tagged-Pushed :
      (computed : String) (b f : Bool) (s : Registry)
      → is_digest_ref ref ≡ b
      → Stored computed s.disk.blobs
      → Pushed computed (tagged cfg codec w now r name ref computed body b f s)
  unfolding record_hosted_tag
  tagged-Pushed computed true f s q h e =
      (referred-Stored computed s h, λ tag. absurd (apart (sym q ∙ tag)))
    where
      apart : true ≢ false
      apart x = cc
  tagged-Pushed computed false true s q h e = absurd (omega arith)
  tagged-Pushed computed false false s q h e =
      let mirrored = record_hosted_tag cfg w.record_tag now name ref computed s.disk in
      let (t, found, same) = put_tag-get now r.id ref computed s.tags in
      (
        referred-Stored computed
            (record { disk = mirrored; tags = put_tag now r.id ref computed s.tags })
            (subst (Stored computed) (sym (pointed-blobs cfg.has_meta w.record_tag _ s.disk)) h),
        λ tag. (
          t,
          ap (get_tag r.id ref)
                (referred-tags cfg codec w now name computed (codec.referral body) _)
              ∙ found,
          same,
        ),
      )

  kept-Pushed :
      (computed : String) (f : Bool) (p : Put) (s : Registry)
      → put_blob cfg.env.hash computed body (length body) s.disk.blobs ≡ p
      → ((k : String) → In k (referenced_blob_digests codec body) → exists k s.disk.blobs ≡ true)
      → Pushed computed (kept cfg codec w now r name ref computed body f p s)
  kept-Pushed computed true p s q refs e = absurd (omega arith)
  kept-Pushed computed false (refused cause) s q refs e = absurd (omega arith)
  kept-Pushed computed false (done blobs) s q refs e =
      tagged-Pushed computed (is_digest_ref ref) w.put_tag _ refl
        (subst (Stored computed)
          (sym (
            hosted-blobs cfg w.record_blob now name computed (length body)
              (record s.disk { blobs = blobs })))
          (
            λ k m.
                (put_blob-exists cfg.env.hash computed k body (length body) s.disk.blobs blobs q).1
                  (refs k m),
            (put_blob-exists cfg.env.hash computed computed body (length body) s.disk.blobs blobs
                q).0,
          ))
        e

  referenced-Pushed :
      (computed : String) (x : Existence) (s : Registry)
      → ensure_referenced_blobs_exist cfg codec w.probe s.disk.blobs body ≡ x
      → Pushed computed (referenced cfg codec w now r name ref computed body x s)
  unfolding ensure_referenced_blobs_exist
  referenced-Pushed computed check_failed s q e = absurd (omega arith)
  referenced-Pushed computed (absent d) s q e = absurd (omega arith)
  referenced-Pushed computed present s q e =
      kept-Pushed computed w.put _ s refl
        (λ k m.
          all_exist-In cfg.parse w.probe s.disk.blobs (referenced_blob_digests codec body) k q m)
        e

  digested-Accepted :
      (algorithm : Option String) (s : Registry)
      → Accepted (digested cfg codec w now r name ref body algorithm s)
  digested-Accepted none s = ("", (λ e. absurd (omega arith)), λ d e. absurd (omega arith))
  digested-Accepted (some a) s =
      let (pushed, named) = by_match (is_digest_ref ref && not (ref == cfg.digest a body)) refl in
      (a, pushed, named)
    where
      by_match :
          (b : Bool)
          → (is_digest_ref ref && not (ref == cfg.digest a body)) ≡ b
          → let out : Response × Registry =
              if b
              then (fails 400 "DIGEST_INVALID", s)
              else referenced cfg codec w now r name ref
                  (cfg.digest a body)
                  body
                  (ensure_referenced_blobs_exist cfg codec w.probe s.disk.blobs body)
                  s in
            Pushed (cfg.digest a body) out
            × (is_digest_ref ref ≡ true → out.0.status ≡ 201 → ref ≡ cfg.digest a body)
      by_match true q = ((λ e. absurd (omega arith)), λ d e. absurd (omega arith))
      by_match false q = (
        referenced-Pushed (cfg.digest a body) _ s refl,
        λ d e. ground (arith, eq_iff ref (cfg.digest a body)),
      )

module _ (cfg : Config) (codec : Codec) (w : ManifestFaults) (now : ℤ) (r : Repo)
    (name ref : String) (body : List ℕ) where
  bounded-Accepted :
      (o : Option (List ℕ)) (s : Registry)
      → ((x : List ℕ) → o ≡ some x → x ≡ body)
      → Accepted cfg codec w now r name ref body (bounded cfg codec w now r name ref o s)
  bounded-Accepted none s q = ("", (λ e. absurd (omega arith)), λ d e. absurd (omega arith))
  bounded-Accepted (some []) s q = ("", (λ e. absurd (omega arith)), λ d e. absurd (omega arith))
  bounded-Accepted (some (x ∷ xs)) s q =
      subst
        (λ y.
          Accepted cfg codec w now r name ref y
            (bounded cfg codec w now r name ref (some (x ∷ xs)) s))
        (q (x ∷ xs) refl) (digested-Accepted cfg codec w now r name ref (x ∷ xs) _ s)

  read-whole :
      (b : Bool) (x : List ℕ)
      → (if b then none else read_limited max_manifest_bytes body) ≡ some x
      → x ≡ body
  unfolding read_limited
  read-whole b x h = ground arith

  -- When putManifest answers 201 to a caller with push access to `r`, then for some algorithm everything
  -- that the manifest references is stored, and so is an object under the digest of the body. The
  -- reference is that digest, or it is a tag, and the tag resolves to the digest in the repository. Any
  -- calls may fail.
  pub put_manifest-accepts :
      (s : Registry)
      → (put_manifest cfg codec w now (allowed r) name ref body s).0.status ≡ 201
      → let left = (put_manifest cfg codec w now (allowed r) name ref body s).1 in
        (algorithm : String) × (all
            (λ k. exists k left.disk.blobs)
            (referenced_blob_digests codec body)
          ≡ true)
        × (exists (cfg.digest algorithm body) left.disk.blobs ≡ true)
        × ((ref ≡ cfg.digest algorithm body)
            ⊎ ((t : Tag) × (get_tag r.id ref left.tags ≡ some t)
                × (t.digest ≡ cfg.digest algorithm body)))
  unfolding put_manifest
  put_manifest-accepts s e =
      let (algorithm, pushed, named) = by_store cfg.has_blobs in
      let ((refs, own), tag) = pushed e in
      (
        algorithm,
        In-all (λ k. exists k _) (referenced_blob_digests codec body) refs,
        own,
        elim (Bool-cases (is_digest_ref ref)) [
          | inl digest ↦ inl (named digest e)
          | inr plain ↦ inr (tag plain)
        ],
      )
    where
      by_store :
          (b : Bool)
          → Accepted cfg codec w now r name ref body (
              if b
              then bounded cfg codec w now r name ref
                  (if w.read_body then none else read_limited max_manifest_bytes body)
                  s
              else (fails 501 "UNSUPPORTED", s))
      by_store false = ("", (λ e. absurd (omega arith)), λ d e. absurd (omega arith))
      by_store true = bounded-Accepted _ s (λ x q. read-whole w.read_body x q)
