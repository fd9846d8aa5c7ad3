-- ===== src/Upload/Handler/Deletes/Untags.antt =====
-- After a manifest is deleted by its digest, nothing in the repository resolves to it: registry.go of
-- internal/handler/registry.
use specula.Prelude.{
  String, Bool, true, false, ◌&&◌, ◌≡◌, ◌≢◌, refl, sym, ◌∙◌, ap, subst, inl, inr, List, [], ◌∷◌, In,
  In-any, any, arith, eq_iff, Bool-cases, ◌==◌, if◌then◌else◌,
}
use specula.Repo.{Repo}
use specula.Repo.Tags.{Tag, is_tag, list_tags}
use specula.Repo.Tags.Pointers.{In-list_tags, In-delete_tag}
use specula.Cache.{exists}
use specula.Cache.Blobs.{exists-remove}
use specula.Upload.{Disk}
use specula.Upload.Handler.{Config, allowed}
use specula.Upload.Handler.Manifest.{Registry, is_digest_ref}
use specula.Upload.Handler.Deletes.{
  DeleteFaults, untagged, drop_tags, pointers_dropped, bytes_removed, remove_bytes,
  delete_manifest_by_digest, deleted, untag, delete_manifest,
}

not_tagged : (u t : Tag) (id : String) → is_tag id t.tag u ≡ false → u ≡ t → u.repo_id ≡ id → ⊥
unfolding is_tag
not_tagged u t id q here own =
    let same : u.tag ≡ t.tag = ap (λ x. x.tag) here in
    ground (arith, eq_iff u.repo_id id, eq_iff u.tag t.tag)

module _ (cfg : Config) (w : DeleteFaults) (r : Repo) (name digest : String) where
  -- The tags that are left were there, and none of them is a listed tag of the digest.
  abbrev Left : List Tag → Registry → Bool × Registry → Type 0
  Left ts s out =
      out.0 ≡ false
      → (u : Tag) → In u out.1.tags
      → In u s.tags × (In u ts → u.repo_id ≡ r.id → u.digest ≢ digest)

  drop_tags-Left : (ts : List Tag) (s : Registry) → Left ts s (drop_tags cfg w r name digest ts s)
  unfolding drop_tags
  drop_tags-Left [] s = λ e u m. (m, λ x. elim x [ ])
  drop_tags-Left (t ∷ ts) s = by_digest (λ x. drop_tags-Left ts x) (t.digest == digest) refl
    where
      by_fault :
          ((x : Registry) → Left ts x (drop_tags cfg w r name digest ts x))
          → (f : Bool) → t.digest ≡ digest
          → Left (t ∷ ts) s (elim f [
            | true ↦ (true, s)
            | false ↦ drop_tags cfg w r name digest ts (untagged cfg w r name t.tag s)
          ])
      by_fault rec true same = λ e. absurd (ground arith)
      by_fault rec false same = λ e u m.
          let (rest, later) = rec (untagged cfg w r name t.tag s) e u m in
          let (old, other) = In-delete_tag u r.id t.tag s.tags rest in
          (
            old,
            λ x own. elim x [
              | inl here ↦ absurd (not_tagged u t r.id other here own)
              | inr there ↦ later there own
            ],
          )

      by_digest :
          ((x : Registry) → Left ts x (drop_tags cfg w r name digest ts x))
          → (b : Bool) → (t.digest == digest) ≡ b
          → Left (t ∷ ts) s (elim b [
            | false ↦ drop_tags cfg w r name digest ts s
            | true ↦ elim (w.delete_tag t.tag) [
              | true ↦ (true, s)
              | false ↦ drop_tags cfg w r name digest ts (untagged cfg w r name t.tag s)
            ]
          ])
      by_digest rec true q = by_fault rec (w.delete_tag t.tag) ((eq_iff t.digest digest).0 q)
      by_digest rec false q = λ e u m.
          let (old, later) = rec s e u m in
          (
            old,
            λ x own. elim x [
              | inl here ↦ λ hit.
                  absurd
                    (ground (arith, eq_iff t.digest digest, sym (ap (λ x. x.digest) here) ∙ hit))
              | inr there ↦ later there own
            ],
          )

  -- No row of the repository has the digest, and its bytes are gone.
  abbrev Gone : Bool × Registry → Type 0
  Gone out =
      out.0 ≡ false
      → ((u : Tag) → In u out.1.tags → u.repo_id ≡ r.id → u.digest ≢ digest)
        × (cfg.has_blobs ≡ true → exists digest out.1.disk.blobs ≡ false)

  bytes-gone :
      (x : Disk) (b f : Bool)
      → cfg.has_blobs ≡ b
      → (remove_bytes cfg f digest x).0 ≡ false
      → cfg.has_blobs ≡ true
      → exists digest (remove_bytes cfg f digest x).1.blobs ≡ false
  bytes-gone x false f q e stored = absurd (ground arith)
  bytes-gone x true true q e stored =
      absurd (apart (sym (ap (λ c. (bytes_removed c true digest x).0) stored) ∙ e))
    where
      apart : true ≢ false
      apart z = cc
  bytes-gone x true false q e stored =
      ap (λ c. exists digest (bytes_removed c false digest x).1.blobs) stored
      ∙ exists-remove digest x.blobs

  dropped-Gone :
      (out : Bool × Registry)
      → (out.0 ≡ false → (u : Tag) → In u out.1.tags → u.repo_id ≡ r.id → u.digest ≢ digest)
      → Gone (pointers_dropped cfg w name digest out)
  dropped-Gone (true, s) h e = absurd (ground arith)
  dropped-Gone (false, s) h e = (h refl, bytes-gone _ cfg.has_blobs w.delete_blob refl e)

  by_digest-Gone : (s : Registry) → Gone (delete_manifest_by_digest cfg w r name digest s)
  unfolding delete_manifest_by_digest
  by_digest-Gone s = by_list w.list_tags
    where
      found : Bool × Registry
      found = drop_tags cfg w r name digest (list_tags r.id s.tags) s

      cleared :
          found.0 ≡ false → (u : Tag) → In u found.1.tags → u.repo_id ≡ r.id → u.digest ≢ digest
      cleared e u m own =
          let (old, later) = drop_tags-Left (list_tags r.id s.tags) s e u m in
          later (In-list_tags u r.id s.tags old own) own

      by_list :
          (f : Bool) → Gone (if f then (true, s) else pointers_dropped cfg w name digest found)
      by_list true = λ e. absurd (ground arith)
      by_list false = dropped-Gone found cleared

  accepted-Gone :
      (out : Bool × Registry)
      → Gone out
      → (deleted out).0.status ≡ 202
      → Gone (false, (deleted out).1)
  accepted-Gone (true, s) h q = absurd (omega arith)
  accepted-Gone (false, s) h q = h

  -- When deleteManifest answers 202 for a digest, no tag of the repository resolves to the digest, whatever
  -- the tags were, and the bytes are gone from the blob store, if the handler has one.
  pub delete_manifest-Gone :
      (s : Registry)
      → is_digest_ref digest ≡ true
      → cfg.has_blobs ≡ true
      → (delete_manifest cfg w (allowed r) name digest s).0.status ≡ 202
      → let left = (delete_manifest cfg w (allowed r) name digest s).1 in
        (any (λ u. u.repo_id == r.id && u.digest == digest) left.tags ≡ false)
        × (exists digest left.disk.blobs ≡ false)
  unfolding delete_manifest
  delete_manifest-Gone s by_ref stored e =
      let same =
        ap
          (λ b. deleted (
            if b
            then delete_manifest_by_digest cfg w r name digest s
            else untag cfg w r name digest s))
          by_ref in
      let (rows, bytes) =
        accepted-Gone (delete_manifest_by_digest cfg w r name digest s) (by_digest-Gone s)
          (sym (ap (λ x. x.0.status) same) ∙ e) refl in
      subst
        (λ x.
          (any (λ u. u.repo_id == r.id && u.digest == digest) x.1.tags ≡ false)
          × (exists digest x.1.disk.blobs ≡ false))
        (sym same) (untouched _ rows, bytes stored)
    where
      untouched :
          (ts : List Tag)
          → ((u : Tag) → In u ts → u.repo_id ≡ r.id → u.digest ≢ digest)
          → any (λ u. u.repo_id == r.id && u.digest == digest) ts ≡ false
      untouched ts rows =
          elim (Bool-cases (any (λ u. u.repo_id == r.id && u.digest == digest) ts)) [
            | inr clear ↦ clear
            | inl hit ↦
                let (u, m, q) = In-any (λ u. u.repo_id == r.id && u.digest == digest) ts hit in
                absurd (ground (arith, rows u m, eq_iff u.repo_id r.id, eq_iff u.digest digest))
          ]
