-- ===== src/Upload/Handler/Manifest/Grows.antt =====
-- The blobs that the writes of a manifest push keep: registry.go and discovery.go of
-- internal/handler/registry.
use specula.Prelude.{
  ℕ, String, Bool, true, false, ◌&&◌, ◌≡◌, refl, sym, ◌∙◌, ap, subst, inl, inr, Option, none, some,
  List, [], ◌∷◌, In, arith, length, Option-cases, if◌then◌else◌, ◌==◌,
}
use specula.Prelude.Int.{ℤ}
use specula.Artifact.{MutableEntry}
use specula.Cache.{Object, exists, Put, done, refused, put_blob}
use specula.Cache.Blobs.{put_blob-exists}
use specula.Upload.{Disk}
use specula.Upload.Handler.{Config, record_hosted_blob, hosted}
use specula.Upload.Handler.Manifest.{
  Descriptor, Referral, Codec, Registry, ManifestFaults, present, all_exist, pointed, indexed,
  store_referrers, record_referrer, load_referrers, add_descriptor, referred,
}

pub all_exist-In :
    (parse : String → Option String) (probe : String → Bool) (os : List Object) (ds : List String)
    (k : String)
    → all_exist parse probe os ds ≡ present
    → In k ds
    → exists k os ≡ true
all_exist-In parse probe os [] k h m = elim m [ ]
all_exist-In parse probe os (d ∷ ds) k h m = elim (Option-cases (parse d)) [
  | inl bad ↦ absurd (ground arith)
  | inr (a, good) ↦
      let (here, rest) = split in
      elim m [
        | inl same ↦ subst (λ x. exists x os ≡ true) (sym same) here
        | inr there ↦ all_exist-In parse probe os ds k rest there
      ]
]
  where
    split : (exists d os ≡ true) × (all_exist parse probe os ds ≡ present)
    split = ground arith

pub hosted-blobs :
    (cfg : Config) (f : Option String) (now : ℤ) (name digest : String) (size : ℕ) (d : Disk)
    → (record_hosted_blob cfg f now name digest size d).blobs ≡ d.blobs
unfolding record_hosted_blob
hosted-blobs cfg f now name digest size d = by_meta cfg.has_meta f
  where
    by_meta : (m : Bool) (f : Option String) → (hosted m f now name digest size d).blobs ≡ d.blobs
    by_meta false f = refl
    by_meta true (some e) = refl
    by_meta true none = refl

pub pointed-blobs : (m f : Bool) (e : MutableEntry) (d : Disk) → (pointed m f e d).blobs ≡ d.blobs
pointed-blobs true false e d = refl
pointed-blobs true true e d = refl
pointed-blobs false f e d = refl

module _ (cfg : Config) (codec : Codec) (w : ManifestFaults) (now : ℤ) (k : String) where
  indexed-exists :
      (name subject digest : String) (bytes : List ℕ) (f : Bool) (p : Put) (d : Disk)
      → put_blob cfg.env.hash digest bytes (length bytes) d.blobs ≡ p
      → exists k d.blobs ≡ true
      → exists k (indexed cfg w now name subject digest (length bytes) f p d).blobs ≡ true
  indexed-exists name subject digest bytes true p d q h = h
  indexed-exists name subject digest bytes false (refused cause) d q h = h
  indexed-exists name subject digest bytes false (done blobs) d q h =
      ap (exists k) (
        pointed-blobs true w.point_index _ _
        ∙ hosted-blobs cfg w.record_index now name digest (length bytes)
            (record d { blobs = blobs }))
      ∙ (put_blob-exists cfg.env.hash digest k bytes (length bytes) d.blobs blobs q).1 h

  referrer-exists :
      (name : String) (desc : Descriptor) (subject : String) (d : Disk)
      → exists k d.blobs ≡ true
      → exists k (record_referrer cfg codec w now name desc subject d).blobs ≡ true
  unfolding record_referrer store_referrers
  referrer-exists name desc subject d h = by_config (cfg.has_meta && cfg.has_blobs)
    where
      index : List Descriptor
      index = add_descriptor desc (load_referrers codec w name subject d)

      by_config :
          (b : Bool)
          → exists k (if b then store_referrers cfg codec w now name subject index d else d).blobs
            ≡ true
      by_config false = h
      by_config true =
          indexed-exists name subject (cfg.digest "sha256" (codec.encode_index index))
            (codec.encode_index index) w.put_index _ d refl h

  pub referred-exists :
      (name computed : String) (m : Option Referral) (s : Registry)
      → exists k s.disk.blobs ≡ true
      → exists k (referred cfg codec w now name computed m s).1.disk.blobs ≡ true
  referred-exists name computed none s h = h
  referred-exists name computed (some m) s h = by_subject (m.subject == "")
    where
      by_subject :
          (b : Bool)
          → exists k
              (if b then s else record s {
                disk =
                    record_referrer cfg codec w now name
                      (record m.descriptor { digest = computed })
                      m.subject
                      s.disk;
              }).disk.blobs
            ≡ true
      by_subject true = h
      by_subject false =
          referrer-exists name (record m.descriptor { digest = computed }) m.subject s.disk h

pub referred-tags :
    (cfg : Config) (codec : Codec) (w : ManifestFaults) (now : ℤ) (name computed : String)
    (m : Option Referral) (s : Registry)
    → (referred cfg codec w now name computed m s).1.tags ≡ s.tags
referred-tags cfg codec w now name computed none s = refl
referred-tags cfg codec w now name computed (some m) s = by_subject (m.subject == "")
  where
    by_subject :
        (b : Bool)
        → (if b then s else record s {
          disk =
              record_referrer cfg codec w now name
                (record m.descriptor { digest = computed })
                m.subject
                s.disk;
        }).tags
          ≡ s.tags
    by_subject true = refl
    by_subject false = refl
