-- ===== src/Cache/Lookup/Staleness.antt =====
-- `Lookup` and `LookupStale` of a mutable reference.
use specula.Prelude.{
  String, ◌≡◌, inl, inr, Bool, true, false, Option, none, some, refl, arith, Option-cases, not, ap,
  sym, subst,
}
use specula.Prelude.Int.{ℤ}
use specula.Artifact.{ArtifactRef, CacheEntry, MutableEntry}
use specula.Meta.{get_mutable}
use specula.Cache.{Cache, Faults, Error, ok, exists}
use specula.Cache.Fresh.{Floats, is_hard_expired_at, is_mutable_fresh_at}
use specula.Cache.Lookup.{
  check_digest_pin, guarded, found_mutable, entry_of, lookup_mutable, lookup, lookup_stale,
  mutable_key,
}

guarded-entry :
    (what : String) (fault : Option String) (there : Bool) (pin : Option Error)
    (entry other e : CacheEntry)
    → guarded what fault there pin entry ≡ ok (some e)
    → (entry ≡ e) × (guarded what fault there pin other ≡ ok (some other))
guarded-entry what (some x) there pin entry other e h = cc
guarded-entry what none false pin entry other e h = cc
guarded-entry what none true none entry other e h = (cc, refl)
guarded-entry what none true (some x) entry other e h = cc

found_mutable-entry :
    (w : Faults) (ref : ArtifactRef) (c : Cache) (me : MutableEntry) (soft : Bool) (e : CacheEntry)
    → found_mutable w ref c me soft ≡ ok (some e)
    → (entry_of ref me soft ≡ e)
      × (found_mutable w ref c me false ≡ ok (some (entry_of ref me false)))
unfolding found_mutable
found_mutable-entry w ref c me soft e h = ground (
  arith,
  guarded-entry "mutable blob exists" none true (check_digest_pin ref me.digest)
      (entry_of ref me soft) (entry_of ref me false) e,
  guarded-entry "mutable blob exists" w.blob_exists (exists me.digest c.blobs)
      (check_digest_pin ref me.digest) (entry_of ref me soft) (entry_of ref me false) e,
)

stale_found :
    (f : Floats) (w : Faults) (now : ℤ) (u : f.Float) (ref : ArtifactRef) (c : Cache)
    (me : MutableEntry) (e : CacheEntry)
    → w.get_mutable ≡ none
    → get_mutable (mutable_key ref) c.mutables ≡ some me
    → found_mutable w ref c me false ≡ ok (some e)
    → lookup_stale f w now u ref c ≡ ok (some e)
unfolding lookup_stale lookup_mutable
stale_found f w now u ref c me e g found plain = ground arith

-- What `Lookup` returns for a mutable reference has not expired, it is marked exactly when it is no
-- longer fresh, and `LookupStale` returns the same entry without the mark.
pub lookup-mutable :
    (f : Floats) (w : Faults) (now : ℤ) (u : f.Float) (ref : ArtifactRef) (c : Cache)
    (e : CacheEntry)
    → ref.mutable ≡ true
    → lookup f w now u ref c ≡ ok (some e)
    → (me : MutableEntry) × (get_mutable (mutable_key ref) c.mutables ≡ some me)
      × (is_hard_expired_at me now ≡ false)
      × (e.soft_expired ≡ not (is_mutable_fresh_at f me now u))
      × (lookup_stale f w now u ref c ≡ ok (some (record e { soft_expired = false })))
unfolding lookup lookup_mutable
lookup-mutable f w now u ref c e m h =
    elim (Option-cases (get_mutable (mutable_key ref) c.mutables)) [
      | inl absent ↦ ground arith
      | inr (me, found) ↦
          let fresh = is_mutable_fresh_at f me now u in
          let kept : found_mutable w ref c me (not fresh) ≡ ok (some e) = ground arith in
          let live : is_hard_expired_at me now ≡ false = ground arith in
          let ok_get : w.get_mutable ≡ none = ground arith in
          let (same, plain) = found_mutable-entry w ref c me (not fresh) e kept in
          (
            me,
            found,
            live,
            ap (λ (x : CacheEntry). x.soft_expired) (sym same),
            subst
                (λ (x : CacheEntry).
                  lookup_stale f w now u ref c ≡ ok (some (record x { soft_expired = false })))
                same (stale_found f w now u ref c me (entry_of ref me false) ok_get found plain),
          )
    ]
