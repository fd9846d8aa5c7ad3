-- ===== src/Cache/Fresh.antt =====
-- internal/cache/xfetch.go: when a mutable entry is fresh, soft-expired or expired. Durations are
-- Go's int64 nanoseconds, which wrap. The float arithmetic is a parameter.
pub mod Windows
use specula.Prelude.{ℕ, ◌*◌, ◌/◌, ◌^◌, ◌<◌, ◌≡◌, Bool, true, false, not, if◌then◌else◌}
use specula.Prelude.Int.{
  ℤ, pos, negsuc, minus_one, ◌+ℤ◌, ◌*ℤ◌, ◌≤ℤ◌, ltb_ℤ, leb_ℤ, eqb_ℤ, wrap64, pos_part,
}
use specula.Artifact.{MutableEntry}
use specula.Meta.{second}

-- Go's float64 as far as this file uses it: the draw U, the bounds that it is clamped to, and
-- time.Duration(float64(delta) * xfetchBeta * math.Log(u)).
pub record Floats : Type 1 where
  pub Float : Type 0
  pub not_positive : Float → Bool
  pub at_least_one : Float → Bool
  pub tiny : Float
  pub almost_one : Float
  pub scaled_log : ℤ → Float → ℤ

abbrev pub ttl_always_revalidate : ℤ
ttl_always_revalidate = pos 0

-- fetchedAt.Add(time.Duration(ttl) * time.Second)
unfoldable pub expiry_of : ℤ → ℤ → ℤ
unfolding ◌+ℤ◌ ◌*ℤ◌ wrap64
expiry_of fetched_at ttl = fetched_at +ℤ wrap64 (ttl *ℤ pos second)

abbrev pub min_delta : ℕ
min_delta = 100 * 10 ^ 6

-- One percent of the time to live, at least 100 milliseconds.
unfoldable pub xfetch_delta : ℤ → ℕ
unfolding ◌*ℤ◌ wrap64
xfetch_delta ttl =
    let d = wrap64 (ttl *ℤ pos second) in
    if ltb_ℤ d (pos min_delta) then min_delta else at_least (pos_part d / 100)
  where
    at_least : ℕ → ℕ
    at_least n = if ltb_ℤ (pos n) (pos min_delta) then min_delta else n

unfoldable pub is_hard_expired_at : MutableEntry → ℤ → Bool
unfolding expiry_of
is_hard_expired_at e now =
    if eqb_ℤ e.ttl_seconds minus_one
    then false
    else if eqb_ℤ e.ttl_seconds ttl_always_revalidate
    then true
    else not (ltb_ℤ now (expiry_of e.fetched_at e.ttl_seconds))

module _ (f : Floats) where
  unfoldable pub clamp : f.Float → f.Float
  clamp u =
      let v = if f.not_positive u then f.tiny else u in if f.at_least_one v then f.almost_one else v

  unfoldable pub xfetch_should_refresh : ℤ → ℤ → ℤ → f.Float → Bool
  unfolding expiry_of xfetch_delta clamp
  xfetch_should_refresh fetched_at ttl now u =
      if leb_ℤ ttl (pos 0)
      then true
      else if not (ltb_ℤ now (expiry_of fetched_at ttl))
      then true
      else not
          (ltb_ℤ now (expiry_of fetched_at ttl +ℤ f.scaled_log (pos (xfetch_delta ttl)) (clamp u)))

  unfoldable pub is_mutable_fresh_at : MutableEntry → ℤ → f.Float → Bool
  unfolding xfetch_should_refresh
  is_mutable_fresh_at e now u =
      if eqb_ℤ e.ttl_seconds minus_one
      then true
      else if eqb_ℤ e.ttl_seconds ttl_always_revalidate
      then false
      else not (xfetch_should_refresh e.fetched_at e.ttl_seconds now u)
