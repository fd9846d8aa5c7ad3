-- ===== src/Cache/Fresh/Windows.antt =====
-- The windows of internal/cache/xfetch.go: fresh, then soft-expired, then expired.
use specula.Prelude.{ℕ, ◌+◌, ◌*◌, ◌<◌, ◌≡◌, ◌↔◌, true, false, arith}
use specula.Prelude.Int.{ℤ, pos, ◌+ℤ◌, ◌*ℤ◌, ◌≤ℤ◌, wrap64_pos}
use specula.Artifact.{MutableEntry}
use specula.Meta.{second}
use specula.Cache.Fresh.{Floats, is_hard_expired_at, is_mutable_fresh_at}

-- An entry that counts as fresh has not expired, whatever number is drawn.
pub fresh-not_expired :
    (f : Floats) (e : MutableEntry) (now : ℤ) (u : f.Float)
    → is_mutable_fresh_at f e now u ≡ true
    → is_hard_expired_at e now ≡ false
unfolding is_mutable_fresh_at is_hard_expired_at
fresh-not_expired f e now u h = ground arith

pos_times : (m n : ℕ) → pos m *ℤ pos n ≡ pos (m * n)
unfolding ◌*ℤ◌
pos_times m n = ground arith

-- While the time to live in nanoseconds fits an int64, an entry expires exactly that many seconds
-- after it was fetched.
pub hard_expired-exact :
    (e : MutableEntry) (now : ℤ) (ttl : ℕ)
    → e.ttl_seconds ≡ pos (ttl + 1)
    → (ttl + 1) * second < 9223372036854775808
    → (is_hard_expired_at e now ≡ true) ↔ (e.fetched_at +ℤ pos ((ttl + 1) * second) ≤ℤ now)
unfolding is_hard_expired_at
hard_expired-exact e now ttl t fits =
    rw (t, pos_times (ttl + 1) second, wrap64_pos ((ttl + 1) * second) fits) (ground arith)

-- Once expired, an entry stays expired.
pub expired-stays :
    (e : MutableEntry) (now later : ℤ)
    → now ≤ℤ later
    → is_hard_expired_at e now ≡ true
    → is_hard_expired_at e later ≡ true
unfolding is_hard_expired_at
expired-stays e now later le h = ground arith
