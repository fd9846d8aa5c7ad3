-- ===== src/Examples/Locking.antt =====
-- Two goroutines and one key.
use specula.Prelude.{ℕ, ◌≡◌, refl, some, inl, arith}
use specula.Prelude.Int.{pos}
use specula.Coalesce.{new_token, acquire, evict_expired, release, ownership_lost}
use specula.Coalesce.Calls.{Call, System, Step, called, tries, fires, Steps, stays, later, init}
use specula.Coalesce.Fenced.{release-Fenced}
use specula.Coalesce.Live.{Obtains, waiting-Obtains}

abbrev call : ℕ → Call
call n = record { key = "blob"; ttl = pos 30; token = n }

record Run : Type 0 where
  now : System
  trace : Steps init now

abbrev start : Run
start = record { now = init; trace = stays }

abbrev next : (r : Run) {t : System} → Step r.now t → Run
next r {t} st = record { now = t; trace = later r.trace st }

-- The first goroutine has the lock, and the second one has found it taken.
abbrev contended : Run
unfolding new_token acquire
contended =
    let a = next start (called 0 "blob" (pos 30) refl) in
    let b = next a (tries 0 (pos 100) (call 1) refl) in
    let c = next b (called 1 "blob" (pos 30) refl) in next c (tries 1 (pos 101) (call 2) refl)

waiting-Obtains_example : Obtains 1 (call 2) contended.now
unfolding new_token acquire
waiting-Obtains_example = waiting-Obtains (pos 102) contended.now contended.trace 1 (call 2) 0 refl

-- The first lock has expired, and the second goroutine has taken its place.
abbrev replaced : Run
unfolding new_token acquire evict_expired
replaced =
    let a = next start (called 0 "blob" (pos 30) refl) in
    let b = next a (tries 0 (pos 100) (call 1) refl) in
    let c = next b (fires (record { id = 0; key = "blob"; token = 1 }) (inl refl)) in
    let d = next c (called 1 "blob" (pos 30) refl) in next d (tries 1 (pos 140) (call 2) refl)

release-Fenced_example :
    release (record { key = "blob"; token = 1 }) replaced.now.locker
    ≡ (some ownership_lost, replaced.now.locker)
unfolding new_token acquire evict_expired
release-Fenced_example =
    release-Fenced replaced.now replaced.trace 0 1 "blob" 1 2 _ (omega arith) refl refl refl refl
