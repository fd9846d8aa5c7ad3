-- ===== src/Coalesce/Calls.antt =====
-- The goroutines that share one Locker of internal/coalesce/locker.go, interleaved in any order: a step
-- is one goroutine's next stretch of code, or the firing of a timer.
use specula.Prelude.{ℕ, String, ◌≡◌, eqb, In, if◌then◌else◌, keep, not}
use specula.Prelude.Int.{ℤ}
use specula.Coalesce.{
  Timer, LocalLocker, LocalLock, new_local_locker, new_token, Answer, locked, wait, acquire,
  evict_expired, release,
}

-- A call of Acquire with the token that it drew.
pub record Call : Type 0 where
  pub key : String
  pub ttl : ℤ
  pub token : ℕ

-- Where a goroutine is: outside, at the top of the loop, waiting on a channel, or with a lock that it
-- has not released.
pub data Phase : Type 0 where
  idle : Phase
  trying : Call → Phase
  waiting : Call → ℕ → Phase
  holding : LocalLock → Phase

pub record System : Type 0 where
  pub locker : LocalLocker
  pub pc : ℕ → Phase

abbrev pub update : (ℕ → Phase) → ℕ → Phase → ℕ → Phase
update f i p j = if eqb i j then p else f j

abbrev pub answered : Call → Answer → Phase
answered c (locked lk) = holding lk
answered c (wait ch) = waiting c ch

pub data Step (s : System) : System → Type 0 where
  called :
      (i : ℕ) (key : String) (ttl : ℤ)
      → s.pc i ≡ idle
      → Step s (record {
        locker = (new_token s.locker).1;
        pc =
            update s.pc i
              (trying (record { key = key; ttl = ttl; token = (new_token s.locker).0 }));
      })
  tries :
      (i : ℕ) (now : ℤ) (c : Call)
      → s.pc i ≡ trying c
      → Step s (record {
        locker = (acquire now c.ttl c.key c.token s.locker).1;
        pc = update s.pc i (answered c (acquire now c.ttl c.key c.token s.locker).0);
      })
  wakes :
      (i : ℕ) (c : Call) (ch : ℕ)
      → s.pc i ≡ waiting c ch
      → In ch s.locker.closed
      → Step s (record s { pc = update s.pc i (trying c) })
  -- The context is done, at the top of the loop or while the call waits.
  cancelled_trying :
      (i : ℕ) (c : Call) → s.pc i ≡ trying c → Step s (record s { pc = update s.pc i idle })
  cancelled_waiting :
      (i : ℕ) (c : Call) (ch : ℕ)
      → s.pc i ≡ waiting c ch
      → Step s (record s { pc = update s.pc i idle })
  releases :
      (i : ℕ) (lk : LocalLock)
      → s.pc i ≡ holding lk
      → Step s (record { locker = (release lk s.locker).1; pc = update s.pc i idle })
  fires :
      (t : Timer)
      → In t s.locker.timers
      → Step s (record s {
        locker =
            evict_expired t.key t.token
              (record (s.locker) { timers = keep (λ x. not (eqb x.id t.id)) s.locker.timers });
      })

pub data Steps (s : System) : System → Type 0 where
  stays : Steps s s
  later : {t u : System} → Steps s t → Step t u → Steps s u

-- Nobody has called yet.
abbrev pub init : System
init = record { locker = new_local_locker; pc = λ _. idle }
