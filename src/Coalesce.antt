-- ===== src/Coalesce.antt =====
-- internal/coalesce/locker.go: the in-process Locker, one function for each stretch of code that runs
-- under the mutex. A token `local-n` is its number n. A channel that is only ever closed is its number,
-- and the closed ones are listed; a timer of time.AfterFunc that has not been stopped and has not
-- fired is in `timers`.
pub mod Calls
pub mod Wakes
pub mod Live
pub mod Fenced
use specula.Prelude.{
  ℕ, ◌+◌, String, Bool, not, ◌&&◌, Option, none, some, List, [], ◌∷◌, keep, eqb, if◌then◌else◌,
}
use specula.Prelude.Int.{ℤ, pos, ◌+ℤ◌, ltb_ℤ}
use specula.Org.Store.{Slot, lookup, erase, insert}

pub record LockEntry : Type 0 where
  pub token : ℕ
  pub expires : Option ℤ
  pub release : ℕ
  pub timer : Option ℕ

-- What a timer will call evictExpired with.
pub record Timer : Type 0 where
  pub id : ℕ
  pub key : String
  pub token : ℕ

pub record LocalLocker : Type 0 where
  pub token_seq : ℕ
  pub channels : ℕ
  pub closed : List ℕ
  pub timer_seq : ℕ
  pub timers : List Timer
  pub held : List (Slot LockEntry)

pub record LocalLock : Type 0 where
  pub key : String
  pub token : ℕ

abbrev pub new_local_locker : LocalLocker
new_local_locker = record {
  token_seq = 0;
  channels = 0;
  closed = [];
  timer_seq = 0;
  timers = [];
  held = [];
}

unfoldable pub new_token : LocalLocker → ℕ × LocalLocker
new_token l = (l.token_seq + 1, record l { token_seq = l.token_seq + 1 })

-- One pass of the loop of Acquire under the mutex: the lock, or the channel to wait on.
pub data Answer : Type 0 where
  locked : LocalLock → Answer
  wait : ℕ → Answer

abbrev pub untimed : String → ℕ → LocalLocker → LocalLocker
untimed key token l = record l {
  channels = l.channels + 1;
  held =
      insert key (record { token = token; expires = none; release = l.channels; timer = none })
        l.held;
}

abbrev pub timed : ℤ → ℤ → String → ℕ → LocalLocker → LocalLocker
timed now ttl key token l = record l {
  channels = l.channels + 1;
  timer_seq = l.timer_seq + 1;
  timers = record { id = l.timer_seq; key = key; token = token } ∷ l.timers;
  held =
      insert key
        (record {
          token = token;
          expires = some (now +ℤ ttl);
          release = l.channels;
          timer = some l.timer_seq;
        })
        l.held;
}

abbrev pub acquired : ℤ → ℤ → String → ℕ → Option LockEntry → LocalLocker → Answer × LocalLocker
acquired now ttl key token (some entry) l = (wait entry.release, l)
acquired now ttl key token none l = (
  locked (record { key = key; token = token }),
  if ltb_ℤ (pos 0) ttl then timed now ttl key token l else untimed key token l,
)

unfoldable pub acquire : ℤ → ℤ → String → ℕ → LocalLocker → Answer × LocalLocker
acquire now ttl key token l = acquired now ttl key token (lookup key l.held) l

-- The waiters are woken and the entry goes.
abbrev pub freed : String → LockEntry → LocalLocker → LocalLocker
freed key entry l = record l { closed = entry.release ∷ l.closed; held = erase key l.held }

abbrev pub evicted : String → ℕ → Option LockEntry → LocalLocker → LocalLocker
evicted key token none l = l
evicted key token (some entry) l = if eqb entry.token token then freed key entry l else l

unfoldable pub evict_expired : String → ℕ → LocalLocker → LocalLocker
evict_expired key token l = evicted key token (lookup key l.held) l

abbrev pub stopped : Option ℕ → LocalLocker → LocalLocker
stopped none l = l
stopped (some t) l = record l { timers = keep (λ x. not (eqb x.id t)) l.timers }

pub data Error : Type 0 where
  ownership_lost : Error

abbrev pub released : LocalLock → Option LockEntry → LocalLocker → Option Error × LocalLocker
released lk none l = (none, l)
released lk (some entry) l =
    if not (eqb entry.token lk.token)
    then (some ownership_lost, l)
    else (none, freed lk.key entry (stopped entry.timer l))

unfoldable pub release : LocalLock → LocalLocker → Option Error × LocalLocker
release lk l = released lk (lookup lk.key l.held) l
