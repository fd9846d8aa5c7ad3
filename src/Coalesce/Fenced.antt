-- ===== src/Coalesce/Fenced.antt =====
-- The tokens of internal/coalesce/locker.go, and what they keep an old holder from.
use specula.Prelude.{
  ℕ, ◌+◌, ◌≤◌, String, Bool, true, false, ◌≡◌, ◌≢◌, refl, sym, ap, ◌∙◌, subst, ◌⊎◌, inl, inr,
  Option, none, some, arith, eqb, Bool-cases, if◌then◌else◌,
}
use specula.Prelude.Int.{ℤ, pos, ltb_ℤ}
use specula.Org.Store.{lookup}
use specula.Coalesce.{
  ownership_lost, LockEntry, LocalLocker, LocalLock, new_token, acquire, acquired, timed, untimed,
  evicted, evict_expired, stopped, release, released,
}
use specula.Coalesce.Calls.{
  Call, Phase, idle, trying, waiting, holding, System, update, answered, Step, called, tries, wakes,
  cancelled_trying, cancelled_waiting, releases, fires, Steps, stays, later, init,
}

-- The token that a goroutine carries.
abbrev token_of : Phase → Option ℕ
token_of idle = none
token_of (trying c) = some c.token
token_of (waiting c ch) = some c.token
token_of (holding lk) = some lk.token

record IsDrawn (s : System) : Type 0 where
  bounded : (i n : ℕ) → token_of (s.pc i) ≡ some n → n ≤ s.locker.token_seq
  unique : (i j n : ℕ) → token_of (s.pc i) ≡ some n → token_of (s.pc j) ≡ some n → i ≡ j

module _ (s : System) (drawn : IsDrawn s) (i : ℕ) (p : Phase) (l : LocalLocker) where
  -- A step after which the goroutine carries what it carried, or nothing.
  carries :
      (l.token_seq ≡ s.locker.token_seq)
      → ((n : ℕ) → token_of p ≡ some n → token_of (s.pc i) ≡ some n)
      → IsDrawn (record { locker = l; pc = update s.pc i p })
  carries seq old = record {
    bounded = λ j n q. subst (λ m. n ≤ m) (sym seq) (drawn.bounded j n (before j n q));
    unique = λ j k n q r. drawn.unique j k n (before j n q) (before k n r);
  }
    where
      before : (j n : ℕ) → token_of (update s.pc i p j) ≡ some n → token_of (s.pc j) ≡ some n
      before j n q = elim (Bool-cases (eqb i j)) [
        | inl same ↦
            let one : i ≡ j = ground arith in
            ap (λ x. token_of (s.pc x)) (sym one) ∙ old n (ground arith)
        | inr other ↦ ground arith
      ]

  -- A step after which the goroutine carries the next token.
  draws :
      (l.token_seq ≡ s.locker.token_seq + 1)
      → (token_of p ≡ some (s.locker.token_seq + 1))
      → IsDrawn (record { locker = l; pc = update s.pc i p })
  draws seq new = record {
    bounded = λ j n q. elim (cases j n q) [
      | inl (mine, top) ↦ omega arith
      | inr (other, old) ↦ let low = drawn.bounded j n old in omega arith
    ];
    unique = λ j k n q r. elim (cases j n q) [
      | inl (a, top) ↦ elim (cases k n r) [
        | inl (b, top') ↦ omega arith
        | inr (b, old) ↦ let low = drawn.bounded k n old in absurd (omega arith)
      ]
      | inr (a, old) ↦ elim (cases k n r) [
        | inl (b, top) ↦ let low = drawn.bounded j n old in absurd (omega arith)
        | inr (b, old') ↦ drawn.unique j k n old old'
      ]
    ];
  }
    where
      cases :
          (j n : ℕ)
          → token_of (update s.pc i p j) ≡ some n
          → ((i ≡ j) × (n ≡ s.locker.token_seq + 1))
            ⊎ ((eqb i j ≡ false) × (token_of (s.pc j) ≡ some n))
      cases j n q = elim (Bool-cases (eqb i j)) [
        | inl same ↦ let mine : token_of p ≡ some n = ground arith in inl (ground arith, cc)
        | inr other ↦ inr (other, ground arith)
      ]

module _ (now : ℤ) (c : Call) (l : LocalLocker) where
  acquired-seq :
      (o : Option LockEntry) → (acquired now c.ttl c.key c.token o l).1.token_seq ≡ l.token_seq
  acquired-seq (some e) = refl
  acquired-seq none = by_ttl (ltb_ℤ (pos 0) c.ttl)
    where
      by_ttl :
          (b : Bool)
          → (if b then timed now c.ttl c.key c.token l else untimed c.key c.token l).token_seq
            ≡ l.token_seq
      by_ttl true = refl
      by_ttl false = refl

  answered-token :
      (o : Option LockEntry)
      → token_of (answered c (acquired now c.ttl c.key c.token o l).0) ≡ some c.token
  answered-token (some e) = refl
  answered-token none = refl

evicted-seq :
    (key : String) (token : ℕ) (o : Option LockEntry) (l : LocalLocker)
    → (evicted key token o l).token_seq ≡ l.token_seq
evicted-seq key token none l = refl
evicted-seq key token (some e) l = ground arith

stopped-seq : (t : Option ℕ) (l : LocalLocker) → (stopped t l).token_seq ≡ l.token_seq
stopped-seq none l = refl
stopped-seq (some t) l = refl

released-seq :
    (lk : LocalLock) (o : Option LockEntry) (l : LocalLocker)
    → (released lk o l).1.token_seq ≡ l.token_seq
released-seq lk none l = refl
released-seq lk (some e) l = ground (arith, stopped-seq e.timer l)

Step-IsDrawn : {s t : System} → Step s t → IsDrawn s → IsDrawn t
unfolding new_token acquire evict_expired release
Step-IsDrawn {s} (called i key ttl at) drawn = draws s drawn i _ _ refl refl
Step-IsDrawn {s} (tries i now c at) drawn =
    carries s drawn i _ _ (acquired-seq now c s.locker _)
      (λ n q. ap token_of at ∙ sym (answered-token now c s.locker _) ∙ q)
Step-IsDrawn {s} (wakes i c ch at gone) drawn =
    carries s drawn i _ _ refl (λ n q. ap token_of at ∙ q)
Step-IsDrawn {s} (cancelled_trying i c at) drawn = carries s drawn i _ _ refl (λ n q. absurd cc)
Step-IsDrawn {s} (cancelled_waiting i c ch at) drawn = carries s drawn i _ _ refl (λ n q. absurd cc)
Step-IsDrawn {s} (releases i lk at) drawn =
    carries s drawn i _ _ (released-seq lk _ s.locker) (λ n q. absurd cc)
Step-IsDrawn {s} (fires t in_timers) drawn =
    let seq = evicted-seq t.key t.token _ _ in
    record {
      bounded = λ i n q. subst (λ m. n ≤ m) (sym seq) (drawn.bounded i n q);
      unique = drawn.unique;
    }

Steps-IsDrawn : {s : System} → Steps init s → IsDrawn s
Steps-IsDrawn stays = record { bounded = λ i n q. absurd cc; unique = λ i j n q. absurd cc }
Steps-IsDrawn (later r st) = Step-IsDrawn st (Steps-IsDrawn r)

released-blocked :
    (lk : LocalLock) (o : Option LockEntry) (e : LockEntry) (l : LocalLocker)
    → o ≡ some e
    → e.token ≢ lk.token
    → released lk o l ≡ (some ownership_lost, l)
released-blocked lk none e l here other = absurd cc
released-blocked lk (some f) e l here other = let one : f.token ≡ e.token = cc in ground arith

-- A holder that lost its lock to the TTL is fenced: in every state that can be reached, when the
-- entry of the key carries the token of another goroutine, its release is an error and changes
-- nothing.
pub release-Fenced :
    (s : System)
    → Steps init s
    → (i j : ℕ) (key : String) (old new : ℕ) (e : LockEntry) → i ≢ j
    → s.pc i ≡ holding (record { key = key; token = old })
    → s.pc j ≡ holding (record { key = key; token = new })
    → lookup key s.locker.held ≡ some e
    → e.token ≡ new
    → release (record { key = key; token = old }) s.locker ≡ (some ownership_lost, s.locker)
unfolding release
release-Fenced s run i j key old new e apart mine theirs held now =
    released-blocked _ _ e s.locker held (λ same. apart (
      (Steps-IsDrawn run).unique i j old (ap token_of mine)
        (ap token_of theirs ∙ ap some (sym now ∙ same))))
