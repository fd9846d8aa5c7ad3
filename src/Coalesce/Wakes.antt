-- ===== src/Coalesce/Wakes.antt =====
-- What holds of the waiters and the holders of the Locker in every state that its callers can reach.
use specula.Prelude.{
  ℕ, String, Bool, true, false, not, ◌≡◌, ◌≢◌, refl, sym, ap, subst, ◌∙◌, ◌⊎◌, inl, inr, Option,
  none, some, List, arith, eq_iff, eqb, In, Bool-cases, String-cases, if◌then◌else◌,
}
use specula.Prelude.Int.{ℤ, pos, ltb_ℤ}
use specula.Org.Store.{Slot, lookup, insert}
use specula.Org.Store.Members.{lookup-erase, lookup-erase_other}
use specula.Coalesce.{
  Error, ownership_lost, LockEntry, LocalLocker, LocalLock, acquired, timed, untimed, freed,
  evicted, stopped, released,
}
use specula.Coalesce.Calls.{Call, Phase, waiting, holding, System, update, answered}

-- The channel is closed, or it is the one that the key's holder will close.
abbrev pub Watched : LocalLocker → String → ℕ → Type 0
Watched l key ch =
    In ch l.closed ⊎ ((e : LockEntry) × (lookup key l.held ≡ some e) × (e.release ≡ ch))

-- From `l` to `m`, what was watched is watched, and an entry that is there was there.
pub record Shrinks (l m : LocalLocker) : Type 0 where
  pub watched : (key : String) (ch : ℕ) → Watched l key ch → Watched m key ch
  pub entry :
      (key : String) (e : LockEntry) → lookup key m.held ≡ some e → lookup key l.held ≡ some e

pub record IsSound (s : System) : Type 0 where
  -- Nobody waits for a wake-up that will not come.
  pub watched : (i : ℕ) (c : Call) (ch : ℕ) → s.pc i ≡ waiting c ch → Watched s.locker c.key ch
  -- An entry belongs to a goroutine that has its lock.
  pub owned :
      (key : String) (e : LockEntry)
      → lookup key s.locker.held ≡ some e
      → (i : ℕ) × (s.pc i ≡ holding (record { key = key; token = e.token }))

freed-Shrinks :
    (key : String) (e : LockEntry) (l : LocalLocker)
    → lookup key l.held ≡ some e
    → Shrinks l (freed key e l)
freed-Shrinks key e l here = record {
  watched = λ k ch w. elim (String-cases k key) [
    | inl (same, t) ↦ elim w [ inl gone ↦ inl (inr gone) | inr (f, q, r) ↦ inl (inl cc) ]
    | inr (other, t) ↦ elim w [
      | inl gone ↦ inl (inr gone)
      | inr (f, q, r) ↦ inr (f, lookup-erase_other key k l.held other ∙ q, r)
    ]
  ];
  entry = λ k f q. elim (String-cases k key) [
    | inl (same, t) ↦ absurd (let gone = lookup-erase key l.held in cc)
    | inr (other, t) ↦ sym (lookup-erase_other key k l.held other) ∙ q
  ];
}

Shrinks-refl : (l : LocalLocker) → Shrinks l l
Shrinks-refl l = record { watched = λ key ch w. w; entry = λ key e q. q }

stopped-Shrinks : (t : Option ℕ) (l m : LocalLocker) → Shrinks (stopped t l) m → Shrinks l m
stopped-Shrinks none l m h = h
stopped-Shrinks (some x) l m h = record { watched = h.watched; entry = h.entry }

pub evicted-Shrinks :
    (key : String) (token : ℕ) (o : Option LockEntry) (l : LocalLocker)
    → lookup key l.held ≡ o
    → Shrinks l (evicted key token o l)
evicted-Shrinks key token none l here = Shrinks-refl l
evicted-Shrinks key token (some e) l here =
    if_Shrinks (eqb e.token token) (freed-Shrinks key e l here) (Shrinks-refl l)
  where
    if_Shrinks :
        {m n : LocalLocker} (b : Bool) → Shrinks l m → Shrinks l n → Shrinks l (if b then m else n)
    if_Shrinks true h g = h
    if_Shrinks false h g = g

stopped-held : (t : Option ℕ) (l : LocalLocker) → (stopped t l).held ≡ l.held
stopped-held none l = refl
stopped-held (some x) l = refl

-- What a release leaves: nothing of the lock that was released.
pub record Leaves (lk : LocalLock) (l m : LocalLocker) : Type 0 where
  pub shrinks : Shrinks l m
  pub gone : (e : LockEntry) → lookup lk.key m.held ≡ some e → e.token ≢ lk.token

module _ (lk : LocalLock) (l : LocalLocker) where
  pub released-Leaves :
      (o : Option LockEntry) → lookup lk.key l.held ≡ o → Leaves lk l (released lk o l).1
  released-Leaves none here = record { shrinks = Shrinks-refl l; gone = λ e q. cc }
  released-Leaves (some e) here = by_token (eqb e.token lk.token) refl
    where
      by_token :
          (b : Bool)
          → eqb e.token lk.token ≡ b
          → let out : Option Error × LocalLocker =
              if not b
              then (some ownership_lost, l)
              else (none, freed lk.key e (stopped e.timer l)) in
            Leaves lk l out.1
      by_token false q = record {
        shrinks = Shrinks-refl l;
        gone = λ f r t. let same : e.token ≡ f.token = cc in ground arith;
      }
      by_token true q = record {
        shrinks = stopped-Shrinks e.timer l _ (
            freed-Shrinks lk.key e (stopped e.timer l)
              (ap (lookup lk.key) (stopped-held e.timer l) ∙ here));
        gone = λ f r. absurd (let none = lookup-erase lk.key (stopped e.timer l).held in cc);
      }

module _ (s : System) (sound : IsSound s) (i : ℕ) (p : Phase) (l : LocalLocker) where
  pub moves :
      ((key : String) (ch : ℕ) → Watched s.locker key ch → Watched l key ch)
      → ((c : Call) (ch : ℕ) → p ≡ waiting c ch → Watched l c.key ch)
      → ((key : String) (e : LockEntry)
          → lookup key l.held ≡ some e
          → (p ≡ holding (record { key = key; token = e.token }))
            ⊎ ((lookup key s.locker.held ≡ some e)
                × (s.pc i ≢ holding (record { key = key; token = e.token }))))
      → IsSound (record { locker = l; pc = update s.pc i p })
  moves keeps new kept = record {
    watched = λ j c ch q. elim (Bool-cases (eqb i j)) [
      | inl same ↦ new c ch (ground arith)
      | inr other ↦ keeps c.key ch (sound.watched j c ch (ground arith))
    ];
    owned = λ key e q. elim (kept key e q) [
      | inl mine ↦ (i, ground arith)
      | inr (before, other) ↦
          let (j, owner) = sound.owned key e before in
          (
            j,
            elim (Bool-cases (eqb i j)) [
              | inl same ↦
                  let same_pc : i ≡ j = ground arith in absurd (other (ap s.pc same_pc ∙ owner))
              | inr differs ↦ ground arith
            ],
          )
    ];
  }

-- What a successful pass leaves.
record Adds (k : String) (token : ℕ) (l m : LocalLocker) : Type 0 where
  new : LockEntry
  drawn : new.token ≡ token
  held : m.held ≡ insert k new l.held
  closed : m.closed ≡ l.closed

module _ (now ttl : ℤ) (k : String) (token : ℕ) (l : LocalLocker) where
  acquired-Adds : Adds k token l (acquired now ttl k token none l).1
  acquired-Adds = by_ttl (ltb_ℤ (pos 0) ttl)
    where
      by_ttl :
          (b : Bool) → Adds k token l (if b then timed now ttl k token l else untimed k token l)
      by_ttl true = record { new = _; drawn = refl; held = refl; closed = refl }
      by_ttl false = record { new = _; drawn = refl; held = refl; closed = refl }

module _ (k : String) (token : ℕ) (l m : LocalLocker) (adds : Adds k token l m) where
  Adds-same : lookup k m.held ≡ some adds.new
  Adds-same = ap (lookup k) adds.held ∙ ground (arith, eq_iff k k)

  Adds-other : (key : String) → key ≢ k → lookup key m.held ≡ lookup key l.held
  Adds-other key other =
      ap (lookup key) adds.held
      ∙ ground (arith, eq_iff k key, lookup-erase_other k key l.held other)

  Adds-Watched :
      lookup k l.held ≡ none → (key : String) (ch : ℕ) → Watched l key ch → Watched m key ch
  Adds-Watched here key ch (inl gone) = inl (subst (In ch) (sym adds.closed) gone)
  Adds-Watched here key ch (inr (f, q, r)) = inr (f, Adds-other key (λ same. absurd cc) ∙ q, r)

module _ (now : ℤ) (c : Call) (l : LocalLocker) where
  pub acquired-Watched :
      (o : Option LockEntry)
      → lookup c.key l.held ≡ o
      → (key : String) (ch : ℕ) → Watched l key ch
      → Watched (acquired now c.ttl c.key c.token o l).1 key ch
  acquired-Watched (some e) here key ch w = w
  acquired-Watched none here key ch w =
      Adds-Watched c.key c.token l _ (acquired-Adds now c.ttl c.key c.token l) here key ch w

  pub acquired-owned :
      (o : Option LockEntry)
      → lookup c.key l.held ≡ o
      → (key : String) (e : LockEntry)
      → lookup key (acquired now c.ttl c.key c.token o l).1.held ≡ some e
      → (answered c (acquired now c.ttl c.key c.token o l).0
          ≡ holding (record { key = key; token = e.token }))
        ⊎ (lookup key l.held ≡ some e)
  acquired-owned (some f) here key e q = inr q
  acquired-owned none here key e q =
      let adds = acquired-Adds now c.ttl c.key c.token l in
      elim (String-cases key c.key) [
        | inl (same, t) ↦
            let found : lookup key l' ≡ some adds.new =
              ap (λ x. lookup x l') same ∙ Adds-same c.key c.token l _ adds in
            let entry_new : adds.new ≡ e = cc in
            let drawn : c.token ≡ e.token =
              sym adds.drawn ∙ ap (λ (x : LockEntry). x.token) entry_new in
            inl cc
        | inr (other, t) ↦ inr (sym (Adds-other c.key c.token l _ adds key other) ∙ q)
      ]
    where
      l' : List (Slot LockEntry)
      l' = (acquired now c.ttl c.key c.token none l).1.held

  pub acquired-waits :
      (d : Call) (ch : ℕ) (o : Option LockEntry)
      → lookup c.key l.held ≡ o
      → answered c (acquired now c.ttl c.key c.token o l).0 ≡ waiting d ch
      → Watched (acquired now c.ttl c.key c.token o l).1 d.key ch
  acquired-waits d ch (some f) here q =
      let same : waiting c f.release ≡ waiting d ch = q in inr (f, cc, cc)
  acquired-waits d ch none here q =
      let same : holding (record { key = c.key; token = c.token }) ≡ waiting d ch = q in absurd cc

  -- A pass that finds the key free gets the lock.
  pub acquired-Gets :
      (o : Option LockEntry)
      → o ≡ none
      → (answered c (acquired now c.ttl c.key c.token o l).0
          ≡ holding (record { key = c.key; token = c.token }))
        × (e : LockEntry) × (lookup c.key (acquired now c.ttl c.key c.token o l).1.held ≡ some e)
        × (e.token ≡ c.token)
  acquired-Gets (some e) free = absurd cc
  acquired-Gets none free =
      let adds = acquired-Adds now c.ttl c.key c.token l in
      (refl, adds.new, Adds-same c.key c.token l _ adds, adds.drawn)

-- A release by the holder frees the key.
pub released-free :
    (lk : LocalLock) (e : LockEntry) (o : Option LockEntry) (l : LocalLocker)
    → o ≡ some e
    → e.token ≡ lk.token
    → lookup lk.key (released lk o l).1.held ≡ none
released-free lk e none l here same = absurd cc
released-free lk e (some f) l here same =
    let own : f.token ≡ e.token = cc in ground (arith, lookup-erase lk.key (stopped f.timer l).held)
