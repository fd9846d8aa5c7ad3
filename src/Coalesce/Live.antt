-- ===== src/Coalesce/Live.antt =====
-- A call of Acquire that waits on internal/coalesce/locker.go can always get its lock.
use specula.Prelude.{
  ℕ, ◌≡◌, refl, sym, ap, ◌∙◌, inl, inr, none, some, arith, eqb, In, Bool-cases, Option-cases,
}
use specula.Prelude.Int.{ℤ}
use specula.Org.Store.{lookup}
use specula.Coalesce.{LockEntry, LocalLock, new_token, acquire, evict_expired, release}
use specula.Coalesce.Calls.{
  Call, trying, waiting, holding, System, update, Step, called, tries, wakes, cancelled_trying,
  cancelled_waiting, releases, fires, Steps, stays, later, init,
}
use specula.Coalesce.Wakes.{
  IsSound, evicted-Shrinks, released-Leaves, moves, acquired-Watched, acquired-owned,
  acquired-waits, acquired-Gets, released-free,
}

init-IsSound : IsSound init
init-IsSound = record { watched = λ i c ch q. cc; owned = λ key e q. cc }

-- Every step keeps every waiter watched and every entry owned.
Step-IsSound : {s t : System} → Step s t → IsSound s → IsSound t
unfolding new_token acquire evict_expired release
Step-IsSound {s} (called i key ttl at) sound =
    moves s sound i _ _ (λ k ch w. w) (λ c ch q. cc) (λ k e q. inr (q, λ r. cc))
Step-IsSound {s} (tries i now c at) sound =
    moves s sound i _ _ (acquired-Watched now c s.locker _ refl)
      (λ d ch q. acquired-waits now c s.locker d ch _ refl q)
      (λ k e q. elim (acquired-owned now c s.locker _ refl k e q) [
        | inl mine ↦ inl mine
        | inr before ↦ inr (before, λ r. cc)
      ])
Step-IsSound {s} (wakes i c ch at gone) sound =
    moves s sound i _ _ (λ k ch w. w) (λ c ch q. cc) (λ k e q. inr (q, λ r. cc))
Step-IsSound {s} (cancelled_trying i c at) sound =
    moves s sound i _ _ (λ k ch w. w) (λ c ch q. cc) (λ k e q. inr (q, λ r. cc))
Step-IsSound {s} (cancelled_waiting i c ch at) sound =
    moves s sound i _ _ (λ k ch w. w) (λ c ch q. cc) (λ k e q. inr (q, λ r. cc))
Step-IsSound {s} (releases i lk at) sound =
    let leaves = released-Leaves lk s.locker _ refl in
    moves s sound i _ _ leaves.shrinks.watched (λ c ch q. cc)
      (λ k e q. inr (
        leaves.shrinks.entry k e q,
        λ r.
            let same : lk ≡ record { key = k; token = e.token } = cc in
            leaves.gone e
              (ap (λ (x : LocalLock). lookup x.key (release lk s.locker).1.held) same ∙ q)
              (sym (ap (λ (x : LocalLock). x.token) same)),
      ))
Step-IsSound {s} (fires t in_timers) sound =
    let shrinks = evicted-Shrinks t.key t.token _ _ refl in
    record {
      watched = λ i c ch q. shrinks.watched c.key ch (sound.watched i c ch q);
      owned = λ k e q. sound.owned k e (shrinks.entry k e q);
    }

Steps-trans : {s t u : System} → Steps s t → Steps t u → Steps s u
Steps-trans r stays = r
Steps-trans r (later q st) = later (Steps-trans r q) st

Steps-IsSound : {s : System} → Steps init s → IsSound s
Steps-IsSound stays = init-IsSound
Steps-IsSound (later r st) = Step-IsSound st (Steps-IsSound r)

-- The goroutine `i` gets the lock of its call `c` from `s` on.
abbrev pub Obtains : ℕ → Call → System → Type 0
Obtains i c s =
    (t : System) × Steps s t
    × (t.pc i ≡ holding (record { key = c.key; token = c.token }))
    × (e : LockEntry) × (lookup c.key t.locker.held ≡ some e)
    × (e.token ≡ c.token)

module _ (now : ℤ) (i : ℕ) (c : Call) (ch : ℕ) where
  closed-Obtains :
      (s : System)
      → s.pc i ≡ waiting c ch
      → In ch s.locker.closed
      → lookup c.key s.locker.held ≡ none
      → Obtains i c s
  unfolding acquire
  closed-Obtains s at gone free =
      let woken : System = record s { pc = update s.pc i (trying c) } in
      let top : woken.pc i ≡ trying c = ground arith in
      let (mine, e, found, token) = acquired-Gets now c woken.locker _ free in
      (
        _,
        later (later stays (wakes i c ch at gone)) (tries i now c top),
        ground (arith, mine),
        e,
        found,
        token,
      )

  -- Once the key is free, the waiter has been woken.
  free-Obtains :
      (s u : System)
      → Steps s u
      → IsSound u
      → u.pc i ≡ waiting c ch
      → lookup c.key u.locker.held ≡ none
      → Obtains i c s
  free-Obtains s u run sound at free = elim (sound.watched i c ch at) [
    | inl gone ↦
        let (t, more, holds, e, q, r) = closed-Obtains u at gone free in
        (t, Steps-trans run more, holds, e, q, r)
    | inr (e, q, r) ↦ absurd cc
  ]

  -- Whoever holds the key can release it, and then the waiter can get it.
  held-Obtains :
      (s : System) (e : LockEntry)
      → IsSound s
      → s.pc i ≡ waiting c ch
      → lookup c.key s.locker.held ≡ some e
      → Obtains i c s
  unfolding release
  held-Obtains s e sound at held =
      let (j, owner) = sound.owned c.key e held in
      let st = releases j (record { key = c.key; token = e.token }) owner in
      free-Obtains s _ (later stays st) (Step-IsSound st sound)
        (elim (Bool-cases (eqb j i)) [
          | inl same ↦ let one : j ≡ i = ground arith in absurd cc
          | inr other ↦ ground arith
        ])
        (released-free (record { key = c.key; token = e.token }) e _ s.locker held refl)

-- No call of Acquire is stuck: from every state that can be reached in which a goroutine waits for a
-- key, some steps lead to one in which it has the lock, and the key's entry carries its token.
pub waiting-Obtains :
    (now : ℤ) (s : System)
    → Steps init s
    → (i : ℕ) (c : Call) (ch : ℕ) → s.pc i ≡ waiting c ch
    → Obtains i c s
waiting-Obtains now s run i c ch at = elim (Option-cases (lookup c.key s.locker.held)) [
  | inl free ↦ free-Obtains now i c ch s s stays (Steps-IsSound run) at free
  | inr (e, held) ↦ held-Obtains now i c ch s e (Steps-IsSound run) at held
]
