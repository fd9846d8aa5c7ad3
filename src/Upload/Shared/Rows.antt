-- ===== src/Upload/Shared/Rows.antt =====
-- What the session rows of shared_session.go give back: a saved state loads, and other sessions stay.
use specula.Prelude.{
  String, ◌≡◌, ◌≢◌, refl, sym, ◌∙◌, ap, false, Option, none, some, List, [], ◌∷◌, arith, eq_iff,
  String-cases, Bool-cases, inl, inr, subst,
}
use specula.Prelude.Int.{ℤ}
use specula.Artifact.{MutableEntry}
use specula.Meta.{get_mutable, put_mutable, delete_mutable, stored}
use specula.Upload.{State, Reply, got, lost, session_not_found, Disk, Env, Faults, no_faults}
use specula.Upload.Shared.{state_key, load, loaded, row_state, decoded, save, session_row, expired}

pub get_mutable-delete :
    (k j : String) (es : List MutableEntry)
    → j ≢ k
    → get_mutable j (delete_mutable k es) ≡ get_mutable j es
unfolding get_mutable delete_mutable
get_mutable-delete k j [] h = refl
get_mutable-delete k j (e ∷ es) h = elim (String-cases e.key k) [
  | inl (same, t) ↦ ground (arith, get_mutable-delete k j es h, eq_iff e.key j)
  | inr (other, t) ↦ ground (arith, get_mutable-delete k j es h)
]

pub get_mutable-deleted :
    (k : String) (es : List MutableEntry) → get_mutable k (delete_mutable k es) ≡ none
unfolding get_mutable delete_mutable
get_mutable-deleted k [] = refl
get_mutable-deleted k (e ∷ es) = ground (arith, get_mutable-deleted k es)

pub get_mutable-put :
    (e : MutableEntry) (es : List MutableEntry)
    → get_mutable e.key (put_mutable e es) ≡ some (stored e)
unfolding get_mutable put_mutable
get_mutable-put e es = ground (arith, eq_iff e.key e.key)

pub get_mutable-put_other :
    (e : MutableEntry) (j : String) (es : List MutableEntry)
    → j ≢ e.key
    → get_mutable j (put_mutable e es) ≡ get_mutable j es
unfolding get_mutable put_mutable
get_mutable-put_other e j es h = ground (arith, eq_iff e.key j, get_mutable-delete e.key j es h)

bytes_of : {A : Type 0} → A → Reply A → A
bytes_of a (lost e) = a
bytes_of a (got b) = b

pub got_injective : {A : Type 0} {a b : A} → got a ≡ got b → a ≡ b
unfolding bytes_of
got_injective {a = a} h = ap (bytes_of a) h

option_or : {A : Type 0} → A → Option A → A
option_or a none = a
option_or a (some b) = b

pub some_injective : {A : Type 0} {a b : A} → some a ≡ some b → a ≡ b
unfolding option_or
some_injective {a = a} h = ap (option_or a) h

-- The codec gives back the state.
abbrev pub Codes : Env → State → Type 0
Codes env st = env.decode (env.encode st) ≡ some st

module _ (env : Env) (now later : ℤ) (id : String) (st : State) where
  pub load-save :
      (w : Faults) (d : Disk)
      → w.read ≡ none
      → Codes env st
      → expired env.idle later st.updated_at ≡ false
      → load env w later id (save env now id st d) ≡ got st
  unfolding load save session_row
  load-save w d h c fresh =
      ap (λ f. loaded env later id f (put_mutable (session_row env now id st) d.mutables)) h
      ∙ ap (row_state env later) (get_mutable-put (session_row env now id st) d.mutables)
      ∙ ap (decoded env later) c
      ∙ ground arith

  pub load-save_other :
      (w : Faults) (j : String) (d : Disk)
      → state_key j ≢ state_key id
      → load env w later j (save env now id st d) ≡ load env w later j d
  unfolding load save session_row
  load-save_other w j d h = by_fault w.read
    where
      rows : List MutableEntry
      rows = put_mutable (session_row env now id st) d.mutables

      by_fault : (f : Option String) → loaded env later j f rows ≡ loaded env later j f d.mutables
      by_fault (some e) = refl
      by_fault none =
          ap (row_state env later)
            (get_mutable-put_other (session_row env now id st) (state_key j) d.mutables h)

-- A state that loads now loads later, when it has not been idle too long by then.
module _ (env : Env) (now later : ℤ) (st : State)
    (fresh : expired env.idle later st.updated_at ≡ false) where
  decoded-later : (o : Option State) → decoded env now o ≡ got st → decoded env later o ≡ got st
  decoded-later none h = cc
  decoded-later (some s) h = elim (Bool-cases (expired env.idle now s.updated_at)) [
    | inl old ↦ absurd (got_lost (sym h ∙ ground arith))
    | inr young ↦
        let same : s ≡ st = got_injective (sym (ground arith) ∙ h) in
        subst (λ s. decoded env later (some s) ≡ got st) (sym same) (ground arith)
  ]
    where
      got_lost : got st ≡ lost session_not_found → ⊥
      got_lost q = cc

  row_state-later :
      (o : Option MutableEntry) → row_state env now o ≡ got st → row_state env later o ≡ got st
  row_state-later none h = cc
  row_state-later (some e) h = decoded-later (env.decode e.payload) h

  loaded-later :
      (id : String) (f : Option String) (es : List MutableEntry)
      → loaded env now id f es ≡ got st
      → loaded env later id none es ≡ got st
  loaded-later id (some e) es h = cc
  loaded-later id none es h = row_state-later (get_mutable (state_key id) es) h

  pub load-later :
      (w : Faults) (id : String) (d : Disk)
      → load env w now id d ≡ got st
      → load env no_faults later id d ≡ got st
  unfolding load
  load-later w id d h = loaded-later id w.read d.mutables h
