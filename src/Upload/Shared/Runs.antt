-- ===== src/Upload/Shared/Runs.antt =====
-- The calls that requests make for one session of shared_session.go, one after the other.
use specula.Prelude.{ℕ, String, true, ◌≡◌, List, [], ◌∷◌, none, some, sym, ◌∙◌, refl}
use specula.Artifact.{MutableEntry}
use specula.Prelude.Int.{ℤ}
use specula.Meta.{get_mutable}
use specula.Cache.{Object, exists}
use specula.Upload.{Reply, State, got, lost, Disk, Env, Faults}
use specula.Upload.Shared.{state_key, new_state, load, create, append, appended, abandon, complete}
use specula.Upload.Shared.Rows.{Codes}
use specula.Upload.Shared.Content.{state_after}
use specula.Upload.Shared.Keeps.{Safe, load-Spares, spooled-Safe, discarded-Safe, created-Safe}

pub data Operation : Type 0 where
  appends : List ℕ → Operation
  abandons : Operation
  completes : String → Operation

pub record Call : Type 0 where
  pub faults : Faults
  pub now : ℤ
  pub operation : Operation

abbrev pub perform : Env → Faults → ℤ → String → Operation → Disk → Disk
perform env w now id (appends bytes) d = (append env w now id bytes d).1
perform env w now id abandons d = (abandon env w now id d).1
perform env w now id (completes digest) d = (complete env w now id digest d).1

abbrev pub run : Env → String → List Call → Disk → Disk
run env id [] d = d
run env id (c ∷ cs) d = run env id cs (perform env c.faults c.now id c.operation d)

abbrev CodedAfter : Env → Faults → ℤ → List ℕ → Reply State → List Object → Type 0
CodedAfter env w now bytes (lost e) os = Unit
CodedAfter env w now bytes (got st) os = Codes env (state_after env w now st bytes os)

abbrev CodedBy : Env → Faults → ℤ → String → Operation → Disk → Type 0
CodedBy env w now id (appends bytes) d = CodedAfter env w now bytes (load env w now id d) d.blobs
CodedBy env w now id abandons d = Unit
CodedBy env w now id (completes digest) d = Unit

-- The codec gives back every state that the calls write.
abbrev pub Coded : Env → String → List Call → Disk → Type 0
Coded env id [] d = Unit
Coded env id (c ∷ cs) d =
    CodedBy env c.faults c.now id c.operation d
    × Coded env id cs (perform env c.faults c.now id c.operation d)

module _ (env : Env) (k id : String) where
  appended-Safe :
      (w : Faults) (now : ℤ) (bytes : List ℕ) (r : Reply State) (d : Disk)
      → load env w now id d ≡ r
      → CodedAfter env w now bytes r d.blobs
      → Safe env k id d
      → Safe env k id (appended env w now id bytes r d).1
  appended-Safe w now bytes (lost e) d h code s = s
  appended-Safe w now bytes (got st) d h code s =
      spooled-Safe env k w now id st w.spool bytes d code (load-Spares env k w now id st d s h) s

  perform-Safe :
      (w : Faults) (now : ℤ) (o : Operation) (d : Disk)
      → CodedBy env w now id o d
      → Safe env k id d
      → Safe env k id (perform env w now id o d)
  unfolding append abandon complete
  perform-Safe w now (appends bytes) d code s =
      appended-Safe w now bytes (load env w now id d) d refl code s
  perform-Safe w now abandons d code s =
      discarded-Safe env k w now id "" (load env w now id d) d
        (λ st h. load-Spares env k w now id st d s h) s
  perform-Safe w now (completes digest) d code s =
      discarded-Safe env k w now id digest (load env w now id d) d
        (λ st h. load-Spares env k w now id st d s h) s

  run-Safe :
      (cs : List Call) (d : Disk)
      → Coded env id cs d
      → Safe env k id d
      → Safe env k id (run env id cs d)
  run-Safe [] d code s = s
  run-Safe (c ∷ cs) d (code, codes) s =
      run-Safe cs (perform env c.faults c.now id c.operation d) codes
        (perform-Safe c.faults c.now c.operation d code s)

-- Whatever one session does after it is created, and whichever calls fail, an object that was in the
-- blob store when it was created is there: no append, abandonment or completion of the session
-- removes it. The id of the session is new, and the codec gives back every state that is written.
pub create-run :
    (env : Env) (w : Faults) (now : ℤ) (id repo k : String) (cs : List Call) (d : Disk)
    → get_mutable (state_key id) d.mutables ≡ none
    → Codes env (new_state repo now)
    → Coded env id cs (create env w now id repo d).1
    → exists k d.blobs ≡ true
    → exists k (run env id cs (create env w now id repo d).1).blobs ≡ true
unfolding create
create-run env w now id repo k cs d new code codes there =
    (run-Safe env k id cs (create env w now id repo d).1 codes (
      created-Safe env k w now id repo w.save d code
        (there, λ e st h q. absurd (none_some (sym new ∙ h))))).0
  where
    none_some : {e : MutableEntry} → none ≡ some e → ⊥
    none_some q = cc
