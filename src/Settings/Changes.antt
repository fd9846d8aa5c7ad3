-- ===== src/Settings/Changes.antt =====
-- What setting and clearing an override of internal/settings/resolver.go does to the effective values.
use specula.Prelude.{String, Bool, true, false, ◌≡◌, refl, ◌∙◌, ap, Option, none, some, List}
use specula.Org.Store.{Slot, lookup, erase}
use specula.Org.Store.Members.{lookup-erase}
use specula.Settings.{
  Setting, Error, Resolver, State, registered, read_override, override, effective_of, effective,
  called, fire, Faults, changed, clear_registered, clear,
}

-- The overrides that a call leaves, in a store that is enabled.
abbrev Left : State → List (Slot String) → Option Error × State → Type 0
Left s os out = (s.enabled ≡ true) × (out.1.enabled ≡ true) × (out.1.overrides ≡ os)

called-overrides :
    (key : String) (h : Option (String → Option String)) (v : Option String) (s : State)
    → ((called key h v s).1.overrides ≡ s.overrides) × ((called key h v s).1.enabled ≡ s.enabled)
called-overrides key none v s = (refl, refl)
called-overrides key (some h) none s = (refl, refl)
called-overrides key (some h) (some v) s = (refl, refl)

module _ (r : Resolver) (w : Faults) (key : String) where
  changed-Left :
      (b : Bool) (f : Option String) (os : List (Slot String)) (s : State)
      → s.enabled ≡ b
      → (changed r w key b f os s).0 ≡ none
      → Left s os (changed r w key b f os s)
  unfolding fire
  changed-Left false f os s on e = cc
  changed-Left true (some x) os s on e = cc
  changed-Left true none os s on e =
      let (same, enabled) = called-overrides key (r.hook key) _ (record s { overrides = os }) in
      (on, enabled ∙ on, same)

read : (key : String) (s : State) → s.enabled ≡ true → override false key s ≡ lookup key s.overrides
unfolding override
read key s on = ap (λ b. read_override b false (lookup key s.overrides)) on

-- After Clear succeeds, the effective value of the key is the one of the bootstrap.
pub clear-effective :
    (r : Resolver) (w : Faults) (key : String) (s : State)
    → (clear r w key s).0 ≡ none
    → effective r false key (clear r w key s).1 ≡ some (r.bootstrap key)
unfolding clear effective
clear-effective r w key s = by_setting (registered r key) refl
  where
    by_setting :
        (o : Option Setting)
        → registered r key ≡ o
        → (clear_registered r w key o s).0 ≡ none
        → effective_of r key
            (registered r key)
            (override false key (clear_registered r w key o s).1)
          ≡ some (r.bootstrap key)
    by_setting none q e = cc
    by_setting (some d) q e =
        let (was, on, same) =
          changed-Left r w key s.enabled w.write (erase key s.overrides) s refl e in
        ap (λ o. effective_of r key o (override false key (clear_registered r w key (some d) s).1))
          q
        ∙ ap (effective_of r key (some d)) (
            read key (clear_registered r w key (some d) s).1 on
            ∙ ap (lookup key) same
            ∙ lookup-erase key s.overrides)
