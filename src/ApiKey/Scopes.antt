-- ===== src/ApiKey/Scopes.antt =====
-- What the scopes of internal/apikey/scopes.go permit.
use specula.Prelude.{
  String, ◌≡◌, ◌≢◌, Bool, true, false, List, [], ◌∷◌, arith, eq_iff, any, refl, ◌&&◌, ◌||◌, not,
}
use specula.ApiKey.{scope_pull, scope_push, names, allows_action}

-- The list names neither scope.
pub unscoped : List String → Bool
unscoped ss = not (any (names scope_pull) ss) && not (any (names scope_push) ss)

-- A key permits a pull exactly if its list names the pull scope or names neither scope, a push and
-- a delete exactly if it names the push scope or neither, and no other action ever.
pub allows_action-exact :
    (scopes : List String) (action : String)
    → (allows_action scopes "pull" ≡ (any (names scope_pull) scopes || unscoped scopes))
      × (allows_action scopes "push" ≡ (any (names scope_push) scopes || unscoped scopes))
      × (allows_action scopes "delete" ≡ allows_action scopes "push")
      × (action ≢ "pull"
          → action ≢ "push"
          → action ≢ "delete"
          → allows_action scopes action ≡ false)
unfolding allows_action unscoped
allows_action-exact [] action = (
  refl,
  refl,
  refl,
  ground (arith, eq_iff action "pull", eq_iff action "push", eq_iff action "delete"),
)
allows_action-exact (s ∷ rest) action = (
  ground arith,
  ground arith,
  ground arith,
  ground (arith, eq_iff action "pull", eq_iff action "push", eq_iff action "delete"),
)

-- A key whose list is not empty and names only unknown scopes may pull, push and delete.
pub unknown_scopes_allow_all :
    (scopes : List String)
    → any (names scope_pull) scopes ≡ false
    → any (names scope_push) scopes ≡ false
    → (allows_action scopes "pull" ≡ true)
      × (allows_action scopes "push" ≡ true)
      × (allows_action scopes "delete" ≡ true)
unfolding unscoped
unknown_scopes_allow_all scopes p q = ground (arith, allows_action-exact scopes "pull")
