-- ===== src/RegistryAuthz/FirstPush.antt =====
-- `Authorize` of internal/registryauthz/authz.go: the scope is checked first, only a push creates a
-- repository, and pushes that race for one name agree on one row.
use specula.Prelude.{
  String, ◌≡◌, ◌≢◌, inl, inr, true, false, Option, none, some, List, [], ◌∷◌, ◌++◌, eq_iff, arith,
  refl, sym, Option-cases, subst,
}
use specula.Prelude.Text.{trim_space}
use specula.Repo.{Repo, visibility_private}
use specula.RegistryAuthz.{
  Authz, action_push, namespace_of, resolve_org_id, row_is, find_repo, get_repo,
}
use specula.RegistryAuthz.DataPlane.{
  AccessClaims, allows, Result, ok, err, forbidden, Weather, create_repo, new_row, first_push,
  authorize,
}

row_is_self :
    (org_id name : String) (r : Repo)
    → r.org_id ≡ org_id
    → r.name ≡ name
    → row_is org_id name r ≡ true
unfolding row_is
row_is_self org_id name r o n = ground (arith, eq_iff r.org_id org_id, eq_iff r.name name)

row_is_comm : (r x : Repo) → row_is r.org_id r.name x ≡ row_is x.org_id x.name r
unfolding row_is
row_is_comm r x = ground (
  arith,
  eq_iff r.org_id x.org_id,
  eq_iff x.org_id r.org_id,
  eq_iff r.name x.name,
  eq_iff x.name r.name,
)

find-append :
    (org_id name : String) (r : Repo) (rows : List Repo)
    → find_repo org_id name rows ≡ none
    → r.org_id ≡ org_id
    → r.name ≡ name
    → find_repo org_id name (rows ++ r ∷ []) ≡ some r
unfolding find_repo
find-append org_id name r [] h o n = rw (row_is_self org_id name r o n) refl
find-append org_id name r (x ∷ xs) h o n = ground (arith, find-append org_id name r xs)

-- Without a token, or with one whose scopes do not cover the action, the answer is forbidden,
-- whether or not the repository exists, and nothing is written.
pub authorize_unscoped :
    (a : Authz) (w : Weather) (claims : Option AccessClaims) (name action : String)
    (rows : List Repo)
    → ((c : AccessClaims) → claims ≡ some c → allows c name action ≡ false)
    → authorize a w claims name action rows ≡ (err forbidden, rows)
unfolding authorize
authorize_unscoped a w none name action rows h = refl
authorize_unscoped a w (some c) name action rows h = ground (arith, h c refl)

-- An action other than a push writes nothing.
pub authorize_keeps_rows :
    (a : Authz) (w : Weather) (claims : Option AccessClaims) (name action : String)
    (rows : List Repo)
    → action ≢ action_push
    → (authorize a w claims name action rows).1 ≡ rows
unfolding authorize
authorize_keeps_rows a w none name action rows h = refl
authorize_keeps_rows a w (some c) name action rows h = ground (arith, eq_iff action action_push)

-- A push that ends with row `r`, which is then found under the name.
abbrev pub Lands : String → String → Result Repo × List Repo → Type 0
Lands org_id name result =
    (r : Repo) × (result.0 ≡ ok r) × (find_repo org_id (trim_space name) result.1 ≡ some r)

module _ (w : Weather) (org_id name owner : String) (rows : List Repo) (cf : w.create_fault ≡ none)
    (af : w.again_fault ≡ none) where
  first_push_new :
      find_repo org_id (trim_space name) rows ≡ none
      → first_push w org_id name owner rows ≡ (
        ok (new_row w.fresh_id org_id name visibility_private owner),
        rows ++ new_row w.fresh_id org_id name visibility_private owner ∷ [],
      )
  unfolding first_push create_repo
  first_push_new fresh = ground arith

  first_push_taken :
      (r : Repo)
      → find_repo org_id (trim_space name) rows ≡ some r
      → first_push w org_id name owner rows ≡ (ok r, rows)
  unfolding first_push create_repo get_repo
  first_push_taken r taken = ground arith

  first_push-Lands : Lands org_id name (first_push w org_id name owner rows)
  first_push-Lands = elim (Option-cases (find_repo org_id (trim_space name) rows)) [
    | inl fresh ↦
        let row : Repo = new_row w.fresh_id org_id name visibility_private owner in
        subst (Lands org_id name) (sym (first_push_new fresh))
          (row, refl, find-append org_id (trim_space name) row rows fresh refl refl)
    | inr (r, taken) ↦ subst (Lands org_id name) (sym (first_push_taken r taken)) (r, refl, taken)
  ]

-- With a covering push scope in a known namespace and a database that answers, a push gets the
-- repository's row and leaves exactly this row to be found under the name, whatever rows other
-- requests have written between the lookup and the creation.
pub push_finds_its_row :
    (a : Authz) (w : Weather) (c : AccessClaims) (name org_id : String) (rows : List Repo)
    → allows c name action_push ≡ true
    → resolve_org_id a (namespace_of name) ≡ some org_id
    → w.get_fault ≡ none
    → w.create_fault ≡ none
    → w.again_fault ≡ none
    → Lands org_id name (authorize a w (some c) name action_push rows)
unfolding authorize get_repo
push_finds_its_row a w c name org_id rows scope owned gf cf af =
    elim (Option-cases (find_repo org_id (trim_space name) rows)) [
      | inl fresh ↦
          rw (scope, owned, gf, fresh)
            (first_push-Lands w org_id name c.subject (w.meanwhile rows) cf af)
      | inr (r, taken) ↦ rw (scope, owned, gf, taken) (r, refl, taken)
    ]

-- No two rows have the same organization and name.
abbrev pub IsUnique : List Repo → Type 0
IsUnique [] = Unit {0}
IsUnique (r ∷ rs) = (find_repo r.org_id r.name rs ≡ none) × IsUnique rs

find-append_other :
    (r x : Repo) (rows : List Repo)
    → find_repo x.org_id x.name rows ≡ none
    → find_repo r.org_id r.name (x ∷ rows) ≡ none
    → find_repo x.org_id x.name (rows ++ r ∷ []) ≡ none
unfolding find_repo
find-append_other r x [] h g = ground (arith, row_is_comm r x)
find-append_other r x (y ∷ ys) h g = ground (arith, find-append_other r x ys)

append-IsUnique :
    (r : Repo) (rows : List Repo)
    → IsUnique rows
    → find_repo r.org_id r.name rows ≡ none
    → IsUnique (rows ++ r ∷ [])
unfolding find_repo
append-IsUnique r [] u h = (refl, tt)
append-IsUnique r (x ∷ xs) u h =
    (find-append_other r x xs u.0 h, append-IsUnique r xs u.1 (later r x xs h))
  where
    later :
        (r x : Repo) (xs : List Repo)
        → find_repo r.org_id r.name (x ∷ xs) ≡ none
        → find_repo r.org_id r.name xs ≡ none
    later r x xs h = ground arith

first_push-IsUnique :
    (w : Weather) (org_id name owner : String) (rows : List Repo)
    → IsUnique rows
    → IsUnique (first_push w org_id name owner rows).1
unfolding first_push create_repo
first_push-IsUnique w org_id name owner rows u =
    ground (arith, append-IsUnique (new_row w.fresh_id org_id name visibility_private owner) rows)

-- If the other requests keep it so, no organization ever has two repositories of one name.
pub authorize-IsUnique :
    (a : Authz) (w : Weather) (claims : Option AccessClaims) (name action : String)
    (rows : List Repo)
    → ((rs : List Repo) → IsUnique rs → IsUnique (w.meanwhile rs))
    → IsUnique rows
    → IsUnique (authorize a w claims name action rows).1
unfolding authorize
authorize-IsUnique a w none name action rows others u = u
authorize-IsUnique a w (some c) name action rows others u =
    elim (Option-cases (resolve_org_id a (namespace_of name))) [
      | inl e ↦ ground arith
      | inr (o, e) ↦
          ground (arith, others rows, first_push-IsUnique w o name c.subject (w.meanwhile rows))
    ]
