-- ===== src/Verify/Confusion.antt =====
-- internal/verify/depconfusion.go: which package names are private to the organization, and what a handler
-- must do with one. `glob` is `path.Match`, false where it reports an error. Folding the case of two
-- scopes is lowering both.
use Prim.Native.Char.{Char, code}
use specula.Prelude.{
  String, Bool, true, false, not, ◌||◌, ◌&&◌, ◌≡◌, ◌≢◌, sym, ◌∙◌, ap, subst, Option, none, some,
  List, ◌==◌, any, eqb, In, any-In, if◌then◌else◌, arith, eq_iff,
}
use specula.Prelude.Text.{codes, trim_space, to_lower}
use specula.Prelude.Strings.{cut_prefix, cut_first}

pub record DepConfusionConfig : Type 0 where
  pub protocol : String
  pub private_names : List String
  pub private_scopes : List String
  pub private_unscoped : List String
  pub fail_closed : Bool

-- What the private upstream answered, and what the handler does.
pub data UpstreamOutcome : Type 0 where
  served not_found down : UpstreamOutcome

pub data Action : Type 0 where
  serve answer_not_found fail_closed serve_stale : Action

unfoldable pub resolve_private : DepConfusionConfig → UpstreamOutcome → Action
resolve_private cfg served = serve
resolve_private cfg not_found = answer_not_found
resolve_private cfg down = if cfg.fail_closed then fail_closed else serve_stale

abbrev scope_part : String → Option (String × String) → String
scope_part pkg none = pkg
scope_part pkg (some (scope, name)) = scope

abbrev at_scope : String → Option String → Option String
at_scope pkg none = none
at_scope pkg (some rest) = some (scope_part pkg (cut_first "/" pkg))

-- npmScope
unfoldable pub npm_scope : String → Option String
npm_scope pkg = at_scope pkg (cut_prefix "@" pkg)

abbrev with_at : String → Option String → String
with_at s none = Prim.Native.String.◌++◌ "@" s
with_at s (some rest) = s

unfoldable pub normalize_scope : String → String
normalize_scope s = let t = to_lower (trim_space s) in with_at t (cut_prefix "@" t)

abbrev is_sep : Char → Bool
is_sep c = eqb (code c) b'-' || eqb (code c) b'_' || eqb (code c) b'.'

-- Runs of separators become one '-'; the flag says that one was just written.
collapse : Bool → String → String
collapse after String.[] = String.[]
collapse after (String.◌∷◌ c s) =
    let inside = collapse true s in
    let outside = collapse false s in
    if is_sep c
    then (if after then inside else Prim.Native.String.◌++◌ "-" inside)
    else String.◌∷◌ c outside

trim_end : String → String
trim_end String.[] = String.[]
trim_end (String.◌∷◌ c s) =
    let rest = trim_end s in
    if rest == "" && eqb (code c) b'-' then String.[] else String.◌∷◌ c rest

trim_start : String → String
trim_start String.[] = String.[]
trim_start (String.◌∷◌ c s) =
    let rest = trim_start s in if eqb (code c) b'-' then rest else String.◌∷◌ c s

-- normalizePEP503
unfoldable pub normalize_pep503 : String → String
unfolding collapse trim_end trim_start
normalize_pep503 name = trim_end (trim_start (collapse false (to_lower (trim_space name))))

abbrev is_glob : String → Bool
is_glob p = any (λ c. eqb c b'*' || eqb c b'?' || eqb c b'[') (codes p)

abbrev matched : (String → String → Bool) → String → String → Bool
matched glob name p = p == name || (is_glob p && glob p name)

abbrev matches : (String → String → Bool) → Bool → String → String → Bool
matches glob normalize name pattern =
    let p = trim_space pattern in
    not (p == "") && matched glob name (if normalize then normalize_pep503 p else p)

unfoldable pub match_any : (String → String → Bool) → String → List String → Bool → Bool
match_any glob name patterns normalize = any (matches glob normalize name) patterns

abbrev scoped_in : List String → String → Bool
scoped_in scopes scope = any (λ s. to_lower scope == to_lower (normalize_scope s)) scopes

abbrev by_npm : (String → String → Bool) → DepConfusionConfig → String → Option String → Bool
by_npm glob cfg pkg (some scope) = scoped_in cfg.private_scopes scope
by_npm glob cfg pkg none = match_any glob pkg cfg.private_unscoped false

abbrev by_scope : DepConfusionConfig → Option String → Bool
by_scope cfg none = false
by_scope cfg (some scope) = scoped_in cfg.private_scopes scope

abbrev pub private_name : (String → String → Bool) → DepConfusionConfig → String → Bool
private_name glob cfg pkg =
    if cfg.protocol == "npm"
    then by_npm glob cfg pkg (npm_scope pkg)
    else if cfg.protocol == "pypi"
    then match_any glob (normalize_pep503 pkg) cfg.private_names true
    else match_any glob pkg cfg.private_names false
      || match_any glob pkg cfg.private_unscoped false
      || by_scope cfg (npm_scope pkg)

unfoldable pub is_private : (String → String → Bool) → DepConfusionConfig → String → Bool
unfolding match_any npm_scope
is_private glob cfg raw =
    let pkg = trim_space raw in if pkg == "" then false else private_name glob cfg pkg

empty : (s : String) → s ≢ "" → (s == "") ≡ false
empty s h = ground (arith, eq_iff s "")

-- On the flat namespace of pypi, every spelling of a name on the manifest is private: a name that is not
-- blank and has the normal form of an entry that is not blank, whatever the globs match.
pub is_private-spelling :
    (glob : String → String → Bool) (cfg : DepConfusionConfig) (entry pkg : String)
    → cfg.protocol ≡ "pypi"
    → In entry cfg.private_names
    → trim_space entry ≢ ""
    → trim_space pkg ≢ ""
    → normalize_pep503 (trim_space pkg) ≡ normalize_pep503 (trim_space entry)
    → is_private glob cfg pkg ≡ true
unfolding is_private match_any
is_private-spelling glob cfg entry pkg pypi listed entry_filled pkg_filled same =
    let name = trim_space pkg in
    let hit : any (matches glob true (normalize_pep503 name)) cfg.private_names ≡ true =
      any-In (matches glob true (normalize_pep503 name)) entry cfg.private_names listed (
        ground (
          arith,
          eq_iff (trim_space entry) "",
          eq_iff (normalize_pep503 (trim_space entry)) (normalize_pep503 name),
        )) in
    ap (λ b. if b then false else private_name glob cfg name) (empty name pkg_filled)
    ∙ subst (λ p. private_name glob (record cfg { protocol = p }) name ≡ true) (sym pypi) hit

-- On npm a scoped name is private exactly if one of the configured scopes is its scope, up to case: the
-- list of unscoped names and the globs have no say.
pub is_private-scope :
    (glob : String → String → Bool) (cfg : DepConfusionConfig) (pkg scope : String)
    → cfg.protocol ≡ "npm"
    → trim_space pkg ≢ ""
    → npm_scope (trim_space pkg) ≡ some scope
    → is_private glob cfg pkg
      ≡ any (λ s. to_lower scope == to_lower (normalize_scope s)) cfg.private_scopes
unfolding is_private
is_private-scope glob cfg pkg scope npm filled scoped =
    ap (λ b. if b then false else private_name glob cfg (trim_space pkg))
      (empty (trim_space pkg) filled)
    ∙ subst
        (λ p.
          private_name glob (record cfg { protocol = p }) (trim_space pkg)
          ≡ any (λ s. to_lower scope == to_lower (normalize_scope s)) cfg.private_scopes)
        (sym npm) (ap (by_npm glob cfg (trim_space pkg)) scoped)
