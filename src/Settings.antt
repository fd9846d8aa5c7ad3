-- ===== src/Settings.antt =====
-- internal/settings/resolver.go: runtime overrides of registered settings over the values of the bootstrap.
-- The encrypted store is a map that may be disabled or fail; the reload hooks and the parsers of durations
-- and floats are parameters. The state keeps the overrides and the calls of the hooks, the last one first.
pub mod Changes
pub mod Display
use specula.Prelude.{
  ℕ, ◌-◌, String, Bool, true, false, ◌||◌, ◌&&◌, not, Option, none, some, List, [], ◌∷◌, ◌==◌, any,
  length, is_some, leb, if◌then◌else◌,
}
use specula.Prelude.Text.{trim_space, to_lower}
use specula.Prelude.Strings.{parse_int}
use specula.Meta.Listing.{drop}
use specula.Org.Store.{Slot, lookup, erase, insert}

pub data Kind : Type 0 where
  string secret list duration boolean int float enum : Kind

pub record Setting : Type 0 where
  pub key : String
  pub kind : Kind
  pub allowed : List String

pub data Source : Type 0 where
  runtime env unset : Source

pub data Error : Type 0 where
  unknown_key config_disabled : Error
  validation : String → Error
  store_failed hook_failed : String → Error

-- A hook's answer is its error.
pub record Resolver : Type 0 where
  pub registry : List Setting
  pub bootstrap : String → String
  pub hook : String → Option (String → Option String)
  pub parse_duration : String → Bool
  pub parse_float : String → Bool

-- `enabled` is false where there is no store or no master key.
pub record State : Type 0 where
  pub enabled : Bool
  pub overrides : List (Slot String)
  pub fired : List (String × String)

abbrev find_setting : String → List Setting → Option Setting
find_setting key [] = none
find_setting key (s ∷ ss) = if s.key == key then some s else find_setting key ss

-- Registry.Lookup
unfoldable pub registered : Resolver → String → Option Setting
registered r key = find_setting key r.registry

-- A store that fails is read as one without the override.
abbrev pub read_override : Bool → Bool → Option String → Option String
read_override false fault v = none
read_override true true v = none
read_override true false v = v

unfoldable pub override : Bool → String → State → Option String
override fault key s = read_override s.enabled fault (lookup key s.overrides)

abbrev pub value_of : Resolver → String → Option String → String
value_of r key (some v) = v
value_of r key none = r.bootstrap key

abbrev pub effective_of : Resolver → String → Option Setting → Option String → Option String
effective_of r key none v = none
effective_of r key (some s) v = some (value_of r key v)

-- `none` is ErrUnknownKey. `fault` says that the store cannot be read.
unfoldable pub effective : Resolver → Bool → String → State → Option String
unfolding registered override
effective r fault key s = effective_of r key (registered r key) (override fault key s)

abbrev pub source_from : Resolver → String → Option String → Source
source_from r key (some v) = runtime
source_from r key none = if r.bootstrap key == "" then unset else env

abbrev pub source_of : Resolver → String → Option Setting → Option String → Option Source
source_of r key none v = none
source_of r key (some s) v = some (source_from r key v)

unfoldable pub source : Resolver → Bool → String → State → Option Source
unfolding registered override
source r fault key s = source_of r key (registered r key) (override fault key s)

abbrev of_kind : Resolver → Kind → List String → String → Bool
of_kind r duration allowed v = r.parse_duration v
of_kind r boolean allowed v =
    let w = to_lower v in
    w == "0" || w == "1" || w == "true" || w == "false" || w == "yes" || w == "no"
of_kind r int allowed v = is_some (parse_int v)
of_kind r float allowed v = r.parse_float v
of_kind r enum allowed v = any (λ a. a == v) allowed
of_kind r string allowed v = true
of_kind r secret allowed v = true
of_kind r list allowed v = true

-- validate: a blank value is always allowed.
unfoldable pub validate : Resolver → Kind → List String → String → Bool
validate r kind allowed value =
    let v = trim_space value in if v == "" then true else of_kind r kind allowed v

abbrev hook_error : Option String → Option Error
hook_error none = none
hook_error (some e) = some (hook_failed e)

abbrev called :
    String → Option (String → Option String) → Option String → State → Option Error × State
called key none v s = (none, s)
called key (some h) none s = (some unknown_key, s)
called key (some h) (some v) s = (hook_error (h v), record s { fired = (key, v) ∷ s.fired })

-- fire: the hook of the key sees the value that is effective now.
unfoldable pub fire : Resolver → Bool → String → State → Option Error × State
unfolding effective
fire r fault key s = called key (r.hook key) (effective r fault key s) s

-- The failures of the store: of the write, and of the read for the hook.
pub record Faults : Type 0 where
  pub write : Option String
  pub read : Bool

abbrev pub changed :
    Resolver
    → Faults
    → String
    → Bool
    → Option String
    → List (Slot String)
    → State
    → Option Error × State
changed r w key false fault os s = (some config_disabled, s)
changed r w key true (some e) os s = (some (store_failed e), s)
changed r w key true none os s = fire r w.read key (record s { overrides = os })

abbrev pub set_registered :
    Resolver → Faults → String → String → Option Setting → State → Option Error × State
set_registered r w key value none s = (some unknown_key, s)
set_registered r w key value (some d) s =
    if validate r d.kind d.allowed value
    then changed r w key s.enabled w.write (insert key value s.overrides) s
    else (some (validation value), s)

-- Set
unfoldable pub set : Resolver → Faults → String → String → State → Option Error × State
unfolding registered validate fire
set r w key value s = set_registered r w key value (registered r key) s

abbrev pub clear_registered :
    Resolver → Faults → String → Option Setting → State → Option Error × State
clear_registered r w key none s = (some unknown_key, s)
clear_registered r w key (some d) s = changed r w key s.enabled w.write (erase key s.overrides) s

-- Clear
unfoldable pub clear : Resolver → Faults → String → State → Option Error × State
unfolding registered fire
clear r w key s = clear_registered r w key (registered r key) s

-- Redacted, on the bytes of a secret: the length and the last bytes that it shows.
unfoldable pub redacted : List ℕ → Option (ℕ × List ℕ)
redacted [] = none
redacted (b ∷ bs) =
    let value = b ∷ bs in
    some (length value, if leb (length value) 4 then value else drop (length value - 4) value)
