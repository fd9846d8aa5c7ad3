-- ===== src/Prelude/Strings.antt =====
-- What the program uses of Go's `strings` and `strconv` packages to take a text apart: `CutPrefix`,
-- `Cut` at the first or the last place of a separator, `HasSuffix` with `TrimSuffix`, `Split`, and
-- `ParseInt` in base 10 with 64 bits.
use Prim.Native.Nat.{ℕ, zero, ◌+◌, ◌-◌, ◌*◌, ◌^◌}
use Prim.Native.Char.{Char, code}
use Prim.Native.String.{String}
use mathlib.Core.Bool.{Bool, true, false, ◌&&◌}
use mathlib.Core.Option.{Option, none, some}
use mathlib.Core.List.{List, [], ◌∷◌}
use specula.Prelude.Tests.{leb, ltb, eqb, if◌then◌else◌}
use specula.Prelude.Int.{ℤ, pos, negsuc}

-- The text after a prefix.
unfoldable pub cut_prefix : String → String → Option String
cut_prefix String.[] s = some s
cut_prefix (String.◌∷◌ c p) String.[] = none
cut_prefix (String.◌∷◌ c p) (String.◌∷◌ d s) =
    let rest = cut_prefix p s in if eqb (code c) (code d) then rest else none

abbrev add_front : Char → Option (String × String) → Option (String × String)
add_front c none = none
add_front c (some (before, after)) = some (String.◌∷◌ c before, after)

abbrev first_of : Option String → Option (String × String) → Option (String × String)
first_of none next = next
first_of (some after) next = some (String.[], after)

abbrev last_of : Option String → Option (String × String) → Option (String × String)
last_of here (some at) = some at
last_of none none = none
last_of (some after) none = some (String.[], after)

-- s[:i] and s[i+len(sep):] for i = strings.Index(s, sep)
unfoldable pub cut_first : String → String → Option (String × String)
unfolding cut_prefix
cut_first sep String.[] = first_of (cut_prefix sep String.[]) none
cut_first sep (String.◌∷◌ c s) =
    first_of (cut_prefix sep (String.◌∷◌ c s)) (add_front c (cut_first sep s))

-- The same for i = strings.LastIndex(s, sep)
unfoldable pub cut_last : String → String → Option (String × String)
unfolding cut_prefix
cut_last sep String.[] = last_of (cut_prefix sep String.[]) none
cut_last sep (String.◌∷◌ c s) =
    last_of (cut_prefix sep (String.◌∷◌ c s)) (add_front c (cut_last sep s))

abbrev before_end : Option (String × String) → Option String
before_end none = none
before_end (some (before, String.[])) = some before
before_end (some (before, String.◌∷◌ c s)) = none

-- The text before a suffix.
unfoldable pub cut_suffix : String → String → Option String
unfolding cut_last
cut_suffix suffix s = before_end (cut_last suffix s)

abbrev part_front : Char → List String → List String
part_front c [] = String.◌∷◌ c String.[] ∷ []
part_front c (p ∷ ps) = String.◌∷◌ c p ∷ ps

-- strings.Split(s, sep), where sep is one byte
unfoldable pub split : ℕ → String → List String
split sep String.[] = String.[] ∷ []
split sep (String.◌∷◌ c s) =
    let rest = split sep s in if eqb (code c) sep then String.[] ∷ rest else part_front c rest

abbrev digits_onto : ℕ → String → Option ℕ
digits_onto acc String.[] = some acc
digits_onto acc (String.◌∷◌ c s) =
    let rest = digits_onto (10 * acc + (code c - b'0')) s in
    if leb b'0' (code c) && leb (code c) b'9' then rest else none

-- One digit or more.
abbrev natural : String → Option ℕ
natural String.[] = none
natural (String.◌∷◌ c s) = digits_onto 0 (String.◌∷◌ c s)

abbrev negative : ℕ → ℤ
negative zero = pos 0
negative n = negsuc (n - 1)

abbrev bounded : Bool → Option ℕ → Option ℤ
bounded minus none = none
bounded true (some n) = if leb n (2 ^ 63) then some (negative n) else none
bounded false (some n) = if ltb n (2 ^ 63) then some (pos n) else none

-- strconv.ParseInt(s, 10, 64)
unfoldable pub parse_int : String → Option ℤ
parse_int String.[] = none
parse_int (String.◌∷◌ c s) =
    if eqb (code c) b'-'
    then bounded true (natural s)
    else if eqb (code c) b'+'
    then bounded false (natural s)
    else bounded false (natural (String.◌∷◌ c s))
