-- ===== src/Prelude/Text.antt =====
-- What the program uses of Go's `strings` package: `TrimSpace`, and `ToLower(TrimSpace(s))` as the
-- code points of the result. ASCII letters are lowered, and the white space of Latin-1 is trimmed.
use Prim.Native.Nat.{ℕ, zero, suc, ◌+◌, ◌-◌}
use Prim.Native.Char.{Char, code}
use Prim.Native.String.{String}
use mathlib.Core.Bool.{Bool, true, false, ◌&&◌, ◌||◌}
use mathlib.Core.List.{List, [], ◌∷◌, map}
use specula.Prelude.Tests.{leb, eqb, if◌then◌else◌}

abbrev pub codes : String → List ℕ
codes String.[] = []
codes (String.◌∷◌ c s) = code c ∷ codes s

abbrev pub codes_eq : List ℕ → List ℕ → Bool
codes_eq [] [] = true
codes_eq (x ∷ xs) (y ∷ ys) = eqb x y && codes_eq xs ys
codes_eq _ _ = false

is_space : ℕ → Bool
is_space c = (leb 9 c && leb c 13) || eqb c 32 || eqb c 0x85 || eqb c 0xa0

trim_left : String → String
trim_left String.[] = String.[]
trim_left (String.◌∷◌ c s) =
    let rest = trim_left s in if is_space (code c) then rest else String.◌∷◌ c s

reverse_onto : String → String → String
reverse_onto String.[] acc = acc
reverse_onto (String.◌∷◌ c s) acc = reverse_onto s (String.◌∷◌ c acc)

lower_code : ℕ → ℕ
lower_code c = if leb b'A' c && leb c b'Z' then c + 32 else c

letter : ℕ → String → Char → Char
letter n String.[] c = c
letter zero (String.◌∷◌ a s) c = a
letter (suc n) (String.◌∷◌ a s) c = letter n s c

lower_char : Char → Char
unfolding letter
lower_char c =
    if leb b'A' (code c) && leb (code c) b'Z'
    then letter (code c - b'A') "abcdefghijklmnopqrstuvwxyz" c
    else c

-- strings.ToLower(s)
unfoldable pub to_lower : String → String
unfolding lower_char
to_lower String.[] = String.[]
to_lower (String.◌∷◌ c s) = String.◌∷◌ (lower_char c) (to_lower s)

-- strings.TrimSpace(s)
unfoldable pub trim_space : String → String
unfolding is_space trim_left reverse_onto
trim_space s = reverse_onto (trim_left (reverse_onto (trim_left s) String.[])) String.[]

-- strings.ToLower(strings.TrimSpace(s)) == t
unfoldable pub folds_to : String → String → Bool
unfolding trim_space lower_code
folds_to s t = codes_eq (map lower_code (codes (trim_space s))) (codes t)

abbrev pub starts_with : List ℕ → List ℕ → Bool
starts_with _ [] = true
starts_with [] (y ∷ ys) = false
starts_with (x ∷ xs) (y ∷ ys) = eqb x y && starts_with xs ys

occurs : List ℕ → List ℕ → Bool
occurs t [] = starts_with [] t
occurs t (x ∷ xs) = starts_with (x ∷ xs) t || occurs t xs

-- strings.Contains(strings.ToLower(s), t)
unfoldable pub folded_contains : String → String → Bool
unfolding lower_code occurs
folded_contains s t = occurs (codes t) (map lower_code (codes s))
