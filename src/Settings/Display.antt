-- ===== src/Settings/Display.antt =====
-- What Redacted of internal/settings/resolver.go shows of a secret.
use specula.Prelude.{ℕ, ◌-◌, ◌≤◌, ◌≡◌, ◌↔◌, Bool, List, ◌++◌, length, if◌then◌else◌}
use specula.Meta.Listing.{drop}

-- The bytes shown are the last ones of the value.
abbrev pub Ends : List ℕ → List ℕ → Type 0
Ends shown value = (hidden : List ℕ) × (hidden ++ shown ≡ value)

abbrev last_of : List ℕ → Bool → List ℕ
last_of value b = if b then value else drop (length value - 4) value

-- `shown` is what a value shows.
record Shows (value shown : List ℕ) : Type 0 where
  ends : Ends shown value
  few : length shown ≤ 4
  whole : (shown ≡ value) ↔ (length value ≤ 4)
