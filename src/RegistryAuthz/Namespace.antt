-- ===== src/RegistryAuthz/Namespace.antt =====
-- `namespaceOf` of internal/registryauthz/authz.go.
use Prim.Native.Char.{code}
use Prim.Native.String.{◌++◌}
use text.Mathlib.TextLemmas.{nil-append, cons-append}
use specula.Prelude.{String, ◌≡◌, Bool, false, ◌||◌, none, some, arith, refl, eqb, ap, ◌∙◌}
use specula.RegistryAuthz.{before_slash, namespace_of}

abbrev pub has_slash : String → Bool
has_slash String.[] = false
has_slash (String.◌∷◌ c s) = eqb (code c) b'/' || has_slash s

before_slash-append :
    (org rest : String) → has_slash org ≡ false → before_slash (org ++ "/" ++ rest) ≡ some org
unfolding before_slash
before_slash-append String.[] rest h =
    ap before_slash (nil-append ("/" ++ rest)) ∙ ap before_slash (cons-append "/" "" rest)
before_slash-append (String.◌∷◌ c s) rest h =
    rw (cons-append c s ("/" ++ rest)) (ground (arith, before_slash-append s rest))

before_slash-none : (name : String) → has_slash name ≡ false → before_slash name ≡ none
unfolding before_slash
before_slash-none String.[] h = refl
before_slash-none (String.◌∷◌ c s) h = ground (arith, before_slash-none s)

-- The namespace of "<org>/<rest>" is <org>, where <org> has no slash; a name with no slash has none.
pub namespace_of-append :
    (org rest : String)
    → has_slash org ≡ false
    → (namespace_of (org ++ "/" ++ rest) ≡ org) × (namespace_of org ≡ "")
unfolding namespace_of
namespace_of-append org rest h =
    (ground (arith, before_slash-append org rest h), ground (arith, before_slash-none org h))
