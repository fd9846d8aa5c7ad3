-- ===== src/Verify/Tofu/Adapter.antt =====
-- The adapter of cmd/specula/main.go that keeps pins in the mutable table is a lawful store of pins.
use Prim.Native.String.{◌++◌}
use text.Mathlib.TextLemmas.{append_cancel_left}
use specula.Prelude.{
  String, ◌≡◌, Option, none, some, ◌==◌, eq_iff, eq_refl, arith, refl, ◌∙◌, List, if◌then◌else◌,
}
use specula.Prelude.Int.{ℤ}
use specula.Artifact.{MutableEntry}
use specula.Meta.{get_mutable, put_mutable}
use specula.Meta.Rows.{get-put_mutable}
use specula.Verify.Tofu.{IsLawful, meta_key, pin_entry, pin_of, meta_tofu_store}

meta_key_injective : (k j : String) → (meta_key k == meta_key j) ≡ (k == j)
unfolding meta_key
meta_key_injective k j =
    ground (arith, eq_iff k j, eq_iff ("tofu:" ++ k) ("tofu:" ++ j), append_cancel_left "tofu:" k j)

read_put :
    (now : ℤ) (k j d : String) (es : List MutableEntry)
    → pin_of (get_mutable (meta_key j) (put_mutable (pin_entry now k d) es))
      ≡ (if k == j then pin_of (some (pin_entry now k d)) else pin_of (get_mutable (meta_key j) es))
read_put now k j d es =
    ground (arith, get-put_mutable (pin_entry now k d) (meta_key j) es, meta_key_injective k j)

-- The adapter keeps the promises of a store of pins, whether the database is up or down.
pub meta_tofu_store-IsLawful :
    (fault : Option String) (now : ℤ) → IsLawful (meta_tofu_store fault now)
unfolding meta_tofu_store
meta_tofu_store-IsLawful none now = record {
  read_back = λ k d s _. read_put now k k d s.mutables ∙ rw (eq_refl k);
  others = λ k j d s f. read_put now k j d s.mutables ∙ rw f;
}
meta_tofu_store-IsLawful (some e) now = record {
  read_back = λ k d s h. cc;
  others = λ k j d s f. refl;
}
