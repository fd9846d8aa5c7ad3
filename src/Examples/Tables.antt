-- ===== src/Examples/Tables.antt =====
-- The theorems on the tables of grants and of metadata at concrete inputs.
use specula.Prelude.{◌+◌, String, ◌≡◌, ◌≢◌, none, ◌==◌, refl, inl, if◌then◌else◌}
use specula.Prelude.Int.{pos}
use specula.Artifact.{normalize_origin, origin_cached}
use specula.Grant.{Grant}
use specula.Meta
use specula.Meta.{Row, same_ref, find_row, stored, get_mutable, put_mutable, size_of_origin}
use specula.Meta.Rows.{size-delete}
use specula.Examples.{six, row_at, small_cache, small-IsUnique}

abbrev shared : Grant
shared = record {
  resource_type = "repo";
  resource_id = "r1";
  subject_type = "org";
  subject_id = "initech";
  access = "read";
  granted_by = "ann";
  created_at = none;
}

initech_named : ◌≢◌ {A = String} "initech" ""
initech_named h = cc

size-delete_example :
    size_of_origin origin_cached small_cache.rows
    ≡ size_of_origin origin_cached (Meta.delete (record six { name = "old" }) small_cache.rows)
      + (if normalize_origin origin_cached == origin_cached then 2 else 0)
size-delete_example =
    size-delete origin_cached (row_at "old" "d3" 2 (pos 1)) small_cache.rows small-IsUnique
      (inl refl)
