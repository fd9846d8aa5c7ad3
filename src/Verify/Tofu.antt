-- ===== src/Verify/Tofu.antt =====
-- internal/verify/tofu.go: trust on first use. The pins live behind an interface; the adapter of
-- cmd/specula/main.go keeps them in the mutable table, under keys of their own.
pub mod Pins
pub mod Adapter
use Prim.Native.String.{◌++◌}
use specula.Prelude.{String, ◌≡◌, Bool, Option, none, some, List, ◌==◌, not, if◌then◌else◌}
use specula.Prelude.Int.{ℤ, minus_one}
use specula.Artifact.{
  ArtifactRef, Artifact, MutableEntry, Result, pass, warn, fail, skip, tofu, tofu_mutable,
  tofu_read_error, tofu_pin_error, first_lock, digest_changed, digest_confirmed,
}
use specula.Meta.{Store, get_mutable, put_mutable}
use specula.Verify.{Answer, Verifier, result_of}

-- "" is no pin.
pub data PinRead : Type 0 where
  pin : String → PinRead
  read_error : String → PinRead

pub record TofuStore (S : Type 0) : Type 0 where
  pub get_pin : String → S → PinRead
  pub set_pin : String → String → S → Option String × S

-- What the program relies on: a pin that was set without an error is read back, and no other pin
-- changes.
pub record IsLawful {S : Type 0} (t : TofuStore S) : Type 0 where
  pub read_back :
      (k d : String) (s : S) → (t.set_pin k d s).0 ≡ none → t.get_pin k (t.set_pin k d s).1 ≡ pin d
  pub others :
      (k j d : String) (s : S)
      → (k == j) ≡ Bool.false
      → t.get_pin j (t.set_pin k d s).1 ≡ t.get_pin j s

unfoldable pub tofu_key : ArtifactRef → String
tofu_key ref = ref.protocol ++ ":" ++ ref.name ++ "@" ++ ref.version

module _ {S : Type 0} (t : TofuStore S) where
  -- The write of a first pin, by its error.
  abbrev pub locked : String → String → S → Option String × S → Answer S
  locked key digest s (none, s') = record {
    result = result_of warn tofu (first_lock key digest);
    error = none;
    state = s';
  }
  locked key digest s (some e, s') = record {
    result = result_of fail tofu (tofu_pin_error key e);
    error = some e;
    state = s';
  }

  abbrev pub compared : String → String → S → PinRead → Answer S
  compared key digest s (read_error e) = record {
    result = result_of fail tofu (tofu_read_error key e);
    error = some e;
    state = s;
  }
  compared key digest s (pin pinned) =
      if pinned == ""
      then locked key digest s (t.set_pin key digest s)
      else if not (pinned == digest)
      then record {
        result = result_of fail tofu (digest_changed key pinned digest);
        error = none;
        state = s;
      }
      else record {
        result = result_of pass tofu (digest_confirmed key digest);
        error = none;
        state = s;
      }

  unfoldable pub verify_tofu : ArtifactRef → Artifact → S → Answer S
  unfolding tofu_key
  verify_tofu ref art s =
      if ref.mutable
      then record { result = result_of skip tofu tofu_mutable; error = none; state = s }
      else compared (tofu_key ref) art.digest s (t.get_pin (tofu_key ref) s)

  unfoldable pub verifier : Verifier S
  unfolding verify_tofu
  verifier = record { name = "tofu"; tier = tofu; verify = verify_tofu }

-- cmd/specula/main.go
unfoldable pub meta_key : String → String
meta_key key = "tofu:" ++ key

abbrev pub pin_entry : ℤ → String → String → MutableEntry
pin_entry now key digest = record {
  key = meta_key key;
  protocol = "tofu";
  digest = digest;
  payload = List.[];
  etag = "";
  last_modified = "";
  ttl_seconds = minus_one;
  upstream = "";
  fetched_at = now;
}

abbrev pub pin_of : Option MutableEntry → PinRead
pin_of none = pin ""
pin_of (some e) = pin e.digest

-- `fault` is the error of a database that is down, `now` the clock.
unfoldable pub meta_tofu_store : Option String → ℤ → TofuStore Store
unfolding meta_key
meta_tofu_store fault now = record {
  get_pin = λ key s. elim fault [
    | none ↦ pin_of (get_mutable (meta_key key) s.mutables)
    | some e ↦ read_error e
  ];
  set_pin = λ key digest s. elim fault [
    | none ↦ (none, record s { mutables = put_mutable (pin_entry now key digest) s.mutables })
    | some e ↦ (some e, s)
  ];
}
