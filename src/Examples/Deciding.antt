-- ===== src/Examples/Deciding.antt =====
-- Members, routes, verdicts and settings at concrete inputs.
use specula.Prelude.{
  ℕ, String, Bool, true, false, ◌≡◌, ◌≢◌, ◌↔◌, refl, sym, Option, none, some, List, [], ◌∷◌, eqb,
  inl, inr, arith, eq_iff, length, any, ◌==◌, if◌then◌else◌,
}
use specula.Prelude.Int.{pos}
use specula.Artifact.{fail, Artifact}
use specula.Examples.{six, wheel}
use specula.Org.Store.{
  Member, OrgStore, add_org_member, get_org_member, delete_org, get_org, list_org_members,
  list_invitations,
}
use specula.Org.Store.Members.{upserted, add_org_member-get, delete_org-cascade}
use specula.Routing.{route, authorizes, parse_resource_scope}
use specula.Routing.Scoped.{route-scope}
use specula.Verify.Consensus.ContentId.{Hashes}
use specula.Verify.Maturity.{MaturitySpec, verify_maturity}
use specula.Verify.Maturity.Exact.{TooYoung, verify_maturity-exact}
use specula.Verify.Confusion.{DepConfusionConfig, is_private, is_private-spelling}
use specula.Settings
use specula.Settings.{Resolver, State}

texts-differ : (s t : String) → (s == t) ≡ false → s ≢ t
texts-differ s t h = ground (arith, eq_iff s t)

abbrev bob : Member
bob = record {
  id = "m1";
  org_id = "acme";
  email = " Bob@Acme.io";
  role = "viewer";
  invited_by = "alice";
  created_at = some (pos 5);
}

abbrev staff : OrgStore
staff = add_org_member (pos 9) "m9" bob (record { orgs = []; members = []; invitations = [] })

add_org_member-get_example :
    let promoted : Member = record bob { role = "admin" } in
    (get_org_member "acme" " Bob@Acme.io" (add_org_member (pos 20) "m20" promoted staff)
      ≡ some (upserted (pos 20) "m20" promoted (get_org_member "acme" " Bob@Acme.io" staff)))
    × (get_org_member "other" "bob@acme.io" (add_org_member (pos 20) "m20" promoted staff)
        ≡ get_org_member "other" "bob@acme.io" staff)
unfolding specula.Org.Store.norm_email specula.Prelude.Text.to_lower specula.Prelude.Text.trim_space
    specula.Org.Store.member_key
add_org_member-get_example =
    add_org_member-get (pos 20) "m20" (record bob { role = "admin" }) "other" "bob@acme.io" staff
      refl (texts-differ "other\0bob@acme.io" "acme\0bob@acme.io" refl)

delete_org-cascade_example :
    (get_org "acme" (delete_org "acme" staff) ≡ none)
    × (list_org_members "acme" (delete_org "acme" staff) ≡ [])
    × (list_invitations "acme" (delete_org "acme" staff) ≡ [])
    × (list_org_members "other" (delete_org "acme" staff) ≡ list_org_members "other" staff)
delete_org-cascade_example =
    delete_org-cascade "acme" "other" staff (texts-differ "other" "acme" refl)

route-scope_example :
    parse_resource_scope "DELETE" "/v2/acme/app/manifests/v1" ≡ some ("acme/app", "delete")
unfolding authorizes route specula.Prelude.Strings.cut_prefix specula.Prelude.Strings.cut_first
    specula.Prelude.Strings.cut_last
route-scope_example = route-scope "DELETE" "/v2/acme/app/manifests/v1" ("acme/app", "delete") refl

-- One byte stands for a hash, and every text decodes to the byte 7.
abbrev toy_hashes : Hashes
toy_hashes = record {
  sum = λ algorithm b. length b ∷ [];
  hex = λ b. "00";
  decode = λ s. some (7 ∷ []);
}

abbrev seven : List ℕ
seven = 1 ∷ 2 ∷ 3 ∷ 4 ∷ 5 ∷ 6 ∷ 7 ∷ []

abbrev votes : List String
votes = "sha512-Bw" ∷ "sha512-Bx" ∷ "sha512-Bw" ∷ []

abbrev cool_down : List MaturitySpec
cool_down = record { protocol = "pypi"; min_age = pos 100; policy = "enforce" } ∷ []

abbrev fresh_wheel : Artifact
fresh_wheel = record wheel { meta = record wheel.meta { published_at = some (pos 950) } }

verify_maturity-exact_example :
    ((verify_maturity (λ s. none) (pos 1000) cool_down six fresh_wheel).status ≡ fail)
    ↔ TooYoung (λ s. none) (pos 1000) cool_down six fresh_wheel
verify_maturity-exact_example =
    verify_maturity-exact (λ s. none) (pos 1000) cool_down six fresh_wheel

abbrev manifest : DepConfusionConfig
manifest = record {
  protocol = "pypi";
  private_names = "Acme_Core" ∷ [];
  private_scopes = [];
  private_unscoped = [];
  fail_closed = true;
}

is_private-spelling_example : is_private (λ p n. false) manifest " acme--core" ≡ true
unfolding specula.Prelude.Text.trim_space specula.Verify.Confusion.normalize_pep503
    specula.Prelude.Text.to_lower
is_private-spelling_example =
    is_private-spelling (λ p n. false) manifest "Acme_Core" " acme--core" refl (inl refl)
      (texts-differ "Acme_Core" "" refl) (texts-differ "acme--core" "" refl) refl

abbrev toy_resolver : Resolver
toy_resolver = record {
  registry =
      record { key = "cache.max_bytes"; kind = Settings.int; allowed = [] }
      ∷ record { key = "auth.secret"; kind = Settings.secret; allowed = [] }
      ∷ [];
  bootstrap = λ k. "0";
  hook = λ k. some (λ v. none);
  parse_duration = λ v. false;
  parse_float = λ v. false;
}

abbrev defaults : State
defaults = record { enabled = true; overrides = []; fired = [] }

abbrev hunter : List ℕ
hunter = 104 ∷ 117 ∷ 110 ∷ 116 ∷ 101 ∷ 114 ∷ []

abbrev unter : List ℕ
unter = 110 ∷ 116 ∷ 101 ∷ 114 ∷ []
