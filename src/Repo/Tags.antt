-- ===== src/Repo/Tags.antt =====
-- internal/repo/sql.go: the rows of `repo_tags`, with the primary key (repo_id, tag), and the writes of
-- `repos` that touch them. Times of the last push are nanoseconds.
pub mod Pointers
use Prim.Native.String.{compare}
use Prim.Native.Nat.{Ordering}
use specula.Prelude.{
  String, Bool, true, false, not, ◌&&◌, Option, none, some, List, [], ◌∷◌, ◌==◌, keep,
  if◌then◌else◌,
}
use specula.Prelude.Int.{ℤ}
use specula.Prelude.Text.{trim_space}
use specula.Repo.{Repo, normalize_visibility}

pub record Tag : Type 0 where
  pub repo_id : String
  pub tag : String
  pub digest : String
  pub updated_at : ℤ

unfoldable pub is_tag : String → String → Tag → Bool
is_tag repo_id tag t = t.repo_id == repo_id && t.tag == tag

unfoldable pub get_tag : String → String → List Tag → Option Tag
unfolding is_tag
get_tag repo_id tag [] = none
get_tag repo_id tag (t ∷ ts) = if is_tag repo_id tag t then some t else get_tag repo_id tag ts

-- INSERT … ON CONFLICT(repo_id, tag) DO UPDATE
unfoldable pub put_tag : ℤ → String → String → String → List Tag → List Tag
unfolding is_tag
put_tag now repo_id tag digest [] =
    record { repo_id = repo_id; tag = tag; digest = digest; updated_at = now } ∷ []
put_tag now repo_id tag digest (t ∷ ts) =
    let rest = put_tag now repo_id tag digest ts in
    if is_tag repo_id tag t then record t { digest = digest; updated_at = now } ∷ ts else t ∷ rest

unfoldable pub delete_tag : String → String → List Tag → List Tag
unfolding is_tag
delete_tag repo_id tag ts = keep (λ t. not (is_tag repo_id tag t)) ts

-- ORDER BY tag ASC
insert_tag : Tag → List Tag → List Tag
insert_tag t [] = t ∷ []
insert_tag t (u ∷ us) =
    let rest = insert_tag t us in
    elim (compare t.tag u.tag) [ Ordering.gt ↦ u ∷ rest | _ ↦ t ∷ u ∷ us ]

sort_tags : List Tag → List Tag
unfolding insert_tag
sort_tags [] = []
sort_tags (t ∷ ts) = insert_tag t (sort_tags ts)

unfoldable pub list_tags : String → List Tag → List Tag
unfolding sort_tags
list_tags repo_id ts = sort_tags (keep (λ t. t.repo_id == repo_id) ts)

unfoldable pub is_row : String → String → Repo → Bool
is_row org_id name r = r.org_id == org_id && r.name == name

unfoldable pub set_visibility : String → String → String → List Repo → List Repo
unfolding is_row
set_visibility org_id name v [] = []
set_visibility org_id name v (r ∷ rs) =
    (if is_row org_id (trim_space name) r
      then record r { visibility = normalize_visibility v }
      else r)
    ∷ set_visibility org_id name v rs

abbrev id_of : String → String → List Repo → Option String
id_of org_id name [] = none
id_of org_id name (r ∷ rs) =
    if r.org_id == org_id && r.name == name then some r.id else id_of org_id name rs

abbrev without : Option String → List Repo → List Tag → Option (List Repo × List Tag)
without none rs ts = none
without (some id) rs ts =
    some (keep (λ r. not (r.id == id)) rs, keep (λ t. not (t.repo_id == id)) ts)

-- DeleteRepo, a transaction on both tables: `none` is ErrNotFound.
unfoldable pub delete_repo : String → String → List Repo → List Tag → Option (List Repo × List Tag)
delete_repo org_id name rs ts = without (id_of org_id (trim_space name) rs) rs ts
