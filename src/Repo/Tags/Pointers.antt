-- ===== src/Repo/Tags/Pointers.antt =====
-- What the writes of repo_tags in internal/repo/sql.go leave.
use specula.Prelude.{
  String, true, false, not, ◌&&◌, ◌≡◌, ◌≢◌, refl, inl, inr, none, some, List, [], ◌∷◌, arith,
  eq_iff, keep, Bool-cases, ◌==◌, In, In-keep, keep-In,
}
use specula.Prelude.Int.{ℤ}
use specula.Repo.Tags.{Tag, is_tag, get_tag, put_tag, delete_tag, list_tags, sort_tags, insert_tag}

is_tag_refl :
    (now : ℤ) (id tag digest : String)
    → is_tag id tag (record { repo_id = id; tag = tag; digest = digest; updated_at = now }) ≡ true
unfolding is_tag
is_tag_refl now id tag digest = ground (arith, eq_iff id id, eq_iff tag tag)

-- The tag that was put is found, with its digest.
pub put_tag-get :
    (now : ℤ) (id tag digest : String) (ts : List Tag)
    → (t : Tag) × (get_tag id tag (put_tag now id tag digest ts) ≡ some t) × (t.digest ≡ digest)
unfolding get_tag put_tag is_tag
put_tag-get now id tag digest [] = (
  record { repo_id = id; tag = tag; digest = digest; updated_at = now },
  ground (arith, is_tag_refl now id tag digest),
  refl,
)
put_tag-get now id tag digest (t ∷ ts) = elim (Bool-cases (t.repo_id == id && t.tag == tag)) [
  | inl here ↦ (record t { digest = digest; updated_at = now }, ground arith, refl)
  | inr there ↦ let (u, found, same) = put_tag-get now id tag digest ts in (u, ground arith, same)
]

-- A deleted tag is not found, and the others stay.
pub delete_tag-get :
    (id tag other : String) (ts : List Tag)
    → (get_tag id tag (delete_tag id tag ts) ≡ none)
      × (other ≢ tag → get_tag id other (delete_tag id tag ts) ≡ get_tag id other ts)
unfolding get_tag delete_tag is_tag
delete_tag-get id tag other [] = (refl, λ h. refl)
delete_tag-get id tag other (t ∷ ts) =
    let (gone, stays) = delete_tag-get id tag other ts in
    elim (Bool-cases (t.repo_id == id && t.tag == tag)) [
      | inl here ↦
          (ground arith, λ h. ground (arith, stays h, eq_iff t.tag tag, eq_iff t.tag other))
      | inr there ↦ (ground arith, λ h. ground (arith, stays h))
    ]

In-insert_tag : (u t : Tag) (us : List Tag) → In u (t ∷ us) → In u (insert_tag t us)
unfolding insert_tag
In-insert_tag u t [] h = h
In-insert_tag u t (x ∷ us) h = ground (arith, In-insert_tag u t us)

In-sort_tags : (u : Tag) (ts : List Tag) → In u ts → In u (sort_tags ts)
unfolding sort_tags
In-sort_tags u [] h = h
In-sort_tags u (t ∷ ts) (inl here) = In-insert_tag u t (sort_tags ts) (inl here)
In-sort_tags u (t ∷ ts) (inr there) =
    In-insert_tag u t (sort_tags ts) (inr (In-sort_tags u ts there))

-- A row of the repository is listed.
pub In-list_tags :
    (u : Tag) (id : String) (ts : List Tag) → In u ts → u.repo_id ≡ id → In u (list_tags id ts)
unfolding list_tags
In-list_tags u id ts m own =
    In-sort_tags u (keep (λ t. t.repo_id == id) ts)
      (keep-In (λ t. t.repo_id == id) u ts m (ground (arith, eq_iff u.repo_id id)))

-- A deleted row is gone, and no row is new.
pub In-delete_tag :
    (u : Tag) (id tag : String) (ts : List Tag)
    → In u (delete_tag id tag ts)
    → In u ts × (is_tag id tag u ≡ false)
unfolding delete_tag
In-delete_tag u id tag ts h =
    let (m, q) = In-keep (λ t. not (is_tag id tag t)) u ts h in (m, ground arith)
