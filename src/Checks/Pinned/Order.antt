-- ===== src/Checks/Pinned/Order.antt =====
-- The digest of a tree does not depend on the order in which os.walk lists the files.
use mathlib.Core.List.{Permᴰ}
use trelyan_falcon_inscripti.Prelude.{
  ◌≡◌, refl, sym, ap, ◌∙◌, arith, true, false, if◌then◌else◌, List, [], ◌∷◌, Bool-cases, inl, inr,
}
use trelyan_falcon_inscripti.Prelude.Bytes.{Bytes}
use trelyan_falcon_inscripti.Checks.Pinned.{
  Entry, Sources, text_le, insert_text, sort_texts, paths_of, tree_digest, main, has_git, split,
  join,
}

-- `<=` on texts is a linear order.
text_le_antisym : (s t : Bytes) → text_le s t ≡ true → text_le t s ≡ true → s ≡ t
unfolding text_le
text_le_antisym [] [] h k = refl
text_le_antisym [] (b ∷ t) h k = cc
text_le_antisym (a ∷ s) [] h k = cc
text_le_antisym (a ∷ s) (b ∷ t) h k = ground (arith, text_le_antisym s t)

text_le_total : (s t : Bytes) → text_le s t ≡ false → text_le t s ≡ true
unfolding text_le
text_le_total [] t h = cc
text_le_total (a ∷ s) [] h = refl
text_le_total (a ∷ s) (b ∷ t) h = ground (arith, text_le_total s t)

text_le_trans : (s t u : Bytes) → text_le s t ≡ true → text_le t u ≡ true → text_le s u ≡ true
unfolding text_le
text_le_trans [] t u h k = refl
text_le_trans (a ∷ s) [] u h k = cc
text_le_trans (a ∷ s) (b ∷ t) [] h k = cc
text_le_trans (a ∷ s) (b ∷ t) (c ∷ u) h k = ground (arith, text_le_trans s t u)

insert_text_comm :
    (s t : Bytes) (us : List Bytes)
    → insert_text s (insert_text t us) ≡ insert_text t (insert_text s us)
unfolding insert_text
insert_text_comm s t [] = ground (arith, text_le_antisym s t, text_le_total s t, text_le_total t s)
insert_text_comm s t (u ∷ us) = ground (
  arith,
  insert_text_comm s t us,
  text_le_antisym s t,
  text_le_total s t,
  text_le_total t s,
  text_le_trans s t u,
  text_le_trans t s u,
)

module _ (sources : Sources) where
  -- One entry in front of a sorted listing.
  add_entry : Entry → List Bytes → List Bytes
  add_entry entry files =
      if has_git (split sources.sep entry.dir)
      then files
      else insert_text (join sources.sep entry.dir entry.name) files

  sort_step :
      (entry : Entry) (entries : List Entry)
      → sort_texts (paths_of sources (entry ∷ entries))
        ≡ add_entry entry (sort_texts (paths_of sources entries))
  unfolding paths_of sort_texts add_entry
  sort_step entry entries = elim (Bool-cases (has_git (split sources.sep entry.dir))) [
    | inl e ↦ rw e refl
    | inr e ↦ rw e refl
  ]

  add_entry_comm :
      (e f : Entry) (files : List Bytes)
      → add_entry e (add_entry f files) ≡ add_entry f (add_entry e files)
  unfolding add_entry
  add_entry_comm e f files =
      let both =
        insert_text_comm (join sources.sep e.dir e.name) (join sources.sep f.dir f.name) files in
      elim (Bool-cases (has_git (split sources.sep e.dir))) [
        | inl p ↦ rw p refl
        | inr p ↦ elim (Bool-cases (has_git (split sources.sep f.dir))) [
          | inl q ↦ rw (p, q) refl
          | inr q ↦ rw (p, q) both
        ]
      ]

  sort-Permᴰ :
      (es fs : List Entry)
      → Permᴰ es fs
      → sort_texts (paths_of sources es) ≡ sort_texts (paths_of sources fs)
  sort-Permᴰ _ _ Permᴰ.nil = refl
  sort-Permᴰ _ _ (Permᴰ.cons {a} {b} {l₁} {l₂} e p) =
      sort_step a l₁ ∙ ap (add_entry a) (sort-Permᴰ l₁ l₂ p) ∙ rw e (sym (sort_step b l₂))
  sort-Permᴰ _ _ (Permᴰ.swap {a} {b} {a'} {b'} {l} e f) =
      sort_step a (b ∷ l)
      ∙ ap (add_entry a) (sort_step b l)
      ∙ add_entry_comm a b (sort_texts (paths_of sources l))
      ∙ rw (e, f) (sym (sort_step a' (b' ∷ l) ∙ ap (add_entry a') (sort_step b' l)))
  sort-Permᴰ _ _ (Permᴰ.trans {l₁} {l₂} {l₃} p q) = sort-Permᴰ l₁ l₂ p ∙ sort-Permᴰ l₂ l₃ q

  tree_digest-Permᴰ :
      (es fs : List Entry) → Permᴰ es fs → tree_digest sources es ≡ tree_digest sources fs
  unfolding tree_digest
  tree_digest-Permᴰ es fs p = rw (sort-Permᴰ es fs p) refl

  -- Whatever the order in which os.walk lists the same files, the exit code is the same.
  pub walk_order_is_irrelevant :
      (argv : List Bytes) (entries listed : List Entry)
      → Permᴰ entries listed
      → main sources argv entries ≡ main sources argv listed
  unfolding main
  walk_order_is_irrelevant [] entries listed p = refl
  walk_order_is_irrelevant (root ∷ []) entries listed p =
      ground (arith, tree_digest-Permᴰ entries listed p)
  walk_order_is_irrelevant (root ∷ other ∷ rest) entries listed p = refl
