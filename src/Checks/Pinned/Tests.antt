-- ===== src/Checks/Pinned/Tests.antt =====
-- A small tree with a hash that gives the pinned digests, and the theorems at it.
use mathlib.Core.List.{Permᴰ}
use trelyan_falcon_inscripti.Prelude.{◌≡◌, refl, Bool, true, false, some, [], ◌∷◌, if◌then◌else◌}
use trelyan_falcon_inscripti.Prelude.Bytes.{Bytes, bytes_eq}
use trelyan_falcon_inscripti.Prelude.Text.{is_one_of}
use trelyan_falcon_inscripti.Checks.Pinned.{
  Entry, Sources, Pattern, emu_1, native_0, native_1, expected_tree, expected_det_c, split, ends_in,
  join, text_le, insert_text, sort_texts, with_slashes, paths_of, tree_lines, tree_digest,
  check_fp_backend, main,
}
use trelyan_falcon_inscripti.Checks.Pinned.Order.{walk_order_is_irrelevant}

abbrev root : Bytes
root = b'r' ∷ []

abbrev a_file : Entry
a_file = record { dir = root; name = b'a' ∷ [] }

abbrev b_file : Entry
b_file = record { dir = root; name = b'b' ∷ [] }

abbrev git_file : Entry
git_file = record { dir = b'r' ∷ b'/' ∷ b'.' ∷ b'g' ∷ b'i' ∷ b't' ∷ []; name = b'c' ∷ [] }

abbrev found : Pattern → Bool
found emu_1 = true
found native_0 = true
found native_1 = false

abbrev sources : Sources
sources = record {
  sep = b'/';
  relpath = λ path. path;
  read = λ path. path;
  sha512_256 = λ s. if bytes_eq s [] then expected_det_c else expected_tree;
  config_h = some [];
  deterministic_c = some [];
  search = λ pattern text. found pattern;
}

listed :
    paths_of sources (b_file ∷ git_file ∷ a_file ∷ [])
    ≡ (b'r' ∷ b'/' ∷ b'b' ∷ []) ∷ (b'r' ∷ b'/' ∷ b'a' ∷ []) ∷ []
unfolding paths_of split ends_in join is_one_of bytes_eq
listed = refl

pinned : main sources (root ∷ []) (b_file ∷ git_file ∷ a_file ∷ []) ≡ 0
unfolding main tree_digest tree_lines paths_of split ends_in join is_one_of bytes_eq text_le
    insert_text sort_texts with_slashes check_fp_backend
pinned = refl

walk_order_is_irrelevant_example :
    main sources (root ∷ []) (b_file ∷ a_file ∷ [])
    ≡ main sources (root ∷ []) (a_file ∷ b_file ∷ [])
walk_order_is_irrelevant_example =
    walk_order_is_irrelevant sources (root ∷ []) (b_file ∷ a_file ∷ []) (a_file ∷ b_file ∷ [])
      (Permᴰ.swap refl refl)
