-- ===== src/Checks/Pinned.antt =====
-- sdk/ci/verify_pinned_digest.py: a tree of Falcon sources against the pinned digests. What os.walk
-- lists, the files, os.path.relpath, hashlib and the three patterns are arguments.
pub mod Order
pub mod Exit
mod Tests
use trelyan_falcon_inscripti.Prelude.{
  ℕ, Bool, true, false, not, ◌&&◌, Option, none, some, List, [], ◌∷◌, ◌++◌, length, ltb, ◌==◌,
  if◌then◌else◌,
}
use trelyan_falcon_inscripti.Prelude.Bytes.{Bytes, bytes_eq}
use trelyan_falcon_inscripti.Prelude.Text.{is_one_of}

-- EXPECTED_TREE and EXPECTED_DET_C
abbrev pub expected_tree : Bytes
expected_tree =
    b'c' ∷ b'6' ∷ b'a' ∷ b'd' ∷ b'f' ∷ b'4' ∷ b'8' ∷ b'7' ∷ b'1' ∷ b'3' ∷ b'8' ∷ b'9' ∷ b'd' ∷ b'f'
    ∷ b'd' ∷ b'b' ∷ b'f' ∷ b'3' ∷ b'f' ∷ b'f' ∷ b'b' ∷ b'd' ∷ b'8' ∷ b'5' ∷ b'3' ∷ b'b' ∷ b'd'
    ∷ b'9' ∷ b'e' ∷ b'5' ∷ b'c' ∷ b'e' ∷ b'1' ∷ b'5' ∷ b'6' ∷ b'4' ∷ b'6' ∷ b'b' ∷ b'8' ∷ b'2'
    ∷ b'1' ∷ b'd' ∷ b'6' ∷ b'd' ∷ b'c' ∷ b'8' ∷ b'4' ∷ b'e' ∷ b'3' ∷ b'2' ∷ b'7' ∷ b'a' ∷ b'b'
    ∷ b'1' ∷ b'b' ∷ b'3' ∷ b'd' ∷ b'2' ∷ b'a' ∷ b'd' ∷ b'c' ∷ b'9' ∷ b'8' ∷ b'0' ∷ []

abbrev pub expected_det_c : Bytes
expected_det_c =
    b'6' ∷ b'0' ∷ b'1' ∷ b'3' ∷ b'9' ∷ b'0' ∷ b'd' ∷ b'c' ∷ b'5' ∷ b'3' ∷ b'5' ∷ b'2' ∷ b'1' ∷ b'f'
    ∷ b'c' ∷ b'1' ∷ b'b' ∷ b'0' ∷ b'0' ∷ b'e' ∷ b'b' ∷ b'9' ∷ b'6' ∷ b'2' ∷ b'e' ∷ b'a' ∷ b'6'
    ∷ b'3' ∷ b'd' ∷ b'6' ∷ b'4' ∷ b'c' ∷ b'2' ∷ b'd' ∷ b'6' ∷ b'5' ∷ b'b' ∷ b'f' ∷ b'e' ∷ b'7'
    ∷ b'7' ∷ b'4' ∷ b'4' ∷ b'5' ∷ b'0' ∷ b'c' ∷ b'f' ∷ b'4' ∷ b'e' ∷ b'c' ∷ b'5' ∷ b'9' ∷ b'a'
    ∷ b'3' ∷ b'4' ∷ b'7' ∷ b'8' ∷ b'e' ∷ b'0' ∷ b'a' ∷ b'5' ∷ b'4' ∷ b'a' ∷ b'4' ∷ []

-- A file that os.walk lists: the directory that it is listed under, and its name.
pub record Entry : Type 0 where
  pub dir : Bytes
  pub name : Bytes

-- The patterns for FALCON_FPEMU 1, FALCON_FPNATIVE 0 and FALCON_FPNATIVE 1.
pub data Pattern : Type 0 where
  emu_1 native_0 native_1 : Pattern

-- os.sep, the path of a file below the root, the contents of a file, the hex digest of bytes, config.h and
-- deterministic.c below the root, where `none` is a path that is no file, and `re.search`.
pub record Sources : Type 0 where
  pub sep : ℕ
  pub relpath : Bytes → Bytes
  pub read : Bytes → Bytes
  pub sha512_256 : Bytes → Bytes
  pub config_h : Option Bytes
  pub deterministic_c : Option Bytes
  pub search : Pattern → Bytes → Bool

-- `s.split(sep)`
abbrev pub onto_head : ℕ → List Bytes → List Bytes
onto_head c [] = (c ∷ []) ∷ []
onto_head c (part ∷ parts) = (c ∷ part) ∷ parts

unfoldable pub split : ℕ → Bytes → List Bytes
split sep [] = [] ∷ []
split sep (c ∷ s) = let rest = split sep s in if c == sep then [] ∷ rest else onto_head c rest

-- `os.path.join(r, f)`, which puts no second separator and none behind an empty text
unfoldable pub ends_in : ℕ → Bytes → Bool
ends_in sep [] = false
ends_in sep (c ∷ []) = c == sep
ends_in sep (c ∷ d ∷ s) = ends_in sep (d ∷ s)

unfoldable pub join : ℕ → Bytes → Bytes → Bytes
join sep [] name = name
join sep (c ∷ dir) name = if ends_in sep (c ∷ dir) then c ∷ dir ++ name else c ∷ dir ++ (sep ∷ name)

-- `s <= t` on texts
unfoldable pub text_le : Bytes → Bytes → Bool
text_le [] t = true
text_le (a ∷ s) [] = false
text_le (a ∷ s) (b ∷ t) =
    let rest = text_le s t in if ltb a b then true else (if a == b then rest else false)

unfoldable pub insert_text : Bytes → List Bytes → List Bytes
insert_text s [] = s ∷ []
insert_text s (t ∷ ts) = let rest = insert_text s ts in if text_le s t then s ∷ t ∷ ts else t ∷ rest

-- `sorted` on texts
unfoldable pub sort_texts : List Bytes → List Bytes
sort_texts [] = []
sort_texts (s ∷ ss) = insert_text s (sort_texts ss)

-- `s.replace(sep, "/")`
unfoldable pub with_slashes : ℕ → Bytes → Bytes
with_slashes sep [] = []
with_slashes sep (c ∷ s) = (if c == sep then b'/' else c) ∷ with_slashes sep s

abbrev pub git : List Bytes
git = (b'.' ∷ b'g' ∷ b'i' ∷ b't' ∷ []) ∷ []

abbrev pub has_git : List Bytes → Bool
has_git [] = false
has_git (part ∷ parts) = if is_one_of git part then true else has_git parts

module _ (sources : Sources) where
  -- The paths of the files outside .git directories.
  unfoldable pub paths_of : List Entry → List Bytes
  paths_of [] = []
  paths_of (entry ∷ entries) =
      let rest = paths_of entries in
      if has_git (split sources.sep entry.dir)
      then rest
      else (join sources.sep entry.dir entry.name ∷ rest)

  -- What the loop feeds to the hash.
  unfoldable pub tree_lines : List Bytes → Bytes
  tree_lines [] = []
  tree_lines (path ∷ paths) =
      with_slashes sources.sep (sources.relpath path)
      ++ (b':' ∷ (sources.sha512_256 (sources.read path) ++ (10 ∷ tree_lines paths)))

  -- `tree_digest`
  unfoldable pub tree_digest : List Entry → Bytes × ℕ
  tree_digest entries =
      let files = sort_texts (paths_of entries) in
      (sources.sha512_256 (tree_lines files), length files)

  -- `check_fp_backend`
  unfoldable pub check_fp_backend : Option Bytes → Bool
  check_fp_backend none = false
  check_fp_backend (some text) =
      sources.search emu_1 text
      && (sources.search native_0 text && not (sources.search native_1 text))

  -- `main`, with the paths behind the name of the script, and what os.walk lists below the first
  unfoldable pub main : List Bytes → List Entry → ℕ
  main (root ∷ []) entries = elim sources.deterministic_c [
    | none ↦ 1
    | some text ↦
        if bytes_eq (sources.sha512_256 text) expected_det_c
          && (bytes_eq (tree_digest entries).0 expected_tree && check_fp_backend sources.config_h)
        then 0
        else 1
  ]
  main [] entries = 2
  main (root ∷ other ∷ rest) entries = 2
