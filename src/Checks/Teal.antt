-- ===== src/Checks/Teal.antt =====
-- contracts/verify_teal_matches_source.py: the committed artifacts against a fresh compile of the source,
-- and the spec in the typed client against the committed one. The compiler, the decoder of UTF-8, json and
-- the search for the spec in the client are arguments.
pub mod Lines
pub mod Specs
pub mod Exit
mod Tests
use trelyan_falcon_inscripti.Prelude.{
  ℕ, Bool, true, false, not, ◌&&◌, ◌||◌, Option, none, some, List, [], ◌∷◌, ◌==◌, if◌then◌else◌,
}
use trelyan_falcon_inscripti.Prelude.Bytes.{Bytes, bytes_eq}
use trelyan_falcon_inscripti.Prelude.Text.{
  strip, splitlines, after_prefix, starts_with_lf, is_one_of,
}
use trelyan_falcon_inscripti.Prelude.Result.{Result, ok, err, or_raise, require, ◌>>=◌, ◌>>◌}
use trelyan_falcon_inscripti.Checks.{Failure, check_error, crashed}

abbrev pub avm_target : Bytes
avm_target = b'1' ∷ b'2' ∷ []

-- The five artifacts, in the order of the check.
pub data Artifact : Type 0 where
  approval_teal clear_teal approval_map clear_map arc56 : Artifact

abbrev pub artifacts : List Artifact
artifacts = approval_teal ∷ clear_teal ∷ approval_map ∷ clear_map ∷ arc56 ∷ []

-- `name in TEAL_ARTIFACTS`
abbrev pub is_teal : Artifact → Bool
is_teal approval_teal = true
is_teal clear_teal = true
is_teal approval_map = false
is_teal clear_map = false
is_teal arc56 = false

-- `_normalise`: a carriage return in front of a line feed is dropped.
unfoldable pub normalise : Bytes → Bytes
normalise [] = []
normalise (c ∷ raw) =
    let rest = normalise raw in if c == 13 && starts_with_lf raw then rest else c ∷ rest

-- Where the scan of a line is: in code, in a string literal, or behind a backslash in one.
pub data Mode : Type 0 where
  code quoted escaped : Mode

abbrev pub starts_with_slash : Bytes → Bool
starts_with_slash [] = false
starts_with_slash (c ∷ s) = c == b'/'

-- `line[:cut]` of `_instructions`
unfoldable pub cut_comment : Mode → Bytes → Bytes
cut_comment _ [] = []
cut_comment escaped (c ∷ line) = c ∷ cut_comment quoted line
cut_comment quoted (c ∷ line) =
    let after_quote = cut_comment code line in
    let after_escape = cut_comment escaped line in
    let after_char = cut_comment quoted line in
    if c == 34 then c ∷ after_quote else (if c == 92 then c ∷ after_escape else c ∷ after_char)
cut_comment code (c ∷ line) =
    let after_quote = cut_comment quoted line in
    let after_char = cut_comment code line in
    if c == 34
    then c ∷ after_quote
    else (if c == b'/' && starts_with_slash line then [] else c ∷ after_char)

-- The loop of `_instructions`
unfoldable pub code_of_lines : List Bytes → List Bytes
code_of_lines [] = []
code_of_lines (line ∷ lines) =
    let rest = code_of_lines lines in
    elim (strip (cut_comment code line)) [ [] ↦ rest | c ∷ instruction ↦ (c ∷ instruction) ∷ rest ]

unfoldable pub lines_eq : List Bytes → List Bytes → Bool
lines_eq [] [] = true
lines_eq [] (t ∷ ts) = false
lines_eq (s ∷ ss) [] = false
lines_eq (s ∷ ss) (t ∷ ts) = bytes_eq s t && lines_eq ss ts

-- A parsed spec: the values of its keys.
abbrev pub Spec : Type 0 → Type 0
Spec V = List (Bytes × V)

abbrev pub value_of : {V : Type 0} → Bytes → Spec V → Option V
value_of key [] = none
value_of key ((other, v) ∷ spec) = if bytes_eq other key then some v else value_of key spec

abbrev pub pragma_prefix : Bytes
pragma_prefix =
    b'#' ∷ b'p' ∷ b'r' ∷ b'a' ∷ b'g' ∷ b'm' ∷ b'a' ∷ 32 ∷ b'v' ∷ b'e' ∷ b'r' ∷ b's' ∷ b'i' ∷ b'o'
    ∷ b'n' ∷ 32 ∷ []

abbrev pub generator_dropped : List Bytes
generator_dropped =
    (b'c' ∷ b'o' ∷ b'm' ∷ b'p' ∷ b'i' ∷ b'l' ∷ b'e' ∷ b'r' ∷ b'I' ∷ b'n' ∷ b'f' ∷ b'o' ∷ [])
    ∷ (b's' ∷ b'o' ∷ b'u' ∷ b'r' ∷ b'c' ∷ b'e' ∷ b'I' ∷ b'n' ∷ b'f' ∷ b'o' ∷ [])
    ∷ []

-- `{k: v for k, v in spec.items() if k not in generator_dropped}`
unfoldable pub without_dropped : {V : Type 0} → Spec V → Spec V
without_dropped [] = []
without_dropped ((key, v) ∷ spec) =
    let rest = without_dropped spec in
    if is_one_of generator_dropped key then rest else (key, v) ∷ rest

-- `==` on two dicts, from `==` on their values: the keys of either have equal values in both.
module _ {V : Type 0} (value_eq : V → V → Bool) where
  abbrev pub entry_eq : Option V → Option V → Bool
  entry_eq none none = true
  entry_eq none (some w) = false
  entry_eq (some v) none = false
  entry_eq (some v) (some w) = value_eq v w

  unfoldable pub keys_agree : Spec V → Spec V → Spec V → Bool
  keys_agree [] a b = true
  keys_agree ((key, v) ∷ keys) a b =
      entry_eq (value_of key a) (value_of key b) && keys_agree keys a b

  unfoldable pub dict_eq : Spec V → Spec V → Bool
  unfolding keys_agree
  dict_eq a b = keys_agree a a b && keys_agree b a b

-- The files that the check reads.
pub record Tree : Type 0 where
  pub source_exists : Bool
  pub out_is_dir : Bool
  pub committed : Artifact → Option Bytes
  pub client : Option Bytes

-- What the libraries answer: the text of bytes; the artifacts of a fresh compile, unless the compiler
-- fails; the spec in a client, if its pattern matches; and json.loads on a dict.
pub record Tools (V : Type 0) : Type 0 where
  pub decode : Bytes → Bytes
  pub compile : Option (Artifact → Option Bytes)
  pub find_spec : Bytes → Option Bytes
  pub json_loads : Bytes → Option (Spec V)
  pub value_eq : V → V → Bool

-- What the check says of one artifact.
pub data Drift : Type 0 where
  same behavioural traceability : Drift

abbrev pub all_same : List Drift → Bool
all_same [] = true
all_same (same ∷ drifts) = all_same drifts
all_same (behavioural ∷ drifts) = false
all_same (traceability ∷ drifts) = false

abbrev pub first_line : List Bytes → Option Bytes
first_line [] = none
first_line (line ∷ lines) = some line

module _ {V : Type 0} (tools : Tools V) (tree : Tree) where
  unfoldable pub instructions : Bytes → List Bytes
  instructions teal = code_of_lines (splitlines (tools.decode (normalise teal)))

  -- `_assert_pragma_matches`, where reading a file that is not there raises another error
  unfoldable pub assert_pragma_matches : Option Bytes → Result Failure (Unit {0})
  assert_pragma_matches committed = do
    raw ← or_raise committed crashed
    first ← or_raise (first_line (splitlines (tools.decode (normalise raw)))) check_error
    declared ← or_raise (after_prefix pragma_prefix first) check_error
    require (bytes_eq (strip declared) avm_target) check_error

  -- The body of the loop over the artifacts.
  unfoldable pub compare : Artifact → Bytes → Bytes → Drift
  compare name committed_bytes fresh_bytes =
      let committed = normalise committed_bytes in
      let fresh = normalise fresh_bytes in
      if bytes_eq committed fresh
      then same
      else (if is_teal name && not (lines_eq (instructions committed) (instructions fresh))
          then (behavioural)
          else traceability)

  unfoldable pub check_artifacts :
      (Artifact → Option Bytes) → List Artifact → Result Failure (List Drift)
  check_artifacts fresh [] = ok []
  check_artifacts fresh (name ∷ names) = do
    c ← or_raise (tree.committed name) check_error
    f ← or_raise (fresh name) check_error
    drifts ← check_artifacts fresh names
    ok (compare name c f ∷ drifts)

  -- The spec that the client embeds, if there is one that can be read.
  unfoldable pub embedded_spec : Option (Spec V)
  embedded_spec = elim tree.client [
    | none ↦ none
    | some text ↦ elim (tools.find_spec text) [
      | none ↦ none
      | some literal ↦ tools.json_loads literal
    ]
  ]

  -- The comparison of the embedded spec with the committed one.
  unfoldable pub agrees_with : Option (Spec V) → Option Bytes → Result Failure Bool
  agrees_with none committed = ok false
  agrees_with (some embedded) committed = do
    raw ← or_raise committed crashed
    spec ← or_raise (tools.json_loads raw) crashed
    ok (dict_eq tools.value_eq (without_dropped embedded) (without_dropped spec))

  -- `_client_spec_matches(...) is None`
  unfoldable pub client_spec_matches : Result Failure Bool
  client_spec_matches = agrees_with embedded_spec (tree.committed arc56)

  unfoldable pub main : Result Failure ℕ
  main = do
    require tree.source_exists check_error
    require tree.out_is_dir check_error
    assert_pragma_matches (tree.committed approval_teal)
    fresh ← or_raise tools.compile check_error
    drifts ← check_artifacts fresh artifacts
    in_step ← client_spec_matches
    ok (if all_same drifts && in_step then 0 else 1)

  -- The exit code of the process: an exception that nothing catches ends it with 1.
  unfoldable pub exit_code : ℕ
  exit_code = elim main [
    | ok status ↦ status
    | err failure ↦ elim failure [ check_error ↦ 2 | crashed ↦ 1 ]
  ]
