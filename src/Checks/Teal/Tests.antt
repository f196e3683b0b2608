-- ===== src/Checks/Teal/Tests.antt =====
-- Runs of the check on small artifacts, and the theorems about it at them.
use trelyan_falcon_inscripti.Prelude.{
  ◌≡◌, ◌↔◌, refl, true, Option, none, some, [], ◌∷◌, ◌++◌, ◌==◌, ℕ,
}
use trelyan_falcon_inscripti.Prelude.Bytes.{Bytes, bytes_eq}
use trelyan_falcon_inscripti.Prelude.Text.{
  strip, lstrip, rstrip, splitlines, after_prefix, is_one_of,
}
use trelyan_falcon_inscripti.Checks.Teal.{
  Artifact, approval_teal, Tools, Tree, behavioural, traceability, pragma_prefix, normalise,
  cut_comment, code_of_lines, lines_eq, without_dropped, dict_eq, keys_agree, instructions,
  assert_pragma_matches, compare, check_artifacts, embedded_spec, agrees_with, client_spec_matches,
  main, exit_code,
}
use trelyan_falcon_inscripti.Checks.Teal.Exit.{IsConfirmed, exit_code_0_exactly}
use trelyan_falcon_inscripti.Checks.Teal.Lines.{SameText, present, to_crlf}

-- "#pragma version 12", a line feed and "int 1 // one"
abbrev teal : Bytes
teal =
    pragma_prefix
    ++ b'1' ∷ b'2' ∷ 10 ∷ b'i' ∷ b'n' ∷ b't' ∷ 32 ∷ b'1' ∷ 32 ∷ b'/' ∷ b'/' ∷ 32 ∷ b'o' ∷ b'n'
      ∷ b'e' ∷ []

-- the same with another comment, and with another instruction
abbrev other_comment : Bytes
other_comment =
    pragma_prefix ++ b'1' ∷ b'2' ∷ 10 ∷ b'i' ∷ b'n' ∷ b't' ∷ 32 ∷ b'1' ∷ 32 ∷ b'/' ∷ b'/' ∷ []

abbrev other_code : Bytes
other_code = pragma_prefix ++ b'1' ∷ b'2' ∷ 10 ∷ b'i' ∷ b'n' ∷ b't' ∷ 32 ∷ b'2' ∷ []

abbrev tools : Tools ℕ
tools = record {
  decode = λ bytes. bytes;
  compile = some (λ name. some teal);
  find_spec = λ text. some text;
  json_loads = λ text. some ((b'm' ∷ [], 1) ∷ []);
  value_eq = λ v w. v == w;
}

abbrev unix : Tree
unix = record {
  source_exists = true;
  out_is_dir = true;
  committed = λ name. some teal;
  client = some [];
}

abbrev on_windows : Artifact → Option Bytes
on_windows name = some (to_crlf teal)

confirmed : exit_code tools unix ≡ 0
unfolding exit_code main assert_pragma_matches normalise splitlines after_prefix strip lstrip rstrip
    bytes_eq check_artifacts compare client_spec_matches embedded_spec agrees_with dict_eq
    keys_agree without_dropped is_one_of
confirmed = refl

code_differs : compare tools unix approval_teal teal other_code ≡ behavioural
unfolding compare normalise bytes_eq instructions splitlines code_of_lines cut_comment strip lstrip
    rstrip lines_eq
code_differs = refl

comment_differs : compare tools unix approval_teal teal other_comment ≡ traceability
unfolding compare normalise bytes_eq instructions splitlines code_of_lines cut_comment strip lstrip
    rstrip lines_eq
comment_differs = refl

exit_code_0_exactly_example : (exit_code tools unix ≡ 0) ↔ IsConfirmed tools unix
exit_code_0_exactly_example = exit_code_0_exactly tools unix

windows-SameText : (name : Artifact) → SameText (unix.committed name) (on_windows name)
unfolding normalise
windows-SameText name = present teal (to_crlf teal) refl

-- The approval TEAL was never committed.
abbrev bare : Tree
bare = record unix { committed = λ name. none }
