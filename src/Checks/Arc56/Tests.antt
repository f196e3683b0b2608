-- ===== src/Checks/Arc56/Tests.antt =====
-- Runs of the check on small specs, where a value is a number and None is 0.
use trelyan_falcon_inscripti.Prelude.{ℕ, ◌≡◌, refl, true, Option, none, some, [], ◌∷◌, ◌==◌}
use trelyan_falcon_inscripti.Prelude.Bytes.{Bytes, bytes_eq}
use trelyan_falcon_inscripti.Prelude.Text.{is_one_of}
use trelyan_falcon_inscripti.Prelude.Result.{ok}
use trelyan_falcon_inscripti.Checks.Teal.{
  Tools, Tree, Spec, dict_eq, keys_agree, without_dropped, embedded_spec, agrees_with,
  client_spec_matches,
}
use trelyan_falcon_inscripti.Checks.Arc56.{
  Inputs, drifted, compare_with, read_text, load_arc, main, exit_code,
}
use trelyan_falcon_inscripti.Checks.Arc56.Implied.{inputs_of, whole_spec_implies_material}

abbrev name_key : Bytes
name_key = b'n' ∷ b'a' ∷ b'm' ∷ b'e' ∷ []

-- The text of a spec is its name.
abbrev spec_of : Bytes → Option (Spec ℕ)
spec_of [] = none
spec_of (c ∷ text) = some ((name_key, c) ∷ [])

abbrev tools : Tools ℕ
tools = record {
  decode = λ bytes. bytes;
  compile = none;
  find_spec = λ text. some text;
  json_loads = spec_of;
  value_eq = λ v w. v == w;
}

abbrev tree : Tree
tree = record {
  source_exists = true;
  out_is_dir = true;
  committed = λ name. some (7 ∷ []);
  client = some (7 ∷ []);
}

abbrev inputs : Inputs ℕ
inputs = inputs_of tools tree (λ bytes. true) (λ text. some text) 0

other_name : exit_code (record inputs { client = some (8 ∷ []) }) ≡ 1
unfolding exit_code main read_text load_arc compare_with drifted bytes_eq
other_name = refl

-- The code of drift, where the committed spec is no JSON.
committed_is_no_json : exit_code (record inputs { arc = some [] }) ≡ 1
unfolding exit_code main read_text load_arc
committed_is_no_json = refl

matching : client_spec_matches tools tree ≡ ok true
unfolding client_spec_matches embedded_spec agrees_with dict_eq keys_agree without_dropped is_one_of
    bytes_eq
matching = refl

whole_spec_implies_material_example : exit_code inputs ≡ 0
whole_spec_implies_material_example =
    whole_spec_implies_material tools tree (λ bytes. true) (λ text. some text) 0 (7 ∷ []) (7 ∷ [])
      refl refl refl refl refl refl matching
