-- ===== src/Checks/Arc56.antt =====
-- contracts/verify_client_matches_arc56.py: the spec in the typed client against the committed one, on
-- the keys that say what the contract does. The files, json and the search for the spec are arguments.
pub mod Exit
pub mod Implied
mod Tests
use trelyan_falcon_inscripti.Prelude.{
  ℕ, Bool, true, false, Option, none, some, List, [], ◌∷◌, if◌then◌else◌,
}
use trelyan_falcon_inscripti.Prelude.Bytes.{Bytes}
use trelyan_falcon_inscripti.Prelude.Result.{Result, ok, err, or_raise, ◌>>=◌}
use trelyan_falcon_inscripti.Checks.{Failure, check_error, crashed}
use trelyan_falcon_inscripti.Checks.Teal.{Spec, value_of}

-- The bytes of the two files, where `none` is an OSError, and which bytes are UTF-8 (a text is kept as its
-- UTF-8); the text that the pattern finds in the client; json.loads on a dict; `==` on the values of its
-- keys; and None.
pub record Inputs (V : Type 0) : Type 0 where
  pub client : Option Bytes
  pub arc : Option Bytes
  pub is_utf8 : Bytes → Bool
  pub find_spec : Bytes → Option Bytes
  pub json_loads : Bytes → Option (Spec V)
  pub value_eq : V → V → Bool
  pub null : V

-- byteCode, methods, state, bareActions, structs, name, arcs
abbrev pub material : List Bytes
material =
    (b'b' ∷ b'y' ∷ b't' ∷ b'e' ∷ b'C' ∷ b'o' ∷ b'd' ∷ b'e' ∷ [])
    ∷ (b'm' ∷ b'e' ∷ b't' ∷ b'h' ∷ b'o' ∷ b'd' ∷ b's' ∷ [])
    ∷ (b's' ∷ b't' ∷ b'a' ∷ b't' ∷ b'e' ∷ [])
    ∷ (b'b' ∷ b'a' ∷ b'r' ∷ b'e' ∷ b'A' ∷ b'c' ∷ b't' ∷ b'i' ∷ b'o' ∷ b'n' ∷ b's' ∷ [])
    ∷ (b's' ∷ b't' ∷ b'r' ∷ b'u' ∷ b'c' ∷ b't' ∷ b's' ∷ [])
    ∷ (b'n' ∷ b'a' ∷ b'm' ∷ b'e' ∷ [])
    ∷ (b'a' ∷ b'r' ∷ b'c' ∷ b's' ∷ [])
    ∷ []

-- `dict.get`, with None for a key that is not there
abbrev pub or_null : {V : Type 0} → V → Option V → V
or_null null none = null
or_null null (some v) = v

module _ {V : Type 0} (inputs : Inputs V) where
  abbrev pub get : Spec V → Bytes → V
  get spec key = or_null inputs.null (value_of key spec)

  -- `[k for k in material if embedded.get(k) != arc.get(k)]`
  unfoldable pub drifted : List Bytes → Spec V → Spec V → List Bytes
  drifted [] embedded arc = []
  drifted (key ∷ keys) embedded arc =
      let rest = drifted keys embedded arc in
      if inputs.value_eq (get embedded key) (get arc key) then rest else key ∷ rest

  abbrev pub status_of : List Bytes → ℕ
  status_of [] = 0
  status_of (key ∷ keys) = 1

  -- The part behind the reading of the committed spec.
  unfoldable pub compare_with : Spec V → Option Bytes → ℕ
  compare_with arc none = 2
  compare_with arc (some literal) = elim (inputs.json_loads literal) [
    | none ↦ 2
    | some embedded ↦ status_of (drifted material embedded arc)
  ]

  -- `path.read_text(encoding="utf-8")`, where the UnicodeDecodeError is no OSError
  unfoldable pub read_text : Bytes → Result Failure Bytes
  read_text bytes = if inputs.is_utf8 bytes then ok bytes else err crashed

  -- `json.loads(ARC56.read_text(...))`, which raises what no handler takes if the text is not JSON
  unfoldable pub load_arc : Bytes → Result Failure (Spec V)
  load_arc bytes = do text ← read_text bytes; or_raise (inputs.json_loads text) crashed

  unfoldable pub main : Result Failure ℕ
  main = elim inputs.client [
    | none ↦ ok 2
    | some bytes ↦ (do
      text ← read_text bytes
      elim inputs.arc [
        | none ↦ ok 2
        | some raw ↦ (do arc ← load_arc raw; ok (compare_with arc (inputs.find_spec text)))
      ])
  ]

  -- The exit code of the process: an exception that nothing catches ends it with 1.
  unfoldable pub exit_code : ℕ
  exit_code = elim main [ ok status ↦ status | err failure ↦ 1 ]
