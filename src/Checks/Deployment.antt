-- ===== src/Checks/Deployment.antt =====
-- contracts/verify_deployment.py: the program that an application runs against what the committed TEAL
-- assembles to. The nodes, the compiler and the decoder of UTF-8 are arguments.
pub mod Exit
mod Tests
use trelyan_falcon_inscripti.Prelude.{
  ℕ, Bool, true, false, Option, none, some, [], ◌∷◌, if◌then◌else◌,
}
use trelyan_falcon_inscripti.Prelude.Bytes.{Bytes, bytes_eq}
use trelyan_falcon_inscripti.Prelude.Text.{strip, splitlines, after_prefix}
use trelyan_falcon_inscripti.Prelude.Result.{Result, ok, err, or_raise, ◌>>=◌, ◌>>◌}
use trelyan_falcon_inscripti.Checks.{Failure, check_error, crashed}
use trelyan_falcon_inscripti.Checks.Teal.{pragma_prefix, first_line}

-- The answers of the outside: `none` is an error of any kind, since they all end the check with 2. `program` is the field
-- "approval-program" of the application, in base64, where an answer without it is `none` inside.
pub record Outside : Type 0 where
  pub decode : Bytes → Bytes
  pub compile : Bytes → Option Bytes
  pub assembled : Bytes → Option Bytes
  pub program : Option (Option Bytes)
  pub b64decode : Bytes → Option Bytes

-- The arguments of the command: the committed TEAL, if the file is there, and `--recompile`.
pub record Arguments : Type 0 where
  pub teal : Option Bytes
  pub recompile : Bool

module _ (outside : Outside) where
  unfoldable pub assemble : Bytes → Result Failure Bytes
  assemble teal = or_raise (outside.assembled teal) check_error

  -- `fetch_deployed`: a field that is not there or is empty is a CheckError, what does not decode another.
  unfoldable pub fetch_deployed : Result Failure Bytes
  fetch_deployed = do
    params ← or_raise outside.program check_error
    program ← or_raise params check_error
    elim program [
      | [] ↦ err check_error
      | c ∷ rest ↦ or_raise (outside.b64decode (c ∷ rest)) crashed
    ]

  -- `_committed_avm_version`
  unfoldable pub committed_avm_version : Bytes → Result Failure Bytes
  committed_avm_version teal = do
    first ← or_raise (first_line (splitlines (outside.decode teal))) check_error
    version ← or_raise (after_prefix pragma_prefix first) check_error
    ok (strip version)

  unfoldable pub recompile_from_source : Bytes → Result Failure Bytes
  recompile_from_source avm_version = or_raise (outside.compile avm_version) check_error

  -- The part under `if args.recompile`: whether the committed TEAL assembles to the program of a fresh
  -- compile.
  unfoldable pub recompiles : Option Bytes → Result Failure Bool
  recompiles committed = do
    teal ← or_raise committed check_error
    version ← committed_avm_version teal
    fresh ← recompile_from_source version
    from_committed ← assemble teal
    from_fresh ← assemble fresh
    ok (bytes_eq from_committed from_fresh)

  -- The comparison with the chain.
  unfoldable pub matches_chain : Option Bytes → Result Failure Bool
  matches_chain committed = do
    teal ← or_raise committed check_error
    expected ← assemble teal
    deployed ← fetch_deployed
    ok (bytes_eq expected deployed)

  -- The body of `main`, before CheckError is turned into a code.
  unfoldable pub verdict : Arguments → Result Failure ℕ
  verdict args = do
    reproduced ← if args.recompile then recompiles args.teal else ok true
    if reproduced then (do equal ← matches_chain args.teal; ok (if equal then 0 else 1)) else ok 1

  -- `main` and the handlers around it: CheckError gives 2, and so does any other exception.
  unfoldable pub exit_code : Arguments → ℕ
  exit_code args = elim (verdict args) [
    | ok status ↦ status
    | err failure ↦ elim failure [ check_error ↦ 2 | crashed ↦ 2 ]
  ]
