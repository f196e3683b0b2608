-- ===== src/Checks/Deployment/Tests.antt =====
-- Runs of the check of a deployment, and the theorem about its exit code at one of them.
use trelyan_falcon_inscripti.Prelude.{
  ◌≡◌, ◌↔◌, refl, true, if◌then◌else◌, none, some, [], ◌∷◌, ◌++◌,
}
use trelyan_falcon_inscripti.Prelude.Bytes.{bytes_eq}
use trelyan_falcon_inscripti.Prelude.Text.{strip, lstrip, rstrip, splitlines, after_prefix}
use trelyan_falcon_inscripti.Checks.Teal.{pragma_prefix}
use trelyan_falcon_inscripti.Checks.Deployment.{
  Outside, Arguments, assemble, fetch_deployed, committed_avm_version, recompile_from_source,
  recompiles, matches_chain, verdict, exit_code,
}
use trelyan_falcon_inscripti.Checks.Deployment.Exit.{IsMatch, deployment_exit_0_exactly}

abbrev outside : Outside
outside = record {
  decode = λ bytes. bytes;
  compile = λ version. some version;
  assembled = λ teal. some (12 ∷ 1 ∷ []);
  program = some (some (b'D' ∷ b'A' ∷ b'E' ∷ b'=' ∷ []));
  b64decode = λ text.
      some (if bytes_eq text (b'D' ∷ b'A' ∷ b'E' ∷ b'=' ∷ []) then 12 ∷ 1 ∷ [] else 12 ∷ 2 ∷ []);
}

abbrev args : Arguments
args = record { teal = some (pragma_prefix ++ b'1' ∷ b'2' ∷ []); recompile = true }

matches : exit_code outside args ≡ 0
unfolding exit_code verdict recompiles committed_avm_version splitlines after_prefix strip lstrip
    rstrip recompile_from_source assemble bytes_eq matches_chain fetch_deployed
matches = refl

drifted :
    exit_code (record outside { program = some (some (b'D' ∷ b'A' ∷ b'I' ∷ b'=' ∷ [])) }) args ≡ 1
unfolding exit_code verdict recompiles committed_avm_version splitlines after_prefix strip lstrip
    rstrip recompile_from_source assemble bytes_eq matches_chain fetch_deployed
drifted = refl

unreachable : exit_code (record outside { program = none }) args ≡ 2
unfolding exit_code verdict recompiles committed_avm_version splitlines after_prefix strip lstrip
    rstrip recompile_from_source assemble bytes_eq matches_chain fetch_deployed
unreachable = refl

deployment_exit_0_exactly_example : (exit_code outside args ≡ 0) ↔ IsMatch outside args
deployment_exit_0_exactly_example = deployment_exit_0_exactly outside args
