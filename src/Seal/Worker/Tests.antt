-- ===== src/Seal/Worker/Tests.antt =====
-- Runs of the worker with the toy library, and the theorems about it at them.
use trelyan_falcon_inscripti.Prelude.{◌≡◌, refl, true, none, some, [], ◌∷◌, Option}
use trelyan_falcon_inscripti.Prelude.Bytes.{bytes_eq, to_bytes}
use trelyan_falcon_inscripti.Prelude.BoxMap.{lookup, insert}
use trelyan_falcon_inscripti.Prelude.Result.{ok}
use trelyan_falcon_inscripti.Message.{nonneg, build_message, cell_key}
use trelyan_falcon_inscripti.Machine.{create_buffer, write_buffer, wipe}
use trelyan_falcon_inscripti.Falcon.{
  lib_ref, load, init_prng, lock_pages, unlock_pages, keygen_call, keygen_into_buffer, sign,
  check_header, verify, verify_inscription,
}
use trelyan_falcon_inscripti.Seal.Tests.{system, signer, fresh, art, genesis, sealed}
use trelyan_falcon_inscripti.Seal.Worker.{
  Host, Fields, Output, success, refusal, harden_process, read_request, sign_with, self_verify,
  or_self_verify, sign_and_verify, with_key, try_keygen, serve, main,
}
use trelyan_falcon_inscripti.Seal.Worker.Verified.{Reported, main-Reported}

abbrev host : Host
host = record {
  platform = b'l' ∷ b'i' ∷ b'n' ∷ b'u' ∷ b'x' ∷ [];
  setrlimit_returns = true;
  opens_libc = true;
  mlockall = some 0;
  prctl = none;
}

-- A host that cannot pin memory.
abbrev windows : Host
windows = record host { platform = b'w' ∷ b'i' ∷ b'n' ∷ b'3' ∷ b'2' ∷ [] }

abbrev stdin : Option Fields
stdin = some (record {
  app_id = some (nonneg 1001);
  cell_id = some (nonneg 1);
  artifact_hash = some art;
  genesis_hash = some genesis;
  require_locked = some true;
})

refused_on_windows :
    (main system signer windows stdin fresh).0 ≡ ok (refusal 6 (some (harden_process windows)))
unfolding main read_request serve harden_process bytes_eq
refused_on_windows = refl

malformed : (main system signer host none fresh).0 ≡ ok (refusal 2 none)
unfolding main read_request
malformed = refl

abbrev printed : Output
printed = success sealed.pubkey sealed.signature (harden_process host)

signs : (main system signer host stdin fresh).0 ≡ ok printed
unfolding main read_request serve harden_process bytes_eq try_keygen with_key keygen_into_buffer
    lib_ref load create_buffer init_prng write_buffer lock_pages unlock_pages keygen_call wipe
    sign_and_verify sign_with or_self_verify self_verify sign check_header verify verify_inscription
    build_message cell_key to_bytes insert lookup
signs = refl

main-Reported_example : Reported signer host stdin (main system signer host stdin fresh).1 printed
main-Reported_example = main-Reported system signer host stdin fresh printed signs
