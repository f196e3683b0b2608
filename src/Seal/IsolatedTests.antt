-- ===== src/Seal/IsolatedTests.antt =====
-- Runs of the isolated seal with a toy worker.
use trelyan_falcon_inscripti.Prelude.{◌≡◌, refl, true, Option, some, [], ◌∷◌}
use trelyan_falcon_inscripti.Prelude.Bytes.{Bytes, bytes_eq, to_bytes}
use trelyan_falcon_inscripti.Prelude.Result.{ok, err}
use trelyan_falcon_inscripti.Exceptions.{seal_verification_error}
use trelyan_falcon_inscripti.Message.{PyInt, nonneg, build_message, cell_key}
use trelyan_falcon_inscripti.Falcon.{lib_ref, load, verify, verify_inscription}
use trelyan_falcon_inscripti.Seal.Store.{in_memory, set_contains, set_add}
use trelyan_falcon_inscripti.Seal.Recorded.{Sealed}
use trelyan_falcon_inscripti.Seal.Isolated.{Reply, keygen_sign_seal_isolated, isolated_seal-Sealed}
use trelyan_falcon_inscripti.Seal.{SealResult}
use trelyan_falcon_inscripti.Message.Layout.{layout}
use trelyan_falcon_inscripti.Falcon.Correct.{has_loaded}
use trelyan_falcon_inscripti.Seal.Worker.{Host, harden_process}
use trelyan_falcon_inscripti.Seal.Spawned.{spawn, isolated_seal_completes}
use trelyan_falcon_inscripti.Seal.Tests.{
  system, signer, fresh, art, genesis, sealed, working_lib, working_lib-IsCorrect, working_system,
  opens_working, prepared, nothing_sealed, message_of_one,
}

abbrev worker : PyInt → PyInt → Bytes → Bytes → Option Reply
worker app_id cell_id artifact_hash genesis_hash = some (record {
  returncode = nonneg 0;
  is_ok = true;
  pubkey = some sealed.pubkey;
  signature = some sealed.signature;
})

-- a worker that reports another signature than it made
abbrev bad_worker : PyInt → PyInt → Bytes → Bytes → Option Reply
bad_worker app_id cell_id artifact_hash genesis_hash = some (record {
  returncode = nonneg 0;
  is_ok = true;
  pubkey = some sealed.pubkey;
  signature = some (0xba ∷ 1 ∷ []);
})

isolated_run :
    (keygen_sign_seal_isolated system signer in_memory worker
      (nonneg 1001)
      (nonneg 1)
      art
      genesis
      fresh).0
    ≡ ok sealed
unfolding keygen_sign_seal_isolated verify_inscription verify lib_ref load build_message cell_key
    to_bytes bytes_eq set_contains set_add
isolated_run = refl

bad_run :
    (keygen_sign_seal_isolated system signer in_memory bad_worker
      (nonneg 1001)
      (nonneg 1)
      art
      genesis
      fresh).0
    ≡ err seal_verification_error
unfolding keygen_sign_seal_isolated verify_inscription verify lib_ref load build_message cell_key
    to_bytes bytes_eq set_contains
bad_run = refl

isolated_seal-Sealed_example :
    Sealed signer in_memory
      (nonneg 1001)
      (nonneg 1)
      art
      genesis
      fresh.store
      sealed
      (keygen_sign_seal_isolated system signer in_memory worker
        (nonneg 1001)
        (nonneg 1)
        art
        genesis
        fresh).1
isolated_seal-Sealed_example =
    isolated_seal-Sealed system signer in_memory worker (nonneg 1001) (nonneg 1) art genesis fresh
      sealed isolated_run

-- A host that can pin memory.
abbrev host : Host
host = record {
  platform = b'l' ∷ b'i' ∷ b'n' ∷ b'u' ∷ b'x' ∷ [];
  setrlimit_returns = true;
  opens_libc = true;
  mlockall = some 0;
  prctl = some 0;
}

pins : true ≡ true → (harden_process host).mlockall ≡ true
unfolding harden_process bytes_eq
pins locked = refl

isolated_seal_completes_example :
    (r : SealResult) × ((keygen_sign_seal_isolated system signer in_memory
        (spawn working_system signer host fresh true)
        (nonneg 1001)
        (nonneg 1)
        art
        genesis
        prepared).0
      ≡ ok r)
isolated_seal_completes_example =
    isolated_seal_completes system working_system signer signer in_memory host working_lib prepared
      fresh true (nonneg 1001) (nonneg 1) art genesis (layout 1001 1 art genesis) (1 ∷ 2 ∷ 3 ∷ [])
      (some (4 ∷ []) ∷ []) working_lib-IsCorrect (has_loaded refl) refl opens_working refl
      message_of_one pins nothing_sealed.0 nothing_sealed.1
