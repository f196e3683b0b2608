-- ===== src/Seal/Tests.antt =====
-- Runs of the seal with a toy library, and the theorems of the modules at concrete inputs.
use trelyan_falcon_inscripti.Prelude.{
  length-take_le, length, take, ◌≡◌, ◌≢◌, refl, arith, ℕ, true, false, some, none, [], ◌∷◌,
  replicate, List, if◌then◌else◌,
}
use trelyan_falcon_inscripti.Prelude.BoxMap.{insert, lookup}
use trelyan_falcon_inscripti.Prelude.Bytes.{bytes_eq_iff, Bytes, bytes_eq, to_bytes}
use trelyan_falcon_inscripti.Prelude.Result.{ok, err}
use trelyan_falcon_inscripti.Exceptions.{no_rng, cell_already_sealed}
use trelyan_falcon_inscripti.Message.{int, PyInt, nonneg, build_message, cell_key}
use trelyan_falcon_inscripti.Message.Layout.{layout}
use trelyan_falcon_inscripti.Machine.{wipe, write_buffer, create_buffer, System, World, Library}
use trelyan_falcon_inscripti.Falcon.{
  check_header, verify_inscription, verify, keygen_call, unlock_pages, lock_pages, init_prng, load,
  lib_ref, keygen_into_buffer, FalconDet1024, sign,
}
use trelyan_falcon_inscripti.Falcon.Buffers.{IsClean}
use trelyan_falcon_inscripti.Seal.Store.{set_add, set_contains, in_memory}
use trelyan_falcon_inscripti.Seal.{sign_and_check, SealResult, keygen_sign_seal}
use trelyan_falcon_inscripti.Seal.Wipe.{keygen_sign_seal-IsClean}
use trelyan_falcon_inscripti.Seal.Recorded.{Verified}
use trelyan_falcon_inscripti.Seal.Completes.{seal_completes}
use trelyan_falcon_inscripti.Falcon.Correct.{IsCorrect, has_loaded}
use trelyan_falcon_inscripti.Seal.Guarantees.{
  seal_verifies, failed_seal_keeps_store, sealed_cell_refused, second_seal_refused,
}

-- A signature of the toy library is the message behind a header byte.
abbrev pub toy_lib : Library
toy_lib = record {
  keygen = λ rng. (0, 90 ∷ [], 10 ∷ []);
  sign = λ privkey message. (0, 0xba ∷ message, 103);
  verify = λ sig pubkey message. if bytes_eq sig (0xba ∷ message) then 0 else 1;
}

-- A library that reports success and a length of zero.
abbrev empty_lib : Library
empty_lib = record {
  keygen = λ rng. (0, 90 ∷ [], 10 ∷ []);
  sign = λ privkey message. (0, [], 0);
  verify = λ sig pubkey message. 1;
}

abbrev pub system : System
system = record { open_library = λ path. some toy_lib; can_lock = true }

abbrev pub signer : FalconDet1024
signer = record { lib_path = 47 ∷ 108 ∷ []; object = 1 }

abbrev pub fresh : World (List PyInt)
fresh = record {
  lib = λ object. none;
  entropy = some (1 ∷ 2 ∷ 3 ∷ []) ∷ some (4 ∷ []) ∷ [];
  buffers = [];
  outputs = [];
  next_address = 16;
  pinned = [];
  store = [];
}

abbrev pub art : Bytes
art = replicate 32 7

abbrev pub genesis : Bytes
genesis = replicate 32 0

abbrev pub sealed : SealResult
sealed = record {
  pubkey = 10 ∷ replicate 1792 0;
  signature = 0xba ∷ layout 1001 1 art genesis;
  cell_id = nonneg 1;
}

fresh_seal :
    (keygen_sign_seal system signer in_memory (nonneg 1001) (nonneg 1) art genesis fresh).0
    ≡ ok sealed
unfolding keygen_sign_seal keygen_into_buffer lib_ref load create_buffer init_prng write_buffer
    lock_pages unlock_pages keygen_call wipe sign_and_check sign verify verify_inscription
    check_header build_message cell_key to_bytes set_contains set_add insert lookup bytes_eq
fresh_seal = refl

abbrev after : World (List PyInt)
after = (keygen_sign_seal system signer in_memory (nonneg 1001) (nonneg 1) art genesis fresh).1

absent_buffer : {A : Type 0} (b : Bytes) (j : ℕ) → lookup {V = Bytes} j [] ≡ some b → A
unfolding lookup
absent_buffer b j e = cc

pub nothing-IsClean : IsClean fresh.buffers
nothing-IsClean = record { zero_at = λ j b h e. absent_buffer b j e }

keygen_sign_seal-IsClean_example : IsClean after.buffers
keygen_sign_seal-IsClean_example =
    keygen_sign_seal-IsClean system signer in_memory (nonneg 1001) (nonneg 1) art genesis fresh
      nothing-IsClean

one_ne_two : nonneg 1 ≢ nonneg 2
one_ne_two = ground arith

seal_verifies_example :
    Verified (nonneg 1001) (nonneg 1) art genesis sealed.pubkey sealed.signature (after.lib 1)
seal_verifies_example =
    seal_verifies system signer in_memory (nonneg 1001) (nonneg 1) art genesis fresh sealed
      fresh_seal

-- the same start, with no randomness to be had
abbrev starved : World (List PyInt)
starved = record fresh { entropy = none ∷ []; store = nonneg 5 ∷ [] }

starved_seal :
    (keygen_sign_seal system signer in_memory (nonneg 1001) (nonneg 1) art genesis starved).0
    ≡ err no_rng
unfolding keygen_sign_seal keygen_into_buffer lib_ref load create_buffer init_prng write_buffer
    set_contains
starved_seal = refl

failed_seal_keeps_store_example :
    (keygen_sign_seal system signer in_memory (nonneg 1001) (nonneg 1) art genesis starved).1.store
    ≡ nonneg 5 ∷ []
failed_seal_keeps_store_example =
    failed_seal_keeps_store system signer in_memory (nonneg 1001) (nonneg 1) art genesis starved
      no_rng starved_seal

five_sealed : in_memory.is_sealed (nonneg 5) starved.store ≡ ok true
unfolding set_contains
five_sealed = refl

sealed_cell_refused_example :
    keygen_sign_seal system signer in_memory (nonneg 1001) (nonneg 5) art genesis starved
    ≡ (err cell_already_sealed, starved)
sealed_cell_refused_example =
    sealed_cell_refused system signer in_memory (nonneg 1001) (nonneg 5) art genesis starved
      five_sealed

second_seal_refused_example :
    keygen_sign_seal system signer in_memory (nonneg 2002) (nonneg 1) genesis art after
    ≡ (err cell_already_sealed, after)
second_seal_refused_example =
    second_seal_refused system signer in_memory (nonneg 1001) (nonneg 1) art genesis fresh sealed
      fresh_seal system signer (nonneg 2002) genesis art after refl

abbrev key : Bytes
key = 90 ∷ replicate 2304 0

toy_signs : (sign system signer key (1 ∷ 2 ∷ []) fresh).0 ≡ ok (0xba ∷ 1 ∷ 2 ∷ replicate 100 0)
unfolding sign lib_ref load check_header
toy_signs = refl

-- A library that works: a signature is a prefix of the message behind a header byte.
abbrev pub working_lib : Library
working_lib = record {
  keygen = λ rng. (0, 90 ∷ replicate 2304 0, 10 ∷ replicate 1792 0);
  sign = λ privkey message. (0, 0xba ∷ take 102 message, length (0xba ∷ take 102 message));
  verify = λ sig pubkey message. if bytes_eq sig (0xba ∷ take 102 message) then 0 else 1;
}

pub working_lib-IsCorrect : IsCorrect working_lib
working_lib-IsCorrect = record {
  generates = λ rng. (refl, refl, refl);
  signs = λ rng message.
      let sig = 0xba ∷ take 102 message in
      (
        refl,
        refl,
        omega (arith, length-take_le 102 message),
        refl,
        ground (arith, bytes_eq_iff sig sig),
      );
}

-- A system whose paths open that library.
abbrev pub working_system : System
working_system = record { open_library = λ path. some working_lib; can_lock = true }

pub opens_working : load working_system signer.lib_path ≡ ok working_lib
unfolding load
opens_working = refl

abbrev pub prepared : World (List PyInt)
prepared = record fresh { lib = λ object. some working_lib }

pub nothing_sealed :
    (in_memory.is_sealed (nonneg 1) prepared.store ≡ ok false)
    × ((in_memory.record_seal (nonneg 1) prepared.store).0 ≡ ok tt)
unfolding set_contains
nothing_sealed = (refl, refl)

pub message_of_one :
    build_message (int (nonneg 1001)) (int (nonneg 1)) art genesis ≡ ok (layout 1001 1 art genesis)
unfolding build_message cell_key to_bytes
message_of_one = refl

seal_completes_example :
    (r : SealResult) × ((keygen_sign_seal system signer in_memory
        (nonneg 1001)
        (nonneg 1)
        art
        genesis
        prepared).0
      ≡ ok r)
seal_completes_example =
    seal_completes system signer in_memory working_lib (nonneg 1001) (nonneg 1) art genesis
      (layout 1001 1 art genesis) (1 ∷ 2 ∷ 3 ∷ []) (some (4 ∷ []) ∷ []) prepared
      working_lib-IsCorrect (has_loaded refl) refl message_of_one nothing_sealed.0 nothing_sealed.1
