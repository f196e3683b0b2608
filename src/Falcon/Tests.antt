-- ===== src/Falcon/Tests.antt =====
-- The module-level functions of falcon.py with a small library.
use trelyan_falcon_inscripti.Prelude.{◌≡◌, refl, true, none, some, [], ◌∷◌}
use trelyan_falcon_inscripti.Prelude.Bytes.{Bytes}
use trelyan_falcon_inscripti.Prelude.Result.{ok}
use trelyan_falcon_inscripti.Message.{int, nonneg}
use trelyan_falcon_inscripti.Message.Layout.{layout}
use trelyan_falcon_inscripti.Falcon.{load, new}
use trelyan_falcon_inscripti.Falcon.Default.{
  default_signer, default_keygen, default_sign_inscription, default_verify_inscription,
  signed_inscription_verifies, Usable,
}
use trelyan_falcon_inscripti.Seal.Tests.{
  working_system, art, genesis, working_lib, working_lib-IsCorrect, fresh, message_of_one,
}

abbrev path : Bytes
path = b'/' ∷ []

abbrev made : Bytes × Bytes
made = let (rc, sk, pk) = working_lib.keygen (1 ∷ []) in (sk, pk)

-- The first call keeps the instance that the later ones use.
keeps_instance :
    (default_keygen working_system path none fresh).1
    ≡ some (record { lib_path = path; object = 16 })
unfolding default_keygen default_signer new
keeps_instance = refl

opens_path : load working_system path ≡ ok working_lib
unfolding load
opens_path = refl

signed_inscription_verifies_example :
    let signed =
      default_sign_inscription working_system path made.0
        (int (nonneg 1001))
        (int (nonneg 1))
        art
        genesis
        none
        fresh in
    (sig : Bytes) × (signed.0.0 ≡ ok sig)
    × ((default_verify_inscription working_system path sig made.1
          (int (nonneg 1001))
          (int (nonneg 1))
          art
          genesis
          signed.1
          signed.0.1).0.0
        ≡ ok true)
signed_inscription_verifies_example =
    signed_inscription_verifies working_system path working_lib (1 ∷ []) (int (nonneg 1001))
      (int (nonneg 1)) art genesis (layout 1001 1 art genesis) working_lib-IsCorrect message_of_one
      none fresh (Usable.fresh opens_path)
