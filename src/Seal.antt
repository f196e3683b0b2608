-- ===== src/Seal.antt =====
-- sdk/src/trelyan_pq/seal.py: make a key pair, sign the message of one cell, wipe the private key,
-- record the cell. The store is an interface, which the modules Store and JsonFile implement.
pub mod Store
pub mod JsonFile
pub mod Crash
pub mod Wipe
pub mod Recorded
pub mod Guarantees
pub mod Isolated
pub mod Spawned
pub mod Worker
mod IsolatedTests
pub mod Completes
pub mod Tests
pub mod FileTests
use trelyan_falcon_inscripti.Prelude.{ℕ, Bool, true, false, not, [], ◌∷◌, ◌==◌}
use trelyan_falcon_inscripti.Prelude.Bytes.{Bytes}
use trelyan_falcon_inscripti.Prelude.Result.{Result, ok, err}
use trelyan_falcon_inscripti.Exceptions.{
  Exception, unexpected_header, cell_already_sealed, seal_verification_error,
}
use trelyan_falcon_inscripti.Machine.{
  System, World, M, pure, lift, finally, reraise, ◌>>=◌, ◌>>◌, raise_unless, wipe, read_buffer,
}
use trelyan_falcon_inscripti.Message.{PyInt, int, det_compressed_header, build_message}
use trelyan_falcon_inscripti.Falcon.{
  FalconDet1024, privkey_size, unlock_pages, keygen_into_buffer, sign, verify_inscription,
}
use Store.{SealStore}

pub record SealResult : Type 0 where
  pub pubkey : Bytes
  pub signature : Bytes
  pub cell_id : PyInt

-- `except AssertionError` around `sign`
abbrev pub as_verification_error : Exception → Exception
as_verification_error unexpected_header = seal_verification_error
as_verification_error e = e

-- `not sig or sig[0] != DET_COMPRESSED_HEADER`, negated
abbrev pub has_header : Bytes → Bool
has_header [] = false
has_header (b ∷ rest) = b == det_compressed_header

module _ {S : Type 0} (system : System) (signer : FalconDet1024) (store : SealStore S) where
  -- `store.is_sealed` and `store.record`, on the store of the world
  abbrev pub is_sealed : PyInt → M S Bool
  is_sealed cell_id w = (store.is_sealed cell_id w.store, w)

  abbrev pub record_seal : PyInt → M S (Unit {0})
  record_seal cell_id w =
      let (r, s) = store.record_seal cell_id w.store in (r, record w { store = s })

  module _ (app_id cell_id : PyInt) (artifact_hash genesis_hash : Bytes) where
    -- the body of the `try`
    unfoldable pub sign_and_check : Bytes → ℕ → M S Bytes
    sign_and_check pubkey privkey = do
      m ← lift (build_message (int app_id) (int cell_id) artifact_hash genesis_hash)
      sig ← reraise (λ w. sign system signer (read_buffer privkey w) m w) as_verification_error
      raise_unless (has_header sig) seal_verification_error
      verified ←
          verify_inscription system signer sig pubkey (int app_id) (int cell_id) artifact_hash
            genesis_hash
      raise_unless verified seal_verification_error
      pure sig

    unfoldable pub keygen_sign_seal : M S SealResult
    keygen_sign_seal = do
      sealed ← is_sealed cell_id
      raise_unless (not sealed) cell_already_sealed
      (pubkey, privkey) ← keygen_into_buffer system signer
      sig ←
          finally (sign_and_check pubkey privkey)
            (λ w. unlock_pages privkey (wipe privkey privkey_size w))
      record_seal cell_id
      pure (record { pubkey = pubkey; signature = sig; cell_id = cell_id })
