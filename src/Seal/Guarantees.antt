-- ===== src/Seal/Guarantees.antt =====
-- What a caller of keygen_sign_seal may rely on: the one-signature-per-cell tripwire.
use trelyan_falcon_inscripti.Prelude.{◌≡◌, ◌≢◌, refl, true, false, ap, ◌∙◌}
use trelyan_falcon_inscripti.Prelude.Bytes.{Bytes}
use trelyan_falcon_inscripti.Prelude.Result.{Result, ok, err}
use trelyan_falcon_inscripti.Exceptions.{Exception, cell_already_sealed}
use trelyan_falcon_inscripti.Message.{PyInt}
use trelyan_falcon_inscripti.Machine.{System, World}
use trelyan_falcon_inscripti.Machine.Triples.{Triple-ok, Triple-err}
use trelyan_falcon_inscripti.Falcon.{FalconDet1024}
use trelyan_falcon_inscripti.Seal.Store.{SealStore}
use trelyan_falcon_inscripti.Seal.{SealResult, keygen_sign_seal}
use trelyan_falcon_inscripti.Seal.Recorded.{Sealed, Verified, keygen_sign_seal-Sealed}

module _ {S : Type 0} (system : System) (signer : FalconDet1024) (store : SealStore S)
    (app_id cell_id : PyInt) (artifact_hash genesis_hash : Bytes) (w : World S) where
  abbrev seal : Result Exception SealResult × World S
  seal = keygen_sign_seal system signer store app_id cell_id artifact_hash genesis_hash w

  pub seal-Sealed :
      (r : SealResult)
      → seal.0 ≡ ok r
      → Sealed signer store app_id cell_id artifact_hash genesis_hash w.store r seal.1
  seal-Sealed r h =
      Triple-ok (keygen_sign_seal system signer store app_id cell_id artifact_hash genesis_hash)
        (keygen_sign_seal-Sealed system signer store app_id cell_id artifact_hash genesis_hash
          w.store)
        w r refl h

  pub seal_consumes_cell :
      (r : SealResult)
      → seal.0 ≡ ok r
      → (store.is_sealed cell_id w.store ≡ ok false)
        × (store.is_sealed cell_id seal.1.store ≡ ok true)
        × ((m : PyInt) → cell_id ≢ m → store.is_sealed m seal.1.store ≡ store.is_sealed m w.store)
  seal_consumes_cell r h =
      let f = seal-Sealed r h in
      (
        f.unsealed,
        ap (store.is_sealed cell_id) f.stored ∙ store.sealed_after cell_id w.store f.recorded,
        λ m ne.
            ap (store.is_sealed m) f.stored ∙ store.others_after cell_id m w.store f.recorded ne,
      )

  -- A result of keygen_sign_seal holds a signature with the header 0xBA that the loaded library accepts
  -- under the returned public key on the message of the cell.
  pub seal_verifies :
      (r : SealResult)
      → seal.0 ≡ ok r
      → Verified app_id cell_id artifact_hash genesis_hash r.pubkey r.signature
          (seal.1.lib signer.object)
  seal_verifies r h = let f = seal-Sealed r h in f.verified

  -- When keygen_sign_seal raises, the store is as it was.
  pub failed_seal_keeps_store : (e : Exception) → seal.0 ≡ err e → seal.1.store ≡ w.store
  failed_seal_keeps_store e h =
      Triple-err (keygen_sign_seal system signer store app_id cell_id artifact_hash genesis_hash)
        (keygen_sign_seal-Sealed system signer store app_id cell_id artifact_hash genesis_hash
          w.store)
        w e refl h

  pub sealed_cell_refused :
      store.is_sealed cell_id w.store ≡ ok true → seal ≡ (err cell_already_sealed, w)
  unfolding keygen_sign_seal
  sealed_cell_refused h = rw h refl

module _ {S : Type 0} (system : System) (signer : FalconDet1024) (store : SealStore S) where
  -- After keygen_sign_seal has returned for a cell, every later call for that cell on the store as it was
  -- left raises CellAlreadySealed and leaves the whole world as it was, whoever signs and whatever the
  -- artifact.
  pub second_seal_refused :
      (app_id cell_id : PyInt) (artifact_hash genesis_hash : Bytes) (w : World S) (r : SealResult)
      → (keygen_sign_seal system signer store app_id cell_id artifact_hash genesis_hash w).0 ≡ ok r
      → (system' : System) (signer' : FalconDet1024) (app_id' : PyInt)
        (artifact_hash' genesis_hash' : Bytes) (w' : World S)
      → w'.store
        ≡ (keygen_sign_seal system signer store app_id cell_id artifact_hash genesis_hash w).1.store
      → keygen_sign_seal system' signer' store app_id' cell_id artifact_hash' genesis_hash' w'
        ≡ (err cell_already_sealed, w')
  second_seal_refused app_id cell_id artifact_hash genesis_hash w r h system' signer' app_id'
        artifact_hash' genesis_hash' w' same =
      sealed_cell_refused system' signer' store app_id' cell_id artifact_hash' genesis_hash' w' (
        ap (store.is_sealed cell_id) same
        ∙ (seal_consumes_cell system signer store app_id cell_id artifact_hash genesis_hash w r
            h).1)
