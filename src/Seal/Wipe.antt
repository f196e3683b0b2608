-- ===== src/Seal/Wipe.antt =====
-- The private key's buffer after keygen_sign_seal.
use trelyan_falcon_inscripti.Prelude.{not, ◌∷◌, [], Bool, refl, ℕ}
use trelyan_falcon_inscripti.Prelude.Bytes.{Bytes}
use trelyan_falcon_inscripti.Message.{build_message, int, PyInt}
use trelyan_falcon_inscripti.Machine.{
  modify, write_output, raise_unless, lift, write_buffer, wipe, finally, read_buffer, reraise, M,
  System, World,
}
use trelyan_falcon_inscripti.Machine.Leaves.{
  Leaves-pure, Leaves-raise_unless, Leaves-lift, Leaves-bind, Leaves,
}
use trelyan_falcon_inscripti.Machine.Triples.{
  Triple-always, Triple-pure, Triple-bind, Triple-finally, Leaves-Triple, Triple,
}
use trelyan_falcon_inscripti.Falcon.{
  keygen_into_buffer, privkey_size, verify_inscription, unlock_pages, sign, FalconDet1024, lib_ref,
}
use trelyan_falcon_inscripti.Falcon.Buffers.{
  keygen_into_buffer-Clean, IsCleanBut, replicate-IsZero, insert-closes, CleanBut, Clean, IsClean,
}
use trelyan_falcon_inscripti.Falcon.Frame.{
  lib_ref-Leaves_buffers, write_output-Leaves_buffers, sign-Leaves, verify_inscription-Leaves,
}
use trelyan_falcon_inscripti.Seal.Store.{SealStore}
use trelyan_falcon_inscripti.Seal.{
  record_seal, cell_already_sealed, seal_verification_error, has_header, is_sealed,
  as_verification_error, sign_and_check, keygen_sign_seal,
}

pub closes :
    {S : Type 0} (privkey : ℕ) (w : World S)
    → CleanBut (privkey ∷ []) w
    → Clean (unlock_pages privkey (wipe privkey privkey_size w))
unfolding unlock_pages wipe write_buffer
closes privkey w c = insert-closes privkey _ [] w.buffers (replicate-IsZero privkey_size) c

module _ {S : Type 0} (system : System) (signer : FalconDet1024) (store : SealStore S)
    (app_id cell_id : PyInt) (artifact_hash genesis_hash : Bytes) where
  pub sign_and_check-Leaves :
      {X : Type 0} {part : World S → X}
      → Leaves part (lib_ref system signer)
      → ((size : ℕ) (written : Bytes) → Leaves part (modify (write_output size written)))
      → (pubkey : Bytes) (privkey : ℕ)
      → Leaves part (
          sign_and_check system signer store app_id cell_id artifact_hash genesis_hash pubkey
            privkey)
  unfolding sign_and_check
  sign_and_check-Leaves {part = part} l o pubkey privkey =
      Leaves-bind (lift (build_message (int app_id) (int cell_id) artifact_hash genesis_hash)) _
        (Leaves-lift (build_message (int app_id) (int cell_id) artifact_hash genesis_hash))
        (λ m. Leaves-bind (signing privkey m) _ (signing-Leaves privkey m) (λ sig.
          Leaves-bind (raise_unless (has_header sig) seal_verification_error) _
            (Leaves-raise_unless (has_header sig) seal_verification_error)
            (λ _.
              Leaves-bind (verifying sig pubkey) _
                (verify_inscription-Leaves system signer l sig pubkey (int app_id) (int cell_id)
                  artifact_hash genesis_hash)
                (λ verified.
                  Leaves-bind (raise_unless verified seal_verification_error) _
                    (Leaves-raise_unless verified seal_verification_error)
                    (λ _. Leaves-pure sig)))))
    where
      signing : ℕ → Bytes → M S Bytes
      signing privkey m =
          reraise (λ w. sign system signer (read_buffer privkey w) m w) as_verification_error

      verifying : Bytes → Bytes → M S Bool
      verifying sig pubkey =
          verify_inscription system signer sig pubkey (int app_id) (int cell_id) artifact_hash
            genesis_hash

      signing-Leaves : (privkey : ℕ) (m : Bytes) → Leaves part (signing privkey m)
      signing-Leaves privkey m = record {
        at = λ w. let ls = sign-Leaves system signer l o (read_buffer privkey w) m in ls.at w;
      }

  keygen_sign_seal-Clean :
      Triple Clean
        (keygen_sign_seal system signer store app_id cell_id artifact_hash genesis_hash)
        (λ _. Clean)
        Clean
  unfolding keygen_sign_seal
  keygen_sign_seal-Clean =
      Triple-bind (is_sealed system signer store cell_id) _
        (unchanged (is_sealed system signer store cell_id) (record { at = λ w. refl }))
        (λ sealed.
          Triple-bind (raise_unless (not sealed) cell_already_sealed) _
            (unchanged (raise_unless (not sealed) cell_already_sealed) (record { at = λ w. refl }))
            (λ _.
              Triple-bind (keygen_into_buffer system signer) _
                (keygen_into_buffer-Clean system signer)
                (λ pair. Triple-bind (guarded pair.0 pair.1) _ (guarded_clean pair.0 pair.1) (λ sig.
                  Triple-bind (record_seal system signer store cell_id) _
                    (unchanged (record_seal system signer store cell_id)
                      (record { at = λ w. refl }))
                    (λ _. Triple-pure _ (λ w c. c))))))
    where
      unchanged :
          {A : Type 0} (m : M S A) → Leaves (λ w. w.buffers) m → Triple Clean m (λ _. Clean) Clean
      unchanged m l = Leaves-Triple IsClean m l

      guarded : Bytes → ℕ → M S Bytes
      guarded pubkey privkey =
          finally
            (sign_and_check system signer store app_id cell_id artifact_hash genesis_hash pubkey
              privkey)
            (λ w. unlock_pages privkey (wipe privkey privkey_size w))

      guarded_clean :
          (pubkey : Bytes) (privkey : ℕ)
          → Triple (CleanBut (privkey ∷ [])) (guarded pubkey privkey) (λ _. Clean) Clean
      guarded_clean pubkey privkey =
          let body =
            sign_and_check system signer store app_id cell_id artifact_hash genesis_hash pubkey
              privkey in
          Triple-finally body (λ w. unlock_pages privkey (wipe privkey privkey_size w))
            (λ _. CleanBut (privkey ∷ [])) (CleanBut (privkey ∷ []))
            (Leaves-Triple (IsCleanBut (privkey ∷ [])) body (
              sign_and_check-Leaves (lib_ref-Leaves_buffers system signer)
                write_output-Leaves_buffers pubkey privkey))
            (λ _. closes privkey) (closes privkey)

module _ {S : Type 0} (system : System) (signer : FalconDet1024) (store : SealStore S) where
  -- If all buffers of key material (private keys and contexts of the generator) hold zeros before
  -- keygen_sign_seal, all of them hold zeros after it, whether it returns or raises.
  pub keygen_sign_seal-IsClean :
      (app_id cell_id : PyInt) (artifact_hash genesis_hash : Bytes) (w : World S)
      → IsClean w.buffers
      → IsClean
          (keygen_sign_seal system signer store app_id cell_id artifact_hash genesis_hash
            w).1.buffers
  keygen_sign_seal-IsClean app_id cell_id artifact_hash genesis_hash w c =
      let t =
        keygen_sign_seal-Clean system signer store app_id cell_id artifact_hash genesis_hash in
      Triple-always (keygen_sign_seal system signer store app_id cell_id artifact_hash genesis_hash)
        w t c
