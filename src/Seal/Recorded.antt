-- ===== src/Seal/Recorded.antt =====
-- What keygen_sign_seal has established when it returns, and what it has left when it raises.
use trelyan_falcon_inscripti.Prelude.{ap, ◌∙◌, Option, ◌≡◌, refl, arith, Bool, true, false, not, ℕ}
use trelyan_falcon_inscripti.Prelude.Bytes.{Bytes}
use trelyan_falcon_inscripti.Prelude.Result.{ok}
use trelyan_falcon_inscripti.Message.{PyInt, int, build_message}
use trelyan_falcon_inscripti.Machine.{
  write_buffer, wipe, finally, read_buffer, reraise, System, World, Library, raise_unless, lift, M,
}
use trelyan_falcon_inscripti.Machine.Leaves.{Leaves}
use trelyan_falcon_inscripti.Machine.Triples.{
  Triple-assume, Triple-lift, Triple, Triple-bind, Triple-check, Triple-results, Triple-pure,
  Triple-weaken, Triple-finally, Leaves-Triple,
}
use trelyan_falcon_inscripti.Falcon.{
  keygen_into_buffer, privkey_size, unlock_pages, FalconDet1024, sign, verify_inscription,
}
use trelyan_falcon_inscripti.Falcon.Frame.{
  keygen_into_buffer-Leaves, lib_ref-Leaves_store, write_output-Leaves_store, sign-Leaves,
}
use trelyan_falcon_inscripti.Falcon.Verified.{Accepts, verify_inscription-Accepts}
use trelyan_falcon_inscripti.Seal.Store.{SealStore}
use trelyan_falcon_inscripti.Seal.{
  cell_already_sealed, is_sealed, record_seal, seal_verification_error, as_verification_error,
  SealResult, has_header, sign_and_check, keygen_sign_seal,
}

-- A signature that starts with 0xBA and that the loaded library accepts on the cell's message.
pub record Verified (app_id cell_id : PyInt) (artifact_hash genesis_hash pubkey sig : Bytes)
    (loaded_lib : Option Library) : Type 0 where
  pub message : Bytes
  pub built : build_message (int app_id) (int cell_id) artifact_hash genesis_hash ≡ ok message
  pub accepts : Accepts sig pubkey message loaded_lib
  pub header : has_header sig ≡ true

module _ {S : Type 0} (system : System) (signer : FalconDet1024) (store : SealStore S)
    (app_id cell_id : PyInt) (artifact_hash genesis_hash : Bytes) (s : S) where
  sign_and_check-Verified :
      (pubkey : Bytes) (privkey : ℕ)
      → Triple
          (λ w. w.store ≡ s)
          (sign_and_check system signer store app_id cell_id artifact_hash genesis_hash pubkey
            privkey)
          (λ sig w.
            (w.store ≡ s)
            × Verified app_id cell_id artifact_hash genesis_hash pubkey sig (w.lib signer.object))
          (λ w. w.store ≡ s)
  unfolding sign_and_check
  sign_and_check-Verified pubkey privkey =
      Triple-bind (lift (build_message (int app_id) (int cell_id) artifact_hash genesis_hash)) _
        (Triple-lift (build_message (int app_id) (int cell_id) artifact_hash genesis_hash))
        (λ m. Triple-assume _ (λ built.
          Triple-bind (signing m) _ (Leaves-Triple (λ x. x ≡ s) (signing m) (signing-Leaves m))
            (λ sig.
              Triple-bind (raise_unless (has_header sig) seal_verification_error) _
                (Triple-check (has_header sig) seal_verification_error)
                (λ _. Triple-assume _ (λ header.
                  Triple-bind (verifying sig) _
                    (verify_inscription-Accepts system signer s sig pubkey (int app_id)
                      (int cell_id) artifact_hash genesis_hash m built)
                    (λ verified.
                      Triple-bind (raise_unless verified seal_verification_error) _
                        (Triple-weaken (raise_unless verified seal_verification_error) (λ w q. q)
                          (Triple-check verified seal_verification_error) (λ _ w q. q) (λ w q. q.0))
                        (λ _. Triple-pure sig (λ w q. (
                          q.0.0,
                          record {
                            message = m;
                            built = built;
                            accepts = q.0.1 q.1;
                            header = header;
                          },
                        )))))))))
    where
      signing : Bytes → M S Bytes
      signing m =
          reraise (λ w. sign system signer (read_buffer privkey w) m w) as_verification_error

      verifying : Bytes → M S Bool
      verifying sig =
          verify_inscription system signer sig pubkey (int app_id) (int cell_id) artifact_hash
            genesis_hash

      signing-Leaves : (m : Bytes) → Leaves (λ w. w.store) (signing m)
      signing-Leaves m = record {
        at = λ w.
            let ls =
              sign-Leaves system signer (lib_ref-Leaves_store system signer)
                write_output-Leaves_store (read_buffer privkey w) m in
            ls.at w;
      }

-- The result names the cell, which was not sealed and is recorded, and holds a verified signature.
pub record Sealed {S : Type 0} (signer : FalconDet1024) (store : SealStore S)
    (app_id cell_id : PyInt) (artifact_hash genesis_hash : Bytes) (s : S) (r : SealResult)
    (w : World S) : Type 0 where
  pub named : r.cell_id ≡ cell_id
  pub unsealed : store.is_sealed cell_id s ≡ ok false
  pub recorded : (store.record_seal cell_id s).0 ≡ ok tt
  pub stored : w.store ≡ (store.record_seal cell_id s).1
  pub verified :
      Verified app_id cell_id artifact_hash genesis_hash r.pubkey r.signature (w.lib signer.object)

module _ {S : Type 0} (system : System) (signer : FalconDet1024) (store : SealStore S)
    (app_id cell_id : PyInt) (artifact_hash genesis_hash : Bytes) (s : S) where
  pub record_seal_recorded :
      (V : Option Library → Type 0)
      → Triple
          (λ w. (w.store ≡ s) × V (w.lib signer.object))
          (record_seal system signer store cell_id)
          (λ _ w.
            ((store.record_seal cell_id s).0 ≡ ok tt)
            × (w.store ≡ (store.record_seal cell_id s).1)
            × V (w.lib signer.object))
          (λ w. w.store ≡ s)
  record_seal_recorded V =
      Triple-results (record_seal system signer store cell_id)
        (λ w u p h. (rw (← p.0) h, ap (λ x. (store.record_seal cell_id x).1) p.0, p.1))
        (λ w e p h. store.unchanged_on_error cell_id w.store e h ∙ p.0)

  pub is_sealed_reads :
      Triple
        (λ w. w.store ≡ s)
        (is_sealed system signer store cell_id)
        (λ sealed w. (w.store ≡ s) × (store.is_sealed cell_id s ≡ ok sealed))
        (λ w. w.store ≡ s)
  is_sealed_reads =
      Triple-results (is_sealed system signer store cell_id) (λ w sealed p h. (p, rw (← p) h))
        (λ w e p h. p)

  finally-Verified :
      (pubkey : Bytes) (privkey : ℕ)
      → Triple
          (λ w. w.store ≡ s)
          (finally
            (sign_and_check system signer store app_id cell_id artifact_hash genesis_hash pubkey
              privkey)
            (λ w. unlock_pages privkey (wipe privkey privkey_size w)))
          (λ sig w.
            (w.store ≡ s)
            × Verified app_id cell_id artifact_hash genesis_hash pubkey sig (w.lib signer.object))
          (λ w. w.store ≡ s)
  unfolding unlock_pages wipe write_buffer
  finally-Verified pubkey privkey =
      Triple-finally
        (sign_and_check system signer store app_id cell_id artifact_hash genesis_hash pubkey
          privkey)
        (λ w. unlock_pages privkey (wipe privkey privkey_size w)) _ _
        (sign_and_check-Verified system signer store app_id cell_id artifact_hash genesis_hash s
          pubkey privkey)
        (λ _ w q. q) (λ w q. q)

  pub keygen_sign_seal-Sealed :
      Triple
        (λ w. w.store ≡ s)
        (keygen_sign_seal system signer store app_id cell_id artifact_hash genesis_hash)
        (Sealed signer store app_id cell_id artifact_hash genesis_hash s)
        (λ w. w.store ≡ s)
  unfolding keygen_sign_seal
  keygen_sign_seal-Sealed =
      Triple-bind (is_sealed system signer store cell_id) _ is_sealed_reads (λ sealed.
        Triple-assume _ (λ answer.
          Triple-bind (raise_unless (not sealed) cell_already_sealed) _
            (Triple-check (not sealed) cell_already_sealed)
            (λ _. Triple-assume _ (λ free.
              Triple-bind (keygen_into_buffer system signer) _
                (Leaves-Triple (λ x. x ≡ s) (keygen_into_buffer system signer)
                  (keygen_into_buffer-Leaves system signer))
                (λ pair. Triple-bind _ _ (finally-Verified pair.0 pair.1) (λ sig.
                  Triple-bind (record_seal system signer store cell_id) _
                    (record_seal_recorded
                      (Verified app_id cell_id artifact_hash genesis_hash pair.0 sig))
                    (λ _. Triple-pure _ (λ w q. record {
                      named = refl;
                      unsealed = ground arith;
                      recorded = q.0;
                      stored = q.1;
                      verified = q.2;
                    }))))))))
