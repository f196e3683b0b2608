-- ===== src/Seal/Isolated.antt =====
-- keygen_sign_seal_isolated of seal.py, as the parent process runs it: the worker process is a
-- parameter, and so are its environment, its arguments and the encoding of the request.
use trelyan_falcon_inscripti.Prelude.{
  false, inl, inr, ◌≡◌, refl, arith, Bool, true, not, ◌&&◌, Option,
}
use trelyan_falcon_inscripti.Prelude.Bytes.{Bytes}
use trelyan_falcon_inscripti.Prelude.Result.{Result-cases, Result, ok, err, or_raise}
use trelyan_falcon_inscripti.Exceptions.{
  Exception, cell_already_sealed, seal_verification_error, timed_out, bad_reply,
}
use trelyan_falcon_inscripti.Message.{PyInt, int, nonneg, build_message}
use trelyan_falcon_inscripti.Machine.{System, World, M, pure, lift, ◌>>=◌, ◌>>◌, raise_unless}
use trelyan_falcon_inscripti.Machine.Triples.{
  Triple, Triple-bind, Triple-check, Triple-lift, Triple-assume, Triple-pure, Triple-weaken,
  Triple-ok, Triple-err,
}
use trelyan_falcon_inscripti.Falcon.{FalconDet1024, verify_inscription}
use trelyan_falcon_inscripti.Falcon.Verified.{verify_inscription-Accepts}
use trelyan_falcon_inscripti.Seal.Store.{SealStore, int_eq}
use trelyan_falcon_inscripti.Seal.{SealResult, has_header, is_sealed, record_seal}
use trelyan_falcon_inscripti.Seal.Recorded.{Sealed, Verified, is_sealed_reads, record_seal_recorded}

-- How the worker ended and what it printed: the truth of "ok", and the two fields as bytes if they are
-- there and are hex. Output that is no JSON is as an empty object.
pub record Reply : Type 0 where
  pub returncode : PyInt
  pub is_ok : Bool
  pub pubkey : Option Bytes
  pub signature : Option Bytes

module _ {S : Type 0} (system : System) (signer : FalconDet1024) (store : SealStore S)
    (worker : PyInt → PyInt → Bytes → Bytes → Option Reply) (app_id cell_id : PyInt)
    (artifact_hash genesis_hash : Bytes) where
  unfoldable pub keygen_sign_seal_isolated : M S SealResult
  keygen_sign_seal_isolated = do
    sealed ← is_sealed system signer store cell_id
    raise_unless (not sealed) cell_already_sealed
    reply ← lift (or_raise (worker app_id cell_id artifact_hash genesis_hash) timed_out)
    raise_unless (int_eq reply.returncode (nonneg 0) && reply.is_ok) seal_verification_error
    pubkey ← lift (or_raise reply.pubkey bad_reply)
    sig ← lift (or_raise reply.signature bad_reply)
    raise_unless (has_header sig) seal_verification_error
    verified ←
        verify_inscription system signer sig pubkey (int app_id) (int cell_id) artifact_hash
          genesis_hash
    raise_unless verified seal_verification_error
    record_seal system signer store cell_id
    pure (record { pubkey = pubkey; signature = sig; cell_id = cell_id })

module _ {S : Type 0} (system : System) (signer : FalconDet1024) (s : S) (sig pubkey : Bytes)
    (app_id cell_id : PyInt) (artifact_hash genesis_hash : Bytes) where
  -- a verification that returns True has built the message
  pub verify_inscription-Verified :
      has_header sig ≡ true
      → Triple
          (λ w. w.store ≡ s)
          (verify_inscription system signer sig pubkey
            (int app_id)
            (int cell_id)
            artifact_hash
            genesis_hash)
          (λ verified w.
            (w.store ≡ s)
            × (verified ≡ true
                → Verified app_id cell_id artifact_hash genesis_hash pubkey sig
                    (w.lib signer.object)))
          (λ w. w.store ≡ s)
  unfolding verify_inscription
  verify_inscription-Verified header =
      elim (Result-cases (build_message (int app_id) (int cell_id) artifact_hash genesis_hash)) [
        | inl (m, built) ↦
            Triple-weaken _ (λ w p. p)
              (verify_inscription-Accepts system signer s sig pubkey (int app_id) (int cell_id)
                artifact_hash genesis_hash m built)
              (λ verified w q.
                (q.0, λ t. record { message = m; built = built; accepts = q.1 t; header = header }))
              (λ w p. p)
        | inr (e, failed) ↦ unbuilt e failed
      ]
    where
      unbuilt :
          (e : Exception)
          → build_message (int app_id) (int cell_id) artifact_hash genesis_hash ≡ err e
          → Triple
              (λ w. w.store ≡ s)
              (verify_inscription system signer sig pubkey
                (int app_id)
                (int cell_id)
                artifact_hash
                genesis_hash)
              (λ verified w.
                (w.store ≡ s)
                × (verified ≡ true
                    → Verified app_id cell_id artifact_hash genesis_hash pubkey sig
                        (w.lib signer.object)))
              (λ w. w.store ≡ s)
      unbuilt e failed = record { run = λ w p. rw failed p }

module _ {S : Type 0} (system : System) (signer : FalconDet1024) (store : SealStore S)
    (worker : PyInt → PyInt → Bytes → Bytes → Option Reply) (app_id cell_id : PyInt)
    (artifact_hash genesis_hash : Bytes) where
  abbrev isolated : M S SealResult
  isolated =
      keygen_sign_seal_isolated system signer store worker app_id cell_id artifact_hash genesis_hash

  isolated-Sealed :
      (s : S)
      → Triple
          (λ w. w.store ≡ s)
          isolated
          (Sealed signer store app_id cell_id artifact_hash genesis_hash s)
          (λ w. w.store ≡ s)
  unfolding keygen_sign_seal_isolated
  isolated-Sealed s =
      Triple-bind (is_sealed system signer store cell_id) _
        (is_sealed_reads system signer store app_id cell_id artifact_hash genesis_hash s)
        (λ sealed. Triple-assume _ (λ answer.
          Triple-bind (raise_unless (not sealed) cell_already_sealed) _
            (Triple-check (not sealed) cell_already_sealed)
            (λ _. Triple-assume _ (λ free.
              Triple-bind
                (lift (or_raise (worker app_id cell_id artifact_hash genesis_hash) timed_out)) _
                (kept (or_raise (worker app_id cell_id artifact_hash genesis_hash) timed_out))
                (λ reply.
                  Triple-bind
                    (raise_unless (int_eq reply.returncode (nonneg 0) && reply.is_ok)
                      seal_verification_error)
                    _
                    (kept_check (int_eq reply.returncode (nonneg 0) && reply.is_ok)
                      seal_verification_error)
                    (λ _.
                      Triple-bind (lift (or_raise reply.pubkey bad_reply)) _
                        (kept (or_raise reply.pubkey bad_reply))
                        (λ pubkey.
                          Triple-bind (lift (or_raise reply.signature bad_reply)) _
                            (kept (or_raise reply.signature bad_reply))
                            (λ sig. verified_and_recorded pubkey sig (ground arith)))))))))
    where
      kept :
          {A : Type 0} (r : Result Exception A)
          → Triple (λ w. w.store ≡ s) (lift r) (λ _ w. w.store ≡ s) (λ w. w.store ≡ s)
      kept r = Triple-weaken (lift r) (λ w p. p) (Triple-lift r) (λ _ w q. q.0) (λ w q. q)

      kept_check :
          (test : Bool) (e : Exception)
          → Triple (λ w. w.store ≡ s) (raise_unless test e) (λ _ w. w.store ≡ s) (λ w. w.store ≡ s)
      kept_check test e =
          Triple-weaken (raise_unless test e) (λ w p. p) (Triple-check test e) (λ _ w q. q.0)
            (λ w q. q)

      verified_and_recorded :
          (pubkey sig : Bytes)
          → store.is_sealed cell_id s ≡ ok false
          → Triple
              (λ w. w.store ≡ s)
              (do
                raise_unless (has_header sig) seal_verification_error
                verified ←
                    verify_inscription system signer sig pubkey
                      (int app_id)
                      (int cell_id)
                      artifact_hash
                      genesis_hash
                raise_unless verified seal_verification_error
                record_seal system signer store cell_id
                pure (record { pubkey = pubkey; signature = sig; cell_id = cell_id }))
              (Sealed signer store app_id cell_id artifact_hash genesis_hash s)
              (λ w. w.store ≡ s)
      verified_and_recorded pubkey sig unsealed =
          Triple-bind (raise_unless (has_header sig) seal_verification_error) _
            (Triple-check (has_header sig) seal_verification_error)
            (λ _. Triple-assume _ (λ header.
              Triple-bind
                (verify_inscription system signer sig pubkey (int app_id) (int cell_id)
                  artifact_hash genesis_hash)
                _
                (verify_inscription-Verified system signer s sig pubkey app_id cell_id artifact_hash
                  genesis_hash header)
                (λ verified.
                  Triple-bind (raise_unless verified seal_verification_error) _
                    (Triple-weaken (raise_unless verified seal_verification_error) (λ w q. q)
                      (Triple-check verified seal_verification_error) (λ _ w q. (q.0.0, q.0.1 q.1))
                      (λ w q. q.0))
                    (λ _.
                      Triple-bind (record_seal system signer store cell_id) _
                        (record_seal_recorded system signer store app_id cell_id artifact_hash
                          genesis_hash s
                          (Verified app_id cell_id artifact_hash genesis_hash pubkey sig))
                        (λ _. Triple-pure _ (λ w q. record {
                          named = refl;
                          unsealed = unsealed;
                          recorded = q.0;
                          stored = q.1;
                          verified = q.2;
                        }))))))

  -- When keygen_sign_seal_isolated returns, whatever the worker replied, the result names the cell, the
  -- cell was not sealed before and is recorded, and the signature has the header 0xBA and is accepted by
  -- the loaded library under the returned key on the message of the cell.
  pub isolated_seal-Sealed :
      (w : World S) (r : SealResult)
      → (isolated w).0 ≡ ok r
      → Sealed signer store app_id cell_id artifact_hash genesis_hash w.store r (isolated w).1
  isolated_seal-Sealed w r h = Triple-ok isolated (isolated-Sealed w.store) w r refl h

  pub failed_isolated_seal_keeps_store :
      (w : World S) (e : Exception) → (isolated w).0 ≡ err e → (isolated w).1.store ≡ w.store
  failed_isolated_seal_keeps_store w e h = Triple-err isolated (isolated-Sealed w.store) w e refl h
