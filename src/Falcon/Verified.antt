-- ===== src/Falcon/Verified.antt =====
-- What a verification that returns True has established.
use trelyan_falcon_inscripti.Prelude.{◌≡◌, ◌==◌, arith, length, true, Option, some}
use trelyan_falcon_inscripti.Prelude.Bytes.{Bytes}
use trelyan_falcon_inscripti.Prelude.Result.{ok}
use trelyan_falcon_inscripti.Message.{PyValue, build_message}
use trelyan_falcon_inscripti.Machine.{System, World, Library, raise_unless}
use trelyan_falcon_inscripti.Machine.Triples.{
  Triple-weaken, Triple, Triple-bind, Triple-check, Triple-results, Triple-pure,
}
use trelyan_falcon_inscripti.Falcon.{
  bad_pubkey_length, pubkey_size, FalconDet1024, lib_ref, verify, verify_inscription,
}

-- The library that is loaded accepts the signature.
pub record Accepts (sig pubkey message : Bytes) (loaded_lib : Option Library) : Type 0 where
  pub lib : Library
  pub loaded : loaded_lib ≡ some lib
  pub accepted : lib.verify sig pubkey message ≡ 0

module _ {S : Type 0} (system : System) (self : FalconDet1024) (s : S) where
  found :
      (w : World S) (lib : Library)
      → (lib_ref system self w).0 ≡ ok lib
      → (lib_ref system self w).1.lib self.object ≡ some lib
  unfolding lib_ref
  found w lib h = ground arith

  lib_ref_loads :
      Triple
        (λ w. w.store ≡ s)
        (lib_ref system self)
        (λ lib w. (w.store ≡ s) × (w.lib self.object ≡ some lib))
        (λ w. w.store ≡ s)
  unfolding lib_ref
  lib_ref_loads =
      Triple-results (lib_ref system self) (λ w lib p h. (ground arith, found w lib h))
        (λ w e p h. ground arith)

  verify-Accepts :
      (sig pubkey message : Bytes)
      → Triple
          (λ w. w.store ≡ s)
          (verify system self sig pubkey message)
          (λ verified w.
            (w.store ≡ s) × (verified ≡ true → Accepts sig pubkey message (w.lib self.object)))
          (λ w. w.store ≡ s)
  unfolding verify
  verify-Accepts sig pubkey message =
      Triple-bind (raise_unless (length pubkey == pubkey_size) bad_pubkey_length) _
        (Triple-check (length pubkey == pubkey_size) bad_pubkey_length)
        (λ _.
          Triple-bind (lib_ref system self) _
            (Triple-weaken (lib_ref system self) (λ w p. p.0) lib_ref_loads (λ lib w q. q)
              (λ w q. q))
            (λ lib.
              Triple-pure (lib.verify sig pubkey message == 0)
                (λ w q. (q.0, λ t. record { lib = lib; loaded = q.1; accepted = ground arith }))))

  pub verify_inscription-Accepts :
      (sig pubkey : Bytes) (app_id cell_id : PyValue) (artifact_hash genesis_hash m : Bytes)
      → build_message app_id cell_id artifact_hash genesis_hash ≡ ok m
      → Triple
          (λ w. w.store ≡ s)
          (verify_inscription system self sig pubkey app_id cell_id artifact_hash genesis_hash)
          (λ verified w.
            (w.store ≡ s) × (verified ≡ true → Accepts sig pubkey m (w.lib self.object)))
          (λ w. w.store ≡ s)
  unfolding verify_inscription
  verify_inscription-Accepts sig pubkey app_id cell_id artifact_hash genesis_hash m built =
      rw built (verify-Accepts sig pubkey m)
