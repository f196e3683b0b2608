-- ===== src/Falcon/Frame.antt =====
-- Signing and verifying touch nothing of the world but what loading the library touches, and making a
-- key pair leaves the store alone.
use trelyan_falcon_inscripti.Prelude.{
  Option, if◌then◌else◌, Bool, true, false, refl, ◌==◌, arith, length, [], ◌∷◌, take,
}
use trelyan_falcon_inscripti.Prelude.Bytes.{Bytes}
use trelyan_falcon_inscripti.Prelude.Result.{ok}
use trelyan_falcon_inscripti.Message.{PyValue, build_message, det_compressed_header}
use trelyan_falcon_inscripti.Machine.{
  create_buffer, write_output, read_buffer, modify, write_buffer, wipe, ◌>>◌, System, World,
  raise_unless, pure, raise, lift, Library,
}
use trelyan_falcon_inscripti.Machine.Leaves.{
  Leaves, Leaves-bind, Leaves-pure, Leaves-raise, Leaves-lift, Leaves-raise_unless, Leaves-if,
}
use trelyan_falcon_inscripti.Falcon.{
  new, keygen, keygen_failed, no_rng, rng_size, unlock_pages, keygen_into_buffer, init_prng,
  lock_pages, keygen_call, bad_privkey_length, privkey_size, sig_compressed_maxsize, buffer_after,
  bad_pubkey_length, unexpected_header, sign_failed, pubkey_size, ℕ, index_error, FalconDet1024,
  lib_ref, check_header, sign, verify, verify_inscription,
}

module _ {S : Type 0} (system : System) (self : FalconDet1024) where
  pub lib_ref-Leaves_buffers : Leaves {S = S} (λ w. w.buffers) (lib_ref system self)
  unfolding lib_ref
  lib_ref-Leaves_buffers = record { at = λ w. ground arith }

  pub lib_ref-Leaves_store : Leaves {S = S} (λ w. w.store) (lib_ref system self)
  unfolding lib_ref
  lib_ref-Leaves_store = record { at = λ w. ground arith }

module _ {S X : Type 0} {part : World S → X} where
  check_header-Leaves : (out : Bytes) → Leaves part (check_header {S = S} out)
  unfolding check_header
  check_header-Leaves [] = Leaves-raise index_error
  check_header-Leaves (b ∷ rest) =
      Leaves-if (b == det_compressed_header) _ _ (Leaves-pure (b ∷ rest))
        (Leaves-raise unexpected_header)

module _ {S : Type 0} where
  pub new-Leaves_store :
      (lib_path : Option Bytes) (default_lib_path : Bytes)
      → Leaves {S = S} (λ w. w.store) (new lib_path default_lib_path)
  unfolding new
  new-Leaves_store lib_path default_lib_path = record { at = λ w. refl }

  pub write_output-Leaves_buffers :
      (size : ℕ) (written : Bytes)
      → Leaves {S = S} (λ w. w.buffers) (modify (write_output size written))
  unfolding write_output
  write_output-Leaves_buffers size written = record { at = λ w. refl }

  pub write_output-Leaves_store :
      (size : ℕ) (written : Bytes)
      → Leaves {S = S} (λ w. w.store) (modify (write_output size written))
  unfolding write_output
  write_output-Leaves_store size written = record { at = λ w. refl }

module _ {S X : Type 0} {part : World S → X} (system : System) (self : FalconDet1024)
    (l : Leaves part (lib_ref system self))
    (o : (size : ℕ) (written : Bytes) → Leaves part (modify (write_output size written))) where
  pub sign-Leaves : (privkey message : Bytes) → Leaves part (sign system self privkey message)
  unfolding sign
  sign-Leaves privkey message =
      Leaves-bind (raise_unless (length privkey == privkey_size) bad_privkey_length) _
        (Leaves-raise_unless (length privkey == privkey_size) bad_privkey_length)
        (λ _. Leaves-bind (lib_ref system self) _ l (λ lib. after_call lib.sign))
    where
      after_call :
          (sign_compressed : Bytes → Bytes → ℕ × Bytes × ℕ)
          → Leaves part (
              let (rc, written, sig_len) = sign_compressed privkey message in
              do
                modify (write_output sig_compressed_maxsize written)
                raise_unless (rc == 0) sign_failed
                check_header (take sig_len (buffer_after sig_compressed_maxsize written)))
      after_call sign_compressed =
          let result = sign_compressed privkey message in
          Leaves-bind (modify (write_output sig_compressed_maxsize result.1)) _
            (o sig_compressed_maxsize result.1)
            (λ _.
              Leaves-bind (raise_unless (result.0 == 0) sign_failed) _
                (Leaves-raise_unless (result.0 == 0) sign_failed)
                (λ _.
                  check_header-Leaves
                    (take result.2 (buffer_after sig_compressed_maxsize result.1))))

module _ {S X : Type 0} {part : World S → X} (system : System) (self : FalconDet1024)
    (l : Leaves part (lib_ref system self)) where
  pub verify-Leaves :
      (sig pubkey message : Bytes) → Leaves part (verify system self sig pubkey message)
  unfolding verify
  verify-Leaves sig pubkey message =
      Leaves-bind (raise_unless (length pubkey == pubkey_size) bad_pubkey_length) _
        (Leaves-raise_unless (length pubkey == pubkey_size) bad_pubkey_length)
        (λ _.
          Leaves-bind (lib_ref system self) _ l
            (λ lib. Leaves-pure (lib.verify sig pubkey message == 0)))

  pub verify_inscription-Leaves :
      (sig pubkey : Bytes) (app_id cell_id : PyValue) (artifact_hash genesis_hash : Bytes)
      → Leaves part
          (verify_inscription system self sig pubkey app_id cell_id artifact_hash genesis_hash)
  unfolding verify_inscription
  verify_inscription-Leaves sig pubkey app_id cell_id artifact_hash genesis_hash =
      Leaves-bind (lift (build_message app_id cell_id artifact_hash genesis_hash)) _
        (Leaves-lift (build_message app_id cell_id artifact_hash genesis_hash))
        (λ m. verify-Leaves sig pubkey m)

module _ {S : Type 0} where
  pub create_buffer-Leaves : (size : ℕ) → Leaves {S = S} (λ w. w.store) (create_buffer size)
  unfolding create_buffer
  create_buffer-Leaves size = record { at = λ w. refl }

  pub init_prng-Leaves : (rng : ℕ) → Leaves {S = S} (λ w. w.store) (init_prng rng)
  unfolding init_prng write_buffer
  init_prng-Leaves rng = record { at = λ w. ground arith }

  pub keygen_call-Leaves :
      (lib : Library) (rng privkey : ℕ)
      → Leaves {S = S} (λ w. w.store) (keygen_call lib rng privkey)
  unfolding keygen_call write_buffer write_output
  keygen_call-Leaves lib rng privkey = record { at = λ w. refl }

  lock_pages-Leaves :
      (system : System) (privkey : ℕ)
      → Leaves {S = S} (λ w. w.store) (modify (lock_pages system privkey))
  unfolding lock_pages
  lock_pages-Leaves system privkey = record { at = λ w. ground arith }

module _ {S : Type 0} (system : System) (self : FalconDet1024) where
  pub keygen_into_buffer-Leaves : Leaves {S = S} (λ w. w.store) (keygen_into_buffer system self)
  unfolding keygen_into_buffer unlock_pages wipe write_buffer
  keygen_into_buffer-Leaves =
      Leaves-bind (lib_ref system self) _ (lib_ref-Leaves_store system self) (λ lib.
        Leaves-bind (create_buffer rng_size) _ (create_buffer-Leaves rng_size) (λ rng.
          Leaves-bind (init_prng rng) _ (init_prng-Leaves rng) (λ seeded.
            Leaves-bind (raise_unless seeded no_rng) _ (Leaves-raise_unless seeded no_rng) (λ _.
              Leaves-bind (create_buffer privkey_size) _ (create_buffer-Leaves privkey_size)
                (λ privkey.
                  Leaves-bind (modify (lock_pages system privkey)) _
                    (lock_pages-Leaves system privkey)
                    (λ _.
                      Leaves-bind (keygen_call lib rng privkey) _
                        (keygen_call-Leaves lib rng privkey)
                        (λ r. ends rng privkey r.1 (r.0 == 0))))))))
    where
      ends :
          (rng privkey : ℕ) (pubkey : Bytes) (succeeded : Bool)
          → Leaves {S = S} {A = Bytes × ℕ}
              (λ w. w.store)
              (if succeeded then (do modify (wipe rng rng_size); pure (pubkey, privkey)) else (do
                modify (wipe privkey privkey_size)
                modify (unlock_pages privkey)
                modify (wipe rng rng_size)
                raise keygen_failed))
      ends rng privkey pubkey true = record { at = λ w. refl }
      ends rng privkey pubkey false = record { at = λ w. refl }

  pub keygen-Leaves : Leaves {S = S} (λ w. w.store) (keygen system self)
  unfolding keygen
  keygen-Leaves = Leaves-bind (lib_ref system self) _ (lib_ref-Leaves_store system self) (λ lib.
      Leaves-bind (create_buffer rng_size) _ (create_buffer-Leaves rng_size) (λ rng.
        Leaves-bind (init_prng rng) _ (init_prng-Leaves rng) (λ seeded.
          Leaves-bind (raise_unless seeded no_rng) _ (Leaves-raise_unless seeded no_rng) (λ _.
            Leaves-bind (create_buffer privkey_size) _ (create_buffer-Leaves privkey_size)
              (λ privkey.
                Leaves-bind (keygen_call lib rng privkey) _ (keygen_call-Leaves lib rng privkey)
                  (λ r.
                    Leaves-bind (raise_unless (r.0 == 0) keygen_failed)
                      (λ _ w. (ok (r.1, read_buffer privkey w), w))
                      (Leaves-raise_unless (r.0 == 0) keygen_failed)
                      (λ _. record { at = λ w. refl })))))))
