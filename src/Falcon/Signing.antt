-- ===== src/Falcon/Signing.antt =====
-- What `sign` returns and raises, once the library is loaded.
use trelyan_falcon_inscripti.Prelude.{
  ◌++◌, length-take_le, length-take_le_all, ◌≡◌, arith, ℕ, ◌≤◌, length, ◌==◌, some, [], ◌∷◌,
  get_elem?,
}
use trelyan_falcon_inscripti.Prelude.Bytes.{Bytes}
use trelyan_falcon_inscripti.Prelude.Result.{ok, err}
use trelyan_falcon_inscripti.Exceptions.{sign_failed, bad_privkey_length, index_error}
use trelyan_falcon_inscripti.Machine.{
  M, raise_unless, System, World, Library, buffer_after, modify, write_output, set_lib, ◌>>◌,
}
use trelyan_falcon_inscripti.Message.{sig_compressed_maxsize, det_compressed_header}
use trelyan_falcon_inscripti.Machine.Triples.{Triple-results, Triple-bind, Triple, Triple-ok}
use trelyan_falcon_inscripti.Falcon.{
  replicate, take, FalconDet1024, privkey_size, lib_ref, check_header, sign,
}

-- The first byte is 0xBA, and the signature fits the buffer.
pub IsSignature : Bytes → Type 0
IsSignature out =
    (get_elem? out 0 ≡ some det_compressed_header) × (length out ≤ sig_compressed_maxsize)

module _ {S : Type 0} (system : System) (self : FalconDet1024) (w : World S) where
  pub sign_of_empty_output :
      (lib : Library) (privkey message written : Bytes)
      → length privkey ≡ privkey_size
      → lib.sign privkey message ≡ (0, written, 0)
      → let loaded = record w { lib = set_lib self.object (some lib) w.lib } in
        (sign system self privkey message loaded).0 ≡ err index_error
  unfolding sign lib_ref check_header
  sign_of_empty_output lib privkey message written len out = ground (arith, len, out)

module _ {S : Type 0} where
  check_header_ok :
      (bs out : Bytes) (w : World S)
      → (check_header bs w).0 ≡ ok out
      → (bs ≡ out) × (get_elem? out 0 ≡ some det_compressed_header)
  unfolding check_header
  check_header_ok [] out w h = cc
  check_header_ok (b ∷ rest) out w h = ground arith

  check_header_shape :
      (bs : Bytes)
      → length bs ≤ sig_compressed_maxsize
      → Triple {S = S} (λ _. Unit {0}) (check_header bs) (λ out _. IsSignature out) (λ _. Unit {0})
  unfolding IsSignature
  check_header_shape bs le =
      Triple-results (check_header bs)
        (λ w out p h. let (e, header) = check_header_ok bs out w h in (header, rw (← e) le))
        (λ w e p h. tt)

cut_of_buffer_le : (n m : ℕ) (bs : Bytes) → length (take n (buffer_after m bs)) ≤ m
cut_of_buffer_le n m bs =
    omega (arith, length-take_le_all n (buffer_after m bs), length-take_le m (bs ++ replicate m 0))

module _ {S : Type 0} (system : System) (self : FalconDet1024) (privkey message : Bytes) where
  always :
      {A : Type 0} (m : M S A) → Triple {S = S} (λ _. Unit {0}) m (λ _ _. Unit {0}) (λ _. Unit {0})
  always m = Triple-results m (λ w a p h. tt) (λ w e p h. tt)

  sign_shape :
      Triple {S = S}
        (λ _. Unit {0})
        (sign system self privkey message)
        (λ out _. IsSignature out)
        (λ _. Unit {0})
  unfolding sign
  sign_shape =
      Triple-bind (raise_unless (length privkey == privkey_size) bad_privkey_length) _
        (always (raise_unless (length privkey == privkey_size) bad_privkey_length))
        (λ _. Triple-bind (lib_ref system self) _ (always (lib_ref system self)) (λ lib.
          let (rc, written, sig_len) = lib.sign privkey message in
          let out = take sig_len (buffer_after sig_compressed_maxsize written) in
          let checked : M S Bytes = raise_unless (rc == 0) sign_failed >> check_header out in
          Triple-bind (modify (write_output sig_compressed_maxsize written)) (λ _. checked)
            (always (modify (write_output sig_compressed_maxsize written)))
            (λ _.
              Triple-bind (raise_unless (rc == 0) sign_failed) (λ _. check_header out)
                (always (raise_unless (rc == 0) sign_failed))
                (λ _.
                  check_header_shape out
                    (cut_of_buffer_le sig_len sig_compressed_maxsize written)))))

  pub sign-IsSignature :
      (w : World S) (out : Bytes)
      → (sign system self privkey message w).0 ≡ ok out
      → IsSignature out
  sign-IsSignature w out h = Triple-ok (sign system self privkey message) sign_shape w out tt h
