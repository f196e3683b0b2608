-- ===== src/Falcon/Reference.antt =====
-- The second binding of the Falcon library, contracts/falcon_det1024.py, next to the SDK's. Its errors
-- are those of the SDK's binding, raised at the same places.
use trelyan_falcon_inscripti.Prelude.{
  ℕ, ◌≡◌, refl, arith, ap, ◌∙◌, ◌==◌, length, Bool, some, none, [], ◌∷◌, get_elem?, take,
}
use trelyan_falcon_inscripti.Prelude.Bytes.{Bytes}
use trelyan_falcon_inscripti.Prelude.Result.{Result, ok, err, or_raise}
use trelyan_falcon_inscripti.Exceptions.{
  keygen_failed, no_rng, Exception, lib_not_set, lib_not_loaded, bad_privkey_length,
  bad_pubkey_length, sign_failed, index_error, unexpected_header,
}
use trelyan_falcon_inscripti.Machine.Leaves.{Leaves}
use trelyan_falcon_inscripti.Falcon.Frame.{
  keygen-Leaves, lib_ref-Leaves_store, sign-Leaves, verify-Leaves, write_output-Leaves_store,
}
use trelyan_falcon_inscripti.Message.{sig_compressed_maxsize, det_compressed_header}
use trelyan_falcon_inscripti.Machine.{
  read_buffer, System, World, Library, M, pure, lift, ◌>>=◌, ◌>>◌, raise_unless, buffer_after,
  modify, write_output, set_lib,
}
use trelyan_falcon_inscripti.Falcon.{
  keygen_call, init_prng, rng_size, keygen, create_buffer, FalconDet1024, load, lib_ref,
  check_header, sign, verify, pubkey_size, privkey_size,
}

-- The module, whose global `_lib` is kept as that of an object.
abbrev pub module_object : ℕ
module_object = 0

module _ (system : System) (lib_path : Bytes) where
  -- `_load`, on the path from the environment
  unfoldable pub reference_load : Result Exception Library
  reference_load = elim lib_path [
    | [] ↦ err lib_not_set
    | c ∷ path ↦ elim (system.open_library (c ∷ path)) [
      | none ↦ err lib_not_loaded
      | some lib ↦ ok lib
    ]
  ]

  module _ {S : Type 0} where
    -- `_libref`
    unfoldable pub libref : M S Library
    libref w = elim (w.lib module_object) [
      | some lib ↦ (ok lib, w)
      | none ↦ elim reference_load [
        | ok lib ↦ (ok lib, record w { lib = set_lib module_object (some lib) w.lib })
        | err e ↦ (err e, w)
      ]
    ]

    unfoldable pub reference_keygen : M S (Bytes × Bytes)
    reference_keygen = do
      lib ← libref
      rng ← create_buffer rng_size
      seeded ← init_prng rng
      raise_unless seeded no_rng
      privkey ← create_buffer privkey_size
      (rc, pubkey) ← keygen_call lib rng privkey
      raise_unless (rc == 0) keygen_failed
      λ w. (ok (pubkey, read_buffer privkey w), w)

    unfoldable pub sign_compressed : Bytes → Bytes → M S Bytes
    sign_compressed privkey data_bytes = do
      raise_unless (length privkey == privkey_size) bad_privkey_length
      lib ← libref
      let (rc, written, sig_len) = lib.sign privkey data_bytes
      modify (write_output sig_compressed_maxsize written)
      raise_unless (rc == 0) sign_failed
      let out = take sig_len (buffer_after sig_compressed_maxsize written)
      header ← lift (or_raise (get_elem? out 0) index_error)
      raise_unless (header == det_compressed_header) unexpected_header
      pure out

    unfoldable pub verify_compressed : Bytes → Bytes → Bytes → M S Bool
    verify_compressed sig pubkey data_bytes = do
      raise_unless (length pubkey == pubkey_size) bad_pubkey_length
      lib ← libref
      pure (lib.verify sig pubkey data_bytes == 0)

module _ {S A B : Type 0} where
  bind_agrees :
      (m n : M S A) (f g : A → M S B)
      → ((w : World S) → m w ≡ n w)
      → ((a : A) (w : World S) → f a w ≡ g a w)
      → (w : World S) → (m >>= f) w ≡ (n >>= g) w
  bind_agrees m n f g e h w = ap (λ o. (lift o.0 >>= f) o.1) (e w) ∙ rest (n w).0 (n w).1
    where
      rest : (r : Result Exception A) (w : World S) → (lift r >>= f) w ≡ (lift r >>= g) w
      rest (ok a) w = h a w
      rest (err x) w = refl

reference_load_agrees :
    (system : System) (lib_path : Bytes) → reference_load system lib_path ≡ load system lib_path
unfolding reference_load load
reference_load_agrees system [] = refl
reference_load_agrees system (c ∷ path) = refl

-- The instance of the SDK's binding that has the path and the `_lib` of this module.
abbrev pub module_signer : Bytes → FalconDet1024
module_signer lib_path = record { lib_path = lib_path; object = module_object }

module _ {S : Type 0} (system : System) (lib_path : Bytes) where
  libref_agrees :
      (w : World S) → libref system lib_path w ≡ lib_ref system (module_signer lib_path) w
  unfolding libref lib_ref
  libref_agrees w = ground (arith, reference_load_agrees system lib_path)

  check_first : Bytes → M S Bytes
  check_first out = do
    header ← lift (or_raise (get_elem? out 0) index_error)
    raise_unless (header == det_compressed_header) unexpected_header
    pure out

  header_agrees : (out : Bytes) (w : World S) → check_first out w ≡ check_header out w
  unfolding check_header check_first
  header_agrees [] w = refl
  header_agrees (b ∷ bs) w = ground arith

  -- The two bindings sign the same bytes and raise the same errors, and so for verification.
  pub sign_compressed_agrees :
      (privkey data_bytes : Bytes) (w : World S)
      → sign_compressed system lib_path privkey data_bytes w
        ≡ sign system (module_signer lib_path) privkey data_bytes w
  unfolding sign_compressed sign check_first
  sign_compressed_agrees privkey data_bytes =
      bind_agrees guard guard (λ _. libref system lib_path >>= after check_first)
        (λ _. lib_ref system (module_signer lib_path) >>= after check_header) (λ w. refl)
        (λ _.
          bind_agrees (libref system lib_path) (lib_ref system (module_signer lib_path))
            (after check_first) (after check_header) libref_agrees after_agrees)
    where
      guard : M S (Unit {0})
      guard = raise_unless (length privkey == privkey_size) bad_privkey_length

      after : (Bytes → M S Bytes) → Library → M S Bytes
      after check lib = do
        let (rc, written, sig_len) = lib.sign privkey data_bytes
        modify (write_output sig_compressed_maxsize written)
        raise_unless (rc == 0) sign_failed
        check (take sig_len (buffer_after sig_compressed_maxsize written))

      after_agrees :
          (lib : Library) (w : World S) → after check_first lib w ≡ after check_header lib w
      after_agrees lib =
          let o = lib.sign privkey data_bytes in
          let out = take o.2 (buffer_after sig_compressed_maxsize o.1) in
          let kept = modify (write_output sig_compressed_maxsize o.1) in
          let succeeded = raise_unless (o.0 == 0) sign_failed in
          bind_agrees kept kept (λ _. succeeded >> check_first out)
            (λ _. succeeded >> check_header out) (λ w. refl)
            (λ _.
              bind_agrees succeeded succeeded (λ _. check_first out) (λ _. check_header out)
                (λ w. refl) (λ _ w. header_agrees out w))

  pub verify_compressed_agrees :
      (sig pubkey data_bytes : Bytes) (w : World S)
      → verify_compressed system lib_path sig pubkey data_bytes w
        ≡ verify system (module_signer lib_path) sig pubkey data_bytes w
  unfolding verify_compressed verify
  verify_compressed_agrees sig pubkey data_bytes =
      bind_agrees guard guard (λ _. libref system lib_path >>= after)
        (λ _. lib_ref system (module_signer lib_path) >>= after) (λ w. refl)
        (λ _.
          bind_agrees (libref system lib_path) (lib_ref system (module_signer lib_path)) after after
            libref_agrees (λ lib w. refl))
    where
      guard : M S (Unit {0})
      guard = raise_unless (length pubkey == pubkey_size) bad_pubkey_length

      after : Library → M S Bool
      after lib = pure (lib.verify sig pubkey data_bytes == 0)

  -- The two bindings make the same key pair, raise the same errors and leave the same world.
  pub reference_keygen_agrees :
      (w : World S) → reference_keygen system lib_path w ≡ keygen system (module_signer lib_path) w
  unfolding reference_keygen keygen
  reference_keygen_agrees =
      bind_agrees (libref system lib_path) (lib_ref system (module_signer lib_path)) after after
        libref_agrees (λ lib w. refl)
    where
      after : Library → M S (Bytes × Bytes)
      after lib = do
        rng ← create_buffer rng_size
        seeded ← init_prng rng
        raise_unless seeded no_rng
        privkey ← create_buffer privkey_size
        (rc, pubkey) ← keygen_call lib rng privkey
        raise_unless (rc == 0) keygen_failed
        λ w. (ok (pubkey, read_buffer privkey w), w)

  libref-Leaves : Leaves (λ (w : World S). w.store) (libref system lib_path)
  libref-Leaves = record {
    at = λ w.
        let l : Leaves (λ v. v.store) (lib_ref {S = S} system (module_signer lib_path)) =
          lib_ref-Leaves_store system (module_signer lib_path) in
        ap (λ o. o.1.store) (libref_agrees w) ∙ l.at w;
  }

  -- None of the three calls touches the store.
  pub reference_keygen-Leaves : Leaves (λ (w : World S). w.store) (reference_keygen system lib_path)
  reference_keygen-Leaves = record {
    at = λ w.
        let l = keygen-Leaves {S = S} system (module_signer lib_path) in
        ap (λ o. o.1.store) (reference_keygen_agrees w) ∙ l.at w;
  }

  pub sign_compressed-Leaves :
      (privkey data_bytes : Bytes)
      → Leaves (λ (w : World S). w.store) (sign_compressed system lib_path privkey data_bytes)
  sign_compressed-Leaves privkey data_bytes = record {
    at = λ w.
        let l =
          sign-Leaves system (module_signer lib_path)
            (lib_ref-Leaves_store {S = S} system (module_signer lib_path)) write_output-Leaves_store
            privkey data_bytes in
        ap (λ o. o.1.store) (sign_compressed_agrees privkey data_bytes w) ∙ l.at w;
  }

  pub verify_compressed-Leaves :
      (sig pubkey data_bytes : Bytes)
      → Leaves (λ (w : World S). w.store) (verify_compressed system lib_path sig pubkey data_bytes)
  verify_compressed-Leaves sig pubkey data_bytes = record {
    at = λ w.
        let l =
          verify-Leaves system (module_signer lib_path)
            (lib_ref-Leaves_store {S = S} system (module_signer lib_path)) sig pubkey data_bytes in
        ap (λ o. o.1.store) (verify_compressed_agrees sig pubkey data_bytes w) ∙ l.at w;
  }
