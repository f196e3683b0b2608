-- ===== src/Falcon.antt =====
-- sdk/src/trelyan_pq/falcon.py: the calls of the Falcon library with the guards around them.
pub mod Buffers
pub mod Frame
pub mod Signing
pub mod Verified
pub mod Correct
pub mod Generates
pub mod Returns
pub mod Default
mod Tests
pub mod Reference
use trelyan_falcon_inscripti.Prelude.{
  ℕ, ◌+◌, ◌≡◌, Bool, true, false, not, ◌&&◌, Option, none, some, List, [], ◌∷◌, length, take,
  replicate, get_elem?, ◌==◌, if◌then◌else◌,
}
use trelyan_falcon_inscripti.Prelude.Bytes.{Bytes}
use trelyan_falcon_inscripti.Prelude.BoxMap.{insert}
use trelyan_falcon_inscripti.Prelude.Result.{Result, ok, err}
use trelyan_falcon_inscripti.Exceptions.{
  Exception, bad_privkey_length, bad_pubkey_length, lib_not_set, lib_not_loaded, no_rng,
  keygen_failed, sign_failed, unexpected_header, index_error,
}
use trelyan_falcon_inscripti.Machine.{
  Library, System, World, M, pure, raise, lift, ◌>>=◌, ◌>>◌, raise_unless, modify, buffer_after,
  create_buffer, write_buffer, write_output, set_lib, wipe, read_buffer,
}
use trelyan_falcon_inscripti.Message.{
  PyValue, pubkey_len, sig_compressed_maxsize, det_compressed_header, build_message,
}

abbrev pub pubkey_size : ℕ
pubkey_size = pubkey_len

abbrev pub privkey_size : ℕ
privkey_size = 2305

-- sizeof(shake256_context)
abbrev pub rng_size : ℕ
rng_size = 208

-- An instance of FalconDet1024, at its address; its `_lib` is in the world.
pub record FalconDet1024 : Type 0 where
  pub lib_path : Bytes
  pub object : ℕ

-- `FalconDet1024(lib_path)`: None and "" both give the path from the environment.
abbrev pub chosen_path : Option Bytes → Bytes → Bytes
chosen_path none default_lib_path = default_lib_path
chosen_path (some []) default_lib_path = default_lib_path
chosen_path (some (c ∷ path)) default_lib_path = c ∷ path

-- The new object starts with `_lib` None.
unfoldable pub new : {S : Type 0} → Option Bytes → Bytes → M S FalconDet1024
new lib_path default_lib_path w = (
  ok (record { lib_path = chosen_path lib_path default_lib_path; object = w.next_address }),
  record w { lib = set_lib w.next_address none w.lib; next_address = w.next_address + 1 },
)

module _ (system : System) where
  -- `_load`
  unfoldable pub load : Bytes → Result Exception Library
  load [] = err lib_not_set
  load (c ∷ path) = elim (system.open_library (c ∷ path)) [
    | none ↦ err lib_not_loaded
    | some lib ↦ ok lib
  ]

module _ {S : Type 0} (system : System) (self : FalconDet1024) where
  -- `_lib_ref`
  unfoldable pub lib_ref : M S Library
  lib_ref w = elim (w.lib self.object) [
    | some lib ↦ (ok lib, w)
    | none ↦ elim (load system self.lib_path) [
      | ok lib ↦ (ok lib, record w { lib = set_lib self.object (some lib) w.lib })
      | err e ↦ (err e, w)
    ]
  ]

-- shake256_init_prng_from_system, on the context at this address; the result is whether it returned 0.
unfoldable pub init_prng : {S : Type 0} → ℕ → M S Bool
unfolding write_buffer
init_prng rng w = elim w.entropy [
  | [] ↦ (ok false, w)
  | none ∷ rest ↦ (ok false, record w { entropy = rest })
  | some context ∷ rest ↦
      (ok true, write_buffer rng (buffer_after rng_size context) (record w { entropy = rest }))
]

-- `_lock_pages`, whose result its only caller ignores, and `_unlock_pages`
unfoldable pub lock_pages : {S : Type 0} → System → ℕ → World S → World S
lock_pages system address w =
    if system.can_lock then record w { pinned = insert address true w.pinned } else w

unfoldable pub unlock_pages : {S : Type 0} → ℕ → World S → World S
unlock_pages address w = record w { pinned = insert address false w.pinned }

-- falcon_det1024_keygen on the two buffers and a new one for the public key: the return code and the
-- public key.
unfoldable pub keygen_call : {S : Type 0} → Library → ℕ → ℕ → M S (ℕ × Bytes)
unfolding write_buffer write_output
keygen_call lib rng privkey w =
    let (rc, sk, pk) = lib.keygen (read_buffer rng w) in
    (
      ok (rc, buffer_after pubkey_size pk),
      write_output pubkey_size pk (write_buffer privkey (buffer_after privkey_size sk) w),
    )

-- The header check behind the signature: the message of the AssertionError reads the first byte.
unfoldable pub check_header : {S : Type 0} → Bytes → M S Bytes
check_header [] = raise index_error
check_header (b ∷ rest) =
    if b == det_compressed_header then pure (b ∷ rest) else raise unexpected_header

module _ {S : Type 0} (system : System) (self : FalconDet1024) where
  unfoldable pub keygen : M S (Bytes × Bytes)
  keygen = do
    lib ← lib_ref system self
    rng ← create_buffer rng_size
    seeded ← init_prng rng
    raise_unless seeded no_rng
    privkey ← create_buffer privkey_size
    (rc, pubkey) ← keygen_call lib rng privkey
    raise_unless (rc == 0) keygen_failed
    λ w. (ok (pubkey, read_buffer privkey w), w)

  -- `_keygen_into_buffer`: the private key stays in its buffer, whose address is returned.
  unfoldable pub keygen_into_buffer : M S (Bytes × ℕ)
  keygen_into_buffer = do
    lib ← lib_ref system self
    rng ← create_buffer rng_size
    seeded ← init_prng rng
    raise_unless seeded no_rng
    privkey ← create_buffer privkey_size
    modify (lock_pages system privkey)
    (rc, pubkey) ← keygen_call lib rng privkey
    if rc == 0 then (do modify (wipe rng rng_size); pure (pubkey, privkey)) else (do
      modify (wipe privkey privkey_size)
      modify (unlock_pages privkey)
      modify (wipe rng rng_size)
      raise keygen_failed)

  unfoldable pub sign : Bytes → Bytes → M S Bytes
  sign privkey message = do
    raise_unless (length privkey == privkey_size) bad_privkey_length
    lib ← lib_ref system self
    let (rc, written, sig_len) = lib.sign privkey message
    modify (write_output sig_compressed_maxsize written)
    raise_unless (rc == 0) sign_failed
    check_header (take sig_len (buffer_after sig_compressed_maxsize written))

  unfoldable pub verify : Bytes → Bytes → Bytes → M S Bool
  verify sig pubkey message = do
    raise_unless (length pubkey == pubkey_size) bad_pubkey_length
    lib ← lib_ref system self
    pure (lib.verify sig pubkey message == 0)

  unfoldable pub sign_inscription : Bytes → PyValue → PyValue → Bytes → Bytes → M S Bytes
  sign_inscription privkey app_id cell_id artifact_hash genesis_hash = do
    m ← lift (build_message app_id cell_id artifact_hash genesis_hash)
    sign privkey m

  unfoldable pub verify_inscription : Bytes → Bytes → PyValue → PyValue → Bytes → Bytes → M S Bool
  verify_inscription sig pubkey app_id cell_id artifact_hash genesis_hash = do
    m ← lift (build_message app_id cell_id artifact_hash genesis_hash)
    verify sig pubkey m
