-- ===== src/Falcon/Default.antt =====
-- The module-level functions of sdk/src/trelyan_pq/falcon.py over one shared instance, `_default`.
use trelyan_falcon_inscripti.Prelude.{◌+◌, arith, ◌≡◌, refl, Bool, true, Option, none, some}
use trelyan_falcon_inscripti.Prelude.Bytes.{Bytes}
use trelyan_falcon_inscripti.Prelude.Result.{Result, ok, err}
use trelyan_falcon_inscripti.Exceptions.{Exception}
use trelyan_falcon_inscripti.Message.{PyValue, build_message}
use trelyan_falcon_inscripti.Machine.{System, World, Library, M, pure, set_lib}
use trelyan_falcon_inscripti.Machine.Triples.{Triple-returns}
use trelyan_falcon_inscripti.Falcon.{
  FalconDet1024, new, load, keygen, sign, verify, sign_inscription, verify_inscription,
}
use trelyan_falcon_inscripti.Falcon.Correct.{IsCorrect, Available, can_load}
use trelyan_falcon_inscripti.Falcon.Returns.{sign_inscription_returns, verify_inscription_returns}

-- A call on the shared instance: from the value of `_default` and the world before it to its outcome, the
-- world after it and the value of `_default` after it.
abbrev pub Shared : Type 0 → Type 0 → Type 0
Shared S A = Option FalconDet1024 → World S → (Result Exception A × World S) × Option FalconDet1024

module _ {S : Type 0} (system : System) (default_lib_path : Bytes) where
  -- `default_signer`, where the path is that of the environment
  unfoldable pub default_signer : Option FalconDet1024 → M S FalconDet1024
  default_signer none = new none default_lib_path
  default_signer (some signer) = pure signer

  abbrev pub on_default : {A : Type 0} → (FalconDet1024 → M S A) → Shared S A
  on_default call default w =
      let (r, w') = default_signer default w in
      elim r [ ok signer ↦ (call signer w', some signer) | err e ↦ ((err e, w'), default) ]

  unfoldable pub default_keygen : Shared S (Bytes × Bytes)
  default_keygen = on_default (keygen system)

  unfoldable pub default_sign : Bytes → Bytes → Shared S Bytes
  default_sign privkey message = on_default (λ signer. sign system signer privkey message)

  unfoldable pub default_verify : Bytes → Bytes → Bytes → Shared S Bool
  default_verify sig pubkey message = on_default (λ signer. verify system signer sig pubkey message)

  unfoldable pub default_sign_inscription :
      Bytes → PyValue → PyValue → Bytes → Bytes → Shared S Bytes
  default_sign_inscription privkey app_id cell_id artifact_hash genesis_hash =
      on_default
        (λ signer. sign_inscription system signer privkey app_id cell_id artifact_hash genesis_hash)

  unfoldable pub default_verify_inscription :
      Bytes → Bytes → PyValue → PyValue → Bytes → Bytes → Shared S Bool
  default_verify_inscription sig pubkey app_id cell_id artifact_hash genesis_hash =
      on_default (λ signer.
        verify_inscription system signer sig pubkey app_id cell_id artifact_hash genesis_hash)

  -- The instance that the next call of the module uses has this library or can load it: the one that is
  -- there, or a new one with the path from the environment.
  pub data Usable (lib : Library) (w : World S) : Option FalconDet1024 → Type 0 where
    fresh : load system default_lib_path ≡ ok lib → Usable lib w none
    shared :
        (signer : FalconDet1024) → Available system signer lib w.lib → Usable lib w (some signer)

  module _ (lib : Library) (rng : Bytes) (app_id cell_id : PyValue)
      (artifact_hash genesis_hash message : Bytes) (c : IsCorrect lib)
      (built : build_message app_id cell_id artifact_hash genesis_hash ≡ ok message) where
    instance_verifies :
        (signer : FalconDet1024) (w : World S)
        → Available system signer lib w.lib
        → let (rc, sk, pk) = lib.keygen rng in
          let signed =
            sign_inscription system signer sk app_id cell_id artifact_hash genesis_hash w in
          (sig : Bytes) × (signed.0 ≡ ok sig)
          × ((verify_inscription system signer sig pk app_id cell_id artifact_hash genesis_hash
                signed.1).0
              ≡ ok true)
    instance_verifies signer w usable =
        let keys = lib.keygen rng in
        let (sig, given, (ready, same)) =
          Triple-returns
            (sign_inscription system signer keys.1 app_id cell_id artifact_hash genesis_hash)
            (sign_inscription_returns {P = λ _. Unit {0}} lib w.store c system signer
              (λ w libs outputs next p. p) rng app_id cell_id artifact_hash genesis_hash message
              built)
            w (record { loaded = usable; stored = refl }, tt) in
        let after =
          (sign_inscription system signer keys.1 app_id cell_id artifact_hash genesis_hash w).1 in
        let signs = c.signs rng message in
        let (verified, answer, (_, accepted)) =
          Triple-returns
            (verify_inscription system signer sig keys.2 app_id cell_id artifact_hash genesis_hash)
            (verify_inscription_returns {P = λ _. Unit {0}} lib w.store c system signer
              (λ w libs outputs next p. p) sig keys.2 app_id cell_id artifact_hash genesis_hash
              message built (c.generates rng).2 (rw same signs.4))
            after ready in
        (sig, given, rw accepted at answer)

    -- With a key that a library made that works, and an instance that has loaded it, or none yet and a
    -- path that opens it, sign_inscription of the module returns a signature for ids and hashes from
    -- which a message can be built, and verify_inscription of the module, called with it next, returns
    -- True.
    pub signed_inscription_verifies :
        (default : Option FalconDet1024) (w : World S)
        → Usable lib w default
        → let (rc, sk, pk) = lib.keygen rng in
          let signed =
            default_sign_inscription sk app_id cell_id artifact_hash genesis_hash default w in
          (sig : Bytes) × (signed.0.0 ≡ ok sig)
          × ((default_verify_inscription sig pk app_id cell_id artifact_hash genesis_hash signed.1
                signed.0.1).0.0
              ≡ ok true)
    unfolding default_sign_inscription default_verify_inscription default_signer new
    signed_inscription_verifies none w (fresh opens) =
        instance_verifies (record { lib_path = default_lib_path; object = w.next_address })
          (record w { lib = set_lib w.next_address none w.lib; next_address = w.next_address + 1 })
          (can_load (ground arith) opens)
    signed_inscription_verifies (some signer) w (shared _ usable) =
        instance_verifies signer w usable
