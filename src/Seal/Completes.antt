-- ===== src/Seal/Completes.antt =====
-- keygen_sign_seal returns when nothing fails: a library that works, randomness, valid parameters, a
-- cell that is not sealed and a store that records it.
use trelyan_falcon_inscripti.Prelude.{
  ◌≡◌, refl, arith, ◌∙◌, ap, ℕ, true, false, not, some, [], ◌∷◌, List, Option, get_elem?,
}
use trelyan_falcon_inscripti.Prelude.Bytes.{Bytes}
use trelyan_falcon_inscripti.Prelude.BoxMap.{lookup}
use trelyan_falcon_inscripti.Prelude.Result.{ok}
use trelyan_falcon_inscripti.Message.{PyInt, int, build_message, det_compressed_header}
use trelyan_falcon_inscripti.Machine.{
  pure, System, World, Library, raise_unless, finally, reraise, read_buffer, write_buffer, wipe,
  ◌>>=◌, ◌>>◌,
}
use trelyan_falcon_inscripti.Machine.Triples.{
  Triple-returns, Triple, Triple-bind, Triple-pass, Triple-assume, Triple-pure, Triple-finally,
  Triple-reraise, Triple-results,
}
use trelyan_falcon_inscripti.Falcon.{
  FalconDet1024, sign, verify_inscription, keygen_into_buffer, unlock_pages, privkey_size,
}
use trelyan_falcon_inscripti.Falcon.Correct.{IsCorrect, Available, Ready, Keyed}
use trelyan_falcon_inscripti.Falcon.Generates.{keygen_into_buffer_returns}
use trelyan_falcon_inscripti.Falcon.Returns.{sign_returns, verify_inscription_returns}
use trelyan_falcon_inscripti.Seal.Store.{SealStore}
use trelyan_falcon_inscripti.Seal.{
  cell_already_sealed, seal_verification_error, SealResult, has_header, as_verification_error,
  is_sealed, record_seal, sign_and_check, keygen_sign_seal,
}

pub has_header_at :
    (sig : Bytes) → get_elem? sig 0 ≡ some det_compressed_header → has_header sig ≡ true
has_header_at [] h = cc
has_header_at (b ∷ bs) h = let e : b ≡ det_compressed_header = cc in rw e refl

abbrev Going : {S : Type 0} → System → FalconDet1024 → Library → S → World S → Type 0
Going system signer lib s w = Ready system signer lib s w × Unit {0}

module _ {S : Type 0} {E : World S → Type 0} (lib : Library) (s : S) (c : IsCorrect lib)
    (system : System) (signer : FalconDet1024) (store : SealStore S) (app_id cell_id : PyInt)
    (artifact_hash genesis_hash message : Bytes)
    (built : build_message (int app_id) (int cell_id) artifact_hash genesis_hash ≡ ok message) where
  sign_buffer_returns :
      (rng : Bytes) (privkey : ℕ)
      → Triple {S = S}
          (λ w.
            Ready system signer lib s w × (lookup privkey w.buffers ≡ some ((lib.keygen rng).1)))
          (reraise
            (λ w. sign system signer (read_buffer privkey w) message w)
            as_verification_error)
          (λ sig w. Going system signer lib s w × (sig ≡ (lib.sign ((lib.keygen rng).1) message).1))
          E
  sign_buffer_returns rng privkey = Triple-reraise _ as_verification_error (record {
    run = λ w p.
        let t =
          sign_returns {E = E} {P = λ _. Unit {0}} lib s c system signer
            (λ w libs outputs next p. p) rng message in
        let e : read_buffer privkey w ≡ (lib.keygen rng).1 = rw (read_buffer, p.1) refl in
        rw e (t.run w (p.0, tt));
  })

  checked :
      (rng : Bytes) (privkey : ℕ) (pubkey : Bytes)
      → pubkey ≡ (lib.keygen rng).2
      → Triple {S = S}
          (λ w.
            Ready system signer lib s w × (lookup privkey w.buffers ≡ some ((lib.keygen rng).1)))
          (sign_and_check system signer store app_id cell_id artifact_hash genesis_hash pubkey
            privkey)
          (λ _ w. Going system signer lib s w)
          E
  unfolding sign_and_check
  checked rng privkey pubkey same =
      let f = c.signs rng message in
      let g = c.generates rng in
      let sig = (lib.sign ((lib.keygen rng).1) message).1 in
      rw built (
        Triple-bind _ _ (sign_buffer_returns rng privkey)
          (λ out. Triple-assume _ (λ e. after_sign out e)))
    where
      after_sign :
          (out : Bytes)
          → out ≡ (lib.sign ((lib.keygen rng).1) message).1
          → Triple {S = S}
              (Going system signer lib s)
              (do
                raise_unless (has_header out) seal_verification_error
                verified ←
                    verify_inscription system signer out pubkey
                      (int app_id)
                      (int cell_id)
                      artifact_hash
                      genesis_hash
                raise_unless verified seal_verification_error
                pure out)
              (λ _ w. Going system signer lib s w)
              E
      after_sign out e =
          let f = c.signs rng message in
          let g = c.generates rng in
          Triple-bind (raise_unless (has_header out) seal_verification_error) _
            (Triple-pass (has_header out) seal_verification_error
              (rw e (has_header_at (lib.sign ((lib.keygen rng).1) message).1 f.3)))
            (λ _.
              Triple-bind
                (verify_inscription system signer out pubkey (int app_id) (int cell_id)
                  artifact_hash genesis_hash)
                _
                (verify_inscription_returns {P = λ _. Unit {0}} lib s c system signer
                  (λ w libs outputs next p. p) out pubkey (int app_id) (int cell_id) artifact_hash
                  genesis_hash message built (rw same g.2) (rw (e, same) f.4))
                (λ verified. Triple-assume _ (λ t.
                  Triple-bind (raise_unless verified seal_verification_error) _
                    (Triple-pass verified seal_verification_error t)
                    (λ _. Triple-pure out (λ w p. p)))))

module _ {S : Type 0} {E : World S → Type 0} (lib : Library) (s : S) (c : IsCorrect lib)
    (system : System) (signer : FalconDet1024) (store : SealStore S) (app_id cell_id : PyInt)
    (artifact_hash genesis_hash message : Bytes)
    (built : build_message (int app_id) (int cell_id) artifact_hash genesis_hash ≡ ok message) where
  guarded_returns :
      (pubkey : Bytes) (privkey : ℕ)
      → Triple {S = S}
          (λ w. Keyed system signer lib s pubkey privkey w)
          (finally
            (sign_and_check system signer store app_id cell_id artifact_hash genesis_hash pubkey
              privkey)
            (λ w. unlock_pages privkey (wipe privkey privkey_size w)))
          (λ _ w. w.store ≡ s)
          E
  unfolding unlock_pages wipe write_buffer
  guarded_returns pubkey privkey = record {
    run = λ w k.
        let body =
          sign_and_check system signer store app_id cell_id artifact_hash genesis_hash pubkey
            privkey in
        let t =
          Triple-finally {E = E} body (λ w. unlock_pages privkey (wipe privkey privkey_size w))
            (λ _ w'. Going system signer lib s w') (λ _. ⊥)
            (checked {E = λ _. ⊥} lib s c system signer store app_id cell_id artifact_hash
              genesis_hash message built k.rng privkey pubkey k.public_key)
            (λ _ w' q. let r = q.0 in r.stored) (λ w' q. absurd q) in
        t.run w (k.ready, k.private_key);
  }

  pub is_sealed_returns :
      {P : World S → Type 0}
      → store.is_sealed cell_id s ≡ ok false
      → Triple
          (λ w. Ready system signer lib s w × P w)
          (is_sealed system signer store cell_id)
          (λ sealed w. (Ready system signer lib s w × P w) × (not sealed ≡ true))
          E
  is_sealed_returns unsealed =
      Triple-results (is_sealed system signer store cell_id)
        (λ w sealed p h.
          let r = p.0 in
          let e : store.is_sealed cell_id w.store ≡ ok false =
            ap (store.is_sealed cell_id) r.stored ∙ unsealed in
          (p, ground arith))
        (λ w x p h.
          let r = p.0 in
          let e : store.is_sealed cell_id w.store ≡ ok false =
            ap (store.is_sealed cell_id) r.stored ∙ unsealed in
          cc)

  pub record_seal_returns :
      (store.record_seal cell_id s).0 ≡ ok tt
      → Triple (λ w. w.store ≡ s) (record_seal system signer store cell_id) (λ _ _. Unit {0}) E
  record_seal_returns recorded =
      Triple-results (record_seal system signer store cell_id) (λ w u p h. tt)
        (λ w x p h.
          let e : (store.record_seal cell_id w.store).0 ≡ ok tt =
            ap (λ z. (store.record_seal cell_id z).0) p ∙ recorded in
          cc)

  keygen_sign_seal_returns :
      (rest : List (Option Bytes)) (context : Bytes)
      → store.is_sealed cell_id s ≡ ok false
      → (store.record_seal cell_id s).0 ≡ ok tt
      → Triple
          (λ w. Ready system signer lib s w × (w.entropy ≡ some context ∷ rest))
          (keygen_sign_seal system signer store app_id cell_id artifact_hash genesis_hash)
          (λ _ _. Unit {0})
          E
  unfolding keygen_sign_seal
  keygen_sign_seal_returns rest context unsealed recorded =
      Triple-bind (is_sealed system signer store cell_id) _ (is_sealed_returns unsealed) (λ sealed.
        Triple-assume _ (λ free.
          Triple-bind (raise_unless (not sealed) cell_already_sealed) _
            (Triple-pass (not sealed) cell_already_sealed free)
            (λ _.
              Triple-bind (keygen_into_buffer system signer) _
                (keygen_into_buffer_returns system signer lib s c rest context)
                (λ pair. Triple-bind _ _ (guarded_returns pair.0 pair.1) (λ sig.
                  Triple-bind (record_seal system signer store cell_id) _
                    (record_seal_returns recorded) (λ _. Triple-pure _ (λ w q. tt)))))))

module _ {S : Type 0} (system : System) (signer : FalconDet1024) (store : SealStore S) where
  -- With a library that works, which the signer has loaded or its path opens, randomness to be had,
  -- parameters from which a message can be built, a cell that is not sealed and a store that records it,
  -- keygen_sign_seal returns a result.
  pub seal_completes :
      (lib : Library) (app_id cell_id : PyInt) (artifact_hash genesis_hash message context : Bytes)
      (rest : List (Option Bytes)) (w : World S)
      → IsCorrect lib
      → Available system signer lib w.lib
      → w.entropy ≡ some context ∷ rest
      → build_message (int app_id) (int cell_id) artifact_hash genesis_hash ≡ ok message
      → store.is_sealed cell_id w.store ≡ ok false
      → (store.record_seal cell_id w.store).0 ≡ ok tt
      → (r : SealResult) × ((keygen_sign_seal system signer store app_id cell_id artifact_hash
            genesis_hash w).0
          ≡ ok r)
  seal_completes lib app_id cell_id artifact_hash genesis_hash message context rest w c loaded
        seeded built unsealed recorded =
      let call = keygen_sign_seal system signer store app_id cell_id artifact_hash genesis_hash in
      let t : Triple _ call (λ _ _. Unit {0}) (λ _. ⊥) =
        keygen_sign_seal_returns lib w.store c system signer store app_id cell_id artifact_hash
          genesis_hash message built rest context unsealed recorded in
      let (r, h, _) = Triple-returns call t w (record { loaded = loaded; stored = refl }, seeded) in
      (r, h)
