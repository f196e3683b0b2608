-- ===== src/Seal/Worker/Verified.antt =====
-- What the worker reports: a refusal without key or signature, or a signature that it has verified.
use trelyan_falcon_inscripti.Prelude.{
  ℕ, Bool, true, false, ◌≡◌, ◌≢◌, refl, arith, Option, none, some, not, ◌&&◌, if◌then◌else◌,
}
use trelyan_falcon_inscripti.Prelude.Bytes.{Bytes}
use trelyan_falcon_inscripti.Prelude.Result.{Result, ok, err}
use trelyan_falcon_inscripti.Message.{int, build_message}
use trelyan_falcon_inscripti.Machine.{write_buffer, System, World, pure, lift, finally, wipe, ◌>>=◌}
use trelyan_falcon_inscripti.Machine.Triples.{
  Triple-results, Triple, Triple-bind, Triple-pure, Triple-finally, Triple-try_except,
  Triple-weaken, Triple-lift, Triple-ok, Leaves-Triple,
}
use trelyan_falcon_inscripti.Falcon.{
  FalconDet1024, keygen_into_buffer, verify_inscription, unlock_pages, privkey_size,
}
use trelyan_falcon_inscripti.Falcon.Frame.{
  keygen_into_buffer-Leaves, lib_ref-Leaves_store, write_output-Leaves_store,
}
use trelyan_falcon_inscripti.Seal.{Exception, has_header}
use trelyan_falcon_inscripti.Seal.Recorded.{Verified}
use trelyan_falcon_inscripti.Seal.Isolated.{verify_inscription-Verified}
use trelyan_falcon_inscripti.Seal.Worker.{
  or_code_4, Host, Fields, Request, Protections, Output, read_request, harden_process, refusal,
  success, report_on, sign_with, self_verify, or_self_verify, sign_and_verify, with_key, try_keygen,
  serve, main,
}
use trelyan_falcon_inscripti.Seal.Worker.Wiped.{sign_with-Leaves}

-- The result of the body that signs: a verified signature, or an exit code that is not 0.
abbrev Checked : {S : Type 0} → FalconDet1024 → Request → Bytes → Result ℕ Bytes → World S → Type 0
Checked signer req pubkey (ok sig) w =
    Verified req.app_id req.cell_id req.artifact_hash req.genesis_hash pubkey sig
      (w.lib signer.object)
Checked signer req pubkey (err code) w = code ≢ 0

-- What the worker prints. A success names the request, its signature is verified by the library that is
-- loaded, and the memory is pinned if the request asks for it.
pub data Reported {S : Type 0} (signer : FalconDet1024) (host : Host) (stdin : Option Fields)
    (w : World S) : Output → Type 0 where
  refused :
      (code : ℕ) (protections : Option Protections)
      → code ≢ 0
      → Reported signer host stdin w (refusal code protections)
  signed :
      (req : Request) (pubkey sig : Bytes)
      → read_request stdin ≡ some req
      → Verified req.app_id req.cell_id req.artifact_hash req.genesis_hash pubkey sig
          (w.lib signer.object)
      → (req.require_locked ≡ true → (harden_process host).mlockall ≡ true)
      → Reported signer host stdin w (success pubkey sig (harden_process host))

cleanup_lib :
    {S : Type 0} (privkey : ℕ) (w : World S)
    → (unlock_pages privkey (wipe privkey privkey_size w)).lib ≡ w.lib
unfolding unlock_pages wipe write_buffer
cleanup_lib privkey w = refl

abbrev Stored : {S : Type 0} → S → World S → Type 0
Stored s w = w.store ≡ s

module _ {S : Type 0} (system : System) (signer : FalconDet1024) (req : Request) (s : S) where
  self_verify-Checked :
      (pubkey sig : Bytes)
      → Triple
          (Stored s)
          (self_verify system signer req pubkey sig)
          (λ r w. Stored s w × Checked signer req pubkey r w)
          (Stored s)
  unfolding self_verify
  self_verify-Checked pubkey sig = by_header (has_header sig) refl
    where
      checks :
          (header : has_header sig ≡ true) (verified : Bool)
          → Triple {S = S}
              (λ w.
                Stored s w
                × (verified ≡ true
                    → Verified req.app_id req.cell_id req.artifact_hash req.genesis_hash pubkey sig
                        (w.lib signer.object)))
              (pure (if verified then ok sig else err 5))
              (λ r w. Stored s w × Checked signer req pubkey r w)
              (Stored s)
      checks header true = Triple-pure (ok sig) (λ w p. (p.0, p.1 refl))
      checks header false = Triple-pure (err 5) (λ w p. (p.0, omega arith))

      by_header :
          (test : Bool)
          → has_header sig ≡ test
          → Triple
              (Stored s)
              (if test
                then (do
                  verified ←
                      verify_inscription system signer sig pubkey
                        (int req.app_id)
                        (int req.cell_id)
                        req.artifact_hash
                        req.genesis_hash
                  pure (if verified then ok sig else err 5))
                else pure (err 5))
              (λ r w. Stored s w × Checked signer req pubkey r w)
              (Stored s)
      by_header true header =
          Triple-bind
            (verify_inscription system signer sig pubkey (int req.app_id) (int req.cell_id)
              req.artifact_hash req.genesis_hash)
            _
            (verify_inscription-Verified system signer s sig pubkey req.app_id req.cell_id
              req.artifact_hash req.genesis_hash header)
            (checks header)
      by_header false header = Triple-pure (err 5) (λ w p. (p, omega arith))

  -- An early return has an exit code that is not 0.
  abbrev IsEarly : Result ℕ Bytes → Type 0
  IsEarly (ok sig) = Unit {0}
  IsEarly (err code) = code ≢ 0

  or_code_4-IsEarly :
      (r : Result Exception Bytes) (result : Result ℕ Bytes)
      → or_code_4 r ≡ ok result
      → IsEarly result
  or_code_4-IsEarly (ok sig) (ok out) e = tt
  or_code_4-IsEarly (ok sig) (err code) e = cc
  or_code_4-IsEarly (err x) (ok out) e = tt
  or_code_4-IsEarly (err x) (err code) e = λ z. ground arith

  sign_with-IsEarly :
      (privkey : ℕ) (m : Bytes)
      → Triple
          (Stored s)
          (sign_with system signer req privkey m)
          (λ r w. Stored s w × IsEarly r)
          (Stored s)
  unfolding sign_with
  sign_with-IsEarly privkey m =
      let left =
        sign_with-Leaves system signer (lib_ref-Leaves_store system signer)
          write_output-Leaves_store req privkey m in
      Triple-results (sign_with system signer req privkey m)
        (λ w r p e. (rw (left.at w) p, or_code_4-IsEarly _ r e)) (λ w x p e. rw (left.at w) p)

  or_self_verify-Checked :
      (pubkey : Bytes) (result : Result ℕ Bytes)
      → Triple
          (λ w. Stored s w × IsEarly result)
          (or_self_verify system signer req pubkey result)
          (λ r w. Stored s w × Checked signer req pubkey r w)
          (Stored s)
  unfolding or_self_verify
  or_self_verify-Checked pubkey (ok sig) =
      Triple-weaken (self_verify system signer req pubkey sig) (λ w p. p.0)
        (self_verify-Checked pubkey sig) (λ r w q. q) (λ w p. p)
  or_self_verify-Checked pubkey (err code) = Triple-pure (err code) (λ w p. p)

  sign_and_verify-Checked :
      (pubkey : Bytes) (privkey : ℕ)
      → Triple
          (Stored s)
          (sign_and_verify system signer req pubkey privkey)
          (λ r w. Stored s w × Checked signer req pubkey r w)
          (Stored s)
  unfolding sign_and_verify
  sign_and_verify-Checked pubkey privkey =
      let built =
        build_message (int req.app_id) (int req.cell_id) req.artifact_hash req.genesis_hash in
      Triple-bind (lift built) _
        (Triple-weaken (lift built) (λ w p. p) (Triple-lift built) (λ m w q. q.0) (λ w p. p))
        (λ m.
          Triple-bind (sign_with system signer req privkey m) _ (sign_with-IsEarly privkey m)
            (λ result. or_self_verify-Checked pubkey result))

  -- The key pair does not touch the store.
  try_keygen-Stored :
      Triple (Stored s) (try_keygen {S = S} system signer req) (λ _. (Stored s)) (Stored s)
  unfolding try_keygen
  try_keygen-Stored =
      Triple-try_except (Stored s) _ (pure none)
        (Triple-bind (keygen_into_buffer system signer) _
          (Leaves-Triple (λ t. t ≡ s) (keygen_into_buffer system signer)
            (keygen_into_buffer-Leaves system signer))
          (λ pair. Triple-pure (some pair) (λ w p. p)))
        (Triple-pure none (λ w p. p))

module _ {S : Type 0} (system : System) (signer : FalconDet1024) (host : Host)
    (stdin : Option Fields) (req : Request) (s : S) (named : read_request stdin ≡ some req) where
  abbrev Protected : Type 0
  Protected = req.require_locked ≡ true → (harden_process host).mlockall ≡ true

  reports :
      (pubkey : Bytes) (result : Result ℕ Bytes) (w : World S)
      → Protected
      → Checked signer req pubkey result w
      → Reported signer host stdin w (report_on (harden_process host) pubkey result)
  reports pubkey (ok sig) w pinned v = signed req pubkey sig named v pinned
  reports pubkey (err code) w pinned n = refused code none n

  with_key-Reported :
      (key : Option (Bytes × ℕ))
      → Protected
      → Triple
          (Stored s)
          (with_key system signer req (harden_process host) key)
          (λ out w. Reported signer host stdin w out)
          (λ _. Unit {0})
  unfolding with_key
  with_key-Reported none pinned = Triple-pure (refusal 3 none) (λ w p. refused 3 none (omega arith))
  with_key-Reported (some (pubkey, privkey)) pinned =
      let body = sign_and_verify system signer req pubkey privkey in
      let cleanup : World S → World S = λ w. unlock_pages privkey (wipe privkey privkey_size w) in
      Triple-bind (finally body cleanup) _
        (Triple-finally {Q = λ r w. Checked signer req pubkey r w} {E = λ _. Unit {0}} body cleanup
          (λ r w. Stored s w × Checked signer req pubkey r w) (Stored s)
          (sign_and_verify-Checked system signer req s pubkey privkey) (λ r w q. cleaned r w q.1)
          (λ w p. tt))
        (λ result.
          Triple-pure (report_on (harden_process host) pubkey result)
            (λ w v. reports pubkey result w pinned v))
    where
      cleaned :
          (r : Result ℕ Bytes) (w : World S)
          → Checked signer req pubkey r w
          → Checked signer req pubkey r (unlock_pages privkey (wipe privkey privkey_size w))
      cleaned (ok sig) w v = rw (cleanup_lib privkey w) v
      cleaned (err code) w n = n

  serve-Reported :
      Triple
        (Stored s)
        (serve system signer req (harden_process host))
        (λ out w. Reported signer host stdin w out)
        (λ _. Unit {0})
  unfolding serve
  serve-Reported = by_test (req.require_locked && not (harden_process host).mlockall) refl
    where
      by_test :
          (test : Bool)
          → (req.require_locked && not (harden_process host).mlockall) ≡ test
          → Triple
              (Stored s)
              (if test then pure (refusal 6 (some (harden_process host))) else (do
                key ← try_keygen system signer req
                with_key system signer req (harden_process host) key))
              (λ out w. Reported signer host stdin w out)
              (λ _. Unit {0})
      by_test true e =
          Triple-pure (refusal 6 (some (harden_process host)))
            (λ w p. refused 6 (some (harden_process host)) (omega arith))
      by_test false e =
          Triple-bind (try_keygen system signer req) _
            (Triple-weaken {E' = λ _. Unit {0}} (try_keygen system signer req) (λ w p. p)
              (try_keygen-Stored system signer req s) (λ key w p. p) (λ w p. tt))
            (λ key. with_key-Reported key (λ locked. ground arith))

module _ {S : Type 0} (system : System) (signer : FalconDet1024) (host : Host)
    (stdin : Option Fields) where
  main-Triple :
      (s : S)
      → Triple
          (Stored s)
          (main system signer host stdin)
          (λ out w. Reported signer host stdin w out)
          (λ _. Unit {0})
  unfolding main
  main-Triple s = by_request (read_request stdin) refl
    where
      by_request :
          (read : Option Request)
          → read_request stdin ≡ read
          → Triple
              (Stored s)
              (elim read [
                | none ↦ pure (refusal 2 none)
                | some req ↦ serve system signer req (harden_process host)
              ])
              (λ out w. Reported signer host stdin w out)
              (λ _. Unit {0})
      by_request none e = Triple-pure (refusal 2 none) (λ w p. refused 2 none (omega arith))
      by_request (some req) e = serve-Reported system signer host stdin req s e

  -- When `main` of the worker returns, it has printed either a refusal, with an exit code other than 0 and
  -- no key and no signature, or a public key and a signature with the exit code 0. In the second case the
  -- request was well formed, the signature has the header 0xBA and is accepted by the loaded library under
  -- that key on the message of the request, and mlockall has pinned the memory if the request asks for it.
  pub main-Reported :
      (w : World S) (out : Output)
      → (main system signer host stdin w).0 ≡ ok out
      → Reported signer host stdin (main system signer host stdin w).1 out
  main-Reported w out e =
      Triple-ok (main system signer host stdin) (main-Triple w.store) w out refl e
