-- ===== src/Seal/Worker/Wiped.antt =====
-- The private key's buffer when the worker ends.
use trelyan_falcon_inscripti.Prelude.{ℕ, Option, none, some, [], ◌∷◌, not, ◌&&◌, if◌then◌else◌}
use trelyan_falcon_inscripti.Prelude.Bytes.{Bytes}
use trelyan_falcon_inscripti.Prelude.Result.{Result, ok, err}
use trelyan_falcon_inscripti.Message.{int, build_message}
use trelyan_falcon_inscripti.Machine.{
  System, World, modify, write_output, pure, lift, finally, wipe, read_buffer,
}
use trelyan_falcon_inscripti.Machine.Leaves.{
  Leaves, Leaves-bind, Leaves-pure, Leaves-lift, Leaves-if,
}
use trelyan_falcon_inscripti.Machine.Triples.{
  Triple, Triple-bind, Triple-pure, Triple-if, Triple-finally, Triple-try_except, Triple-always,
  Leaves-Triple,
}
use trelyan_falcon_inscripti.Falcon.{
  FalconDet1024, keygen_into_buffer, verify_inscription, unlock_pages, privkey_size, lib_ref,
}
use trelyan_falcon_inscripti.Falcon.Frame.{
  sign-Leaves, verify_inscription-Leaves, lib_ref-Leaves_buffers, write_output-Leaves_buffers,
}
use trelyan_falcon_inscripti.Falcon.Buffers.{
  keygen_into_buffer-Clean, IsCleanBut, CleanBut, Clean, IsClean,
}
use trelyan_falcon_inscripti.Seal.{has_header}
use trelyan_falcon_inscripti.Seal.Wipe.{closes}
use trelyan_falcon_inscripti.Seal.Worker.{
  Host, Fields, Request, Protections, read_request, harden_process, refusal, report_on, sign_with,
  self_verify, or_self_verify, sign_and_verify, with_key, try_keygen, serve, main,
}

module _ {S X : Type 0} {part : World S → X} (system : System) (signer : FalconDet1024)
    (l : Leaves part (lib_ref system signer))
    (o : (size : ℕ) (written : Bytes) → Leaves part (modify (write_output size written)))
    (req : Request) where
  pub sign_with-Leaves :
      (privkey : ℕ) (m : Bytes) → Leaves part (sign_with system signer req privkey m)
  unfolding sign_with
  sign_with-Leaves privkey m = record {
    at = λ w. let ls = sign-Leaves system signer l o (read_buffer privkey w) m in ls.at w;
  }

  self_verify-Leaves : (pubkey sig : Bytes) → Leaves part (self_verify system signer req pubkey sig)
  unfolding self_verify
  self_verify-Leaves pubkey sig =
      Leaves-if (has_header sig) _ _
        (Leaves-bind
          (verify_inscription system signer sig pubkey (int req.app_id) (int req.cell_id)
            req.artifact_hash req.genesis_hash)
          _
          (verify_inscription-Leaves system signer l sig pubkey (int req.app_id) (int req.cell_id)
            req.artifact_hash req.genesis_hash)
          (λ verified. Leaves-pure (if verified then ok sig else err 5)))
        (Leaves-pure (err 5))

  or_self_verify-Leaves :
      (pubkey : Bytes) (signed : Result ℕ Bytes)
      → Leaves part (or_self_verify system signer req pubkey signed)
  unfolding or_self_verify
  or_self_verify-Leaves pubkey (ok sig) = self_verify-Leaves pubkey sig
  or_self_verify-Leaves pubkey (err code) = Leaves-pure (err code)

  sign_and_verify-Leaves :
      (pubkey : Bytes) (privkey : ℕ)
      → Leaves part (sign_and_verify system signer req pubkey privkey)
  unfolding sign_and_verify
  sign_and_verify-Leaves pubkey privkey =
      let built =
        build_message (int req.app_id) (int req.cell_id) req.artifact_hash req.genesis_hash in
      Leaves-bind (lift built) _ (Leaves-lift built) (λ m.
        Leaves-bind (sign_with system signer req privkey m) _ (sign_with-Leaves privkey m)
          (λ signed. or_self_verify-Leaves pubkey signed))

module _ {S : Type 0} (system : System) (signer : FalconDet1024) (req : Request) where
  -- What a key pair leaves open, if there is one.
  abbrev Opened : Option (Bytes × ℕ) → World S → Type 0
  Opened none = Clean
  Opened (some (pubkey, privkey)) = CleanBut (privkey ∷ [])

  try_keygen-Opened : Triple Clean (try_keygen {S = S} system signer req) Opened Clean
  unfolding try_keygen
  try_keygen-Opened =
      Triple-try_except Clean _ (pure none)
        (Triple-bind (keygen_into_buffer system signer) _ (keygen_into_buffer-Clean system signer)
          (λ pair. Triple-pure (some pair) (λ w c. c)))
        (Triple-pure none (λ w c. c))

  with_key-Clean :
      (protections : Protections) (key : Option (Bytes × ℕ))
      → Triple (Opened key) (with_key system signer req protections key) (λ _. Clean) Clean
  unfolding with_key
  with_key-Clean protections none = Triple-pure (refusal 3 none) (λ w c. c)
  with_key-Clean protections (some (pubkey, privkey)) =
      let body = sign_and_verify system signer req pubkey privkey in
      let cleanup : World S → World S = λ w. unlock_pages privkey (wipe privkey privkey_size w) in
      Triple-bind (finally body cleanup) _
        (Triple-finally body cleanup (λ _. CleanBut (privkey ∷ [])) (CleanBut (privkey ∷ []))
          (Leaves-Triple (IsCleanBut (privkey ∷ [])) body (
            sign_and_verify-Leaves system signer (lib_ref-Leaves_buffers system signer)
              write_output-Leaves_buffers req pubkey privkey))
          (λ _. closes privkey) (closes privkey))
        (λ signed. Triple-pure (report_on protections pubkey signed) (λ w c. c))

  serve-Clean :
      (protections : Protections)
      → Triple Clean (serve {S = S} system signer req protections) (λ _. Clean) Clean
  unfolding serve
  serve-Clean protections =
      Triple-if (req.require_locked && not protections.mlockall) _ _
        (Triple-pure (refusal 6 (some protections)) (λ w c. c))
        (Triple-bind (try_keygen system signer req) _ try_keygen-Opened
          (λ key. with_key-Clean protections key))

module _ {S : Type 0} (system : System) (signer : FalconDet1024) (host : Host) where
  main-Clean :
      (stdin : Option Fields)
      → Triple Clean (main {S = S} system signer host stdin) (λ _. Clean) Clean
  unfolding main
  main-Clean stdin = by_request (read_request stdin)
    where
      by_request :
          (read : Option Request)
          → Triple {S = S} Clean
              (elim read [
                | none ↦ pure (refusal 2 none)
                | some req ↦ serve system signer req (harden_process host)
              ])
              (λ _. Clean)
              Clean
      by_request none = Triple-pure (refusal 2 none) (λ w c. c)
      by_request (some req) = serve-Clean system signer req (harden_process host)

  -- However the worker ends (with any exit code, or by an exception that it lets through), no buffer
  -- of key material holds anything that was not there before: if all of them were zero, all are zero.
  pub main-IsClean :
      (stdin : Option Fields) (w : World S)
      → IsClean w.buffers
      → IsClean (main system signer host stdin w).1.buffers
  main-IsClean stdin w c = Triple-always (main system signer host stdin) w (main-Clean stdin) c
