-- ===== src/Seal/Worker/Replies.antt =====
-- The worker prints a key pair's signature when nothing fails: a library that works, randomness, a
-- request that is well formed and memory that is pinned if the request asks for it.
use trelyan_falcon_inscripti.Prelude.{
  ◌≡◌, refl, arith, ap, ℕ, Bool, true, false, Option, some, none, ◌∷◌, List, not, ◌&&◌,
  if◌then◌else◌,
}
use trelyan_falcon_inscripti.Prelude.Bytes.{Bytes}
use trelyan_falcon_inscripti.Prelude.BoxMap.{lookup}
use trelyan_falcon_inscripti.Prelude.Result.{Result, ok, err}
use trelyan_falcon_inscripti.Exceptions.{Exception}
use trelyan_falcon_inscripti.Message.{int, build_message}
use trelyan_falcon_inscripti.Machine.{System, World, Library, pure, finally, wipe, read_buffer}
use trelyan_falcon_inscripti.Machine.Triples.{
  Post, Triple, Triple-bind, Triple-assume, Triple-pure, Triple-finally, Triple-try_except,
}
use trelyan_falcon_inscripti.Falcon.{
  FalconDet1024, sign, verify_inscription, keygen_into_buffer, unlock_pages, privkey_size,
}
use trelyan_falcon_inscripti.Falcon.Correct.{IsCorrect, Ready, Keyed}
use trelyan_falcon_inscripti.Falcon.Generates.{keygen_into_buffer_returns}
use trelyan_falcon_inscripti.Falcon.Returns.{sign_returns, verify_inscription_returns}
use trelyan_falcon_inscripti.Seal.{has_header}
use trelyan_falcon_inscripti.Seal.Completes.{has_header_at}
use trelyan_falcon_inscripti.Seal.Worker.{
  Request, Protections, Output, success, report_on, or_code_4, sign_with, self_verify,
  or_self_verify, sign_and_verify, with_key, try_keygen, serve,
}

-- A public key and a signature of the message that some run of the generator leads to.
pub record Genuine (lib : Library) (message pubkey sig : Bytes) : Type 0 where
  pub rng : Bytes
  pub public_key : pubkey ≡ (lib.keygen rng).2
  pub signature : sig ≡ (lib.sign ((lib.keygen rng).1) message).1

-- A printed success with such a key and signature.
pub record Made (lib : Library) (message : Bytes) (protections : Protections) (out : Output)
    : Type 0 where
  pub pubkey : Bytes
  pub signature : Bytes
  pub genuine : Genuine lib message pubkey signature
  pub printed : out ≡ success pubkey signature protections

-- The result of the body that signs, without an exit code.
abbrev Signed : Library → Bytes → Bytes → Result ℕ Bytes → Type 0
Signed lib message pubkey (ok sig) = Genuine lib message pubkey sig
Signed lib message pubkey (err code) = ⊥

report_on-Made :
    (lib : Library) (message : Bytes) (protections : Protections) (pubkey : Bytes)
    (r : Result ℕ Bytes)
    → Signed lib message pubkey r
    → Made lib message protections (report_on protections pubkey r)
report_on-Made lib message protections pubkey (ok sig) made = record {
  pubkey = pubkey;
  signature = sig;
  genuine = made;
  printed = refl;
}
report_on-Made lib message protections pubkey (err code) made = absurd made

-- A key pair, and not the answer to an exception.
abbrev Key :
    {S : Type 0} → System → FalconDet1024 → Library → S → Option (Bytes × ℕ) → World S → Type 0
Key system signer lib s none w = ⊥
Key system signer lib s (some (pubkey, privkey)) w = Keyed system signer lib s pubkey privkey w

module _ {S : Type 0} {E : World S → Type 0} (lib : Library) (s : S) (c : IsCorrect lib)
    (system : System) (signer : FalconDet1024) (req : Request) (message : Bytes)
    (built : build_message (int req.app_id) (int req.cell_id) req.artifact_hash req.genesis_hash
      ≡ ok message) where
  sign_with_returns :
      (rng : Bytes) (privkey : ℕ)
      → Triple {S = S}
          (λ w.
            Ready system signer lib s w × (lookup privkey w.buffers ≡ some ((lib.keygen rng).1)))
          (sign_with system signer req privkey message)
          (λ r w.
            (Ready system signer lib s w × Unit {0})
            × (r ≡ ok ((lib.sign ((lib.keygen rng).1) message).1)))
          E
  unfolding sign_with
  sign_with_returns rng privkey = record {
    run = λ w p.
        let t =
          sign_returns {E = λ _. ⊥} {P = λ _. Unit {0}} lib s c system signer
            (λ w libs outputs next p. p) rng message in
        let e : read_buffer privkey w ≡ (lib.keygen rng).1 = rw (read_buffer, p.1) refl in
        let o = sign system signer (read_buffer privkey w) message w in
        by_result o.0 o.1 (rw e (t.run w (p.0, tt)));
  }
    where
      by_result :
          (r : Result Exception Bytes) (w : World S)
          → Post
              (λ sig w.
                (Ready system signer lib s w × Unit {0})
                × (sig ≡ (lib.sign ((lib.keygen rng).1) message).1))
              (λ _. ⊥)
              r
              w
          → Post
              (λ r w.
                (Ready system signer lib s w × Unit {0})
                × (r ≡ ok ((lib.sign ((lib.keygen rng).1) message).1)))
              E
              (or_code_4 r)
              w
      by_result (ok sig) w q = (q.0, ap ok q.1)
      by_result (err e) w q = absurd q

  self_verify_returns :
      (pubkey sig : Bytes)
      → Genuine lib message pubkey sig
      → Triple {S = S}
          (λ w. Ready system signer lib s w × Unit {0})
          (self_verify system signer req pubkey sig)
          (λ r w. (Ready system signer lib s w × Unit {0}) × Signed lib message pubkey r)
          E
  unfolding self_verify
  self_verify_returns pubkey sig made =
      let f = c.signs made.rng message in
      let g = c.generates made.rng in
      let h : has_header sig ≡ true = has_header_at sig (rw made.signature f.3) in
      rw h (
        Triple-bind
          (verify_inscription system signer sig pubkey (int req.app_id) (int req.cell_id)
            req.artifact_hash req.genesis_hash)
          _
          (verify_inscription_returns {P = λ _. Unit {0}} lib s c system signer
            (λ w libs outputs next p. p) sig pubkey (int req.app_id) (int req.cell_id)
            req.artifact_hash req.genesis_hash message built (rw made.public_key g.2)
            (rw (made.signature, made.public_key) f.4))
          (λ verified. Triple-assume _ (λ t. answers verified t)))
    where
      answers :
          (verified : Bool)
          → verified ≡ true
          → Triple {S = S}
              (λ w. Ready system signer lib s w × Unit {0})
              (pure (if verified then ok sig else err 5))
              (λ r w. (Ready system signer lib s w × Unit {0}) × Signed lib message pubkey r)
              E
      answers true t = Triple-pure (ok sig) (λ w p. (p, made))
      answers false t = cc

  sign_and_verify_returns :
      (rng pubkey : Bytes) (privkey : ℕ)
      → pubkey ≡ (lib.keygen rng).2
      → Triple {S = S}
          (λ w.
            Ready system signer lib s w × (lookup privkey w.buffers ≡ some ((lib.keygen rng).1)))
          (sign_and_verify system signer req pubkey privkey)
          (λ r w. (Ready system signer lib s w × Unit {0}) × Signed lib message pubkey r)
          E
  unfolding sign_and_verify or_self_verify
  sign_and_verify_returns rng pubkey privkey same = rw built (
      Triple-bind (sign_with system signer req privkey message) _ (sign_with_returns rng privkey)
        (λ r. Triple-assume _ (λ e. checks r e)))
    where
      checks :
          (r : Result ℕ Bytes)
          → r ≡ ok ((lib.sign ((lib.keygen rng).1) message).1)
          → Triple {S = S}
              (λ w. Ready system signer lib s w × Unit {0})
              (or_self_verify system signer req pubkey r)
              (λ r w. (Ready system signer lib s w × Unit {0}) × Signed lib message pubkey r)
              E
      checks (ok sig) e =
          let same_sig : sig ≡ (lib.sign ((lib.keygen rng).1) message).1 = cc in
          self_verify_returns pubkey sig
            (record { rng = rng; public_key = same; signature = same_sig })
      checks (err code) e = cc

module _ {S : Type 0} {E : World S → Type 0} (lib : Library) (s : S) (c : IsCorrect lib)
    (system : System) (signer : FalconDet1024) (req : Request) (message : Bytes)
    (built : build_message (int req.app_id) (int req.cell_id) req.artifact_hash req.genesis_hash
      ≡ ok message) where
  with_key_returns :
      (protections : Protections) (pubkey : Bytes) (privkey : ℕ)
      → Triple {S = S}
          (λ w. Keyed system signer lib s pubkey privkey w)
          (with_key system signer req protections (some (pubkey, privkey)))
          (λ out _. Made lib message protections out)
          E
  unfolding with_key
  with_key_returns protections pubkey privkey =
      let body = sign_and_verify system signer req pubkey privkey in
      let cleanup : World S → World S = λ w. unlock_pages privkey (wipe privkey privkey_size w) in
      Triple-bind (finally body cleanup) _
        (record {
          run = λ w k.
              let t =
                Triple-finally {Q = λ r _. Signed lib message pubkey r} {E = E} body cleanup
                  (λ r w'. (Ready system signer lib s w' × Unit {0}) × Signed lib message pubkey r)
                  (λ _. ⊥)
                  (sign_and_verify_returns {E = λ _. ⊥} lib s c system signer req message built
                    k.rng pubkey privkey k.public_key)
                  (λ _ w' q. q.1) (λ w' q. absurd q) in
              t.run w (k.ready, k.private_key);
        })
        (λ r.
          Triple-pure (report_on protections pubkey r)
            (λ w q. report_on-Made lib message protections pubkey r q))

  pub serve_returns :
      (rest : List (Option Bytes)) (context : Bytes) (protections : Protections)
      → (req.require_locked ≡ true → protections.mlockall ≡ true)
      → Triple {S = S}
          (λ w. Ready system signer lib s w × (w.entropy ≡ some context ∷ rest))
          (serve system signer req protections)
          (λ out _. Made lib message protections out)
          E
  unfolding serve try_keygen
  serve_returns rest context protections pinned =
      let unpinned : (req.require_locked && not protections.mlockall) ≡ false = ground arith in
      rw unpinned (
        Triple-bind _ _
          (Triple-try_except {Q = Key system signer lib s} {E = E} (λ _. ⊥) _ (pure none)
            (Triple-bind (keygen_into_buffer system signer) _
              (keygen_into_buffer_returns system signer lib s c rest context)
              (λ pair. Triple-pure (some pair) (λ w k. k)))
            (record { run = λ w p. absurd p }))
          with_pair)
    where
      with_pair :
          (key : Option (Bytes × ℕ))
          → Triple
              (Key system signer lib s key)
              (with_key system signer req protections key)
              (λ out _. Made lib message protections out)
              E
      with_pair none = record { run = λ w p. absurd p }
      with_pair (some (pubkey, privkey)) = with_key_returns protections pubkey privkey
