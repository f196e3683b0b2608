-- ===== src/Seal/Spawned.antt =====
-- keygen_sign_seal_isolated of seal.py with main of _seal_worker.py as its worker process: what the
-- parent sends, and that the seal completes.
use trelyan_falcon_inscripti.Prelude.{
  none, ◌≡◌, ◌∙◌, ap, refl, Bool, true, false, Option, some, ◌∷◌, List, not,
}
use trelyan_falcon_inscripti.Prelude.Bytes.{Bytes}
use trelyan_falcon_inscripti.Prelude.Result.{ok}
use trelyan_falcon_inscripti.Exceptions.{cell_already_sealed, seal_verification_error}
use trelyan_falcon_inscripti.Message.{PyInt, int, nonneg, build_message}
use trelyan_falcon_inscripti.Machine.{System, World, Library, pure, ◌>>=◌, ◌>>◌, raise_unless}
use trelyan_falcon_inscripti.Machine.Triples.{
  Triple, Triple-bind, Triple-pass, Triple-assume, Triple-pure, Triple-returns, Triple-weaken,
}
use trelyan_falcon_inscripti.Falcon.{FalconDet1024, load, verify_inscription}
use trelyan_falcon_inscripti.Falcon.Correct.{IsCorrect, Available, can_load, Ready}
use trelyan_falcon_inscripti.Falcon.Returns.{verify_inscription_returns}
use trelyan_falcon_inscripti.Seal.Store.{SealStore}
use trelyan_falcon_inscripti.Seal.{SealResult, has_header, is_sealed, record_seal}
use trelyan_falcon_inscripti.Seal.Completes.{has_header_at, is_sealed_returns, record_seal_returns}
use trelyan_falcon_inscripti.Seal.Isolated.{Reply, keygen_sign_seal_isolated}
use trelyan_falcon_inscripti.Seal.Worker.{
  Host, Fields, Request, Output, read_request, harden_process, success, serve, main, process,
}
use trelyan_falcon_inscripti.Seal.Worker.Replies.{Genuine, Made, serve_returns}

-- The request, as the worker reads it back: json and the hex of bytes give what the parent wrote.
abbrev pub sent : Bool → PyInt → PyInt → Bytes → Bytes → Fields
sent require_locked app_id cell_id artifact_hash genesis_hash = record {
  app_id = some app_id;
  cell_id = some cell_id;
  artifact_hash = some artifact_hash;
  genesis_hash = some genesis_hash;
  require_locked = some require_locked;
}

-- subprocess.run of the worker, started in its own world, on that request.
abbrev pub spawn :
    {T : Type 0}
    → System
    → FalconDet1024
    → Host
    → World T
    → Bool
    → PyInt
    → PyInt
    → Bytes
    → Bytes
    → Option Reply
spawn system signer host started require_locked app_id cell_id artifact_hash genesis_hash = some (
    process system signer host
      (some (sent require_locked app_id cell_id artifact_hash genesis_hash)) started)

module _ {T : Type 0} (system : System) (signer : FalconDet1024) (host : Host) (lib : Library)
    (c : IsCorrect lib) (started : World T) (require_locked : Bool) (app_id cell_id : PyInt)
    (artifact_hash genesis_hash message context : Bytes) (rest : List (Option Bytes))
    (loaded : Available system signer lib started.lib)
    (seeded : started.entropy ≡ some context ∷ rest)
    (built : build_message (int app_id) (int cell_id) artifact_hash genesis_hash ≡ ok message)
    (pinned : require_locked ≡ true → (harden_process host).mlockall ≡ true) where
  abbrev asked : Request
  asked = record {
    app_id = app_id;
    cell_id = cell_id;
    artifact_hash = artifact_hash;
    genesis_hash = genesis_hash;
    require_locked = require_locked;
  }

  -- The worker prints a genuine key and signature and ends with code 0.
  record Replied (reply : Reply) : Type 0 where
    pubkey : Bytes
    signature : Bytes
    genuine : Genuine lib message pubkey signature
    replied : reply ≡ (success pubkey signature (harden_process host)).reply

  process_prints :
      (out : Output)
      → (serve system signer asked (harden_process host) started).0 ≡ ok out
      → process system signer host
          (some (sent require_locked app_id cell_id artifact_hash genesis_hash))
          started
        ≡ out.reply
  unfolding process main read_request
  process_prints out h = rw (process, h) refl

  spawned_replies : Replied (
      process system signer host
        (some (sent require_locked app_id cell_id artifact_hash genesis_hash))
        started)
  spawned_replies =
      let call = serve system signer asked (harden_process host) in
      let t : Triple _ call (λ out _. Made lib message (harden_process host) out) (λ _. ⊥) =
        serve_returns lib started.store c system signer asked message built rest context
          (harden_process host) pinned in
      let ready : Ready system signer lib started.store started
          × (started.entropy ≡ some context ∷ rest) =
        (record { loaded = loaded; stored = refl }, seeded) in
      let (out, h, m) = Triple-returns call t started ready in
      record {
        pubkey = m.pubkey;
        signature = m.signature;
        genuine = m.genuine;
        replied = process_prints out h ∙ ap (λ o. o.reply) m.printed;
      }

module _ {S : Type 0} {E : World S → Type 0} (lib : Library) (s : S) (c : IsCorrect lib)
    (system : System) (signer : FalconDet1024) (store : SealStore S)
    (worker : PyInt → PyInt → Bytes → Bytes → Option Reply) (app_id cell_id : PyInt)
    (artifact_hash genesis_hash message : Bytes)
    (built : build_message (int app_id) (int cell_id) artifact_hash genesis_hash ≡ ok message)
    (unsealed : store.is_sealed cell_id s ≡ ok false)
    (recorded : (store.record_seal cell_id s).0 ≡ ok tt) where
  verify_and_record :
      (pubkey sig : Bytes)
      → Genuine lib message pubkey sig
      → Triple {S = S} {A = SealResult}
          (λ w. Ready system signer lib s w × Unit {0})
          (do
            verified ←
                verify_inscription system signer sig pubkey
                  (int app_id)
                  (int cell_id)
                  artifact_hash
                  genesis_hash
            raise_unless verified seal_verification_error
            record_seal system signer store cell_id
            pure (record { pubkey = pubkey; signature = sig; cell_id = cell_id }))
          (λ _ _. Unit {0})
          E
  verify_and_record pubkey sig made =
      let f = c.signs made.rng message in
      let g = c.generates made.rng in
      Triple-bind
        (verify_inscription system signer sig pubkey (int app_id) (int cell_id) artifact_hash
          genesis_hash)
        _
        (verify_inscription_returns {P = λ _. Unit {0}} lib s c system signer
          (λ w libs outputs next p. p) sig pubkey (int app_id) (int cell_id) artifact_hash
          genesis_hash message built (rw made.public_key g.2)
          (rw (made.signature, made.public_key) f.4))
        (λ verified. Triple-assume _ (λ t.
          Triple-bind (raise_unless verified seal_verification_error) _
            (Triple-pass verified seal_verification_error t)
            (λ _.
              Triple-bind (record_seal system signer store cell_id) _
                (Triple-weaken (record_seal system signer store cell_id)
                  (λ w p. let r = p.0 in r.stored)
                  (record_seal_returns {E = E} lib s c system signer store app_id cell_id
                    artifact_hash genesis_hash message built recorded)
                  (λ u w q. q) (λ w q. q))
                (λ _. Triple-pure _ (λ w q. tt)))))

  isolated_returns :
      (pubkey sig : Bytes)
      → Genuine lib message pubkey sig
      → worker app_id cell_id artifact_hash genesis_hash
        ≡ some (record {
          returncode = nonneg 0;
          is_ok = true;
          pubkey = some pubkey;
          signature = some sig;
        })
      → Triple
          (λ w. Ready system signer lib s w × Unit {0})
          (keygen_sign_seal_isolated system signer store worker app_id cell_id artifact_hash
            genesis_hash)
          (λ _ _. Unit {0})
          E
  unfolding keygen_sign_seal_isolated
  isolated_returns pubkey sig made replied =
      let f = c.signs made.rng message in
      let h : has_header sig ≡ true = has_header_at sig (rw made.signature f.3) in
      rw replied (
        Triple-bind (is_sealed system signer store cell_id) _
          (is_sealed_returns lib s c system signer store app_id cell_id artifact_hash genesis_hash
            message built unsealed)
          (λ sealed. Triple-assume _ (λ free.
            Triple-bind (raise_unless (not sealed) cell_already_sealed) _
              (Triple-pass (not sealed) cell_already_sealed free)
              (λ _.
                Triple-bind (raise_unless (has_header sig) seal_verification_error) _
                  (Triple-pass (has_header sig) seal_verification_error h)
                  (λ _. verify_and_record pubkey sig made)))))

-- With the worker as its process, keygen_sign_seal_isolated returns a result if the parent has loaded a
-- library that works or its path opens it, the path of the worker, which starts with no library, opens the
-- same library, the worker has randomness, a message can be built from the parameters, the cell is not
-- sealed, the store records it, and mlockall pins the memory of the worker if the caller requires it.
pub isolated_seal_completes :
    {S T : Type 0} (system worker_system : System) (signer worker_signer : FalconDet1024)
    (store : SealStore S) (host : Host) (lib : Library) (w : World S) (started : World T)
    (require_locked : Bool) (app_id cell_id : PyInt)
    (artifact_hash genesis_hash message context : Bytes) (rest : List (Option Bytes))
    → IsCorrect lib
    → Available system signer lib w.lib
    → started.lib worker_signer.object ≡ none
    → load worker_system worker_signer.lib_path ≡ ok lib
    → started.entropy ≡ some context ∷ rest
    → build_message (int app_id) (int cell_id) artifact_hash genesis_hash ≡ ok message
    → (require_locked ≡ true → (harden_process host).mlockall ≡ true)
    → store.is_sealed cell_id w.store ≡ ok false
    → (store.record_seal cell_id w.store).0 ≡ ok tt
    → (r : SealResult) × ((keygen_sign_seal_isolated system signer store
          (spawn worker_system worker_signer host started require_locked)
          app_id
          cell_id
          artifact_hash
          genesis_hash
          w).0
        ≡ ok r)
isolated_seal_completes system worker_system signer worker_signer store host lib w started
      require_locked app_id cell_id artifact_hash genesis_hash message context rest c here there
      opens seeded built pinned unsealed recorded =
    let worker = spawn worker_system worker_signer host started require_locked in
    let call =
      keygen_sign_seal_isolated system signer store worker app_id cell_id artifact_hash
        genesis_hash in
    let p =
      spawned_replies worker_system worker_signer host lib c started require_locked app_id cell_id
        artifact_hash genesis_hash message context rest (can_load there opens) seeded built
        pinned in
    let t : Triple _ call (λ _ _. Unit {0}) (λ _. ⊥) =
      isolated_returns lib w.store c system signer store worker app_id cell_id artifact_hash
        genesis_hash message built unsealed recorded p.pubkey p.signature p.genuine
        (ap some p.replied) in
    let (r, h, _) = Triple-returns call t w (record { loaded = here; stored = refl }, tt) in (r, h)
