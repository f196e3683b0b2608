-- ===== src/Seal/Worker.antt =====
-- sdk/src/trelyan_pq/_seal_worker.py: the process that makes a key pair, signs one message and prints
-- the public key and the signature. What it asks of the operating system and of json is an argument.
pub mod Wiped
pub mod Verified
pub mod Replies
mod Tests
use trelyan_falcon_inscripti.Prelude.{
  ℕ, Bool, true, false, not, ◌&&◌, Option, none, some, [], ◌∷◌, take, ◌==◌, if◌then◌else◌,
}
use trelyan_falcon_inscripti.Prelude.Bytes.{Bytes, bytes_eq}
use trelyan_falcon_inscripti.Prelude.Result.{Result, ok, err}
use trelyan_falcon_inscripti.Exceptions.{Exception, unexpected_header, length_drift}
use trelyan_falcon_inscripti.Message.{PyInt, int, nonneg, build_message}
use trelyan_falcon_inscripti.Machine.{
  System, World, M, pure, lift, finally, try_except, ◌>>=◌, wipe, read_buffer,
}
use trelyan_falcon_inscripti.Falcon.{
  FalconDet1024, privkey_size, unlock_pages, keygen_into_buffer, sign, verify_inscription,
}
use trelyan_falcon_inscripti.Seal.{has_header}
use trelyan_falcon_inscripti.Seal.Isolated.{Reply}

-- What the operating system answers: whether setrlimit returns, whether the C library opens, and what
-- mlockall and prctl return, where `none` is a call that raises.
pub record Host : Type 0 where
  pub platform : Bytes
  pub setrlimit_returns : Bool
  pub opens_libc : Bool
  pub mlockall : Option ℕ
  pub prctl : Option ℕ

pub record Protections : Type 0 where
  pub mlockall : Bool
  pub no_core_dump : Bool
  pub no_ptrace : Bool
  pub platform : Bytes

-- `sys.platform == "win32"` and `sys.platform.startswith("linux")`
abbrev pub is_windows : Bytes → Bool
is_windows platform = bytes_eq platform (b'w' ∷ b'i' ∷ b'n' ∷ b'3' ∷ b'2' ∷ [])

abbrev pub is_linux : Bytes → Bool
is_linux platform = bytes_eq (take 5 platform) (b'l' ∷ b'i' ∷ b'n' ∷ b'u' ∷ b'x' ∷ [])

-- A call of libc that returned 0.
abbrev pub succeeded : Option ℕ → Bool
succeeded none = false
succeeded (some rc) = rc == 0

unfoldable pub harden_process : Host → Protections
harden_process host =
    if is_windows host.platform
    then (record {
      mlockall = false;
      no_core_dump = false;
      no_ptrace = false;
      platform = host.platform;
    })
    else (record {
      mlockall = host.opens_libc && succeeded host.mlockall;
      no_core_dump = host.setrlimit_returns;
      no_ptrace = host.opens_libc && (is_linux host.platform && succeeded host.prctl);
      platform = host.platform;
    })

-- The fields of the request, each as what its conversion gives, and `none` where that raises; the
-- default of `require_locked` is False.
pub record Fields : Type 0 where
  pub app_id : Option PyInt
  pub cell_id : Option PyInt
  pub artifact_hash : Option Bytes
  pub genesis_hash : Option Bytes
  pub require_locked : Option Bool

pub record Request : Type 0 where
  pub app_id : PyInt
  pub cell_id : PyInt
  pub artifact_hash : Bytes
  pub genesis_hash : Bytes
  pub require_locked : Bool

-- The body of the first `try`, on what json.loads gives.
unfoldable pub read_request : Option Fields → Option Request
read_request none = none
read_request (some f) = elim f.app_id [
  | none ↦ none
  | some app_id ↦ elim f.cell_id [
    | none ↦ none
    | some cell_id ↦ elim f.artifact_hash [
      | none ↦ none
      | some artifact_hash ↦ elim f.genesis_hash [
        | none ↦ none
        | some genesis_hash ↦ elim f.require_locked [
          | none ↦ none
          | some require_locked ↦ some (record {
            app_id = app_id;
            cell_id = cell_id;
            artifact_hash = artifact_hash;
            genesis_hash = genesis_hash;
            require_locked = require_locked;
          })
        ]
      ]
    ]
  ]
]

-- What the process prints and returns: the reply, and the protections where the reply names them.
pub record Output : Type 0 where
  pub reply : Reply
  pub protections : Option Protections

abbrev pub refusal : ℕ → Option Protections → Output
refusal code protections = record {
  reply = record { returncode = nonneg code; is_ok = false; pubkey = none; signature = none };
  protections = protections;
}

abbrev pub success : Bytes → Bytes → Protections → Output
success pubkey sig protections = record {
  reply = record {
    returncode = nonneg 0;
    is_ok = true;
    pubkey = some pubkey;
    signature = some sig;
  };
  protections = some protections;
}

abbrev pub report_on : Protections → Bytes → Result ℕ Bytes → Output
report_on protections pubkey (ok sig) = success pubkey sig protections
report_on protections pubkey (err code) = refusal code none

abbrev pub is_assertion_error : Exception → Bool
is_assertion_error unexpected_header = true
is_assertion_error length_drift = true
is_assertion_error e = false

-- `except AssertionError` around `sign`: the exit code 4 in place of a signature
abbrev pub or_code_4 : Result Exception Bytes → Result Exception (Result ℕ Bytes)
or_code_4 (ok sig) = ok (ok sig)
or_code_4 (err e) = if is_assertion_error e then ok (err 4) else err e

module _ {S : Type 0} (system : System) (signer : FalconDet1024) (req : Request) where
  unfoldable pub sign_with : ℕ → Bytes → M S (Result ℕ Bytes)
  sign_with privkey m w =
      let (r, w') = sign system signer (read_buffer privkey w) m w in (or_code_4 r, w')

  -- The check of a signature, where the test of its first byte comes first.
  unfoldable pub self_verify : Bytes → Bytes → M S (Result ℕ Bytes)
  self_verify pubkey sig =
      if has_header sig
      then (do
        verified ←
            verify_inscription system signer sig pubkey (int req.app_id) (int req.cell_id)
              req.artifact_hash req.genesis_hash
        pure (if verified then ok sig else err 5))
      else pure (err 5)

  unfoldable pub or_self_verify : Bytes → Result ℕ Bytes → M S (Result ℕ Bytes)
  or_self_verify pubkey (ok sig) = self_verify pubkey sig
  or_self_verify pubkey (err code) = pure (err code)

  -- The body of the last `try`: the signature, or the exit code of an early return.
  unfoldable pub sign_and_verify : Bytes → ℕ → M S (Result ℕ Bytes)
  sign_and_verify pubkey privkey = do
    m ← lift (build_message (int req.app_id) (int req.cell_id) req.artifact_hash req.genesis_hash)
    signed ← sign_with privkey m
    or_self_verify pubkey signed

  unfoldable pub with_key : Protections → Option (Bytes × ℕ) → M S Output
  with_key protections none = pure (refusal 3 none)
  with_key protections (some (pubkey, privkey)) = do
    signed ←
        finally (sign_and_verify pubkey privkey)
          (λ w. unlock_pages privkey (wipe privkey privkey_size w))
    pure (report_on protections pubkey signed)

  -- `try: keygen except Exception`
  unfoldable pub try_keygen : M S (Option (Bytes × ℕ))
  try_keygen = try_except (do pair ← keygen_into_buffer system signer; pure (some pair)) (pure none)

  unfoldable pub serve : Protections → M S Output
  serve protections =
      if req.require_locked && not protections.mlockall
      then (pure (refusal 6 (some protections)))
      else (do key ← try_keygen; with_key protections key)

module _ {S : Type 0} (system : System) (signer : FalconDet1024) (host : Host) where
  unfoldable pub main : Option Fields → M S Output
  main stdin = elim (read_request stdin) [
    | none ↦ pure (refusal 2 none)
    | some req ↦ serve system signer req (harden_process host)
  ]

  -- The end of the process as its parent sees it: an exception that `main` lets through ends it with
  -- code 1 and no output.
  unfoldable pub process : Option Fields → World S → Reply
  process stdin w = elim (main stdin w).0 [
    | ok output ↦ output.reply
    | err e ↦ record { returncode = nonneg 1; is_ok = false; pubkey = none; signature = none }
  ]
