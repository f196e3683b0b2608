-- ===== src/Examples.antt =====
-- sdk/examples/quickstart.py and sdk/examples/interop_algo_pqc_kit.py: the two runs that deploy a new
-- application with the SDK, inscribe one cell and read it back. What they print is left out.
pub mod Written
mod Tests
use trelyan_falcon_inscripti.Prelude.{ℕ, Bool, true, false, not, Option, none, some, List, [], ◌∷◌}
use trelyan_falcon_inscripti.Prelude.Bytes.{Bytes}
use trelyan_falcon_inscripti.Prelude.Result.{or_raise}
use trelyan_falcon_inscripti.Exceptions.{no_mnemonic, hash_mismatch, not_reconciled, no_account}
use trelyan_falcon_inscripti.Message.{int, nonneg, build_message}
use trelyan_falcon_inscripti.Contract.{Chain}
use trelyan_falcon_inscripti.Machine.{M, lift, ◌>>=◌, ◌>>◌, raise_unless}
use trelyan_falcon_inscripti.Falcon
use trelyan_falcon_inscripti.Falcon.{keygen}
use trelyan_falcon_inscripti.Ledger.{Ledger}
use trelyan_falcon_inscripti.Client.{
  Environment, TrelyanInscriptionClient, app_id, network_genesis_hash, deploy_testnet, fund_app,
  mint_cell, register_cell, inscribe, inscribe_bytes, read_back_matches,
}
use trelyan_falcon_inscripti.Deploy.{set_value}

-- What the examples read beside the libraries of the client: DEPLOYER_MNEMONIC, and the public key of
-- FalconAccount.generate() of algo_pqc_kit, where `none` says that it raises.
pub record Setting : Type 0 where
  pub env : Environment
  pub deployer_mnemonic : Option Bytes
  pub falcon_account : Option Bytes

-- INTEROP_RECONCILED
abbrev pub interop_reconciled : Bool
interop_reconciled = false

-- The default of `fund_app`
abbrev pub default_micro_algo : ℕ
default_micro_algo = 1500000

-- b"hello, after Q-Day" and b"ipfs://demo-artifact"
abbrev pub quickstart_artifact : Bytes
quickstart_artifact =
    b'h' ∷ b'e' ∷ b'l' ∷ b'l' ∷ b'o' ∷ b',' ∷ b' ' ∷ b'a' ∷ b'f' ∷ b't' ∷ b'e' ∷ b'r' ∷ b' ' ∷ b'Q'
    ∷ b'-' ∷ b'D' ∷ b'a' ∷ b'y' ∷ []

abbrev pub quickstart_uri : Bytes
quickstart_uri =
    b'i' ∷ b'p' ∷ b'f' ∷ b's' ∷ b':' ∷ b'/' ∷ b'/' ∷ b'd' ∷ b'e' ∷ b'm' ∷ b'o' ∷ b'-' ∷ b'a' ∷ b'r'
    ∷ b't' ∷ b'i' ∷ b'f' ∷ b'a' ∷ b'c' ∷ b't' ∷ []

-- b"end-to-end post-quantum: a PQ account authorizes a PQ inscription" and b"ipfs://demo"
abbrev pub interop_artifact : Bytes
interop_artifact =
    b'e' ∷ b'n' ∷ b'd' ∷ b'-' ∷ b't' ∷ b'o' ∷ b'-' ∷ b'e' ∷ b'n' ∷ b'd' ∷ b' ' ∷ b'p' ∷ b'o' ∷ b's'
    ∷ b't' ∷ b'-' ∷ b'q' ∷ b'u' ∷ b'a' ∷ b'n' ∷ b't' ∷ b'u' ∷ b'm' ∷ b':' ∷ b' ' ∷ b'a' ∷ b' '
    ∷ b'P' ∷ b'Q' ∷ b' ' ∷ b'a' ∷ b'c' ∷ b'c' ∷ b'o' ∷ b'u' ∷ b'n' ∷ b't' ∷ b' ' ∷ b'a' ∷ b'u'
    ∷ b't' ∷ b'h' ∷ b'o' ∷ b'r' ∷ b'i' ∷ b'z' ∷ b'e' ∷ b's' ∷ b' ' ∷ b'a' ∷ b' ' ∷ b'P' ∷ b'Q'
    ∷ b' ' ∷ b'i' ∷ b'n' ∷ b's' ∷ b'c' ∷ b'r' ∷ b'i' ∷ b'p' ∷ b't' ∷ b'i' ∷ b'o' ∷ b'n' ∷ []

abbrev pub interop_uri : Bytes
interop_uri = b'i' ∷ b'p' ∷ b'f' ∷ b's' ∷ b':' ∷ b'/' ∷ b'/' ∷ b'd' ∷ b'e' ∷ b'm' ∷ b'o' ∷ []

module _ (s : Setting) where
  -- quickstart.py from the deployed client on
  unfoldable pub quickstart_with : TrelyanInscriptionClient → M Ledger (Unit {0})
  quickstart_with c = do
    fund_app s.env c default_micro_algo
    (pubkey, privkey) ← keygen s.env.system c.signer
    cell ← mint_cell s.env c
    register_cell s.env c cell c.deployer pubkey
    _ ← inscribe_bytes s.env c cell quickstart_artifact privkey quickstart_uri
    matches ← read_back_matches s.env c cell quickstart_artifact false
    raise_unless matches hash_mismatch

  -- `main` of quickstart.py, where the application that it creates is `chain`
  unfoldable pub quickstart : Chain → M Ledger (Unit {0})
  quickstart chain = do
    mnemonic ← lift (or_raise (set_value s.deployer_mnemonic) no_mnemonic)
    c ← deploy_testnet s.env chain mnemonic none
    quickstart_with c

  -- interop_algo_pqc_kit.py from the deployed client on, with its own signer
  unfoldable pub interop_with : TrelyanInscriptionClient → M Ledger (Unit {0})
  interop_with c = do
    fund_app s.env c default_micro_algo
    cell ← mint_cell s.env c
    let artifact_hash = s.env.sha512_256 interop_artifact
    raise_unless (not interop_reconciled) not_reconciled
    signer ← Falcon.new none s.env.default_lib_path
    (pub_key, priv) ← keygen s.env.system signer
    register_cell s.env c cell c.deployer pub_key
    genesis ← network_genesis_hash s.env c
    _ ←
        lift
          (build_message (int (nonneg (app_id s.env c))) (int (nonneg cell)) artifact_hash genesis)
    inscribe s.env c cell artifact_hash priv interop_uri
    matches ← read_back_matches s.env c cell interop_artifact false
    raise_unless matches hash_mismatch

  -- `main` of interop_algo_pqc_kit.py
  unfoldable pub interop : Chain → M Ledger (Unit {0})
  interop chain = do
    mnemonic ← lift (or_raise (set_value s.deployer_mnemonic) no_mnemonic)
    _ ← lift (or_raise s.falcon_account no_account)
    c ← deploy_testnet s.env chain mnemonic none
    interop_with c

-- The two scripts, with what each inscribes.
pub data Example : Type 0 where
  quickstart_py interop_py : Example

abbrev pub main : Setting → Example → Chain → M Ledger (Unit {0})
main s quickstart_py = quickstart s
main s interop_py = interop s

abbrev pub artifact_of : Example → Bytes
artifact_of quickstart_py = quickstart_artifact
artifact_of interop_py = interop_artifact

abbrev pub uri_of : Example → Bytes
uri_of quickstart_py = quickstart_uri
uri_of interop_py = interop_uri
