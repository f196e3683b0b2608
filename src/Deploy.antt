-- ===== src/Deploy.antt =====
-- contracts/deploy_testnet.py: one run that creates the application, funds it, mints a cell, registers
-- it, inscribes it with a second attempt if the first raises, and reads the record back.
pub mod Retry
pub mod Network
pub mod Inscribed
pub mod Run
mod Tests
use trelyan_falcon_inscripti.Prelude.{
  ℕ, Bool, true, false, not, ◌&&◌, Option, none, some, List, [], ◌∷◌, ◌++◌, if◌then◌else◌,
}
use trelyan_falcon_inscripti.Prelude.Bytes.{Bytes, bytes_eq, to_bytes}
use trelyan_falcon_inscripti.Prelude.Text.{strip, lower, isdigit, is_one_of}
use trelyan_falcon_inscripti.Prelude.Result.{ok, Result, or_raise}
use trelyan_falcon_inscripti.Exceptions.{
  Exception, connection_failed, bad_mnemonic, no_mnemonic, looks_like_mainnet, not_testnet,
  hash_mismatch, reverify_failed,
}
use trelyan_falcon_inscripti.Message.{int, nonneg, reference_build_message}
use trelyan_falcon_inscripti.Contract.{Chain, register_cell_call, inscribe_call}
use trelyan_falcon_inscripti.Machine.{
  System, World, M, pure, lift, try_except, ◌>>=◌, ◌>>◌, raise_unless, modify,
}
use trelyan_falcon_inscripti.Falcon.Reference.{reference_keygen, sign_compressed, verify_compressed}
use trelyan_falcon_inscripti.Ledger.{Ledger, submit, read, create_asset, pay, create_app}
use trelyan_falcon_inscripti.Client.{GenesisField, genesis_of, cell_params}

-- "SGO1GKSzyE7IEPItTxCByw9x8FmnrCDexi9/cOUJOiI="
abbrev pub testnet_genesis_b64 : Bytes
testnet_genesis_b64 =
    b'S' ∷ b'G' ∷ b'O' ∷ b'1' ∷ b'G' ∷ b'K' ∷ b'S' ∷ b'z' ∷ b'y' ∷ b'E' ∷ b'7' ∷ b'I' ∷ b'E' ∷ b'P'
    ∷ b'I' ∷ b't' ∷ b'T' ∷ b'x' ∷ b'C' ∷ b'B' ∷ b'y' ∷ b'w' ∷ b'9' ∷ b'x' ∷ b'8' ∷ b'F' ∷ b'm'
    ∷ b'n' ∷ b'r' ∷ b'C' ∷ b'D' ∷ b'e' ∷ b'x' ∷ b'i' ∷ b'9' ∷ b'/' ∷ b'c' ∷ b'O' ∷ b'U' ∷ b'J'
    ∷ b'O' ∷ b'i' ∷ b'I' ∷ b'=' ∷ []

-- b"TRELYAN TestNet demo artifact" and b"ipfs://demo-artifact"
abbrev pub demo_artifact : Bytes
demo_artifact =
    b'T' ∷ b'R' ∷ b'E' ∷ b'L' ∷ b'Y' ∷ b'A' ∷ b'N' ∷ b' ' ∷ b'T' ∷ b'e' ∷ b's' ∷ b't' ∷ b'N' ∷ b'e'
    ∷ b't' ∷ b' ' ∷ b'd' ∷ b'e' ∷ b'm' ∷ b'o' ∷ b' ' ∷ b'a' ∷ b'r' ∷ b't' ∷ b'i' ∷ b'f' ∷ b'a'
    ∷ b'c' ∷ b't' ∷ []

abbrev pub demo_uri : Bytes
demo_uri =
    b'i' ∷ b'p' ∷ b'f' ∷ b's' ∷ b':' ∷ b'/' ∷ b'/' ∷ b'd' ∷ b'e' ∷ b'm' ∷ b'o' ∷ b'-' ∷ b'a' ∷ b'r'
    ∷ b't' ∷ b'i' ∷ b'f' ∷ b'a' ∷ b'c' ∷ b't' ∷ []

-- The environment variables that the script reads, and its libraries.
pub record Script : Type 0 where
  pub deployer_mnemonic : Option Bytes
  pub algorand_network : Option Bytes
  pub github_output : Option Bytes
  pub falcon_lib : Bytes
  pub system : System
  pub sha512_256 : Bytes → Bytes
  pub b64decode : Bytes → Option Bytes
  pub b64encode : Bytes → Bytes
  pub from_mnemonic : Bytes → Option Bytes
  pub suggested_gh : Option GenesisField
  -- `str` of an int
  pub decimal : ℕ → Bytes

-- The value of an environment variable that is set and not empty.
abbrev pub set_value : Option Bytes → Option Bytes
set_value none = none
set_value (some []) = none
set_value (some (c ∷ value)) = some (c ∷ value)

-- `os.environ.get("ALGORAND_NETWORK", "").strip().lower() in {"mainnet", "main"}`
unfoldable pub names_mainnet : Option Bytes → Bool
names_mainnet none = false
names_mainnet (some network) =
    is_one_of
      ((b'm' ∷ b'a' ∷ b'i' ∷ b'n' ∷ b'n' ∷ b'e' ∷ b't' ∷ [])
        ∷ (b'm' ∷ b'a' ∷ b'i' ∷ b'n' ∷ [])
        ∷ [])
      (lower (strip network))

abbrev pub name_app_id : Bytes
name_app_id = b'a' ∷ b'p' ∷ b'p' ∷ b'_' ∷ b'i' ∷ b'd' ∷ []

abbrev pub name_cell_id : Bytes
name_cell_id = b'c' ∷ b'e' ∷ b'l' ∷ b'l' ∷ b'_' ∷ b'i' ∷ b'd' ∷ []

-- `_write_github_output`
unfoldable pub write_github_output : Option Bytes → Bytes → Bytes → M Ledger (Unit {0})
write_github_output path name value w = elim (set_value path) [
  | none ↦ (ok tt, w)
  | some file ↦
      if is_one_of (name_app_id ∷ name_cell_id ∷ []) name && isdigit value
      then (
        ok tt,
        record w {
          store = record w.store {
            github_output = w.store.github_output ++ (name ++ (b'=' ∷ value)) ∷ [];
          };
        },
      )
      else (ok tt, w)
]

-- The `box_refs` of this script.
unfoldable pub script_box_refs : ℕ → List Bytes
script_box_refs cell_id =
    let k = to_bytes 8 cell_id in (b'k' ∷ b'_' ∷ k) ∷ (b'o' ∷ b'_' ∷ k) ∷ (b'i' ∷ b'_' ∷ k) ∷ []

module _ (chain : Chain) (deployer : Bytes) where
  -- Step 5 from its first attempt: the second is sent whatever made the first raise.
  unfoldable pub inscribe_with_retry : ℕ → Bytes → Bytes → Bytes → M Ledger (Unit {0})
  inscribe_with_retry cell hash sig uri =
      try_except (submit chain deployer (inscribe_call cell hash sig uri))
        (submit chain deployer (inscribe_call cell hash sig uri))

  -- Step 6: whatever the read back raises is noted and dropped.
  unfoldable pub read_back : ℕ → Bytes → M Ledger (Unit {0})
  read_back cell hash =
      try_except
        (do
          rec ← read chain deployer cell
          raise_unless (bytes_eq rec.artifact_hash hash) hash_mismatch)
        (pure tt)

module _ (env : Script) where
  -- Everything before the first transaction: the deployer's address and the genesis hash.
  unfoldable pub connect : M Ledger (Bytes × Bytes)
  connect = do
    mn ← lift (or_raise (set_value env.deployer_mnemonic) no_mnemonic)
    raise_unless (not (names_mainnet env.algorand_network)) looks_like_mainnet
    deployer ← lift (or_raise (env.from_mnemonic mn) bad_mnemonic)
    gh ← lift (or_raise env.suggested_gh connection_failed)
    genesis ← lift (genesis_of env.b64decode gh)
    raise_unless (bytes_eq (env.b64encode genesis) testnet_genesis_b64) not_testnet
    pure (deployer, genesis)

  module _ (chain : Chain) (deployer : Bytes) where
    -- Steps 1 to 4: the id of the cell and its key pair.
    unfoldable pub set_up : M Ledger (ℕ × Bytes × Bytes)
    set_up = do
      create_app chain deployer
      write_github_output env.github_output name_app_id (env.decimal chain.app_id)
      pay chain deployer 1500000
      (pk, sk) ← reference_keygen env.system env.falcon_lib
      cell ← create_asset chain deployer (cell_params deployer)
      write_github_output env.github_output name_cell_id (env.decimal cell)
      submit chain deployer (register_cell_call cell deployer pk)
      pure (cell, pk, sk)

    -- Steps 5 and 6.
    unfoldable pub inscribe_demo : ℕ → Bytes → Bytes → Bytes → M Ledger (Unit {0})
    inscribe_demo cell pk sk genesis = do
      let artifact_hash = env.sha512_256 demo_artifact
      m ← lift (
          reference_build_message (int (nonneg chain.app_id)) (int (nonneg cell)) artifact_hash
            genesis)
      sig ← sign_compressed env.system env.falcon_lib sk m
      inscribe_with_retry chain deployer cell artifact_hash sig demo_uri
      read_back chain deployer cell artifact_hash
      verified ← verify_compressed env.system env.falcon_lib sig pk m
      raise_unless verified reverify_failed

  -- `main`, where the application that it creates is `chain`
  unfoldable pub main : Chain → M Ledger (Unit {0})
  main chain = do
    (deployer, genesis) ← connect
    (cell, pk, sk) ← set_up chain deployer
    inscribe_demo chain deployer cell pk sk genesis
