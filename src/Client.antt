-- ===== src/Client.antt =====
-- sdk/src/trelyan_pq/inscription.py: the client that builds, signs and sends the calls of the contract
-- and reads the record back. A cell id is the id of an asset, a natural number; the fees of the two
-- attempts of `inscribe` are in the contexts of their deliveries.
pub mod Outcome
pub mod Standing
pub mod Read
pub mod Landed
pub mod Tests
mod LandedTests
use trelyan_falcon_inscripti.Prelude.{
  ℕ, Bool, true, false, Option, none, some, [], length, ◌==◌, if◌then◌else◌,
}
use trelyan_falcon_inscripti.Prelude.Bytes.{Bytes, bytes_eq}
use trelyan_falcon_inscripti.Prelude.Result.{Result, ok, or_raise}
use trelyan_falcon_inscripti.Exceptions.{
  Exception, connection_failed, bad_hash_argument, bad_base64, bad_mnemonic,
}
use trelyan_falcon_inscripti.Message.{int, nonneg, build_message, box_refs}
use trelyan_falcon_inscripti.Contract.{
  Chain, Call, AssetParams, InscriptionRecord, register_cell_call, inscribe_call, update_owner_call,
  zero_address,
}
use trelyan_falcon_inscripti.Machine.{System, M, pure, lift, try_except, ◌>>=◌, ◌>>◌, raise_unless}
use trelyan_falcon_inscripti.Falcon
use trelyan_falcon_inscripti.Falcon.{FalconDet1024, sign}
use trelyan_falcon_inscripti.Ledger.{Ledger, submit, read, create_asset, pay, create_app}

-- What suggested_params gives for the genesis hash: a bytes object, or a str.
pub data GenesisField : Type 0 where
  octets text : Bytes → GenesisField

-- What the client asks of its libraries: hashlib's sha512_256, base64.b64decode, the account of a
-- mnemonic, and the genesis field of algod, if the node answers.
pub record Environment : Type 0 where
  pub system : System
  pub sha512_256 : Bytes → Bytes
  pub b64decode : Bytes → Option Bytes
  pub from_mnemonic : Bytes → Option Bytes
  pub suggested_gh : Option GenesisField
  pub default_lib_path : Bytes

-- `app` is the application that the typed client is attached to, `deployer` its address.
pub record TrelyanInscriptionClient : Type 0 where
  pub app : Chain
  pub deployer : Bytes
  pub signer : FalconDet1024

-- `bytes(gh) if isinstance(gh, bytes) and len(gh) == 32 else base64.b64decode(gh)`
unfoldable pub genesis_of : (Bytes → Option Bytes) → GenesisField → Result Exception Bytes
genesis_of b64decode (octets gh) =
    if length gh == 32 then ok gh else or_raise (b64decode gh) bad_base64
genesis_of b64decode (text gh) = or_raise (b64decode gh) bad_base64

-- The parameters of AssetCreateParams(sender, total=1, decimals=0, default_frozen=False, ...), where an
-- address that is not given is the zero address.
abbrev pub cell_params : Bytes → AssetParams
cell_params sender = record {
  total = 1;
  decimals = 0;
  creator = sender;
  clawback = zero_address;
  freeze = zero_address;
  manager = zero_address;
}

module _ (env : Environment) where
  -- `__init__`: without a signer, `FalconDet1024()`
  unfoldable pub new_client :
      Chain → Bytes → Option FalconDet1024 → M Ledger TrelyanInscriptionClient
  new_client app deployer none = do
    signer ← Falcon.new none env.default_lib_path
    pure (record { app = app; deployer = deployer; signer = signer })
  new_client app deployer (some signer) =
      pure (record { app = app; deployer = deployer; signer = signer })

  unfoldable pub deploy_testnet :
      Chain → Bytes → Option FalconDet1024 → M Ledger TrelyanInscriptionClient
  deploy_testnet app deployer_mnemonic signer = do
    deployer ← lift (or_raise (env.from_mnemonic deployer_mnemonic) bad_mnemonic)
    create_app app deployer
    new_client app deployer signer

  unfoldable pub from_app_client :
      Chain → Bytes → Option FalconDet1024 → M Ledger TrelyanInscriptionClient
  unfolding new_client
  from_app_client app deployer signer = new_client app deployer signer

module _ (env : Environment) (self : TrelyanInscriptionClient) where
  unfoldable pub app_id : ℕ
  app_id = self.app.app_id

  unfoldable pub network_genesis_hash : M Ledger Bytes
  network_genesis_hash = do
    gh ← lift (or_raise env.suggested_gh connection_failed)
    lift (genesis_of env.b64decode gh)

  unfoldable pub fund_app : ℕ → M Ledger (Unit {0})
  fund_app micro_algo = pay self.app self.deployer micro_algo

  unfoldable pub mint_cell : M Ledger ℕ
  mint_cell = create_asset self.app self.deployer (cell_params self.deployer)

  unfoldable pub register_cell : ℕ → Bytes → Bytes → M Ledger (Unit {0})
  register_cell cell_id controlling_owner committed_pubkey =
      submit self.app self.deployer (register_cell_call cell_id controlling_owner committed_pubkey)

  unfoldable pub get_inscription : ℕ → M Ledger InscriptionRecord
  get_inscription cell_id = read self.app self.deployer cell_id

  -- The first attempt, with the box references written out.
  unfoldable pub submit_static : ℕ → Bytes → Bytes → Bytes → M Ledger (Unit {0})
  submit_static cell_id artifact_hash sig payload_uri = do
    _ ← lift (box_refs (int (nonneg cell_id)))
    submit self.app self.deployer (inscribe_call cell_id artifact_hash sig payload_uri)

  -- The check after a first attempt that raised: a read that raises counts as no inscription.
  unfoldable pub already_inscribed : ℕ → M Ledger Bool
  already_inscribed cell_id = try_except (do _ ← get_inscription cell_id; pure true) (pure false)

  -- The handler of the first attempt.
  unfoldable pub submit_again : ℕ → Bytes → Bytes → Bytes → M Ledger (Unit {0})
  submit_again cell_id artifact_hash sig payload_uri = do
    already ← already_inscribed cell_id
    if already
        then pure tt
        else (submit self.app self.deployer (inscribe_call cell_id artifact_hash sig payload_uri))

  unfoldable pub inscribe : ℕ → Bytes → Bytes → Bytes → M Ledger (Unit {0})
  inscribe cell_id artifact_hash privkey payload_uri = do
    raise_unless (length artifact_hash == 32) bad_hash_argument
    genesis ← network_genesis_hash
    m ← lift (build_message (int (nonneg app_id)) (int (nonneg cell_id)) artifact_hash genesis)
    sig ← sign env.system self.signer privkey m
    try_except (submit_static cell_id artifact_hash sig payload_uri)
        (submit_again cell_id artifact_hash sig payload_uri)

  unfoldable pub inscribe_bytes : ℕ → Bytes → Bytes → Bytes → M Ledger Bytes
  inscribe_bytes cell_id artifact privkey payload_uri = do
    let h = env.sha512_256 artifact
    inscribe cell_id h privkey payload_uri
    pure h

  unfoldable pub update_owner : ℕ → Bytes → M Ledger (Unit {0})
  update_owner cell_id new_owner =
      submit self.app self.deployer (update_owner_call cell_id new_owner)

  unfoldable pub read_back_matches : ℕ → Bytes → Bool → M Ledger Bool
  read_back_matches cell_id artifact prehashed = do
    let expected = if prehashed then artifact else env.sha512_256 artifact
    rec ← get_inscription cell_id
    pure (bytes_eq rec.artifact_hash expected)
