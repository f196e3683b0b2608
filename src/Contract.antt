-- ===== src/Contract.antt =====
-- contracts/inscription.py: the application state, its methods as functions from the state before a
-- call to the state after it or to the assertion that rejects the call, and the calls by name. The
-- ledger that a call reads (its sender, the round, the assets) is an argument, `Context`; what is fixed
-- for one deployed application (its id, the genesis hash, the opcode falcon_verify) is `Chain`.
pub mod Accepts
pub mod Trace
pub mod Invariant
pub mod Permanence
pub mod Authority
pub mod Group
pub mod Lifecycle
pub mod Signing
pub mod Storage
pub mod Tests
use trelyan_falcon_inscripti.Prelude.{
  ℕ, ◌+◌, ◌^◌, Bool, not, ◌&&◌, Option, [], ◌∷◌, ◌++◌, length, get_elem?, replicate, ltb, leb, ◌==◌,
}
use trelyan_falcon_inscripti.Prelude.Bytes.{Bytes, bytes_eq, to_bytes}
use trelyan_falcon_inscripti.Prelude.BoxMap.{BoxMap, lookup, contains, insert}
use trelyan_falcon_inscripti.Prelude.Result.{Result, ok, err, ◌>>=◌, ◌>>◌, require, or_raise}

abbrev pub domain_tag : Bytes
domain_tag =
    b'T' ∷ b'R' ∷ b'E' ∷ b'L' ∷ b'Y' ∷ b'A' ∷ b'N' ∷ b'-' ∷ b'I' ∷ b'N' ∷ b'S' ∷ b'C' ∷ b'R' ∷ b'I'
    ∷ b'P' ∷ b'T' ∷ b'I' ∷ b'O' ∷ b'N' ∷ b'-' ∷ b'v' ∷ b'1' ∷ []

abbrev pub ins_version : ℕ
ins_version = 1

abbrev pub pubkey_len : ℕ
pubkey_len = 1793

abbrev pub sig_compressed_maxlen : ℕ
sig_compressed_maxlen = 1423

abbrev pub hash_len : ℕ
hash_len = 32

abbrev pub uri_maxlen : ℕ
uri_maxlen = 128

abbrev pub total_cells : ℕ
total_cells = 1024

-- `Global.zero_address`
abbrev pub zero_address : Bytes
zero_address = replicate 32 0

pub record InscriptionRecord : Type 0 where
  pub version : ℕ
  pub cell_id : ℕ
  pub artifact_hash : Bytes
  pub inscribed_round : ℕ
  pub inscriber : Bytes
  pub payload_uri : Bytes

-- The boxes and the global state of the application.
pub record State : Type 0 where
  pub committed_pubkey : BoxMap Bytes
  pub inscriptions : BoxMap InscriptionRecord
  pub controlling_owner : BoxMap Bytes
  pub admin : Bytes
  pub cells_registered : ℕ

-- The parameters of an asset that the contract reads.
pub record AssetParams : Type 0 where
  pub total : ℕ
  pub decimals : ℕ
  pub creator : Bytes
  pub clawback : Bytes
  pub freeze : Bytes
  pub manager : Bytes

-- Fixed for a deployed application. `falcon_verify data signature key` is the opcode.
pub record Chain : Type 0 where
  pub app_id : ℕ
  pub genesis_hash : Bytes
  pub falcon_verify : Bytes → Bytes → Bytes → Bool

-- What one call reads of the ledger. `asset_params` is `none` for an asset that does not exist, where
-- reading a parameter fails; `asset_balance` is the pair that AssetHoldingGet returns; `budget` says
-- whether the fees of the group pay for the budget that `ensure_budget` asks for.
pub record Context : Type 0 where
  pub sender : Bytes
  pub round : ℕ
  pub asset_params : ℕ → Option AssetParams
  pub asset_balance : Bytes → ℕ → ℕ × Bool
  pub budget : Bool

-- The assertions, by their messages, and the failures of the AVM itself.
pub data Rejection : Type 0 where
  only_admin no_such_asset not_pure_nft not_created_by_admin has_clawback has_freeze : Rejection
  has_manager bad_pubkey_length bad_pubkey_header all_registered zero_controlling_owner : Rejection
  already_registered already_registered_owner : Rejection
  not_registered sig_too_large bad_hash_length uri_too_long not_holder no_owner : Rejection
  not_controlling_owner already_inscribed no_budget signature_invalid : Rejection
  zero_new_owner non_upgradable non_deletable : Rejection
  -- a read of a box that is not there, a byte out of range, and an overflow of a uint64
  missing_box out_of_range overflow : Rejection

-- `__init__`
abbrev pub init : State
init = record {
  committed_pubkey = [];
  inscriptions = [];
  controlling_owner = [];
  admin = zero_address;
  cells_registered = 0;
}

unfoldable pub create : Context → State → State
create ctx s = record s { admin = ctx.sender }

-- `+` of UInt64 fails on overflow
abbrev pub add_uint64 : ℕ → ℕ → Result Rejection ℕ
add_uint64 a b = do require (ltb (a + b) (2 ^ 64)) overflow; ok (a + b)

unfoldable pub register_cell : Context → ℕ → Bytes → Bytes → State → Result Rejection State
register_cell ctx cid controlling_owner committed_pubkey s = do
  require (bytes_eq ctx.sender s.admin) only_admin
  cell ← or_raise (ctx.asset_params cid) no_such_asset
  require (cell.total == 1 && cell.decimals == 0) not_pure_nft
  require (bytes_eq cell.creator s.admin) not_created_by_admin
  require (bytes_eq cell.clawback zero_address) has_clawback
  require (bytes_eq cell.freeze zero_address) has_freeze
  require (bytes_eq cell.manager zero_address) has_manager
  require (length committed_pubkey == pubkey_len) bad_pubkey_length
  header ← or_raise (get_elem? committed_pubkey 0) out_of_range
  require (header == 0x0A) bad_pubkey_header
  require (ltb s.cells_registered total_cells) all_registered
  require (not (bytes_eq controlling_owner zero_address)) zero_controlling_owner
  require (not (contains cid s.committed_pubkey)) already_registered
  require (not (contains cid s.controlling_owner)) already_registered_owner
  registered ← add_uint64 s.cells_registered 1
  ok (record s {
    committed_pubkey = insert cid committed_pubkey s.committed_pubkey;
    controlling_owner = insert cid controlling_owner s.controlling_owner;
    cells_registered = registered;
  })

-- `_build_message`
unfoldable pub build_message : Chain → ℕ → Bytes → Bytes
build_message chain cell_id artifact_hash =
    domain_tag
    ++ (to_bytes 8 chain.app_id ++ (to_bytes 8 cell_id ++ (artifact_hash ++ chain.genesis_hash)))

unfoldable pub inscribe :
    Chain → Context → ℕ → Bytes → Bytes → Bytes → State → Result Rejection State
inscribe chain ctx cid artifact_hash falcon_sig payload_uri s = do
  require (contains cid s.committed_pubkey) not_registered
  require (leb (length falcon_sig) sig_compressed_maxlen) sig_too_large
  require (length artifact_hash == hash_len) bad_hash_length
  require (leb (length payload_uri) uri_maxlen) uri_too_long
  let (balance, exists) = ctx.asset_balance ctx.sender cid
  require (exists && balance == 1) not_holder
  require (contains cid s.controlling_owner) no_owner
  owner ← or_raise (lookup cid s.controlling_owner) missing_box
  require (bytes_eq owner ctx.sender) not_controlling_owner
  require (not (contains cid s.inscriptions)) already_inscribed
  pubkey ← or_raise (lookup cid s.committed_pubkey) missing_box
  require ctx.budget no_budget
  require (chain.falcon_verify (build_message chain cid artifact_hash) falcon_sig pubkey)
      signature_invalid
  ok (record s {
    inscriptions =
        insert cid
          (record {
            version = ins_version;
            cell_id = cid;
            artifact_hash = artifact_hash;
            inscribed_round = ctx.round;
            inscriber = ctx.sender;
            payload_uri = payload_uri;
          })
          s.inscriptions;
  })

unfoldable pub update_owner : Context → ℕ → Bytes → State → Result Rejection State
update_owner ctx cid new_owner s = do
  require (contains cid s.controlling_owner) not_registered
  owner ← or_raise (lookup cid s.controlling_owner) missing_box
  require (bytes_eq owner ctx.sender) not_controlling_owner
  require (not (contains cid s.inscriptions)) already_inscribed
  let (balance, held) = ctx.asset_balance ctx.sender cid
  require (held && balance == 1) not_holder
  require (not (bytes_eq new_owner zero_address)) zero_new_owner
  ok (record s { controlling_owner = insert cid new_owner s.controlling_owner })

unfoldable pub get_inscription : ℕ → State → Result Rejection InscriptionRecord
get_inscription cell_id s = or_raise (lookup cell_id s.inscriptions) missing_box

unfoldable pub on_update : State → Result Rejection State
on_update s = err non_upgradable

unfoldable pub on_delete : State → Result Rejection State
on_delete s = err non_deletable

-- The calls that an existing application answers, with their arguments.
pub data Call : Type 0 where
  register_cell_call : (cell : ℕ) (controlling_owner committed_pubkey : Bytes) → Call
  inscribe_call : (cell : ℕ) (artifact_hash falcon_sig payload_uri : Bytes) → Call
  update_owner_call : (cell : ℕ) (new_owner : Bytes) → Call
  get_inscription_call : (cell_id : ℕ) → Call
  update_application delete_application : Call

unfoldable pub dispatch : Chain → Context → Call → State → Result Rejection State
dispatch chain ctx (register_cell_call cell o k) s = register_cell ctx cell o k s
dispatch chain ctx (inscribe_call cell h sig uri) s = inscribe chain ctx cell h sig uri s
dispatch chain ctx (update_owner_call cell o) s = update_owner ctx cell o s
dispatch chain ctx (get_inscription_call cell_id) s = do _ ← get_inscription cell_id s; ok s
dispatch chain ctx update_application s = on_update s
dispatch chain ctx delete_application s = on_delete s
