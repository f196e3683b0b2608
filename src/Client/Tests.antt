-- ===== src/Client/Tests.antt =====
-- Runs of the client on a small network, and the theorems about it at them.
use trelyan_falcon_inscripti.Prelude.{
  ◌≡◌, ◌≢◌, refl, true, false, none, some, List, [], ◌∷◌, replicate,
}
use trelyan_falcon_inscripti.Prelude.Bytes.{Bytes, bytes_eq, to_bytes}
use trelyan_falcon_inscripti.Prelude.BoxMap.{lookup, insert}
use trelyan_falcon_inscripti.Prelude.Result.{ok, err}
use trelyan_falcon_inscripti.Exceptions.{connection_failed}
use trelyan_falcon_inscripti.Message
use trelyan_falcon_inscripti.Message.{
  box_refs, cell_key, committed_pubkey_box_name, controlling_owner_box_name, inscription_box_name,
}
use trelyan_falcon_inscripti.Contract
use trelyan_falcon_inscripti.Contract.{
  Chain, Context, State, InscriptionRecord, dispatch, update_owner_call,
}
use trelyan_falcon_inscripti.Machine.{World, write_output}
use trelyan_falcon_inscripti.Falcon.{lib_ref, load, sign, check_header}
use trelyan_falcon_inscripti.Ledger.{
  Ledger, Delivery, Fate, lost, unconfirmed, confirmed, after_calls, attempt, attempt_read, submit,
  read,
}
use trelyan_falcon_inscripti.Ledger.Keeps.{
  AreForeign, no_calls, foreign_call, no_deliveries, delivery_alone,
}
use trelyan_falcon_inscripti.Client.{
  Environment, TrelyanInscriptionClient, octets, genesis_of, app_id, network_genesis_hash,
  get_inscription, submit_static, already_inscribed, submit_again, inscribe, inscribe_bytes,
  read_back_matches,
}
use trelyan_falcon_inscripti.Client.Read.{CanWrite, inscribed_reads_back}
use trelyan_falcon_inscripti.Seal.Tests.{system, signer, art, genesis}

abbrev pub deployer : Bytes
deployer = 1 ∷ []

abbrev pub bob : Bytes
bob = 2 ∷ []

abbrev pub uri : Bytes
uri = b'i' ∷ []

abbrev pub privkey : Bytes
privkey = replicate 2305 0

-- An opcode that takes the signatures of the toy library.
abbrev pub chain : Chain
chain = record {
  app_id = 1001;
  genesis_hash = genesis;
  falcon_verify = λ m s k. bytes_eq s (0xba ∷ m);
}

abbrev pub client : TrelyanInscriptionClient
client = record { app = chain; deployer = deployer; signer = signer }

abbrev pub env : Environment
env = record {
  system = system;
  sha512_256 = λ bytes. art;
  b64decode = λ text. none;
  from_mnemonic = λ words. some deployer;
  suggested_gh = some (octets genesis);
  default_lib_path = [];
}

abbrev pub at : Bytes → Context
at sender = record {
  sender = sender;
  round = 10;
  asset_params = λ asset. none;
  asset_balance = λ account asset. (1, true);
  budget = true;
}

-- A delivery before which Bob tries to take the cell.
abbrev pub delivery : Fate → Delivery
delivery fate = record {
  fate = fate;
  others = (at bob, update_owner_call 5 bob) ∷ [];
  context = at [];
  new_asset = 5;
}

abbrev opened : State
opened = record {
  committed_pubkey = (5, 10 ∷ []) ∷ [];
  inscriptions = [];
  controlling_owner = (5, deployer) ∷ [];
  admin = deployer;
  cells_registered = 1;
}

abbrev pub on_ledger : State → List Delivery → World Ledger
on_ledger s deliveries = record {
  lib = λ object. none;
  entropy = some (1 ∷ []) ∷ [];
  buffers = [];
  outputs = [];
  next_address = 16;
  pinned = [];
  store = record { state = s; assets = []; funds = 0; deliveries = deliveries; github_output = [] };
}

abbrev pub start : World Ledger
start = on_ledger opened (delivery unconfirmed ∷ delivery confirmed ∷ delivery confirmed ∷ [])

bob-ne-deployer : bob ≢ deployer
bob-ne-deployer e = cc

pub one_alone : AreForeign deployer ((at bob, update_owner_call 5 bob) ∷ [])
one_alone = foreign_call bob-ne-deployer no_calls

can_write : CanWrite deployer 5 start.store
unfolding lookup
can_write = record {
  controls = refl;
  fresh = refl;
  alone =
      delivery_alone one_alone (delivery_alone one_alone (delivery_alone one_alone no_deliveries));
}

returns : (inscribe env client 5 art privkey uri start).0 ≡ ok tt
unfolding inscribe network_genesis_hash genesis_of app_id sign write_output lib_ref load
    check_header Message.build_message cell_key to_bytes submit_static box_refs
    committed_pubkey_box_name controlling_owner_box_name inscription_box_name submit submit_again
    already_inscribed get_inscription read attempt attempt_read dispatch Contract.inscribe
    Contract.update_owner Contract.get_inscription Contract.build_message after_calls bytes_eq
    lookup insert
returns = refl

abbrev artifact : Bytes
artifact = b'a' ∷ []

bytes_return : (inscribe_bytes env client 5 artifact privkey uri start).0 ≡ ok art
unfolding inscribe_bytes inscribe network_genesis_hash genesis_of app_id sign write_output lib_ref
    load check_header Message.build_message cell_key to_bytes submit_static box_refs
    committed_pubkey_box_name controlling_owner_box_name inscription_box_name submit submit_again
    already_inscribed get_inscription read attempt attempt_read dispatch Contract.inscribe
    Contract.update_owner Contract.get_inscription Contract.build_message after_calls bytes_eq
    lookup insert
bytes_return = refl

reads :
    (read_back_matches env client 5 artifact false
      (inscribe_bytes env client 5 artifact privkey uri start).1).0
    ≡ ok true
unfolding read_back_matches inscribe_bytes inscribe network_genesis_hash genesis_of app_id sign
    write_output lib_ref load check_header Message.build_message cell_key to_bytes submit_static
    box_refs committed_pubkey_box_name controlling_owner_box_name inscription_box_name submit
    submit_again already_inscribed get_inscription read attempt attempt_read dispatch
    Contract.inscribe Contract.update_owner Contract.get_inscription Contract.build_message
    after_calls bytes_eq lookup insert
reads = refl

inscribed_reads_back_example : true ≡ true
inscribed_reads_back_example =
    inscribed_reads_back env client 5 artifact privkey uri art true start can_write bytes_return
      reads

-- Both attempts and the read are lost.
abbrev cut_off : World Ledger
cut_off = on_ledger opened (delivery lost ∷ delivery lost ∷ delivery lost ∷ [])

can_write_later : CanWrite deployer 5 cut_off.store
unfolding lookup
can_write_later = record {
  controls = refl;
  fresh = refl;
  alone =
      delivery_alone one_alone (delivery_alone one_alone (delivery_alone one_alone no_deliveries));
}

raises : (inscribe env client 5 art privkey uri cut_off).0 ≡ err connection_failed
unfolding inscribe network_genesis_hash genesis_of app_id sign write_output lib_ref load
    check_header Message.build_message cell_key to_bytes submit_static box_refs
    committed_pubkey_box_name controlling_owner_box_name inscription_box_name submit submit_again
    already_inscribed get_inscription read attempt attempt_read dispatch after_calls bytes_eq lookup
    insert
raises = refl
