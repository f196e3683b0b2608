-- ===== src/Examples/Tests.antt =====
-- Runs of the two examples on a small network, and the theorem about them.
use trelyan_falcon_inscripti.Prelude.{ℕ, ◌≡◌, refl, some, List, [], ◌∷◌}
use trelyan_falcon_inscripti.Prelude.Bytes.{bytes_eq, to_bytes}
use trelyan_falcon_inscripti.Prelude.BoxMap.{lookup, insert}
use trelyan_falcon_inscripti.Prelude.Result.{ok, err}
use trelyan_falcon_inscripti.Exceptions.{no_mnemonic}
use trelyan_falcon_inscripti.Message.{
  build_message, box_refs, cell_key, committed_pubkey_box_name, controlling_owner_box_name,
  inscription_box_name,
}
use trelyan_falcon_inscripti.Contract
use trelyan_falcon_inscripti.Contract.{init, dispatch}
use trelyan_falcon_inscripti.Machine.{World, create_buffer, write_buffer}
use trelyan_falcon_inscripti.Falcon.{
  new, init_prng, keygen_call, lib_ref, load, keygen, sign, check_header,
}
use trelyan_falcon_inscripti.Ledger.{
  Ledger, Delivery, confirmed, after_calls, attempt, attempt_read, attempt_asset, attempt_payment,
  attempt_create, submit, read, create_asset, pay, create_app,
}
use trelyan_falcon_inscripti.Ledger.Keeps.{IsAlone, no_deliveries, delivery_alone}
use trelyan_falcon_inscripti.Client.{
  genesis_of, app_id, network_genesis_hash, new_client, deploy_testnet, fund_app, mint_cell,
  register_cell, get_inscription, submit_static, inscribe, inscribe_bytes, read_back_matches,
}
use trelyan_falcon_inscripti.Client.Tests.{env, deployer, chain, delivery, on_ledger, one_alone}
use trelyan_falcon_inscripti.Deploy.Inscribed.{HasOurs}
use trelyan_falcon_inscripti.Examples.{
  Setting, quickstart_with, quickstart, interop_with, interop, quickstart_py, interop_py, main,
  interop_uri,
}
use trelyan_falcon_inscripti.Examples.Written.{example_inscribes}
use trelyan_falcon_inscripti.Seal.Tests.{art}

abbrev setting : Setting
setting = record {
  env = record env { default_lib_path = b'/' ∷ [] };
  deployer_mnemonic = some (b'w' ∷ []);
  falcon_account = some (7 ∷ []);
}

abbrev all_confirmed : List Delivery
all_confirmed =
    delivery confirmed
    ∷ delivery confirmed
    ∷ delivery confirmed
    ∷ delivery confirmed
    ∷ delivery confirmed
    ∷ delivery confirmed
    ∷ []

abbrev start : World Ledger
start = on_ledger init all_confirmed

alone : IsAlone deployer all_confirmed
alone = delivery_alone one_alone (
    delivery_alone one_alone (
      delivery_alone one_alone (
        delivery_alone one_alone
          (delivery_alone one_alone (delivery_alone one_alone no_deliveries)))))

quickstart_returns : (main setting quickstart_py chain start).0 ≡ ok tt
unfolding quickstart quickstart_with deploy_testnet new_client new fund_app mint_cell register_cell
    inscribe_bytes inscribe network_genesis_hash genesis_of app_id read_back_matches get_inscription
    submit_static box_refs cell_key committed_pubkey_box_name controlling_owner_box_name
    inscription_box_name create_app attempt_create Contract.create after_calls dispatch
    Contract.update_owner pay attempt_payment keygen lib_ref load create_buffer init_prng
    write_buffer keygen_call create_asset attempt_asset submit attempt Contract.register_cell
    Contract.inscribe Contract.build_message build_message to_bytes sign check_header read
    attempt_read Contract.get_inscription bytes_eq lookup insert
quickstart_returns = refl

interop_returns : (main setting interop_py chain start).0 ≡ ok tt
unfolding interop interop_with deploy_testnet new_client new fund_app mint_cell register_cell
    inscribe network_genesis_hash genesis_of app_id read_back_matches get_inscription submit_static
    box_refs cell_key committed_pubkey_box_name controlling_owner_box_name inscription_box_name
    create_app attempt_create Contract.create after_calls dispatch Contract.update_owner pay
    attempt_payment keygen lib_ref load create_buffer init_prng write_buffer keygen_call
    create_asset attempt_asset submit attempt Contract.register_cell Contract.inscribe
    Contract.build_message build_message to_bytes sign check_header read attempt_read
    Contract.get_inscription bytes_eq lookup insert
interop_returns = refl

without_mnemonic :
    (main (record setting { deployer_mnemonic = some [] }) quickstart_py chain start).0
    ≡ err no_mnemonic
unfolding quickstart
without_mnemonic = refl

example_inscribes_example :
    (cell : ℕ) × HasOurs deployer cell art interop_uri
      (main setting interop_py chain start).1.store.state
example_inscribes_example =
    example_inscribes setting chain (b'w' ∷ []) deployer refl refl interop_py start alone
      interop_returns
