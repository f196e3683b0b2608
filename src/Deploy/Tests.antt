-- ===== src/Deploy/Tests.antt =====
-- Runs of the deployment script on a small network, and the theorems about it at them.
use trelyan_falcon_inscripti.Prelude.{ap, arith, ℕ, ◌≡◌, ◌≢◌, refl, true, none, some, List, [], ◌∷◌}
use trelyan_falcon_inscripti.Prelude.Bytes.{Bytes, bytes_eq, to_bytes}
use trelyan_falcon_inscripti.Prelude.BoxMap.{lookup, insert}
use trelyan_falcon_inscripti.Prelude.Text.{strip, lstrip, rstrip, lower, all_digits, is_one_of}
use trelyan_falcon_inscripti.Prelude.Result.{ok, err}
use trelyan_falcon_inscripti.Exceptions.{Exception, call_rejected}
use trelyan_falcon_inscripti.Message.{reference_build_message}
use trelyan_falcon_inscripti.Message.Layout.{layout}
use trelyan_falcon_inscripti.Contract
use trelyan_falcon_inscripti.Contract.{State, init, dispatch, update_owner_call}
use trelyan_falcon_inscripti.Contract.Accepts.{CanInscribe, record_of}
use trelyan_falcon_inscripti.Machine.{World, create_buffer, write_buffer}
use trelyan_falcon_inscripti.Falcon.{init_prng, keygen_call}
use trelyan_falcon_inscripti.Falcon.Reference.{
  reference_keygen, reference_load, libref, sign_compressed, verify_compressed,
}
use trelyan_falcon_inscripti.Ledger.{
  Ledger, Delivery, unconfirmed, confirmed, after_calls, arrival, own_context, attempt,
  attempt_read, attempt_asset, attempt_payment, attempt_create, submit, read, create_asset, pay,
  create_app,
}
use trelyan_falcon_inscripti.Ledger.Keeps.{IsAlone, no_deliveries, delivery_alone}
use trelyan_falcon_inscripti.Client.{octets, genesis_of}
use trelyan_falcon_inscripti.Client.Tests.{deployer, uri, chain, delivery, on_ledger, one_alone}
use trelyan_falcon_inscripti.Deploy.{
  Script, testnet_genesis_b64, demo_uri, names_mainnet, write_github_output, inscribe_with_retry,
  read_back, connect, set_up, inscribe_demo, main,
}
use trelyan_falcon_inscripti.Deploy.Retry.{blind_retry_raises}
use trelyan_falcon_inscripti.Deploy.Network.{IsForTestnet, main_only_on_testnet}
use trelyan_falcon_inscripti.Deploy.Inscribed.{HasOurs}
use trelyan_falcon_inscripti.Deploy.Run.{main_inscribes}
use trelyan_falcon_inscripti.Seal.Tests.{system, art, genesis}

abbrev script : Script
script = record {
  deployer_mnemonic = some (b'w' ∷ []);
  algorand_network = some (32 ∷ b'T' ∷ b'e' ∷ b's' ∷ b't' ∷ []);
  github_output = some (b'o' ∷ []);
  falcon_lib = b'/' ∷ [];
  system = system;
  sha512_256 = λ bytes. art;
  b64decode = λ text. none;
  b64encode = λ bytes. testnet_genesis_b64;
  from_mnemonic = λ words. some deployer;
  suggested_gh = some (octets genesis);
  decimal = λ n. b'5' ∷ [];
}

mainnet_named : names_mainnet (some (32 ∷ b'M' ∷ b'a' ∷ b'i' ∷ b'N' ∷ 10 ∷ [])) ≡ true
unfolding names_mainnet strip lstrip rstrip lower is_one_of bytes_eq
mainnet_named = refl

abbrev all_confirmed : List Delivery
all_confirmed =
    delivery confirmed
    ∷ delivery confirmed
    ∷ delivery confirmed
    ∷ delivery confirmed
    ∷ delivery confirmed
    ∷ delivery confirmed
    ∷ []

abbrev start : World Ledger
start = on_ledger init all_confirmed

alone : IsAlone deployer all_confirmed
alone = delivery_alone one_alone (
    delivery_alone one_alone (
      delivery_alone one_alone (
        delivery_alone one_alone
          (delivery_alone one_alone (delivery_alone one_alone no_deliveries)))))

returns : (main script chain start).0 ≡ ok tt
unfolding main connect names_mainnet strip lstrip rstrip lower is_one_of genesis_of bytes_eq set_up
    create_app attempt_create Contract.create after_calls dispatch Contract.update_owner
    write_github_output all_digits pay attempt_payment reference_keygen libref reference_load
    create_buffer init_prng write_buffer keygen_call create_asset attempt_asset submit attempt
    Contract.register_cell Contract.inscribe Contract.build_message inscribe_demo sign_compressed
    reference_build_message to_bytes inscribe_with_retry read_back read attempt_read
    Contract.get_inscription verify_compressed lookup insert
returns = refl

main_inscribes_example :
    (cell : ℕ) × HasOurs deployer cell art demo_uri (main script chain start).1.store.state
main_inscribes_example =
    main_inscribes script chain (b'w' ∷ []) deployer refl refl start alone returns

paid : (main script chain start).1.store.funds ≡ 1500000
unfolding main connect names_mainnet strip lstrip rstrip lower is_one_of genesis_of bytes_eq set_up
    create_app attempt_create Contract.create after_calls dispatch Contract.update_owner
    write_github_output all_digits pay attempt_payment reference_keygen libref reference_load
    create_buffer init_prng write_buffer keygen_call create_asset attempt_asset submit attempt
    Contract.register_cell Contract.inscribe Contract.build_message inscribe_demo sign_compressed
    reference_build_message to_bytes inscribe_with_retry read_back read attempt_read
    Contract.get_inscription verify_compressed lookup insert
paid = refl

not_both : {A : Type 0} (n : ℕ) → n ≡ 1500000 → n ≡ 0 → A
not_both n e h = absurd (omega arith)

changed : (main script chain start).1 ≢ start
changed e = not_both (main script chain start).1.store.funds paid (ap (λ w. w.store.funds) e)

main_only_on_testnet_example : IsForTestnet script
main_only_on_testnet_example = main_only_on_testnet script start chain changed

abbrev opened : State
opened = record {
  committed_pubkey = (5, 10 ∷ []) ∷ [];
  inscriptions = [];
  controlling_owner = (5, deployer) ∷ [];
  admin = deployer;
  cells_registered = 1;
}

abbrev half_open : World Ledger
half_open = on_ledger opened (delivery unconfirmed ∷ delivery confirmed ∷ [])

abbrev sig : Bytes
sig = 0xba ∷ layout 1001 5 art genesis

abbrev arrived : Ledger
arrived = arrival chain deployer (delivery unconfirmed) (delivery confirmed ∷ []) half_open.store

can_inscribe :
    CanInscribe chain
      (own_context chain deployer (delivery unconfirmed) arrived)
      5
      art
      sig
      uri
      arrived.state
unfolding after_calls dispatch Contract.update_owner Contract.build_message bytes_eq lookup insert
    to_bytes
can_inscribe = record {
  key = (10 ∷ [], refl, refl);
  sig_fits = omega arith;
  hash_length = refl;
  uri_fits = omega arith;
  holds = refl;
  by_owner = refl;
  fresh = refl;
  paid = refl;
}

blind_retry_raises_example :
    let after = inscribe_with_retry chain deployer 5 art sig uri half_open in
    (e : Exception) × (after.0 ≡ err e)
    × ((delivery confirmed).fate ≡ confirmed → e ≡ call_rejected)
    × (lookup 5 after.1.store.state.inscriptions
        ≡ some (record_of (own_context chain deployer (delivery unconfirmed) arrived) 5 art uri))
blind_retry_raises_example =
    blind_retry_raises chain deployer 5 art sig uri half_open (delivery unconfirmed)
      (delivery confirmed) [] refl refl can_inscribe
