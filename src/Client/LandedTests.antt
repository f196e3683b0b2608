-- ===== src/Client/LandedTests.antt =====
-- An inscription whose first answer is lost, and one of a cell that has another record.
use trelyan_falcon_inscripti.Prelude.{arith, ◌≡◌, refl, some, [], ◌∷◌, replicate}
use trelyan_falcon_inscripti.Prelude.Bytes.{Bytes, bytes_eq, to_bytes}
use trelyan_falcon_inscripti.Prelude.BoxMap.{lookup, insert}
use trelyan_falcon_inscripti.Prelude.Result.{ok}
use trelyan_falcon_inscripti.Message
use trelyan_falcon_inscripti.Message.{
  box_refs, cell_key, committed_pubkey_box_name, controlling_owner_box_name, inscription_box_name,
}
use trelyan_falcon_inscripti.Message.Layout.{layout}
use trelyan_falcon_inscripti.Contract
use trelyan_falcon_inscripti.Contract.{State, InscriptionRecord, update_owner_call, dispatch}
use trelyan_falcon_inscripti.Contract.Accepts.{CanInscribe, record_of}
use trelyan_falcon_inscripti.Machine.{World}
use trelyan_falcon_inscripti.Falcon.{lib_ref, load, sign, check_header}
use trelyan_falcon_inscripti.Ledger.{
  Ledger, Delivery, unconfirmed, confirmed, after_calls, arrival, own_context,
}
use trelyan_falcon_inscripti.Client.{octets, genesis_of, inscribe}
use trelyan_falcon_inscripti.Client.Landed.{
  Signs, landed_inscribe_returns, inscribe_over_record_returns,
}
use trelyan_falcon_inscripti.Seal.Tests.{art, genesis}
use trelyan_falcon_inscripti.Client.Tests.{
  deployer, bob, uri, privkey, chain, client, env, delivery, on_ledger, start,
}

abbrev sig : Bytes
sig = 0xba ∷ layout 1001 5 art genesis

abbrev first : Delivery
first = delivery unconfirmed

abbrev second : Delivery
second = delivery confirmed

signs : Signs env client 5 art privkey uri start sig
unfolding genesis_of Message.build_message cell_key to_bytes box_refs committed_pubkey_box_name
    controlling_owner_box_name inscription_box_name sign lib_ref load check_header
signs = record {
  hash_length = refl;
  field = octets genesis;
  answered = refl;
  genesis = genesis;
  decoded = refl;
  message = layout 1001 5 art genesis;
  built = refl;
  refs =
      (b'k' ∷ b'_' ∷ to_bytes 8 5)
      ∷ (b'o' ∷ b'_' ∷ to_bytes 8 5)
      ∷ (b'i' ∷ b'_' ∷ to_bytes 8 5)
      ∷ [];
  named = refl;
  signed = refl;
}

abbrev arrived : Ledger
arrived = arrival chain deployer first (second ∷ second ∷ []) start.store

can_inscribe :
    CanInscribe chain (own_context chain deployer first arrived) 5 art sig uri arrived.state
unfolding after_calls dispatch Contract.update_owner Contract.build_message bytes_eq lookup insert
    to_bytes
can_inscribe = record {
  key = (10 ∷ [], refl, refl);
  sig_fits = omega arith;
  hash_length = refl;
  uri_fits = omega arith;
  holds = refl;
  by_owner = refl;
  fresh = refl;
  paid = refl;
}

landed_inscribe_returns_example :
    ((inscribe env client 5 art privkey uri start).0 ≡ ok tt)
    × (lookup 5 (inscribe env client 5 art privkey uri start).1.store.state.inscriptions
        ≡ some (record_of (own_context chain deployer first arrived) 5 art uri))
landed_inscribe_returns_example =
    landed_inscribe_returns env client 5 art privkey uri start sig first second (second ∷ []) signs
      refl refl refl can_inscribe

-- Bob inscribed the cell long ago, with another artifact.
abbrev bobs_record : InscriptionRecord
bobs_record = record {
  version = 1;
  cell_id = 5;
  artifact_hash = replicate 32 99;
  inscribed_round = 3;
  inscriber = bob;
  payload_uri = [];
}

abbrev taken : State
taken = record {
  committed_pubkey = (5, 10 ∷ []) ∷ [];
  inscriptions = (5, bobs_record) ∷ [];
  controlling_owner = (5, bob) ∷ [];
  admin = deployer;
  cells_registered = 1;
}

abbrev late : World Ledger
late = on_ledger taken (second ∷ second ∷ [])

late-Signs : Signs env client 5 art privkey uri late sig
unfolding genesis_of Message.build_message cell_key to_bytes box_refs committed_pubkey_box_name
    controlling_owner_box_name inscription_box_name sign lib_ref load check_header
late-Signs = record {
  hash_length = refl;
  field = octets genesis;
  answered = refl;
  genesis = genesis;
  decoded = refl;
  message = layout 1001 5 art genesis;
  built = refl;
  refs =
      (b'k' ∷ b'_' ∷ to_bytes 8 5)
      ∷ (b'o' ∷ b'_' ∷ to_bytes 8 5)
      ∷ (b'i' ∷ b'_' ∷ to_bytes 8 5)
      ∷ [];
  named = refl;
  signed = refl;
}

taken_already : lookup 5 late.store.state.inscriptions ≡ some bobs_record
unfolding lookup
taken_already = refl

inscribe_over_record_returns_example :
    ((inscribe env client 5 art privkey uri late).0 ≡ ok tt)
    × (lookup 5 (inscribe env client 5 art privkey uri late).1.store.state.inscriptions
        ≡ some bobs_record)
inscribe_over_record_returns_example =
    inscribe_over_record_returns env client 5 art privkey uri late sig second second [] bobs_record
      late-Signs refl refl taken_already
