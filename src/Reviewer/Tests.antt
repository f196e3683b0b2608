-- ===== src/Reviewer/Tests.antt =====
-- The script at a node that serves the boxes of a small application.
use trelyan_falcon_inscripti.Prelude.{
  ◌≡◌, ◌≢◌, ◌↔◌, refl, arith, true, none, some, [], ◌∷◌, ◌++◌, drop, if◌then◌else◌,
}
use trelyan_falcon_inscripti.Prelude.Bytes.{Bytes, bytes_eq, to_bytes, from_bytes}
use trelyan_falcon_inscripti.Prelude.BoxMap.{lookup}
use trelyan_falcon_inscripti.Message.{key_prefix_pubkey, key_prefix_inscription}
use trelyan_falcon_inscripti.Prelude.BoxMap.{insert}
use trelyan_falcon_inscripti.Prelude.Result.{ok}
use trelyan_falcon_inscripti.Contract.{
  Chain, create, init, dispatch, register_cell, update_owner, inscribe, build_message,
  register_cell_call, update_owner_call, inscribe_call,
}
use trelyan_falcon_inscripti.Contract.Trace.{Run, here, next, call}
use trelyan_falcon_inscripti.Contract.Storage.{encode_record}
use trelyan_falcon_inscripti.Contract.Tests.{
  alice, bob, sig, uri, s0, s1, s2, chain, s3, bobs_record, at_by, admin, key, art, run_to_s3,
}
use trelyan_falcon_inscripti.Reviewer.{
  App, Outside, app_id, testnet_genesis, golden_input, golden_digest, pinned_on_chain, with_prefix,
  check_record, start, is_release, exit_code,
}
use trelyan_falcon_inscripti.Reviewer.Parts.{IsLive}
use trelyan_falcon_inscripti.Reviewer.Package.{IsGolden}
use trelyan_falcon_inscripti.Reviewer.Boxes.{HasKeys, IsTold}
use trelyan_falcon_inscripti.Reviewer.Exit.{IsConfirmed, exit_0_exactly, no_record_exits_0}
use trelyan_falcon_inscripti.Reviewer.Honest.{
  Serves, IsServedKey, IsServedRecord, boxes_never_fail, rebuilt_message_is_signed,
}

abbrev key_name : Bytes
key_name = key_prefix_pubkey ++ (0 ∷ 0 ∷ 0 ∷ 0 ∷ 0 ∷ 0 ∷ 0 ∷ 5 ∷ [])

abbrev record_name : Bytes
record_name = key_prefix_inscription ++ (0 ∷ 0 ∷ 0 ∷ 0 ∷ 0 ∷ 0 ∷ 0 ∷ 5 ∷ [])

abbrev app : App
app = record { id = some app_id; approval_program = some (0x0B ∷ []) }

-- A node with the boxes of `s3`, and a hash that gives the two digests that the script expects.
abbrev node : Outside
node = record {
  version = b'0' ∷ [];
  sha512_256 = λ s. if bytes_eq s golden_input then golden_digest else pinned_on_chain;
  app = some app;
  compile = λ teal. some (0x0B ∷ []);
  boxes = some (key_name ∷ record_name ∷ []);
  box = λ name.
      if bytes_eq name key_name
      then some key
      else (if bytes_eq name record_name then some (encode_record bobs_record) else none);
  committed_teal = some (b'#' ∷ []);
  load_error = none;
}

-- The same node before any inscription.
abbrev young : Outside
young = record node { boxes = some (key_name ∷ []) }

released : is_release node.version ≡ true
unfolding is_release bytes_eq
released = refl

golden : IsGolden node
unfolding bytes_eq
golden = record { digest = refl; size = refl }

live : IsLive node
unfolding bytes_eq
live = record {
  app = app;
  found = refl;
  same_id = refl;
  program = 0x0B ∷ [];
  running = refl;
  nonempty = λ z. cc;
  pinned = refl;
  teal = b'#' ∷ [];
  is_there = refl;
  built = 0x0B ∷ [];
  assembled = refl;
  same_program = refl;
}

served_key : IsServedKey node s3 key_name
unfolding bytes_eq lookup
served_key = record { cid = 5; key = key; held = refl; served = refl }

served_record : IsServedRecord node s3 record_name
unfolding bytes_eq lookup to_bytes
served_record = record {
  cid = 5;
  named = refl;
  fits = omega arith;
  inscription = bobs_record;
  held = refl;
  address = refl;
  served = refl;
}

serves : Serves node s3
unfolding with_prefix bytes_eq
serves = record {
  names = key_name ∷ record_name ∷ [];
  listed = refl;
  key_boxes = (served_key, tt);
  record_boxes = (served_record, tt);
}

abbrev Others : Outside → Type 0
Others outside =
    (is_release outside.version ≡ true)
    × IsGolden outside
    × IsLive outside
    × IsTold outside.load_error

key_listed : with_prefix key_prefix_pubkey (key_name ∷ record_name ∷ []) ≢ []
unfolding with_prefix bytes_eq
key_listed = λ z. cc

boxes_never_fail_example : (exit_code node ≡ 0) ↔ Others node
unfolding serves
boxes_never_fail_example =
    boxes_never_fail chain (at_by 1 admin) s3 node serves run_to_s3 key_listed

exits_0 : exit_code node ≡ 0
unfolding serves
exits_0 =
    (boxes_never_fail chain (at_by 1 admin) s3 node serves run_to_s3 key_listed).1
      (released, golden, live, tt)

exit_0_exactly_example : (exit_code node ≡ 0) ↔ IsConfirmed node
exit_0_exactly_example = exit_0_exactly node

young_boxes : HasKeys young []
unfolding with_prefix bytes_eq
young_boxes = record {
  names = key_name ∷ [];
  listed = refl;
  registered = λ z. cc;
  keys = (record { value = key; served = refl; size = refl; header = refl }, tt);
  records = refl;
}

young_golden : IsGolden young
unfolding bytes_eq
young_golden = record { digest = refl; size = refl }

young_live : IsLive young
unfolding bytes_eq
young_live = record {
  app = app;
  found = refl;
  same_id = refl;
  program = 0x0B ∷ [];
  running = refl;
  nonempty = λ z. cc;
  pinned = refl;
  teal = b'#' ∷ [];
  is_there = refl;
  built = 0x0B ∷ [];
  assembled = refl;
  same_program = refl;
}

young_exits_0 : exit_code young ≡ 0
young_exits_0 = no_record_exits_0 young released young_golden young_live young_boxes tt

-- An application on TestNet, with an opcode that accepts one signature.
abbrev live_chain : Chain
live_chain = record {
  app_id = app_id;
  genesis_hash = testnet_genesis;
  falcon_verify = λ m s k. bytes_eq s sig;
}

live_registering : dispatch live_chain (at_by 1 admin) (register_cell_call 5 alice key) s0 ≡ ok s1
unfolding dispatch register_cell bytes_eq lookup insert
live_registering = refl

live_handing_over : dispatch live_chain (at_by 2 alice) (update_owner_call 5 bob) s1 ≡ ok s2
unfolding dispatch update_owner bytes_eq lookup insert
live_handing_over = refl

live_inscribing : dispatch live_chain (at_by 3 bob) (inscribe_call 5 art sig uri) s2 ≡ ok s3
unfolding dispatch inscribe bytes_eq lookup insert build_message to_bytes
live_inscribing = refl

live_run : Run live_chain (create (at_by 1 admin) init) s3
unfolding create
live_run =
    next
      (next (next here (call (at_by 1 admin) (register_cell_call 5 alice key) live_registering))
        (call (at_by 2 alice) (update_owner_call 5 bob) live_handing_over))
      (call (at_by 3 bob) (inscribe_call 5 art sig uri) live_inscribing)

rebuilt_message_is_signed_example :
    (m k signature : Bytes) × ((check_record node (record_name ∷ []) start).0 ≡ ok (some m))
    × (lookup (from_bytes (drop 2 record_name)) s3.committed_pubkey ≡ some k)
    × (live_chain.falcon_verify m signature k ≡ true)
rebuilt_message_is_signed_example =
    rebuilt_message_is_signed live_chain (at_by 1 admin) s3 node record_name [] start live_run refl
      refl served_record
