-- ===== src/Contract/Tests.antt =====
-- A concrete life of an application, and the theorems about the contract at it.
use trelyan_falcon_inscripti.Prelude.{
  ◌↔◌, ℕ, ◌+◌, ◌*◌, ◌≤◌, length, ◌≡◌, ◌≢◌, refl, true, ◌&&◌, none, some, List, [], ◌∷◌, replicate,
  arith,
}
use trelyan_falcon_inscripti.Prelude.Bytes.{Bytes, bytes_eq, bytes_eq_iff, to_bytes}
use trelyan_falcon_inscripti.Prelude.BoxMap.{lookup, insert}
use trelyan_falcon_inscripti.Prelude.Result.{ok}
use trelyan_falcon_inscripti.Message
use trelyan_falcon_inscripti.Message.{int, nonneg}
use trelyan_falcon_inscripti.Contract
use trelyan_falcon_inscripti.Contract.{
  Chain, Context, State, AssetParams, InscriptionRecord, Call, register_cell_call, inscribe_call,
  update_owner_call, get_inscription_call, init, create, dispatch, register_cell, inscribe,
  update_owner, build_message, zero_address,
}
use trelyan_falcon_inscripti.Contract.Accepts.{CanInscribe, inscribed, record_of, inscribe_exactly}
use trelyan_falcon_inscripti.Contract.Trace.{Run, here, next, call}
use trelyan_falcon_inscripti.Contract.Invariant.{IsValid, Run-IsValid}
use trelyan_falcon_inscripti.Contract.Permanence.{inscription_permanent}
use trelyan_falcon_inscripti.Contract.Authority.{inscribed_by_owner}
use trelyan_falcon_inscripti.Contract.Group.{after_group, double_inscribe_rejected}
use trelyan_falcon_inscripti.Contract.Lifecycle.{broken, phase, Life, lifecycle_refines}
use trelyan_falcon_inscripti.Contract.Storage.{HasAddresses, cell_cost, cell_cost_bounded}
use trelyan_falcon_inscripti.Contract.Signing.{
  Request, IsRequest, message_of, signed_message_agrees, inscription_authentic,
}

abbrev pub admin : Bytes
admin = replicate 32 1

abbrev pub alice : Bytes
alice = replicate 32 2

abbrev pub bob : Bytes
bob = replicate 32 3

abbrev pub key : Bytes
key = 0x0A ∷ replicate 1792 0

abbrev pub art : Bytes
art = replicate 32 7

abbrev pub sig : Bytes
sig = 0xBA ∷ 0 ∷ []

abbrev pub uri : Bytes
uri = b'i' ∷ []

abbrev pub request : Request
request = record { app_id = 1001; cell_id = 5; artifact_hash = art; genesis_hash = replicate 32 9 }

-- An opcode that accepts one message, under any key, with one signature.
abbrev pub chain : Chain
chain = record {
  app_id = 1001;
  genesis_hash = replicate 32 9;
  falcon_verify = λ m s k. bytes_eq m (message_of request) && bytes_eq s sig;
}

abbrev pub cell_asset : AssetParams
cell_asset = record {
  total = 1;
  decimals = 0;
  creator = admin;
  clawback = zero_address;
  freeze = zero_address;
  manager = zero_address;
}

-- A ledger on which everybody holds every cell.
abbrev pub at_by : ℕ → Bytes → Context
at_by round sender = record {
  sender = sender;
  round = round;
  asset_params = λ _. some cell_asset;
  asset_balance = λ _ _. (1, true);
  budget = true;
}

abbrev pub s0 : State
s0 = record {
  committed_pubkey = [];
  inscriptions = [];
  controlling_owner = [];
  admin = admin;
  cells_registered = 0;
}

abbrev pub s1 : State
s1 = record s0 {
  committed_pubkey = (5, key) ∷ [];
  controlling_owner = (5, alice) ∷ [];
  cells_registered = 1;
}

abbrev pub s2 : State
s2 = record s1 { controlling_owner = (5, bob) ∷ [] }

abbrev pub bobs_record : InscriptionRecord
bobs_record = record_of (at_by 3 bob) 5 art uri

abbrev pub s3 : State
s3 = record s2 { inscriptions = (5, bobs_record) ∷ [] }

created : create (at_by 1 admin) init ≡ s0
unfolding create
created = refl

registering : dispatch chain (at_by 1 admin) (register_cell_call 5 alice key) s0 ≡ ok s1
unfolding dispatch register_cell bytes_eq lookup insert
registering = refl

handing_over : dispatch chain (at_by 2 alice) (update_owner_call 5 bob) s1 ≡ ok s2
unfolding dispatch update_owner bytes_eq lookup insert
handing_over = refl

inscribing : dispatch chain (at_by 3 bob) (inscribe_call 5 art sig uri) s2 ≡ ok s3
unfolding dispatch inscribe bytes_eq lookup insert build_message to_bytes
inscribing = refl

run_to_s1 : Run chain (create (at_by 1 admin) init) s1
unfolding create
run_to_s1 = next here (call (at_by 1 admin) (register_cell_call 5 alice key) registering)

pub run_to_s3 : Run chain (create (at_by 1 admin) init) s3
run_to_s3 =
    next (next run_to_s1 (call (at_by 2 alice) (update_owner_call 5 bob) handing_over))
      (call (at_by 3 bob) (inscribe_call 5 art sig uri) inscribing)

-- Reading the record is an accepted call, which changes nothing.
reading : dispatch chain (at_by 4 alice) (get_inscription_call 5) s3 ≡ ok s3
unfolding dispatch Contract.get_inscription lookup
reading = refl

abbrev run_on : Run chain s3 s3
run_on = next here (call (at_by 4 alice) (get_inscription_call 5) reading)

found_record : lookup 5 s3.inscriptions ≡ some bobs_record
unfolding lookup
found_record = refl

found_owner : lookup 5 s3.controlling_owner ≡ some bob
unfolding lookup
found_owner = refl

found_key : lookup 5 s3.committed_pubkey ≡ some key
unfolding lookup
found_key = refl

inscribe_exactly_example : (inscribe chain (at_by 3 bob) 5 art sig uri s2 ≡ ok s3) ↔ (
    CanInscribe chain (at_by 3 bob) 5 art sig uri s2 × (s3 ≡ inscribed (at_by 3 bob) 5 art uri s2))
inscribe_exactly_example = inscribe_exactly chain (at_by 3 bob) 5 art sig uri s2 s3

Run-IsValid_example : IsValid chain s3
Run-IsValid_example = Run-IsValid chain (at_by 1 admin) s3 run_to_s3

inscription_permanent_example : lookup 5 s3.inscriptions ≡ some bobs_record
inscription_permanent_example = inscription_permanent chain 5 bobs_record s3 s3 run_on found_record

alice_then_bob : lookup 5 s2.controlling_owner ≢ some alice
unfolding lookup
alice_then_bob e = grind arith

alice_first : lookup 5 s1.controlling_owner ≡ some alice
unfolding lookup
alice_first = refl

not_yet : lookup 5 s2.inscriptions ≡ none
unfolding lookup
not_yet = refl

inscribed_by_owner_example :
    (h s u k : Bytes) × (inscribe_call 5 art sig uri ≡ inscribe_call 5 h s u)
    × (lookup 5 s2.controlling_owner ≡ some bob)
    × ((at_by 3 bob).asset_balance bob 5 ≡ (1, true))
    × (bobs_record ≡ record_of (at_by 3 bob) 5 h u)
    × (lookup 5 s2.committed_pubkey ≡ some k)
    × (chain.falcon_verify (build_message chain 5 h) s k ≡ true)
inscribed_by_owner_example =
    inscribed_by_owner chain (at_by 3 bob) 5 (inscribe_call 5 art sig uri) s2 s3 bobs_record
      inscribing not_yet found_record

abbrev twice : List (Context × Call)
twice =
    (at_by 2 alice, update_owner_call 5 bob)
    ∷ (at_by 3 bob, inscribe_call 5 art sig uri)
    ∷ (at_by 3 bob, get_inscription_call 5)
    ∷ (at_by 3 bob, inscribe_call 5 art sig uri)
    ∷ []

double_inscribe_rejected_example : after_group chain twice s1 ≡ s1
double_inscribe_rejected_example =
    double_inscribe_rejected chain ((at_by 2 alice, update_owner_call 5 bob) ∷ [])
      ((at_by 3 bob, get_inscription_call 5) ∷ []) [] (at_by 3 bob) (at_by 3 bob) 5 art sig uri
      (inscribe_call 5 art sig uri) s1 refl

lifecycle_refines_example : Life (phase s3 5) × (phase s3 5 ≢ broken)
lifecycle_refines_example = lifecycle_refines chain (at_by 1 admin) s3 5 run_to_s3

signed_message_agrees_example :
    Message.build_message (int (nonneg 1001)) (int (nonneg 5)) art (replicate 32 9)
    ≡ ok (build_message chain 5 art)
signed_message_agrees_example =
    signed_message_agrees chain 5 art (omega arith) (omega arith) refl refl

only_request :
    (m s : Bytes)
    → chain.falcon_verify m s key ≡ true
    → (q : Request) × (q ≡ request) × IsRequest q × (m ≡ message_of q)
only_request m s h = (
  request,
  refl,
  record { app_fits = omega arith; cell_fits = omega arith; hash_len = refl; genesis_len = refl },
  ground (arith, bytes_eq_iff m (message_of request)),
)

inscription_authentic_example :
    record {
      app_id = 1001;
      cell_id = 5;
      artifact_hash = bobs_record.artifact_hash;
      genesis_hash = replicate 32 9;
    }
    ≡ request
inscription_authentic_example =
    inscription_authentic chain (at_by 1 admin) s3 5 key bobs_record (λ q. q ≡ request) only_request
      (omega arith) (omega arith) run_to_s3 found_key found_record

addresses_of_5 : HasAddresses s3 5
unfolding lookup
addresses_of_5 = record {
  owner = λ o e. let same : bob ≡ o = cc in rw (← same) refl;
  inscriber = λ r e. let same : bobs_record ≡ r = cc in rw (← same) refl;
}

cell_cost_bounded_example :
    (cell_cost s3 5 ≤ 834_700)
    × ((r : InscriptionRecord)
        → lookup 5 s3.inscriptions ≡ some r
        → cell_cost s3 5 ≡ 783_500 + 400 * length r.payload_uri)
cell_cost_bounded_example = cell_cost_bounded chain (at_by 1 admin) s3 5 run_to_s3 addresses_of_5
