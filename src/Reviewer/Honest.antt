-- ===== src/Reviewer/Honest.antt =====
-- The script at a node that serves the boxes of the contract: the parts of the run about the boxes find
-- nothing wrong.
use trelyan_falcon_inscripti.Prelude.{
  ℕ, ◌^◌, ◌<◌, ◌≡◌, ◌≢◌, ◌↔◌, refl, sym, ap, ◌∙◌, arith, true, some, List, [], ◌∷◌, ◌++◌, length,
  take, drop, zero, suc,
}
use trelyan_falcon_inscripti.Prelude.Bytes.{Bytes, All, from_bytes, to_bytes, from_bytes-to_bytes}
use trelyan_falcon_inscripti.Prelude.BoxMap.{lookup}
use trelyan_falcon_inscripti.Message.{key_prefix_pubkey, key_prefix_inscription}
use trelyan_falcon_inscripti.Message.Layout.{layout}
use trelyan_falcon_inscripti.Prelude.Result.{ok}
use trelyan_falcon_inscripti.Contract
use trelyan_falcon_inscripti.Contract.{Chain, Context, State, InscriptionRecord, init, create}
use trelyan_falcon_inscripti.Contract.Trace.{Run}
use trelyan_falcon_inscripti.Contract.Invariant.{IsValid, Run-IsValid}
use trelyan_falcon_inscripti.Contract.Storage.{
  encode_record, IsSized, length-encode_record, encoded_version, encoded_cell_id,
  encoded_artifact_hash,
}
use trelyan_falcon_inscripti.Reviewer.{
  Outside, app_id, testnet_genesis, with_prefix, is_release, exit_code, Tally, recorded_hash,
  check_record,
}
use trelyan_falcon_inscripti.Reviewer.Parts.{IsLive, IsKeyBox, IsRecordBox}
use trelyan_falcon_inscripti.Reviewer.Package.{IsGolden}
use trelyan_falcon_inscripti.Reviewer.Boxes.{HasKeys, HasRecord, IsTold, Clean-check_record}
use trelyan_falcon_inscripti.Reviewer.Exit.{exit_0_exactly}

module _ (outside : Outside) (s : State) where
  -- The box of that name is the key box of a cell.
  pub record IsServedKey (name : Bytes) : Type 0 where
    pub cid : ℕ
    pub key : Bytes
    pub held : lookup cid s.committed_pubkey ≡ some key
    pub served : outside.box name ≡ some key

  -- The box of that name is the record box of a cell, as the compiled contract writes it.
  pub record IsServedRecord (name : Bytes) : Type 0 where
    pub cid : ℕ
    pub named : name ≡ key_prefix_inscription ++ to_bytes 8 cid
    pub fits : cid < 2 ^ 64
    pub inscription : InscriptionRecord
    pub held : lookup cid s.inscriptions ≡ some inscription
    pub address : length inscription.inscriber ≡ 32
    pub served : outside.box name ≡ some (encode_record inscription)

  -- What a node does that serves the boxes of the state.
  pub record Serves : Type 0 where
    pub names : List Bytes
    pub listed : outside.boxes ≡ some names
    pub key_boxes : All IsServedKey (with_prefix key_prefix_pubkey names)
    pub record_boxes : All IsServedRecord (with_prefix key_prefix_inscription names)

  name_cell : (name : Bytes) (b : IsServedRecord name) → from_bytes (drop 2 name) ≡ b.cid
  name_cell name b = rw b.named (from_bytes-to_bytes 8 b.cid (omega (arith, b.fits)))

  module _ (chain : Chain) (v : IsValid chain s) where
    keys_of :
        (n : ℕ) (names : List Bytes) → All IsServedKey names → All (IsKeyBox outside) (take n names)
    keys_of zero names a = tt
    keys_of (suc n) [] a = tt
    keys_of (suc n) (name ∷ names) a =
        let k = a.0 in
        let f = v.keys k.cid k.key k.held in
        (record { value = k.key; served = k.served; size = f.0; header = f.1 }, keys_of n names a.1)

    box-IsSized : (name : Bytes) (b : IsServedRecord name) → IsSized b.inscription
    box-IsSized name b =
        let w = v.verifiable b.cid b.inscription b.held in
        let same = w.cell_matches in
        let is_1 = w.version_is_1 in
        record {
          version = rw is_1 (omega arith);
          cell_id = rw same b.fits;
          artifact_hash = w.hash_length;
          inscriber = b.address;
        }

    record_of_box : (name : Bytes) → IsServedRecord name → IsRecordBox outside name
    record_of_box name b =
        let w = v.verifiable b.cid b.inscription b.held in
        let r = b.inscription in
        let same = w.cell_matches in
        let is_1 = w.version_is_1 in
        let sized = box-IsSized name b in
        let in_name = name_cell name b in
        record {
          value = encode_record r;
          served = b.served;
          size = omega (arith, length-encode_record r w.hash_length b.address);
          version = encoded_version r sized ∙ ap some is_1;
          cell = encoded_cell_id r sized ∙ same ∙ sym in_name;
          fits = rw in_name b.fits;
        }

    first_record : (names : List Bytes) → All IsServedRecord names → HasRecord outside names
    first_record [] a = tt
    first_record (name ∷ names) a = record_of_box name a.0

    boxes_of :
        (h : Serves)
        → with_prefix key_prefix_pubkey h.names ≢ []
        → HasKeys outside (with_prefix key_prefix_inscription h.names)
    boxes_of h n = record {
      names = h.names;
      listed = h.listed;
      registered = n;
      keys = keys_of 3 (with_prefix key_prefix_pubkey h.names) h.key_boxes;
      records = refl;
    }

-- At a node that serves the boxes of a state that the contract reaches from its creation, with a key box
-- among them, the script exits with 0 exactly if its other parts hold: the package is a release, the
-- golden values are right, the live application serves a program with the pinned hash and with the hash
-- of what the committed TEAL assembles to, and loading the signer works or tells why it does not.
pub boxes_never_fail :
    (chain : Chain) (ctx : Context) (s : State) (outside : Outside) (h : Serves outside s)
    → Run chain (create ctx init) s
    → with_prefix key_prefix_pubkey h.names ≢ []
    → (exit_code outside ≡ 0) ↔ (
        (is_release outside.version ≡ true)
        × IsGolden outside
        × IsLive outside
        × IsTold outside.load_error)
boxes_never_fail chain ctx s outside h run n = (
  λ e. let c = (exit_0_exactly outside).0 e in (c.released, c.golden, c.live, c.told),
  λ (released, golden, live, told).
      let v = Run-IsValid chain ctx s run in
      (exit_0_exactly outside).1 (record {
        released = released;
        golden = golden;
        live = live;
        records = with_prefix key_prefix_inscription h.names;
        boxes = boxes_of outside s chain v h n;
        first_record =
            first_record outside s chain v (with_prefix key_prefix_inscription h.names)
              h.record_boxes;
        told = told;
      }),
)

module _ (chain : Chain) (s : State) (outside : Outside) (v : IsValid chain s)
    (here : chain.app_id ≡ app_id) (net : chain.genesis_hash ≡ testnet_genesis) (name : Bytes)
    (b : IsServedRecord outside s name) where
  layout_of_record :
      layout app_id
        (from_bytes (drop 2 name))
        (recorded_hash (encode_record b.inscription))
        testnet_genesis
      ≡ Contract.build_message chain b.cid b.inscription.artifact_hash
  unfolding Contract.build_message
  layout_of_record = rw (
    encoded_artifact_hash b.inscription (box-IsSized outside s chain v name b),
    name_cell outside s name b,
    here,
    net,
  )

-- At a node that serves the boxes of a state that the contract reaches, with the application and the
-- network of the script, section [5] run on a list of record boxes raises nothing, and the message M_live
-- that it leaves is one for which falcon_verify has accepted a signature under the key of the cell that the
-- first box is about.
pub rebuilt_message_is_signed :
    (chain : Chain) (ctx : Context) (s : State) (outside : Outside) (name : Bytes)
    (names : List Bytes) (t : Tally)
    → Run chain (create ctx init) s
    → chain.app_id ≡ app_id
    → chain.genesis_hash ≡ testnet_genesis
    → IsServedRecord outside s name
    → (m key sig : Bytes) × ((check_record outside (name ∷ names) t).0 ≡ ok (some m))
      × (lookup (from_bytes (drop 2 name)) s.committed_pubkey ≡ some key)
      × (chain.falcon_verify m sig key ≡ true)
unfolding record_of_box
rebuilt_message_is_signed chain ctx s outside name names t run here net b =
    let v = Run-IsValid chain ctx s run in
    let w = v.verifiable b.cid b.inscription b.held in
    let (key, sig, found, fits, accepted) = w.signature in
    let section =
      Clean-check_record outside (name ∷ names) (record_of_box outside s chain v name b) t in
    (
      Contract.build_message chain b.cid b.inscription.artifact_hash,
      key,
      sig,
      section.returns ∙ ap (λ m. ok (some m)) (layout_of_record chain s outside v here net name b),
      rw (name_cell outside s name b) found,
      accepted,
    )
