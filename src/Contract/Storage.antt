-- ===== src/Contract/Storage.antt =====
-- What the boxes of the application hold as bytes: the record as the compiled contract lays it out
-- (contracts/out/TrelyanInscription.approval.teal), and what Algorand asks for the boxes of a cell.
use trelyan_falcon_inscripti.Prelude.{
  ℕ, ◌+◌, ◌*◌, ◌^◌, ◌≤◌, ◌<◌, ◌≡◌, ap, ◌∙◌, arith, Option, none, some, [], ◌∷◌, ◌++◌, length,
  get_elem?, take, drop, length-append, take-append, drop-append, drop-drop, Option-cases, inl, inr,
}
use trelyan_falcon_inscripti.Prelude.Bytes.{
  Bytes, to_bytes, from_bytes, length-to_bytes, from_bytes-to_bytes,
}
use trelyan_falcon_inscripti.Prelude.BoxMap.{lookup}
use trelyan_falcon_inscripti.Contract.{Chain, Context, State, InscriptionRecord, init, create}
use trelyan_falcon_inscripti.Contract.Invariant.{IsValid, Run-IsValid}
use trelyan_falcon_inscripti.Contract.Trace.{Run}

-- The fields of fixed size in their order, the offset of the URI, its length, and the URI.
unfoldable pub encode_record : InscriptionRecord → Bytes
encode_record r =
    to_bytes 1 r.version
    ++ (to_bytes 8 r.cell_id
        ++ (r.artifact_hash
            ++ (to_bytes 8 r.inscribed_round
                ++ (r.inscriber
                    ++ ((0x00 ∷ 0x53 ∷ [])
                        ++ (to_bytes 2 (length r.payload_uri) ++ r.payload_uri))))))

-- The record is about numbers and addresses of the widths that the AVM gives them.
pub record IsSized (r : InscriptionRecord) : Type 0 where
  pub version : r.version < 256
  pub cell_id : r.cell_id < 2 ^ 64
  pub artifact_hash : length r.artifact_hash ≡ 32
  pub inscriber : length r.inscriber ≡ 32

-- A record takes 85 bytes and its URI.
pub length-encode_record :
    (r : InscriptionRecord)
    → length r.artifact_hash ≡ 32
    → length r.inscriber ≡ 32
    → length (encode_record r) ≡ 85 + length r.payload_uri
unfolding encode_record
length-encode_record r h i = simp (length-append, length-to_bytes) (omega (arith, h, i))

-- The cut of n bytes behind a first part and in front of a last one.
pub cut_middle :
    (front middle back : Bytes) (m n : ℕ)
    → length front ≡ m
    → length middle ≡ n
    → take n (drop m (front ++ (middle ++ back))) ≡ middle
cut_middle front middle back m n hf hm =
    ap (take n) (drop-append front (middle ++ back) m hf) ∙ take-append middle back n hm

module _ (r : InscriptionRecord) (sized : IsSized r) where
  pub encoded_version : get_elem? (encode_record r) 0 ≡ some r.version
  unfolding encode_record to_bytes
  encoded_version = ap some (omega (arith, sized.version))

  pub encoded_cell_id : from_bytes (take 8 (drop 1 (encode_record r))) ≡ r.cell_id
  unfolding encode_record
  encoded_cell_id =
      ap from_bytes (
        cut_middle (to_bytes 1 r.version) (to_bytes 8 r.cell_id) _ 1 8 (length-to_bytes 1 r.version)
          (length-to_bytes 8 r.cell_id))
      ∙ from_bytes-to_bytes 8 r.cell_id (omega (arith, sized.cell_id))

  pub encoded_artifact_hash : take 32 (drop 9 (encode_record r)) ≡ r.artifact_hash
  unfolding encode_record
  encoded_artifact_hash =
      ap (take 32) (
        drop-drop 8 1 (encode_record r)
        ∙ ap (drop 8) (drop-append (to_bytes 1 r.version) _ 1 (length-to_bytes 1 r.version)))
      ∙ cut_middle (to_bytes 8 r.cell_id) r.artifact_hash _ 8 32 (length-to_bytes 8 r.cell_id)
          sized.artifact_hash

-- What Algorand asks for a box, in microAlgos, by the length of its value; a name has 10 bytes.
abbrev pub box_cost : Option ℕ → ℕ
box_cost none = 0
box_cost (some value) = 2500 + 400 * (10 + value)

abbrev pub size_of : Option Bytes → Option ℕ
size_of none = none
size_of (some value) = some (length value)

abbrev pub record_size : Option InscriptionRecord → Option ℕ
record_size none = none
record_size (some r) = some (length (encode_record r))

-- The three boxes of a cell.
unfoldable pub cell_cost : State → ℕ → ℕ
cell_cost s cid =
    box_cost (size_of (lookup cid s.committed_pubkey))
    + (box_cost (size_of (lookup cid s.controlling_owner))
        + box_cost (record_size (lookup cid s.inscriptions)))

-- The addresses in the boxes of a cell have 32 bytes.
pub record HasAddresses (s : State) (cid : ℕ) : Type 0 where
  pub owner : (o : Bytes) → lookup cid s.controlling_owner ≡ some o → length o ≡ 32
  pub inscriber :
      (r : InscriptionRecord) → lookup cid s.inscriptions ≡ some r → length r.inscriber ≡ 32

module _ (chain : Chain) (s : State) (cid : ℕ) (v : IsValid chain s) (a : HasAddresses s cid) where
  key_cost : box_cost (size_of (lookup cid s.committed_pubkey)) ≤ 723_700
  key_cost = elim (Option-cases (lookup cid s.committed_pubkey)) [
    | inl e ↦ rw e (omega arith)
    | inr (k, e) ↦ let fits = (v.keys cid k e).0 in rw (e, fits) (omega arith)
  ]

  owner_cost : box_cost (size_of (lookup cid s.controlling_owner)) ≤ 19_300
  owner_cost = elim (Option-cases (lookup cid s.controlling_owner)) [
    | inl e ↦ rw e (omega arith)
    | inr (o, e) ↦ let fits = a.owner o e in rw (e, fits) (omega arith)
  ]

  record_cost : box_cost (record_size (lookup cid s.inscriptions)) ≤ 91_700
  record_cost = elim (Option-cases (lookup cid s.inscriptions)) [
    | inl e ↦ rw e (omega arith)
    | inr (r, e) ↦
        let w = v.verifiable cid r e in
        let fits = w.uri_fits in
        let size = length-encode_record r w.hash_length (a.inscriber r e) in
        rw (e, size) (omega (arith, fits))
  ]

  cell_cost-le : cell_cost s cid ≤ 834_700
  unfolding cell_cost
  cell_cost-le = omega (arith, key_cost, owner_cost, record_cost)

  owner_there :
      (k : Bytes)
      → lookup cid s.committed_pubkey ≡ some k
      → (o : Bytes) × (lookup cid s.controlling_owner ≡ some o)
  owner_there k e = elim (Option-cases (lookup cid s.controlling_owner)) [
    | inl f ↦ absurd (ground (arith, v.owned cid, e, f))
    | inr found ↦ found
  ]

  cost_of_inscribed :
      (r : InscriptionRecord)
      → lookup cid s.inscriptions ≡ some r
      → cell_cost s cid ≡ 783_500 + 400 * length r.payload_uri
  unfolding cell_cost
  cost_of_inscribed r e =
      let w = v.verifiable cid r e in
      let (k, sig, found, fits, accepted) = w.signature in
      let (o, held) = owner_there k found in
      let key_size = (v.keys cid k found).0 in
      let owner_size = a.owner o held in
      let size = length-encode_record r w.hash_length (a.inscriber r e) in
      rw (found, held, e, key_size, owner_size, size) (omega arith)

-- After any run from the creation, the key, owner and record boxes of a cell whose addresses have 32
-- bytes together ask for at most 834700 microAlgos, and for exactly 783500 and 400 more for each
-- byte of the URI once the cell is inscribed.
pub cell_cost_bounded :
    (chain : Chain) (ctx : Context) (s : State) (cid : ℕ)
    → Run chain (create ctx init) s
    → HasAddresses s cid
    → (cell_cost s cid ≤ 834_700)
      × ((r : InscriptionRecord)
          → lookup cid s.inscriptions ≡ some r
          → cell_cost s cid ≡ 783_500 + 400 * length r.payload_uri)
cell_cost_bounded chain ctx s cid run a =
    let v = Run-IsValid chain ctx s run in
    (cell_cost-le chain s cid v a, cost_of_inscribed chain s cid v a)
