-- ===== src/Contract/Accepts.antt =====
-- When each method accepts, and the state that it then leaves.
use trelyan_falcon_inscripti.Prelude.{
  ℕ, ◌+◌, ◌≤◌, ◌<◌, ◌≡◌, ◌≢◌, ◌↔◌, inl, inr, true, none, some, length, get_elem?, arith,
  Option-cases,
}
use trelyan_falcon_inscripti.Prelude.Bytes.{Bytes, bytes_eq_iff}
use trelyan_falcon_inscripti.Prelude.BoxMap.{lookup, insert}
use trelyan_falcon_inscripti.Prelude.Result.{ok}
use trelyan_falcon_inscripti.Contract.{
  AssetParams, Chain, Context, State, InscriptionRecord, zero_address, register_cell, inscribe,
  update_owner, build_message,
}

-- An asset that can be a cell: a pure NFT of the admin that nobody can seize, freeze or reconfigure.
pub record IsCellAsset (admin : Bytes) (p : AssetParams) : Type 0 where
  pub total : p.total ≡ 1
  pub decimals : p.decimals ≡ 0
  pub creator : p.creator ≡ admin
  pub clawback : p.clawback ≡ zero_address
  pub freeze : p.freeze ≡ zero_address
  pub manager : p.manager ≡ zero_address

pub record CanRegister (ctx : Context) (cid : ℕ) (owner key : Bytes) (s : State) : Type 0 where
  pub by_admin : ctx.sender ≡ s.admin
  pub asset : (p : AssetParams) × (ctx.asset_params cid ≡ some p) × IsCellAsset s.admin p
  pub key_length : length key ≡ 1793
  pub key_header : get_elem? key 0 ≡ some 0x0A
  pub room : s.cells_registered < 1024
  pub owner_nonzero : owner ≢ zero_address
  pub new_key : lookup cid s.committed_pubkey ≡ none
  pub new_owner : lookup cid s.controlling_owner ≡ none

abbrev pub registered : ℕ → Bytes → Bytes → State → State
registered cid owner key s = record s {
  committed_pubkey = insert cid key s.committed_pubkey;
  controlling_owner = insert cid owner s.controlling_owner;
  cells_registered = s.cells_registered + 1;
}

module _ (ctx : Context) (cid : ℕ) (owner key : Bytes) (s : State) where
  register_cell-ok :
      (t : State)
      → register_cell ctx cid owner key s ≡ ok t
      → CanRegister ctx cid owner key s × (t ≡ registered cid owner key s)
  unfolding register_cell
  register_cell-ok t e = elim (Option-cases (ctx.asset_params cid)) [
    | inl missing ↦ absurd (ground arith)
    | inr (p, found) ↦ (
      record {
        by_admin = ground (arith, bytes_eq_iff ctx.sender s.admin);
        asset = (
          p,
          found,
          record {
            total = ground arith;
            decimals = ground arith;
            creator = ground (arith, bytes_eq_iff p.creator s.admin);
            clawback = ground (arith, bytes_eq_iff p.clawback zero_address);
            freeze = ground (arith, bytes_eq_iff p.freeze zero_address);
            manager = ground (arith, bytes_eq_iff p.manager zero_address);
          },
        );
        key_length = ground arith;
        key_header = ground arith;
        room = ground arith;
        owner_nonzero = ground (arith, bytes_eq_iff owner zero_address);
        new_key = ground arith;
        new_owner = ground arith;
      },
      ground arith,
    )
  ]

  register_cell_accepts :
      CanRegister ctx cid owner key s
      → register_cell ctx cid owner key s ≡ ok (registered cid owner key s)
  unfolding register_cell
  register_cell_accepts h =
      let (p, found, a) = h.asset in
      ground (
        arith,
        h.by_admin,
        found,
        a.total,
        a.decimals,
        a.creator,
        a.clawback,
        a.freeze,
        a.manager,
        h.key_length,
        h.key_header,
        h.room,
        h.owner_nonzero,
        h.new_key,
        h.new_owner,
        bytes_eq_iff ctx.sender s.admin,
        bytes_eq_iff p.creator s.admin,
        bytes_eq_iff p.clawback zero_address,
        bytes_eq_iff p.freeze zero_address,
        bytes_eq_iff p.manager zero_address,
        bytes_eq_iff owner zero_address,
      )

  -- `register_cell` accepts exactly when the caller is the admin, the cell is an asset of the admin that
  -- is a pure NFT with no clawback, freeze or manager, the key has 1793 bytes and begins with 0x0A, fewer
  -- than 1024 cells are registered, the owner is not the zero address and the cell has no key and no
  -- owner yet; it then writes the key and the owner, counts the cell and changes nothing else.
  pub register_cell_exactly :
      (t : State)
      → (register_cell ctx cid owner key s ≡ ok t)
        ↔ (CanRegister ctx cid owner key s × (t ≡ registered cid owner key s))
  register_cell_exactly t = (register_cell-ok t, λ (h, e). rw e (register_cell_accepts h))

pub record CanInscribe (chain : Chain) (ctx : Context) (cid : ℕ) (hash sig uri : Bytes) (s : State)
    : Type 0 where
  pub key :
      (k : Bytes) × (lookup cid s.committed_pubkey ≡ some k)
      × (chain.falcon_verify (build_message chain cid hash) sig k ≡ true)
  pub sig_fits : length sig ≤ 1423
  pub hash_length : length hash ≡ 32
  pub uri_fits : length uri ≤ 128
  pub holds : ctx.asset_balance ctx.sender cid ≡ (1, true)
  pub by_owner : lookup cid s.controlling_owner ≡ some ctx.sender
  pub fresh : lookup cid s.inscriptions ≡ none
  pub paid : ctx.budget ≡ true

abbrev pub record_of : Context → ℕ → Bytes → Bytes → InscriptionRecord
record_of ctx cid hash uri = record {
  version = 1;
  cell_id = cid;
  artifact_hash = hash;
  inscribed_round = ctx.round;
  inscriber = ctx.sender;
  payload_uri = uri;
}

abbrev pub inscribed : Context → ℕ → Bytes → Bytes → State → State
inscribed ctx cid hash uri s = record s {
  inscriptions = insert cid (record_of ctx cid hash uri) s.inscriptions;
}

module _ (chain : Chain) (ctx : Context) (cid : ℕ) (hash sig uri : Bytes) (s : State) where
  inscribe-ok :
      (t : State)
      → inscribe chain ctx cid hash sig uri s ≡ ok t
      → CanInscribe chain ctx cid hash sig uri s × (t ≡ inscribed ctx cid hash uri s)
  unfolding inscribe
  inscribe-ok t e = elim (Option-cases (lookup cid s.committed_pubkey)) [
    | inl missing ↦ absurd (ground arith)
    | inr (k, found) ↦ elim (Option-cases (lookup cid s.controlling_owner)) [
      | inl missing ↦ absurd (ground arith)
      | inr (o, owned) ↦ (
        record {
          key = (k, found, ground arith);
          sig_fits = ground arith;
          hash_length = ground arith;
          uri_fits = ground arith;
          holds = ground arith;
          by_owner = ground (arith, bytes_eq_iff o ctx.sender);
          fresh = ground arith;
          paid = ground arith;
        },
        ground arith,
      )
    ]
  ]

  inscribe_accepts :
      CanInscribe chain ctx cid hash sig uri s
      → inscribe chain ctx cid hash sig uri s ≡ ok (inscribed ctx cid hash uri s)
  unfolding inscribe
  inscribe_accepts h =
      let (k, found, verified) = h.key in
      ground (
        arith,
        found,
        verified,
        h.sig_fits,
        h.hash_length,
        h.uri_fits,
        h.holds,
        h.by_owner,
        h.fresh,
        h.paid,
        bytes_eq_iff ctx.sender ctx.sender,
      )

  -- `inscribe` accepts exactly when the cell has a committed key under which falcon_verify accepts the
  -- signature over the message of this application, network, cell and hash; the signature has at most
  -- 1423 bytes, the hash 32 and the URI at most 128; the caller holds exactly one unit of the cell asset
  -- and is its recorded controlling owner; the cell has no inscription yet; and the budget is paid. It
  -- then writes the record of this cell and changes nothing else.
  pub inscribe_exactly :
      (t : State)
      → (inscribe chain ctx cid hash sig uri s ≡ ok t)
        ↔ (CanInscribe chain ctx cid hash sig uri s × (t ≡ inscribed ctx cid hash uri s))
  inscribe_exactly t = (inscribe-ok t, λ (h, e). rw e (inscribe_accepts h))

pub record CanUpdateOwner (ctx : Context) (cid : ℕ) (owner : Bytes) (s : State) : Type 0 where
  pub by_owner : lookup cid s.controlling_owner ≡ some ctx.sender
  pub fresh : lookup cid s.inscriptions ≡ none
  pub holds : ctx.asset_balance ctx.sender cid ≡ (1, true)
  pub owner_nonzero : owner ≢ zero_address

abbrev pub reassigned : ℕ → Bytes → State → State
reassigned cid owner s = record s { controlling_owner = insert cid owner s.controlling_owner }

module _ (ctx : Context) (cid : ℕ) (owner : Bytes) (s : State) where
  update_owner-ok :
      (t : State)
      → update_owner ctx cid owner s ≡ ok t
      → CanUpdateOwner ctx cid owner s × (t ≡ reassigned cid owner s)
  unfolding update_owner
  update_owner-ok t e = elim (Option-cases (lookup cid s.controlling_owner)) [
    | inl missing ↦ absurd (ground arith)
    | inr (o, owned) ↦ (
      record {
        by_owner = ground (arith, bytes_eq_iff o ctx.sender);
        fresh = ground arith;
        holds = ground arith;
        owner_nonzero = ground (arith, bytes_eq_iff owner zero_address);
      },
      ground arith,
    )
  ]

  update_owner_accepts :
      CanUpdateOwner ctx cid owner s → update_owner ctx cid owner s ≡ ok (reassigned cid owner s)
  unfolding update_owner
  update_owner_accepts h = ground (
    arith,
    h.by_owner,
    h.fresh,
    h.holds,
    h.owner_nonzero,
    bytes_eq_iff ctx.sender ctx.sender,
    bytes_eq_iff owner zero_address,
  )

  -- `update_owner` accepts exactly when the caller is the recorded controlling owner and holds exactly
  -- one unit of the cell asset, the cell has no inscription and the new owner is not the zero address; it
  -- then replaces the owner of this cell and changes nothing else.
  pub update_owner_exactly :
      (t : State)
      → (update_owner ctx cid owner s ≡ ok t)
        ↔ (CanUpdateOwner ctx cid owner s × (t ≡ reassigned cid owner s))
  update_owner_exactly t = (update_owner-ok t, λ (h, e). rw e (update_owner_accepts h))
