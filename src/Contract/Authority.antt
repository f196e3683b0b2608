-- ===== src/Contract/Authority.antt =====
-- Who can change what: an owner is replaced only by itself, and a record is written only for the owner.
use trelyan_falcon_inscripti.Prelude.{
  ℕ, ◌≡◌, ◌≢◌, true, none, some, arith, Bool-cases, ◌==◌, inl, inr,
}
use trelyan_falcon_inscripti.Prelude.Bytes.{Bytes}
use trelyan_falcon_inscripti.Prelude.BoxMap.{lookup, lookup-insert}
use trelyan_falcon_inscripti.Prelude.Result.{ok}
use trelyan_falcon_inscripti.Contract.{
  Chain, Context, State, Call, InscriptionRecord, dispatch, get_inscription, on_update, on_delete,
  build_message, register_cell_call, inscribe_call, update_owner_call, get_inscription_call,
  update_application, delete_application,
}
use trelyan_falcon_inscripti.Contract.Accepts.{
  record_of, register_cell_exactly, inscribe_exactly, update_owner_exactly,
}

module _ (chain : Chain) (ctx : Context) (cid : ℕ) where
  -- If an accepted call changes the controlling owner of a cell that has one, then the call is
  -- `update_owner` of that cell, its caller is the old owner, the caller holds exactly one unit of the
  -- cell asset, and the cell has no inscription.
  pub owner_changed_by_owner :
      (c : Call) (s t : State) (o : Bytes)
      → dispatch chain ctx c s ≡ ok t
      → lookup cid s.controlling_owner ≡ some o
      → lookup cid t.controlling_owner ≢ some o
      → (ctx.sender ≡ o)
        × (ctx.asset_balance o cid ≡ (1, true))
        × (lookup cid s.inscriptions ≡ none)
        × ((new_owner : Bytes) × (c ≡ update_owner_call cid new_owner))
  unfolding dispatch get_inscription on_update on_delete
  owner_changed_by_owner (register_cell_call j owner key) s t o e ho hn =
      let (c, p) = (register_cell_exactly ctx j owner key s t).0 e in
      absurd
        (hn (rw p (ground (arith, c.new_owner, lookup-insert j cid owner s.controlling_owner))))
  owner_changed_by_owner (inscribe_call j hash sig uri) s t o e ho hn =
      let (c, p) = (inscribe_exactly chain ctx j hash sig uri s t).0 e in absurd (hn (rw p ho))
  owner_changed_by_owner (update_owner_call j owner) s t o e ho hn =
      let (c, p) = (update_owner_exactly ctx j owner s t).0 e in
      let written = lookup-insert j cid owner s.controlling_owner in
      elim (Bool-cases (j == cid)) [
        | inl same ↦
            let ej : j ≡ cid = ground arith in
            let eo : ctx.sender ≡ o = ground (arith, rw ej at c.by_owner) in
            (eo, rw (← eo, ← ej) c.holds, rw (← ej) c.fresh, (owner, rw ej))
        | inr differ ↦ absurd (hn (rw p (ground (arith, written))))
      ]
  owner_changed_by_owner (get_inscription_call j) s t o e ho hn = absurd (hn (ground arith))
  owner_changed_by_owner update_application s t o e ho hn = cc
  owner_changed_by_owner delete_application s t o e ho hn = cc

  -- If an accepted call gives a cell an inscription that it did not have, then the call is `inscribe` of
  -- that cell, its caller is the recorded controlling owner and holds exactly one unit of the cell asset,
  -- the record names the caller, the round and the hash of the call, and falcon_verify accepts the
  -- signature of the call over the message of the cell and that hash under the committed key.
  pub inscribed_by_owner :
      (c : Call) (s t : State) (r : InscriptionRecord)
      → dispatch chain ctx c s ≡ ok t
      → lookup cid s.inscriptions ≡ none
      → lookup cid t.inscriptions ≡ some r
      → (hash sig uri k : Bytes) × (c ≡ inscribe_call cid hash sig uri)
        × (lookup cid s.controlling_owner ≡ some ctx.sender)
        × (ctx.asset_balance ctx.sender cid ≡ (1, true))
        × (r ≡ record_of ctx cid hash uri)
        × (lookup cid s.committed_pubkey ≡ some k)
        × (chain.falcon_verify (build_message chain cid hash) sig k ≡ true)
  unfolding dispatch get_inscription on_update on_delete
  inscribed_by_owner (register_cell_call j owner key) s t r e hn hr =
      let (c, p) = (register_cell_exactly ctx j owner key s t).0 e in
      absurd (ground (arith, rw p at hr))
  inscribed_by_owner (inscribe_call j hash sig uri) s t r e hn hr =
      let (c, p) = (inscribe_exactly chain ctx j hash sig uri s t).0 e in
      let written = lookup-insert j cid (record_of ctx j hash uri) s.inscriptions in
      let hr' = rw p at hr in
      let (k, found, accepted) = c.key in
      elim (Bool-cases (j == cid)) [
        | inl same ↦
            let ej : j ≡ cid = ground arith in
            let er : r ≡ record_of ctx j hash uri = ground (arith, written) in
            (
              hash,
              sig,
              uri,
              k,
              rw ej,
              rw (← ej) c.by_owner,
              rw (← ej) c.holds,
              rw ej at er,
              rw (← ej) found,
              rw (← ej) accepted,
            )
        | inr differ ↦ absurd (ground (arith, written))
      ]
  inscribed_by_owner (update_owner_call j owner) s t r e hn hr =
      let (c, p) = (update_owner_exactly ctx j owner s t).0 e in absurd (ground (arith, rw p at hr))
  inscribed_by_owner (get_inscription_call j) s t r e hn hr = absurd (ground arith)
  inscribed_by_owner update_application s t r e hn hr = cc
  inscribed_by_owner delete_application s t r e hn hr = cc
