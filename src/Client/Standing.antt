-- ===== src/Client/Standing.antt =====
-- The place of the client between other accounts: a cell that it controls stays open to it until it has
-- the record that the client writes.
use trelyan_falcon_inscripti.Prelude.{
  ℕ, ◌≡◌, ◌≢◌, refl, none, some, arith, Bool-cases, ◌==◌, inl, inr,
}
use trelyan_falcon_inscripti.Prelude.Bytes.{Bytes}
use trelyan_falcon_inscripti.Prelude.BoxMap.{lookup, lookup-insert}
use trelyan_falcon_inscripti.Prelude.Result.{ok}
use trelyan_falcon_inscripti.Contract.{
  Chain, Context, State, Call, InscriptionRecord, dispatch, get_inscription, on_update, on_delete,
  register_cell_call, inscribe_call, update_owner_call, get_inscription_call, update_application,
  delete_application,
}
use trelyan_falcon_inscripti.Contract.Accepts.{
  record_of, register_cell_exactly, inscribe_exactly, update_owner_exactly,
}
use trelyan_falcon_inscripti.Ledger.Keeps.{IsStable, IsKeptBy}

-- The record that this client writes.
pub record IsOurs (deployer hash uri : Bytes) (r : InscriptionRecord) : Type 0 where
  pub hash_is : r.artifact_hash ≡ hash
  pub inscriber_is : r.inscriber ≡ deployer
  pub uri_is : r.payload_uri ≡ uri

module _ (deployer : Bytes) (cell : ℕ) (hash uri : Bytes) where
  pub data Standing (s : State) : Type 0 where
    open_cell :
        lookup cell s.inscriptions ≡ none
        → lookup cell s.controlling_owner ≡ some deployer
        → Standing s
    written :
        (r : InscriptionRecord)
        → lookup cell s.inscriptions ≡ some r
        → IsOurs deployer hash uri r
        → Standing s

module _ (chain : Chain) (deployer : Bytes) (cell : ℕ) (hash uri : Bytes) where
  foreign-Standing :
      (ctx : Context) (call : Call) (s t : State)
      → ctx.sender ≢ deployer
      → dispatch chain ctx call s ≡ ok t
      → Standing deployer cell hash uri s
      → Standing deployer cell hash uri t
  unfolding dispatch get_inscription on_update on_delete
  foreign-Standing ctx (register_cell_call j owner key) s t n e (open_cell fresh own) =
      let (c, p) = (register_cell_exactly ctx j owner key s t).0 e in
      open_cell (rw p fresh)
        (rw p (ground (arith, c.new_owner, lookup-insert j cell owner s.controlling_owner)))
  foreign-Standing ctx (register_cell_call j owner key) s t n e (written r found ours) =
      let (c, p) = (register_cell_exactly ctx j owner key s t).0 e in written r (rw p found) ours
  foreign-Standing ctx (inscribe_call j h sig u) s t n e (open_cell fresh own) =
      let (c, p) = (inscribe_exactly chain ctx j h sig u s t).0 e in
      let put = lookup-insert j cell (record_of ctx j h u) s.inscriptions in
      elim (Bool-cases (j == cell)) [
        | inl same ↦
            let ej : j ≡ cell = ground arith in
            let by : lookup cell s.controlling_owner ≡ some ctx.sender = rw (← ej) c.by_owner in
            let eo : ctx.sender ≡ deployer = ground arith in absurd (n eo)
        | inr differ ↦ open_cell (rw p (ground (arith, put))) (rw p own)
      ]
  foreign-Standing ctx (inscribe_call j h sig u) s t n e (written r found ours) =
      let (c, p) = (inscribe_exactly chain ctx j h sig u s t).0 e in
      let put = lookup-insert j cell (record_of ctx j h u) s.inscriptions in
      written r (rw p (ground (arith, c.fresh, put))) ours
  foreign-Standing ctx (update_owner_call j owner) s t n e (open_cell fresh own) =
      let (c, p) = (update_owner_exactly ctx j owner s t).0 e in
      let put = lookup-insert j cell owner s.controlling_owner in
      elim (Bool-cases (j == cell)) [
        | inl same ↦
            let ej : j ≡ cell = ground arith in
            let by : lookup cell s.controlling_owner ≡ some ctx.sender = rw (← ej) c.by_owner in
            let eo : ctx.sender ≡ deployer = ground arith in absurd (n eo)
        | inr differ ↦ open_cell (rw p fresh) (rw p (ground (arith, put)))
      ]
  foreign-Standing ctx (update_owner_call j owner) s t n e (written r found ours) =
      let (c, p) = (update_owner_exactly ctx j owner s t).0 e in written r (rw p found) ours
  foreign-Standing ctx (get_inscription_call j) s t n e st = let p : t ≡ s = ground arith in rw p st
  foreign-Standing ctx update_application s t n e st = cc
  foreign-Standing ctx delete_application s t n e st = cc

  pub Standing-IsStable : IsStable chain deployer (Standing deployer cell hash uri)
  Standing-IsStable = record { step = foreign-Standing }

  own-Standing :
      (sig : Bytes) (ctx : Context) (s t : State)
      → ctx.sender ≡ deployer
      → dispatch chain ctx (inscribe_call cell hash sig uri) s ≡ ok t
      → Standing deployer cell hash uri t
  unfolding dispatch
  own-Standing sig ctx s t by e =
      let (c, p) = (inscribe_exactly chain ctx cell hash sig uri s t).0 e in
      let put = lookup-insert cell cell (record_of ctx cell hash uri) s.inscriptions in
      written (record_of ctx cell hash uri) (rw p (ground (arith, put)))
        (record { hash_is = refl; inscriber_is = by; uri_is = refl })

  pub Standing-IsKeptBy :
      (sig : Bytes)
      → IsKeptBy chain deployer (Standing deployer cell hash uri) (inscribe_call cell hash sig uri)
  Standing-IsKeptBy sig = record { step = λ ctx s t by e st. own-Standing sig ctx s t by e }
