-- ===== src/Deploy/Inscribed.antt =====
-- What a run of the deployment script leaves on the chain when it returns.
use trelyan_falcon_inscripti.Prelude.{ℕ, ◌≡◌, ◌≢◌, refl, none, some, arith}
use trelyan_falcon_inscripti.Prelude.Bytes.{Bytes}
use trelyan_falcon_inscripti.Prelude.BoxMap.{lookup, lookup-insert, lookup-empty}
use trelyan_falcon_inscripti.Prelude.Result.{ok}
use trelyan_falcon_inscripti.Contract.{
  Chain, Context, State, Call, InscriptionRecord, dispatch, get_inscription, on_update, on_delete,
  init, create, register_cell_call, inscribe_call, update_owner_call, get_inscription_call,
  update_application, delete_application,
}
use trelyan_falcon_inscripti.Contract.Accepts.{
  record_of, register_cell_exactly, inscribe_exactly, update_owner_exactly,
}
use trelyan_falcon_inscripti.Contract.Trace.{here, next, call}
use trelyan_falcon_inscripti.Contract.Permanence.{inscription_permanent}
use trelyan_falcon_inscripti.Client.Standing.{IsOurs, Standing, open_cell}
use trelyan_falcon_inscripti.Ledger.Keeps.{IsStable}

-- No cell has a key or a record, and the deployer is the admin.
pub record IsEmpty (deployer : Bytes) (s : State) : Type 0 where
  pub by_deployer : s.admin ≡ deployer
  pub no_key : (cid : ℕ) → lookup cid s.committed_pubkey ≡ none
  pub no_record : (cid : ℕ) → lookup cid s.inscriptions ≡ none

-- The cell has the record of the deployer.
pub record HasOurs (deployer : Bytes) (cell : ℕ) (hash uri : Bytes) (s : State) : Type 0 where
  pub entry : InscriptionRecord
  pub found : lookup cell s.inscriptions ≡ some entry
  pub ours : IsOurs deployer hash uri entry

module _ (chain : Chain) (deployer : Bytes) where
  pub created-IsEmpty : (ctx : Context) → ctx.sender ≡ deployer → IsEmpty deployer (create ctx init)
  unfolding create
  created-IsEmpty ctx by = record {
    by_deployer = by;
    no_key = λ cid. lookup-empty cid;
    no_record = λ cid. lookup-empty cid;
  }

  foreign-IsEmpty :
      (ctx : Context) (c : Call) (s t : State)
      → ctx.sender ≢ deployer
      → dispatch chain ctx c s ≡ ok t
      → IsEmpty deployer s
      → IsEmpty deployer t
  unfolding dispatch get_inscription on_update on_delete
  foreign-IsEmpty ctx (register_cell_call j owner key) s t n e k =
      let (c, p) = (register_cell_exactly ctx j owner key s t).0 e in
      let same : ctx.sender ≡ deployer = ground (arith, c.by_admin, k.by_deployer) in
      absurd (n same)
  foreign-IsEmpty ctx (inscribe_call j h sig u) s t n e k =
      let (c, p) = (inscribe_exactly chain ctx j h sig u s t).0 e in
      let (key, found, _) = c.key in let missing = k.no_key j in absurd (ground arith)
  foreign-IsEmpty ctx (update_owner_call j owner) s t n e k =
      let (c, p) = (update_owner_exactly ctx j owner s t).0 e in
      rw p (record { by_deployer = k.by_deployer; no_key = k.no_key; no_record = k.no_record })
  foreign-IsEmpty ctx (get_inscription_call j) s t n e k = let p : t ≡ s = ground arith in rw p k
  foreign-IsEmpty ctx update_application s t n e k = cc
  foreign-IsEmpty ctx delete_application s t n e k = cc

  pub IsEmpty-IsStable : IsStable chain deployer (IsEmpty deployer)
  IsEmpty-IsStable = record { step = foreign-IsEmpty }

  -- Registering a cell opens it to its owner.
  pub registers-Standing :
      (cell : ℕ) (key hash uri : Bytes) (ctx : Context) (s t : State)
      → ctx.sender ≡ deployer
      → dispatch chain ctx (register_cell_call cell deployer key) s ≡ ok t
      → IsEmpty deployer s
      → Standing deployer cell hash uri t
  unfolding dispatch
  registers-Standing cell key hash uri ctx s t by e k =
      let (c, p) = (register_cell_exactly ctx cell deployer key s t).0 e in
      let put = lookup-insert cell cell deployer s.controlling_owner in
      open_cell (rw p (k.no_record cell)) (rw p (ground (arith, put)))

  pub HasOurs-IsStable :
      (cell : ℕ) (hash uri : Bytes) → IsStable chain deployer (HasOurs deployer cell hash uri)
  HasOurs-IsStable cell hash uri = record {
    step = λ ctx c s t n e k. record {
      entry = k.entry;
      found = inscription_permanent chain cell k.entry s t (next here (call ctx c e)) k.found;
      ours = k.ours;
    };
  }

  pub inscribes-HasOurs :
      (cell : ℕ) (hash sig uri : Bytes) (ctx : Context) (s t : State)
      → ctx.sender ≡ deployer
      → dispatch chain ctx (inscribe_call cell hash sig uri) s ≡ ok t
      → Standing deployer cell hash uri s
      → HasOurs deployer cell hash uri t
  unfolding dispatch
  inscribes-HasOurs cell hash sig uri ctx s t by e k =
      let (c, p) = (inscribe_exactly chain ctx cell hash sig uri s t).0 e in
      let put = lookup-insert cell cell (record_of ctx cell hash uri) s.inscriptions in
      record {
        entry = record_of ctx cell hash uri;
        found = rw p (ground (arith, put));
        ours = record { hash_is = refl; inscriber_is = by; uri_is = refl };
      }
