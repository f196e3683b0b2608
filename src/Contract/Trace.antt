-- ===== src/Contract/Trace.antt =====
-- Runs of the application: one accepted call after another, by any caller on any ledger.
use trelyan_falcon_inscripti.Prelude.{ℕ, ◌≡◌, arith}
use trelyan_falcon_inscripti.Prelude.Bytes.{Bytes}
use trelyan_falcon_inscripti.Prelude.Result.{ok}
use trelyan_falcon_inscripti.Contract.{
  Chain, Context, State, Call, register_cell_call, inscribe_call, update_owner_call,
  get_inscription_call, update_application, delete_application, get_inscription, dispatch,
  on_update, on_delete,
}
use trelyan_falcon_inscripti.Contract.Accepts.{
  CanRegister, CanInscribe, CanUpdateOwner, registered, inscribed, reassigned,
  register_cell_exactly, inscribe_exactly, update_owner_exactly,
}

-- One accepted call.
pub data Step (chain : Chain) (s t : State) : Type 0 where
  call : (ctx : Context) (c : Call) → dispatch chain ctx c s ≡ ok t → Step chain s t

pub data Run (chain : Chain) (s : State) : State → Type 0 where
  here : Run chain s s
  next : {t u : State} → Run chain s t → Step chain t u → Run chain s u

-- What an accepted call has done.
pub data Effect (chain : Chain) (s t : State) : Type 0 where
  registers :
      (ctx : Context) (cid : ℕ) (owner key : Bytes)
      → CanRegister ctx cid owner key s
      → t ≡ registered cid owner key s
      → Effect chain s t
  inscribes :
      (ctx : Context) (cid : ℕ) (hash sig uri : Bytes)
      → CanInscribe chain ctx cid hash sig uri s
      → t ≡ inscribed ctx cid hash uri s
      → Effect chain s t
  reassigns :
      (ctx : Context) (cid : ℕ) (owner : Bytes)
      → CanUpdateOwner ctx cid owner s
      → t ≡ reassigned cid owner s
      → Effect chain s t
  reads : t ≡ s → Effect chain s t

module _ {chain : Chain} {s t : State} where
  pub Step-Effect : Step chain s t → Effect chain s t
  unfolding dispatch get_inscription on_update on_delete
  Step-Effect (call ctx (register_cell_call cid o k) e) =
      let (h, p) = (register_cell_exactly ctx cid o k s t).0 e in registers ctx cid o k h p
  Step-Effect (call ctx (inscribe_call cid h sig uri) e) =
      let (c, p) = (inscribe_exactly chain ctx cid h sig uri s t).0 e in
      inscribes ctx cid h sig uri c p
  Step-Effect (call ctx (update_owner_call cid o) e) =
      let (h, p) = (update_owner_exactly ctx cid o s t).0 e in reassigns ctx cid o h p
  Step-Effect (call ctx (get_inscription_call cid) e) = reads (ground arith)
  Step-Effect (call ctx update_application e) = cc
  Step-Effect (call ctx delete_application e) = cc

-- A property of states that every accepted call keeps holds at the end of a run.
pub Run-keeps {ℓ} :
    {chain : Chain} (P : State → Type ℓ)
    → ((s t : State) → Effect chain s t → P s → P t)
    → {s t : State} → Run chain s t
    → P s
    → P t
Run-keeps P keep here p = p
Run-keeps P keep (next {t} {u} r st) p = keep t u (Step-Effect st) (Run-keeps P keep r p)
