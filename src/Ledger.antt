-- ===== src/Ledger.antt =====
-- The network as sdk/src/trelyan_pq/inscription.py and contracts/deploy_testnet.py use it: the
-- application with its boxes, the assets, and what becomes of the transactions to come. A transaction of
-- the deployer is one delivery; before it, other accounts call the application.
pub mod Keeps
pub mod Delivered
pub mod Moves
use trelyan_falcon_inscripti.Prelude.{ℕ, ◌+◌, none, some, List, [], ◌∷◌}
use trelyan_falcon_inscripti.Prelude.Bytes.{Bytes}
use trelyan_falcon_inscripti.Prelude.BoxMap.{BoxMap, lookup, insert}
use trelyan_falcon_inscripti.Prelude.Result.{Result, ok, err, ◌>>=◌}
use trelyan_falcon_inscripti.Exceptions.{Exception, connection_failed, call_rejected}
use trelyan_falcon_inscripti.Contract.{
  Chain, Context, State, Call, AssetParams, InscriptionRecord, Rejection, create, init, dispatch,
  get_inscription, zero_address,
}
use trelyan_falcon_inscripti.Machine.{World, M}

-- What becomes of a transaction: it never reaches the network; it does and no answer comes back; or its
-- outcome is reported.
pub data Fate : Type 0 where
  lost unconfirmed confirmed : Fate

-- `others` are the calls of other accounts that come first; `context` is what the call reads of the
-- ledger, but for its sender, which is the deployer, and for the assets; `new_asset` is the id that an
-- asset gets if the transaction makes one.
pub record Delivery : Type 0 where
  pub fate : Fate
  pub others : List (Context × Call)
  pub context : Context
  pub new_asset : ℕ

pub record Ledger : Type 0 where
  pub state : State
  pub assets : BoxMap AssetParams
  -- the microalgos that the deployer has paid to the account of the application
  pub funds : ℕ
  pub deliveries : List Delivery
  -- the lines of the file $GITHUB_OUTPUT
  pub github_output : List Bytes

-- The report on a transaction that cannot be rejected, and the ledger that it leaves.
abbrev pub settle : {A : Type 0} → Fate → A → Ledger → Ledger → Result Exception A × Ledger
settle lost a before after = (err connection_failed, before)
settle unconfirmed a before after = (err connection_failed, after)
settle confirmed a before after = (ok a, after)

module _ (chain : Chain) where
  -- The state after a call, which a rejected call leaves alone.
  abbrev pub after_call : Context → Call → State → State
  after_call ctx call s = elim (dispatch chain ctx call s) [ ok t ↦ t | err e ↦ s ]

  unfoldable pub after_calls : List (Context × Call) → State → State
  after_calls [] s = s
  after_calls ((ctx, call) ∷ calls) s = after_calls calls (after_call ctx call s)

module _ (chain : Chain) (deployer : Bytes) where
  -- What a call of the deployer reads of the ledger.
  abbrev pub own_context : Delivery → Ledger → Context
  own_context d l = record d.context {
    sender = deployer;
    asset_params = λ asset. lookup asset l.assets;
  }

  -- The ledger when a transaction arrives.
  abbrev pub arrival : Delivery → List Delivery → Ledger → Ledger
  arrival d rest l = record l { state = after_calls chain d.others l.state; deliveries = rest }

  -- The report on a transaction: whether the contract took it, and no report if the answer is lost.
  abbrev pub report : {A : Type 0} → Fate → Result Rejection A → Result Exception A
  report lost r = err connection_failed
  report unconfirmed (ok a) = err connection_failed
  report unconfirmed (err e) = err connection_failed
  report confirmed (ok a) = ok a
  report confirmed (err e) = err call_rejected

  -- The state that a transaction leaves.
  abbrev pub landed : Fate → State → Result Rejection State → State
  landed lost s r = s
  landed unconfirmed s (ok t) = t
  landed unconfirmed s (err e) = s
  landed confirmed s (ok t) = t
  landed confirmed s (err e) = s

  -- A transaction of the deployer that calls the application.
  unfoldable pub attempt : Call → Ledger → Result Exception (Unit {0}) × Ledger
  attempt call l = elim l.deliveries [
    | [] ↦ (err connection_failed, l)
    | d ∷ rest ↦
        let here = arrival d rest l in
        let answer = dispatch chain (own_context d here) call here.state in
        (
          report d.fate (answer >>= λ _. ok tt),
          record here { state = landed d.fate here.state answer },
        )
  ]

  -- A readonly call of get_inscription.
  unfoldable pub attempt_read : ℕ → Ledger → Result Exception InscriptionRecord × Ledger
  attempt_read cell l = elim l.deliveries [
    | [] ↦ (err connection_failed, l)
    | d ∷ rest ↦
        let here = arrival d rest l in (report d.fate (get_inscription cell here.state), here)
  ]

  -- A transaction of the deployer that makes an asset with these parameters.
  unfoldable pub attempt_asset : AssetParams → Ledger → Result Exception ℕ × Ledger
  attempt_asset params l = elim l.deliveries [
    | [] ↦ (err connection_failed, l)
    | d ∷ rest ↦
        let here = arrival d rest l in
        let made = insert d.new_asset params here.assets in
        settle d.fate d.new_asset here (record here { assets = made })
  ]

  -- A payment of the deployer to the account of the application.
  unfoldable pub attempt_payment : ℕ → Ledger → Result Exception (Unit {0}) × Ledger
  attempt_payment amount l = elim l.deliveries [
    | [] ↦ (err connection_failed, l)
    | d ∷ rest ↦
        let here = arrival d rest l in
        let paid = record here { funds = here.funds + amount } in settle d.fate tt here paid
  ]

  -- A transaction of the deployer that creates the application.
  unfoldable pub attempt_create : Ledger → Result Exception (Unit {0}) × Ledger
  attempt_create l = elim l.deliveries [
    | [] ↦ (err connection_failed, l)
    | d ∷ rest ↦
        let here = arrival d rest l in
        let created = record here { state = create (own_context d here) init } in
        settle d.fate tt here created
  ]

  -- `app.send.<method>(args, params)`
  unfoldable pub submit : Call → M Ledger (Unit {0})
  submit call w = let (r, l) = attempt call w.store in (r, record w { store = l })

  -- `app.send.get_inscription(args, params).abi_return`
  unfoldable pub read : ℕ → M Ledger InscriptionRecord
  read cell w = let (r, l) = attempt_read cell w.store in (r, record w { store = l })

  -- `algorand.send.asset_create(params).asset_id`
  unfoldable pub create_asset : AssetParams → M Ledger ℕ
  create_asset params w = let (r, l) = attempt_asset params w.store in (r, record w { store = l })

  -- `algorand.send.payment(params)`
  unfoldable pub pay : ℕ → M Ledger (Unit {0})
  pay amount w = let (r, l) = attempt_payment amount w.store in (r, record w { store = l })

  -- `factory.send.create.create()`, where the application that it gives is `chain`
  unfoldable pub create_app : M Ledger (Unit {0})
  create_app w = let (r, l) = attempt_create w.store in (r, record w { store = l })
