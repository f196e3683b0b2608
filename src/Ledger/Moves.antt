-- ===== src/Ledger/Moves.antt =====
-- What the transactions that call no method of the application keep: payments, new assets, and the
-- creation of the application; and the calls that leave the ledger alone.
use trelyan_falcon_inscripti.Prelude.{◌≡◌, refl, ℕ, ◌+◌, [], ◌∷◌}
use trelyan_falcon_inscripti.Prelude.Bytes.{Bytes}
use trelyan_falcon_inscripti.Prelude.BoxMap.{insert}
use trelyan_falcon_inscripti.Prelude.Result.{ok}
use trelyan_falcon_inscripti.Contract.{Chain, Context, State, AssetParams, init, create}
use trelyan_falcon_inscripti.Machine.{World, M}
use trelyan_falcon_inscripti.Machine.Leaves.{Leaves}
use trelyan_falcon_inscripti.Machine.Triples.{Triple, Triple-results, Triple-weaken, Leaves-Triple}
use trelyan_falcon_inscripti.Ledger.{
  settle, Fate, lost, unconfirmed, confirmed, Ledger, own_context, arrival, attempt_asset,
  attempt_payment, attempt_create, create_asset, pay, create_app,
}
use trelyan_falcon_inscripti.Ledger.Keeps.{
  IsStable, IsAlone, delivery_alone, Kept, after_calls-keeps,
}

module _ (chain : Chain) (deployer : Bytes) where
  abbrev pub Holds : (State → Type 0) → World Ledger → Type 0
  Holds I w = Kept chain deployer I w.store

  -- A call that does not touch the ledger, whatever it raises.
  pub ledger_untouched :
      (I : State → Type 0) {A : Type 0} (m : M Ledger A)
      → Leaves (λ w. w.store) m
      → Triple (Holds I) m (λ _. Holds I) (λ _. Unit {0})
  ledger_untouched I m l =
      Triple-weaken m (λ w p. p) (Leaves-Triple (Kept chain deployer I) m l) (λ a w p. p)
        (λ w p. tt)

  pub any-error :
      (I : State → Type 0) {A : Type 0} (m : M Ledger A)
      → Triple (Holds I) m (λ _. Holds I) (Holds I)
      → Triple (Holds I) m (λ _. Holds I) (λ _. Unit {0})
  any-error I m t = Triple-weaken m (λ w p. p) t (λ a w q. q) (λ w e. tt)

module _ {chain : Chain} {deployer : Bytes} {I : State → Type 0} where
  settle-keeps :
      {A : Type 0} (fate : Fate) (a : A) (l l' : Ledger)
      → Kept chain deployer I l
      → Kept chain deployer I l'
      → Kept chain deployer I (settle fate a l l').1
  settle-keeps lost a l l' k k' = k
  settle-keeps unconfirmed a l l' k k' = k'
  settle-keeps confirmed a l l' k k' = k'

  settle-reaches :
      {A : Type 0} (fate : Fate) (a b : A) (l l' : Ledger)
      → Kept chain deployer I l'
      → (settle fate a l l').0 ≡ ok b
      → Kept chain deployer I (settle fate a l l').1
  settle-reaches lost a b l l' k e = cc
  settle-reaches unconfirmed a b l l' k e = cc
  settle-reaches confirmed a b l l' k e = k

module _ {chain : Chain} {deployer : Bytes} {I : State → Type 0}
    (stable : IsStable chain deployer I) where
  attempt_asset-keeps :
      (params : AssetParams) (l : Ledger)
      → Kept chain deployer I l
      → Kept chain deployer I (attempt_asset chain deployer params l).1
  unfolding attempt_asset
  attempt_asset-keeps params l k =
      elim l.deliveries
          as (λ ds.
            let l' : Ledger = record l { deliveries = ds } in
            I l.state
            → IsAlone deployer ds
            → Kept chain deployer I (attempt_asset chain deployer params l').1) [
              | [] ↦ λ i a. record { holds = i; alone = a }
              | d ∷ rest ↦ λ i a. elim a [
                | delivery_alone f as' ↦
                    let here = arrival chain deployer d rest l in
                    let i' : I here.state = after_calls-keeps stable d.others l.state f i in
                    settle-keeps d.fate d.new_asset here
                      (record here { assets = insert d.new_asset params here.assets })
                      (record { holds = i'; alone = as' }) (record { holds = i'; alone = as' })
              ]
            ]
        k.holds k.alone

  attempt_payment-keeps :
      (amount : ℕ) (l : Ledger)
      → Kept chain deployer I l
      → Kept chain deployer I (attempt_payment chain deployer amount l).1
  unfolding attempt_payment
  attempt_payment-keeps amount l k =
      elim l.deliveries
          as (λ ds.
            let l' : Ledger = record l { deliveries = ds } in
            I l.state
            → IsAlone deployer ds
            → Kept chain deployer I (attempt_payment chain deployer amount l').1) [
              | [] ↦ λ i a. record { holds = i; alone = a }
              | d ∷ rest ↦ λ i a. elim a [
                | delivery_alone f as' ↦
                    let here = arrival chain deployer d rest l in
                    let i' : I here.state = after_calls-keeps stable d.others l.state f i in
                    settle-keeps d.fate tt here (record here { funds = here.funds + amount })
                      (record { holds = i'; alone = as' }) (record { holds = i'; alone = as' })
              ]
            ]
        k.holds k.alone

  pub create_asset-Triple :
      (params : AssetParams)
      → Triple
          (λ w. Kept chain deployer I w.store)
          (create_asset chain deployer params)
          (λ _ w. Kept chain deployer I w.store)
          (λ w. Kept chain deployer I w.store)
  unfolding create_asset
  create_asset-Triple params =
      Triple-results (create_asset chain deployer params)
        (λ w a k e. attempt_asset-keeps params w.store k)
        (λ w x k e. attempt_asset-keeps params w.store k)

  pub pay-Triple :
      (amount : ℕ)
      → Triple
          (λ w. Kept chain deployer I w.store)
          (pay chain deployer amount)
          (λ _ w. Kept chain deployer I w.store)
          (λ w. Kept chain deployer I w.store)
  unfolding pay
  pay-Triple amount =
      Triple-results (pay chain deployer amount) (λ w a k e. attempt_payment-keeps amount w.store k)
        (λ w x k e. attempt_payment-keeps amount w.store k)

module _ {chain : Chain} {deployer : Bytes} {I : State → Type 0}
    (starts : (ctx : Context) → ctx.sender ≡ deployer → I (create ctx init)) where
  attempt_create-reaches :
      (l : Ledger)
      → IsAlone deployer l.deliveries
      → (attempt_create chain deployer l).0 ≡ ok tt
      → Kept chain deployer I (attempt_create chain deployer l).1
  unfolding attempt_create
  attempt_create-reaches l alone e =
      elim l.deliveries
          as (λ ds.
            let l' : Ledger = record l { deliveries = ds } in
            IsAlone deployer ds
            → (attempt_create chain deployer l').0 ≡ ok tt
            → Kept chain deployer I (attempt_create chain deployer l').1) [
              | [] ↦ λ a e. cc
              | d ∷ rest ↦ λ a e. elim a [
                | delivery_alone f as' ↦
                    let here = arrival chain deployer d rest l in
                    let ctx = own_context chain deployer d here in
                    let made : Ledger = record here { state = create ctx init } in
                    settle-reaches d.fate tt tt here made
                      (record { holds = starts ctx refl; alone = as' }) e
              ]
            ]
        alone e

  -- A new application starts where its creation leaves it.
  pub create_app-Triple :
      Triple
        (λ w. IsAlone deployer w.store.deliveries)
        (create_app chain deployer)
        (λ _ w. Kept chain deployer I w.store)
        (λ _. Unit {0})
  unfolding create_app
  create_app-Triple =
      Triple-results (create_app chain deployer) (λ w a k e. attempt_create-reaches w.store k e)
        (λ w x k e. tt)
