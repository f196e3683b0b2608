-- ===== src/Ledger/Keeps.antt =====
-- What the transactions of the deployer keep, if the calls of the other accounts between them keep it.
use trelyan_falcon_inscripti.Prelude.{inr, inl, ℕ, ◌≡◌, ◌≢◌, refl, List, [], ◌∷◌}
use trelyan_falcon_inscripti.Prelude.Bytes.{Bytes}
use trelyan_falcon_inscripti.Prelude.Result.{◌>>=◌, Result, ok, err, Result-cases}
use trelyan_falcon_inscripti.Contract.{Rejection, Chain, Context, State, Call, dispatch}
use trelyan_falcon_inscripti.Machine.Triples.{Triple, Triple-results}
use trelyan_falcon_inscripti.Ledger.{
  Fate, lost, unconfirmed, confirmed, Ledger, Delivery, report, landed, own_context, arrival,
  submit, read, attempt, attempt_read, after_call, after_calls,
}

-- Calls that the deployer did not make.
pub data AreForeign (deployer : Bytes) : List (Context × Call) → Type 0 where
  no_calls : AreForeign deployer []
  foreign_call :
      {ctx : Context} {call : Call} {calls : List (Context × Call)}
      → ctx.sender ≢ deployer
      → AreForeign deployer calls
      → AreForeign deployer ((ctx, call) ∷ calls)

-- Deliveries between which only other accounts call: the deployer's key is used by this client alone.
pub data IsAlone (deployer : Bytes) : List Delivery → Type 0 where
  no_deliveries : IsAlone deployer []
  delivery_alone :
      {d : Delivery} {ds : List Delivery}
      → AreForeign deployer d.others
      → IsAlone deployer ds
      → IsAlone deployer (d ∷ ds)

module _ (chain : Chain) (deployer : Bytes) (I : State → Type 0) where
  -- What other accounts cannot break.
  pub record IsStable : Type 0 where
    pub step :
        (ctx : Context) (call : Call) (s t : State)
        → ctx.sender ≢ deployer
        → dispatch chain ctx call s ≡ ok t
        → I s
        → I t

  -- What an accepted call of the deployer keeps.
  pub record IsKeptBy (call : Call) : Type 0 where
    pub step :
        (ctx : Context) (s t : State)
        → ctx.sender ≡ deployer
        → dispatch chain ctx call s ≡ ok t
        → I s
        → I t

  pub record Kept (l : Ledger) : Type 0 where
    pub holds : I l.state
    pub alone : IsAlone deployer l.deliveries

module _ {chain : Chain} {deployer : Bytes} {I : State → Type 0}
    (stable : IsStable chain deployer I) where
  after_call-keeps :
      (ctx : Context) (call : Call) (s : State)
      → ctx.sender ≢ deployer
      → I s
      → I (after_call chain ctx call s)
  after_call-keeps ctx call s n i = elim (Result-cases (dispatch chain ctx call s)) [
    | inl (t, e) ↦ rw (after_call, e) (stable.step ctx call s t n e i)
    | inr (x, e) ↦ rw (after_call, e) i
  ]

  pub after_calls-keeps :
      (calls : List (Context × Call)) (s : State)
      → AreForeign deployer calls
      → I s
      → I (after_calls chain calls s)
  unfolding after_calls
  after_calls-keeps [] s f i = i
  after_calls-keeps ((ctx, call) ∷ calls) s (foreign_call n f) i =
      after_calls-keeps calls (after_call chain ctx call s) f (after_call-keeps ctx call s n i)

  landed-keeps :
      (fate : Fate) (s : State) (answer : Result Rejection State)
      → ((t : State) → answer ≡ ok t → I t)
      → I s
      → I (landed chain deployer fate s answer)
  landed-keeps lost s answer k i = i
  landed-keeps unconfirmed s (ok t) k i = k t refl
  landed-keeps unconfirmed s (err x) k i = i
  landed-keeps confirmed s (ok t) k i = k t refl
  landed-keeps confirmed s (err x) k i = i

  attempt-keeps :
      (call : Call) (l : Ledger)
      → IsKeptBy chain deployer I call
      → Kept chain deployer I l
      → Kept chain deployer I (attempt chain deployer call l).1
  unfolding attempt
  attempt-keeps call l own k =
      elim l.deliveries
          as (λ ds.
            let l' : Ledger = record l { deliveries = ds } in
            I l.state
            → IsAlone deployer ds
            → Kept chain deployer I (attempt chain deployer call l').1) [
              | [] ↦ λ i a. record { holds = i; alone = a }
              | d ∷ rest ↦ λ i a. elim a [
                | delivery_alone f as' ↦
                    let here = arrival chain deployer d rest l in
                    let ctx = own_context chain deployer d here in
                    let i' : I here.state = after_calls-keeps d.others l.state f i in
                    record {
                      holds =
                          landed-keeps d.fate here.state (dispatch chain ctx call here.state)
                            (λ t e. own.step ctx here.state t refl e i') i';
                      alone = as';
                    }
              ]
            ]
        k.holds k.alone

  attempt_read-keeps :
      (cell : ℕ) (l : Ledger)
      → Kept chain deployer I l
      → Kept chain deployer I (attempt_read chain deployer cell l).1
  unfolding attempt_read
  attempt_read-keeps cell l k =
      elim l.deliveries
          as (λ ds.
            let l' : Ledger = record l { deliveries = ds } in
            I l.state
            → IsAlone deployer ds
            → Kept chain deployer I (attempt_read chain deployer cell l').1) [
              | [] ↦ λ i a. record { holds = i; alone = a }
              | d ∷ rest ↦ λ i a. elim a [
                | delivery_alone f as' ↦ record {
                  holds = after_calls-keeps d.others l.state f i;
                  alone = as';
                }
              ]
            ]
        k.holds k.alone

  pub submit-Triple :
      (call : Call)
      → IsKeptBy chain deployer I call
      → Triple
          (λ w. Kept chain deployer I w.store)
          (submit chain deployer call)
          (λ _ w. Kept chain deployer I w.store)
          (λ w. Kept chain deployer I w.store)
  unfolding submit
  submit-Triple call own =
      Triple-results (submit chain deployer call) (λ w a k e. attempt-keeps call w.store own k)
        (λ w x k e. attempt-keeps call w.store own k)

  pub read-Triple :
      (cell : ℕ)
      → Triple
          (λ w. Kept chain deployer I w.store)
          (read chain deployer cell)
          (λ _ w. Kept chain deployer I w.store)
          (λ w. Kept chain deployer I w.store)
  unfolding read
  read-Triple cell =
      Triple-results (read chain deployer cell) (λ w a k e. attempt_read-keeps cell w.store k)
        (λ w x k e. attempt_read-keeps cell w.store k)

module _ {chain : Chain} {deployer : Bytes} {I J : State → Type 0}
    (stable : IsStable chain deployer I) where
  reported-reaches :
      (fate : Fate) (s : State) (answer : Result Rejection State)
      → ((t : State) → answer ≡ ok t → J t)
      → report chain deployer fate (answer >>= λ _. ok tt) ≡ ok tt
      → J (landed chain deployer fate s answer)
  reported-reaches lost s answer j e = cc
  reported-reaches unconfirmed s (ok t) j e = cc
  reported-reaches unconfirmed s (err x) j e = cc
  reported-reaches confirmed s (ok t) j e = j t refl
  reported-reaches confirmed s (err x) j e = cc

  attempt-reaches :
      (call : Call) (l : Ledger)
      → ((ctx : Context) (s t : State)
          → ctx.sender ≡ deployer
          → dispatch chain ctx call s ≡ ok t
          → I s
          → J t)
      → Kept chain deployer I l
      → (attempt chain deployer call l).0 ≡ ok tt
      → Kept chain deployer J (attempt chain deployer call l).1
  unfolding attempt
  attempt-reaches call l own k e =
      elim l.deliveries
          as (λ ds.
            let l' : Ledger = record l { deliveries = ds } in
            I l.state
            → IsAlone deployer ds
            → (attempt chain deployer call l').0 ≡ ok tt
            → Kept chain deployer J (attempt chain deployer call l').1) [
              | [] ↦ λ i a e. cc
              | d ∷ rest ↦ λ i a e. elim a [
                | delivery_alone f as' ↦
                    let here = arrival chain deployer d rest l in
                    let ctx = own_context chain deployer d here in
                    let i' : I here.state = after_calls-keeps stable d.others l.state f i in
                    record {
                      holds =
                          reported-reaches d.fate here.state (dispatch chain ctx call here.state)
                            (λ t e'. own ctx here.state t refl e' i') e;
                      alone = as';
                    }
              ]
            ]
        k.holds k.alone e

  -- A transaction that is reported as done leads from one condition to another.
  pub submit-reaches :
      (call : Call)
      → ((ctx : Context) (s t : State)
          → ctx.sender ≡ deployer
          → dispatch chain ctx call s ≡ ok t
          → I s
          → J t)
      → Triple
          (λ w. Kept chain deployer I w.store)
          (submit chain deployer call)
          (λ _ w. Kept chain deployer J w.store)
          (λ _. Unit {0})
  unfolding submit
  submit-reaches call own =
      Triple-results (submit chain deployer call) (λ w a k e. attempt-reaches call w.store own k e)
        (λ w x k e. tt)
