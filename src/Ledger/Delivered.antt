-- ===== src/Ledger/Delivered.antt =====
-- What the network has done when a transaction or a read of the deployer returns.
use trelyan_falcon_inscripti.Prelude.{inr, inl, ℕ, ◌≡◌, refl, [], ◌∷◌, some, arith}
use trelyan_falcon_inscripti.Prelude.Bytes.{Bytes}
use trelyan_falcon_inscripti.Prelude.BoxMap.{lookup}
use trelyan_falcon_inscripti.Prelude.Result.{Result, ok, err, Result-cases, ◌>>=◌}
use trelyan_falcon_inscripti.Contract.{
  inscribe, inscribe_call, Rejection, Chain, Context, State, Call, InscriptionRecord, dispatch,
  get_inscription,
}
use trelyan_falcon_inscripti.Contract.Accepts.{inscribe_exactly}
use trelyan_falcon_inscripti.Contract.Trace.{Run, here, next, call}
use trelyan_falcon_inscripti.Contract.Permanence.{inscription_permanent}
use trelyan_falcon_inscripti.Machine.{World}
use trelyan_falcon_inscripti.Ledger.{
  after_call, connection_failed, call_rejected, Exception, after_calls, List, Fate, lost,
  unconfirmed, confirmed, Ledger, Delivery, report, landed, own_context, arrival, submit, read,
  attempt, attempt_read,
}

module _ (chain : Chain) (deployer : Bytes) where
  reported :
      (fate : Fate) (s : State) (answer : Result Rejection State)
      → report chain deployer fate (answer >>= λ _. ok tt) ≡ ok tt
      → answer ≡ ok (landed chain deployer fate s answer)
  reported lost s answer e = cc
  reported unconfirmed s (ok t) e = cc
  reported unconfirmed s (err x) e = cc
  reported confirmed s (ok t) e = refl
  reported confirmed s (err x) e = cc

  -- A transaction that is reported as done is a c of the deployer that the contract has accepted.
  attempt-ok :
      (c : Call) (l : Ledger)
      → (attempt chain deployer c l).0 ≡ ok tt
      → (ctx : Context) × (s : State) × (ctx.sender ≡ deployer)
        × (dispatch chain ctx c s ≡ ok (attempt chain deployer c l).1.state)
  unfolding attempt
  attempt-ok c l e =
      elim l.deliveries
          as (λ ds.
            let l' : Ledger = record l { deliveries = ds } in
            (attempt chain deployer c l').0 ≡ ok tt
            → (ctx : Context) × (s : State) × (ctx.sender ≡ deployer)
              × (dispatch chain ctx c s ≡ ok (attempt chain deployer c l').1.state)) [
                | [] ↦ λ e. cc
                | d ∷ rest ↦ λ e.
                    let here = arrival chain deployer d rest l in
                    (
                      own_context chain deployer d here,
                      here.state,
                      refl,
                      reported d.fate here.state _ e,
                    )
              ]
        e

  pub submit-ok :
      (c : Call) (w : World Ledger)
      → (submit chain deployer c w).0 ≡ ok tt
      → (ctx : Context) × (s : State) × (ctx.sender ≡ deployer)
        × (dispatch chain ctx c s ≡ ok (submit chain deployer c w).1.store.state)
  unfolding submit
  submit-ok c w e = attempt-ok c w.store e

  read_reported :
      (fate : Fate) (answer : Result Rejection InscriptionRecord) (r : InscriptionRecord)
      → report chain deployer fate answer ≡ ok r
      → answer ≡ ok r
  read_reported lost answer r e = cc
  read_reported unconfirmed (ok a) r e = cc
  read_reported unconfirmed (err x) r e = cc
  read_reported confirmed (ok a) r e = cc
  read_reported confirmed (err x) r e = cc

  pub get_inscription-ok :
      (cell : ℕ) (s : State) (r : InscriptionRecord)
      → get_inscription cell s ≡ ok r
      → lookup cell s.inscriptions ≡ some r
  unfolding get_inscription
  get_inscription-ok cell s r e = ground arith

  attempt_read-ok :
      (cell : ℕ) (l : Ledger) (r : InscriptionRecord)
      → (attempt_read chain deployer cell l).0 ≡ ok r
      → lookup cell (attempt_read chain deployer cell l).1.state.inscriptions ≡ some r
  unfolding attempt_read
  attempt_read-ok cell l r e =
      elim l.deliveries
          as (λ ds.
            let l' : Ledger = record l { deliveries = ds } in
            (attempt_read chain deployer cell l').0 ≡ ok r
            → lookup cell (attempt_read chain deployer cell l').1.state.inscriptions ≡ some r) [
              | [] ↦ λ e. cc
              | d ∷ rest ↦ λ e.
                  let here = arrival chain deployer d rest l in
                  get_inscription-ok cell here.state r (read_reported d.fate _ r e)
            ]
        e

  -- A read that returns gives the record that the cell has.
  pub read-ok :
      (cell : ℕ) (w : World Ledger) (r : InscriptionRecord)
      → (read chain deployer cell w).0 ≡ ok r
      → lookup cell (read chain deployer cell w).1.store.state.inscriptions ≡ some r
  unfolding read
  read-ok cell w r e = attempt_read-ok cell w.store r e

module _ (chain : Chain) where
  after_calls-Run :
      (calls : List (Context × Call)) (s t : State)
      → Run chain s t
      → Run chain s (after_calls chain calls t)
  unfolding after_calls
  after_calls-Run [] s t run = run
  after_calls-Run ((ctx, c) ∷ calls) s t run =
      after_calls-Run calls s (after_call chain ctx c t)
        (elim (Result-cases (dispatch chain ctx c t)) [
          | inl (u, e) ↦ rw (after_call, e) (next run (call ctx c e))
          | inr (x, e) ↦ rw (after_call, e) run
        ])

  -- The calls of others do not change a record.
  pub after_calls-recorded :
      (calls : List (Context × Call)) (cell : ℕ) (r : InscriptionRecord) (s : State)
      → lookup cell s.inscriptions ≡ some r
      → lookup cell (after_calls chain calls s).inscriptions ≡ some r
  after_calls-recorded calls cell r s found =
      inscription_permanent chain cell r s (after_calls chain calls s)
        (after_calls-Run calls s s here) found

  -- The contract rejects `inscribe` of a cell that has a record.
  pub recorded_rejects :
      (ctx : Context) (cell : ℕ) (hash sig uri : Bytes) (r : InscriptionRecord) (s : State)
      → lookup cell s.inscriptions ≡ some r
      → (x : Rejection) × (dispatch chain ctx (inscribe_call cell hash sig uri) s ≡ err x)
  unfolding dispatch
  recorded_rejects ctx cell hash sig uri r s found =
      elim (Result-cases (inscribe chain ctx cell hash sig uri s)) [
        | inl (t, e) ↦
            let (c, p) = (inscribe_exactly chain ctx cell hash sig uri s t).0 e in
            absurd (ground (arith, c.fresh))
        | inr (x, e) ↦ (x, e)
      ]

module _ (chain : Chain) (deployer : Bytes) where
  report_of_rejection :
      (fate : Fate) (x : Rejection)
      → (e : Exception) × (let answer : Result Rejection State = err x in
          report chain deployer fate (answer >>= λ _. ok tt) ≡ err e)
        × (fate ≡ confirmed → e ≡ call_rejected)
  report_of_rejection lost x = (connection_failed, refl, λ same. cc)
  report_of_rejection unconfirmed x = (connection_failed, refl, λ same. cc)
  report_of_rejection confirmed x = (call_rejected, refl, λ same. refl)

  rejection_leaves :
      (fate : Fate) (s : State) (x : Rejection) → landed chain deployer fate s (err x) ≡ s
  rejection_leaves lost s x = refl
  rejection_leaves unconfirmed s x = refl
  rejection_leaves confirmed s x = refl

module _ (chain : Chain) (deployer : Bytes) (d : Delivery) (rest : List Delivery) (l : Ledger)
    (deliveries : l.deliveries ≡ d ∷ rest) where
  -- A rejected transaction is never reported as done and leaves the state.
  pub attempt_rejected :
      (c : Call) (x : Rejection)
      → let s = arrival chain deployer d rest l in
        dispatch chain (own_context chain deployer d s) c s.state ≡ err x
        → (e : Exception) × (attempt chain deployer c l ≡ (err e, arrival chain deployer d rest l))
          × (d.fate ≡ confirmed → e ≡ call_rejected)
  unfolding attempt
  attempt_rejected c x rejected =
      let (e, reported, seen) = report_of_rejection chain deployer d.fate x in
      let s = after_calls chain d.others l.state in
      (
        e,
        rw (deliveries, rejected, reported, rejection_leaves chain deployer d.fate s x) refl,
        seen,
      )

  -- A transaction that lands without an answer changes the state and is reported as a failure.
  pub sent_without_answer :
      (c : Call) (t : State)
      → let s = arrival chain deployer d rest l in
        dispatch chain (own_context chain deployer d s) c s.state ≡ ok t
        → d.fate ≡ unconfirmed
        → attempt chain deployer c l
          ≡ (err connection_failed, record (arrival chain deployer d rest l) { state = t })
  unfolding attempt
  sent_without_answer c t accepted fate = rw (deliveries, accepted, fate) refl

  -- A read whose answer comes back gives the record.
  pub read_of_answered :
      (cell : ℕ) (r : InscriptionRecord)
      → lookup cell l.state.inscriptions ≡ some r
      → d.fate ≡ confirmed
      → attempt_read chain deployer cell l ≡ (ok r, arrival chain deployer d rest l)
  unfolding attempt_read get_inscription
  read_of_answered cell r found fate =
      rw (deliveries, fate, after_calls-recorded chain d.others cell r l.state found) refl
