-- ===== src/Deploy/Retry.antt =====
-- The second attempt of the deployment script, which is sent whatever made the first raise.
use trelyan_falcon_inscripti.Prelude.{ℕ, ◌≡◌, refl, ap, ◌∙◌, List, ◌∷◌, some, arith}
use trelyan_falcon_inscripti.Prelude.Bytes.{Bytes}
use trelyan_falcon_inscripti.Prelude.BoxMap.{lookup, lookup-insert}
use trelyan_falcon_inscripti.Prelude.Result.{err}
use trelyan_falcon_inscripti.Exceptions.{Exception, connection_failed, call_rejected}
use trelyan_falcon_inscripti.Contract.{Chain, inscribe_call, dispatch}
use trelyan_falcon_inscripti.Contract.Accepts.{CanInscribe, inscribed, record_of, inscribe_exactly}
use trelyan_falcon_inscripti.Machine.{World}
use trelyan_falcon_inscripti.Machine.Runs.{run-handler_at}
use trelyan_falcon_inscripti.Ledger.{
  Ledger, Delivery, unconfirmed, confirmed, arrival, own_context, attempt, submit,
}
use trelyan_falcon_inscripti.Ledger.Delivered.{
  after_calls-recorded, recorded_rejects, attempt_rejected, sent_without_answer,
}
use trelyan_falcon_inscripti.Deploy.{inscribe_with_retry}

module _ (chain : Chain) (deployer : Bytes) (cell : ℕ) (hash sig uri : Bytes) where
  -- The outcome of a transaction, from that of the network.
  sent_at :
      (w : World Ledger) (e : Exception) (l : Ledger)
      → attempt chain deployer (inscribe_call cell hash sig uri) w.store ≡ (err e, l)
      → submit chain deployer (inscribe_call cell hash sig uri) w ≡ (err e, record w { store = l })
  unfolding submit
  sent_at w e l sent = ap (λ p. (p.0, record w { store = p.1 })) sent

  -- If the contract accepts the first attempt, its answer is lost and the second attempt is delivered,
  -- then the step raises, with the contract's rejection if the second attempt is answered, although the
  -- cell has the record of the first attempt.
  pub blind_retry_raises :
      (w : World Ledger) (first second : Delivery) (rest : List Delivery)
      → let l = arrival chain deployer first (second ∷ rest) w.store in
        let ctx = own_context chain deployer first l in
        let after = inscribe_with_retry chain deployer cell hash sig uri w in
        w.store.deliveries ≡ first ∷ second ∷ rest
        → first.fate ≡ unconfirmed
        → CanInscribe chain ctx cell hash sig uri l.state
        → (e : Exception) × (after.0 ≡ err e)
          × (second.fate ≡ confirmed → e ≡ call_rejected)
          × (lookup cell after.1.store.state.inscriptions ≡ some (record_of ctx cell hash uri))
  unfolding inscribe_with_retry dispatch
  blind_retry_raises w first second rest deliveries fate can =
      let l = arrival chain deployer first (second ∷ rest) w.store in
      let ctx = own_context chain deployer first l in
      let t = inscribed ctx cell hash uri l.state in
      let l1 : Ledger = record l { state = t } in
      let w1 : World Ledger = record w { store = l1 } in
      let l2 = arrival chain deployer second rest l1 in
      let send = submit chain deployer (inscribe_call cell hash sig uri) in
      let ours = record_of ctx cell hash uri in
      let put = lookup-insert cell cell ours l.state.inscriptions in
      let found : lookup cell t.inscriptions ≡ some ours = ground (arith, put) in
      let kept = after_calls-recorded chain second.others cell ours t found in
      let accepted = (inscribe_exactly chain ctx cell hash sig uri l.state t).1 (can, refl) in
      let sent =
        sent_without_answer chain deployer first (second ∷ rest) w.store deliveries
          (inscribe_call cell hash sig uri) t accepted fate in
      let (x, rejected) =
        recorded_rejects chain (own_context chain deployer second l2) cell hash sig uri ours
          l2.state kept in
      let (e, again, seen) =
        attempt_rejected chain deployer second rest l1 refl (inscribe_call cell hash sig uri) x
          rejected in
      let ends =
        run-handler_at send send w connection_failed w1 (sent_at w connection_failed l1 sent)
        ∙ sent_at w1 e l2 again in
      (e, rw ends refl, seen, rw ends kept)
