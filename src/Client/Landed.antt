-- ===== src/Client/Landed.antt =====
-- `inscribe` when its first attempt raises and the cell has a record all the same: the attempt landed
-- and its answer was lost, or the cell was inscribed before.
use trelyan_falcon_inscripti.Prelude.{
  ◌∙◌, ℕ, ◌≡◌, refl, ap, some, List, ◌∷◌, true, false, arith, ◌==◌, length, if◌then◌else◌,
}
use trelyan_falcon_inscripti.Prelude.Bytes.{Bytes}
use trelyan_falcon_inscripti.Prelude.BoxMap.{lookup, lookup-insert}
use trelyan_falcon_inscripti.Prelude.Result.{ok, err, or_raise}
use trelyan_falcon_inscripti.Exceptions.{Exception, connection_failed, bad_hash_argument}
use trelyan_falcon_inscripti.Message.{int, nonneg, build_message, box_refs}
use trelyan_falcon_inscripti.Contract.{InscriptionRecord, inscribe_call, dispatch}
use trelyan_falcon_inscripti.Contract.Accepts.{CanInscribe, inscribed, record_of, inscribe_exactly}
use trelyan_falcon_inscripti.Machine.{◌>>=◌, World, try_except}
use trelyan_falcon_inscripti.Machine.Runs.{
  run-lift, run-check, run-bind, run-bind_at, run-body_at, run-handler_at,
}
use trelyan_falcon_inscripti.Falcon.{sign}
use trelyan_falcon_inscripti.Falcon.Frame.{
  sign-Leaves, lib_ref-Leaves_store, write_output-Leaves_store,
}
use trelyan_falcon_inscripti.Ledger.{
  Ledger, Delivery, unconfirmed, confirmed, arrival, own_context, attempt, attempt_read, submit,
  read,
}
use trelyan_falcon_inscripti.Ledger.Delivered.{
  after_calls-recorded, recorded_rejects, attempt_rejected, sent_without_answer, read_of_answered,
}
use trelyan_falcon_inscripti.Client.{
  M, pure, lift, Environment, TrelyanInscriptionClient, GenesisField, app_id, genesis_of,
  network_genesis_hash, get_inscription, submit_static, already_inscribed, submit_again, inscribe,
}

module _ (env : Environment) (self : TrelyanInscriptionClient) (cell : ℕ)
    (hash privkey uri : Bytes) where
  -- Everything up to the first attempt works: the arguments are well formed, the node names the network
  -- and the signature is made.
  pub record Signs (w : World Ledger) (sig : Bytes) : Type 0 where
    pub hash_length : length hash ≡ 32
    pub field : GenesisField
    pub answered : env.suggested_gh ≡ some field
    pub genesis : Bytes
    pub decoded : genesis_of env.b64decode field ≡ ok genesis
    pub message : Bytes
    pub built :
        build_message (int (nonneg self.app.app_id)) (int (nonneg cell)) hash genesis ≡ ok message
    pub refs : List Bytes
    pub named : box_refs (int (nonneg cell)) ≡ ok refs
    pub signed : (sign env.system self.signer privkey message w).0 ≡ ok sig

  -- What the rest of the call starts from.
  abbrev signed_world : (w : World Ledger) (sig : Bytes) → Signs w sig → World Ledger
  signed_world w sig p = (sign env.system self.signer privkey p.message w).1

  names_network :
      (w : World Ledger) (sig : Bytes) (p : Signs w sig)
      → network_genesis_hash env self w ≡ (ok p.genesis, w)
  unfolding network_genesis_hash
  names_network w sig p =
      run-lift (or_raise env.suggested_gh connection_failed)
        (λ gh. lift (genesis_of env.b64decode gh)) w p.field
        (ap (λ gh. or_raise gh connection_failed) p.answered)
      ∙ ap (λ r. (r, w)) p.decoded

  -- What follows each step of `inscribe`.
  abbrev with_signature : Bytes → M Ledger (Unit {0})
  with_signature sig =
      try_except (submit_static env self cell hash sig uri)
        (submit_again env self cell hash sig uri)

  abbrev with_message : Bytes → M Ledger (Unit {0})
  with_message m = sign env.system self.signer privkey m >>= with_signature

  abbrev with_genesis : Bytes → M Ledger (Unit {0})
  with_genesis genesis =
      lift (build_message (int (nonneg (app_id env self))) (int (nonneg cell)) hash genesis)
      >>= with_message

  reaches_attempts :
      (w : World Ledger) (sig : Bytes) (p : Signs w sig)
      → inscribe env self cell hash privkey uri w
        ≡ try_except
            (submit_static env self cell hash sig uri)
            (submit_again env self cell hash sig uri)
            (signed_world w sig p)
  unfolding inscribe network_genesis_hash app_id
  reaches_attempts w sig p =
      let built =
        build_message (int (nonneg (app_id env self))) (int (nonneg cell)) hash p.genesis in
      run-check (length hash == 32) bad_hash_argument
        (network_genesis_hash env self >>= with_genesis) w (ground (arith, p.hash_length))
      ∙ (run-bind_at (network_genesis_hash env self) with_genesis w p.genesis w
            (names_network w sig p)
          ∙ (run-lift built with_message w p.message p.built
              ∙ run-bind (sign env.system self.signer privkey p.message) with_signature w sig
                  p.signed))

  -- The outcome of a transaction and of a read, from that of the network.
  sent_at :
      (w : World Ledger) (sig : Bytes) (refs : List Bytes) (e : Exception) (l : Ledger)
      → box_refs (int (nonneg cell)) ≡ ok refs
      → attempt self.app self.deployer (inscribe_call cell hash sig uri) w.store ≡ (err e, l)
      → submit_static env self cell hash sig uri w ≡ (err e, record w { store = l })
  unfolding submit_static submit
  sent_at w sig refs e l named sent =
      let send : List Bytes → M Ledger (Unit {0}) =
        λ _. submit self.app self.deployer (inscribe_call cell hash sig uri) in
      run-lift (box_refs (int (nonneg cell))) send w refs named
      ∙ ap (λ p. (p.0, record w { store = p.1 })) sent

  looks_at :
      (w : World Ledger) (l : Ledger) (r : InscriptionRecord)
      → attempt_read self.app self.deployer cell w.store ≡ (ok r, l)
      → already_inscribed env self cell w ≡ (ok true, record w { store = l })
  unfolding already_inscribed get_inscription read
  looks_at w l r found =
      let get = read self.app self.deployer cell in
      let w' : World Ledger = record w { store = l } in
      run-body_at (get >>= λ _. pure true) (pure false) w true w'
        (run-bind_at get (λ _. pure true) w r w' (ap (λ p. (p.0, record w { store = p.1 })) found))

  resumes :
      (w : World Ledger) (sig : Bytes) (refs : List Bytes) (e : Exception) (l1 l2 : Ledger)
      (r : InscriptionRecord)
      → box_refs (int (nonneg cell)) ≡ ok refs
      → attempt self.app self.deployer (inscribe_call cell hash sig uri) w.store ≡ (err e, l1)
      → attempt_read self.app self.deployer cell l1 ≡ (ok r, l2)
      → try_except
          (submit_static env self cell hash sig uri)
          (submit_again env self cell hash sig uri)
          w
        ≡ (ok tt, record w { store = l2 })
  unfolding submit_again
  resumes w sig refs e l1 l2 r named sent found =
      let w1 : World Ledger = record w { store = l1 } in
      run-handler_at (submit_static env self cell hash sig uri)
        (submit_again env self cell hash sig uri) w e w1 (sent_at w sig refs e l1 named sent)
      ∙ run-bind_at (already_inscribed env self cell)
          (λ already.
            if already
            then pure tt
            else (submit self.app self.deployer (inscribe_call cell hash sig uri)))
          w1 true (record w { store = l2 }) (looks_at w1 l2 r found)

  -- If the first attempt raises, the cell then has a record and the read that follows is answered, then
  -- the call returns and the record is still there.
  after_attempt :
      (w : World Ledger) (sig : Bytes) (p : Signs w sig) (e : Exception) (l1 : Ledger)
      (second : Delivery) (rest : List Delivery) (r : InscriptionRecord)
      → attempt self.app self.deployer (inscribe_call cell hash sig uri) w.store ≡ (err e, l1)
      → l1.deliveries ≡ second ∷ rest
      → second.fate ≡ confirmed
      → lookup cell l1.state.inscriptions ≡ some r
      → ((inscribe env self cell hash privkey uri w).0 ≡ ok tt)
        × (lookup cell (inscribe env self cell hash privkey uri w).1.store.state.inscriptions
            ≡ some r)
  after_attempt w sig p e l1 second rest r sent next fate found =
      let w' = signed_world w sig p in
      let left =
        sign-Leaves env.system self.signer (lib_ref-Leaves_store env.system self.signer)
          write_output-Leaves_store privkey p.message in
      let same : w'.store ≡ w.store = left.at w in
      let sent' : attempt self.app self.deployer (inscribe_call cell hash sig uri) w'.store
          ≡ (err e, l1) =
        rw same sent in
      let l2 = arrival self.app self.deployer second rest l1 in
      let ends =
        resumes w' sig p.refs e l1 l2 r p.named sent'
          (read_of_answered self.app self.deployer second rest l1 next cell r found fate) in
      let kept : lookup cell l2.state.inscriptions ≡ some r =
        after_calls-recorded self.app second.others cell r l1.state found in
      rw (reaches_attempts w sig p, ends) (refl, kept)

  -- If everything up to the first attempt works, the contract accepts the first attempt, its answer is
  -- lost, and the answer to the read that follows is not, then `inscribe` returns, and the cell has the
  -- record of the first attempt.
  pub landed_inscribe_returns :
      (w : World Ledger) (sig : Bytes) (first second : Delivery) (rest : List Delivery)
      → let l = arrival self.app self.deployer first (second ∷ rest) w.store in
        let ctx = own_context self.app self.deployer first l in
        Signs w sig
        → w.store.deliveries ≡ first ∷ second ∷ rest
        → first.fate ≡ unconfirmed
        → second.fate ≡ confirmed
        → CanInscribe self.app ctx cell hash sig uri l.state
        → ((inscribe env self cell hash privkey uri w).0 ≡ ok tt)
          × (lookup cell (inscribe env self cell hash privkey uri w).1.store.state.inscriptions
              ≡ some (record_of ctx cell hash uri))
  unfolding dispatch
  landed_inscribe_returns w sig first second rest p deliveries fate fate' can =
      let l = arrival self.app self.deployer first (second ∷ rest) w.store in
      let ctx = own_context self.app self.deployer first l in
      let t = inscribed ctx cell hash uri l.state in
      let accepted = (inscribe_exactly self.app ctx cell hash sig uri l.state t).1 (can, refl) in
      let put = lookup-insert cell cell (record_of ctx cell hash uri) l.state.inscriptions in
      after_attempt w sig p connection_failed (record l { state = t }) second rest
        (record_of ctx cell hash uri)
        (sent_without_answer self.app self.deployer first (second ∷ rest) w.store deliveries
          (inscribe_call cell hash sig uri) t accepted fate)
        refl fate' (ground (arith, put))

  -- If everything up to the first attempt works, the cell has a record already and the second
  -- transaction is answered, then `inscribe` returns, with the record as it was: whatever hash, URI and
  -- inscriber that record has, the call reports success.
  pub inscribe_over_record_returns :
      (w : World Ledger) (sig : Bytes) (first second : Delivery) (rest : List Delivery)
      (r : InscriptionRecord)
      → Signs w sig
      → w.store.deliveries ≡ first ∷ second ∷ rest
      → second.fate ≡ confirmed
      → lookup cell w.store.state.inscriptions ≡ some r
      → ((inscribe env self cell hash privkey uri w).0 ≡ ok tt)
        × (lookup cell (inscribe env self cell hash privkey uri w).1.store.state.inscriptions
            ≡ some r)
  inscribe_over_record_returns w sig first second rest r p deliveries fate found =
      let l = arrival self.app self.deployer first (second ∷ rest) w.store in
      let kept : lookup cell l.state.inscriptions ≡ some r =
        after_calls-recorded self.app first.others cell r w.store.state found in
      let (x, rejected) =
        recorded_rejects self.app (own_context self.app self.deployer first l) cell hash sig uri r
          l.state kept in
      let (e, sent, _) =
        attempt_rejected self.app self.deployer first (second ∷ rest) w.store deliveries
          (inscribe_call cell hash sig uri) x rejected in
      after_attempt w sig p e l second rest r sent refl fate kept
