-- ===== src/Client/Outcome.antt =====
-- What `inscribe` leaves, from what a transaction and a read leave.
use trelyan_falcon_inscripti.Prelude.{ℕ, ◌==◌, length, Bool, true, false, if◌then◌else◌}
use trelyan_falcon_inscripti.Prelude.Bytes.{Bytes}
use trelyan_falcon_inscripti.Prelude.Result.{or_raise}
use trelyan_falcon_inscripti.Message.{int, nonneg, build_message, box_refs}
use trelyan_falcon_inscripti.Contract.{inscribe_call}
use trelyan_falcon_inscripti.Exceptions.{connection_failed, bad_hash_argument}
use trelyan_falcon_inscripti.Machine.{World, pure, lift, raise_unless}
use trelyan_falcon_inscripti.Machine.Triples.{
  Triple, Triple-bind, Triple-check, Triple-lift, Triple-try_except, Triple-weaken, Triple-pure,
  Leaves-Triple,
}
use trelyan_falcon_inscripti.Falcon.{sign}
use trelyan_falcon_inscripti.Falcon.Frame.{
  lib_ref-Leaves_store, write_output-Leaves_store, sign-Leaves,
}
use trelyan_falcon_inscripti.Ledger.{Ledger, submit, read}
use trelyan_falcon_inscripti.Client.{
  FalconDet1024, Result, Exception, System, Environment, TrelyanInscriptionClient, app_id,
  genesis_of, network_genesis_hash, get_inscription, submit_static, already_inscribed, submit_again,
  inscribe,
}

module _ {P : World Ledger → Type 0} where
  -- A step that does not touch the world.
  pub lift-keeps : {A : Type 0} (r : Result Exception A) → Triple P (lift r) (λ _. P) P
  lift-keeps r = Triple-weaken (lift r) (λ w p. p) (Triple-lift r) (λ a w p. p.0) (λ w p. p)

  pub check-keeps : (test : Bool) (e : Exception) → Triple P (raise_unless test e) (λ _. P) P
  check-keeps test e =
      Triple-weaken (raise_unless test e) (λ w p. p) (Triple-check test e) (λ a w p. p.0) (λ w p. p)

  pub network_genesis_hash-keeps :
      (env : Environment) (self : TrelyanInscriptionClient)
      → Triple P (network_genesis_hash env self) (λ _. P) P
  unfolding network_genesis_hash
  network_genesis_hash-keeps env self =
      Triple-bind (lift (or_raise env.suggested_gh connection_failed)) _
        (lift-keeps (or_raise env.suggested_gh connection_failed))
        (λ gh. lift-keeps (genesis_of env.b64decode gh))

-- Signing does not send anything.
sign-keeps :
    (P : Ledger → Type 0) (system : System) (signer : FalconDet1024) (privkey m : Bytes)
    → Triple (λ w. P w.store) (sign system signer privkey m) (λ _ w. P w.store) (λ w. P w.store)
sign-keeps P system signer privkey m = Leaves-Triple P (sign system signer privkey m) (
    sign-Leaves system signer (lib_ref-Leaves_store system signer) write_output-Leaves_store privkey
      m)

module _ (env : Environment) (self : TrelyanInscriptionClient) (P Q : Ledger → Type 0) (cell : ℕ)
    (hash uri : Bytes) where
  abbrev Before : World Ledger → Type 0
  Before w = P w.store

  abbrev After : {A : Type 0} → A → World Ledger → Type 0
  After a w = Q w.store

  -- What an attempt to inscribe and a read of the record have to leave.
  pub record Attempts : Type 0 where
    pub sends :
        (sig : Bytes)
        → Triple Before
            (submit self.app self.deployer (inscribe_call cell hash sig uri))
            After
            Before
    pub reads : Triple Before (read self.app self.deployer cell) After Before

  module _ (attempts : Attempts) (privkey : Bytes) where
    submit_static-Triple :
        (sig : Bytes) → Triple Before (submit_static env self cell hash sig uri) After Before
    unfolding submit_static
    submit_static-Triple sig =
        Triple-bind (lift (box_refs (int (nonneg cell)))) _
          (lift-keeps (box_refs (int (nonneg cell)))) (λ refs. attempts.sends sig)

    abbrev Known : Bool → World Ledger → Type 0
    Known true w = Q w.store
    Known false w = P w.store

    already_inscribed-Triple : Triple Before (already_inscribed env self cell) Known Before
    unfolding already_inscribed get_inscription
    already_inscribed-Triple =
        Triple-try_except Before _ (pure false)
          (Triple-bind (read self.app self.deployer cell) _ attempts.reads
            (λ r. Triple-pure true (λ w q. q)))
          (Triple-pure false (λ w p. p))

    submit_again-Triple :
        (sig : Bytes) → Triple Before (submit_again env self cell hash sig uri) After Before
    unfolding submit_again
    submit_again-Triple sig =
        Triple-bind (already_inscribed env self cell) _ already_inscribed-Triple rest
      where
        rest :
            (already : Bool)
            → Triple
                (Known already)
                (if already
                  then pure tt
                  else (submit self.app self.deployer (inscribe_call cell hash sig uri)))
                After
                Before
        rest true = Triple-pure tt (λ w q. q)
        rest false = attempts.sends sig

    pub inscribe-Triple : Triple Before (inscribe env self cell hash privkey uri) After Before
    unfolding inscribe
    inscribe-Triple =
        Triple-bind (raise_unless (length hash == 32) bad_hash_argument) _
          (check-keeps (length hash == 32) bad_hash_argument)
          (λ _.
            Triple-bind (network_genesis_hash env self) _ (network_genesis_hash-keeps env self)
              (λ genesis.
                let built =
                  build_message (int (nonneg (app_id env self))) (int (nonneg cell)) hash genesis in
                Triple-bind (lift built) _ (lift-keeps built) (λ m.
                  Triple-bind (sign env.system self.signer privkey m) _
                    (sign-keeps P env.system self.signer privkey m)
                    (λ sig.
                      Triple-try_except Before (submit_static env self cell hash sig uri)
                        (submit_again env self cell hash sig uri) (submit_static-Triple sig)
                        (submit_again-Triple sig)))))
