-- ===== src/Deploy/Run.antt =====
-- A run of the deployment script from its first transaction to its end.
use trelyan_falcon_inscripti.Prelude.{ℕ, ◌≡◌, refl, ap, Option, some, arith}
use trelyan_falcon_inscripti.Prelude.Bytes.{Bytes, bytes_eq}
use trelyan_falcon_inscripti.Prelude.Result.{ok}
use trelyan_falcon_inscripti.Exceptions.{hash_mismatch, reverify_failed}
use trelyan_falcon_inscripti.Message.{int, nonneg, reference_build_message}
use trelyan_falcon_inscripti.Contract.{Chain, State, register_cell_call, inscribe_call}
use trelyan_falcon_inscripti.Machine.{World, M, pure, lift, ◌>>=◌, ◌>>◌, raise_unless}
use trelyan_falcon_inscripti.Machine.Leaves.{Leaves}
use trelyan_falcon_inscripti.Machine.Triples.{
  Triple-assume, Triple, Triple-bind, Triple-check, Triple-pure, Triple-weaken, Triple-results,
  Triple-ok, Triple-err, Triple-try_except,
}
use trelyan_falcon_inscripti.Falcon.Reference.{
  reference_keygen, sign_compressed, verify_compressed, reference_keygen-Leaves,
  sign_compressed-Leaves, verify_compressed-Leaves,
}
use trelyan_falcon_inscripti.Ledger.{Delivery, Ledger, submit, read, create_asset, pay, create_app}
use trelyan_falcon_inscripti.Ledger.Keeps.{
  IsStable, IsAlone, submit-Triple, submit-reaches, read-Triple,
}
use trelyan_falcon_inscripti.Ledger.Moves.{
  Holds, ledger_untouched, any-error, create_asset-Triple, pay-Triple, create_app-Triple,
}
use trelyan_falcon_inscripti.Client.{cell_params}
use trelyan_falcon_inscripti.Client.Standing.{Standing, Standing-IsStable, Standing-IsKeptBy}
use trelyan_falcon_inscripti.Deploy.{
  List, Script, name_app_id, name_cell_id, demo_artifact, demo_uri, set_value, write_github_output,
  inscribe_with_retry, read_back, connect, set_up, inscribe_demo, main,
}
use trelyan_falcon_inscripti.Deploy.Network.{Connected, connect-Connected}
use trelyan_falcon_inscripti.Deploy.Inscribed.{
  IsEmpty, HasOurs, created-IsEmpty, IsEmpty-IsStable, registers-Standing, HasOurs-IsStable,
  inscribes-HasOurs,
}

module _ (chain : Chain) (deployer : Bytes) where
  write_github_output-Leaves :
      (path : Option Bytes) (name value : Bytes)
      → Leaves {X = State × List Delivery}
          (λ w. (w.store.state, w.store.deliveries))
          (write_github_output path name value)
  unfolding write_github_output
  write_github_output-Leaves path name value = record { at = λ w. ground arith }

  -- A line for the workflow changes nothing on the network.
  write_github_output-Triple :
      (I : State → Type 0) (path : Option Bytes) (name value : Bytes)
      → Triple
          (Holds chain deployer I)
          (write_github_output path name value)
          (λ _. Holds chain deployer I)
          (λ _. Unit {0})
  unfolding write_github_output
  write_github_output-Triple I path name value =
      Triple-results (write_github_output path name value)
        (λ w a k e.
          let l = write_github_output-Leaves path name value in
          record {
            holds = rw (ap (λ q. q.0) (l.at w)) k.holds;
            alone = rw (ap (λ q. q.1) (l.at w)) k.alone;
          })
        (λ w x k e. tt)

  inscribe_with_retry-Triple :
      (cell : ℕ) (hash sig uri : Bytes)
      → Triple
          (Holds chain deployer (Standing deployer cell hash uri))
          (inscribe_with_retry chain deployer cell hash sig uri)
          (λ _. Holds chain deployer (HasOurs deployer cell hash uri))
          (λ _. Unit {0})
  unfolding inscribe_with_retry
  inscribe_with_retry-Triple cell hash sig uri =
      Triple-try_except (Holds chain deployer (Standing deployer cell hash uri)) send send
        (Triple-results send (λ w a k e. Triple-ok send reaches w a k e)
          (λ w x k e. Triple-err send keeps w x k e))
        reaches
    where
      send : M Ledger (Unit {0})
      send = submit chain deployer (inscribe_call cell hash sig uri)

      stable : IsStable chain deployer (Standing deployer cell hash uri)
      stable = Standing-IsStable chain deployer cell hash uri

      reaches :
          Triple
            (Holds chain deployer (Standing deployer cell hash uri))
            send
            (λ _. Holds chain deployer (HasOurs deployer cell hash uri))
            (λ _. Unit {0})
      reaches =
          submit-reaches stable (inscribe_call cell hash sig uri)
            (inscribes-HasOurs chain deployer cell hash sig uri)

      keeps :
          Triple
            (Holds chain deployer (Standing deployer cell hash uri))
            send
            (λ _. Holds chain deployer (Standing deployer cell hash uri))
            (Holds chain deployer (Standing deployer cell hash uri))
      keeps =
          submit-Triple stable (inscribe_call cell hash sig uri)
            (Standing-IsKeptBy chain deployer cell hash uri sig)

  read_back-Triple :
      (I : State → Type 0) (cell : ℕ) (hash : Bytes)
      → IsStable chain deployer I
      → Triple
          (Holds chain deployer I)
          (read_back chain deployer cell hash)
          (λ _. Holds chain deployer I)
          (λ _. Unit {0})
  unfolding read_back
  read_back-Triple I cell hash stable =
      Triple-try_except (Holds chain deployer I) _ (pure tt)
        (Triple-bind (read chain deployer cell) _ (read-Triple stable cell) (λ rec.
          let test = bytes_eq rec.artifact_hash hash in
          Triple-weaken (raise_unless test hash_mismatch) (λ w p. p)
            (Triple-check test hash_mismatch) (λ a w p. p.0) (λ w p. p)))
        (Triple-pure tt (λ w p. p))

module _ (env : Script) (chain : Chain) (deployer : Bytes) where
  set_up-Triple :
      (hash uri : Bytes)
      → Triple
          (λ w. IsAlone deployer w.store.deliveries)
          (set_up env chain deployer)
          (λ r. Holds chain deployer (Standing deployer r.0 hash uri))
          (λ _. Unit {0})
  unfolding set_up
  set_up-Triple hash uri =
      let empty = IsEmpty-IsStable chain deployer in
      let I = IsEmpty deployer in
      Triple-bind (create_app chain deployer) _ (create_app-Triple (created-IsEmpty chain deployer))
        (λ _.
          Triple-bind (write_github_output env.github_output name_app_id (env.decimal chain.app_id))
            _
            (write_github_output-Triple chain deployer I env.github_output name_app_id
              (env.decimal chain.app_id))
            (λ _.
              Triple-bind (pay chain deployer 1500000) _
                (any-error chain deployer I (pay chain deployer 1500000) (pay-Triple empty 1500000))
                (λ _.
                  Triple-bind (reference_keygen env.system env.falcon_lib) _
                    (ledger_untouched chain deployer I (reference_keygen env.system env.falcon_lib)
                      (reference_keygen-Leaves env.system env.falcon_lib))
                    (λ pair. with_key pair.0 pair.1))))
    where
      with_key :
          (pk sk : Bytes)
          → Triple {A = ℕ × Bytes × Bytes}
              (Holds chain deployer (IsEmpty deployer))
              (do
                cell ← create_asset chain deployer (cell_params deployer)
                write_github_output env.github_output name_cell_id (env.decimal cell)
                submit chain deployer (register_cell_call cell deployer pk)
                pure (cell, pk, sk))
              (λ r. Holds chain deployer (Standing deployer r.0 hash uri))
              (λ _. Unit {0})
      with_key pk sk =
          let empty = IsEmpty-IsStable chain deployer in
          Triple-bind (create_asset chain deployer (cell_params deployer)) _
            (any-error chain deployer (IsEmpty deployer)
              (create_asset chain deployer (cell_params deployer))
              (create_asset-Triple empty (cell_params deployer)))
            (λ cell.
              Triple-bind (write_github_output env.github_output name_cell_id (env.decimal cell)) _
                (write_github_output-Triple chain deployer (IsEmpty deployer) env.github_output
                  name_cell_id (env.decimal cell))
                (λ _.
                  Triple-bind (submit chain deployer (register_cell_call cell deployer pk)) _
                    (submit-reaches empty (register_cell_call cell deployer pk)
                      (registers-Standing chain deployer cell pk hash uri))
                    (λ _. Triple-pure (cell, pk, sk) (λ w k. k))))

  inscribe_demo-Triple :
      (cell : ℕ) (pk sk genesis : Bytes)
      → let hash = env.sha512_256 demo_artifact in
        Triple
          (Holds chain deployer (Standing deployer cell hash demo_uri))
          (inscribe_demo env chain deployer cell pk sk genesis)
          (λ _. Holds chain deployer (HasOurs deployer cell hash demo_uri))
          (λ _. Unit {0})
  unfolding inscribe_demo
  inscribe_demo-Triple cell pk sk genesis =
      let hash = env.sha512_256 demo_artifact in
      let built =
        reference_build_message (int (nonneg chain.app_id)) (int (nonneg cell)) hash genesis in
      let stable = HasOurs-IsStable chain deployer cell hash demo_uri in
      let open_to = Standing deployer cell hash demo_uri in
      let ours = HasOurs deployer cell hash demo_uri in
      Triple-bind (lift built) _
        (ledger_untouched chain deployer open_to (lift built) (record { at = λ w. refl }))
        (λ m.
          Triple-bind (sign_compressed env.system env.falcon_lib sk m) _
            (ledger_untouched chain deployer open_to
              (sign_compressed env.system env.falcon_lib sk m)
              (sign_compressed-Leaves env.system env.falcon_lib sk m))
            (λ sig.
              Triple-bind (inscribe_with_retry chain deployer cell hash sig demo_uri) _
                (inscribe_with_retry-Triple chain deployer cell hash sig demo_uri)
                (λ _.
                  Triple-bind (read_back chain deployer cell hash) _
                    (read_back-Triple chain deployer (HasOurs deployer cell hash demo_uri) cell hash
                      stable)
                    (λ _.
                      Triple-bind (verify_compressed env.system env.falcon_lib sig pk m) _
                        (ledger_untouched chain deployer ours
                          (verify_compressed env.system env.falcon_lib sig pk m)
                          (verify_compressed-Leaves env.system env.falcon_lib sig pk m))
                        (λ verified.
                          ledger_untouched chain deployer ours
                            (raise_unless verified reverify_failed) (record { at = λ w. refl }))))))

module _ (env : Script) (chain : Chain) (mn deployer : Bytes)
    (named : set_value env.deployer_mnemonic ≡ some mn)
    (account : env.from_mnemonic mn ≡ some deployer) where
  -- `main` from the connection on, for the account of the mnemonic.
  from_connection :
      (r : Bytes × Bytes)
      → r.0 ≡ deployer
      → Triple
          (λ w. IsAlone deployer w.store.deliveries)
          (do (cell, pk, sk) ← set_up env chain r.0; inscribe_demo env chain r.0 cell pk sk r.1)
          (λ _ w.
            (cell : ℕ) × HasOurs deployer cell
              (env.sha512_256 demo_artifact)
              demo_uri
              w.store.state)
          (λ _. Unit {0})
  from_connection r same =
      let hash = env.sha512_256 demo_artifact in
      rw same (
        Triple-bind (set_up env chain deployer) _ (set_up-Triple env chain deployer hash demo_uri)
          (λ t.
            Triple-weaken (inscribe_demo env chain deployer t.0 t.1 t.2 r.1) (λ w k. k)
              (inscribe_demo-Triple env chain deployer t.0 t.1 t.2 r.1) (λ a w k. (t.0, k.holds))
              (λ w e. tt)))

  -- When a run of the script returns, and the key of the mnemonic's account signed no other call
  -- meanwhile, then some cell has a record on the chain that carries the hash of the demo artifact, the demo
  -- URI and that account as its inscriber, whichever of the two attempts landed.
  pub main_inscribes :
      (w : World Ledger)
      → IsAlone deployer w.store.deliveries
      → (main env chain w).0 ≡ ok tt
      → (cell : ℕ) × HasOurs deployer cell
          (env.sha512_256 demo_artifact)
          demo_uri
          (main env chain w).1.store.state
  unfolding main
  main_inscribes w alone e =
      Triple-ok (main env chain)
        (Triple-bind (connect env) _ connected (λ r. Triple-assume {P = λ v. v ≡ w} _ (λ known.
          Triple-weaken _ (λ v q. rw (ap (λ u. u.store.deliveries) q) alone)
            (from_connection r (same_account r known)) (λ a v k. k) (λ v k. k))))
        w tt refl e
    where
      same_account : (r : Bytes × Bytes) → Connected env r → r.0 ≡ deployer
      same_account r known =
          let (mn', named', account') = known.account in
          let same : mn' ≡ mn = cc in
          let account'' : env.from_mnemonic mn ≡ some r.0 = rw same at account' in cc

      connected :
          Triple (λ v. v ≡ w) (connect env) (λ r v. (v ≡ w) × Connected env r) (λ _. Unit {0})
      connected =
          Triple-weaken (connect env) (λ v p. p) (connect-Connected env w) (λ r v q. q) (λ v p. tt)
