-- ===== src/Examples/Written.antt =====
-- What is on the chain when one of the examples returns.
use trelyan_falcon_inscripti.Prelude.{ℕ, ◌≡◌, ◌∙◌, refl, ap, Option, none, some, false, not}
use trelyan_falcon_inscripti.Prelude.Bytes.{Bytes}
use trelyan_falcon_inscripti.Prelude.Result.{Result, ok, or_raise}
use trelyan_falcon_inscripti.Exceptions.{
  Exception, bad_mnemonic, no_mnemonic, no_account, hash_mismatch, not_reconciled,
}
use trelyan_falcon_inscripti.Message.{int, nonneg, build_message}
use trelyan_falcon_inscripti.Contract.{Chain, register_cell_call}
use trelyan_falcon_inscripti.Machine.{World, M, lift, ◌>>=◌, ◌>>◌, raise_unless}
use trelyan_falcon_inscripti.Machine.Triples.{
  Triple, Triple-bind, Triple-pure, Triple-weaken, Triple-ok, Triple-lift, Triple-assume,
}
use trelyan_falcon_inscripti.Falcon
use trelyan_falcon_inscripti.Falcon.{FalconDet1024, keygen}
use trelyan_falcon_inscripti.Falcon.Frame.{keygen-Leaves, new-Leaves_store}
use trelyan_falcon_inscripti.Ledger.{Ledger, read, create_asset, pay, create_app}
use trelyan_falcon_inscripti.Ledger.Keeps.{IsAlone, submit-reaches, read-Triple}
use trelyan_falcon_inscripti.Ledger.Moves.{
  Holds, ledger_untouched, any-error, create_asset-Triple, pay-Triple, create_app-Triple,
}
use trelyan_falcon_inscripti.Client.{
  TrelyanInscriptionClient, cell_params, app_id, network_genesis_hash, new_client, deploy_testnet,
  fund_app, mint_cell, register_cell, get_inscription, inscribe, inscribe_bytes, read_back_matches,
}
use trelyan_falcon_inscripti.Client.Outcome.{network_genesis_hash-keeps}
use trelyan_falcon_inscripti.Client.Standing.{Standing}
use trelyan_falcon_inscripti.Client.Read.{
  Mine, HasRecord, Standing-IsOurs, inscribe-Mine, inscribe_bytes-Mine,
}
use trelyan_falcon_inscripti.Deploy.{set_value}
use trelyan_falcon_inscripti.Deploy.Inscribed.{
  IsEmpty, HasOurs, created-IsEmpty, IsEmpty-IsStable, registers-Standing, HasOurs-IsStable,
}
use trelyan_falcon_inscripti.Examples.{
  Setting, interop_reconciled, default_micro_algo, quickstart_artifact, quickstart_uri,
  interop_artifact, interop_uri, quickstart_with, quickstart, interop_with, interop, Example,
  quickstart_py, interop_py, main, artifact_of, uri_of,
}

named_by :
    (o : Option Bytes) (a b : Bytes) (e : Exception) → o ≡ some a → or_raise o e ≡ ok b → b ≡ a
named_by none a b e h k = cc
named_by (some c) a b e h k = cc

module _ (s : Setting) (c : TrelyanInscriptionClient) where
  abbrev Empty : World Ledger → Type 0
  Empty = Holds c.app c.deployer (IsEmpty c.deployer)

  abbrev Open : ℕ → Bytes → Bytes → World Ledger → Type 0
  Open cell hash uri = Holds c.app c.deployer (Standing c.deployer cell hash uri)

  abbrev Ours : ℕ → Bytes → Bytes → World Ledger → Type 0
  Ours cell hash uri = Holds c.app c.deployer (HasOurs c.deployer cell hash uri)

  fund_app-Triple :
      (amount : ℕ) → Triple Empty (fund_app s.env c amount) (λ _. Empty) (λ _. Unit {0})
  unfolding fund_app
  fund_app-Triple amount =
      any-error c.app c.deployer (IsEmpty c.deployer) (pay c.app c.deployer amount)
        (pay-Triple (IsEmpty-IsStable c.app c.deployer) amount)

  mint_cell-Triple : Triple Empty (mint_cell s.env c) (λ _. Empty) (λ _. Unit {0})
  unfolding mint_cell
  mint_cell-Triple =
      any-error c.app c.deployer (IsEmpty c.deployer)
        (create_asset c.app c.deployer (cell_params c.deployer))
        (create_asset-Triple (IsEmpty-IsStable c.app c.deployer) (cell_params c.deployer))

  register_cell-Triple :
      (cell : ℕ) (pubkey hash uri : Bytes)
      → Triple Empty
          (register_cell s.env c cell c.deployer pubkey)
          (λ _. Open cell hash uri)
          (λ _. Unit {0})
  unfolding register_cell
  register_cell-Triple cell pubkey hash uri =
      submit-reaches (IsEmpty-IsStable c.app c.deployer) (register_cell_call cell c.deployer pubkey)
        (registers-Standing c.app c.deployer cell pubkey hash uri)

  keys-Triple :
      (signer : FalconDet1024)
      → Triple Empty (keygen s.env.system signer) (λ _. Empty) (λ _. Unit {0})
  keys-Triple signer =
      ledger_untouched c.app c.deployer (IsEmpty c.deployer) (keygen s.env.system signer)
        (keygen-Leaves s.env.system signer)

  -- A record in such a standing is the client's own.
  settles :
      (cell : ℕ) (hash uri : Bytes) (w : World Ledger)
      → Mine s.env c cell hash uri w.store
      → HasRecord cell w.store
      → Ours cell hash uri w
  settles cell hash uri w k (r, found) = record {
    holds = record {
      entry = r;
      found = found;
      ours = Standing-IsOurs s.env c cell hash uri w.store.state r k.holds found;
    };
    alone = k.alone;
  }

  -- The read back of an example and its assertion.
  checked-Triple :
      (cell : ℕ) (hash uri artifact : Bytes)
      → Triple
          (Ours cell hash uri)
          (do
            matches ← read_back_matches s.env c cell artifact false
            raise_unless matches hash_mismatch)
          (λ _ w. (n : ℕ) × HasOurs c.deployer n hash uri w.store.state)
          (λ _. Unit {0})
  unfolding read_back_matches get_inscription
  checked-Triple cell hash uri artifact =
      let ours = HasOurs c.deployer cell hash uri in
      let get = read c.app c.deployer cell in
      Triple-bind (read_back_matches s.env c cell artifact false) _
        (Triple-bind get _
          (any-error c.app c.deployer ours get
            (read-Triple (HasOurs-IsStable c.app c.deployer cell hash uri) cell))
          (λ r. Triple-pure _ (λ w k. k)))
        (λ matches.
          Triple-weaken (raise_unless matches hash_mismatch) (λ w k. k)
            (ledger_untouched c.app c.deployer ours (raise_unless matches hash_mismatch)
              (record { at = λ w. refl }))
            (λ a w k. (cell, k.holds)) (λ w e. tt))

  pub quickstart_with-Triple :
      let hash = s.env.sha512_256 quickstart_artifact in
      Triple Empty
        (quickstart_with s c)
        (λ _ w. (n : ℕ) × HasOurs c.deployer n hash quickstart_uri w.store.state)
        (λ _. Unit {0})
  unfolding quickstart_with
  quickstart_with-Triple =
      let art = quickstart_artifact in
      let uri = quickstart_uri in
      let hash = s.env.sha512_256 art in
      Triple-bind (fund_app s.env c default_micro_algo) _ (fund_app-Triple default_micro_algo) (λ _.
        Triple-bind (keygen s.env.system c.signer) _ (keys-Triple c.signer) (λ keys.
          Triple-bind (mint_cell s.env c) _ mint_cell-Triple (λ cell.
            Triple-bind (register_cell s.env c cell c.deployer keys.0) _
              (register_cell-Triple cell keys.0 hash uri)
              (λ _.
                Triple-bind (inscribe_bytes s.env c cell art keys.1 uri) _
                  (Triple-weaken (inscribe_bytes s.env c cell art keys.1 uri) (λ w k. k)
                    (inscribe_bytes-Mine s.env c cell art keys.1 uri)
                    (λ h w k. settles cell hash uri w k.0.0 k.0.1) (λ w k. tt))
                  (λ h. checked-Triple cell hash uri art)))))

  pub interop_with-Triple :
      let hash = s.env.sha512_256 interop_artifact in
      Triple Empty
        (interop_with s c)
        (λ _ w. (n : ℕ) × HasOurs c.deployer n hash interop_uri w.store.state)
        (λ _. Unit {0})
  unfolding interop_with
  interop_with-Triple =
      let art = interop_artifact in
      let uri = interop_uri in
      let hash = s.env.sha512_256 art in
      let made = Falcon.new none s.env.default_lib_path in
      let joined = raise_unless (not interop_reconciled) not_reconciled in
      Triple-bind (fund_app s.env c default_micro_algo) _ (fund_app-Triple default_micro_algo) (λ _.
        Triple-bind (mint_cell s.env c) _ mint_cell-Triple (λ cell.
          Triple-bind joined _
            (ledger_untouched c.app c.deployer (IsEmpty c.deployer) joined
              (record { at = λ w. refl }))
            (λ _.
              Triple-bind made _
                (ledger_untouched c.app c.deployer (IsEmpty c.deployer) made
                  (new-Leaves_store none s.env.default_lib_path))
                (λ signer. Triple-bind (keygen s.env.system signer) _ (keys-Triple signer) (λ keys.
                  Triple-bind (register_cell s.env c cell c.deployer keys.0) _
                    (register_cell-Triple cell keys.0 hash uri)
                    (λ _. signs_and_reads cell keys.1))))))
    where
      signs_and_reads :
          (cell : ℕ) (priv : Bytes)
          → let hash = s.env.sha512_256 interop_artifact in
            Triple
              (Open cell hash interop_uri)
              (do
                genesis ← network_genesis_hash s.env c
                _ ←
                    lift (
                      build_message
                        (int (nonneg (app_id s.env c)))
                        (int (nonneg cell))
                        hash
                        genesis)
                inscribe s.env c cell hash priv interop_uri
                matches ← read_back_matches s.env c cell interop_artifact false
                raise_unless matches hash_mismatch)
              (λ _ w. (n : ℕ) × HasOurs c.deployer n hash interop_uri w.store.state)
              (λ _. Unit {0})
      signs_and_reads cell priv =
          let hash = s.env.sha512_256 interop_artifact in
          let open_to = Standing c.deployer cell hash interop_uri in
          let message = λ (genesis : Bytes).
            build_message (int (nonneg (app_id s.env c))) (int (nonneg cell)) hash genesis in
          Triple-bind (network_genesis_hash s.env c) _
            (any-error c.app c.deployer open_to (network_genesis_hash s.env c)
              (network_genesis_hash-keeps s.env c))
            (λ genesis.
              Triple-bind (lift (message genesis)) _
                (ledger_untouched c.app c.deployer open_to (lift (message genesis))
                  (record { at = λ w. refl }))
                (λ m.
                  Triple-bind (inscribe s.env c cell hash priv interop_uri) _
                    (Triple-weaken (inscribe s.env c cell hash priv interop_uri) (λ w k. k)
                      (inscribe-Mine s.env c cell hash interop_uri priv)
                      (λ _ w k. settles cell hash interop_uri w k.0 k.1) (λ w k. tt))
                    (λ _. checked-Triple cell hash interop_uri interop_artifact)))

module _ (s : Setting) (chain : Chain) (mn deployer : Bytes)
    (named : set_value s.deployer_mnemonic ≡ some mn)
    (account : s.env.from_mnemonic mn ≡ some deployer) where
  -- The client that deploy_testnet gives.
  abbrev client : FalconDet1024 → TrelyanInscriptionClient
  client signer = record { app = chain; deployer = deployer; signer = signer }

  abbrev Alone : World Ledger → Type 0
  Alone w = IsAlone deployer w.store.deliveries

  lift-known :
      {A : Type 0} (r : Result Exception A)
      → Triple Alone (lift r) (λ a w. Alone w × (r ≡ ok a)) (λ _. Unit {0})
  lift-known r = Triple-weaken (lift r) (λ w k. k) (Triple-lift r) (λ a w k. k) (λ w k. tt)

  deploy_testnet-Triple :
      (m : Bytes)
      → m ≡ mn
      → Triple Alone
          (deploy_testnet s.env chain m none)
          (λ c w. Empty s c w × ((signer : FalconDet1024) × (c ≡ client signer)))
          (λ _. Unit {0})
  unfolding deploy_testnet new_client
  deploy_testnet-Triple m same =
      Triple-bind (lift (or_raise (s.env.from_mnemonic m) bad_mnemonic)) _
        (lift-known (or_raise (s.env.from_mnemonic m) bad_mnemonic))
        (λ d. Triple-assume _ (λ found.
          let known =
            named_by _ deployer d bad_mnemonic (ap s.env.from_mnemonic same ∙ account) found in
          rw known (
            Triple-bind (create_app chain deployer) _
              (create_app-Triple (created-IsEmpty chain deployer))
              (λ _.
                let made = Falcon.new none s.env.default_lib_path in
                Triple-bind made _
                  (ledger_untouched chain deployer (IsEmpty deployer) made
                    (new-Leaves_store none s.env.default_lib_path))
                  (λ signer. Triple-pure (client signer) (λ w k. (k, (signer, refl))))))))

  -- An example from the mnemonic on.
  deployed-Triple :
      {Q : Unit {0} → World Ledger → Type 0} (rest : TrelyanInscriptionClient → M Ledger (Unit {0}))
      (m : Bytes)
      → or_raise (set_value s.deployer_mnemonic) no_mnemonic ≡ ok m
      → ((signer : FalconDet1024)
          → Triple (Empty s (client signer)) (rest (client signer)) Q (λ _. Unit {0}))
      → Triple Alone (do c ← deploy_testnet s.env chain m none; rest c) Q (λ _. Unit {0})
  deployed-Triple rest m known t =
      let same = named_by _ mn m no_mnemonic named known in
      Triple-bind (deploy_testnet s.env chain m none) rest (deploy_testnet-Triple m same)
        (λ c. Triple-assume (rest c) (λ e. let (signer, same) = e in rw same (t signer)))

  -- When quickstart.py or interop_algo_pqc_kit.py returns, and the key of the mnemonic's account signed no
  -- other call meanwhile, some cell has a record on the chain that carries the hash of the artifact and the
  -- URI of that script and that account as its inscriber.
  pub example_inscribes :
      (example : Example) (w : World Ledger)
      → IsAlone deployer w.store.deliveries
      → (main s example chain w).0 ≡ ok tt
      → (cell : ℕ) × HasOurs deployer cell
          (s.env.sha512_256 (artifact_of example))
          (uri_of example)
          (main s example chain w).1.store.state
  unfolding quickstart interop
  example_inscribes quickstart_py w alone e =
      Triple-ok (quickstart s chain)
        (Triple-bind (lift (or_raise (set_value s.deployer_mnemonic) no_mnemonic)) _
          (lift-known (or_raise (set_value s.deployer_mnemonic) no_mnemonic))
          (λ m. Triple-assume _ (λ known.
            deployed-Triple (quickstart_with s) m known
              (λ signer. quickstart_with-Triple s (client signer)))))
        w tt alone e
  example_inscribes interop_py w alone e =
      Triple-ok (interop s chain)
        (Triple-bind (lift (or_raise (set_value s.deployer_mnemonic) no_mnemonic)) _
          (lift-known (or_raise (set_value s.deployer_mnemonic) no_mnemonic))
          (λ m. Triple-assume _ (λ known.
            Triple-bind (lift (or_raise s.falcon_account no_account)) _
              (Triple-weaken _ (λ w k. k) (lift-known (or_raise s.falcon_account no_account))
                (λ a w k. k.0) (λ w k. k))
              (λ _.
                deployed-Triple (interop_with s) m known
                  (λ signer. interop_with-Triple s (client signer))))))
        w tt alone e
