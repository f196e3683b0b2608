-- ===== src/Deploy/Network.antt =====
-- What the deployment script checks before it sends anything.
use trelyan_falcon_inscripti.Prelude.{
  ◌≡◌, ◌≢◌, refl, ap, ◌∙◌, false, not, Option, none, some, arith, inl, inr,
}
use trelyan_falcon_inscripti.Prelude.Bytes.{Bytes, bytes_eq, bytes_eq_iff}
use trelyan_falcon_inscripti.Prelude.Result.{ok, or_raise, Result-cases}
use trelyan_falcon_inscripti.Exceptions.{
  Exception, connection_failed, bad_mnemonic, no_mnemonic, looks_like_mainnet, not_testnet,
}
use trelyan_falcon_inscripti.Contract.{Chain}
use trelyan_falcon_inscripti.Machine.{World, M, lift, ◌>>=◌, raise_unless}
use trelyan_falcon_inscripti.Machine.Triples.{
  Triple, Triple-bind, Triple-check, Triple-lift, Triple-assume, Triple-pure, Triple-ok, Triple-err,
}
use trelyan_falcon_inscripti.Machine.Runs.{run-bind_err}
use trelyan_falcon_inscripti.Ledger.{Ledger}
use trelyan_falcon_inscripti.Client.{GenesisField, genesis_of}
use trelyan_falcon_inscripti.Deploy.{
  Script, set_value, names_mainnet, testnet_genesis_b64, connect, set_up, inscribe_demo, main,
}

-- The run is meant for TestNet: there is a mnemonic, the environment does not name MainNet, and the node
-- reports the genesis hash of TestNet.
pub record IsForTestnet (env : Script) : Type 0 where
  pub mnemonic : (mn : Bytes) × (set_value env.deployer_mnemonic ≡ some mn)
  pub not_mainnet : names_mainnet env.algorand_network ≡ false
  pub genesis :
      (field : GenesisField) × (hash : Bytes) × (env.suggested_gh ≡ some field)
      × (genesis_of env.b64decode field ≡ ok hash)
      × (env.b64encode hash ≡ testnet_genesis_b64)

-- What a connection knows: the run is for TestNet, and the account is the mnemonic's.
pub record Connected (env : Script) (r : Bytes × Bytes) : Type 0 where
  pub for_testnet : IsForTestnet env
  pub account :
      (mn : Bytes) × (set_value env.deployer_mnemonic ≡ some mn) × (env.from_mnemonic mn ≡ some r.0)

or_raise-ok : {A : Type 0} (o : Option A) (e : Exception) (a : A) → or_raise o e ≡ ok a → o ≡ some a
or_raise-ok none e a h = cc
or_raise-ok (some b) e a h = cc

module _ (env : Script) (start : World Ledger) where
  abbrev Same : World Ledger → Type 0
  Same w = w ≡ start

  pub connect-Connected : Triple Same (connect env) (λ r w. Same w × Connected env r) Same
  unfolding connect
  connect-Connected =
      let named = or_raise (set_value env.deployer_mnemonic) no_mnemonic in
      let reached = or_raise env.suggested_gh connection_failed in
      Triple-bind (lift named) _ (Triple-lift named) (λ mn. Triple-assume _ (λ has_mnemonic.
        Triple-bind (raise_unless (not (names_mainnet env.algorand_network)) looks_like_mainnet) _
          (Triple-check (not (names_mainnet env.algorand_network)) looks_like_mainnet)
          (λ _. Triple-assume _ (λ allowed.
            Triple-bind (lift (or_raise (env.from_mnemonic mn) bad_mnemonic)) _
              (Triple-lift (or_raise (env.from_mnemonic mn) bad_mnemonic))
              (λ deployer. Triple-assume _ (λ funded.
                Triple-bind (lift reached) _ (Triple-lift reached) (λ field.
                  Triple-assume _ (λ answered.
                    Triple-bind (lift (genesis_of env.b64decode field)) _
                      (Triple-lift (genesis_of env.b64decode field))
                      (λ hash. Triple-assume _ (λ decoded.
                        Triple-bind
                          (raise_unless (bytes_eq (env.b64encode hash) testnet_genesis_b64)
                            not_testnet)
                          _
                          (Triple-check (bytes_eq (env.b64encode hash) testnet_genesis_b64)
                            not_testnet)
                          (λ _.
                            Triple-pure (deployer, hash)
                              (λ w q. (
                                q.0,
                                record {
                                  for_testnet = record {
                                    mnemonic = (mn, or_raise-ok _ no_mnemonic mn has_mnemonic);
                                    not_mainnet = ground arith;
                                    genesis = (
                                      field,
                                      hash,
                                      or_raise-ok _ connection_failed field answered,
                                      decoded,
                                      (bytes_eq_iff (env.b64encode hash) testnet_genesis_b64).0 q.1,
                                    );
                                  };
                                  account = (
                                    mn,
                                    or_raise-ok _ no_mnemonic mn has_mnemonic,
                                    or_raise-ok _ bad_mnemonic deployer funded,
                                  );
                                },
                              )))))))))))))

  -- If a run of the script leaves the world other than it was (a transaction sent, a line written, a key
  -- made, or the library loaded), then there is a mnemonic, the environment does not name MainNet, and the
  -- node has reported the genesis hash of TestNet.
  pub main_only_on_testnet : (chain : Chain) → (main env chain start).1 ≢ start → IsForTestnet env
  unfolding main
  main_only_on_testnet chain changed = elim (Result-cases (connect env start).0) [
    | inl (r, e) ↦
        let (_, known) = Triple-ok (connect env) connect-Connected start r refl e in
        known.for_testnet
    | inr (x, e) ↦
        let rest : Bytes × Bytes → M Ledger (Unit {0}) = λ (deployer, genesis).
          set_up env chain deployer >>= λ (cell, pk, sk).
          inscribe_demo env chain deployer cell pk sk genesis in
        let stops = run-bind_err (connect env) rest start x e in
        absurd (
          changed (ap (λ p. p.1) stops ∙ Triple-err (connect env) connect-Connected start x refl e))
  ]
