-- ===== src/Checks/Deployment/Exit.antt =====
-- The exit code of the check of a deployment.
use trelyan_falcon_inscripti.Prelude.{
  ℕ, ◌≡◌, ◌≢◌, ◌↔◌, refl, Bool, true, false, Option, none, some, [], ◌∷◌, arith, inl, inr,
  if◌then◌else◌, Bool-cases,
}
use trelyan_falcon_inscripti.Prelude.Bytes.{Bytes, bytes_eq, bytes_eq_iff}
use trelyan_falcon_inscripti.Prelude.Result.{Result, ok, err, or_raise, bind-ok, ◌>>=◌}
use trelyan_falcon_inscripti.Checks.{Failure, check_error, crashed}
use trelyan_falcon_inscripti.Checks.Teal.Exit.{or_raise-ok}
use trelyan_falcon_inscripti.Checks.Deployment.{
  Outside, Arguments, assemble, fetch_deployed, committed_avm_version, recompile_from_source,
  recompiles, matches_chain, verdict, exit_code,
}

module _ (outside : Outside) where
  -- The committed TEAL assembles to the program that the application has, by a field that is not empty.
  pub record IsDeployed (teal : Bytes) : Type 0 where
    pub program : Bytes
    pub assembled : outside.assembled teal ≡ some program
    pub field : Bytes
    pub nonempty : field ≢ []
    pub on_chain : outside.program ≡ some (some field)
    pub decoded : outside.b64decode field ≡ some program

  -- The committed TEAL and a fresh compile of the source for the same AVM have the same program.
  pub record IsRecompiled (teal : Bytes) : Type 0 where
    pub version : Bytes
    pub declared : committed_avm_version outside teal ≡ ok version
    pub fresh : Bytes
    pub compiled : outside.compile version ≡ some fresh
    pub program : Bytes
    pub assembled : outside.assembled teal ≡ some program
    pub reassembled : outside.assembled fresh ≡ some program

  fetched :
      (program : Bytes)
      → fetch_deployed outside ≡ ok program
      → (field : Bytes) × (field ≢ [])
        × (outside.program ≡ some (some field))
        × (outside.b64decode field ≡ some program)
  unfolding fetch_deployed
  fetched program e =
      let (params, e1, r1) = bind-ok (or_raise outside.program check_error) _ e in
      let (found, e2, r2) = bind-ok (or_raise params check_error) _ r1 in
      let p = or_raise-ok outside.program check_error params e1 in
      let q = or_raise-ok params check_error found e2 in
      let (n, d) = not_empty found r2 in (found, n, ground (arith, p, q), d)
    where
      not_empty :
          (found : Bytes)
          → (elim found [
            | [] ↦ err check_error
            | c ∷ rest ↦ or_raise (outside.b64decode (c ∷ rest)) crashed
          ])
            ≡ ok program
          → (found ≢ []) × (outside.b64decode found ≡ some program)
      not_empty [] e = cc
      not_empty (c ∷ rest) e =
          (λ z. cc, or_raise-ok (outside.b64decode (c ∷ rest)) crashed program e)

  matches_chain-IsDeployed :
      (teal : Bytes) → matches_chain outside (some teal) ≡ ok true → IsDeployed teal
  unfolding matches_chain assemble
  matches_chain-IsDeployed teal e =
      let (expected, e1, r1) = bind-ok (or_raise (outside.assembled teal) check_error) _ e in
      let (deployed, e2, r2) = bind-ok (fetch_deployed outside) _ r1 in
      let (field, n, p, d) = fetched deployed e2 in
      let eq : bytes_eq expected deployed ≡ true = cc in
      let same : expected ≡ deployed = (bytes_eq_iff expected deployed).0 eq in
      record {
        program = deployed;
        field = field;
        nonempty = n;
        decoded = d;
        assembled = rw (← same) (or_raise-ok (outside.assembled teal) check_error expected e1);
        on_chain = p;
      }

  recompiles-IsRecompiled :
      (teal : Bytes) → recompiles outside (some teal) ≡ ok true → IsRecompiled teal
  unfolding recompiles assemble recompile_from_source
  recompiles-IsRecompiled teal e =
      let (version, e1, r1) = bind-ok (committed_avm_version outside teal) _ e in
      let (fresh, e2, r2) = bind-ok (or_raise (outside.compile version) check_error) _ r1 in
      let (a, e3, r3) = bind-ok (or_raise (outside.assembled teal) check_error) _ r2 in
      let (b, e4, r4) = bind-ok (or_raise (outside.assembled fresh) check_error) _ r3 in
      let eq : bytes_eq a b ≡ true = cc in
      let same : a ≡ b = (bytes_eq_iff a b).0 eq in
      record {
        version = version;
        declared = e1;
        fresh = fresh;
        compiled = or_raise-ok (outside.compile version) check_error fresh e2;
        program = b;
        assembled = rw (← same) (or_raise-ok (outside.assembled teal) check_error a e3);
        reassembled = or_raise-ok (outside.assembled fresh) check_error b e4;
      }

  IsDeployed-matches_chain :
      (teal : Bytes) → IsDeployed teal → matches_chain outside (some teal) ≡ ok true
  unfolding matches_chain assemble fetch_deployed
  IsDeployed-matches_chain teal d = by_field d.field d.nonempty d.on_chain d.decoded
    where
      by_field :
          (field : Bytes)
          → field ≢ []
          → outside.program ≡ some (some field)
          → outside.b64decode field ≡ some d.program
          → matches_chain outside (some teal) ≡ ok true
      by_field [] n p b = absurd (n refl)
      by_field (c ∷ rest) n p b =
          ground (arith, d.assembled, p, b, (bytes_eq_iff d.program d.program).1 refl)

  IsRecompiled-recompiles :
      (teal : Bytes) → IsRecompiled teal → recompiles outside (some teal) ≡ ok true
  unfolding recompiles assemble recompile_from_source
  IsRecompiled-recompiles teal r = ground (
    arith,
    r.declared,
    r.compiled,
    r.assembled,
    r.reassembled,
    (bytes_eq_iff r.program r.program).1 refl,
  )

module _ (outside : Outside) (args : Arguments) where
  -- What the exit code 0 stands for.
  pub record IsMatch : Type 0 where
    pub teal : Bytes
    pub is_there : args.teal ≡ some teal
    pub deployed : IsDeployed outside teal
    pub recompiled : args.recompile ≡ true → IsRecompiled outside teal

  IsMatch-verdict : IsMatch → verdict outside args ≡ ok 0
  unfolding verdict
  IsMatch-verdict m =
      let chain = IsDeployed-matches_chain outside m.teal m.deployed in
      elim (Bool-cases args.recompile) [
        | inl asked ↦
            let fresh = IsRecompiled-recompiles outside m.teal (m.recompiled asked) in
            ground (arith, asked, m.is_there, fresh, chain)
        | inr plain ↦ ground (arith, plain, m.is_there, chain)
      ]

module _ (outside : Outside) where
  -- The comparison with the chain, behind the recompile.
  after_recompile : Bool → Option Bytes → Result Failure ℕ
  after_recompile reproduced o =
      if reproduced then (do equal ← matches_chain outside o; ok (if equal then 0 else 1)) else ok 1

  compared :
      (reproduced : Bool) (o : Option Bytes)
      → after_recompile reproduced o ≡ ok 0
      → (reproduced ≡ true) × (matches_chain outside o ≡ ok true)
  unfolding after_recompile
  compared true o e =
      let (equal, e1, r1) = bind-ok (matches_chain outside o) _ e in
      let holds : equal ≡ true = ground arith in (refl, rw (← holds) e1)
  compared false o e = cc

  verdict-IsMatch :
      (o : Option Bytes) (recompile : Bool)
      → verdict outside (record { teal = o; recompile = recompile }) ≡ ok 0
      → IsMatch outside (record { teal = o; recompile = recompile })
  unfolding verdict after_recompile
  verdict-IsMatch none true e = unfold recompiles in cc
  verdict-IsMatch none false e = unfold matches_chain in cc
  verdict-IsMatch (some teal) true e =
      let (reproduced, e1, r1) = bind-ok (recompiles outside (some teal)) _ e in
      let (held, chain) = compared reproduced (some teal) r1 in
      record {
        teal = teal;
        is_there = refl;
        deployed = matches_chain-IsDeployed outside teal chain;
        recompiled = λ asked. recompiles-IsRecompiled outside teal (rw (← held) e1);
      }
  verdict-IsMatch (some teal) false e =
      let (held, chain) = compared true (some teal) e in
      record {
        teal = teal;
        is_there = refl;
        deployed = matches_chain-IsDeployed outside teal chain;
        recompiled = λ asked. cc;
      }

  from_exit :
      (r : Result Failure ℕ)
      → (elim r [
        | ok status ↦ status
        | err failure ↦ elim failure [ check_error ↦ 2 | crashed ↦ 2 ]
      ])
        ≡ 0
      → r ≡ ok 0
  from_exit (ok status) e = rw e refl
  from_exit (err check_error) e = cc
  from_exit (err crashed) e = cc

  -- The check of a deployment exits with 0 exactly when the committed TEAL is there and assembles to the
  -- program that the application runs, as decoded from a field that is not empty, and, if a recompile is
  -- asked for, a fresh compile of the source for the AVM of the committed pragma assembles to the program
  -- of the committed TEAL.
  pub deployment_exit_0_exactly :
      (args : Arguments) → (exit_code outside args ≡ 0) ↔ IsMatch outside args
  unfolding exit_code
  deployment_exit_0_exactly args = (
    λ e. verdict-IsMatch args.teal args.recompile (from_exit (verdict outside args) e),
    λ m. ground (arith, IsMatch-verdict outside args m),
  )
