-- ===== src/Checks/Teal/Exit.antt =====
-- The exit code of the check.
use trelyan_falcon_inscripti.Prelude.{
  ℕ, ◌≡◌, ◌↔◌, refl, Bool, true, false, Option, none, some, List, [], ◌∷◌, arith, Option-cases, inl,
  inr,
}
use trelyan_falcon_inscripti.Prelude.Bytes.{Bytes, All, bytes_eq_iff}
use trelyan_falcon_inscripti.Prelude.Result.{Result, ok, err, or_raise, require, bind-ok}
use trelyan_falcon_inscripti.Prelude.Text.{strip, splitlines, after_prefix}
use trelyan_falcon_inscripti.Checks.Teal.Specs.{SameSpec, dict_eq-SameSpec, SameSpec-dict_eq}
use trelyan_falcon_inscripti.Checks.{Failure, check_error, crashed}
use trelyan_falcon_inscripti.Checks.Teal.{
  Artifact, approval_teal, artifacts, normalise, Drift, same, behavioural, traceability, all_same,
  Spec, arc56, first_line, avm_target, pragma_prefix, embedded_spec, agrees_with, without_dropped,
  dict_eq, Tools, Tree, assert_pragma_matches, compare, check_artifacts, client_spec_matches, main,
  exit_code,
}

pub require-ok : {E : Type 0} (test : Bool) (e : E) → require test e ≡ ok tt → test ≡ true
require-ok true e h = refl
require-ok false e h = cc

pub or_raise-ok : {E A : Type 0} (o : Option A) (e : E) (a : A) → or_raise o e ≡ ok a → o ≡ some a
or_raise-ok none e a h = cc
or_raise-ok (some b) e a h = cc

module _ {V : Type 0} (tools : Tools V) (tree : Tree) (fresh : Artifact → Option Bytes) where
  -- The committed artifact and the fresh one are both there and differ in line endings at most.
  pub record IsReproduced (name : Artifact) : Type 0 where
    pub committed : Bytes
    pub compiled : Bytes
    pub is_there : tree.committed name ≡ some committed
    pub is_emitted : fresh name ≡ some compiled
    pub equal : normalise committed ≡ normalise compiled

  compare-same :
      (name : Artifact) (c f : Bytes)
      → compare tools tree name c f ≡ same
      → normalise c ≡ normalise f
  unfolding compare
  compare-same name c f e = ground (arith, bytes_eq_iff (normalise c) (normalise f))

  all_same-head :
      (d : Drift) (ds : List Drift) → all_same (d ∷ ds) ≡ true → (d ≡ same) × (all_same ds ≡ true)
  all_same-head same ds e = (refl, e)
  all_same-head behavioural ds e = cc
  all_same-head traceability ds e = cc

  check_artifacts-ok :
      (names : List Artifact) (ds : List Drift)
      → check_artifacts tools tree fresh names ≡ ok ds
      → all_same ds ≡ true
      → All IsReproduced names
  unfolding check_artifacts
  check_artifacts-ok [] ds e h = tt
  check_artifacts-ok (name ∷ names) ds e h =
      let (c, ec, e1) = bind-ok (or_raise (tree.committed name) check_error) _ e in
      let (f, ef, e2) = bind-ok (or_raise (fresh name) check_error) _ e1 in
      let (rest, er, e3) = bind-ok (check_artifacts tools tree fresh names) _ e2 in
      let listed : compare tools tree name c f ∷ rest ≡ ds = cc in
      let (first, others) = all_same-head (compare tools tree name c f) rest (rw listed h) in
      (
        record {
          committed = c;
          compiled = f;
          is_there = or_raise-ok (tree.committed name) check_error c ec;
          is_emitted = or_raise-ok (fresh name) check_error f ef;
          equal = compare-same name c f first;
        },
        check_artifacts-ok names rest er others,
      )

  compare_equal :
      (name : Artifact) (c f : Bytes)
      → normalise c ≡ normalise f
      → compare tools tree name c f ≡ same
  unfolding compare
  compare_equal name c f e = ground (arith, (bytes_eq_iff (normalise c) (normalise f)).1 e)

  check_artifacts_same :
      (names : List Artifact)
      → All IsReproduced names
      → (ds : List Drift) × (check_artifacts tools tree fresh names ≡ ok ds) × (all_same ds ≡ true)
  unfolding check_artifacts
  check_artifacts_same [] h = ([], refl, refl)
  check_artifacts_same (name ∷ names) h =
      let r = h.0 in
      let (ds, e, all) = check_artifacts_same names h.1 in
      let equal = compare_equal name r.committed r.compiled r.equal in
      (same ∷ ds, rw (r.is_there, r.is_emitted, e, equal) refl, all)

module _ {V : Type 0} (tools : Tools V) (tree : Tree) where
  -- The first line of the approval TEAL is "#pragma version" with 12 behind it, but for white space.
  pub record HasPragma : Type 0 where
    pub raw : Bytes
    pub is_there : tree.committed approval_teal ≡ some raw
    pub first : Bytes
    pub is_first : first_line (splitlines (tools.decode (normalise raw))) ≡ some first
    pub declared : Bytes
    pub behind : after_prefix pragma_prefix first ≡ some declared
    pub version : strip declared ≡ b'1' ∷ b'2' ∷ []

  -- The client has a spec, and it equals the committed one but for the keys that the generator drops.
  pub record CarriesSpec : Type 0 where
    pub text : Bytes
    pub client : tree.client ≡ some text
    pub literal : Bytes
    pub found : tools.find_spec text ≡ some literal
    pub embedded : Spec V
    pub embedded_parsed : tools.json_loads literal ≡ some embedded
    pub raw : Bytes
    pub committed : tree.committed arc56 ≡ some raw
    pub spec : Spec V
    pub parsed : tools.json_loads raw ≡ some spec
    pub same : SameSpec tools.value_eq embedded spec

  pragma-HasPragma :
      assert_pragma_matches tools tree (tree.committed approval_teal) ≡ ok tt → HasPragma
  unfolding assert_pragma_matches
  pragma-HasPragma h =
      let (raw, e1, r1) = bind-ok (or_raise (tree.committed approval_teal) crashed) _ h in
      let lines = splitlines (tools.decode (normalise raw)) in
      let (first, e2, r2) = bind-ok (or_raise (first_line lines) check_error) _ r1 in
      let (declared, e3, r3) =
        bind-ok (or_raise (after_prefix pragma_prefix first) check_error) _ r2 in
      record {
        raw = raw;
        is_there = or_raise-ok (tree.committed approval_teal) crashed raw e1;
        first = first;
        is_first = or_raise-ok (first_line lines) check_error first e2;
        declared = declared;
        behind = or_raise-ok (after_prefix pragma_prefix first) check_error declared e3;
        version = (bytes_eq_iff (strip declared) avm_target).0 (require-ok _ check_error r3);
      }

  HasPragma-pragma :
      HasPragma → assert_pragma_matches tools tree (tree.committed approval_teal) ≡ ok tt
  unfolding assert_pragma_matches
  HasPragma-pragma p =
      let equal = (bytes_eq_iff (strip p.declared) avm_target).1 p.version in
      rw (p.is_there, p.is_first, p.behind, equal) refl

  pub client-CarriesSpec : client_spec_matches tools tree ≡ ok true → CarriesSpec
  unfolding client_spec_matches embedded_spec agrees_with
  client-CarriesSpec h = elim (Option-cases tree.client) [
    | inl f ↦ absurd (ground (arith, h, f))
    | inr (text, f) ↦ elim (Option-cases (tools.find_spec text)) [
      | inl g ↦ absurd (ground (arith, h, f, g))
      | inr (literal, g) ↦ elim (Option-cases (tools.json_loads literal)) [
        | inl k ↦ absurd (ground (arith, h, f, g, k))
        | inr (embedded, k) ↦ elim (Option-cases (tree.committed arc56)) [
          | inl l ↦ absurd (ground (arith, h, f, g, k, l))
          | inr (raw, l) ↦ elim (Option-cases (tools.json_loads raw)) [
            | inl m ↦ absurd (ground (arith, h, f, g, k, l, m))
            | inr (spec, m) ↦
                let equal : dict_eq tools.value_eq (without_dropped embedded) (without_dropped spec)
                    ≡ true =
                  ground (arith, h, f, g, k, l, m) in
                record {
                  text = text;
                  client = f;
                  literal = literal;
                  found = g;
                  embedded = embedded;
                  embedded_parsed = k;
                  raw = raw;
                  committed = l;
                  spec = spec;
                  parsed = m;
                  same = dict_eq-SameSpec tools.value_eq embedded spec equal;
                }
          ]
        ]
      ]
    ]
  ]

  CarriesSpec-client : CarriesSpec → client_spec_matches tools tree ≡ ok true
  unfolding client_spec_matches embedded_spec agrees_with
  CarriesSpec-client c =
      let equal = SameSpec-dict_eq tools.value_eq c.embedded c.spec c.same in
      ground (arith, c.client, c.found, c.embedded_parsed, c.committed, c.parsed, equal)

  -- What the check confirms: the files are there, the pragma is AVM 12, the compiler runs, every one of the
  -- five artifacts is reproduced, and the client carries the committed spec.
  pub record IsConfirmed : Type 0 where
    pub source : tree.source_exists ≡ true
    pub out : tree.out_is_dir ≡ true
    pub pragma : HasPragma
    pub fresh : Artifact → Option Bytes
    pub compiles : tools.compile ≡ some fresh
    pub reproduced : All (IsReproduced tools tree fresh) artifacts
    pub client : CarriesSpec

  main-IsConfirmed : main tools tree ≡ ok 0 → IsConfirmed
  unfolding main
  main-IsConfirmed e =
      let (_, e1, r1) = bind-ok (require tree.source_exists check_error) _ e in
      let (_, e2, r2) = bind-ok (require tree.out_is_dir check_error) _ r1 in
      let (_, e3, r3) =
        bind-ok (assert_pragma_matches tools tree (tree.committed approval_teal)) _ r2 in
      let (fresh, e4, r4) = bind-ok (or_raise tools.compile check_error) _ r3 in
      let (drifts, e5, r5) = bind-ok (check_artifacts tools tree fresh artifacts) _ r4 in
      let (in_step, e6, r6) = bind-ok (client_spec_matches tools tree) _ r5 in
      let both : (all_same drifts ≡ true) × (in_step ≡ true) = (ground arith, ground arith) in
      record {
        source = require-ok tree.source_exists check_error e1;
        out = require-ok tree.out_is_dir check_error e2;
        pragma = pragma-HasPragma (ground (arith, e3));
        fresh = fresh;
        compiles = or_raise-ok tools.compile check_error fresh e4;
        reproduced = check_artifacts-ok tools tree fresh artifacts drifts e5 both.0;
        client = client-CarriesSpec (rw both.1 at e6);
      }

  IsConfirmed-main : IsConfirmed → main tools tree ≡ ok 0
  unfolding main
  IsConfirmed-main c =
      let (drifts, e, all) = check_artifacts_same tools tree c.fresh artifacts c.reproduced in
      let pragma = HasPragma-pragma c.pragma in
      let client = CarriesSpec-client c.client in
      ground (arith, c.source, c.out, pragma, c.compiles, e, client, all)

  -- The check of the artifacts exits with 0 exactly when the source and the directory are there, the
  -- first line of the approval TEAL is "#pragma version" with 12 behind it but for white space, the
  -- compiler runs, each of the five artifacts is committed and compiled and the two differ in line
  -- endings at most, and the client has the committed spec but for the keys that the generator drops.
  pub exit_code_0_exactly : (exit_code tools tree ≡ 0) ↔ IsConfirmed
  unfolding exit_code
  exit_code_0_exactly = (
    λ e. main-IsConfirmed (from_exit (main tools tree) e),
    λ c. ground (arith, IsConfirmed-main c),
  )
    where
      from_exit :
          (r : Result Failure ℕ)
          → (elim r [
            | ok status ↦ status
            | err failure ↦ elim failure [ check_error ↦ 2 | crashed ↦ 1 ]
          ])
            ≡ 0
          → r ≡ ok 0
      from_exit (ok status) e = rw e refl
      from_exit (err check_error) e = cc
      from_exit (err crashed) e = cc

  -- A check of a tree without the approval TEAL, with the source and the directory there, exits with 1,
  -- the code of drift, since the pragma is read before the artifacts are looked for.
  pub missing_approval_exits_1 :
      tree.source_exists ≡ true
      → tree.out_is_dir ≡ true
      → tree.committed approval_teal ≡ none
      → exit_code tools tree ≡ 1
  unfolding exit_code main assert_pragma_matches
  missing_approval_exits_1 source out missing = ground (arith, source, out, missing)
