-- ===== src/Reviewer/Exit.antt =====
-- When verify_trelyan.py ends with 0.
use trelyan_falcon_inscripti.Prelude.{◌≡◌, ◌↔◌, refl, arith, true, List, []}
use trelyan_falcon_inscripti.Prelude.Bytes.{Bytes}
use trelyan_falcon_inscripti.Prelude.Result.{Result, ok, err}
use trelyan_falcon_inscripti.Reviewer.{
  Tally, Crash, Outside, is_release, check_package, check_golden, check_app, check_boxes,
  check_record, run, start, code_of, exit_code,
}
use trelyan_falcon_inscripti.Reviewer.Clean.{Clean, growing, part-then, Clean-parts}
use trelyan_falcon_inscripti.Reviewer.Parts.{
  IsLive, Grows-check_package, Grows-check_golden, Grows-check_app, Grows-check_boxes,
  Grows-check_record, Grows-probe_signer,
}
use trelyan_falcon_inscripti.Reviewer.Package.{
  IsGolden, check_package-release, Clean-check_package, check_golden-IsGolden, Clean-check_golden,
  check_app-IsLive, Clean-check_app,
}
use trelyan_falcon_inscripti.Reviewer.Boxes.{
  HasKeys, HasRecord, IsTold, check_boxes-HasKeys, Clean-check_boxes, check_record-HasRecord,
  Clean-check_record, live_message, probe_signer-IsTold, Clean-probe_signer,
}

module _ (outside : Outside) where
  -- What the exit code 0 stands for.
  pub record IsConfirmed : Type 0 where
    pub released : is_release outside.version ≡ true
    pub golden : IsGolden outside
    pub live : IsLive outside
    pub records : List Bytes
    pub boxes : HasKeys outside records
    pub first_record : HasRecord outside records
    pub told : IsTold outside.load_error

  IsConfirmed-run : IsConfirmed → (t : Tally) → Clean (run outside) t tt
  unfolding run
  IsConfirmed-run c =
      part-then tt (check_package outside) _ tt (Clean-check_package outside c.released) (
        part-then tt (check_golden outside) _ tt (Clean-check_golden outside c.golden) (
          part-then tt (check_app outside) _ tt (Clean-check_app outside c.live) (
            part-then tt (check_boxes outside) _ c.records
              (Clean-check_boxes outside c.records c.boxes)
              (part-then tt (check_record outside c.records) _
                (live_message outside c.records c.first_record)
                (Clean-check_record outside c.records c.first_record)
                (Clean-probe_signer outside.load_error c.told)))))

  ruleset parts = (
    growing, Grows-check_package, Grows-check_golden, Grows-check_app, Grows-check_boxes,
    Grows-check_record, Grows-probe_signer,
  )

  run-IsConfirmed : (t : Tally) → Clean (run outside) t tt → IsConfirmed
  unfolding run
  run-IsConfirmed t c =
      let (u1, c1, r1) =
        Clean-parts (check_package outside) _ t tt (Grows-check_package outside)
          (λ _. search parts depth 9) c in
      let (u2, c2, r2) =
        Clean-parts (check_golden outside) _ _ tt (Grows-check_golden outside)
          (λ _. search parts depth 9) r1 in
      let (u3, c3, r3) =
        Clean-parts (check_app outside) _ _ tt (Grows-check_app outside) (λ _. search parts depth 9)
          r2 in
      let (iss, c4, r4) =
        Clean-parts (check_boxes outside) _ _ tt (Grows-check_boxes outside)
          (λ _. search parts depth 9) r3 in
      let (m_live, c5, r5) =
        Clean-parts (check_record outside iss) _ _ tt (Grows-check_record outside iss)
          (λ _. Grows-probe_signer outside.load_error) r4 in
      record {
        released = check_package-release outside _ c1;
        golden = check_golden-IsGolden outside _ c2;
        live = check_app-IsLive outside _ c3;
        records = iss;
        boxes = check_boxes-HasKeys outside iss _ c4;
        first_record = check_record-HasRecord outside iss _ m_live c5;
        told = probe_signer-IsTold outside.load_error _ r5;
      }

  code_0 :
      (r : Result Crash (Unit {0})) (t : Tally)
      → code_of r t ≡ 0
      → (r ≡ ok tt) × (t.failed ≡ 0) × (t.not_checked ≡ 0)
  code_0 (ok u) t e = (refl, ground arith, ground arith)
  code_0 (err x) t e = cc

  code_of_clean :
      (r : Result Crash (Unit {0})) (t : Tally)
      → r ≡ ok tt
      → t.failed ≡ 0
      → t.not_checked ≡ 0
      → code_of r t ≡ 0
  code_of_clean (ok u) t e f n = ground arith
  code_of_clean (err x) t e f n = cc

  -- verify_trelyan.py exits with 0 exactly if the installed version is a release, the golden values are
  -- right, the node knows the application and serves a program that is not empty, has the pinned hash and
  -- has the hash of what the committed TEAL, which is there, assembles to, the node lists a key box, the
  -- first three of them hold 1793 bytes behind 0x0A, the first record box, if there is one, holds at
  -- least 83 bytes, the version 1 and the cell of its name, and loading the signer works or raises an
  -- exception whose text is not empty.
  pub exit_0_exactly : (exit_code outside ≡ 0) ↔ IsConfirmed
  unfolding exit_code
  exit_0_exactly = (
    λ e.
        let (r, f, n) = code_0 (run outside start).0 (run outside start).1 e in
        run-IsConfirmed start (record { returns = r; no_failure = f; no_skip = n }),
    λ c.
        let d = IsConfirmed-run c start in
        code_of_clean (run outside start).0 (run outside start).1 d.returns d.no_failure d.no_skip,
  )

  -- Without a record box, no check of the fifth part runs, and the exit code is still 0.
  pub no_record_exits_0 :
      is_release outside.version ≡ true
      → IsGolden outside
      → IsLive outside
      → HasKeys outside []
      → IsTold outside.load_error
      → exit_code outside ≡ 0
  no_record_exits_0 released golden live boxes told = exit_0_exactly.1 (record {
    released = released;
    golden = golden;
    live = live;
    records = [];
    boxes = boxes;
    first_record = tt;
    told = told;
  })
