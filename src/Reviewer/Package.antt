-- ===== src/Reviewer/Package.antt =====
-- What a clean run of the first three sections says: the package, the golden values, the application.
use trelyan_falcon_inscripti.Prelude.{
  ℕ, ◌≡◌, refl, ap, arith, true, false, ◌&&◌, ◌++◌, Option, none, some, length, replicate, ltb,
  ◌==◌, is_some, ==_iff,
}
use trelyan_falcon_inscripti.Prelude.Bytes.{Bytes, bytes_eq, bytes_eq_iff, to_bytes}
use trelyan_falcon_inscripti.Prelude.Text.{after_prefix}
use trelyan_falcon_inscripti.Prelude.Result.{to_option}
use trelyan_falcon_inscripti.Message.{
  int, nonneg, build_message, key_prefix_pubkey, key_prefix_inscription,
}
use trelyan_falcon_inscripti.Message.Layout.{layout, length-layout}
use trelyan_falcon_inscripti.Reviewer.{
  Tally, Outside, app_id, pinned_on_chain, golden_input, golden_digest, golden_artifact,
  expected_tag, is_release, check_package, check_golden, check_teal, check_app,
}
use trelyan_falcon_inscripti.Reviewer.Clean.{
  Clean, growing, Clean-check, checked, check-then, check-then_parts, answer-then,
  answer-then_parts, unclean,
}
use trelyan_falcon_inscripti.Reviewer.Parts.{
  built_message, message_built, name_of_key, name_of_record, names_match, nonempty_lt, IsLive,
  Grows-check_teal,
}

module _ (outside : Outside) where
  pub check_package-release :
      (t : Tally) → Clean (check_package outside) t tt → is_release outside.version ≡ true
  unfolding check_package
  check_package-release t c =
      (check-then_parts tt (is_release outside.version) _ t (search growing) c).0

  pub Clean-check_package :
      is_release outside.version ≡ true → (t : Tally) → Clean (check_package outside) t tt
  unfolding check_package bytes_eq
  Clean-check_package e = check-then tt (is_release outside.version) _ e (
      check-then tt true _ refl
        (check-then tt true _ refl (check-then tt true _ refl (λ u. Clean-check u true refl))))

  -- What the golden values ask of the hash.
  pub record IsGolden : Type 0 where
    pub digest : outside.sha512_256 golden_input ≡ golden_digest
    pub size : length (outside.sha512_256 golden_artifact) ≡ 32

  pub check_golden-IsGolden : (t : Tally) → Clean (check_golden outside) t tt → IsGolden
  unfolding check_golden
  check_golden-IsGolden t c =
      let art = outside.sha512_256 golden_artifact in
      let (e1, u, r1) =
        check-then_parts tt (bytes_eq (outside.sha512_256 golden_input) golden_digest) _ t
          (search growing depth 9) c in
      let (m, e2, v, r2) =
        answer-then_parts tt
          (to_option (build_message (int (nonneg 1001)) (int (nonneg 1)) art (replicate 32 0))) _ u
          (λ m. search growing depth 9) r1 in
      record {
        digest = (bytes_eq_iff (outside.sha512_256 golden_input) golden_digest).0 e1;
        size = (built_message 1001 1 art (replicate 32 0) m e2).1;
      }

  golden_message :
      IsGolden
      → let m = layout 1001 1 (outside.sha512_256 golden_artifact) (replicate 32 0) in
        (is_some (after_prefix expected_tag m) && length m == 102) ≡ true
  unfolding after_prefix to_bytes
  golden_message g =
      let size = g.size in
      let long = length-layout 1001 1 (outside.sha512_256 golden_artifact) (replicate 32 0) in
      ground (arith, long, size)

  pub Clean-check_golden : IsGolden → (t : Tally) → Clean (check_golden outside) t tt
  unfolding check_golden
  Clean-check_golden g =
      let art = outside.sha512_256 golden_artifact in
      check-then tt (bytes_eq (outside.sha512_256 golden_input) golden_digest) _
        ((bytes_eq_iff (outside.sha512_256 golden_input) golden_digest).1 g.digest)
        (answer-then tt
          (to_option (build_message (int (nonneg 1001)) (int (nonneg 1)) art (replicate 32 0))) _
          (layout 1001 1 art (replicate 32 0))
          (message_built 1001 1 art (replicate 32 0) (omega arith) (omega arith) g.size refl)
          (check-then tt _ _ (golden_message g) (
            answer-then tt _ _ (key_prefix_pubkey ++ to_bytes 8 1) name_of_key (
              answer-then tt _ _ (key_prefix_inscription ++ to_bytes 8 258) name_of_record
                (λ u. Clean-check u _ names_match)))))

  -- [3]
  pub Clean-check_app : IsLive outside → (t : Tally) → Clean (check_app outside) t tt
  unfolding check_app check_teal
  Clean-check_app l =
      let same_hash = (bytes_eq_iff (outside.sha512_256 l.program) pinned_on_chain).1 l.pinned in
      let program_eq =
        (bytes_eq_iff (outside.sha512_256 l.built) (outside.sha512_256 l.program)).1
          l.same_program in
      answer-then tt outside.app _ l.app l.found (
        check-then tt _ _ (rw l.same_id refl) (
          answer-then tt _ _ l.program l.running (
            check-then tt _ _ ((nonempty_lt l.program).0 l.nonempty) (
              check-then tt _ _ same_hash (
                rw l.is_there (
                  answer-then tt (outside.compile l.teal) _ l.built l.assembled
                    (λ u. Clean-check u _ program_eq)))))))

  same_app :
      (id : Option ℕ) → (elim id [ none ↦ false | some i ↦ i == app_id ]) ≡ true → id ≡ some app_id
  same_app none e = cc
  same_app (some i) e = ap some ((==_iff i app_id).0 e)

  check_teal-same :
      (fingerprint : Bytes) (o : Option Bytes) (t : Tally)
      → Clean (check_teal outside fingerprint o) t tt
      → (teal built : Bytes) × (o ≡ some teal)
        × (outside.compile teal ≡ some built)
        × (outside.sha512_256 built ≡ fingerprint)
  unfolding check_teal
  check_teal-same fingerprint none t c = absurd (unclean t tt c)
  check_teal-same fingerprint (some teal) t c =
      let (built, e, u, r) =
        answer-then_parts tt (outside.compile teal) _ t (λ b. search growing) c in
      (
        teal,
        built,
        refl,
        e,
        (bytes_eq_iff (outside.sha512_256 built) fingerprint).0 (checked u _ tt r),
      )

  pub check_app-IsLive : (t : Tally) → Clean (check_app outside) t tt → IsLive outside
  unfolding check_app
  check_app-IsLive t c =
      let (app, e1, t1, r1) =
        answer-then_parts tt outside.app _ t (λ a. search (growing, Grows-check_teal) depth 9) c in
      let (e2, t2, r2) =
        check-then_parts tt (elim app.id [ none ↦ false | some id ↦ id == app_id ]) _ t1
          (search (growing, Grows-check_teal) depth 9) r1 in
      let (program, e3, t3, r3) =
        answer-then_parts tt app.approval_program _ t2
          (λ a. search (growing, Grows-check_teal) depth 9) r2 in
      let (e4, t4, r4) =
        check-then_parts tt (ltb 0 (length program)) _ t3
          (search (growing, Grows-check_teal) depth 9) r3 in
      let (e5, t5, r5) =
        check-then_parts tt (bytes_eq (outside.sha512_256 program) pinned_on_chain) _ t4
          (Grows-check_teal outside (outside.sha512_256 program) outside.committed_teal) r4 in
      let (teal, built, e6, e7, e8) =
        check_teal-same (outside.sha512_256 program) outside.committed_teal t5 r5 in
      record {
        app = app;
        found = e1;
        same_id = same_app app.id e2;
        program = program;
        running = e3;
        nonempty = (nonempty_lt program).1 e4;
        pinned = (bytes_eq_iff (outside.sha512_256 program) pinned_on_chain).0 e5;
        teal = teal;
        is_there = e6;
        built = built;
        assembled = e7;
        same_program = e8;
      }
