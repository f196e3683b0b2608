-- ===== src/Checks/Pinned/Exit.antt =====
-- When verify_pinned_digest.py exits with 0.
use trelyan_falcon_inscripti.Prelude.{
  ◌≡◌, ◌↔◌, refl, arith, true, false, Option, none, some, List, [], ◌∷◌, Option-cases, inl, inr,
}
use trelyan_falcon_inscripti.Prelude.Bytes.{Bytes, bytes_eq, bytes_eq_iff}
use trelyan_falcon_inscripti.Checks.Pinned.{
  Entry, Sources, expected_tree, expected_det_c, emu_1, native_0, native_1, tree_digest,
  check_fp_backend, main,
}

module _ (sources : Sources) (argv : List Bytes) (entries : List Entry) where
  -- The tree has the pinned digests, and its config.h asks for the emulated floating point.
  pub record IsPinned : Type 0 where
    pub root : Bytes
    pub one_argument : argv ≡ root ∷ []
    pub det_c : Bytes
    pub is_there : sources.deterministic_c ≡ some det_c
    pub det_c_digest : sources.sha512_256 det_c ≡ expected_det_c
    pub digest : (tree_digest sources entries).0 ≡ expected_tree
    pub config : Bytes
    pub has_config : sources.config_h ≡ some config
    pub emulated : sources.search emu_1 config ≡ true
    pub not_native :
        (sources.search native_0 config ≡ true) × (sources.search native_1 config ≡ false)

module _ (sources : Sources) where
  backend-config :
      (o : Option Bytes)
      → check_fp_backend sources o ≡ true
      → (config : Bytes) × (o ≡ some config)
        × (sources.search emu_1 config ≡ true)
        × (sources.search native_0 config ≡ true)
        × (sources.search native_1 config ≡ false)
  unfolding check_fp_backend
  backend-config none e = cc
  backend-config (some config) e =
      (config, refl, ground (arith, e), ground (arith, e), ground (arith, e))

  from_main :
      (argv : List Bytes) (entries : List Entry)
      → main sources argv entries ≡ 0
      → IsPinned sources argv entries
  unfolding main
  from_main [] entries e = cc
  from_main (root ∷ other ∷ rest) entries e = cc
  from_main (root ∷ []) entries e = elim (Option-cases sources.deterministic_c) [
    | inl f ↦ absurd (ground (arith, e, f))
    | inr (text, f) ↦
        let det : bytes_eq (sources.sha512_256 text) expected_det_c ≡ true = ground (arith, e, f) in
        let tree : bytes_eq (tree_digest sources entries).0 expected_tree ≡ true =
          ground (arith, e, f) in
        let backend : check_fp_backend sources sources.config_h ≡ true = ground (arith, e, f) in
        let (config, has, emulated, set_0, not_1) = backend-config sources.config_h backend in
        record {
          root = root;
          one_argument = refl;
          det_c = text;
          is_there = f;
          det_c_digest = (bytes_eq_iff (sources.sha512_256 text) expected_det_c).0 det;
          digest = (bytes_eq_iff (tree_digest sources entries).0 expected_tree).0 tree;
          config = config;
          has_config = has;
          emulated = emulated;
          not_native = (set_0, not_1);
        }
  ]

  -- verify_pinned_digest.py exits with 0 exactly if it has one argument, deterministic.c is there and has the pinned
  -- digest, the tree has the pinned digest, and config.h is there, sets FALCON_FPEMU to 1 and
  -- FALCON_FPNATIVE to 0, and nowhere sets FALCON_FPNATIVE to 1. The number of files plays no part.
  pub pinned_exit_0_exactly :
      (argv : List Bytes) (entries : List Entry)
      → (main sources argv entries ≡ 0) ↔ IsPinned sources argv entries
  unfolding main check_fp_backend
  pinned_exit_0_exactly argv entries = (
    from_main argv entries,
    λ p.
        let det = (bytes_eq_iff (sources.sha512_256 p.det_c) expected_det_c).1 p.det_c_digest in
        let tree = (bytes_eq_iff (tree_digest sources entries).0 expected_tree).1 p.digest in
        let native = p.not_native in
        ground (arith, p.one_argument, p.is_there, det, tree, p.has_config, p.emulated, native),
  )
