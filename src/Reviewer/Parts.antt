-- ===== src/Reviewer/Parts.antt =====
-- What the sections of verify_trelyan.py ask for, and that no section lowers a counter.
use trelyan_falcon_inscripti.Prelude.{
  ℕ, ◌^◌, ◌≤◌, ◌<◌, ◌≡◌, ◌≢◌, ◌↔◌, refl, ap, arith, true, ◌&&◌, ◌++◌, Option, none, some, List, [],
  ◌∷◌, length, get_elem?, take, drop, ltb,
}
use trelyan_falcon_inscripti.Prelude.Bytes.{Bytes, bytes_eq, from_bytes, to_bytes}
use trelyan_falcon_inscripti.Prelude.Result.{Result, ok, err, to_option}
use trelyan_falcon_inscripti.Message.{
  int, nonneg, build_message, key_prefix_pubkey, key_prefix_inscription, cell_key,
  committed_pubkey_box_name, inscription_box_name,
}
use trelyan_falcon_inscripti.Message.Layout.{layout, build_message_exactly}
use trelyan_falcon_inscripti.Reviewer.{
  App, Outside, app_id, pinned_on_chain, check_package, check_golden, check_teal, check_app,
  check_key, check_keys, check_some, check_boxes, check_record, probe_signer,
}
use trelyan_falcon_inscripti.Reviewer.Clean.{Grows, growing, Grows-bind}

pub to_option-some : {E A : Type 0} (r : Result E A) (a : A) → to_option r ≡ some a → r ≡ ok a
to_option-some (ok b) a e = let same : b ≡ a = cc in ap ok same
to_option-some (err x) a e = cc

-- The message of two numbers, where it can be built.
pub built_message :
    (a c : ℕ) (h g m : Bytes)
    → to_option (build_message (int (nonneg a)) (int (nonneg c)) h g) ≡ some m
    → (c < 2 ^ 64) × (length h ≡ 32)
built_message a c h g m e =
    let call = build_message (int (nonneg a)) (int (nonneg c)) h g in
    let (a', c', p, _) =
      (build_message_exactly (int (nonneg a)) (int (nonneg c)) h g m).0 (to_option-some call m e) in
    let same : nonneg c ≡ nonneg c' = p.cell.1 in
    let fits = p.cell_fits in (let q : c ≡ c' = cc in omega arith, p.hash_len)

pub message_built :
    (a c : ℕ) (h g : Bytes)
    → a < 2 ^ 64
    → c < 2 ^ 64
    → length h ≡ 32
    → length g ≡ 32
    → to_option (build_message (int (nonneg a)) (int (nonneg c)) h g) ≡ some (layout a c h g)
message_built a c h g ha hc hh hg = ap to_option (
    (build_message_exactly (int (nonneg a)) (int (nonneg c)) h g (layout a c h g)).1 (
      a,
      c,
      record {
        app = refl;
        cell = (refl, refl);
        app_fits = ha;
        cell_fits = hc;
        hash_len = hh;
        genesis_len = hg;
      },
      refl,
    ))

pub name_of_key :
    to_option (committed_pubkey_box_name (int (nonneg 1)))
    ≡ some (key_prefix_pubkey ++ to_bytes 8 1)
unfolding committed_pubkey_box_name cell_key
name_of_key = refl

pub name_of_record :
    to_option (inscription_box_name (int (nonneg 258)))
    ≡ some (key_prefix_inscription ++ to_bytes 8 258)
unfolding inscription_box_name cell_key
name_of_record = refl

pub names_match :
    (bytes_eq (key_prefix_pubkey ++ to_bytes 8 1) (0x6b ∷ 0x5f ∷ 0 ∷ 0 ∷ 0 ∷ 0 ∷ 0 ∷ 0 ∷ 0 ∷ 1 ∷ [])
      && bytes_eq
          (key_prefix_inscription ++ to_bytes 8 258)
          (0x69 ∷ 0x5f ∷ 0 ∷ 0 ∷ 0 ∷ 0 ∷ 0 ∷ 0 ∷ 1 ∷ 2 ∷ []))
    ≡ true
unfolding bytes_eq to_bytes
names_match = refl

pub nonempty_lt : {A : Type 0} (s : List A) → (s ≢ []) ↔ (ltb 0 (length s) ≡ true)
nonempty_lt [] = (λ n. absurd (n refl), λ e. cc)
nonempty_lt (c ∷ s) = (λ n. ground arith, λ e z. cc)

pub Grows-check_some : (names : List Bytes) → Grows (check_some names)
Grows-check_some [] = search growing
Grows-check_some (name ∷ names) = search growing

pub Grows-probe_signer : (text : Option Bytes) → Grows (probe_signer text)
unfolding probe_signer
Grows-probe_signer none = search growing
Grows-probe_signer (some text) = search growing

module _ (outside : Outside) where
  -- The node says that the application exists and runs a program that has the pinned hash and that the
  -- committed TEAL, which is there, assembles to.
  pub record IsLive : Type 0 where
    pub app : App
    pub found : outside.app ≡ some app
    pub same_id : app.id ≡ some app_id
    pub program : Bytes
    pub running : app.approval_program ≡ some program
    pub nonempty : program ≢ []
    pub pinned : outside.sha512_256 program ≡ pinned_on_chain
    pub teal : Bytes
    pub is_there : outside.committed_teal ≡ some teal
    pub built : Bytes
    pub assembled : outside.compile teal ≡ some built
    pub same_program : outside.sha512_256 built ≡ outside.sha512_256 program

  -- The box of that name holds a key.
  pub record IsKeyBox (name : Bytes) : Type 0 where
    pub value : Bytes
    pub served : outside.box name ≡ some value
    pub size : length value ≡ 1793
    pub header : get_elem? value 0 ≡ some 0x0A

  -- The box of that name holds a record of version 1 of the cell in the name.
  pub record IsRecordBox (name : Bytes) : Type 0 where
    pub value : Bytes
    pub served : outside.box name ≡ some value
    pub size : 83 ≤ length value
    pub version : get_elem? value 0 ≡ some 1
    pub cell : from_bytes (take 8 (drop 1 value)) ≡ from_bytes (drop 2 name)
    pub fits : from_bytes (drop 2 name) < 2 ^ 64

  pub Grows-check_package : Grows (check_package outside)
  unfolding check_package
  Grows-check_package = search growing

  pub Grows-check_golden : Grows (check_golden outside)
  unfolding check_golden
  Grows-check_golden = search growing depth 9

  pub Grows-check_teal :
      (fingerprint : Bytes) (teal : Option Bytes) → Grows (check_teal outside fingerprint teal)
  unfolding check_teal
  Grows-check_teal fingerprint none = search growing
  Grows-check_teal fingerprint (some teal) = search growing

  pub Grows-check_app : Grows (check_app outside)
  unfolding check_app
  Grows-check_app = search (growing, Grows-check_teal) depth 9

  pub Grows-check_key : (name : Bytes) → Grows (check_key outside name)
  unfolding check_key
  Grows-check_key name = search growing

  pub Grows-check_keys : (names : List Bytes) → Grows (check_keys outside names)
  unfolding check_keys
  Grows-check_keys [] = search growing
  Grows-check_keys (name ∷ names) =
      Grows-bind (check_key outside name) _ (Grows-check_key name) (λ _. Grows-check_keys names)

  pub Grows-check_boxes : Grows (check_boxes outside)
  unfolding check_boxes
  Grows-check_boxes = search (growing, Grows-check_some, Grows-check_keys)

  pub Grows-check_record : (names : List Bytes) → Grows (check_record outside names)
  unfolding check_record
  Grows-check_record [] = search growing
  Grows-check_record (name ∷ names) = search growing depth 9
