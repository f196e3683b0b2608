-- ===== src/Reviewer.antt =====
-- sdk/examples/verify_trelyan.py: the script that counts checks of the package, of golden values, of the
-- live application and of its boxes, and ends with an exit code. The node, the hash, the installed
-- version and the loading of the signer are arguments; what is printed is left out.
pub mod Clean
pub mod Parts
pub mod Package
pub mod Boxes
pub mod Exit
pub mod Honest
mod Tests
use trelyan_falcon_inscripti.Prelude.{
  ℕ, ◌+◌, ◌-◌, Bool, true, false, not, ◌&&◌, Option, none, some, List, [], ◌∷◌, length, get_elem?,
  take, drop, replicate, ltb, leb, ◌==◌, is_some, if◌then◌else◌,
}
use trelyan_falcon_inscripti.Prelude.Bytes.{Bytes, bytes_eq, to_bytes, from_bytes}
use trelyan_falcon_inscripti.Prelude.Text.{splitlines, after_prefix}
use trelyan_falcon_inscripti.Prelude.Result.{Result, ok, err, to_option}
use trelyan_falcon_inscripti.Message.{
  int, nonneg, domain_tag, message_len, det_compressed_header, sig_compressed_maxsize, pubkey_len,
  build_message, committed_pubkey_box_name, inscription_box_name, key_prefix_pubkey,
  key_prefix_inscription,
}
use trelyan_falcon_inscripti.Checks.Teal.{first_line}

abbrev pub app_id : ℕ
app_id = 770964251

-- The bytes of TESTNET_GENESIS_B64.
abbrev pub testnet_genesis : Bytes
testnet_genesis =
    72 ∷ 99 ∷ 181 ∷ 24 ∷ 164 ∷ 179 ∷ 200 ∷ 78 ∷ 200 ∷ 16 ∷ 242 ∷ 45 ∷ 79 ∷ 16 ∷ 129 ∷ 203 ∷ 15 ∷ 113
    ∷ 240 ∷ 89 ∷ 167 ∷ 172 ∷ 32 ∷ 222 ∷ 198 ∷ 47 ∷ 127 ∷ 112 ∷ 229 ∷ 9 ∷ 58 ∷ 34 ∷ []

-- The bytes of PINNED_ON_CHAIN_SHA512_256.
abbrev pub pinned_on_chain : Bytes
pinned_on_chain =
    0x6f ∷ 0xa5 ∷ 0xce ∷ 0xe1 ∷ 0x45 ∷ 0x76 ∷ 0x2e ∷ 0x4a ∷ 0x0c ∷ 0x2b ∷ 0xa9 ∷ 0x37 ∷ 0x38 ∷ 0xa0
    ∷ 0xe6 ∷ 0xf5 ∷ 0x1e ∷ 0x93 ∷ 0xb0 ∷ 0x2c ∷ 0x71 ∷ 0xf2 ∷ 0x3e ∷ 0x4e ∷ 0x66 ∷ 0x3a ∷ 0xc6
    ∷ 0xd7 ∷ 0x3b ∷ 0x98 ∷ 0x1c ∷ 0x4b ∷ []

-- b"TRELYAN-INSCRIPTION-v1"
abbrev pub expected_tag : Bytes
expected_tag =
    b'T' ∷ b'R' ∷ b'E' ∷ b'L' ∷ b'Y' ∷ b'A' ∷ b'N' ∷ b'-' ∷ b'I' ∷ b'N' ∷ b'S' ∷ b'C' ∷ b'R' ∷ b'I'
    ∷ b'P' ∷ b'T' ∷ b'I' ∷ b'O' ∷ b'N' ∷ b'-' ∷ b'v' ∷ b'1' ∷ []

-- b"TRELYAN", and the bytes of the digest that the script expects for it.
abbrev pub golden_input : Bytes
golden_input = b'T' ∷ b'R' ∷ b'E' ∷ b'L' ∷ b'Y' ∷ b'A' ∷ b'N' ∷ []

abbrev pub golden_digest : Bytes
golden_digest =
    0x5a ∷ 0x8b ∷ 0x37 ∷ 0x2a ∷ 0x74 ∷ 0xe2 ∷ 0x99 ∷ 0x3e ∷ 0xcb ∷ 0xcd ∷ 0xb6 ∷ 0xd8 ∷ 0xfb ∷ 0x22
    ∷ 0x76 ∷ 0xec ∷ 0x72 ∷ 0xe3 ∷ 0x06 ∷ 0x0f ∷ 0x0e ∷ 0x96 ∷ 0x8f ∷ 0x06 ∷ 0xa7 ∷ 0x19 ∷ 0xee
    ∷ 0xba ∷ 0xfb ∷ 0x47 ∷ 0x33 ∷ 0x2e ∷ []

-- b"hello, after Q-Day"
abbrev pub golden_artifact : Bytes
golden_artifact =
    b'h' ∷ b'e' ∷ b'l' ∷ b'l' ∷ b'o' ∷ 44 ∷ 32 ∷ b'a' ∷ b'f' ∷ b't' ∷ b'e' ∷ b'r' ∷ 32 ∷ b'Q' ∷ b'-'
    ∷ b'D' ∷ b'a' ∷ b'y' ∷ []

-- The counters PASS, FAIL and NOT_CHECKED.
pub record Tally : Type 0 where
  pub passed : ℕ
  pub failed : ℕ
  pub not_checked : ℕ

-- A part of the script: it moves the counters, and may raise, which ends the script.
pub data Crash : Type 0 where
  crashed : Crash

abbrev pub Script : Type 0 → Type 0
Script A = Tally → Result Crash A × Tally

module _ {A : Type 0} where
  abbrev pub pure : A → Script A
  pure a t = (ok a, t)

  -- A value that is there, or an exception.
  abbrev pub answer : Option A → Script A
  answer none t = (err crashed, t)
  answer (some a) t = (ok a, t)

infixl 5 ◌>>=◌ ◌>>◌
abbrev pub then_run : {A B : Type 0} → Result Crash A → (A → Script B) → Script B
then_run (ok a) f t = f a t
then_run (err e) f t = (err e, t)

abbrev pub ◌>>=◌ : {A B : Type 0} → Script A → (A → Script B) → Script B
◌>>=◌ m f t = then_run (m t).0 f (m t).1

abbrev pub ◌>>◌ : {B : Type 0} → Script (Unit {0}) → Script B → Script B
m >> k = m >>= λ _. k

unfoldable pub check : Bool → Script (Unit {0})
check holds t = (
  ok tt,
  if holds then record t { passed = t.passed + 1 } else record t { failed = t.failed + 1 },
)

unfoldable pub not_checked : Script (Unit {0})
not_checked t = (ok tt, record t { not_checked = t.not_checked + 1 })

-- What the node says of the application: its id, and its approval program, decoded.
pub record App : Type 0 where
  pub id : Option ℕ
  pub approval_program : Option Bytes

-- The answers of the outside, where `none` is an exception: the installed version, hashlib's
-- sha512_256, the application, the assembler, the names of the boxes and the value of one; the
-- committed TEAL, if the file is there; and the text of the exception that loading the signer raises,
-- if it raises one.
pub record Outside : Type 0 where
  pub version : Bytes
  pub sha512_256 : Bytes → Bytes
  pub app : Option App
  pub compile : Bytes → Option Bytes
  pub boxes : Option (List Bytes)
  pub box : Bytes → Option Bytes
  pub committed_teal : Option Bytes
  pub load_error : Option Bytes

-- `version.endswith("+source")`
abbrev pub source_suffix : Bytes
source_suffix = b'+' ∷ b's' ∷ b'o' ∷ b'u' ∷ b'r' ∷ b'c' ∷ b'e' ∷ []

abbrev pub ends_with : Bytes → Bytes → Bool
ends_with suffix s = bytes_eq (drop (length s - length suffix) s) suffix

unfoldable pub is_release : Bytes → Bool
is_release version = ltb 0 (length version) && not (ends_with source_suffix version)

-- `[n for n in names if n[:2] == prefix]`
unfoldable pub with_prefix : Bytes → List Bytes → List Bytes
with_prefix prefix [] = []
with_prefix prefix (name ∷ names) =
    let rest = with_prefix prefix names in
    if bytes_eq (take 2 name) prefix then name ∷ rest else rest

-- "M matches the spec layout at every field offset"
unfoldable pub layout_holds : Bytes → Bytes → Bool
layout_holds art message =
    bytes_eq (take 22 message) domain_tag
    && (bytes_eq (take 8 (drop 22 message)) (to_bytes 8 app_id)
        && (bytes_eq (take 32 (drop 38 message)) art && bytes_eq (drop 70 message) testnet_genesis))

-- `if not ks: not_checked(...)`
abbrev pub check_some : List Bytes → Script (Unit {0})
check_some [] = not_checked
check_some (name ∷ names) = pure tt

-- The attempt to load the signer, whose handler takes the first line of the exception's text.
unfoldable pub probe_signer : Option Bytes → Script (Unit {0})
probe_signer none = pure tt
probe_signer (some text) = do _ ← answer (first_line (splitlines text)); pure tt

abbrev pub start : Tally
start = record { passed = 0; failed = 0; not_checked = 0 }

-- The last lines, and the code 1 of a script that an exception ends.
abbrev pub code_of : Result Crash (Unit {0}) → Tally → ℕ
code_of (err e) t = 1
code_of (ok u) t = if t.failed == 0 then (if t.not_checked == 0 then 0 else 2) else 1

-- `rec[9:41]`
abbrev pub recorded_hash : Bytes → Bytes
recorded_hash rec = take 32 (drop 9 rec)

-- The message that section [5] rebuilds from the name of a record box and its bytes.
abbrev pub rebuild : Bytes → Bytes → Option Bytes
rebuild name rec = to_option (
    build_message (int (nonneg app_id)) (int (nonneg (from_bytes (drop 2 name))))
      (recorded_hash rec) testnet_genesis)

module _ (outside : Outside) where
  -- [1]
  unfoldable pub check_package : Script (Unit {0})
  check_package = do
    check (is_release outside.version)
    check (bytes_eq domain_tag expected_tag)
    check (message_len == 102)
    check (det_compressed_header == 0xBA)
    check (sig_compressed_maxsize == 1423 && pubkey_len == 1793)

  -- [2]
  unfoldable pub check_golden : Script (Unit {0})
  check_golden = do
    check (bytes_eq (outside.sha512_256 golden_input) golden_digest)
    let art = outside.sha512_256 golden_artifact
    message ←
        answer (to_option (build_message (int (nonneg 1001)) (int (nonneg 1)) art (replicate 32 0)))
    check (is_some (after_prefix expected_tag message) && length message == 102)
    k ← answer (to_option (committed_pubkey_box_name (int (nonneg 1))))
    i ← answer (to_option (inscription_box_name (int (nonneg 258))))
    check (
        bytes_eq k (0x6b ∷ 0x5f ∷ 0 ∷ 0 ∷ 0 ∷ 0 ∷ 0 ∷ 0 ∷ 0 ∷ 1 ∷ [])
        && bytes_eq i (0x69 ∷ 0x5f ∷ 0 ∷ 0 ∷ 0 ∷ 0 ∷ 0 ∷ 0 ∷ 1 ∷ 2 ∷ []))

  -- The comparison with the committed TEAL, if it is there.
  unfoldable pub check_teal : Bytes → Option Bytes → Script (Unit {0})
  check_teal fingerprint none = not_checked
  check_teal fingerprint (some teal) = do
    built ← answer (outside.compile teal)
    check (bytes_eq (outside.sha512_256 built) fingerprint)

  -- [3]
  unfoldable pub check_app : Script (Unit {0})
  check_app = do
    app ← answer outside.app
    check (elim app.id [ none ↦ false | some id ↦ id == app_id ])
    program ← answer app.approval_program
    check (ltb 0 (length program))
    let fingerprint = outside.sha512_256 program
    check (bytes_eq fingerprint pinned_on_chain)
    check_teal fingerprint outside.committed_teal

  -- One round of the loop over the registered keys.
  unfoldable pub check_key : Bytes → Script (Unit {0})
  check_key name = do
    pk ← answer (outside.box name)
    header ← answer (get_elem? pk 0)
    check (length pk == 1793 && header == 0x0A)

  unfoldable pub check_keys : List Bytes → Script (Unit {0})
  check_keys [] = pure tt
  check_keys (name ∷ names) = do check_key name; check_keys names

  -- [4], with the names of the inscription boxes
  unfoldable pub check_boxes : Script (List Bytes)
  check_boxes = do
    names ← answer outside.boxes
    let ks = with_prefix key_prefix_pubkey names
    check (ltb 0 (length names))
    check_some ks
    check_keys (take 3 ks)
    pure (with_prefix key_prefix_inscription names)

  -- [5]; the result is M_live, which is set if there is a record box.
  unfoldable pub check_record : List Bytes → Script (Option Bytes)
  check_record [] = pure none
  check_record (name ∷ names) = do
    let cell = from_bytes (drop 2 name)
    rec ← answer (outside.box name)
    check (leb 83 (length rec))
    version ← answer (get_elem? rec 0)
    check (version == 1)
    check (from_bytes (take 8 (drop 1 rec)) == cell)
    message ← answer (rebuild name rec)
    check (layout_holds (recorded_hash rec) message)
    pure (some message)

  unfoldable pub run : Script (Unit {0})
  run = do
    check_package
    check_golden
    check_app
    iss ← check_boxes
    m_live ← check_record iss
    probe_signer outside.load_error

  unfoldable pub exit_code : ℕ
  exit_code = code_of (run start).0 (run start).1
