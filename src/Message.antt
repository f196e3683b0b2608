-- ===== src/Message.antt =====
-- sdk/src/trelyan_pq/message.py: the constants, the box names and the signed message; and the
-- second builder of that message, in contracts/falcon_det1024.py. The hash `sha512_256` is
-- hashlib's and is a parameter where it is needed.
pub mod Layout
pub mod Boxes
pub mod Agreement
mod Tests
use trelyan_falcon_inscripti.Prelude.{
  ℕ, ◌+◌, ◌^◌, Bool, true, false, not, ◌&&◌, List, [], ◌∷◌, ◌++◌, length, leb, ◌==◌, if◌then◌else◌,
}
use trelyan_falcon_inscripti.Prelude.Bytes.{Bytes, to_bytes}
use trelyan_falcon_inscripti.Prelude.Result.{Result, ok, err, ◌>>=◌, ◌>>◌, require}
use trelyan_falcon_inscripti.Exceptions.{
  Exception, bad_app_id, bad_cell_id, bad_artifact_hash, bad_genesis_hash, length_drift,
}

-- b"TRELYAN-INSCRIPTION-v1"
abbrev pub domain_tag : Bytes
domain_tag =
    b'T' ∷ b'R' ∷ b'E' ∷ b'L' ∷ b'Y' ∷ b'A' ∷ b'N' ∷ b'-' ∷ b'I' ∷ b'N' ∷ b'S' ∷ b'C' ∷ b'R' ∷ b'I'
    ∷ b'P' ∷ b'T' ∷ b'I' ∷ b'O' ∷ b'N' ∷ b'-' ∷ b'v' ∷ b'1' ∷ []

abbrev pub pubkey_len : ℕ
pubkey_len = 1793

abbrev pub sig_compressed_maxsize : ℕ
sig_compressed_maxsize = 1423

abbrev pub det_compressed_header : ℕ
det_compressed_header = 0xBA

abbrev pub total_cells : ℕ
total_cells = 1024

abbrev pub ins_version : ℕ
ins_version = 1

abbrev pub max_app_args_total_bytes : ℕ
max_app_args_total_bytes = 2048

abbrev pub message_len : ℕ
message_len = length domain_tag + 8 + 8 + 32 + 32

abbrev pub key_prefix_pubkey : Bytes
key_prefix_pubkey = b'k' ∷ b'_' ∷ []

abbrev pub key_prefix_owner : Bytes
key_prefix_owner = b'o' ∷ b'_' ∷ []

abbrev pub key_prefix_inscription : Bytes
key_prefix_inscription = b'i' ∷ b'_' ∷ []

-- A Python int: `negative n` is -(n + 1).
pub data PyInt : Type 0 where
  nonneg negative : ℕ → PyInt

-- The values that a caller may pass as an id; `other` is any value that is no `int`, such as a
-- float, a str or None.
pub data PyValue : Type 0 where
  int : PyInt → PyValue
  bool : Bool → PyValue
  other : PyValue

-- `isinstance(x, bool)`
abbrev pub is_bool : PyValue → Bool
is_bool (bool b) = true
is_bool (int n) = false
is_bool other = false

-- `isinstance(x, int)`: `bool` is a subclass of `int`.
abbrev pub is_int : PyValue → Bool
is_int other = false
is_int (bool b) = true
is_int (int n) = true

-- The integer that comparisons and `to_bytes` see.
abbrev pub as_int : PyValue → PyInt
as_int (int n) = n
as_int (bool b) = nonneg (if b then 1 else 0)
as_int other = nonneg 0

-- `0 <= n <= 0xFFFFFFFFFFFFFFFF`
abbrev pub fits_uint64 : PyInt → Bool
fits_uint64 (nonneg n) = leb n 0xFFFF_FFFF_FFFF_FFFF
fits_uint64 (negative n) = false

-- `n.to_bytes(8, "big")`, where the range has been checked
abbrev pub int_to_bytes : PyInt → Bytes
int_to_bytes (nonneg n) = to_bytes 8 n
int_to_bytes (negative n) = []

unfoldable pub cell_key : PyValue → Result Exception Bytes
cell_key cell_id = do
  require (is_int cell_id && fits_uint64 (as_int cell_id)) bad_cell_id
  ok (int_to_bytes (as_int cell_id))

unfoldable pub committed_pubkey_box_name : PyValue → Result Exception Bytes
committed_pubkey_box_name cell_id = do key ← cell_key cell_id; ok (key_prefix_pubkey ++ key)

unfoldable pub controlling_owner_box_name : PyValue → Result Exception Bytes
controlling_owner_box_name cell_id = do key ← cell_key cell_id; ok (key_prefix_owner ++ key)

unfoldable pub inscription_box_name : PyValue → Result Exception Bytes
inscription_box_name cell_id = do key ← cell_key cell_id; ok (key_prefix_inscription ++ key)

unfoldable pub box_refs : PyValue → Result Exception (List Bytes)
box_refs cell_id = do
  k ← committed_pubkey_box_name cell_id
  o ← controlling_owner_box_name cell_id
  i ← inscription_box_name cell_id
  ok (k ∷ o ∷ i ∷ [])

-- The check of an id in which `bool` is excluded.
abbrev pub is_strict_uint64 : PyValue → Bool
is_strict_uint64 v = not (is_bool v) && (is_int v && fits_uint64 (as_int v))

-- `build_message` of message.py
unfoldable pub build_message : PyValue → PyValue → Bytes → Bytes → Result Exception Bytes
build_message app_id cell_id artifact_hash genesis_hash = do
  require (is_strict_uint64 app_id) bad_app_id
  require (length artifact_hash == 32) bad_artifact_hash
  require (length genesis_hash == 32) bad_genesis_hash
  key ← cell_key cell_id
  let msg = domain_tag ++ (int_to_bytes (as_int app_id) ++ (key ++ (artifact_hash ++ genesis_hash)))
  require (length msg == message_len) length_drift
  ok msg

-- `build_message` of contracts/falcon_det1024.py
unfoldable pub reference_build_message : PyValue → PyValue → Bytes → Bytes → Result Exception Bytes
reference_build_message app_id cell_id artifact_hash genesis_hash = do
  require (is_strict_uint64 app_id) bad_app_id
  require (is_strict_uint64 cell_id) bad_cell_id
  require (length artifact_hash == 32) bad_artifact_hash
  require (length genesis_hash == 32) bad_genesis_hash
  ok (
      domain_tag
      ++ (int_to_bytes (as_int app_id)
          ++ (int_to_bytes (as_int cell_id) ++ (artifact_hash ++ genesis_hash))))
