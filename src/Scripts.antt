-- ===== src/Scripts.antt =====
-- The wrappers of the deployment script, scripts/deploy_testnet_fresh.py and
-- scripts/deploy_testnet_secure.py, and contracts/require_testnet_deploy_secret.py. The files, the
-- environment, the balances that the node answers and the deployment itself are arguments.
pub mod Launch
mod Tests
use trelyan_falcon_inscripti.Prelude.{
  ℕ, zero, suc, ◌+◌, Bool, true, false, not, ◌&&◌, Option, none, some, List, [], ◌∷◌, length, leb,
  ◌==◌, if◌then◌else◌,
}
use trelyan_falcon_inscripti.Prelude.Bytes.{Bytes}
use trelyan_falcon_inscripti.Prelude.Text.{strip, is_space}

-- The file names below build/falcon, in the order of the search.
abbrev pub library_names : List Bytes
library_names =
    (b'f' ∷ b'a' ∷ b'l' ∷ b'c' ∷ b'o' ∷ b'n' ∷ b'd' ∷ b'e' ∷ b't' ∷ b'1' ∷ b'0' ∷ b'2' ∷ b'4' ∷ b'.'
      ∷ b'd' ∷ b'l' ∷ b'l' ∷ [])
    ∷ (b'l' ∷ b'i' ∷ b'b' ∷ b'f' ∷ b'a' ∷ b'l' ∷ b'c' ∷ b'o' ∷ b'n' ∷ b'd' ∷ b'e' ∷ b't' ∷ b'1'
        ∷ b'0' ∷ b'2' ∷ b'4' ∷ b'.' ∷ b's' ∷ b'o' ∷ [])
    ∷ (b'l' ∷ b'i' ∷ b'b' ∷ b'f' ∷ b'a' ∷ b'l' ∷ b'c' ∷ b'o' ∷ b'n' ∷ b'd' ∷ b'e' ∷ b't' ∷ b'1'
        ∷ b'0' ∷ b'2' ∷ b'4' ∷ b'.' ∷ b'd' ∷ b'y' ∷ b'l' ∷ b'i' ∷ b'b' ∷ [])
    ∷ []

-- `set_lib` is FALCON_DET1024_LIB, `is_file` tells which names are files below build/falcon, `path_of`
-- gives their paths.
pub record Computer : Type 0 where
  pub deploy_is_file : Bool
  pub set_lib : Option Bytes
  pub is_file : Bytes → Bool
  pub path_of : Bytes → Bytes

unfoldable pub first_file : Computer → List Bytes → Option Bytes
first_file m [] = none
first_file m (name ∷ names) =
    let rest = first_file m names in if m.is_file name then some (m.path_of name) else rest

-- `find_falcon_lib`, the same in both wrappers
unfoldable pub find_falcon_lib : Computer → Option Bytes
find_falcon_lib m = elim m.set_lib [
  | none ↦ first_file m library_names
  | some [] ↦ first_file m library_names
  | some (c ∷ path) ↦ some (c ∷ path)
]

-- How a wrapper ends: with an exit code of its own, or by running the deployment with a mnemonic and a
-- library.
pub data Ending : Type 0 where
  exits : ℕ → Ending
  runs : (mnemonic lib : Bytes) → Ending

abbrev pub needed_microalgo : ℕ
needed_microalgo = 2000000

abbrev pub poll_limit : ℕ
poll_limit = 120

-- The loop of deploy_testnet_fresh.py: whether one of the next answers is enough, where `balance i` is the
-- i-th answer of the node and `n` the number of rounds that are left.
unfoldable pub is_funded : (balance : ℕ → ℕ) → (i n : ℕ) → Bool
is_funded balance i zero = false
is_funded balance i (suc n) =
    let later = is_funded balance (i + 1) n in
    if leb needed_microalgo (balance i) then true else later

-- `main` of deploy_testnet_fresh.py. The generated mnemonic is an argument, and so is whether
-- py-algorand-sdk is installed.
unfoldable pub fresh_main : Computer → Bool → Bytes → (ℕ → ℕ) → Ending
fresh_main m has_algosdk seed balance =
    if m.deploy_is_file
    then (elim (find_falcon_lib m) [
      | none ↦ exits 2
      | some [] ↦ exits 2
      | some (c ∷ lib) ↦
          if has_algosdk && is_funded balance 0 poll_limit then runs seed (c ∷ lib) else exits 2
    ])
    else exits 2

-- The number of words of a text, by the words that end in it: `in_word` says whether the text continues one.
unfoldable pub count_words : (in_word : Bool) → Bytes → ℕ
count_words in_word [] = 0
count_words in_word (c ∷ text) =
    let outside = count_words false text in
    let inside = count_words true text in
    if is_space c then outside else (if in_word then inside else inside + 1)

abbrev pub words_needed : ℕ
words_needed = 25

-- `main` of deploy_testnet_secure.py, on the text that is typed in
unfoldable pub secure_main : Computer → Bytes → Ending
secure_main m typed =
    if m.deploy_is_file
    then (elim (find_falcon_lib m) [
      | none ↦ exits 2
      | some [] ↦ exits 2
      | some (c ∷ lib) ↦
          let mnemonic = strip typed in
          if count_words false mnemonic == words_needed then runs mnemonic (c ∷ lib) else exits 2
    ])
    else exits 2

-- contracts/require_testnet_deploy_secret.py, whose only required secret is DEPLOYER_MNEMONIC
abbrev pub required : List Bytes
required =
    (b'D' ∷ b'E' ∷ b'P' ∷ b'L' ∷ b'O' ∷ b'Y' ∷ b'E' ∷ b'R' ∷ b'_' ∷ b'M' ∷ b'N' ∷ b'E' ∷ b'M' ∷ b'O'
      ∷ b'N' ∷ b'I' ∷ b'C' ∷ [])
    ∷ []

abbrev pub is_empty : Bytes → Bool
is_empty [] = true
is_empty (c ∷ text) = false

-- `environ name` is the variable, and the empty text if it is not set.
unfoldable pub missing_of : (environ : Bytes → Bytes) → List Bytes → List Bytes
missing_of environ [] = []
missing_of environ (name ∷ names) =
    let rest = missing_of environ names in
    if is_empty (strip (environ name)) then name ∷ rest else rest

unfoldable pub missing_required : (Bytes → Bytes) → List Bytes
unfolding missing_of
missing_required environ = missing_of environ required

unfoldable pub secret_main : (Bytes → Bytes) → ℕ
secret_main environ = elim (missing_required environ) [ [] ↦ 0 | name ∷ names ↦ 1 ]
