-- ===== src/Prelude/Bytes.antt =====
-- Byte strings as lists of numbers below 256, their comparison, and Python's `int.to_bytes` and
-- `int.from_bytes` in big-endian order, which are also the AVM's `itob` and `btoi`.
use Prim.Native.Nat.{ℕ, zero, suc, ◌+◌, ◌*◌, ◌/◌, ◌%◌, ◌^◌, ◌<◌}
use mathlib.Core.Path.{◌≡◌, refl, ap, sym, ◌∙◌}
use mathlib.Core.Logic.{◌↔◌}
use mathlib.Core.Bool.{Bool, true, false, ◌&&◌}
use mathlib.Core.List.{List, [], ◌∷◌, ◌++◌}
use native.Mathlib.Omega.{arith}
use native.Mathlib.Nat.{pow-suc}
use trelyan_falcon_inscripti.Prelude.Lists.{length, length-append}
use trelyan_falcon_inscripti.Prelude.Tests.{◌==◌}

abbrev pub Bytes : Type 0
Bytes = List ℕ

abbrev pub All {ℓ} : {A : Type 0} → (A → Type ℓ) → List A → Type ℓ
All P [] = Unit
All P (x ∷ xs) = P x × All P xs

unfoldable pub bytes_eq : Bytes → Bytes → Bool
bytes_eq [] [] = true
bytes_eq (a ∷ s) (b ∷ t) = a == b && bytes_eq s t
bytes_eq _ _ = false

pub bytes_eq_iff : (s t : Bytes) → (bytes_eq s t ≡ true) ↔ (s ≡ t)
unfolding bytes_eq
bytes_eq_iff [] [] = (λ _. refl, λ _. refl)
bytes_eq_iff [] (b ∷ t) = (λ e. cc, λ e. cc)
bytes_eq_iff (a ∷ s) [] = (λ e. cc, λ e. cc)
bytes_eq_iff (a ∷ s) (b ∷ t) =
    (λ e. ground (arith, bytes_eq_iff s t), λ e. ground (arith, bytes_eq_iff s t))

-- `v.to_bytes(k, "big")`, for v < 256 ^ k
unfoldable pub to_bytes : ℕ → ℕ → Bytes
to_bytes zero v = []
to_bytes (suc k) v = to_bytes k (v / 256) ++ (v % 256 ∷ [])

from_bytes_acc : ℕ → Bytes → ℕ
from_bytes_acc acc [] = acc
from_bytes_acc acc (b ∷ bs) = from_bytes_acc (acc * 256 + b) bs

-- `int.from_bytes(s, "big")`
unfoldable pub from_bytes : Bytes → ℕ
unfolding from_bytes_acc
from_bytes = from_bytes_acc 0

from_bytes_acc-append :
    (s : Bytes) (acc b : ℕ) → from_bytes_acc acc (s ++ (b ∷ [])) ≡ from_bytes_acc acc s * 256 + b
unfolding from_bytes_acc
from_bytes_acc-append [] acc b = refl
from_bytes_acc-append (c ∷ s) acc b = from_bytes_acc-append s (acc * 256 + c) b

pub length-to_bytes : (k v : ℕ) → length (to_bytes k v) ≡ k
unfolding to_bytes
length-to_bytes zero v = refl
length-to_bytes (suc k) v = rw length-append (omega (arith, length-to_bytes k (v / 256)))

-- Decoding gives back what was encoded, if it fits the width.
pub from_bytes-to_bytes : (k v : ℕ) → v < 256 ^ k → from_bytes (to_bytes k v) ≡ v
unfolding to_bytes from_bytes
from_bytes-to_bytes zero v h = omega arith
from_bytes-to_bytes (suc k) v h =
    rw from_bytes_acc-append
      (omega (arith, from_bytes-to_bytes k (v / 256) (omega (arith, pow-suc 256 k))))

pub to_bytes-injective :
    (k v w : ℕ) → v < 256 ^ k → w < 256 ^ k → to_bytes k v ≡ to_bytes k w → v ≡ w
to_bytes-injective k v w hv hw e =
    sym (from_bytes-to_bytes k v hv) ∙ ap from_bytes e ∙ from_bytes-to_bytes k w hw
