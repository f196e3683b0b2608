-- ===== src/Seal/Store.antt =====
-- The protocol SealStore of seal.py with what the sealing code relies on, and InMemorySealStore.
use trelyan_falcon_inscripti.Prelude.{
  ap, ◌↔◌, inr, inl, Bool-cases, ◌≡◌, ◌≢◌, Bool, true, false, ◌||◌, List, [], ◌∷◌, ◌==◌, arith,
}
use trelyan_falcon_inscripti.Prelude.Result.{Result, ok, err}
use trelyan_falcon_inscripti.Exceptions.{Exception}
use trelyan_falcon_inscripti.Message.{PyInt, nonneg, negative}

-- A store that fails to record a cell is as it was.
pub record SealStore (S : Type 0) : Type 0 where
  pub is_sealed : PyInt → S → Result Exception Bool
  pub record_seal : PyInt → S → Result Exception (Unit {0}) × S
  pub sealed_after :
      (n : PyInt) (s : S) → (record_seal n s).0 ≡ ok tt → is_sealed n (record_seal n s).1 ≡ ok true
  pub others_after :
      (n m : PyInt) (s : S)
      → (record_seal n s).0 ≡ ok tt
      → n ≢ m
      → is_sealed m (record_seal n s).1 ≡ is_sealed m s
  pub unchanged_on_error :
      (n : PyInt) (s : S) (e : Exception) → (record_seal n s).0 ≡ err e → (record_seal n s).1 ≡ s

abbrev pub int_eq : PyInt → PyInt → Bool
int_eq (nonneg a) (nonneg b) = a == b
int_eq (negative a) (negative b) = a == b
int_eq (nonneg _) (negative _) = false
int_eq (negative _) (nonneg _) = false

-- A Python set of ints, by its elements.
unfoldable pub set_contains : PyInt → List PyInt → Bool
set_contains n [] = false
set_contains n (m ∷ ms) = int_eq n m || set_contains n ms

unfoldable pub set_add : PyInt → List PyInt → List PyInt
set_add n ms = elim (set_contains n ms) [ true ↦ ms | false ↦ n ∷ ms ]

pub int_eq_iff : (n m : PyInt) → (int_eq n m ≡ true) ↔ (n ≡ m)
int_eq_iff (nonneg a) (nonneg b) = ground arith
int_eq_iff (nonneg a) (negative b) = ground arith
int_eq_iff (negative a) (nonneg b) = ground arith
int_eq_iff (negative a) (negative b) = ground arith

pub set_contains-set_add :
    (n m : PyInt) (ms : List PyInt)
    → set_contains m (set_add n ms) ≡ (int_eq m n || set_contains m ms)
unfolding set_add set_contains
set_contains-set_add n m ms = elim (Bool-cases (int_eq m n)) [
  | inl same ↦
      let e : m ≡ n = (int_eq_iff m n).0 same in
      rw e (elim (Bool-cases (set_contains n ms)) [
        | inl old ↦ ground (arith, int_eq_iff n n)
        | inr new ↦ ground (arith, int_eq_iff n n)
      ])
  | inr differ ↦ ground arith
]

pub set_add_sealed : (n : PyInt) (ms : List PyInt) → set_contains n (set_add n ms) ≡ true
set_add_sealed n ms = ground (arith, set_contains-set_add n n ms, int_eq_iff n n)

pub set_add_others :
    (n m : PyInt) (ms : List PyInt) → n ≢ m → set_contains m (set_add n ms) ≡ set_contains m ms
set_add_others n m ms ne = ground (arith, set_contains-set_add n m ms, int_eq_iff m n)

pub ok_apart : {A : Type 0} {X : Type 0} {a : X} {e : Exception} → ok a ≡ err e → A
ok_apart h = cc

-- `InMemorySealStore`
abbrev pub in_memory : SealStore (List PyInt)
in_memory = record {
  is_sealed = λ n s. ok (set_contains n s);
  record_seal = λ n s. (ok tt, set_add n s);
  sealed_after = λ n s e. ap ok (set_add_sealed n s);
  others_after = λ n m s e ne. ap ok (set_add_others n m s ne);
  unchanged_on_error = λ n s e h. ok_apart h;
}
