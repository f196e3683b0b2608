-- ===== src/Seal/JsonFile.antt =====
-- JsonFileSealStore of seal.py. The state is what the file at `self.path` holds; the temporary file is
-- not part of it, since no call reads it. JSON and the system's calls are parameters.
use trelyan_falcon_inscripti.Prelude.{
  ◌≡◌, ◌≢◌, refl, arith, ap, ◌∙◌, Bool, true, false, ◌||◌, List, [], ◌∷◌, Option, none, some,
  if◌then◌else◌, inl, inr, leb,
}
use trelyan_falcon_inscripti.Prelude.Bytes.{Bytes}
use trelyan_falcon_inscripti.Prelude.Result.{
  Result-cases, Result, ok, err, ◌>>=◌, ◌>>◌, require, bind-ok,
}
use trelyan_falcon_inscripti.Exceptions.{Exception, store_error}
use trelyan_falcon_inscripti.Message.{PyInt, nonneg, negative}
use trelyan_falcon_inscripti.Seal.Store.{
  SealStore, int_eq, set_contains, set_add, int_eq_iff, set_contains-set_add,
}

-- json.dumps of a list of ints, and json.load with int() on every element.
pub record Json : Type 0 where
  pub dumps : List PyInt → Bytes
  pub loads : Bytes → Result Exception (List PyInt)
  pub loads-dumps : (ns : List PyInt) → loads (dumps ns) ≡ ok ns

-- Whether mkstemp, the write with its fsync, and os.replace succeed.
pub record Os : Type 0 where
  pub can_create : Bool
  pub can_write : Bool
  pub can_replace : Bool

unfoldable pub int_le : PyInt → PyInt → Bool
int_le (nonneg a) (nonneg b) = leb a b
int_le (negative a) (negative b) = leb b a
int_le (nonneg _) (negative _) = false
int_le (negative _) (nonneg _) = true

unfoldable pub insert_sorted : PyInt → List PyInt → List PyInt
insert_sorted n [] = n ∷ []
insert_sorted n (m ∷ ms) =
    let rest = insert_sorted n ms in if int_le n m then n ∷ m ∷ ms else m ∷ rest

unfoldable pub sorted : List PyInt → List PyInt
sorted [] = []
sorted (n ∷ ns) = insert_sorted n (sorted ns)

unfoldable pub to_set : List PyInt → List PyInt
to_set [] = []
to_set (n ∷ ns) = set_add n (to_set ns)

module _ (json : Json) where
  -- `_load`
  unfoldable pub load_set : Option Bytes → Result Exception (List PyInt)
  load_set none = ok []
  load_set (some content) = do ns ← json.loads content; ok (to_set ns)

  unfoldable pub file_is_sealed : PyInt → Option Bytes → Result Exception Bool
  file_is_sealed n file = do ns ← load_set file; ok (set_contains n ns)

  -- the bytes that `record` writes to the temporary file, and then puts in the file's place
  unfoldable pub replacement : Os → PyInt → Option Bytes → Result Exception Bytes
  replacement os n file = do
    ns ← load_set file
    let payload = json.dumps (sorted (set_add n ns))
    require os.can_create store_error
    require os.can_write store_error
    require os.can_replace store_error
    ok payload

  unfoldable pub file_record :
      Os → PyInt → Option Bytes → Result Exception (Unit {0}) × Option Bytes
  file_record os n file = elim (replacement os n file) [
    | ok payload ↦ (ok tt, some payload)
    | err e ↦ (err e, file)
  ]

pub set_contains-insert_sorted :
    (k n : PyInt) (ms : List PyInt)
    → set_contains k (insert_sorted n ms) ≡ (int_eq k n || set_contains k ms)
unfolding insert_sorted set_contains
set_contains-insert_sorted k n [] = refl
set_contains-insert_sorted k n (m ∷ ms) = ground (arith, set_contains-insert_sorted k n ms)

pub set_contains-sorted :
    (k : PyInt) (ns : List PyInt) → set_contains k (sorted ns) ≡ set_contains k ns
unfolding sorted set_contains
set_contains-sorted k [] = refl
set_contains-sorted k (n ∷ ns) =
    ground (arith, set_contains-insert_sorted k n (sorted ns), set_contains-sorted k ns)

pub set_contains-to_set :
    (k : PyInt) (ns : List PyInt) → set_contains k (to_set ns) ≡ set_contains k ns
unfolding to_set set_contains
set_contains-to_set k [] = refl
set_contains-to_set k (n ∷ ns) =
    ground (arith, set_contains-set_add n k (to_set ns), set_contains-to_set k ns)

module _ (json : Json) (os : Os) where
  pub payload_reads :
      (n m : PyInt) (ns : List PyInt)
      → file_is_sealed json m (some (json.dumps (sorted (set_add n ns))))
        ≡ ok (int_eq m n || set_contains m ns)
  unfolding file_is_sealed load_set
  payload_reads n m ns = rw (json.loads-dumps (sorted (set_add n ns))) (
      ap ok (
        set_contains-to_set m (sorted (set_add n ns))
        ∙ set_contains-sorted m (set_add n ns)
        ∙ set_contains-set_add n m ns))

  replacement_payload :
      (n : PyInt) (file : Option Bytes) (payload : Bytes)
      → replacement json os n file ≡ ok payload
      → (ns : List PyInt) × (load_set json file ≡ ok ns)
        × (payload ≡ json.dumps (sorted (set_add n ns)))
  unfolding replacement
  replacement_payload n file payload h =
      let (ns, loaded, rest) = bind-ok (load_set json file) _ h in (ns, loaded, ground arith)

  file_record_writes :
      (n : PyInt) (file : Option Bytes) (payload : Bytes)
      → replacement json os n file ≡ ok payload
      → (file_record json os n file).1 ≡ some payload
  unfolding file_record
  file_record_writes n file payload e = ground arith

  -- When record of the file store returns, the file read as a set of cells, and it now reads as that set
  -- with the recorded cell, for every cell that is asked for.
  pub file_record_reads :
      (n m : PyInt) (file : Option Bytes)
      → (file_record json os n file).0 ≡ ok tt
      → (ns : List PyInt) × (load_set json file ≡ ok ns)
        × (file_is_sealed json m (file_record json os n file).1
            ≡ ok (int_eq m n || set_contains m ns))
  unfolding file_record
  file_record_reads n m file h = elim (Result-cases (replacement json os n file)) [
    | inl (payload, e) ↦
        let (ns, loaded, same) = replacement_payload n file payload e in
        (ns, loaded, rw (file_record_writes n file payload e, same) (payload_reads n m ns))
    | inr (x, e) ↦ absurd (ground (arith, e))
  ]

  pub json_unchanged_on_error :
      (n : PyInt) (file : Option Bytes) (e : Exception)
      → (file_record json os n file).0 ≡ err e
      → (file_record json os n file).1 ≡ file
  unfolding file_record
  json_unchanged_on_error n file e h = ground arith

  pub file_sealed_after :
      (n : PyInt) (file : Option Bytes)
      → (file_record json os n file).0 ≡ ok tt
      → file_is_sealed json n (file_record json os n file).1 ≡ ok true
  file_sealed_after n file h =
      let (ns, loaded, e) = file_record_reads n n file h in
      e ∙ ap ok (ground (arith, int_eq_iff n n))

  pub file_others_after :
      (n m : PyInt) (file : Option Bytes)
      → (file_record json os n file).0 ≡ ok tt
      → n ≢ m
      → file_is_sealed json m (file_record json os n file).1 ≡ file_is_sealed json m file
  unfolding file_is_sealed
  file_others_after n m file h ne =
      let (ns, loaded, e) = file_record_reads n m file h in
      e ∙ rw loaded (ap ok (ground (arith, int_eq_iff m n)))

  -- `JsonFileSealStore`
  abbrev pub json_file : SealStore (Option Bytes)
  json_file = record {
    is_sealed = file_is_sealed json;
    record_seal = file_record json os;
    sealed_after = file_sealed_after;
    others_after = file_others_after;
    unchanged_on_error = json_unchanged_on_error;
  }
