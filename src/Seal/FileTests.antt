-- ===== src/Seal/FileTests.antt =====
-- Runs of the store in a file, with a toy format in the place of JSON: a sign and a number per cell.
use trelyan_falcon_inscripti.Prelude.{
  zero, suc, ◌≡◌, refl, true, false, ◌||◌, List, [], ◌∷◌, Option, some,
}
use trelyan_falcon_inscripti.Prelude.Bytes.{Bytes}
use trelyan_falcon_inscripti.Prelude.Result.{Result, ok, err, ◌>>=◌}
use trelyan_falcon_inscripti.Exceptions.{Exception, store_error}
use trelyan_falcon_inscripti.Message.{PyInt, nonneg, negative}
use trelyan_falcon_inscripti.Seal.Store.{set_contains, set_add, int_eq}
use trelyan_falcon_inscripti.Seal.JsonFile.{
  Json, Os, load_set, replacement, file_record, file_is_sealed, sorted, insert_sorted, int_le,
  to_set, file_record_reads,
}

abbrev pub toy_dumps : List PyInt → Bytes
toy_dumps [] = []
toy_dumps (nonneg n ∷ ns) = 0 ∷ n ∷ toy_dumps ns
toy_dumps (negative n ∷ ns) = 1 ∷ n ∷ toy_dumps ns

abbrev pub toy_loads : Bytes → Result Exception (List PyInt)
toy_loads [] = ok []
toy_loads (b ∷ []) = err store_error
toy_loads (zero ∷ n ∷ rest) = do ns ← toy_loads rest; ok (nonneg n ∷ ns)
toy_loads (suc b ∷ n ∷ rest) = do ns ← toy_loads rest; ok (negative n ∷ ns)

pub toy_loads-dumps : (ns : List PyInt) → toy_loads (toy_dumps ns) ≡ ok ns
toy_loads-dumps [] = refl
toy_loads-dumps (nonneg n ∷ ns) = rw (toy_loads-dumps ns) refl
toy_loads-dumps (negative n ∷ ns) = rw (toy_loads-dumps ns) refl

abbrev pub toy : Json
toy = record { dumps = toy_dumps; loads = toy_loads; loads-dumps = toy_loads-dumps }

abbrev healthy : Os
healthy = record { can_create = true; can_write = true; can_replace = true }

-- cells 5 and 9, and then cell 7
abbrev pub two_cells : Option Bytes
two_cells = some (0 ∷ 5 ∷ 0 ∷ 9 ∷ [])

seven_recorded :
    file_record toy healthy (nonneg 7) two_cells ≡ (ok tt, some (0 ∷ 5 ∷ 0 ∷ 7 ∷ 0 ∷ 9 ∷ []))
unfolding file_record replacement load_set sorted insert_sorted int_le to_set set_add set_contains
seven_recorded = refl

-- a full disk leaves the file as it was
full_disk :
    file_record toy (record healthy { can_write = false }) (nonneg 7) two_cells
    ≡ (err store_error, two_cells)
unfolding file_record replacement load_set to_set set_add set_contains
full_disk = refl

seven_is_recorded : (file_record toy healthy (nonneg 7) two_cells).0 ≡ ok tt
seven_is_recorded = rw seven_recorded refl

file_record_reads_example :
    (ns : List PyInt) × (load_set toy two_cells ≡ ok ns)
    × (file_is_sealed toy (nonneg 9) (file_record toy healthy (nonneg 7) two_cells).1
        ≡ ok (int_eq (nonneg 9) (nonneg 7) || set_contains (nonneg 9) ns))
file_record_reads_example =
    file_record_reads toy healthy (nonneg 7) (nonneg 9) two_cells seven_is_recorded
