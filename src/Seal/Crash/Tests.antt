-- ===== src/Seal/Crash/Tests.antt =====
-- A crash in the middle of a write, a run that ends, and the theorems at them.
use trelyan_falcon_inscripti.Prelude.{◌≡◌, refl, true, ◌||◌, List, [], ◌∷◌, none, some, ◌⊎◌}
use trelyan_falcon_inscripti.Prelude.Bytes.{Bytes}
use trelyan_falcon_inscripti.Prelude.Result.{ok}
use trelyan_falcon_inscripti.Message.{PyInt, nonneg}
use trelyan_falcon_inscripti.Seal.Store.{int_eq, set_contains, set_add}
use trelyan_falcon_inscripti.Seal.JsonFile.{
  Os, load_set, to_set, sorted, insert_sorted, int_le, file_is_sealed, file_record,
}
use trelyan_falcon_inscripti.Seal.FileTests.{toy, two_cells}
use trelyan_falcon_inscripti.Seal.Crash.{
  Disk, writing, ended, crashed, Step, Reach, rests, steps, creates, writes, syncs, replaces,
  returns, stops,
}
use trelyan_falcon_inscripti.Seal.Crash.Whole.{
  record_never_tears, ended_refines_file_record, return_may_be_lost,
}

abbrev seven : PyInt
seven = nonneg 7

abbrev at_rest : Disk
at_rest = record { file = two_cells; temp = none; durable = two_cells }

abbrev cells : List PyInt
cells = nonneg 5 ∷ nonneg 9 ∷ []

abbrev payload : Bytes
payload = 0 ∷ 5 ∷ 0 ∷ 7 ∷ 0 ∷ 9 ∷ []

loaded : load_set toy two_cells ≡ ok cells
unfolding load_set to_set set_add set_contains
loaded = refl

dumped : payload ≡ toy.dumps (sorted (set_add seven cells))
unfolding sorted insert_sorted int_le set_add set_contains
dumped = refl

-- The machine stops when three bytes are written.
abbrev torn : Disk
torn = record at_rest { temp = some (0 ∷ 5 ∷ 0 ∷ []) }

crash : Reach toy seven at_rest crashed torn
crash =
    steps
      (steps {d' = torn}
        (steps {d' = record at_rest { temp = some [] }} rests
          (creates cells payload loaded dumped refl))
        (writes payload 3 refl))
      (stops (writing payload) (some (0 ∷ 5 ∷ 0 ∷ [])) refl)

record_never_tears_example :
    (torn.file ≡ two_cells)
    ⊎ ((ns : List PyInt) × (load_set toy two_cells ≡ ok ns)
        × ((m : PyInt) → file_is_sealed toy m torn.file ≡ ok (int_eq m seven || set_contains m ns)))
record_never_tears_example = record_never_tears toy seven at_rest torn crashed refl crash

abbrev done : Disk
done = record at_rest { file = some payload }

whole_run : Reach toy seven at_rest (ended (ok tt)) done
whole_run =
    steps
      (steps {d' = done}
        (steps {d' = record at_rest { temp = some payload }}
          (steps {d' = record at_rest { temp = some [] }} rests
            (creates cells payload loaded dumped refl))
          (syncs payload refl))
        (replaces payload payload refl refl))
      (returns refl)

ended_refines_file_record_example :
    (os : Os) × (file_record toy os seven two_cells ≡ (ok tt, some payload))
ended_refines_file_record_example =
    ended_refines_file_record toy seven at_rest done (ok tt) refl whole_run

return_may_be_lost_example :
    (d d' : Disk) × Reach toy seven at_rest (ended (ok tt)) d
    × Step toy seven d d' (ended (ok tt)) crashed
    × (file_is_sealed toy seven d.file ≡ ok true)
    × (d'.file ≡ two_cells)
return_may_be_lost_example = return_may_be_lost toy seven at_rest cells refl loaded
