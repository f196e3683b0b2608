-- ===== src/Seal/Crash.antt =====
-- JsonFileSealStore.record of seal.py as the steps that it takes on the disk, with a failure or a crash
-- of the machine between any two: the temporary file is created, written piece by piece, synced, and
-- put in the place of the old file by one atomic os.replace.
pub mod Whole
mod Tests
use trelyan_falcon_inscripti.Prelude.{
  ℕ, take, sym, ◌≡◌, ◌≢◌, refl, ap, ◌∙◌, arith, Bool, true, false, ◌||◌, List, [], ◌∷◌, Option,
  none, some, ◌⊎◌, inl, inr,
}
use trelyan_falcon_inscripti.Prelude.Bytes.{Bytes}
use trelyan_falcon_inscripti.Prelude.Result.{Result, ok, err, Result-cases}
use trelyan_falcon_inscripti.Exceptions.{Exception, store_error}
use trelyan_falcon_inscripti.Message.{PyInt}
use trelyan_falcon_inscripti.Seal.Store.{int_eq, set_contains, set_add}
use trelyan_falcon_inscripti.Seal.JsonFile.{
  Json, Os, sorted, load_set, file_is_sealed, replacement, file_record, payload_reads,
}

-- The file at `self.path`, the temporary file, and what the directory on the medium has for `self.path`:
-- the source does not sync the directory, so a loss of power may undo the rename.
pub record Disk : Type 0 where
  pub file : Option Bytes
  pub temp : Option Bytes
  pub durable : Option Bytes

-- Where `record` is. `writing` and `synced` know the payload; `cleaning` is the handler that unlinks.
pub data Stage : Type 0 where
  begun : Stage
  writing synced : (payload : Bytes) → Stage
  replaced cleaning : Stage
  ended : Result Exception (Unit {0}) → Stage
  crashed : Stage

module _ (json : Json) (n : PyInt) where
  pub data Step (d d' : Disk) : Stage → Stage → Type 0 where
    load_fails :
        (e : Exception) → load_set json d.file ≡ err e → d' ≡ d → Step d d' begun (ended (err e))
    create_fails :
        (ns : List PyInt)
        → load_set json d.file ≡ ok ns
        → d' ≡ d
        → Step d d' begun (ended (err store_error))
    creates :
        (ns : List PyInt) (payload : Bytes)
        → load_set json d.file ≡ ok ns
        → payload ≡ json.dumps (sorted (set_add n ns))
        → d' ≡ record d { temp = some [] }
        → Step d d' begun (writing payload)
    -- the first k bytes are in the file
    writes :
        (payload : Bytes) (k : ℕ)
        → d' ≡ record d { temp = some (take k payload) }
        → Step d d' (writing payload) (writing payload)
    syncs :
        (payload : Bytes)
        → d' ≡ record d { temp = some payload }
        → Step d d' (writing payload) (synced payload)
    -- os.replace moves what the temporary file holds
    replaces :
        (payload content : Bytes)
        → d.temp ≡ some content
        → d' ≡ record d { file = some content; temp = none }
        → Step d d' (synced payload) replaced
    returns : d' ≡ d → Step d d' replaced (ended (ok tt))
    write_fails : (payload : Bytes) → d' ≡ d → Step d d' (writing payload) cleaning
    replace_fails : (payload : Bytes) → d' ≡ d → Step d d' (synced payload) cleaning
    unlinks : d' ≡ record d { temp = none } → Step d d' cleaning (ended (err store_error))
    unlink_fails : d' ≡ d → Step d d' cleaning (ended (err store_error))
    -- the process or the machine stops, and the temporary file holds anything
    stops :
        (stage : Stage) (t : Option Bytes) → d' ≡ record d { temp = t } → Step d d' stage crashed
    -- a loss of power that leaves what the medium has
    loses_power :
        (stage : Stage) (t : Option Bytes)
        → d' ≡ record d { file = d.durable; temp = t }
        → Step d d' stage crashed

  -- The runs from a disk at rest.
  pub data Reach (d0 : Disk) : Stage → Disk → Type 0 where
    rests : Reach d0 begun d0
    steps :
        {stage stage' : Stage} {d d' : Disk}
        → Reach d0 stage d
        → Step d d' stage stage'
        → Reach d0 stage' d'
