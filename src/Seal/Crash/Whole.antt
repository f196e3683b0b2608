-- ===== src/Seal/Crash/Whole.antt =====
-- Whatever happens while `record` runs, the file is the old one or the whole new one; and where `record`
-- ends, the disk is as file_record says.
use trelyan_falcon_inscripti.Prelude.{
  sym, ◌≡◌, refl, ap, ◌∙◌, arith, true, false, ◌||◌, List, [], Option, none, some, ◌⊎◌, inl, inr,
}
use trelyan_falcon_inscripti.Prelude.Bytes.{Bytes}
use trelyan_falcon_inscripti.Prelude.Result.{Result, ok, err}
use trelyan_falcon_inscripti.Exceptions.{Exception, store_error}
use trelyan_falcon_inscripti.Message.{PyInt}
use trelyan_falcon_inscripti.Seal.Store.{int_eq, int_eq_iff, set_contains, set_add}
use trelyan_falcon_inscripti.Seal.JsonFile.{
  Json, Os, sorted, load_set, file_is_sealed, replacement, file_record, payload_reads,
}
use trelyan_falcon_inscripti.Seal.Crash.{
  Disk, Stage, begun, writing, synced, replaced, cleaning, ended, crashed, Step, load_fails,
  create_fails, creates, writes, syncs, replaces, returns, write_fails, replace_fails, unlinks,
  unlink_fails, stops, loses_power, Reach, rests, steps,
}

-- An operating system on which everything works, and one on which nothing does.
abbrev any_os : Os
any_os = record { can_create = true; can_write = true; can_replace = true }

abbrev no_os : Os
no_os = record { can_create = false; can_write = false; can_replace = false }

module _ (json : Json) (n : PyInt) where
  -- The bytes of the old set with the new cell.
  pub record IsPayload (file : Option Bytes) (payload : Bytes) : Type 0 where
    pub cells : List PyInt
    pub loaded : load_set json file ≡ ok cells
    pub dumped : payload ≡ json.dumps (sorted (set_add n cells))

  -- The file is as before, or holds the whole new payload.
  abbrev pub IsWhole : Option Bytes → Option Bytes → Type 0
  IsWhole old file =
      (file ≡ old) ⊎ ((payload : Bytes) × IsPayload old payload × (file ≡ some payload))

  -- What holds of the file at each stage.
  abbrev At : Option Bytes → Stage → Option Bytes → Option Bytes → Type 0
  At old begun file temp = file ≡ old
  At old (writing payload) file temp = (file ≡ old) × IsPayload old payload
  At old (synced payload) file temp = (file ≡ old) × IsPayload old payload × (temp ≡ some payload)
  At old replaced file temp = (payload : Bytes) × IsPayload old payload × (file ≡ some payload)
  At old cleaning file temp = (file ≡ old) × ((ns : List PyInt) × (load_set json old ≡ ok ns))
  At old (ended (ok u)) file temp =
      (payload : Bytes) × IsPayload old payload × (file ≡ some payload)
  At old (ended (err e)) file temp =
      (file ≡ old)
      × ((load_set json old ≡ err e)
          ⊎ ((ns : List PyInt) × (load_set json old ≡ ok ns) × (e ≡ store_error)))
  At old crashed file temp = IsWhole old file

  record Holds (old : Option Bytes) (stage : Stage) (d : Disk) : Type 0 where
    at : At old stage d.file d.temp
    durable : d.durable ≡ old

  whole :
      (old : Option Bytes) (stage : Stage) (file temp : Option Bytes)
      → At old stage file temp
      → IsWhole old file
  whole old begun file temp a = inl a
  whole old (writing p) file temp a = inl a.0
  whole old (synced p) file temp a = inl a.0
  whole old replaced file temp a = inr a
  whole old cleaning file temp a = inl a.0
  whole old (ended (ok u)) file temp a = inr a
  whole old (ended (err e)) file temp a = inl a.0
  whole old crashed file temp a = a

  Step-Holds :
      (old : Option Bytes) (d d' : Disk) (stage stage' : Stage)
      → Step json n d d' stage stage'
      → Holds old stage d
      → Holds old stage' d'
  Step-Holds old d d' _ _ (load_fails e failed q) h =
      let a = h.at in rw q (record { at = (a, inl (rw (← a) failed)); durable = h.durable })
  Step-Holds old d d' _ _ (create_fails ns loaded q) h =
      let a = h.at in
      rw q (record { at = (a, inr (ns, rw (← a) loaded, refl)); durable = h.durable })
  Step-Holds old d d' _ _ (creates ns payload loaded e q) h =
      let a = h.at in
      rw q (record {
        at = (a, record { cells = ns; loaded = rw (← a) loaded; dumped = e });
        durable = h.durable;
      })
  Step-Holds old d d' _ _ (writes payload k q) h = rw q (record { at = h.at; durable = h.durable })
  Step-Holds old d d' _ _ (syncs payload q) h =
      let a = h.at in rw q (record { at = (a.0, a.1, refl); durable = h.durable })
  Step-Holds old d d' _ _ (replaces payload content found q) h =
      let a = h.at in
      let same : payload ≡ content = cc (a.2, found) in
      rw q (record { at = (payload, a.1, ap some (sym same)); durable = h.durable })
  Step-Holds old d d' _ _ (returns q) h = rw q (record { at = h.at; durable = h.durable })
  Step-Holds old d d' _ _ (write_fails payload q) h =
      let a = h.at in
      let p = a.1 in rw q (record { at = (a.0, (p.cells, p.loaded)); durable = h.durable })
  Step-Holds old d d' _ _ (replace_fails payload q) h =
      let a = h.at in
      let p = a.1 in rw q (record { at = (a.0, (p.cells, p.loaded)); durable = h.durable })
  Step-Holds old d d' _ _ (unlinks q) h =
      let a = h.at in rw q (record { at = (a.0, inr (a.1.0, a.1.1, refl)); durable = h.durable })
  Step-Holds old d d' _ _ (unlink_fails q) h =
      let a = h.at in rw q (record { at = (a.0, inr (a.1.0, a.1.1, refl)); durable = h.durable })
  Step-Holds old d d' _ _ (stops stage t q) h =
      rw q (record { at = whole old stage d.file d.temp h.at; durable = h.durable })
  Step-Holds old d d' _ _ (loses_power stage t q) h =
      rw q (record { at = inl h.durable; durable = h.durable })

  Reach-Holds :
      (d0 d : Disk) (stage : Stage)
      → d0.durable ≡ d0.file
      → Reach json n d0 stage d
      → Holds d0.file stage d
  Reach-Holds d0 _ _ rest rests = record { at = refl; durable = rest }
  Reach-Holds d0 _ _ rest (steps {stage} {stage'} {d} {d'} r st) =
      Step-Holds d0.file d d' stage stage' st (Reach-Holds d0 d stage rest r)

  -- From a disk at rest, at every point of `record`, after every failure and after a crash or a loss of power between any two of
  -- its steps, the file is as it was before, or reads as the old set with the new cell.
  pub record_never_tears :
      (d0 d : Disk) (stage : Stage)
      → d0.durable ≡ d0.file
      → Reach json n d0 stage d
      → (d.file ≡ d0.file)
        ⊎ ((ns : List PyInt) × (load_set json d0.file ≡ ok ns)
            × ((m : PyInt) → file_is_sealed json m d.file ≡ ok (int_eq m n || set_contains m ns)))
  record_never_tears d0 d stage rest r =
      let h = Reach-Holds d0 d stage rest r in
      elim (whole d0.file stage d.file d.temp h.at) [
        | inl same ↦ inl same
        | inr (payload, p, written) ↦
            inr (
              p.cells,
              p.loaded,
              λ m. rw (written, p.dumped) (payload_reads json any_os n m p.cells),
            )
      ]

  replaced_by :
      (file : Option Bytes) (ns : List PyInt)
      → load_set json file ≡ ok ns
      → replacement json any_os n file ≡ ok (json.dumps (sorted (set_add n ns)))
  unfolding replacement
  replaced_by file ns loaded = ground (arith, loaded)

  not_replaced :
      (file : Option Bytes) (e : Exception)
      → load_set json file ≡ err e
      → replacement json any_os n file ≡ err e
  unfolding replacement
  not_replaced file e failed = ground (arith, failed)

  not_created :
      (file : Option Bytes) (ns : List PyInt)
      → load_set json file ≡ ok ns
      → replacement json no_os n file ≡ err store_error
  unfolding replacement
  not_created file ns loaded = ground (arith, loaded)

  record_ends :
      (os : Os) (file : Option Bytes) (r : Result Exception Bytes)
      → replacement json os n file ≡ r
      → file_record json os n file
        ≡ elim r [ ok payload ↦ (ok tt, some payload) | err e ↦ (err e, file) ]
  unfolding file_record
  record_ends os file (ok payload) e = ground (arith, e)
  record_ends os file (err x) e = ground (arith, e)

  -- Where `record` ends, by a return or by an exception, some answers of the operating system make
  -- file_record give that result and that file.
  pub ended_refines_file_record :
      (d0 d : Disk) (r : Result Exception (Unit {0}))
      → d0.durable ≡ d0.file
      → Reach json n d0 (ended r) d
      → (os : Os) × (file_record json os n d0.file ≡ (r, d.file))
  ended_refines_file_record d0 d (ok u) rest r =
      let h = Reach-Holds d0 d (ended (ok u)) rest r in
      let (payload, p, written) = h.at in
      let same = p.dumped in
      (
        any_os,
        rw (written, same) (record_ends any_os d0.file _ (replaced_by d0.file p.cells p.loaded)),
      )
  ended_refines_file_record d0 d (err e) rest r =
      let h = Reach-Holds d0 d (ended (err e)) rest r in
      let (same, why) = h.at in
      elim why [
        | inl failed ↦
            (any_os, rw same (record_ends any_os d0.file _ (not_replaced d0.file e failed)))
        | inr (ns, loaded, store) ↦
            (no_os, rw (same, store) (record_ends no_os d0.file _ (not_created d0.file ns loaded)))
      ]

-- A return of `record` may be lost: from any disk at rest whose file can be read, there is a run in
-- which `record` returns and a loss of power then leaves the old file, and with it the old answer for every
-- cell.
pub return_may_be_lost :
    (json : Json) (n : PyInt) (d0 : Disk) (ns : List PyInt)
    → d0.durable ≡ d0.file
    → load_set json d0.file ≡ ok ns
    → (d d' : Disk) × Reach json n d0 (ended (ok tt)) d
      × Step json n d d' (ended (ok tt)) crashed
      × (file_is_sealed json n d.file ≡ ok true)
      × (d'.file ≡ d0.file)
return_may_be_lost json n d0 ns rest loaded =
    let payload = json.dumps (sorted (set_add n ns)) in
    let d1 : Disk = record d0 { temp = some [] } in
    let d2 : Disk = record d0 { temp = some payload } in
    let d3 : Disk = record d0 { file = some payload; temp = none } in
    let d4 : Disk = record d0 { file = d0.durable; temp = none } in
    (
      d3,
      d4,
      steps
          (steps (steps (steps rests (creates ns payload loaded refl refl)) (syncs payload refl))
            (replaces payload payload refl refl))
          (returns refl),
      loses_power (ended (ok tt)) none refl,
      payload_reads json any_os n n ns ∙ ap ok (ground (arith, int_eq_iff n n)),
      rest,
    )
