-- ===== src/Contract/Group.antt =====
-- Atomic groups of calls to the application: the calls run one after another, each on the state that
-- the last one left, and one rejected call undoes the group. This is the AVM's rule for a group, on
-- which notes of contracts/inscription.py rely.
use trelyan_falcon_inscripti.Prelude.{refl, inr, inl, ℕ, ◌≡◌, ◌≢◌, some, List, [], ◌∷◌, ◌++◌, arith}
use trelyan_falcon_inscripti.Prelude.Bytes.{Bytes}
use trelyan_falcon_inscripti.Prelude.BoxMap.{lookup, lookup-insert}
use trelyan_falcon_inscripti.Prelude.Result.{Result-cases, Result, ok, err, ◌>>=◌, bind-ok}
use trelyan_falcon_inscripti.Contract.{
  get_inscription_call, update_application, delete_application, register_cell_call, Chain, Context,
  State, Call, Rejection, InscriptionRecord, dispatch, inscribe_call, update_owner_call,
}
use trelyan_falcon_inscripti.Contract.Accepts.{record_of, inscribe_exactly, update_owner_exactly}
use trelyan_falcon_inscripti.Contract.Trace.{Run, here, next, call}
use trelyan_falcon_inscripti.Contract.Permanence.{inscription_permanent}

unfoldable pub run_group : Chain → List (Context × Call) → State → Result Rejection State
run_group chain [] s = ok s
run_group chain ((ctx, c) ∷ calls) s = dispatch chain ctx c s >>= run_group chain calls

-- What is on the ledger after a group: a rejected group has changed nothing.
abbrev pub after_group : Chain → List (Context × Call) → State → State
after_group chain calls s = elim (run_group chain calls s) [ ok t ↦ t | err e ↦ s ]

-- The calls that write a box of this cell behind its registration.
abbrev pub IsWriteOf : ℕ → Call → Type 0
IsWriteOf cid (inscribe_call j _ _ _) = j ≡ cid
IsWriteOf cid (update_owner_call j _) = j ≡ cid
IsWriteOf cid (register_cell_call _ _ _) = ⊥
IsWriteOf cid (get_inscription_call _) = ⊥
IsWriteOf cid update_application = ⊥
IsWriteOf cid delete_application = ⊥

module _ (chain : Chain) where
  run_group-Run :
      (calls : List (Context × Call)) (s t u : State)
      → Run chain s t
      → run_group chain calls t ≡ ok u
      → Run chain s u
  unfolding run_group
  run_group-Run [] s t u r e = let p : t ≡ u = ground arith in rw (← p) r
  run_group-Run ((ctx, c) ∷ calls) s t u r e =
      let (v, e1, e2) = bind-ok (dispatch chain ctx c t) (run_group chain calls) e in
      run_group-Run calls s v u (next r (call ctx c e1)) e2

  run_group-append :
      (xs ys : List (Context × Call)) (s u : State)
      → run_group chain (xs ++ ys) s ≡ ok u
      → (t : State) × (run_group chain xs s ≡ ok t) × (run_group chain ys t ≡ ok u)
  unfolding run_group
  run_group-append [] ys s u e = (s, refl, e)
  run_group-append ((ctx, c) ∷ xs) ys s u e =
      let (v, e1, e2) = bind-ok (dispatch chain ctx c s) (run_group chain (xs ++ ys)) e in
      let (t, e3, e4) = run_group-append xs ys v u e2 in (t, rw e1 e3, e4)

  -- An accepted `inscribe` leaves a record, and no later call of `inscribe` or `update_owner` for the
  -- cell is accepted.
  inscribe_closes :
      (ctx : Context) (cid : ℕ) (hash sig uri : Bytes) (s t u : State)
      → dispatch chain ctx (inscribe_call cid hash sig uri) s ≡ ok t
      → Run chain t u
      → lookup cid u.inscriptions ≡ some (record_of ctx cid hash uri)
  unfolding dispatch
  inscribe_closes ctx cid hash sig uri s t u e r =
      let (c, p) = (inscribe_exactly chain ctx cid hash sig uri s t).0 e in
      inscription_permanent chain cid (record_of ctx cid hash uri) t u r
        (rw p (ground (arith, lookup-insert cid cid (record_of ctx cid hash uri) s.inscriptions)))

  closed_call :
      (ctx : Context) (cid : ℕ) (c : Call) (s u : State) (r : InscriptionRecord)
      → IsWriteOf cid c
      → lookup cid s.inscriptions ≡ some r
      → dispatch chain ctx c s ≢ ok u
  unfolding dispatch
  closed_call ctx cid (register_cell_call j o k) s u r w h e = elim w [ ]
  closed_call ctx cid (inscribe_call j hash sig uri) s u r w h e =
      cc (h, rw w at ((inscribe_exactly chain ctx j hash sig uri s u).0 e).0.fresh)
  closed_call ctx cid (update_owner_call j o) s u r w h e =
      cc (h, rw w at ((update_owner_exactly ctx j o s u).0 e).0.fresh)
  closed_call ctx cid (get_inscription_call j) s u r w h e = elim w [ ]
  closed_call ctx cid update_application s u r w h e = elim w [ ]
  closed_call ctx cid delete_application s u r w h e = elim w [ ]

  module _ (xs ys zs : List (Context × Call)) (ctx ctx' : Context) (cid : ℕ) (hash sig uri : Bytes)
      (c' : Call) (s : State) where
    abbrev pub group : List (Context × Call)
    group = xs ++ ((ctx, inscribe_call cid hash sig uri) ∷ (ys ++ ((ctx', c') ∷ zs)))

    group-ne-ok : IsWriteOf cid c' → (u : State) → run_group chain group s ≢ ok u
    unfolding run_group
    group-ne-ok w u e =
        let (t, _, e1) =
          run_group-append xs ((ctx, inscribe_call cid hash sig uri) ∷ (ys ++ ((ctx', c') ∷ zs))) s
            u e in
        let (v, e2, e3) =
          bind-ok (dispatch chain ctx (inscribe_call cid hash sig uri) t)
            (run_group chain (ys ++ ((ctx', c') ∷ zs))) e1 in
        let (x, e4, e5) = run_group-append ys ((ctx', c') ∷ zs) v u e3 in
        let (y, e6, _) = bind-ok (dispatch chain ctx' c' x) (run_group chain zs) e5 in
        closed_call ctx' cid c' x y (record_of ctx cid hash uri) w
          (inscribe_closes ctx cid hash sig uri t v x e2 (run_group-Run ys v v x here e4)) e6

    -- A group that holds a call of `inscribe` for a cell and behind it, with any calls around them, another
    -- call of `inscribe` or a call of `update_owner` for that cell is rejected, and changes nothing.
    pub double_inscribe_rejected : IsWriteOf cid c' → after_group chain group s ≡ s
    double_inscribe_rejected w = elim (Result-cases (run_group chain group s)) [
      | inl (u, e) ↦ absurd (group-ne-ok w u e)
      | inr (x, e) ↦ rw (e, after_group)
    ]
