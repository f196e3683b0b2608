-- ===== src/Contract/Lifecycle.antt =====
-- The life of one cell as an abstract machine, and the application as its implementation: vacant, then
-- held by an owner under a key, then inscribed, where nothing moves any more.
use trelyan_falcon_inscripti.Prelude.{
  Option-cases, ℕ, ◌≡◌, ◌≢◌, refl, Option, none, some, arith, Bool-cases, ◌==◌, inl, inr,
}
use trelyan_falcon_inscripti.Prelude.Bytes.{Bytes}
use trelyan_falcon_inscripti.Prelude.BoxMap.{lookup, lookup-insert}
use trelyan_falcon_inscripti.Contract.{
  Chain, Context, State, InscriptionRecord, zero_address, init, create,
}
use trelyan_falcon_inscripti.Contract.Accepts.{record_of}
use trelyan_falcon_inscripti.Contract.Trace.{
  here, next, Run, Step-Effect, Effect, registers, inscribes, reassigns, reads,
}
use trelyan_falcon_inscripti.Contract.Invariant.{IsValid, Run-IsValid}

pub data Phase : Type 0 where
  vacant : Phase
  held : (owner key : Bytes) → Phase
  sealed : (owner key : Bytes) → InscriptionRecord → Phase
  -- boxes that contradict each other
  broken : Phase

abbrev pub phase_of : Option Bytes → Option Bytes → Option InscriptionRecord → Phase
phase_of none none none = vacant
phase_of (some k) (some o) none = held o k
phase_of (some k) (some o) (some r) = sealed o k r
phase_of _ _ _ = broken

-- The phase of a cell, read from its three boxes.
abbrev pub phase : State → ℕ → Phase
phase s cid =
    phase_of (lookup cid s.committed_pubkey) (lookup cid s.controlling_owner)
      (lookup cid s.inscriptions)

-- The moves of the abstract machine.
pub data Moves : Phase → Phase → Type 0 where
  stay : (p : Phase) → Moves p p
  mint : (owner key : Bytes) → owner ≢ zero_address → Moves vacant (held owner key)
  hand_over :
      (owner owner' key : Bytes) → owner' ≢ zero_address → Moves (held owner key) (held owner' key)
  write :
      (owner key : Bytes) (r : InscriptionRecord)
      → r.inscriber ≡ owner
      → Moves (held owner key) (sealed owner key r)

-- An inscription presupposes a key.
inscription_needs_key :
    (chain : Chain) (s : State) (cid : ℕ)
    → IsValid chain s
    → lookup cid s.committed_pubkey ≡ none
    → lookup cid s.inscriptions ≡ none
inscription_needs_key chain s cid v h = elim (Option-cases (lookup cid s.inscriptions)) [
  | inl fresh ↦ fresh
  | inr (r, e) ↦ let (k, _, found, _, _) = (v.verifiable cid r e).signature in absurd (ground arith)
]

-- One accepted call moves every cell by at most one step of the abstract machine.
Effect-Moves :
    (chain : Chain) (s t : State) (cid : ℕ)
    → Effect chain s t
    → IsValid chain s
    → Moves (phase s cid) (phase t cid)
Effect-Moves chain s t cid (registers ctx j owner key c e) v =
    let wk = lookup-insert j cid key s.committed_pubkey in
    let wo = lookup-insert j cid owner s.controlling_owner in
    elim (Bool-cases (j == cid)) [
      | inl same ↦
          let ej : j ≡ cid = ground arith in
          let nk : lookup cid s.committed_pubkey ≡ none = rw ej at c.new_key in
          let no' : lookup cid s.controlling_owner ≡ none = rw ej at c.new_owner in
          let ni = inscription_needs_key chain s cid v nk in
          rw (e, wk, wo, same, nk, no', ni) (mint owner key c.owner_nonzero)
      | inr differ ↦ rw (e, wk, wo, differ) (stay (phase s cid))
    ]
Effect-Moves chain s t cid (inscribes ctx j hash sig uri c e) v =
    let wi = lookup-insert j cid (record_of ctx j hash uri) s.inscriptions in
    elim (Bool-cases (j == cid)) [
      | inl same ↦
          let ej : j ≡ cid = ground arith in
          let (k, found, _) = c.key in
          rw (e, wi, same, rw ej at c.fresh, rw ej at found, rw ej at c.by_owner)
            (write ctx.sender k (record_of ctx j hash uri) refl)
      | inr differ ↦ rw (e, wi, differ) (stay (phase s cid))
    ]
Effect-Moves chain s t cid (reassigns ctx j owner c e) v =
    let wo = lookup-insert j cid owner s.controlling_owner in
    elim (Bool-cases (j == cid)) [
      | inl same ↦
          let ej : j ≡ cid = ground arith in
          let held_by = rw ej at c.by_owner in
          elim (Option-cases (lookup cid s.committed_pubkey)) [
            | inl missing ↦ absurd (ground (arith, v.owned cid))
            | inr (k, found) ↦
                rw (e, wo, same, rw ej at c.fresh, found, held_by)
                  (hand_over ctx.sender owner k c.owner_nonzero)
          ]
      | inr differ ↦ rw (e, wo, differ) (stay (phase s cid))
    ]
Effect-Moves chain s t cid (reads e) v = rw e (stay (phase s cid))

-- The phases that a cell passes through from its start.
pub data Life : Phase → Type 0 where
  born : Life vacant
  lives : {p q : Phase} → Life p → Moves p q → Life q

Life-ne-broken : {p : Phase} → Life p → p ≢ broken
Life-ne-broken born e = cc
Life-ne-broken (lives l (stay p)) e = Life-ne-broken l e
Life-ne-broken (lives l (mint o k n)) e = cc
Life-ne-broken (lives l (hand_over o o' k n)) e = cc
Life-ne-broken (lives l (write o k r n)) e = cc

Run-Life :
    (chain : Chain) (ctx : Context) (s : State) (cid : ℕ)
    → Run chain (create ctx init) s
    → Life (phase s cid)
Run-Life chain ctx s cid here = unfold create lookup in born
Run-Life chain ctx s cid (next {t} r st) =
    lives (Run-Life chain ctx t cid r)
      (Effect-Moves chain t s cid (Step-Effect st) (Run-IsValid chain ctx t r))

-- The application implements the abstract life of a cell: after any run from its creation the boxes of
-- every cell read as a phase that the cell reaches from `vacant` by the moves of the machine (mint, hand
-- over, write), and never contradict each other.
pub lifecycle_refines :
    (chain : Chain) (ctx : Context) (s : State) (cid : ℕ)
    → Run chain (create ctx init) s
    → Life (phase s cid) × (phase s cid ≢ broken)
lifecycle_refines chain ctx s cid r =
    (Run-Life chain ctx s cid r, Life-ne-broken (Run-Life chain ctx s cid r))
