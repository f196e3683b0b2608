-- ===== src/Contract/Permanence.antt =====
-- What no later call can change: inscriptions, committed keys, the admin, and the owner of a cell that
-- is inscribed.
use trelyan_falcon_inscripti.Prelude.{ℕ, ◌≡◌, refl, ◌∙◌, some, arith}
use trelyan_falcon_inscripti.Prelude.Bytes.{Bytes}
use trelyan_falcon_inscripti.Prelude.BoxMap.{lookup, lookup-insert}
use trelyan_falcon_inscripti.Contract.{Chain, State, InscriptionRecord}
use trelyan_falcon_inscripti.Contract.Accepts.{record_of}
use trelyan_falcon_inscripti.Contract.Trace.{
  Run, Run-keeps, Effect, registers, inscribes, reassigns, reads,
}

Effect-admin : (chain : Chain) (s t : State) → Effect chain s t → t.admin ≡ s.admin
Effect-admin chain s t (registers ctx j owner key c e) = rw e
Effect-admin chain s t (inscribes ctx j hash sig uri c e) = rw e
Effect-admin chain s t (reassigns ctx j owner c e) = rw e
Effect-admin chain s t (reads e) = rw e

pub admin_permanent : (chain : Chain) (s t : State) → Run chain s t → t.admin ≡ s.admin
admin_permanent chain s t run =
    Run-keeps (λ u. u.admin ≡ s.admin) (λ u v eff h. Effect-admin chain u v eff ∙ h) run refl

module _ (chain : Chain) (cid : ℕ) where
  abbrev IsInscribed : InscriptionRecord → State → Type 0
  IsInscribed r s = lookup cid s.inscriptions ≡ some r

  Effect-IsInscribed :
      (r : InscriptionRecord) (s t : State) → Effect chain s t → IsInscribed r s → IsInscribed r t
  Effect-IsInscribed r s t (registers ctx j owner key c e) h = rw e h
  Effect-IsInscribed r s t (inscribes ctx j hash sig uri c e) h =
      rw e (ground (arith, c.fresh, lookup-insert j cid (record_of ctx j hash uri) s.inscriptions))
  Effect-IsInscribed r s t (reassigns ctx j owner c e) h = rw e h
  Effect-IsInscribed r s t (reads e) h = rw e h

  -- An inscription is permanent: after any further run of accepted calls the cell has the same record.
  pub inscription_permanent :
      (r : InscriptionRecord) (s t : State)
      → Run chain s t
      → lookup cid s.inscriptions ≡ some r
      → lookup cid t.inscriptions ≡ some r
  inscription_permanent r s t run h = Run-keeps (IsInscribed r) (Effect-IsInscribed r) run h

  abbrev IsCommitted : Bytes → State → Type 0
  IsCommitted k s = lookup cid s.committed_pubkey ≡ some k

  Effect-IsCommitted :
      (k : Bytes) (s t : State) → Effect chain s t → IsCommitted k s → IsCommitted k t
  Effect-IsCommitted k s t (registers ctx j owner key c e) h =
      rw e (ground (arith, c.new_key, lookup-insert j cid key s.committed_pubkey))
  Effect-IsCommitted k s t (inscribes ctx j hash sig uri c e) h = rw e h
  Effect-IsCommitted k s t (reassigns ctx j owner c e) h = rw e h
  Effect-IsCommitted k s t (reads e) h = rw e h

  abbrev IsFrozen : Bytes → InscriptionRecord → State → Type 0
  IsFrozen o r s = (lookup cid s.controlling_owner ≡ some o) × IsInscribed r s

  Effect-IsFrozen :
      (o : Bytes) (r : InscriptionRecord) (s t : State)
      → Effect chain s t
      → IsFrozen o r s
      → IsFrozen o r t
  Effect-IsFrozen o r s t (registers ctx j owner key c e) h =
      rw e (ground (arith, c.new_owner, lookup-insert j cid owner s.controlling_owner), h.1)
  Effect-IsFrozen o r s t (inscribes ctx j hash sig uri c e) h =
      (rw e h.0, Effect-IsInscribed r s t (inscribes ctx j hash sig uri c e) h.1)
  Effect-IsFrozen o r s t (reassigns ctx j owner c e) h =
      rw e (ground (arith, c.fresh, lookup-insert j cid owner s.controlling_owner), h.1)
  Effect-IsFrozen o r s t (reads e) h = rw e h

  -- After any further run of accepted calls a committed key is still the key of its cell, and the admin is
  -- the same account.
  pub key_permanent :
      (k : Bytes) (s t : State)
      → Run chain s t
      → lookup cid s.committed_pubkey ≡ some k
      → (lookup cid t.committed_pubkey ≡ some k) × (t.admin ≡ s.admin)
  key_permanent k s t run h =
      (Run-keeps (IsCommitted k) (Effect-IsCommitted k) run h, admin_permanent chain s t run)

  -- Once a cell is inscribed, no further run of accepted calls changes its controlling owner.
  pub owner_frozen :
      (o : Bytes) (r : InscriptionRecord) (s t : State)
      → Run chain s t
      → lookup cid s.controlling_owner ≡ some o
      → lookup cid s.inscriptions ≡ some r
      → lookup cid t.controlling_owner ≡ some o
  owner_frozen o r s t run ho hr = (Run-keeps (IsFrozen o r) (Effect-IsFrozen o r) run (ho, hr)).0
