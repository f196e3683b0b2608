-- ===== src/Client/Read.antt =====
-- What a return and a raise of `inscribe` and `inscribe_bytes` say about the cell, and what reading the
-- record back then answers.
use trelyan_falcon_inscripti.Prelude.{ℕ, ◌≡◌, refl, none, some, true, false, arith}
use trelyan_falcon_inscripti.Prelude.Bytes.{Bytes, bytes_eq, bytes_eq_iff}
use trelyan_falcon_inscripti.Prelude.BoxMap.{lookup, lookup-insert}
use trelyan_falcon_inscripti.Prelude.Result.{ok, err}
use trelyan_falcon_inscripti.Exceptions.{Exception}
use trelyan_falcon_inscripti.Contract.{State, InscriptionRecord, inscribe_call, dispatch}
use trelyan_falcon_inscripti.Contract.Accepts.{record_of, inscribe_exactly}
use trelyan_falcon_inscripti.Machine.{World}
use trelyan_falcon_inscripti.Machine.Triples.{
  Triple, Triple-results, Triple-ok, Triple-err, Triple-bind, Triple-pure,
}
use trelyan_falcon_inscripti.Ledger.{Ledger, submit, read}
use trelyan_falcon_inscripti.Ledger.Delivered.{submit-ok, read-ok}
use trelyan_falcon_inscripti.Ledger.Keeps.{IsAlone, Kept, submit-Triple, read-Triple}
use trelyan_falcon_inscripti.Client.{
  Bool, Environment, TrelyanInscriptionClient, get_inscription, inscribe, inscribe_bytes,
  read_back_matches,
}
use trelyan_falcon_inscripti.Client.Outcome.{Attempts, inscribe-Triple}
use trelyan_falcon_inscripti.Client.Standing.{
  IsOurs, Standing, open_cell, written, Standing-IsStable, Standing-IsKeptBy,
}

-- The cell has a record.
abbrev pub HasRecord : ℕ → Ledger → Type 0
HasRecord cell l = (r : InscriptionRecord) × (lookup cell l.state.inscriptions ≡ some r)

module _ (env : Environment) (self : TrelyanInscriptionClient) (cell : ℕ) (hash uri : Bytes) where
  sent-HasRecord :
      (sig : Bytes) (w : World Ledger)
      → (submit self.app self.deployer (inscribe_call cell hash sig uri) w).0 ≡ ok tt
      → HasRecord cell (submit self.app self.deployer (inscribe_call cell hash sig uri) w).1.store
  unfolding dispatch
  sent-HasRecord sig w e =
      let (ctx, s, by, accepted) =
        submit-ok self.app self.deployer (inscribe_call cell hash sig uri) w e in
      let t = (submit self.app self.deployer (inscribe_call cell hash sig uri) w).1.store.state in
      let (c, p) = (inscribe_exactly self.app ctx cell hash sig uri s t).0 accepted in
      let put = lookup-insert cell cell (record_of ctx cell hash uri) s.inscriptions in
      (record_of ctx cell hash uri, rw p (ground (arith, put)))

  -- If P is kept by the attempts and the reads, then a return leaves P and a record.
  attempts_with :
      (P : Ledger → Type 0)
      → ((sig : Bytes)
          → Triple
              (λ w. P w.store)
              (submit self.app self.deployer (inscribe_call cell hash sig uri))
              (λ _ w. P w.store)
              (λ w. P w.store))
      → Triple
          (λ w. P w.store)
          (read self.app self.deployer cell)
          (λ _ w. P w.store)
          (λ w. P w.store)
      → Attempts env self P (λ l. P l × HasRecord cell l) cell hash uri
  attempts_with P sends reads = record {
    sends = λ sig.
        let send = submit self.app self.deployer (inscribe_call cell hash sig uri) in
        Triple-results send
          (λ w a p e. (Triple-ok send (sends sig) w a p e, sent-HasRecord sig w e))
          (λ w x p e. Triple-err send (sends sig) w x p e);
    reads =
        let get = read self.app self.deployer cell in
        Triple-results get
          (λ w r p e. (Triple-ok get reads w r p e, (r, read-ok self.app self.deployer cell w r e)))
          (λ w x p e. Triple-err get reads w x p e);
  }

  -- When `inscribe` returns, the cell has a record on the chain, whatever was lost or left unconfirmed
  -- on the way and whatever other accounts did.
  pub inscribe_recorded :
      (privkey : Bytes) (w : World Ledger)
      → (inscribe env self cell hash privkey uri w).0 ≡ ok tt
      → HasRecord cell (inscribe env self cell hash privkey uri w).1.store
  inscribe_recorded privkey w e =
      let trivial : Ledger → Type 0 = λ l. Unit {0} in
      (Triple-ok (inscribe env self cell hash privkey uri)
        (inscribe-Triple env self trivial (λ l. trivial l × HasRecord cell l) cell hash uri
          (attempts_with trivial (λ sig. Triple-results _ (λ w a p e. tt) (λ w x p e. tt))
            (Triple-results _ (λ w a p e. tt) (λ w x p e. tt)))
          privkey)
        w tt tt e).1

  abbrev pub Mine : Ledger → Type 0
  Mine = Kept self.app self.deployer (Standing self.deployer cell hash uri)

  pub inscribe-Mine :
      (privkey : Bytes)
      → Triple
          (λ w. Mine w.store)
          (inscribe env self cell hash privkey uri)
          (λ _ w. Mine w.store × HasRecord cell w.store)
          (λ w. Mine w.store)
  inscribe-Mine privkey =
      let stable = Standing-IsStable self.app self.deployer cell hash uri in
      inscribe-Triple env self Mine (λ l. Mine l × HasRecord cell l) cell hash uri
        (attempts_with Mine
          (λ sig.
            submit-Triple stable (inscribe_call cell hash sig uri)
              (Standing-IsKeptBy self.app self.deployer cell hash uri sig))
          (read-Triple stable cell))
        privkey

  -- In such a standing, the record of the cell is ours.
  pub Standing-IsOurs :
      (s : State) (r : InscriptionRecord)
      → Standing self.deployer cell hash uri s
      → lookup cell s.inscriptions ≡ some r
      → IsOurs self.deployer hash uri r
  Standing-IsOurs s r (open_cell fresh own) e = cc
  Standing-IsOurs s r (written r' found ours) e = let same : r' ≡ r = cc in rw (← same) ours

-- What `inscribe` needs of the ledger to write its own record: the deployer controls the cell, which has
-- no record yet, and no other program signs with the deployer's key.
pub record CanWrite (deployer : Bytes) (cell : ℕ) (l : Ledger) : Type 0 where
  pub controls : lookup cell l.state.controlling_owner ≡ some deployer
  pub fresh : lookup cell l.state.inscriptions ≡ none
  pub alone : IsAlone deployer l.deliveries

module _ (env : Environment) (self : TrelyanInscriptionClient) (cell : ℕ) where
  CanWrite-Mine :
      (hash uri : Bytes) (l : Ledger)
      → CanWrite self.deployer cell l
      → Mine env self cell hash uri l
  CanWrite-Mine hash uri l c = record { holds = open_cell c.fresh c.controls; alone = c.alone }

  -- If the deployer controls the cell, the cell has no record and no other program signs with the
  -- deployer's key, then after `inscribe` raises, the cell is still open to the deployer or has the record
  -- of this call.
  pub failed_inscribe-Standing :
      (hash privkey uri : Bytes) (w : World Ledger) (e : Exception)
      → CanWrite self.deployer cell w.store
      → (inscribe env self cell hash privkey uri w).0 ≡ err e
      → Standing self.deployer cell hash uri
          (inscribe env self cell hash privkey uri w).1.store.state
  failed_inscribe-Standing hash privkey uri w e c failed =
      let k =
        Triple-err (inscribe env self cell hash privkey uri)
          (inscribe-Mine env self cell hash uri privkey) w e (CanWrite-Mine hash uri w.store c)
          failed in
      k.holds

  pub inscribe_bytes-Mine :
      (artifact privkey uri : Bytes)
      → let hash = env.sha512_256 artifact in
        Triple
          (λ w. Mine env self cell hash uri w.store)
          (inscribe_bytes env self cell artifact privkey uri)
          (λ h w. (Mine env self cell hash uri w.store × HasRecord cell w.store) × (h ≡ hash))
          (λ w. Mine env self cell hash uri w.store)
  unfolding inscribe_bytes
  inscribe_bytes-Mine artifact privkey uri =
      let hash = env.sha512_256 artifact in
      Triple-bind (inscribe env self cell hash privkey uri) _
        (inscribe-Mine env self cell hash uri privkey) (λ _. Triple-pure hash (λ w q. (q, refl)))

  -- If the deployer controls the cell, the cell has no record and no other program signs with the
  -- deployer's key, then after `inscribe_bytes` returns, the result is the hash of the artifact, and the
  -- cell has a record with that hash, the URI of the call and the deployer as its inscriber.
  pub inscribe_bytes_writes :
      (artifact privkey uri h : Bytes) (w : World Ledger)
      → CanWrite self.deployer cell w.store
      → (inscribe_bytes env self cell artifact privkey uri w).0 ≡ ok h
      → (h ≡ env.sha512_256 artifact)
        × ((r : InscriptionRecord) × (lookup cell
                (inscribe_bytes env self cell artifact privkey uri w).1.store.state.inscriptions
              ≡ some r)
            × IsOurs self.deployer h uri r)
  inscribe_bytes_writes artifact privkey uri h w c e =
      let hash = env.sha512_256 artifact in
      let after = inscribe_bytes env self cell artifact privkey uri w in
      let ((k, (r, found)), same) =
        Triple-ok (inscribe_bytes env self cell artifact privkey uri)
          (inscribe_bytes-Mine artifact privkey uri) w h (CanWrite-Mine hash uri w.store c) e in
      (
        same,
        (
          r,
          found,
          rw same (Standing-IsOurs env self cell hash uri after.1.store.state r k.holds found),
        ),
      )

  read_back-Mine :
      (artifact uri : Bytes)
      → let hash = env.sha512_256 artifact in
        Triple
          (λ w. Mine env self cell hash uri w.store)
          (read_back_matches env self cell artifact false)
          (λ answer w. answer ≡ true)
          (λ w. Mine env self cell hash uri w.store)
  unfolding read_back_matches get_inscription
  read_back-Mine artifact uri =
      let hash = env.sha512_256 artifact in
      let get = read self.app self.deployer cell in
      let kept = read-Triple (Standing-IsStable self.app self.deployer cell hash uri) cell in
      Triple-bind get _
        (Triple-results {Q = λ r w. r.artifact_hash ≡ hash} get
          (λ w r k e.
            let k' = Triple-ok get kept w r k e in
            let ours =
              Standing-IsOurs env self cell hash uri _ r k'.holds
                (read-ok self.app self.deployer cell w r e) in
            ours.hash_is)
          (λ w x k e. Triple-err get kept w x k e))
        (λ r.
          Triple-pure (bytes_eq r.artifact_hash hash)
            (λ w h. ground (arith, bytes_eq_iff r.artifact_hash hash)))

  -- If the deployer controls the cell, the cell has no record and no other program signs with the
  -- deployer's key, and if `inscribe_bytes` returns and then `read_back_matches` of the same cell and
  -- artifact returns, its answer is True, whatever other accounts did in between.
  pub inscribed_reads_back :
      (artifact privkey uri h : Bytes) (answer : Bool) (w : World Ledger)
      → CanWrite self.deployer cell w.store
      → (inscribe_bytes env self cell artifact privkey uri w).0 ≡ ok h
      → (read_back_matches env self cell artifact false
          (inscribe_bytes env self cell artifact privkey uri w).1).0
        ≡ ok answer
      → answer ≡ true
  inscribed_reads_back artifact privkey uri h answer w c e read =
      let hash = env.sha512_256 artifact in
      let ((k, _), _) =
        Triple-ok (inscribe_bytes env self cell artifact privkey uri)
          (inscribe_bytes-Mine artifact privkey uri) w h (CanWrite-Mine hash uri w.store c) e in
      Triple-ok (read_back_matches env self cell artifact false) (read_back-Mine artifact uri)
        (inscribe_bytes env self cell artifact privkey uri w).1 answer k read
