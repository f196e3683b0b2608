-- ===== src/Contract/Invariant.antt =====
-- The invariant of the application, and that every accepted call keeps it.
use trelyan_falcon_inscripti.Prelude.{
  inr, inl, Bool-cases, ◌==◌, ℕ, ◌≤◌, ◌≡◌, ◌≢◌, refl, true, Option, none, some, length, get_elem?,
  arith,
}
use trelyan_falcon_inscripti.Prelude.Bytes.{Bytes}
use trelyan_falcon_inscripti.Prelude.BoxMap.{
  BoxMap, lookup, insert, contains, lookup-insert, length-insert_new,
}
use trelyan_falcon_inscripti.Contract.{
  Chain, Context, State, InscriptionRecord, init, create, zero_address, build_message,
}
use trelyan_falcon_inscripti.Contract.Accepts.{CanInscribe, inscribed, record_of}
use trelyan_falcon_inscripti.Contract.Trace.{
  Run, Run-keeps, Effect, registers, inscribes, reassigns, reads,
}

-- An inscription that anybody can verify again from the boxes: some signature over the message that
-- the record stands for is valid under the committed key of its cell.
pub record IsVerifiable (chain : Chain) (key : Option Bytes) (cid : ℕ) (r : InscriptionRecord)
    : Type 0 where
  pub signature :
      (k sig : Bytes) × (key ≡ some k)
      × (length sig ≤ 1423)
      × (chain.falcon_verify (build_message chain cid r.artifact_hash) sig k ≡ true)
  pub cell_matches : r.cell_id ≡ cid
  pub version_is_1 : r.version ≡ 1
  pub hash_length : length r.artifact_hash ≡ 32
  pub uri_fits : length r.payload_uri ≤ 128

pub record IsValid (chain : Chain) (s : State) : Type 0 where
  -- every committed key has the length and the header of a deterministic Falcon-1024 key
  pub keys :
      (cid : ℕ) (k : Bytes)
      → lookup cid s.committed_pubkey ≡ some k
      → (length k ≡ 1793) × (get_elem? k 0 ≡ some 0x0A)
  -- a cell has an owner exactly if it has a key, and the owner is not the zero address
  pub owned : (cid : ℕ) → contains cid s.controlling_owner ≡ contains cid s.committed_pubkey
  pub owner_nonzero :
      (cid : ℕ) (o : Bytes) → lookup cid s.controlling_owner ≡ some o → o ≢ zero_address
  pub verifiable :
      (cid : ℕ) (r : InscriptionRecord)
      → lookup cid s.inscriptions ≡ some r
      → IsVerifiable chain (lookup cid s.committed_pubkey) cid r
  -- the counter is the number of keys, and never passes the cap
  pub counted : length s.committed_pubkey ≡ s.cells_registered
  pub capped : s.cells_registered ≤ 1024

-- A key, once committed, is still found after another cell is registered.
keeps_key :
    (cid j : ℕ) (key k : Bytes) (m : BoxMap Bytes)
    → lookup cid m ≡ none
    → lookup j m ≡ some k
    → lookup j (insert cid key m) ≡ some k
keeps_key cid j key k m fresh h = ground (arith, lookup-insert cid j key m)

IsVerifiable-register :
    (chain : Chain) (cid j : ℕ) (key : Bytes) (m : BoxMap Bytes) (r : InscriptionRecord)
    → lookup cid m ≡ none
    → IsVerifiable chain (lookup j m) j r
    → IsVerifiable chain (lookup j (insert cid key m)) j r
IsVerifiable-register chain cid j key m r fresh v =
    let (k, sig, found, fits, accepted) = v.signature in
    record {
      signature = (k, sig, keeps_key cid j key k m fresh found, fits, accepted);
      cell_matches = v.cell_matches;
      version_is_1 = v.version_is_1;
      hash_length = v.hash_length;
      uri_fits = v.uri_fits;
    }

IsVerifiable-inscribe :
    (chain : Chain) (ctx : Context) (cid : ℕ) (hash sig uri : Bytes) (s : State) (j : ℕ)
    (r : InscriptionRecord)
    → CanInscribe chain ctx cid hash sig uri s
    → (lookup j s.inscriptions ≡ some r → IsVerifiable chain (lookup j s.committed_pubkey) j r)
    → lookup j (inscribed ctx cid hash uri s).inscriptions ≡ some r
    → IsVerifiable chain (lookup j s.committed_pubkey) j r
IsVerifiable-inscribe chain ctx cid hash sig uri s j r c old h =
    let written = lookup-insert cid j (record_of ctx cid hash uri) s.inscriptions in
    elim (Bool-cases (cid == j)) [
      | inl same ↦
          let ej : cid ≡ j = ground arith in
          let er : record_of ctx cid hash uri ≡ r = ground (arith, written) in
          let (k, found, accepted) = c.key in
          rw (← er, ← ej)
            (record {
              signature = (k, sig, found, c.sig_fits, accepted);
              cell_matches = refl;
              version_is_1 = refl;
              hash_length = c.hash_length;
              uri_fits = c.uri_fits;
            })
      | inr differ ↦ old (ground (arith, written))
    ]

pub Effect-IsValid :
    (chain : Chain) (s t : State) → Effect chain s t → IsValid chain s → IsValid chain t
Effect-IsValid chain s t (reads e) v = rw e v
Effect-IsValid chain s t (registers ctx cid owner key c e) v = rw e (record {
  keys = λ j k h.
      ground
        (arith, v.keys j k, lookup-insert cid j key s.committed_pubkey, c.key_length, c.key_header);
  owned = λ j. ground (
    arith,
    v.owned j,
    lookup-insert cid j key s.committed_pubkey,
    lookup-insert cid j owner s.controlling_owner,
  );
  owner_nonzero = λ j o h p.
      ground (
        arith,
        v.owner_nonzero j o,
        c.owner_nonzero,
        lookup-insert cid j owner s.controlling_owner,
      );
  verifiable = λ j r h.
      IsVerifiable-register chain cid j key s.committed_pubkey r c.new_key (v.verifiable j r h);
  counted = omega (arith, v.counted, length-insert_new cid key s.committed_pubkey c.new_key);
  capped = omega (arith, c.room);
})
Effect-IsValid chain s t (inscribes ctx cid hash sig uri c e) v = rw e (record {
  keys = v.keys;
  owned = v.owned;
  owner_nonzero = v.owner_nonzero;
  verifiable =
      λ j r h. IsVerifiable-inscribe chain ctx cid hash sig uri s j r c (v.verifiable j r) h;
  counted = v.counted;
  capped = v.capped;
})
Effect-IsValid chain s t (reassigns ctx cid owner c e) v = rw e (record {
  keys = v.keys;
  owned = λ j. ground (arith, v.owned j, c.by_owner, lookup-insert cid j owner s.controlling_owner);
  owner_nonzero = λ j o h p.
      ground (
        arith,
        v.owner_nonzero j o,
        c.owner_nonzero,
        lookup-insert cid j owner s.controlling_owner,
      );
  verifiable = v.verifiable;
  counted = v.counted;
  capped = v.capped;
})

create-IsValid : (chain : Chain) (ctx : Context) → IsValid chain (create ctx init)
unfolding create lookup
create-IsValid chain ctx = record {
  keys = λ cid k h. cc;
  owned = λ cid. refl;
  owner_nonzero = λ cid o h. cc;
  verifiable = λ cid r h. cc;
  counted = refl;
  capped = omega arith;
}

-- After any run from the creation of the application, by whatever callers: every committed key has 1793
-- bytes and begins with 0x0A; a cell has an owner exactly if it has a key, and no owner is the zero
-- address; every inscription record is about its own cell, has version 1, a hash of 32 bytes, a URI of
-- at most 128, and there is a signature of at most 1423 bytes over the message of this application, this
-- network, the cell and the recorded hash that falcon_verify accepts under the key committed for the
-- cell; and the counter is the number of committed keys and at most 1024.
pub Run-IsValid :
    (chain : Chain) (ctx : Context) (s : State) → Run chain (create ctx init) s → IsValid chain s
Run-IsValid chain ctx s r =
    Run-keeps (IsValid chain) (Effect-IsValid chain) r (create-IsValid chain ctx)
