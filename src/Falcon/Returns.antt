-- ===== src/Falcon/Returns.antt =====
-- Signing with a key that a working library made, and verifying what it signed.
use trelyan_falcon_inscripti.Prelude.{
  ◌+◌, zero, suc, ◌≡◌, refl, arith, ap, ℕ, ◌≤◌, ◌==◌, ◌++◌, length, true, some, [], ◌∷◌, get_elem?,
  take, replicate,
}
use trelyan_falcon_inscripti.Prelude.Bytes.{Bytes}
use trelyan_falcon_inscripti.Prelude.Result.{ok}
use trelyan_falcon_inscripti.Message.{
  PyValue, build_message, sig_compressed_maxsize, det_compressed_header,
}
use trelyan_falcon_inscripti.Machine.{
  System, World, M, Library, raise_unless, buffer_after, modify, write_output, ◌>>◌,
}
use trelyan_falcon_inscripti.Machine.Triples.{
  Triple, Triple-bind, Triple-pass, Triple-assume, Triple-pure, Triple-modify,
}
use trelyan_falcon_inscripti.Falcon.{
  bad_pubkey_length, bad_privkey_length, sign_failed, FalconDet1024, lib_ref, check_header, sign,
  sign_inscription, verify, verify_inscription, privkey_size, pubkey_size,
}
use trelyan_falcon_inscripti.Falcon.Correct.{IsCorrect, IsKept, Ready, lib_ref_returns}

cut_exact :
    (n m k : ℕ) (bs : Bytes) → n ≡ length bs → n ≤ m → take n (take m (bs ++ replicate k 0)) ≡ bs
cut_exact zero m k [] h le = refl
cut_exact zero m k (b ∷ bs) h le = absurd (omega arith)
cut_exact (suc n) m k [] h le = absurd (omega arith)
cut_exact (suc n) zero k (b ∷ bs) h le = absurd (omega arith)
cut_exact (suc n) (suc m) k (b ∷ bs) h le =
    ap (λ t. b ∷ t) (cut_exact n m k bs (omega arith) (omega arith))

module _ {S : Type 0} {E : World S → Type 0} {P : World S → Type 0} where
  check_header_returns :
      (bs : Bytes)
      → get_elem? bs 0 ≡ some det_compressed_header
      → Triple P (check_header bs) (λ sig w. P w × (sig ≡ bs)) E
  unfolding check_header
  check_header_returns [] h = cc
  check_header_returns (b ∷ bs) h =
      let e : b ≡ det_compressed_header = cc in
      rw e (Triple-pure (det_compressed_header ∷ bs) (λ w p. (p, refl)))

module _ {S : Type 0} {E : World S → Type 0} {P : World S → Type 0} (lib : Library) (s : S)
    (c : IsCorrect lib) (system : System) (self : FalconDet1024) (keeps : IsKept P) where
  write_output_returns :
      (size : ℕ) (written : Bytes)
      → Triple
          (λ w. Ready system self lib s w × P w)
          (modify (write_output size written))
          (λ _ w. Ready system self lib s w × P w)
          E
  unfolding write_output
  write_output_returns size written = Triple-modify (write_output size written) (λ w p.
      let r = p.0 in
      (record { loaded = r.loaded; stored = r.stored }, keeps w w.lib _ (w.next_address + 1) p.1))

  pub sign_returns :
      (rng message : Bytes)
      → let sk = (lib.keygen rng).1 in
        Triple
          (λ w. Ready system self lib s w × P w)
          (sign system self sk message)
          (λ sig w. (Ready system self lib s w × P w) × (sig ≡ (lib.sign sk message).1))
          E
  unfolding sign
  sign_returns rng message =
      let g = c.generates rng in
      let f = c.signs rng message in
      let sk = (lib.keygen rng).1 in
      Triple-bind (raise_unless (length sk == privkey_size) bad_privkey_length) _
        (Triple-pass (length sk == privkey_size) bad_privkey_length (ground (arith, g.1)))
        (λ _.
          Triple-bind (lib_ref system self) _ (lib_ref_returns system self lib s {P = P} keeps)
            (λ l. Triple-assume _ (λ same. after_lib l same)))
    where
      after_lib :
          (l : Library)
          → l ≡ lib
          → let (rc, written, sig_len) = l.sign ((lib.keygen rng).1) message in
            Triple
              (λ w. Ready system self lib s w × P w)
              (do
                modify (write_output sig_compressed_maxsize written)
                raise_unless (rc == 0) sign_failed
                check_header (take sig_len (buffer_after sig_compressed_maxsize written)))
              (λ sig w.
                (Ready system self lib s w × P w)
                × (sig ≡ (lib.sign ((lib.keygen rng).1) message).1))
              E
      after_lib l same =
          let f = c.signs rng message in
          let sk = (lib.keygen rng).1 in
          let o = lib.sign sk message in
          let check_written : M S Bytes =
            raise_unless (o.0 == 0) sign_failed
            >> check_header (take o.2 (buffer_after sig_compressed_maxsize o.1)) in
          let cut : take o.2 (buffer_after sig_compressed_maxsize o.1) ≡ o.1 =
            cut_exact o.2 sig_compressed_maxsize sig_compressed_maxsize o.1 f.1 (rw f.1 f.2) in
          rw same (
            Triple-bind (modify (write_output sig_compressed_maxsize o.1)) (λ _. check_written)
              (write_output_returns sig_compressed_maxsize o.1)
              (λ _.
                Triple-bind (raise_unless (o.0 == 0) sign_failed) _
                  (Triple-pass (o.0 == 0) sign_failed (ground (arith, f.0)))
                  (λ _. rw cut (check_header_returns o.1 f.3))))

  pub sign_inscription_returns :
      (rng : Bytes) (app_id cell_id : PyValue) (artifact_hash genesis_hash message : Bytes)
      → build_message app_id cell_id artifact_hash genesis_hash ≡ ok message
      → let sk = (lib.keygen rng).1 in
        Triple
          (λ w. Ready system self lib s w × P w)
          (sign_inscription system self sk app_id cell_id artifact_hash genesis_hash)
          (λ sig w. (Ready system self lib s w × P w) × (sig ≡ (lib.sign sk message).1))
          E
  unfolding sign_inscription
  sign_inscription_returns rng app_id cell_id artifact_hash genesis_hash message built =
      rw built (record { run = λ w p. let t = sign_returns rng message in t.run w p })

  pub verify_inscription_returns :
      (sig pubkey : Bytes) (app_id cell_id : PyValue) (artifact_hash genesis_hash message : Bytes)
      → build_message app_id cell_id artifact_hash genesis_hash ≡ ok message
      → length pubkey ≡ pubkey_size
      → lib.verify sig pubkey message ≡ 0
      → Triple
          (λ w. Ready system self lib s w × P w)
          (verify_inscription system self sig pubkey app_id cell_id artifact_hash genesis_hash)
          (λ verified w. (Ready system self lib s w × P w) × (verified ≡ true))
          E
  unfolding verify_inscription verify
  verify_inscription_returns sig pubkey app_id cell_id artifact_hash genesis_hash message built len
        accepted =
      rw built (
        Triple-bind (raise_unless (length pubkey == pubkey_size) bad_pubkey_length) _
          (Triple-pass (length pubkey == pubkey_size) bad_pubkey_length (ground arith))
          (λ _.
            Triple-bind (lib_ref system self) _ (lib_ref_returns system self lib s {P = P} keeps)
              (λ l. Triple-assume _ (λ same.
                Triple-pure (l.verify sig pubkey message == 0) (λ w p. (p, by_lib l same))))))
    where
      by_lib : (l : Library) → l ≡ lib → (l.verify sig pubkey message == 0) ≡ true
      by_lib l same = rw same (rw accepted refl)
