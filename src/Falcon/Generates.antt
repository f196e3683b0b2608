-- ===== src/Falcon/Generates.antt =====
-- The key pair of falcon.py with a library that works: keygen_into_buffer returns.
use trelyan_falcon_inscripti.Prelude.{
  ap, ◌∙◌, if◌then◌else◌, ◌≡◌, refl, arith, ℕ, ◌+◌, ◌==◌, Bool, true, false, Option, some, none, [],
  ◌∷◌, List,
}
use trelyan_falcon_inscripti.Prelude.Bytes.{Bytes}
use trelyan_falcon_inscripti.Prelude.BoxMap.{insert, lookup-insert}
use trelyan_falcon_inscripti.Machine.{
  ◌>>◌, pure, raise, System, World, Library, raise_unless, create_buffer, buffer_after,
  write_buffer, write_output, wipe, modify,
}
use trelyan_falcon_inscripti.Machine.Triples.{
  Triple-pass, Triple-pure, Triple-assume, Post, Triple, Triple-bind,
}
use trelyan_falcon_inscripti.Falcon.{
  no_rng, keygen_failed, unlock_pages, read_buffer, replicate, rng_size, lock_pages, FalconDet1024,
  lib_ref, privkey_size, pubkey_size, init_prng, keygen_call, keygen_into_buffer,
}
use trelyan_falcon_inscripti.Falcon.Correct.{
  buffer_exact, Ready, Keyed, lib_ref_returns, IsCorrect, Available,
}

module _ {S : Type 0} {E : World S → Type 0} (system : System) (self : FalconDet1024)
    (lib : Library) (s : S) where
  create_rng_returns :
      (rest : List (Option Bytes)) (context : Bytes)
      → Triple
          (λ w. Ready system self lib s w × (w.entropy ≡ some context ∷ rest))
          (create_buffer rng_size)
          (λ rng w.
            Ready system self lib s w
            × (w.entropy ≡ some context ∷ rest)
            × (w.next_address ≡ rng + 1))
          E
  unfolding create_buffer
  create_rng_returns rest context = record {
    run = λ w p. let r = p.0 in (record { loaded = r.loaded; stored = r.stored }, p.1, refl);
  }

  init_prng_returns :
      (rest : List (Option Bytes)) (context : Bytes) (rng : ℕ)
      → Triple
          (λ w.
            Ready system self lib s w
            × (w.entropy ≡ some context ∷ rest)
            × (w.next_address ≡ rng + 1))
          (init_prng rng)
          (λ seeded w. (Ready system self lib s w × (w.next_address ≡ rng + 1)) × (seeded ≡ true))
          E
  unfolding init_prng write_buffer
  init_prng_returns rest context rng = record {
    run = λ w p.
        let r = p.0 in
        elim w.entropy
            as (λ es.
              es ≡ some context ∷ rest
              → let o = init_prng rng (record w { entropy = es }) in
                Post
                  (λ seeded w'.
                    (Ready system self lib s w' × (w'.next_address ≡ rng + 1)) × (seeded ≡ true))
                  E o.0 o.1) [
                    | [] ↦ λ h. cc
                    | none ∷ es ↦ λ h. cc
                    | some c ∷ es ↦
                        λ h. ((record { loaded = r.loaded; stored = r.stored }, p.2), refl)
                  ]
          p.1;
  }

  create_privkey_returns :
      (rng : ℕ)
      → Triple
          (λ w. Ready system self lib s w × (w.next_address ≡ rng + 1))
          (create_buffer privkey_size)
          (λ privkey w. Ready system self lib s w × (privkey ≡ rng + 1))
          E
  unfolding create_buffer
  create_privkey_returns rng = record {
    run = λ w p. let r = p.0 in (record { loaded = r.loaded; stored = r.stored }, p.1);
  }

  lock_pages_returns :
      {P : Type 0} (privkey : ℕ)
      → Triple
          (λ w. Ready system self lib s w × P)
          (modify (lock_pages system privkey))
          (λ _ w. Ready system self lib s w × P)
          E
  unfolding lock_pages
  lock_pages_returns {P = P} privkey = record {
    run = λ w p. let r = p.0 in by_lock system.can_lock w r.loaded r.stored p.1;
  }
    where
      by_lock :
          (can_lock : Bool) (w : World S)
          → Available system self lib w.lib
          → w.store ≡ s
          → P
          → Ready system self lib s
              (if can_lock then record w { pinned = insert privkey true w.pinned } else w)
            × P
      by_lock true w l t p = (record { loaded = l; stored = t }, p)
      by_lock false w l t p = (record { loaded = l; stored = t }, p)

  keygen_call_returns :
      (c : IsCorrect lib) (rng privkey : ℕ)
      → Triple
          (λ w. Ready system self lib s w × (privkey ≡ rng + 1))
          (keygen_call lib rng privkey)
          (λ r w. (Keyed system self lib s r.1 privkey w × (privkey ≡ rng + 1)) × (r.0 ≡ 0))
          E
  unfolding keygen_call write_buffer write_output
  keygen_call_returns c rng privkey = record {
    run = λ w p.
        let r = p.0 in
        let context = read_buffer rng w in
        let g = c.generates context in
        let keyed : Keyed system self lib s (buffer_after pubkey_size (lib.keygen context).2)
            privkey
            (write_output pubkey_size (lib.keygen context).2
              (write_buffer privkey (buffer_after privkey_size (lib.keygen context).1) w)) =
          record {
            ready = record { loaded = r.loaded; stored = r.stored };
            rng = context;
            public_key = buffer_exact pubkey_size (lib.keygen context).2 g.2;
            private_key =
                ground (
                  arith,
                  lookup-insert privkey privkey (buffer_after privkey_size (lib.keygen context).1)
                      w.buffers,
                )
                ∙ ap some (buffer_exact privkey_size (lib.keygen context).1 g.1);
          } in
        ((keyed, p.1), g.0);
  }

  wipe_rng_returns :
      (pubkey : Bytes) (rng privkey : ℕ)
      → Triple
          (λ w. Keyed system self lib s pubkey privkey w × (privkey ≡ rng + 1))
          (modify (wipe rng rng_size))
          (λ _ w. Keyed system self lib s pubkey privkey w)
          E
  unfolding wipe write_buffer
  wipe_rng_returns pubkey rng privkey = record {
    run = λ w p.
        let k = p.0 in
        let r = k.ready in
        record {
          ready = record { loaded = r.loaded; stored = r.stored };
          rng = k.rng;
          public_key = k.public_key;
          private_key = ground (
            arith,
            lookup-insert rng privkey (replicate rng_size 0) w.buffers,
            k.private_key,
            p.1,
          );
        };
  }

  -- With a library that works and randomness to be had, a key pair is made.
  pub keygen_into_buffer_returns :
      (c : IsCorrect lib) (rest : List (Option Bytes)) (context : Bytes)
      → Triple
          (λ w. Ready system self lib s w × (w.entropy ≡ some context ∷ rest))
          (keygen_into_buffer system self)
          (λ r w. Keyed system self lib s r.0 r.1 w)
          E
  unfolding keygen_into_buffer
  keygen_into_buffer_returns c rest context =
      Triple-bind (lib_ref system self) _
        (lib_ref_returns system self lib s {P = λ w. w.entropy ≡ some context ∷ rest}
          (λ w libs outputs next p. p))
        (λ l. Triple-assume _ (λ same.
          Triple-bind (create_buffer rng_size) _ (create_rng_returns rest context) (λ rng.
            Triple-bind (init_prng rng) _ (init_prng_returns rest context rng) (λ seeded.
              Triple-assume _ (λ h.
                Triple-bind (raise_unless seeded no_rng) _ (Triple-pass seeded no_rng h) (λ _.
                  Triple-bind (create_buffer privkey_size) _ (create_privkey_returns rng)
                    (λ privkey.
                      Triple-bind (modify (lock_pages system privkey)) _
                        (lock_pages_returns {P = privkey ≡ rng + 1} privkey)
                        (λ _.
                          Triple-bind (keygen_call l rng privkey) _
                            (keygen_call_as l same rng privkey)
                            (λ r.
                              Triple-assume _
                                (λ success. ends rng privkey r.1 (r.0 == 0) (ground arith)))))))))))
    where
      keygen_call_as :
          (l : Library)
          → l ≡ lib
          → (rng privkey : ℕ)
          → Triple
              (λ w. Ready system self lib s w × (privkey ≡ rng + 1))
              (keygen_call l rng privkey)
              (λ r w. (Keyed system self lib s r.1 privkey w × (privkey ≡ rng + 1)) × (r.0 ≡ 0))
              E
      keygen_call_as l same rng privkey = rw same (keygen_call_returns c rng privkey)

      ends :
          (rng privkey : ℕ) (pubkey : Bytes) (succeeded : Bool)
          → succeeded ≡ true
          → Triple {S = S} {A = Bytes × ℕ}
              (λ w. Keyed system self lib s pubkey privkey w × (privkey ≡ rng + 1))
              (if succeeded then (do modify (wipe rng rng_size); pure (pubkey, privkey)) else (do
                modify (wipe privkey privkey_size)
                modify (unlock_pages privkey)
                modify (wipe rng rng_size)
                raise keygen_failed))
              (λ r w. Keyed system self lib s r.0 r.1 w)
              E
      ends rng privkey pubkey true h =
          Triple-bind (modify (wipe rng rng_size)) _ (wipe_rng_returns pubkey rng privkey)
            (λ _. Triple-pure (pubkey, privkey) (λ w k. k))
      ends rng privkey pubkey false h = cc
