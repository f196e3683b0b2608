-- ===== src/Falcon/Buffers.antt =====
-- Which buffers the calls of falcon.py leave with key material in them.
use trelyan_falcon_inscripti.Prelude.{
  if◌then◌else◌, zero, replicate, inr, inl, ◌==◌, ◌≢◌, suc, Bool-cases, ℕ, true, false, ◌≡◌, refl,
  some, none, List, [], ◌∷◌, arith,
}
use trelyan_falcon_inscripti.Prelude.Bytes.{Bytes, All}
use trelyan_falcon_inscripti.Prelude.BoxMap.{BoxMap, lookup, insert, lookup-insert}
use trelyan_falcon_inscripti.Exceptions.{keygen_failed, no_rng, no_rng}
use trelyan_falcon_inscripti.Machine.{
  ◌>>◌, System, World, Library, create_buffer, write_buffer, write_output, wipe,
}
use trelyan_falcon_inscripti.Machine.Triples.{
  Triple-raise, Triple-pure, Triple-weaken, Triple-modify, Triple-raise_unless, Post, Leaves-Triple,
  Triple-bind, Triple,
}
use trelyan_falcon_inscripti.Falcon.Frame.{lib_ref-Leaves_buffers}
use trelyan_falcon_inscripti.Falcon.{
  raise, pure, modify, privkey_size, Bool, raise_unless, rng_size, unlock_pages, lock_pages,
  keygen_call, FalconDet1024, lib_ref, init_prng, keygen_into_buffer,
}

abbrev pub IsZero : Bytes → Type 0
IsZero b = All (λ x. x ≡ 0) b

-- Every buffer is zero, but those at the addresses listed.
pub record IsCleanBut (dirty : List ℕ) (buffers : BoxMap Bytes) : Type 0 where
  pub zero_at : (j : ℕ) (b : Bytes) → All (λ a. j ≢ a) dirty → lookup j buffers ≡ some b → IsZero b

abbrev pub IsClean : BoxMap Bytes → Type 0
IsClean = IsCleanBut []

pub replicate-IsZero : (n : ℕ) → IsZero (replicate n 0)
replicate-IsZero zero = tt
replicate-IsZero (suc n) = (refl, replicate-IsZero n)

-- Any bytes may be written at a new dirty address, and at one that is dirty already.
pub insert-opens :
    (a : ℕ) (content : Bytes) (dirty : List ℕ) (buffers : BoxMap Bytes)
    → IsCleanBut dirty buffers
    → IsCleanBut (a ∷ dirty) (insert a content buffers)
insert-opens a content dirty buffers c = record {
  zero_at = λ j b h e. c.zero_at j b h.1 (ground (arith, h.0, lookup-insert a j content buffers));
}

pub insert-rewrites :
    (a : ℕ) (content : Bytes) (dirty : List ℕ) (buffers : BoxMap Bytes)
    → IsCleanBut (a ∷ dirty) buffers
    → IsCleanBut (a ∷ dirty) (insert a content buffers)
insert-rewrites a content dirty buffers c = record {
  zero_at = λ j b h e. c.zero_at j b h (ground (arith, h.0, lookup-insert a j content buffers));
}

-- Zeros close an address.
pub insert-closes :
    (a : ℕ) (content : Bytes) (dirty : List ℕ) (buffers : BoxMap Bytes)
    → IsZero content
    → IsCleanBut (a ∷ dirty) buffers
    → IsCleanBut dirty (insert a content buffers)
insert-closes a content dirty buffers z c = record {
  zero_at = λ j b h e. elim (Bool-cases (a == j)) [
    | inl same ↦
        let p : content ≡ b = ground (arith, lookup-insert a j content buffers) in rw (← p) z
    | inr differ ↦
        c.zero_at j b (ground arith, h) (ground (arith, lookup-insert a j content buffers))
  ];
}

pub insert_zeros :
    (a : ℕ) (content : Bytes) (dirty : List ℕ) (buffers : BoxMap Bytes)
    → IsZero content
    → IsCleanBut dirty buffers
    → IsCleanBut dirty (insert a content buffers)
insert_zeros a content dirty buffers z c =
    insert-closes a content dirty buffers z (record { zero_at = λ j b h e. c.zero_at j b h.1 e })

pub swap_dirty :
    (a b : ℕ) (dirty : List ℕ) (buffers : BoxMap Bytes)
    → IsCleanBut (a ∷ b ∷ dirty) buffers
    → IsCleanBut (b ∷ a ∷ dirty) buffers
swap_dirty a b dirty buffers c = record {
  zero_at = λ j x h e. c.zero_at j x (h.1.0, (h.0, h.1.1)) e;
}

abbrev pub CleanBut : {S : Type 0} → List ℕ → World S → Type 0
CleanBut dirty w = IsCleanBut dirty w.buffers

abbrev pub Clean : {S : Type 0} → World S → Type 0
Clean w = IsClean w.buffers

abbrev Seeded : {S : Type 0} → ℕ → List ℕ → Bool → World S → Type 0
Seeded rng dirty seeded w =
    (seeded ≡ true → CleanBut (rng ∷ dirty) w) × (seeded ≡ false → CleanBut dirty w)

module _ {S : Type 0} {E : World S → Type 0} (dirty : List ℕ) where
  create_buffer-CleanBut :
      (size : ℕ) → Triple {S = S} (CleanBut dirty) (create_buffer size) (λ _. CleanBut dirty) E
  unfolding create_buffer
  create_buffer-CleanBut size = record {
    run = λ w c. insert_zeros w.next_address _ dirty w.buffers (replicate-IsZero size) c;
  }

  -- a generator's context is written only if the generator could be seeded
  init_prng-CleanBut :
      (rng : ℕ) → Triple {S = S} (CleanBut dirty) (init_prng rng) (Seeded rng dirty) E
  unfolding init_prng write_buffer
  init_prng-CleanBut rng = record {
    run = λ w c.
        elim w.entropy
          as (λ es.
            let r = init_prng rng (record w { entropy = es }) in
            Post (Seeded rng dirty) E r.0 r.1) [
              | [] ↦ (λ t. cc, λ _. c)
              | none ∷ rest ↦ (λ t. cc, λ _. c)
              | some context ∷ rest ↦ (λ _. insert-opens rng _ dirty w.buffers c, λ t. cc)
            ];
  }

module _ {S : Type 0} {E : World S → Type 0} (lib : Library) (rng privkey : ℕ)
    (dirty : List ℕ) where
  keygen_call-CleanBut :
      Triple {S = S}
        (CleanBut dirty)
        (keygen_call lib rng privkey)
        (λ _. CleanBut (privkey ∷ dirty))
        E
  unfolding keygen_call write_buffer write_output
  keygen_call-CleanBut = record { run = λ w c. insert-opens privkey _ dirty w.buffers c }

module _ {S : Type 0} {E : World S → Type 0} (system : System) (address : ℕ) (dirty : List ℕ) where
  lock_pages-CleanBut :
      Triple {S = S} (CleanBut dirty) (modify (lock_pages system address)) (λ _. CleanBut dirty) E
  unfolding lock_pages
  lock_pages-CleanBut =
      Triple-modify (lock_pages system address) (λ w c. by_lock system.can_lock w c)
    where
      by_lock :
          (can_lock : Bool) (w : World S)
          → CleanBut dirty w
          → CleanBut dirty
              (if can_lock then record w { pinned = insert address true w.pinned } else w)
      by_lock true w c = c
      by_lock false w c = c

  unlock_pages-CleanBut :
      Triple {S = S} (CleanBut dirty) (modify (unlock_pages address)) (λ _. CleanBut dirty) E
  unfolding unlock_pages
  unlock_pages-CleanBut = Triple-modify (unlock_pages address) (λ w c. c)

  wipe-CleanBut :
      (size : ℕ)
      → Triple {S = S}
          (CleanBut (address ∷ dirty))
          (modify (wipe address size))
          (λ _. CleanBut dirty)
          E
  unfolding wipe write_buffer
  wipe-CleanBut size =
      Triple-modify (wipe address size)
        (λ w c. insert-closes address _ dirty w.buffers (replicate-IsZero size) c)

module _ {S : Type 0} (system : System) (self : FalconDet1024) where
  pub keygen_into_buffer-Clean :
      Triple {S = S} Clean (keygen_into_buffer system self) (λ r. CleanBut (r.1 ∷ [])) Clean
  unfolding keygen_into_buffer
  keygen_into_buffer-Clean =
      Triple-bind (lib_ref system self) _
        (Leaves-Triple IsClean (lib_ref system self) (lib_ref-Leaves_buffers system self))
        (λ lib. Triple-bind (create_buffer rng_size) _ (create_buffer-CleanBut [] rng_size) (λ rng.
          Triple-bind (init_prng rng) _ (init_prng-CleanBut [] rng) (λ seeded.
            Triple-bind (raise_unless seeded no_rng) _ (Triple-raise_unless seeded no_rng) (λ _.
              Triple-bind (create_buffer privkey_size) _
                (create_buffer-CleanBut (rng ∷ []) privkey_size)
                (λ privkey.
                  Triple-bind (modify (lock_pages system privkey)) _
                    (lock_pages-CleanBut system privkey (rng ∷ []))
                    (λ _.
                      Triple-bind (keygen_call lib rng privkey) _
                        (keygen_call-CleanBut lib rng privkey (rng ∷ []))
                        (λ r. ends rng privkey r.1 (r.0 == 0))))))))
    where
      ends :
          (rng privkey : ℕ) (pubkey : Bytes) (succeeded : Bool)
          → Triple {S = S} {A = Bytes × ℕ}
              (CleanBut (privkey ∷ rng ∷ []))
              (if succeeded then (do modify (wipe rng rng_size); pure (pubkey, privkey)) else (do
                modify (wipe privkey privkey_size)
                modify (unlock_pages privkey)
                modify (wipe rng rng_size)
                raise keygen_failed))
              (λ r. CleanBut (r.1 ∷ []))
              Clean
      ends rng privkey pubkey true =
          Triple-bind (modify (wipe rng rng_size)) _
            (Triple-weaken (modify (wipe rng rng_size))
              (λ w c. swap_dirty privkey rng [] w.buffers c)
              (wipe-CleanBut system rng (privkey ∷ []) rng_size) (λ _ w c. c) (λ w c. c))
            (λ _. Triple-pure (pubkey, privkey) (λ w c. c))
      ends rng privkey pubkey false =
          Triple-bind (modify (wipe privkey privkey_size)) _
            (wipe-CleanBut system privkey (rng ∷ []) privkey_size)
            (λ _.
              Triple-bind (modify (unlock_pages privkey)) _
                (unlock_pages-CleanBut system privkey (rng ∷ []))
                (λ _.
                  Triple-bind (modify (wipe rng rng_size)) _ (wipe-CleanBut system rng [] rng_size)
                    (λ _. Triple-raise keygen_failed (λ w c. c))))
