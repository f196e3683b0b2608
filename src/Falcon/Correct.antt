-- ===== src/Falcon/Correct.antt =====
-- A Falcon library that works, and an instance of falcon.py that has it or can load it.
use trelyan_falcon_inscripti.Prelude.{
  take-append, ◌≡◌, refl, arith, ℕ, ◌≤◌, length, Option, some, none, get_elem?,
}
use trelyan_falcon_inscripti.Prelude.Bytes.{Bytes}
use trelyan_falcon_inscripti.Prelude.BoxMap.{BoxMap, lookup}
use trelyan_falcon_inscripti.Prelude.Result.{ok}
use trelyan_falcon_inscripti.Message.{sig_compressed_maxsize, det_compressed_header}
use trelyan_falcon_inscripti.Machine.{System, World, Library, buffer_after, set_lib}
use trelyan_falcon_inscripti.Machine.Triples.{Post, Triple}
use trelyan_falcon_inscripti.Falcon.{
  replicate, FalconDet1024, load, lib_ref, privkey_size, pubkey_size,
}

-- Key generation succeeds with keys of the documented lengths; a signature under a generated key
-- fits the buffer, starts with 0xBA and verifies under the public key.
pub record IsCorrect (lib : Library) : Type 0 where
  pub generates :
      (rng : Bytes)
      → let (rc, sk, pk) = lib.keygen rng in
        (rc ≡ 0) × (length sk ≡ privkey_size) × (length pk ≡ pubkey_size)
  pub signs :
      (rng message : Bytes)
      → let (rc, sk, pk) = lib.keygen rng in
        let (rc', sig, sig_len) = lib.sign sk message in
        (rc' ≡ 0)
        × (sig_len ≡ length sig)
        × (length sig ≤ sig_compressed_maxsize)
        × (get_elem? sig 0 ≡ some det_compressed_header)
        × (lib.verify sig pk message ≡ 0)

module _ (system : System) (self : FalconDet1024) (lib : Library) where
  -- The instance has loaded this library, or has loaded none and its path opens this one.
  pub data Available (libs : ℕ → Option Library) : Type 0 where
    has_loaded : libs self.object ≡ some lib → Available libs
    can_load : libs self.object ≡ none → load system self.lib_path ≡ ok lib → Available libs

  module _ {S : Type 0} (s : S) where
    pub record Ready (w : World S) : Type 0 where
      pub loaded : Available w.lib
      pub stored : w.store ≡ s

  lib_ref_loaded :
      {S : Type 0} (w : World S)
      → w.lib self.object ≡ some lib
      → lib_ref system self w ≡ (ok lib, w)
  unfolding lib_ref
  lib_ref_loaded w h = rw (lib_ref, h) refl

  lib_ref_loads :
      {S : Type 0} (w : World S)
      → w.lib self.object ≡ none
      → load system self.lib_path ≡ ok lib
      → lib_ref system self w ≡ (ok lib, record w { lib = set_lib self.object (some lib) w.lib })
  unfolding lib_ref
  lib_ref_loads w h opens = rw (lib_ref, h, opens) refl

  set_lib_at :
      (libs : ℕ → Option Library) → set_lib self.object (some lib) libs self.object ≡ some lib
  set_lib_at libs = ground arith

-- What neither loading the library nor a buffer of a result changes.
abbrev pub IsKept : {S : Type 0} → (World S → Type 0) → Type 0
IsKept {S = S} P =
    (w : World S) (libs : ℕ → Option Library) (outputs : BoxMap Bytes) (next : ℕ)
    → P w
    → P (record w { lib = libs; outputs = outputs; next_address = next })

-- The key pair of some run of the generator: the public key, and the private key in its buffer.
pub record Keyed {S : Type 0} (system : System) (self : FalconDet1024) (lib : Library) (s : S)
    (pubkey : Bytes) (privkey : ℕ) (w : World S) : Type 0 where
  pub ready : Ready system self lib s w
  pub rng : Bytes
  pub public_key : pubkey ≡ (lib.keygen rng).2
  pub private_key : lookup privkey w.buffers ≡ some ((lib.keygen rng).1)

pub buffer_exact : (n : ℕ) (bs : Bytes) → length bs ≡ n → buffer_after n bs ≡ bs
buffer_exact n bs h = take-append bs (replicate n 0) n h

module _ {S : Type 0} (system : System) (self : FalconDet1024) (lib : Library) (s : S) where
  -- The library is found, and P still holds.
  abbrev Found : (World S → Type 0) → Library → World S → Type 0
  Found P l w = (Ready system self lib s w × P w) × (l ≡ lib)

module _ {S : Type 0} {E : World S → Type 0} (system : System) (self : FalconDet1024)
    (lib : Library) (s : S) where
  pub lib_ref_returns :
      {P : World S → Type 0}
      → IsKept P
      → Triple
          (λ w. Ready system self lib s w × P w)
          (lib_ref system self)
          (λ l w. (Ready system self lib s w × P w) × (l ≡ lib))
          E
  lib_ref_returns {P = P} keeps = record {
    run = λ w p. let r = p.0 in by_lib w r.loaded r.stored p.1;
  }
    where
      by_lib :
          (w : World S)
          → Available system self lib w.lib
          → w.store ≡ s
          → P w
          → Post (Found system self lib s P) E (lib_ref system self w).0 (lib_ref system self w).1
      by_lib w (has_loaded h) stored p =
          let q : Post (Found system self lib s P) E (ok lib) w =
            ((record { loaded = has_loaded h; stored = stored }, p), refl) in
          rw (lib_ref_loaded system self lib w h) q
      by_lib w (can_load h opens) stored p =
          let w' : World S = record w { lib = set_lib self.object (some lib) w.lib } in
          let q : Post (Found system self lib s P) E (ok lib) w' = (
            (
              record { loaded = has_loaded (set_lib_at system self lib w.lib); stored = stored },
              keeps w w'.lib w.outputs w.next_address p,
            ),
            refl,
          ) in
          rw (lib_ref_loads system self lib w h opens) q
