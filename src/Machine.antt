-- ===== src/Machine.antt =====
-- What a call of the SDK works on: the Falcon library once it is loaded, the randomness that the
-- system hands out, the ctypes buffers that hold key material, and the store of sealed cells; and the
-- monad of calls that may raise. What was written before a raise stays written.
pub mod Leaves
pub mod Triples
pub mod Runs
use trelyan_falcon_inscripti.Prelude.{
  ℕ, ◌+◌, Bool, true, false, Option, none, some, List, [], ◌∷◌, ◌++◌, take, replicate,
  if◌then◌else◌, ◌==◌,
}
use trelyan_falcon_inscripti.Prelude.Bytes.{Bytes}
use trelyan_falcon_inscripti.Prelude.BoxMap.{BoxMap, lookup, insert}
use trelyan_falcon_inscripti.Prelude.Result.{Result, ok, err}
use trelyan_falcon_inscripti.Exceptions.{Exception}

-- The C library. A return code is 0 for success. `keygen rng` gives the code, the private key and the
-- public key that it writes; `sign privkey message` gives the code, the bytes that it writes and the
-- length that it reports.
pub record Library : Type 0 where
  pub keygen : Bytes → ℕ × Bytes × Bytes
  pub sign : Bytes → Bytes → ℕ × Bytes × ℕ
  pub verify : Bytes → Bytes → Bytes → ℕ

-- The system: which path loads which library, and whether pages can be pinned.
pub record System : Type 0 where
  pub open_library : Bytes → Option Library
  pub can_lock : Bool

-- `entropy` is what the next calls of shake256_init_prng_from_system write into the generator's
-- context; `none` is a failure, and so is an empty list. `lib` gives the `_lib` of the object at an
-- address. A buffer is kept by its address: `buffers` are those of key material, the private keys and the
-- contexts of the generator, `outputs` those of public keys and signatures.
pub record World (S : Type 0) : Type 0 where
  pub lib : ℕ → Option Library
  pub entropy : List (Option Bytes)
  pub buffers : BoxMap Bytes
  pub outputs : BoxMap Bytes
  pub next_address : ℕ
  pub pinned : BoxMap Bool
  pub store : S

-- `_lib` of one object set
abbrev pub set_lib : ℕ → Option Library → (ℕ → Option Library) → ℕ → Option Library
set_lib object lib libs j = if j == object then lib else libs j

abbrev pub M : Type 0 → Type 0 → Type 0
M S A = World S → Result Exception A × World S

module _ {S A : Type 0} where
  abbrev pub pure : A → M S A
  pure a w = (ok a, w)

  abbrev pub raise : Exception → M S A
  raise e w = (err e, w)

  abbrev pub lift : Result Exception A → M S A
  lift r w = (r, w)

  -- `try: body finally: cleanup`, where the cleanup raises nothing
  abbrev pub finally : M S A → (World S → World S) → M S A
  finally body cleanup w = let (r, w') = body w in (r, cleanup w')

  -- `try: body except Exception: handler`
  abbrev pub try_except : M S A → M S A → M S A
  try_except body handler w =
      let (r, w') = body w in elim r [ ok a ↦ (ok a, w') | err e ↦ handler w' ]

  -- `try: body except E: handler`, for a handler that raises another exception or the same
  abbrev pub reraise : M S A → (Exception → Exception) → M S A
  reraise body handler w =
      let (r, w') = body w in (elim r [ ok a ↦ ok a | err e ↦ err (handler e) ], w')

infixl 5 ◌>>=◌ ◌>>◌
abbrev pub ◌>>=◌ : {S A B : Type 0} → M S A → (A → M S B) → M S B
◌>>=◌ m f w = let (r, w') = m w in elim r [ ok a ↦ f a w' | err e ↦ (err e, w') ]

abbrev pub ◌>>◌ : {S B : Type 0} → M S (Unit {0}) → M S B → M S B
m >> k = m >>= λ _. k

abbrev pub raise_unless : {S : Type 0} → Bool → Exception → M S (Unit {0})
raise_unless test e w = (if test then ok tt else err e, w)

abbrev pub modify : {S : Type 0} → (World S → World S) → M S (Unit {0})
modify f w = (ok tt, f w)

-- What a buffer of this size holds after a C function has written these bytes from its start.
abbrev pub buffer_after : ℕ → Bytes → Bytes
buffer_after size written = take size (written ++ replicate size 0)

-- `ctypes.create_string_buffer(size)`: a new buffer of zeros, at a new address
unfoldable pub create_buffer : {S : Type 0} → ℕ → M S ℕ
create_buffer size w = (
  ok w.next_address,
  record w {
    buffers = insert w.next_address (replicate size 0) w.buffers;
    next_address = w.next_address + 1;
  },
)

unfoldable pub write_buffer : {S : Type 0} → ℕ → Bytes → World S → World S
write_buffer address content w = record w { buffers = insert address content w.buffers }

-- A new buffer of this size for a public key or a signature, into which a C function has written.
unfoldable pub write_output : {S : Type 0} → ℕ → Bytes → World S → World S
write_output size written w = record w {
  outputs = insert w.next_address (buffer_after size written) w.outputs;
  next_address = w.next_address + 1;
}

-- `ctypes.memset(ctypes.addressof(buf), 0, size)`, for the size of the buffer
unfoldable pub wipe : {S : Type 0} → ℕ → ℕ → World S → World S
unfolding write_buffer
wipe address size = write_buffer address (replicate size 0)

-- The bytes that a C function reads through a pointer to the buffer.
abbrev pub read_buffer : {S : Type 0} → ℕ → World S → Bytes
read_buffer address w = elim (lookup address w.buffers) [ none ↦ [] | some content ↦ content ]
