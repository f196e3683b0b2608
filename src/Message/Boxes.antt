-- ===== src/Message/Boxes.antt =====
-- The box names of message.py: three for a cell, and none shared between cells.
use trelyan_falcon_inscripti.Prelude.{
  ℕ, ◌^◌, ◌<◌, ◌≡◌, ◌≢◌, refl, List, [], ◌∷◌, ◌++◌, length, arith, inl, inr, append-injective,
}
use trelyan_falcon_inscripti.Prelude.Bytes.{
  Bytes, All, to_bytes, length-to_bytes, to_bytes-injective,
}
use trelyan_falcon_inscripti.Prelude.Result.{ok, Result-cases}
use trelyan_falcon_inscripti.Message.{
  key_prefix_pubkey, key_prefix_owner, key_prefix_inscription, PyValue, as_int, nonneg, cell_key,
  committed_pubkey_box_name, controlling_owner_box_name, inscription_box_name, box_refs,
}
use trelyan_falcon_inscripti.Message.Layout.{cell_key-ok}

-- The three names of the cell with this number.
abbrev pub names_of : ℕ → List Bytes
names_of c =
    (key_prefix_pubkey ++ to_bytes 8 c)
    ∷ (key_prefix_owner ++ to_bytes 8 c)
    ∷ (key_prefix_inscription ++ to_bytes 8 c)
    ∷ []

pub box_refs-ok :
    (w : PyValue) (ns : List Bytes)
    → box_refs w ≡ ok ns
    → (c : ℕ) × (as_int w ≡ nonneg c) × (c < 2 ^ 64) × (ns ≡ names_of c)
unfolding box_refs committed_pubkey_box_name controlling_owner_box_name inscription_box_name
box_refs-ok w ns e = elim (Result-cases (cell_key w)) [
  | inl (k, ek) ↦ let (c, _, n, fits, eq) = cell_key-ok w ek in (c, n, fits, ground arith)
  | inr (x, ek) ↦ absurd (ground arith)
]

-- Names with the bytes of two numbers behind two bytes of prefix differ if the numbers do.
names_differ :
    (p q : Bytes) (c d : ℕ)
    → length p ≡ 2
    → length q ≡ 2
    → c < 2 ^ 64
    → d < 2 ^ 64
    → c ≢ d
    → p ++ to_bytes 8 c ≢ q ++ to_bytes 8 d
names_differ p q c d hp hq hc hd ne e = ne (
    to_bytes-injective 8 c d (omega arith) (omega arith)
      (append-injective p _ q _ (omega arith) e).1)

row_differs :
    (p : Bytes) (c d : ℕ)
    → length p ≡ 2
    → c < 2 ^ 64
    → d < 2 ^ 64
    → c ≢ d
    → All (λ m. p ++ to_bytes 8 c ≢ m) (names_of d)
row_differs p c d hp hc hd ne =
    let differ = λ (q : Bytes) (hq : length q ≡ 2). names_differ p q c d hp hq hc hd ne in
    (
      differ key_prefix_pubkey refl,
      (differ key_prefix_owner refl, (differ key_prefix_inscription refl, tt)),
    )

-- No two names of the list are equal.
abbrev pub IsDistinct : List Bytes → Type 0
IsDistinct [] = Unit
IsDistinct (n ∷ ns) = All (λ m. n ≢ m) ns × IsDistinct ns

-- Two cells share no box: if `box_refs` of message.py gives names for two cell ids that stand for
-- different numbers, every name of the first differs from every name of the second.
pub box_refs_separate :
    (v w : PyValue) (ns ms : List Bytes)
    → box_refs v ≡ ok ns
    → box_refs w ≡ ok ms
    → as_int v ≢ as_int w
    → All (λ n. All (λ m. n ≢ m) ms) ns
box_refs_separate v w ns ms e e' ne =
    let (c, nc, hc, eq) = box_refs-ok v ns e in
    let (d, nd, hd, eq') = box_refs-ok w ms e' in
    let row =
      λ (p : Bytes) (hp : length p ≡ 2). row_differs p c d hp hc hd (λ x. ne (rw (nc, nd, x))) in
    rw (eq, eq')
      (
        row key_prefix_pubkey refl,
        (row key_prefix_owner refl, (row key_prefix_inscription refl, tt)),
      )

-- For one cell `box_refs` of message.py gives three names of 10 bytes each, and no two are equal.
pub box_refs-IsDistinct :
    (w : PyValue) (ns : List Bytes)
    → box_refs w ≡ ok ns
    → (length ns ≡ 3) × All (λ n. length n ≡ 10) ns × IsDistinct ns
box_refs-IsDistinct w ns e =
    let (c, nc, hc, eq) = box_refs-ok w ns e in
    rw eq (refl, omega (arith, length-to_bytes 8 c), ground arith)
