-- ===== src/Message/Layout.antt =====
-- The layout of the signed message of message.py: which inputs give one, its length, its fields, and
-- that no two inputs give the same bytes.
use trelyan_falcon_inscripti.Prelude.{
  ℕ, ◌+◌, ◌^◌, ◌<◌, ◌≡◌, refl, sym, ap, ◌∙◌, ◌≢◌, ◌↔◌, true, false, ◌++◌, length, take, drop,
  length-append, take-append, drop-append, drop-drop, append-injective, arith, inl, inr,
}
use trelyan_falcon_inscripti.Prelude.Bytes.{
  Bytes, to_bytes, length-to_bytes, to_bytes-injective, from_bytes, from_bytes-to_bytes,
}
use trelyan_falcon_inscripti.Prelude.Result.{ok, err, Result-cases}
use trelyan_falcon_inscripti.Exceptions.{Exception, bad_cell_id, length_drift}
use trelyan_falcon_inscripti.Message.{
  domain_tag, nonneg, negative, PyValue, int, bool, other, as_int, is_int, cell_key, build_message,
}

-- The message of four well-typed parts, as the contract concatenates it.
abbrev pub layout : ℕ → ℕ → Bytes → Bytes → Bytes
layout app_id cell_id artifact_hash genesis_hash =
    domain_tag ++ (to_bytes 8 app_id ++ (to_bytes 8 cell_id ++ (artifact_hash ++ genesis_hash)))

module _ (a c : ℕ) (h g : Bytes) where
  pub length-layout : length (layout a c h g) ≡ 38 + (length h + length g)
  length-layout = simp (length-append, length-to_bytes) (omega arith)

-- What `build_message` takes for an application id and a cell id, and the numbers that they stand for.
-- A cell id may be a bool, an application id may not.
pub record IsEncodable (v w : PyValue) (h g : Bytes) (a c : ℕ) : Type 0 where
  pub app : v ≡ int (nonneg a)
  pub cell : (is_int w ≡ true) × (as_int w ≡ nonneg c)
  pub app_fits : a < 2 ^ 64
  pub cell_fits : c < 2 ^ 64
  pub hash_len : length h ≡ 32
  pub genesis_len : length g ≡ 32

pub cell_key-ok :
    (w : PyValue) {k : Bytes}
    → cell_key w ≡ ok k
    → (c : ℕ) × (is_int w ≡ true) × (as_int w ≡ nonneg c) × (c < 2 ^ 64) × (k ≡ to_bytes 8 c)
unfolding cell_key
cell_key-ok (int (nonneg n)) e = (n, ground arith, ground arith, ground arith, ground arith)
cell_key-ok (int (negative n)) e = cc
cell_key-ok (bool true) e = (1, refl, refl, omega arith, ground arith)
cell_key-ok (bool false) e = (0, refl, refl, omega arith, ground arith)
cell_key-ok other e = cc

cell_key-err : (w : PyValue) {x : Exception} → cell_key w ≡ err x → x ≡ bad_cell_id
unfolding cell_key
cell_key-err w e = ground arith

pub cell_key_accepts :
    (w : PyValue) (c : ℕ)
    → is_int w ≡ true
    → as_int w ≡ nonneg c
    → c < 2 ^ 64
    → cell_key w ≡ ok (to_bytes 8 c)
unfolding cell_key
cell_key_accepts (int (nonneg n)) c i e h = ground arith
cell_key_accepts (int (negative n)) c i e h = cc
cell_key_accepts (bool true) c i e h = ground arith
cell_key_accepts (bool false) c i e h = ground arith
cell_key_accepts other c i e h = cc

build_message_accepts :
    (v w : PyValue) (h g : Bytes) (a c : ℕ)
    → IsEncodable v w h g a c
    → build_message v w h g ≡ ok (layout a c h g)
unfolding build_message
build_message_accepts v w h g a c p =
    rw (p.app, cell_key_accepts w c p.cell.0 p.cell.1 p.cell_fits)
      (ground (arith, length-layout a c h g, p.app_fits, p.hash_len, p.genesis_len))

build_message-ok :
    (v w : PyValue) (h g m : Bytes)
    → build_message v w h g ≡ ok m
    → (a c : ℕ) × IsEncodable v w h g a c × (m ≡ layout a c h g)
unfolding build_message
build_message-ok (int (nonneg a)) w h g m e = elim (Result-cases (cell_key w)) [
  | inl (k, ek) ↦
      let (c, i, n, fits, eq) = cell_key-ok w ek in
      (
        a,
        c,
        record {
          app = refl;
          cell = (i, n);
          app_fits = ground arith;
          cell_fits = fits;
          hash_len = ground arith;
          genesis_len = ground arith;
        },
        ground (arith, length-layout a c h g),
      )
  | inr (x, ek) ↦ absurd (ground arith)
]
build_message-ok (int (negative a)) w h g m e = cc
build_message-ok (bool b) w h g m e = ground arith
build_message-ok other w h g m e = cc

-- `build_message` of message.py returns a message exactly for an app id that is a non-bool int and a
-- cell id that is an int, both in the range of a uint64, with an artifact hash and a genesis hash of
-- 32 bytes each; the message is then the tag, both ids as 8 bytes big-endian, and both hashes.
pub build_message_exactly :
    (v w : PyValue) (h g m : Bytes)
    → (build_message v w h g ≡ ok m) ↔ ((a c : ℕ) × IsEncodable v w h g a c × (m ≡ layout a c h g))
build_message_exactly v w h g m =
    (build_message-ok v w h g m, λ (a, c, p, e). rw e (build_message_accepts v w h g a c p))

module _ (a c : ℕ) (h g : Bytes) where
  pub take-app : take 8 (drop 22 (layout a c h g)) ≡ to_bytes 8 a
  take-app = take-append (to_bytes 8 a) _ 8 (length-to_bytes 8 a)

  drop-app : drop 8 (drop 22 (layout a c h g)) ≡ to_bytes 8 c ++ (h ++ g)
  drop-app = drop-append (to_bytes 8 a) _ 8 (length-to_bytes 8 a)

  take-cell : take 8 (drop 30 (layout a c h g)) ≡ to_bytes 8 c
  take-cell =
      rw (drop-drop 8 22 (layout a c h g), drop-app)
        (take-append (to_bytes 8 c) _ 8 (length-to_bytes 8 c))

  drop-cell : drop 38 (layout a c h g) ≡ h ++ g
  drop-cell =
      rw (drop-drop 16 22 (layout a c h g), drop-drop 8 8 (drop 22 (layout a c h g)), drop-app)
        (drop-append (to_bytes 8 c) _ 8 (length-to_bytes 8 c))

  pub take-hash : length h ≡ 32 → take 32 (drop 38 (layout a c h g)) ≡ h
  take-hash hl = rw drop-cell (take-append h g 32 hl)

  pub drop-hash : length h ≡ 32 → drop 70 (layout a c h g) ≡ g
  drop-hash hl = rw (drop-drop 32 38 (layout a c h g), drop-cell) (drop-append h g 32 hl)

-- A message that `build_message` of message.py returns has 102 bytes, and its fields stand at the
-- offsets 0, 22, 30, 38 and 70: the tag, the app id, the cell id, the artifact hash and the genesis
-- hash. Reading the ids as big-endian numbers gives back the numbers that were passed.
pub build_message_fields :
    (v w : PyValue) (h g m : Bytes)
    → build_message v w h g ≡ ok m
    → (length m ≡ 102)
      × (take 22 m ≡ domain_tag)
      × (v ≡ int (nonneg (from_bytes (take 8 (drop 22 m)))))
      × (as_int w ≡ nonneg (from_bytes (take 8 (drop 30 m))))
      × (take 32 (drop 38 m) ≡ h)
      × (drop 70 m ≡ g)
build_message_fields v w h g m e =
    let (a, c, p, eq) = build_message-ok v w h g m e in
    rw (eq, take-app a c h g, take-cell a c h g)
      (
        omega (arith, length-layout a c h g, p.hash_len, p.genesis_len),
        refl,
        rw (from_bytes-to_bytes 8 a p.app_fits) p.app,
        rw (from_bytes-to_bytes 8 c p.cell_fits) p.cell.1,
        take-hash a c h g p.hash_len,
        drop-hash a c h g p.hash_len,
      )

-- The check of the final length in `build_message` of message.py never fires.
pub build_message-ne-length_drift :
    (v w : PyValue) (h g : Bytes) → build_message v w h g ≢ err length_drift
unfolding build_message
build_message-ne-length_drift (int (nonneg a)) w h g e = elim (Result-cases (cell_key w)) [
  | inl (k, ek) ↦ let (c, _, _, _, eq) = cell_key-ok w ek in ground (arith, length-layout a c h g)
  | inr (x, ek) ↦ ground (arith, cell_key-err w ek)
]
build_message-ne-length_drift (int (negative a)) w h g e = cc
build_message-ne-length_drift (bool b) w h g e = ground arith
build_message-ne-length_drift other w h g e = cc

pub layout-injective :
    (a c a' c' : ℕ) (h g h' g' : Bytes)
    → a < 2 ^ 64
    → a' < 2 ^ 64
    → c < 2 ^ 64
    → c' < 2 ^ 64
    → length h ≡ length h'
    → layout a c h g ≡ layout a' c' h' g'
    → (a ≡ a') × (c ≡ c') × (h ≡ h') × (g ≡ g')
layout-injective a c a' c' h g h' g' ha ha' hc hc' hl e =
    let (e1, r1) = append-injective domain_tag _ domain_tag _ refl e in
    let (e2, r2) =
      append-injective (to_bytes 8 a) _ (to_bytes 8 a') _
        (omega (arith, length-to_bytes 8 a, length-to_bytes 8 a')) r1 in
    let (e3, r3) =
      append-injective (to_bytes 8 c) _ (to_bytes 8 c') _
        (omega (arith, length-to_bytes 8 c, length-to_bytes 8 c')) r2 in
    let (e4, r4) = append-injective h _ h' _ hl r3 in
    (
      to_bytes-injective 8 a a' (omega arith) (omega arith) e2,
      to_bytes-injective 8 c c' (omega arith) (omega arith) e3,
      e4,
      r4,
    )

-- Domain separation: if two calls of `build_message` of message.py return the same bytes, they were
-- made with the same app id, cell ids that stand for the same number, the same artifact hash and the
-- same genesis hash.
build_message-injective :
    (v w v' w' : PyValue) (h g h' g' m : Bytes)
    → build_message v w h g ≡ ok m
    → build_message v' w' h' g' ≡ ok m
    → (v ≡ v') × (as_int w ≡ as_int w') × (h ≡ h') × (g ≡ g')
build_message-injective v w v' w' h g h' g' m e e' =
    let (a, c, p, eq) = build_message-ok v w h g m e in
    let (a', c', p', eq') = build_message-ok v' w' h' g' m e' in
    let (ea, ec, eh, eg) =
      layout-injective a c a' c' h g h' g' p.app_fits p'.app_fits p.cell_fits p'.cell_fits
        (omega (arith, p.hash_len, p'.hash_len)) (sym eq ∙ eq') in
    (
      p.app ∙ ap (λ n. int (nonneg n)) ea ∙ sym p'.app,
      p.cell.1 ∙ ap nonneg ec ∙ sym p'.cell.1,
      eh,
      eg,
    )
