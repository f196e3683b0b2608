-- ===== src/Checks/Teal/Specs.antt =====
-- When two specs are equal but for the keys that the generator drops.
use trelyan_falcon_inscripti.Prelude.{
  ◌≡◌, refl, arith, Bool, true, false, none, some, [], ◌∷◌, Bool-cases, Option-cases, inl, inr,
}
use trelyan_falcon_inscripti.Prelude.Bytes.{Bytes, bytes_eq, bytes_eq_iff}
use trelyan_falcon_inscripti.Prelude.Text.{is_one_of}
use trelyan_falcon_inscripti.Checks.Teal.{
  Spec, value_of, entry_eq, keys_agree, dict_eq, generator_dropped, without_dropped,
}

module _ {V : Type 0} (value_eq : V → V → Bool) where
  -- Two equal dicts have equal values at every key.
  agree_at :
      (keys a b : Spec V) (key : Bytes) (v : V)
      → keys_agree value_eq keys a b ≡ true
      → value_of key keys ≡ some v
      → entry_eq value_eq (value_of key a) (value_of key b) ≡ true
  unfolding keys_agree
  agree_at [] a b key v h e = cc
  agree_at ((other, w) ∷ keys) a b key v h e = elim (Bool-cases (bytes_eq other key)) [
    | inl same ↦
        let p : other ≡ key = (bytes_eq_iff other key).0 same in rw (← p) (ground (arith, h))
    | inr differ ↦ agree_at keys a b key v (ground (arith, h)) (ground (arith, e, differ))
  ]

  equal_at :
      (a b : Spec V) (key : Bytes)
      → dict_eq value_eq a b ≡ true
      → entry_eq value_eq (value_of key a) (value_of key b) ≡ true
  unfolding dict_eq
  equal_at a b key h = elim (Option-cases (value_of key a)) [
    | inr (v, e) ↦ agree_at a a b key v (ground (arith, h)) e
    | inl absent ↦ elim (Option-cases (value_of key b)) [
      | inr (v, e) ↦ agree_at b a b key v (ground (arith, h)) e
      | inl missing ↦ rw (absent, missing) refl
    ]
  ]

  -- Dicts that have equal values at every key are equal.
  keys_agree_at :
      (keys a b : Spec V)
      → ((key : Bytes) → entry_eq value_eq (value_of key a) (value_of key b) ≡ true)
      → keys_agree value_eq keys a b ≡ true
  unfolding keys_agree
  keys_agree_at [] a b h = refl
  keys_agree_at ((key, v) ∷ keys) a b h =
      let here = h key in let rest = keys_agree_at keys a b h in ground (arith, here, rest)

  dict_eq_at :
      (a b : Spec V)
      → ((key : Bytes) → entry_eq value_eq (value_of key a) (value_of key b) ≡ true)
      → dict_eq value_eq a b ≡ true
  unfolding dict_eq
  dict_eq_at a b h =
      let p = keys_agree_at a a b h in let q = keys_agree_at b a b h in ground (arith, p, q)

-- A key that is not dropped keeps its value.
value_of-without_dropped :
    {V : Type 0} (key : Bytes) (spec : Spec V)
    → is_one_of generator_dropped key ≡ false
    → value_of key (without_dropped spec) ≡ value_of key spec
unfolding without_dropped
value_of-without_dropped key [] h = refl
value_of-without_dropped key ((other, v) ∷ spec) h =
    elim (Bool-cases (is_one_of generator_dropped other)) [
      | inr stays ↦ ground (arith, stays, value_of-without_dropped key spec h)
      | inl dropped ↦ elim (Bool-cases (bytes_eq other key)) [
        | inl same ↦
            let p : other ≡ key = (bytes_eq_iff other key).0 same in
            let clash : is_one_of generator_dropped key ≡ true = rw (← p) dropped in cc
        | inr differ ↦ ground (arith, dropped, differ, value_of-without_dropped key spec h)
      ]
    ]

-- A key that is dropped has no value.
value_of-dropped :
    {V : Type 0} (key : Bytes) (spec : Spec V)
    → is_one_of generator_dropped key ≡ true
    → value_of key (without_dropped spec) ≡ none
unfolding without_dropped
value_of-dropped key [] h = refl
value_of-dropped key ((other, v) ∷ spec) h = elim (Bool-cases (is_one_of generator_dropped other)) [
  | inl dropped ↦ ground (arith, dropped, value_of-dropped key spec h)
  | inr stays ↦ elim (Bool-cases (bytes_eq other key)) [
    | inl same ↦
        let p : other ≡ key = (bytes_eq_iff other key).0 same in
        let clash : is_one_of generator_dropped key ≡ false = rw (← p) stays in cc
    | inr differ ↦ ground (arith, stays, differ, value_of-dropped key spec h)
  ]
]

module _ {V : Type 0} (value_eq : V → V → Bool) (a b : Spec V) where
  -- At every key but those that the generator drops, both have equal values or neither has one.
  abbrev pub SameSpec : Type 0
  SameSpec =
      (key : Bytes)
      → is_one_of generator_dropped key ≡ false
      → entry_eq value_eq (value_of key a) (value_of key b) ≡ true

  pub dict_eq-SameSpec : dict_eq value_eq (without_dropped a) (without_dropped b) ≡ true → SameSpec
  dict_eq-SameSpec h key kept =
      let p = value_of-without_dropped key a kept in
      let q = value_of-without_dropped key b kept in
      rw (← p, ← q) (equal_at value_eq (without_dropped a) (without_dropped b) key h)

  pub SameSpec-dict_eq : SameSpec → dict_eq value_eq (without_dropped a) (without_dropped b) ≡ true
  SameSpec-dict_eq same = dict_eq_at value_eq (without_dropped a) (without_dropped b) (λ key.
      elim (Bool-cases (is_one_of generator_dropped key)) [
        | inl dropped ↦ rw (value_of-dropped key a dropped, value_of-dropped key b dropped) refl
        | inr kept ↦
            rw (value_of-without_dropped key a kept, value_of-without_dropped key b kept)
              (same key kept)
      ])
