-- ===== src/Checks/Arc56/Exit.antt =====
-- When the check of the client's spec exits with 0.
use trelyan_falcon_inscripti.Prelude.{
  ◌≡◌, ◌↔◌, refl, true, some, List, [], ◌∷◌, arith, Bool-cases, Option-cases, inl, inr,
}
use trelyan_falcon_inscripti.Prelude.Bytes.{Bytes, All}
use trelyan_falcon_inscripti.Checks.Teal.{Spec}
use trelyan_falcon_inscripti.Checks.Arc56.{
  Inputs, material, get, drifted, status_of, compare_with, read_text, load_arc, main, exit_code,
}

module _ {V : Type 0} (inputs : Inputs V) where
  -- Both specs can be read and have equal values at every material key.
  pub record IsInStep : Type 0 where
    pub text : Bytes
    pub client : inputs.client ≡ some text
    pub client_utf8 : inputs.is_utf8 text ≡ true
    pub raw : Bytes
    pub committed : inputs.arc ≡ some raw
    pub raw_utf8 : inputs.is_utf8 raw ≡ true
    pub arc : Spec V
    pub parsed : inputs.json_loads raw ≡ some arc
    pub literal : Bytes
    pub found : inputs.find_spec text ≡ some literal
    pub embedded : Spec V
    pub embedded_parsed : inputs.json_loads literal ≡ some embedded
    pub equal :
        All (λ key. inputs.value_eq (get inputs embedded key) (get inputs arc key) ≡ true) material

  drifted-All :
      (keys : List Bytes) (embedded arc : Spec V)
      → drifted inputs keys embedded arc ≡ []
      → All (λ key. inputs.value_eq (get inputs embedded key) (get inputs arc key) ≡ true) keys
  unfolding drifted
  drifted-All [] embedded arc e = tt
  drifted-All (key ∷ keys) embedded arc e =
      elim (Bool-cases (inputs.value_eq (get inputs embedded key) (get inputs arc key))) [
        | inl same ↦ (same, drifted-All keys embedded arc (ground (arith, e, same)))
        | inr other ↦ absurd (ground (arith, e, other))
      ]

  All-drifted :
      (keys : List Bytes) (embedded arc : Spec V)
      → All (λ key. inputs.value_eq (get inputs embedded key) (get inputs arc key) ≡ true) keys
      → drifted inputs keys embedded arc ≡ []
  unfolding drifted
  All-drifted [] embedded arc a = refl
  All-drifted (key ∷ keys) embedded arc a =
      let same = a.0 in let rest = All-drifted keys embedded arc a.1 in ground (arith, same, rest)

  status_0 : (keys : List Bytes) → status_of inputs keys ≡ 0 → keys ≡ []
  status_0 [] e = refl
  status_0 (key ∷ keys) e = cc

  from_exit : exit_code inputs ≡ 0 → IsInStep
  unfolding exit_code main read_text load_arc compare_with
  from_exit e = elim (Option-cases inputs.client) [
    | inl f ↦ absurd (ground (arith, e, f))
    | inr (text, f) ↦ elim (Bool-cases (inputs.is_utf8 text)) [
      | inr u ↦ absurd (ground (arith, e, f, u))
      | inl u ↦ elim (Option-cases inputs.arc) [
        | inl g ↦ absurd (ground (arith, e, f, u, g))
        | inr (raw, g) ↦ elim (Bool-cases (inputs.is_utf8 raw)) [
          | inr v ↦ absurd (ground (arith, e, f, u, g, v))
          | inl v ↦ elim (Option-cases (inputs.json_loads raw)) [
            | inl h ↦ absurd (ground (arith, e, f, u, g, v, h))
            | inr (arc, h) ↦ compared text f u raw g v arc h (ground (arith, e, f, u, g, v, h))
          ]
        ]
      ]
    ]
  ]
    where
      compared :
          (text : Bytes)
          → inputs.client ≡ some text
          → inputs.is_utf8 text ≡ true
          → (raw : Bytes) → inputs.arc ≡ some raw
          → inputs.is_utf8 raw ≡ true
          → (arc : Spec V) → inputs.json_loads raw ≡ some arc
          → compare_with inputs arc (inputs.find_spec text) ≡ 0
          → IsInStep
      compared text f u raw g v arc h e = elim (Option-cases (inputs.find_spec text)) [
        | inl k ↦ absurd (ground (arith, e, k))
        | inr (literal, k) ↦ elim (Option-cases (inputs.json_loads literal)) [
          | inl l ↦ absurd (ground (arith, e, k, l))
          | inr (embedded, l) ↦
              let status : status_of inputs (drifted inputs material embedded arc) ≡ 0 =
                ground (arith, e, k, l) in
              record {
                text = text;
                client = f;
                client_utf8 = u;
                raw = raw;
                committed = g;
                raw_utf8 = v;
                arc = arc;
                parsed = h;
                literal = literal;
                found = k;
                embedded = embedded;
                embedded_parsed = l;
                equal = drifted-All material embedded arc (status_0 _ status);
              }
        ]
      ]

  -- verify_client_matches_arc56.py exits with 0 exactly if both files can be read and are UTF-8, the committed spec is JSON, the
  -- client holds a spec that is JSON, and the two have equal values at the seven material keys, where a
  -- key that is not there counts as None.
  pub arc56_exit_0_exactly : (exit_code inputs ≡ 0) ↔ IsInStep
  unfolding exit_code main read_text load_arc compare_with
  arc56_exit_0_exactly = (
    from_exit,
    λ s.
        let none_drifted = All-drifted material s.embedded s.arc s.equal in
        ground (
          arith, s.client, s.client_utf8, s.committed, s.raw_utf8, s.parsed, s.found,
          s.embedded_parsed, none_drifted,
        ),
  )
