-- ===== src/Checks/Arc56/Implied.antt =====
-- The check of the client's spec next to the part of verify_teal_matches_source.py that compares the
-- whole specs.
use trelyan_falcon_inscripti.Prelude.{
  ◌≡◌, refl, ◌∙◌, Bool, true, false, Option, none, some, List, [], ◌∷◌,
}
use trelyan_falcon_inscripti.Prelude.Bytes.{Bytes, All, bytes_eq}
use trelyan_falcon_inscripti.Prelude.Text.{is_one_of}
use trelyan_falcon_inscripti.Prelude.Result.{ok}
use trelyan_falcon_inscripti.Checks.Teal.Specs.{SameSpec}
use trelyan_falcon_inscripti.Checks.Teal.Exit.{client-CarriesSpec}
use trelyan_falcon_inscripti.Checks.Teal.{
  Tools, Tree, Spec, value_of, entry_eq, generator_dropped, client_spec_matches, arc56,
}
use trelyan_falcon_inscripti.Checks.Arc56.{Inputs, material, or_null, get, exit_code}
use trelyan_falcon_inscripti.Checks.Arc56.Exit.{arc56_exit_0_exactly}

module _ {V : Type 0} (value_eq : V → V → Bool) where
  null_at :
      (null : V) (o p : Option V)
      → value_eq null null ≡ true
      → entry_eq value_eq o p ≡ true
      → value_eq (or_null null o) (or_null null p) ≡ true
  null_at null none none n h = n
  null_at null none (some w) n h = cc
  null_at null (some v) none n h = cc
  null_at null (some v) (some w) n h = h

module _ {V : Type 0} (tools : Tools V) (tree : Tree) (is_utf8 : Bytes → Bool)
    (find : Bytes → Option Bytes) (null : V) where
  -- The inputs of the one check, taken from those of the other; their patterns are not the same.
  abbrev pub inputs_of : Inputs V
  inputs_of = record {
    client = tree.client;
    arc = tree.committed arc56;
    is_utf8 = is_utf8;
    find_spec = find;
    json_loads = tools.json_loads;
    value_eq = tools.value_eq;
    null = null;
  }

  material_equal :
      (keys : List Bytes) (embedded arc : Spec V)
      → tools.value_eq null null ≡ true
      → SameSpec tools.value_eq embedded arc
      → All (λ key. is_one_of generator_dropped key ≡ false) keys
      → All (λ key. tools.value_eq (get inputs_of embedded key) (get inputs_of arc key) ≡ true) keys
  material_equal [] embedded arc n h a = tt
  material_equal (key ∷ keys) embedded arc n h a = (
    null_at tools.value_eq null (value_of key embedded) (value_of key arc) n (h key a.0),
    material_equal keys embedded arc n h a.1,
  )

  kept : All (λ key. is_one_of generator_dropped key ≡ false) material
  unfolding is_one_of bytes_eq
  kept = (refl, (refl, (refl, (refl, (refl, (refl, (refl, tt)))))))

  -- If the spec of the client passes the comparison of verify_teal_matches_source.py, the bytes of the
  -- client and of the committed spec are UTF-8, and the patterns of the two scripts find the same text in
  -- this client, verify_client_matches_arc56.py exits with 0, provided that None equals None.
  pub whole_spec_implies_material :
      (client raw : Bytes)
      → tree.client ≡ some client
      → tree.committed arc56 ≡ some raw
      → is_utf8 client ≡ true
      → is_utf8 raw ≡ true
      → find client ≡ tools.find_spec client
      → tools.value_eq null null ≡ true
      → client_spec_matches tools tree ≡ ok true
      → exit_code inputs_of ≡ 0
  whole_spec_implies_material client raw there committed u v same n h =
      let c = client-CarriesSpec tools tree h in
      let e : c.text ≡ client = cc (c.client, there) in
      let r : c.raw ≡ raw = cc (c.committed, committed) in
      (arc56_exit_0_exactly inputs_of).1 (record {
        text = client;
        client = there;
        client_utf8 = u;
        raw = raw;
        committed = committed;
        raw_utf8 = v;
        arc = c.spec;
        parsed = rw r at c.parsed;
        literal = c.literal;
        found = same ∙ rw e at c.found;
        embedded = c.embedded;
        embedded_parsed = c.embedded_parsed;
        equal = material_equal material c.embedded c.spec n c.same kept;
      })
