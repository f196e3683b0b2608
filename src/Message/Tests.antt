-- ===== src/Message/Tests.antt =====
-- Concrete messages, and the theorems of the message modules at concrete inputs.
use trelyan_falcon_inscripti.Prelude.{
  ◌↔◌, ℕ, ◌≡◌, refl, true, [], ◌∷◌, length, take, drop, replicate, arith,
}
use trelyan_falcon_inscripti.Prelude.Bytes.{Bytes, to_bytes, from_bytes}
use trelyan_falcon_inscripti.Prelude.Result.{ok, err}
use trelyan_falcon_inscripti.Exceptions.{bad_app_id, bad_cell_id}
use trelyan_falcon_inscripti.Message.{
  domain_tag, int, bool, other, nonneg, negative, as_int, cell_key, committed_pubkey_box_name,
  controlling_owner_box_name, inscription_box_name, box_refs, build_message,
  reference_build_message,
}
use trelyan_falcon_inscripti.Message.Layout.{
  build_message_exactly, IsEncodable, layout, build_message_fields,
}
use trelyan_falcon_inscripti.Message.Boxes.{names_of}
use trelyan_falcon_inscripti.Message.Agreement.{builders_differ_on_bool}

abbrev art : Bytes
art = replicate 32 7

abbrev genesis : Bytes
genesis = replicate 32 0

-- the first bytes and the box names of the repository's offline vectors
box_names :
    (committed_pubkey_box_name (int (nonneg 1))
      ≡ ok (0x6b ∷ 0x5f ∷ 0 ∷ 0 ∷ 0 ∷ 0 ∷ 0 ∷ 0 ∷ 0 ∷ 1 ∷ []))
    × (inscription_box_name (int (nonneg 258))
        ≡ ok (0x69 ∷ 0x5f ∷ 0 ∷ 0 ∷ 0 ∷ 0 ∷ 0 ∷ 0 ∷ 1 ∷ 2 ∷ []))
unfolding committed_pubkey_box_name inscription_box_name cell_key to_bytes
box_names = (refl, refl)

message_1001 :
    build_message (int (nonneg 1001)) (int (nonneg 1)) art genesis ≡ ok (layout 1001 1 art genesis)
unfolding build_message cell_key to_bytes
message_1001 = refl

message_bool :
    build_message (int (nonneg 1001)) (bool true) art genesis ≡ ok (layout 1001 1 art genesis)
unfolding build_message cell_key to_bytes
message_bool = refl

refusals :
    (build_message (bool true) (int (nonneg 1)) art genesis ≡ err bad_app_id)
    × (build_message other (int (nonneg 1)) art genesis ≡ err bad_app_id)
    × (build_message (int (nonneg 1)) (int (negative 0)) art genesis ≡ err bad_cell_id)
    × (build_message (int (nonneg 18446744073709551616)) (int (nonneg 1)) art genesis
        ≡ err bad_app_id)
unfolding build_message cell_key
refusals = (refl, refl, refl, refl)

build_message_fields_example :
    let m = layout 1001 1 art genesis in
    (length m ≡ 102)
    × (take 22 m ≡ domain_tag)
    × (int (nonneg 1001) ≡ int (nonneg (from_bytes (take 8 (drop 22 m)))))
    × (as_int (int (nonneg 1)) ≡ nonneg (from_bytes (take 8 (drop 30 m))))
    × (take 32 (drop 38 m) ≡ art)
    × (drop 70 m ≡ genesis)
build_message_fields_example =
    build_message_fields (int (nonneg 1001)) (int (nonneg 1)) art genesis
      (layout 1001 1 art genesis) message_1001

box_refs_1 : box_refs (int (nonneg 1)) ≡ ok (names_of 1)
unfolding box_refs committed_pubkey_box_name controlling_owner_box_name inscription_box_name
    cell_key
box_refs_1 = refl

box_refs_2 : box_refs (int (nonneg 2)) ≡ ok (names_of 2)
unfolding box_refs committed_pubkey_box_name controlling_owner_box_name inscription_box_name
    cell_key
box_refs_2 = refl

builders_differ_on_bool_example :
    (reference_build_message (int (nonneg 5)) (bool true) art genesis ≡ err bad_cell_id)
    × (build_message (int (nonneg 5)) (bool true) art genesis ≡ ok (layout 5 1 art genesis))
builders_differ_on_bool_example = builders_differ_on_bool 5 true art genesis (omega arith) refl refl

build_message_exactly_example :
    (build_message (int (nonneg 1001)) (int (nonneg 1)) art genesis
      ≡ ok (layout 1001 1 art genesis))
    ↔ ((a c : ℕ) × IsEncodable (int (nonneg 1001)) (int (nonneg 1)) art genesis a c
        × (layout 1001 1 art genesis ≡ layout a c art genesis))
build_message_exactly_example =
    build_message_exactly (int (nonneg 1001)) (int (nonneg 1)) art genesis
      (layout 1001 1 art genesis)
