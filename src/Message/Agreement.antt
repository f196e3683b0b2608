-- ===== src/Message/Agreement.antt =====
-- The two builders of the signed message, in message.py and in contracts/falcon_det1024.py.
use trelyan_falcon_inscripti.Prelude.{
  ℕ, ◌^◌, ◌<◌, ◌≡◌, refl, Bool, true, false, length, arith, if◌then◌else◌,
}
use trelyan_falcon_inscripti.Prelude.Bytes.{Bytes}
use trelyan_falcon_inscripti.Prelude.Result.{ok, err, to_option}
use trelyan_falcon_inscripti.Exceptions.{bad_cell_id}
use trelyan_falcon_inscripti.Message.{
  PyValue, int, bool, other, nonneg, negative, is_bool, cell_key, build_message,
  reference_build_message,
}
use trelyan_falcon_inscripti.Message.Layout.{layout, length-layout}

-- For every cell id that is no bool, the two builders return the same message or both raise.
pub builders_agree :
    (v w : PyValue) (h g : Bytes)
    → is_bool w ≡ false
    → to_option (build_message v w h g) ≡ to_option (reference_build_message v w h g)
unfolding build_message reference_build_message cell_key
builders_agree (int (nonneg a)) (int (nonneg c)) h g e = ground (arith, length-layout a c h g)
builders_agree (int (nonneg a)) (int (negative c)) h g e = ground arith
builders_agree (int (nonneg a)) (bool b) h g e = cc
builders_agree (int (nonneg a)) other h g e = ground arith
builders_agree (int (negative a)) w h g e = refl
builders_agree (bool b) w h g e = refl
builders_agree other w h g e = refl

-- On a bool for the cell id they differ: with an app id in range and hashes of 32 bytes, the builder of
-- contracts/falcon_det1024.py raises, and that of message.py returns the message of cell 1 or 0.
pub builders_differ_on_bool :
    (a : ℕ) (b : Bool) (h g : Bytes)
    → a < 2 ^ 64
    → length h ≡ 32
    → length g ≡ 32
    → (reference_build_message (int (nonneg a)) (bool b) h g ≡ err bad_cell_id)
      × (build_message (int (nonneg a)) (bool b) h g ≡ ok (layout a (if b then 1 else 0) h g))
unfolding build_message reference_build_message cell_key
builders_differ_on_bool a true h g ha hh hg = (ground arith, ground (arith, length-layout a 1 h g))
builders_differ_on_bool a false h g ha hh hg = (ground arith, ground (arith, length-layout a 0 h g))
