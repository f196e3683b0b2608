-- ===== src/Machine/Leaves.antt =====
-- Calls that leave a part of the world alone, whether they return or raise: one rule for each way to
-- build a call.
use trelyan_falcon_inscripti.Prelude.{◌≡◌, refl, ◌∙◌, Bool, true, false, if◌then◌else◌}
use trelyan_falcon_inscripti.Prelude.Result.{Result, ok, err}
use trelyan_falcon_inscripti.Exceptions.{Exception}
use trelyan_falcon_inscripti.Machine.{World, M, pure, raise, lift, ◌>>=◌, raise_unless}

module _ {S X A : Type 0} (part : World S → X) where
  pub record Leaves (m : M S A) : Type 0 where
    pub at : (w : World S) → part (m w).1 ≡ part w

module _ {S X A : Type 0} {part : World S → X} where
  pub Leaves-pure : (a : A) → Leaves part (pure a)
  Leaves-pure a = record { at = λ w. refl }

  pub Leaves-raise : (e : Exception) → Leaves part (raise {A = A} e)
  Leaves-raise e = record { at = λ w. refl }

  pub Leaves-lift : (r : Result Exception A) → Leaves part (lift r)
  Leaves-lift r = record { at = λ w. refl }

  pub Leaves-if :
      (test : Bool) (m n : M S A)
      → Leaves part m
      → Leaves part n
      → Leaves part (if test then m else n)
  Leaves-if true m n lm ln = lm
  Leaves-if false m n lm ln = ln

pub Leaves-raise_unless :
    {S X : Type 0} {part : World S → X} (test : Bool) (e : Exception)
    → Leaves part (raise_unless {S = S} test e)
Leaves-raise_unless test e = record { at = λ w. refl }

module _ {S X A B : Type 0} {part : World S → X} where
  -- the rest of a chain, from the result of its first call
  rest-Leaves :
      (r : Result Exception A) (f : A → M S B) (w : World S)
      → ((a : A) → Leaves part (f a))
      → part ((lift r >>= f) w).1 ≡ part w
  rest-Leaves (ok a) f w l = let la = l a in la.at w
  rest-Leaves (err e) f w l = refl

  pub Leaves-bind :
      (m : M S A) (f : A → M S B)
      → Leaves part m
      → ((a : A) → Leaves part (f a))
      → Leaves part (m >>= f)
  Leaves-bind m f lm lf = record { at = λ w. rest-Leaves (m w).0 f (m w).1 lf ∙ lm.at w }
