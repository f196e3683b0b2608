-- ===== src/Reviewer/Clean.antt =====
-- Parts of the script that count no failure and skip no check, and how they are put together.
use trelyan_falcon_inscripti.Prelude.{
  ◌≤◌, ◌≡◌, refl, ap, arith, Bool, true, false, Option, none, some,
}
use trelyan_falcon_inscripti.Prelude.Result.{Result, ok, err}
use trelyan_falcon_inscripti.Reviewer.{
  Tally, Script, Crash, pure, answer, then_run, check, not_checked, ◌>>=◌, ◌>>◌,
}

-- A run from t that returns a, with no new failure and no new skip.
pub record Clean {A : Type 0} (m : Script A) (t : Tally) (a : A) : Type 0 where
  pub returns : (m t).0 ≡ ok a
  pub no_failure : (m t).1.failed ≡ t.failed
  pub no_skip : (m t).1.not_checked ≡ t.not_checked

-- A part that never lowers a counter.
pub record Grows {A : Type 0} (m : Script A) : Type 0 where
  pub failed : (t : Tally) → t.failed ≤ (m t).1.failed
  pub not_checked : (t : Tally) → t.not_checked ≤ (m t).1.not_checked

module _ {A B : Type 0} (f : A → Script B) (grows : (a : A) → Grows (f a)) where
  then-failed : (r : Result Crash A) (t : Tally) → t.failed ≤ (then_run r f t).1.failed
  then-failed (ok a) t = let g = grows a in g.failed t
  then-failed (err e) t = omega arith

  then-not_checked :
      (r : Result Crash A) (t : Tally) → t.not_checked ≤ (then_run r f t).1.not_checked
  then-not_checked (ok a) t = let g = grows a in g.not_checked t
  then-not_checked (err e) t = omega arith

module _ {A B : Type 0} (m : Script A) (f : A → Script B) where
  pub Grows-bind : Grows m → ((a : A) → Grows (f a)) → Grows (m >>= f)
  Grows-bind g grows = record {
    failed = λ t. omega (arith, g.failed t, then-failed f grows (m t).0 (m t).1);
    not_checked = λ t. omega (arith, g.not_checked t, then-not_checked f grows (m t).0 (m t).1);
  }

module _ {A : Type 0} where
  pub Grows-pure : (a : A) → Grows (pure a)
  Grows-pure a = record { failed = λ t. omega arith; not_checked = λ t. omega arith }

  pub Grows-answer : (o : Option A) → Grows (answer o)
  Grows-answer none = record { failed = λ t. omega arith; not_checked = λ t. omega arith }
  Grows-answer (some a) = record { failed = λ t. omega arith; not_checked = λ t. omega arith }

pub Grows-check : (holds : Bool) → Grows (check holds)
unfolding check
Grows-check true = record { failed = λ t. omega arith; not_checked = λ t. omega arith }
Grows-check false = record { failed = λ t. omega arith; not_checked = λ t. omega arith }

pub Grows-not_checked : Grows not_checked
unfolding not_checked
Grows-not_checked = record { failed = λ t. omega arith; not_checked = λ t. omega arith }

pub ruleset growing = (Grows-bind, Grows-pure, Grows-answer, Grows-check, Grows-not_checked)

-- A clean run of two parts is a clean run of each.
module _ {A B : Type 0} (m : Script A) (f : A → Script B) (t : Tally) (b : B) where
  pub Clean-bind : (a : A) → Clean m t a → Clean (f a) (m t).1 b → Clean (m >>= f) t b
  Clean-bind a c d =
      let e = c.returns in
      record {
        returns = rw e d.returns;
        no_failure = rw e (omega (arith, c.no_failure, d.no_failure));
        no_skip = rw e (omega (arith, c.no_skip, d.no_skip));
      }

  then-parts :
      (r : Result Crash A) (u : Tally)
      → (then_run r f u).0 ≡ ok b
      → (a : A) × (r ≡ ok a) × (then_run r f u ≡ f a u)
  then-parts (ok a) u e = (a, refl, refl)
  then-parts (err x) u e = cc

  pub Clean-parts :
      Grows m
      → ((a : A) → Grows (f a))
      → Clean (m >>= f) t b
      → (a : A) × Clean m t a × Clean (f a) (m t).1 b
  Clean-parts g grows c =
      let (a, e, same) = then-parts (m t).0 (m t).1 c.returns in
      let rest = grows a in
      let end : (m >>= f) t ≡ f a (m t).1 = same in
      let failed : (f a (m t).1).1.failed ≡ t.failed =
        rw (← ap (λ p. p.1.failed) end) c.no_failure in
      let skipped : (f a (m t).1).1.not_checked ≡ t.not_checked =
        rw (← ap (λ p. p.1.not_checked) end) c.no_skip in
      (
        a,
        record {
          returns = e;
          no_failure = omega (arith, failed, g.failed t, rest.failed (m t).1);
          no_skip = omega (arith, skipped, g.not_checked t, rest.not_checked (m t).1);
        },
        record {
          returns = rw (← ap (λ p. p.0) end) c.returns;
          no_failure = omega (arith, failed, g.failed t, rest.failed (m t).1);
          no_skip = omega (arith, skipped, g.not_checked t, rest.not_checked (m t).1);
        },
      )

-- When one operation is clean.
module _ (t : Tally) where
  pub Clean-check : (holds : Bool) → holds ≡ true → Clean (check holds) t tt
  unfolding check
  Clean-check true e = record { returns = refl; no_failure = refl; no_skip = refl }
  Clean-check false e = cc

  pub checked : (holds : Bool) (u : Unit {0}) → Clean (check holds) t u → holds ≡ true
  unfolding check
  checked true u c = refl
  checked false u c = absurd (omega (arith, c.no_failure))

  pub unclean : (u : Unit {0}) → Clean not_checked t u → ⊥
  unfolding not_checked
  unclean u c = omega (arith, c.no_skip)

module _ {A : Type 0} (t : Tally) (a : A) where
  pub Clean-pure : Clean (pure a) t a
  Clean-pure = record { returns = refl; no_failure = refl; no_skip = refl }

  pub Clean-answer : (o : Option A) → o ≡ some a → Clean (answer o) t a
  Clean-answer none e = cc
  Clean-answer (some b) e = record {
    returns = let same : b ≡ a = cc in ap ok same;
    no_failure = refl;
    no_skip = refl;
  }

  pub answered : (o : Option A) → Clean (answer o) t a → o ≡ some a
  answered none c = let e = c.returns in cc
  answered (some b) c = let e = c.returns in cc

-- The same, for a part that begins with one operation.
module _ {B : Type 0} (b : B) where
  pub check-then :
      (holds : Bool) (k : Script B)
      → holds ≡ true
      → ((u : Tally) → Clean k u b)
      → (t : Tally) → Clean (check holds >> k) t b
  check-then holds k e c t =
      Clean-bind (check holds) (λ _. k) t b tt (Clean-check t holds e) (c (check holds t).1)

  pub check-then_parts :
      (holds : Bool) (k : Script B) (t : Tally)
      → Grows k
      → Clean (check holds >> k) t b
      → (holds ≡ true) × (u : Tally) × Clean k u b
  check-then_parts holds k t g c =
      let (a, d, rest) = Clean-parts (check holds) (λ _. k) t b (Grows-check holds) (λ _. g) c in
      (checked t holds a d, (check holds t).1, rest)

module _ {A B : Type 0} (b : B) (o : Option A) (f : A → Script B) where
  pub answer-then :
      (a : A)
      → o ≡ some a
      → ((u : Tally) → Clean (f a) u b)
      → (t : Tally) → Clean (answer o >>= f) t b
  answer-then a e c t = Clean-bind (answer o) f t b a (Clean-answer t a o e) (c (answer o t).1)

  pub answer-then_parts :
      (t : Tally)
      → ((a : A) → Grows (f a))
      → Clean (answer o >>= f) t b
      → (a : A) × (o ≡ some a) × (u : Tally) × Clean (f a) u b
  answer-then_parts t g c =
      let (a, d, rest) = Clean-parts (answer o) f t b (Grows-answer o) g c in
      (a, answered t a o d, (answer o t).1, rest)

module _ {A B : Type 0} (b : B) (m : Script A) (f : A → Script B) where
  pub part-then :
      (a : A)
      → ((u : Tally) → Clean m u a)
      → ((u : Tally) → Clean (f a) u b)
      → (t : Tally) → Clean (m >>= f) t b
  part-then a c d t = Clean-bind m f t b a (c t) (d (m t).1)
