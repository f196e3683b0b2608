-- ===== src/Machine/Triples.antt =====
-- What holds after a call that started where a condition held: one condition for its return, on the
-- value and the world, and one for its raise, on the world.
use trelyan_falcon_inscripti.Prelude.{◌≡◌, refl, Bool, true, false, if◌then◌else◌, inl, inr}
use trelyan_falcon_inscripti.Prelude.Result.{Result, ok, err, Result-cases}
use trelyan_falcon_inscripti.Exceptions.{Exception}
use trelyan_falcon_inscripti.Machine.{
  try_except, reraise, World, M, pure, raise, lift, finally, ◌>>=◌, raise_unless, modify,
}
use trelyan_falcon_inscripti.Machine.Leaves.{Leaves}

abbrev pub Post :
    {S A : Type 0}
    → (A → World S → Type 0)
    → (World S → Type 0)
    → Result Exception A
    → World S
    → Type 0
Post returned raised (ok a) w = returned a w
Post returned raised (err e) w = raised w

module _ {S A : Type 0} (before : World S → Type 0) (m : M S A) (returned : A → World S → Type 0)
    (raised : World S → Type 0) where
  pub record Triple : Type 0 where
    pub run : (w : World S) → before w → Post returned raised (m w).0 (m w).1

module _ {S A B : Type 0} {Q : A → World S → Type 0} {R : B → World S → Type 0}
    {E : World S → Type 0} where
  rest-Triple :
      (r : Result Exception A) (w : World S) (f : A → M S B)
      → Post Q E r w
      → ((a : A) → Triple (Q a) (f a) R E)
      → Post R E ((lift r >>= f) w).0 ((lift r >>= f) w).1
  rest-Triple (ok a) w f q t = let ta = t a in ta.run w q
  rest-Triple (err e) w f q t = q

module _ {S A : Type 0} (Q : A → World S → Type 0) (E : World S → Type 0) where
  Post-ok : (r : Result Exception A) (w : World S) (a : A) → Post Q E r w → r ≡ ok a → Q a w
  Post-ok (ok b) w a q h = let e : b ≡ a = cc in rw (← e) q
  Post-ok (err x) w a q h = cc

  Post-err : (r : Result Exception A) (w : World S) (x : Exception) → Post Q E r w → r ≡ err x → E w
  Post-err (ok b) w x q h = cc
  Post-err (err y) w x q h = q

module _ {S A B : Type 0} {P : World S → Type 0} {Q : A → World S → Type 0}
    {R : B → World S → Type 0} {E : World S → Type 0} where
  pub Triple-bind :
      (m : M S A) (f : A → M S B)
      → Triple P m Q E
      → ((a : A) → Triple (Q a) (f a) R E)
      → Triple P (m >>= f) R E
  Triple-bind m f tm tf = record { run = λ w p. rest-Triple (m w).0 (m w).1 f (tm.run w p) tf }

module _ {S A : Type 0} {P : World S → Type 0} {Q : A → World S → Type 0}
    {E : World S → Type 0} where
  -- from what holds on every result of a call
  pub Triple-results :
      (m : M S A)
      → ((w : World S) (a : A) → P w → (m w).0 ≡ ok a → Q a (m w).1)
      → ((w : World S) (e : Exception) → P w → (m w).0 ≡ err e → E (m w).1)
      → Triple P m Q E
  Triple-results m q e = record {
    run = λ w p. by_result (m w).0 (m w).1 (λ a. q w a p) (λ x. e w x p);
  }
    where
      by_result :
          (r : Result Exception A) (w : World S)
          → ((a : A) → r ≡ ok a → Q a w)
          → ((x : Exception) → r ≡ err x → E w)
          → Post Q E r w
      by_result (ok a) w q e = q a refl
      by_result (err x) w q e = e x refl

  pub Triple-ok :
      (m : M S A) (t : Triple P m Q E) (w : World S) (a : A) → P w → (m w).0 ≡ ok a → Q a (m w).1
  Triple-ok m t w a p h = Post-ok Q E (m w).0 (m w).1 a (t.run w p) h

  pub Triple-err :
      (m : M S A) (t : Triple P m Q E) (w : World S) (e : Exception)
      → P w
      → (m w).0 ≡ err e
      → E (m w).1
  Triple-err m t w e p h = Post-err Q E (m w).0 (m w).1 e (t.run w p) h

  pub Triple-pure : (a : A) → ((w : World S) → P w → Q a w) → Triple P (pure a) Q E
  Triple-pure a q = record { run = q }

  pub Triple-raise : (e : Exception) → ((w : World S) → P w → E w) → Triple P (raise {A = A} e) Q E
  Triple-raise e q = record { run = q }

  pub Triple-if :
      (test : Bool) (m n : M S A)
      → Triple P m Q E
      → Triple P n Q E
      → Triple P (if test then m else n) Q E
  Triple-if true m n tm tn = tm
  Triple-if false m n tm tn = tn

  -- a cleanup that runs on every result
  pub Triple-finally :
      (body : M S A) (cleanup : World S → World S) (Q' : A → World S → Type 0)
      (E' : World S → Type 0)
      → Triple P body Q' E'
      → ((a : A) (w : World S) → Q' a w → Q a (cleanup w))
      → ((w : World S) → E' w → E (cleanup w))
      → Triple P (finally body cleanup) Q E
  Triple-finally body cleanup Q' E' t q e = record {
    run = λ w p. by_result (body w).0 (body w).1 (t.run w p);
  }
    where
      by_result : (r : Result Exception A) (w : World S) → Post Q' E' r w → Post Q E r (cleanup w)
      by_result (ok a) w h = q a w h
      by_result (err x) w h = e w h

  pub Triple-weaken :
      {P' : World S → Type 0} {Q' : A → World S → Type 0} {E' : World S → Type 0} (m : M S A)
      → ((w : World S) → P' w → P w)
      → Triple P m Q E
      → ((a : A) (w : World S) → Q a w → Q' a w)
      → ((w : World S) → E w → E' w)
      → Triple P' m Q' E'
  Triple-weaken {Q' = Q'} {E' = E'} m p t q e = record {
    run = λ w h. by_result (m w).0 (m w).1 (t.run w (p w h));
  }
    where
      by_result : (r : Result Exception A) (w : World S) → Post Q E r w → Post Q' E' r w
      by_result (ok a) w h = q a w h
      by_result (err x) w h = e w h

module _ {S X A : Type 0} {part : World S → X} (P : X → Type 0) where
  -- a call that leaves a part alone keeps what holds of the part
  pub Leaves-Triple :
      (m : M S A) → Leaves part m → Triple (λ w. P (part w)) m (λ _ w. P (part w)) (λ w. P (part w))
  Leaves-Triple m l = Triple-results m (λ w a p h. rw (l.at w) p) (λ w e p h. rw (l.at w) p)

module _ {S : Type 0} {Q E : World S → Type 0} where
  pub Triple-raise_unless :
      (test : Bool) (e : Exception)
      → Triple (λ w. (test ≡ true → Q w) × (test ≡ false → E w)) (raise_unless test e) (λ _. Q) E
  Triple-raise_unless true e = record { run = λ w p. p.0 refl }
  Triple-raise_unless false e = record { run = λ w p. p.1 refl }

  pub Triple-modify :
      {P : World S → Type 0} (f : World S → World S)
      → ((w : World S) → P w → Q (f w))
      → Triple P (modify f) (λ _. Q) E
  Triple-modify f q = record { run = q }

module _ {S : Type 0} {P : World S → Type 0} where
  pub Triple-check :
      (test : Bool) (e : Exception) → Triple P (raise_unless test e) (λ _ w. P w × (test ≡ true)) P
  Triple-check true e = record { run = λ w p. (p, refl) }
  Triple-check false e = record { run = λ w p. p }

module _ {S A : Type 0} {P E : World S → Type 0} where
  pub Triple-always : (m : M S A) (w : World S) → Triple P m (λ _. E) E → P w → E (m w).1
  Triple-always m w t p = by_result (m w).0 (m w).1 (t.run w p)
    where
      by_result : (r : Result Exception A) (w : World S) → Post (λ _. E) E r w → E w
      by_result (ok a) w h = h
      by_result (err e) w h = h

module _ {S A : Type 0} {P : World S → Type 0} where
  pub Triple-lift : (r : Result Exception A) → Triple P (lift r) (λ a w. P w × (r ≡ ok a)) P
  Triple-lift r = Triple-results (lift r) (λ w a p h. (p, h)) (λ w e p h. p)

  -- what does not speak of the world may be assumed for the whole call
  pub Triple-assume :
      {Q : A → World S → Type 0} {E : World S → Type 0} {φ : Type 0} (m : M S A)
      → (φ → Triple P m Q E)
      → Triple (λ w. P w × φ) m Q E
  Triple-assume m t = record { run = λ w p. let tp = t p.1 in tp.run w p.0 }

module _ {S : Type 0} {P : World S → Type 0} {E : World S → Type 0} where
  pub Triple-pass :
      (test : Bool) (e : Exception) → test ≡ true → Triple P (raise_unless test e) (λ _. P) E
  Triple-pass true e h = record { run = λ w p. p }
  Triple-pass false e h = cc

module _ {S A : Type 0} {P : World S → Type 0} {Q : A → World S → Type 0}
    {E : World S → Type 0} where
  pub Triple-reraise :
      (m : M S A) (handler : Exception → Exception)
      → Triple P m Q E
      → Triple P (reraise m handler) Q E
  Triple-reraise m handler t = record { run = λ w p. by_result (m w).0 (m w).1 (t.run w p) }
    where
      by_result :
          (r : Result Exception A) (w : World S)
          → Post Q E r w
          → Post Q E (reraise (λ _. (r, w)) handler w).0 w
      by_result (ok a) w q = q
      by_result (err x) w q = q

module _ {S A : Type 0} {P : World S → Type 0} {Q : A → World S → Type 0}
    {E : World S → Type 0} where
  -- a handler that starts where the body has raised
  pub Triple-try_except :
      (E' : World S → Type 0) (body handler : M S A)
      → Triple P body Q E'
      → Triple E' handler Q E
      → Triple P (try_except body handler) Q E
  Triple-try_except E' body handler t th = record {
    run = λ w p. by_result (body w).0 (body w).1 (t.run w p);
  }
    where
      by_result :
          (r : Result Exception A) (w : World S)
          → Post Q E' r w
          → Post Q E (try_except (lift r) handler w).0 (try_except (lift r) handler w).1
      by_result (ok a) w q = q
      by_result (err x) w q = th.run w q

-- A call that cannot raise returns.
pub Triple-returns :
    {S A : Type 0} {P : World S → Type 0} {Q : A → World S → Type 0} (m : M S A)
    → Triple P m Q (λ _. ⊥)
    → (w : World S) → P w
    → (a : A) × ((m w).0 ≡ ok a) × Q a (m w).1
Triple-returns m t w p = elim (Result-cases (m w).0) [
  | inl (a, h) ↦ (a, h, Triple-ok m t w a p h)
  | inr (e, h) ↦ absurd (Triple-err m t w e p h)
]
