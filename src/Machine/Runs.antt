-- ===== src/Machine/Runs.antt =====
-- One call computed from what its first part gives.
use trelyan_falcon_inscripti.Prelude.{ap, ◌∙◌, ◌≡◌, refl, Bool, true, false}
use trelyan_falcon_inscripti.Prelude.Result.{Result, ok, err}
use trelyan_falcon_inscripti.Exceptions.{Exception}
use trelyan_falcon_inscripti.Machine.{World, M, lift, ◌>>=◌, ◌>>◌, raise_unless, try_except}

module _ {S A B : Type 0} where
  pub run-lift :
      (r : Result Exception A) (f : A → M S B) (w : World S) (a : A)
      → r ≡ ok a
      → (lift r >>= f) w ≡ f a w
  run-lift (ok b) f w a e = let same : b ≡ a = cc in rw same refl
  run-lift (err x) f w a e = cc

  pub run-bind :
      (m : M S A) (f : A → M S B) (w : World S) (a : A) → (m w).0 ≡ ok a → (m >>= f) w ≡ f a (m w).1
  run-bind m f w a e = run-lift (m w).0 f (m w).1 a e

  pub run-lift_err :
      (r : Result Exception A) (f : A → M S B) (w : World S) (e : Exception)
      → r ≡ err e
      → (lift r >>= f) w ≡ (err e, w)
  run-lift_err (ok b) f w x e = cc
  run-lift_err (err y) f w x e = let same : y ≡ x = cc in rw same refl

  pub run-bind_err :
      (m : M S A) (f : A → M S B) (w : World S) (e : Exception)
      → (m w).0 ≡ err e
      → (m >>= f) w ≡ (err e, (m w).1)
  run-bind_err m f w x e = run-lift_err (m w).0 f (m w).1 x e

  pub run-bind_at :
      (m : M S A) (f : A → M S B) (w : World S) (a : A) (w' : World S)
      → m w ≡ (ok a, w')
      → (m >>= f) w ≡ f a w'
  run-bind_at m f w a w' e = run-bind m f w a (ap (λ p. p.0) e) ∙ ap (λ p. f a p.1) e

module _ {S A : Type 0} where
  pub run-check :
      (test : Bool) (x : Exception) (k : M S A) (w : World S)
      → test ≡ true
      → (raise_unless test x >> k) w ≡ k w
  run-check true x k w e = refl
  run-check false x k w e = cc

  lift-handler :
      (r : Result Exception A) (handler : M S A) (w : World S) (e : Exception)
      → r ≡ err e
      → try_except (lift r) handler w ≡ handler w
  lift-handler (ok a) handler w x e = cc
  lift-handler (err y) handler w x e = refl

  pub run-handler :
      (m handler : M S A) (w : World S) (e : Exception)
      → (m w).0 ≡ err e
      → try_except m handler w ≡ handler (m w).1
  run-handler m handler w x e = lift-handler (m w).0 handler (m w).1 x e

  lift-body :
      (r : Result Exception A) (handler : M S A) (w : World S) (a : A)
      → r ≡ ok a
      → try_except (lift r) handler w ≡ (ok a, w)
  lift-body (ok b) handler w a e = let same : b ≡ a = cc in rw same refl
  lift-body (err y) handler w a e = cc

  pub run-body :
      (m handler : M S A) (w : World S) (a : A)
      → (m w).0 ≡ ok a
      → try_except m handler w ≡ (ok a, (m w).1)
  run-body m handler w a e = lift-body (m w).0 handler (m w).1 a e

  pub run-handler_at :
      (m handler : M S A) (w : World S) (e : Exception) (w' : World S)
      → m w ≡ (err e, w')
      → try_except m handler w ≡ handler w'
  run-handler_at m handler w x w' e =
      run-handler m handler w x (ap (λ p. p.0) e) ∙ ap (λ p. handler p.1) e

  pub run-body_at :
      (m handler : M S A) (w : World S) (a : A) (w' : World S)
      → m w ≡ (ok a, w')
      → try_except m handler w ≡ (ok a, w')
  run-body_at m handler w a w' e =
      run-body m handler w a (ap (λ p. p.0) e) ∙ ap (λ p. (ok a, p.1)) e
