-- ===== src/Http.antt =====
-- The shape of a service method: it reads and writes a state, and answers or raises an
-- `HTTPException`, which is its status and its detail. A raise undoes no write.
pub mod Keeps
use nivara.Prelude.{ℕ, String, Bool, true, false, Option, none, some}

pub data HttpError : Type 0 where
  http : ℕ → String → HttpError

pub data Result (A : Type 0) : Type 0 where
  ok : A → Result A
  err : HttpError → Result A

abbrev pub Action : Type 0 → Type 0 → Type 0
Action S A = S → Result A × S

module _ {S A : Type 0} where
  pub pure : A → Action S A
  pure a s = (ok a, s)

  pub raise : HttpError → Action S A
  raise e s = (err e, s)

  pub gets : (S → A) → Action S A
  gets f s = (ok (f s), s)

  -- `if value is None: raise error`
  pub or_raise : Option A → HttpError → Action S A
  unfolding raise pure
  or_raise none e = raise e
  or_raise (some a) e = pure a

module _ {S : Type 0} where
  pub modify : (S → S) → Action S Unit
  modify f s = (ok tt, f s)

  -- `if test: raise error`
  pub raise_if : Bool → HttpError → Action S Unit
  unfolding raise pure
  raise_if true e = raise e
  raise_if false e = pure tt

module _ {S A B : Type 0} where
  abbrev pub continue : Result A → (A → Action S B) → Action S B
  continue (ok a) f s = f a s
  continue (err e) f s = (err e, s)

  infixl 5 ◌>>=◌ ◌>>◌
  -- A proof that unfolds the bind sees through every action above.
  unfoldable pub ◌>>=◌ : Action S A → (A → Action S B) → Action S B
  unfolding pure raise gets modify raise_if or_raise
  ◌>>=◌ m f s = let (r, s') = m s in continue r f s'

  abbrev pub ◌>>◌ : Action S A → Action S B → Action S B
  m >> k = m >>= λ _. k
