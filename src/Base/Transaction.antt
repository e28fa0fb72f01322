-- ===== src/Base/Transaction.antt =====
-- A transaction: it returns a value and the new state, or it throws and the state is rolled back.
use mathlib.Core.Bool.{Bool, true, false}
use mathlib.Core.Option.{Option, none, some}
use mathlib.Core.List.{List, [], ◌∷◌}

pub data Result (E A : Type 0) : Type 0 where
  ok : A → Result E A
  err : E → Result E A

abbrev pub Tx : Type 0 → Type 0 → Type 0 → Type 0
Tx E S A = S → Result E (A × S)

module _ {E S : Type 0} where
  unfoldable pub pure : {A : Type 0} → A → Tx E S A
  pure a s = ok (a, s)

  unfoldable pub fail : {A : Type 0} → E → Tx E S A
  fail e s = err e

  unfoldable pub gets : {A : Type 0} → (S → A) → Tx E S A
  gets f s = ok (f s, s)

  unfoldable pub modify : (S → S) → Tx E S (Unit {0})
  modify f s = ok (tt, f s)

  unfoldable pub fail_if : Bool → E → Tx E S (Unit {0})
  fail_if true e s = err e
  fail_if false e s = ok (tt, s)

  -- The row, or the error that the code throws where the row is missing.
  unfoldable pub require : {A : Type 0} → Option A → E → Tx E S A
  require none e s = err e
  require (some a) e s = ok (a, s)

  abbrev pub continue : {A B : Type 0} → Result E (A × S) → (A → Tx E S B) → Result E (B × S)
  continue (ok (a, s)) f = f a s
  continue (err e) f = err e

  infixl 5 ◌>>=◌ ◌>>◌
  -- To unfold this is to unfold the other actions too.
  unfoldable pub ◌>>=◌ : {A B : Type 0} → Tx E S A → (A → Tx E S B) → Tx E S B
  unfolding pure fail gets modify fail_if require
  ◌>>=◌ m f s = continue (m s) f

  abbrev pub ◌>>◌ : {A B : Type 0} → Tx E S A → Tx E S B → Tx E S B
  m >> k = m >>= λ _. k

  -- A loop over the rows of a query.
  unfoldable pub for_each : {A : Type 0} → List A → (A → Tx E S (Unit {0})) → Tx E S (Unit {0})
  for_each [] f = pure tt
  for_each (x ∷ xs) f = f x >> for_each xs f
