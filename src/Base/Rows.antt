-- ===== src/Base/Rows.antt =====
-- A table is a list of rows in the order of their insertion, with the queries that a store makes.
use Prim.Native.Nat.{ℕ, suc}
use native.Mathlib.Omega.{arith}
use mathlib.Core.Path.{◌≡◌, refl}
use mathlib.Core.Bool.{Bool, true, false}
use mathlib.Core.Option.{Option, none, some}
use mathlib.Core.List.{List, [], ◌∷◌}
use cloud_swe.Base.Tests.{◌==◌, if◌then◌else◌}

-- `JSON.stringify(a) === JSON.stringify(b)`, and `===` of two texts.
abbrev pub same_numbers : List ℕ → List ℕ → Bool
same_numbers [] [] = true
same_numbers [] (y ∷ ys) = false
same_numbers (x ∷ xs) [] = false
same_numbers (x ∷ xs) (y ∷ ys) = if x == y then same_numbers xs ys else false

pub same_numbers_refl : (xs : List ℕ) → same_numbers xs xs ≡ true
same_numbers_refl [] = refl
same_numbers_refl (x ∷ xs) = ground (arith, same_numbers_refl xs)

-- `new Set(ids).size !== ids.length`
unfoldable pub contains : ℕ → List ℕ → Bool
contains n [] = false
contains n (x ∷ xs) = if x == n then true else contains n xs

unfoldable pub has_duplicate : List ℕ → Bool
unfolding contains
has_duplicate [] = false
has_duplicate (x ∷ xs) = if contains x xs then true else has_duplicate xs

module _ {ℓ} {A : Type ℓ} where
  abbrev pub length : List A → ℕ
  length [] = 0
  length (x ∷ xs) = suc (length xs)

  -- `select().where(p).limit(1)`
  unfoldable pub find : (A → Bool) → List A → Option A
  find p [] = none
  find p (x ∷ xs) = if p x then some x else find p xs

  -- `select().where(p)`
  unfoldable pub select : (A → Bool) → List A → List A
  select p [] = []
  select p (x ∷ xs) = if p x then x ∷ select p xs else select p xs

  unfoldable pub any : (A → Bool) → List A → Bool
  any p [] = false
  any p (x ∷ xs) = if p x then true else any p xs

  -- `update().set(f).where(p)`
  unfoldable pub update : (A → Bool) → (A → A) → List A → List A
  update p f [] = []
  update p f (x ∷ xs) = (if p x then f x else x) ∷ update p f xs

  -- `delete().where(p)`
  unfoldable pub delete : (A → Bool) → List A → List A
  delete p [] = []
  delete p (x ∷ xs) = if p x then delete p xs else x ∷ delete p xs

  -- `select({ count: count(*) }).where(p)`
  unfoldable pub count : (A → Bool) → List A → ℕ
  count p [] = 0
  count p (x ∷ xs) = if p x then suc (count p xs) else count p xs
