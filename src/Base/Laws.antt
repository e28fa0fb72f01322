-- ===== src/Base/Laws.antt =====
-- Laws of the queries and writes on tables.
use Prim.Native.Nat.{◌+◌, ◌≤◌}
use mathlib.Core.Path.{◌≡◌, refl}
use mathlib.Core.Bool.{Bool, true, false}
use mathlib.Core.Option.{Option, none, some}
use mathlib.Core.List.{List, [], ◌∷◌, ◌++◌}
use native.Mathlib.Omega.{arith}
use cloud_swe.Base.Tests.{if◌then◌else◌}
use cloud_swe.Base.Rows.{find, select, any, update, delete, count, length}

-- What `update q f` makes of one row.
abbrev pub rewritten {ℓ} : {A : Type ℓ} → (A → Bool) → (A → A) → A → A
rewritten q f x = if q x then f x else x

abbrev pub map_option {ℓ κ} : {A : Type ℓ} {B : Type κ} → (A → B) → Option A → Option B
map_option f none = none
map_option f (some a) = some (f a)

-- The first of two searches that finds a row.
abbrev pub first_of {ℓ} : {A : Type ℓ} → Option A → Option A → Option A
first_of none o = o
first_of (some a) o = some a

-- A predicate holds of each row.
abbrev pub All {ℓ κ} : {A : Type ℓ} → (A → Type κ) → List A → Type κ
All P [] = Unit
All P (x ∷ xs) = P x × All P xs

module _ {ℓ} {A : Type ℓ} where
  pub find-append :
      (p : A → Bool) (xs ys : List A) → find p (xs ++ ys) ≡ first_of (find p xs) (find p ys)
  unfolding find
  find-append p [] ys = refl
  find-append p (x ∷ xs) ys = ground (arith, find-append p xs ys)

  pub any-append :
      (p : A → Bool) (xs ys : List A) → any p (xs ++ ys) ≡ (if any p xs then true else any p ys)
  unfolding any
  any-append p [] ys = refl
  any-append p (x ∷ xs) ys = ground (arith, any-append p xs ys)

  pub select-append :
      (p : A → Bool) (xs ys : List A) → select p (xs ++ ys) ≡ select p xs ++ select p ys
  unfolding select
  select-append p [] ys = refl
  select-append p (x ∷ xs) ys = ground (arith, select-append p xs ys)

  pub count-append : (p : A → Bool) (xs ys : List A) → count p (xs ++ ys) ≡ count p xs + count p ys
  unfolding count
  count-append p [] ys = omega arith
  count-append p (x ∷ xs) ys = ground (arith, count-append p xs ys)

  -- An update that does not change what the search tests.
  pub find-update :
      (p q : A → Bool) (f : A → A) (xs : List A)
      → ((x : A) → p (f x) ≡ p x)
      → find p (update q f xs) ≡ map_option (rewritten q f) (find p xs)
  unfolding find update
  find-update p q f [] h = refl
  find-update p q f (x ∷ xs) h = ground (arith, h x, find-update p q f xs h)

  pub select-none : (p : A → Bool) (xs : List A) → any p xs ≡ false → select p xs ≡ []
  unfolding select any
  select-none p [] h = refl
  select-none p (x ∷ xs) h = ground (arith, select-none p xs)

  pub find-p : (p : A → Bool) (xs : List A) {a : A} → find p xs ≡ some a → p a ≡ true
  unfolding find
  find-p p [] h = cc
  find-p p (x ∷ xs) {a} h = ground (arith, find-p p xs {a = a})

  pub find-none : (p : A → Bool) (xs : List A) → find p xs ≡ none → any p xs ≡ false
  unfolding find any
  find-none p [] h = refl
  find-none p (x ∷ xs) h = ground (arith, find-none p xs)

  pub none_matches : (p : A → Bool) (xs : List A) → any p xs ≡ false → find p xs ≡ none
  unfolding find any
  none_matches p [] h = refl
  none_matches p (x ∷ xs) h = ground (arith, none_matches p xs)

  -- Two tests that agree on every row.
  pub any-congr : (p q : A → Bool) (xs : List A) → All (λ x. p x ≡ q x) xs → any p xs ≡ any q xs
  unfolding any
  any-congr p q [] h = refl
  any-congr p q (x ∷ xs) h = ground (arith, any-congr p q xs h.1)

  pub length-select : (p : A → Bool) (xs : List A) → length (select p xs) ≡ count p xs
  unfolding select count
  length-select p [] = refl
  length-select p (x ∷ xs) = ground (arith, length-select p xs)

  -- An update that leaves the test of each row as it is.
  pub count-update :
      (p q : A → Bool) (f : A → A) (xs : List A)
      → ((x : A) → q x ≡ true → p (f x) ≡ p x)
      → count p (update q f xs) ≡ count p xs
  unfolding count update
  count-update p q f [] h = refl
  count-update p q f (x ∷ xs) h = ground (arith, h x, count-update p q f xs h)

  pub any-update :
      (p q : A → Bool) (f : A → A) (xs : List A)
      → ((x : A) → q x ≡ true → p (f x) ≡ p x)
      → any p (update q f xs) ≡ any p xs
  unfolding any update
  any-update p q f [] h = refl
  any-update p q f (x ∷ xs) h = ground (arith, h x, any-update p q f xs h)

  -- An update that only takes rows out of the test.
  pub count-update-le :
      (p q : A → Bool) (f : A → A) (xs : List A)
      → ((x : A) → q x ≡ true → p (f x) ≡ true → p x ≡ true)
      → count p (update q f xs) ≤ count p xs
  unfolding count update
  count-update-le p q f [] h = omega arith
  count-update-le p q f (x ∷ xs) h = ground (arith, h x, count-update-le p q f xs h)

  pub count-delete : (p q : A → Bool) (xs : List A) → count p (delete q xs) ≤ count p xs
  unfolding count delete
  count-delete p q [] = omega arith
  count-delete p q (x ∷ xs) = ground (arith, count-delete p q xs)

  pub any-delete_self : (p : A → Bool) (xs : List A) → any p (delete p xs) ≡ false
  unfolding any delete
  any-delete_self p [] = refl
  any-delete_self p (x ∷ xs) = ground (arith, any-delete_self p xs)

  pub any-count : (p : A → Bool) (xs : List A) → any p xs ≡ false → count p xs ≡ 0
  unfolding any count
  any-count p [] h = refl
  any-count p (x ∷ xs) h = ground (arith, any-count p xs)

  pub count-none : (p : A → Bool) (xs : List A) → count p xs ≡ 0 → find p xs ≡ none
  unfolding find count
  count-none p [] h = refl
  count-none p (x ∷ xs) h = ground (arith, count-none p xs)

  pub update_unmatched :
      (q : A → Bool) (f : A → A) (xs : List A) → count q xs ≡ 0 → update q f xs ≡ xs
  unfolding count update
  update_unmatched q f [] h = refl
  update_unmatched q f (x ∷ xs) h = ground (arith, update_unmatched q f xs)

  -- One row meets `q`, and rewriting it does not bring it into `p`.
  pub count-update_one :
      (p q : A → Bool) (f : A → A) (xs : List A) (c : A)
      → count q xs ≤ 1
      → find q xs ≡ some c
      → (p (f c) ≡ true → p c ≡ true)
      → count p (update q f xs) ≤ count p xs
  unfolding count update find
  count-update_one p q f [] c one found keep = cc
  count-update_one p q f (x ∷ xs) c one found keep =
      ground (arith, count-update_one p q f xs c, update_unmatched q f xs)
