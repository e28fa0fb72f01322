-- ===== src/Base/Rewrites.antt =====
-- Laws of what a query finds after a write to one row, and among selected rows.
use Prim.Native.Nat.{◌≤◌, suc}
use mathlib.Core.Path.{◌≡◌, refl}
use mathlib.Core.Bool.{Bool, true, false, ◌&&◌}
use mathlib.Core.Option.{none, some}
use mathlib.Core.List.{List, [], ◌∷◌, ◌++◌}
use native.Mathlib.Omega.{arith}
use cloud_swe.Base.Rows.{find, select, any, update, delete, count}
use cloud_swe.Base.Laws.{update_unmatched}

module _ {ℓ} {A : Type ℓ} where
  find-delete-none : (p q : A → Bool) (xs : List A) → count p xs ≡ 0 → find p (delete q xs) ≡ none
  unfolding count find delete
  find-delete-none p q [] h = refl
  find-delete-none p q (x ∷ xs) h = ground (arith, find-delete-none p q xs)

  -- With one such row at most, deleting others does not bring a second to light.
  pub find-delete_one :
      (p q : A → Bool) (xs : List A) {a : A}
      → count p xs ≤ 1
      → find p (delete q xs) ≡ some a
      → find p xs ≡ some a
  unfolding count find delete
  find-delete_one p q [] one h = h
  find-delete_one p q (x ∷ xs) {a} one h =
      ground (arith, find-delete_one p q xs {a = a}, find-delete-none p q xs)

  count-zero_find :
      (p q : A → Bool) (xs : List A)
      → ((x : A) → q x ≡ true → p x ≡ true)
      → count p xs ≡ 0
      → find q xs ≡ none
  unfolding count find
  count-zero_find p q [] h none_there = refl
  count-zero_find p q (x ∷ xs) h none_there = ground (arith, h x, count-zero_find p q xs h)

  -- With one row at most that meets `p`, a stronger test finds that row or none.
  pub find-stronger :
      (p q : A → Bool) (xs : List A) {a : A}
      → ((x : A) → q x ≡ true → p x ≡ true)
      → count p xs ≤ 1
      → find q xs ≡ some a
      → find p xs ≡ some a
  unfolding count find
  find-stronger p q [] h one found = cc
  find-stronger p q (x ∷ xs) {a} h one found =
      ground (arith, h x, find-stronger p q xs {a = a} h, count-zero_find p q xs h)

  pub any-select : (p q : A → Bool) (xs : List A) → any p (select q xs) ≡ any (λ x. q x && p x) xs
  unfolding any select
  any-select p q [] = refl
  any-select p q (x ∷ xs) = ground (arith, any-select p q xs)

  pub count-select :
      (p q : A → Bool) (xs : List A) → count p (select q xs) ≡ count (λ x. q x && p x) xs
  unfolding count select
  count-select p q [] = refl
  count-select p q (x ∷ xs) = ground (arith, count-select p q xs)

  pub find-select :
      (p q : A → Bool) (xs : List A) {a : A} → find p (select q xs) ≡ some a → q a ≡ true
  unfolding find select
  find-select p q [] h = cc
  find-select p q (x ∷ xs) {a} h = ground (arith, find-select p q xs {a = a})

  -- A write to one row adds one row to a test at most.
  pub count-update-suc :
      (p q : A → Bool) (f : A → A) (xs : List A)
      → count q xs ≤ 1
      → count p (update q f xs) ≤ suc (count p xs)
  unfolding count update
  count-update-suc p q f [] one = omega arith
  count-update-suc p q f (x ∷ xs) one =
      ground (arith, count-update-suc p q f xs, update_unmatched q f xs)

  pub any-weaker :
      (p q : A → Bool) (xs : List A)
      → ((x : A) → p x ≡ true → q x ≡ true)
      → any q xs ≡ false
      → any p xs ≡ false
  unfolding any
  any-weaker p q [] h none_there = refl
  any-weaker p q (x ∷ xs) h none_there = ground (arith, h x, any-weaker p q xs h)

  pub count-any : (p : A → Bool) (xs : List A) → count p xs ≡ 0 → any p xs ≡ false
  unfolding any count
  count-any p [] h = refl
  count-any p (x ∷ xs) h = ground (arith, count-any p xs)

  find-select-none : (p q : A → Bool) (xs : List A) → count p xs ≡ 0 → find p (select q xs) ≡ none
  unfolding count find select
  find-select-none p q [] h = refl
  find-select-none p q (x ∷ xs) h = ground (arith, find-select-none p q xs)

  -- The row that a test finds among the selected ones.
  pub find-select_one :
      (p q : A → Bool) (xs : List A) {a : A}
      → count p xs ≤ 1
      → find p (select q xs) ≡ some a
      → find p xs ≡ some a
  unfolding count find select
  find-select_one p q [] one found = found
  find-select_one p q (x ∷ xs) {a} one found =
      ground (arith, find-select_one p q xs {a = a}, find-select-none p q xs)

  -- The row that the update itself wrote.
  pub find-update_self :
      (q : A → Bool) (f : A → A) (xs : List A) {a : A}
      → ((x : A) → q (f x) ≡ q x)
      → find q xs ≡ some a
      → find q (update q f xs) ≡ some (f a)
  unfolding find update
  find-update_self q f [] h found = cc
  find-update_self q f (x ∷ xs) {a} h found = ground (arith, h x, find-update_self q f xs {a = a} h)

  pub still_found :
      (p q : A → Bool) (xs : List A) {a : A}
      → find p xs ≡ some a
      → q a ≡ false
      → find p (delete q xs) ≡ some a
  unfolding find delete
  still_found p q [] found h = cc
  still_found p q (x ∷ xs) {a} found h = ground (arith, still_found p q xs {a = a})

  pub still_unfound :
      (p q : A → Bool) (xs : List A) → find p xs ≡ none → find p (delete q xs) ≡ none
  unfolding find delete
  still_unfound p q [] h = refl
  still_unfound p q (x ∷ xs) h = ground (arith, still_unfound p q xs)

  pub still_matched : (p q : A → Bool) (xs : List A) → any p (delete q xs) ≡ true → any p xs ≡ true
  unfolding any delete
  still_matched p q [] h = h
  still_matched p q (x ∷ xs) h = ground (arith, still_matched p q xs)

  -- The row that was added at the end.
  pub find-added :
      (p : A → Bool) (xs : List A) (x : A)
      → find p xs ≡ none
      → p x ≡ true
      → find p (xs ++ x ∷ []) ≡ some x
  unfolding find
  find-added p [] x new h = ground arith
  find-added p (y ∷ xs) x new h = ground (arith, find-added p xs x)

  pub any-delete :
      (p q : A → Bool) (xs : List A)
      → ((x : A) → p x ≡ true → q x ≡ true)
      → any p (delete q xs) ≡ false
  unfolding any delete
  any-delete p q [] h = refl
  any-delete p q (x ∷ xs) h = ground (arith, h x, any-delete p q xs h)

  pub select-delete :
      (p q : A → Bool) (xs : List A)
      → ((x : A) → p x ≡ true → q x ≡ false)
      → select p (delete q xs) ≡ select p xs
  unfolding select delete
  select-delete p q [] h = refl
  select-delete p q (x ∷ xs) h = ground (arith, h x, select-delete p q xs h)

  -- A write that takes each row that it writes out of the test.
  pub any-update_out :
      (p : A → Bool) (f : A → A) (xs : List A)
      → ((x : A) → p (f x) ≡ false)
      → any p (update p f xs) ≡ false
  unfolding any update
  any-update_out p f [] h = refl
  any-update_out p f (x ∷ xs) h = ground (arith, h x, any-update_out p f xs h)

  found-count :
      (p q : A → Bool) (xs : List A) {a : A} → find p xs ≡ some a → q a ≡ true → 1 ≤ count q xs
  unfolding count find
  found-count p q [] found h = cc
  found-count p q (x ∷ xs) {a} found h = ground (arith, found-count p q xs {a = a})

  -- With one row at most that meets `q`, a row that meets it is the one that it finds.
  pub find-only :
      (p q : A → Bool) (xs : List A) {a : A}
      → count q xs ≤ 1
      → find p xs ≡ some a
      → q a ≡ true
      → find q xs ≡ some a
  unfolding count find
  find-only p q [] one found h = cc
  find-only p q (x ∷ xs) {a} one found h =
      ground (arith, find-only p q xs {a = a}, found-count p q xs {a = a})

  -- A stronger test takes fewer rows.
  pub count-stronger :
      (p q : A → Bool) (xs : List A) → ((x : A) → p x ≡ true → q x ≡ true) → count p xs ≤ count q xs
  unfolding count
  count-stronger p q [] h = omega arith
  count-stronger p q (x ∷ xs) h = ground (arith, h x, count-stronger p q xs h)

  -- The write brings its row into the test.
  pub any-update_in :
      (p q : A → Bool) (f : A → A) (xs : List A) {a : A}
      → find q xs ≡ some a
      → p (f a) ≡ true
      → any p (update q f xs) ≡ true
  unfolding find any update
  any-update_in p q f [] found h = cc
  any-update_in p q f (x ∷ xs) {a} found h = ground (arith, any-update_in p q f xs {a = a})
