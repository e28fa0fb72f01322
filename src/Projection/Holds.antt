-- ===== src/Projection/Holds.antt =====
-- What the result of an application has, where it does not throw, and how changes of one part or run
-- carry it.
use cloud_swe.Base.{
  Bool, true, false, List, [], ◌∷◌, ◌++◌, map, ok, err, ◌≡◌, All, if◌then◌else◌, select, subst,
  refl,
}
use cloud_swe.Projection.Data.{Applied, StreamError, ◌>>=◌}
use cloud_swe.Projection.Parts.{upsert, upsert_last}

abbrev pub is_gap : {A : Type 0} → Applied A → Bool
is_gap (err StreamError.event_gap) = true
is_gap _ = false

-- The result has the property, or the application throws something else than EVENT_GAP.
abbrev pub Holds : {A : Type 0} → (A → Type 0) → Applied A → Type 0
Holds P (ok a) = P a
Holds P (err StreamError.event_gap) = true ≡ false
Holds P (err StreamError.protocol_error) = Unit
Holds P (err StreamError.refused_payload) = Unit

pub if_both :
    {A : Type 0} (P : A → Type 0) (b : Bool) (x y : A) → P x → P y → P (if b then x else y)
if_both P true x y h k = h
if_both P false x y h k = k

pub bind-Holds :
    {A B : Type 0} (P : A → Type 0) (Q : B → Type 0) (m : Applied A) (f : A → Applied B)
    → Holds P m
    → ((a : A) → P a → Holds Q (f a))
    → Holds Q (m >>= f)
bind-Holds P Q (ok a) f h k = k a h
bind-Holds P Q (err StreamError.event_gap) f h k = h
bind-Holds P Q (err StreamError.protocol_error) f h k = tt
bind-Holds P Q (err StreamError.refused_payload) f h k = tt

module _ {A : Type 0} (P : A → Type 0) where
  pub Holds-at : (m : Applied A) (a : A) → Holds P m → m ≡ ok a → P a
  Holds-at m a h e = subst (Holds P) e h

  pub Holds-whole : (m : Applied A) → Holds P m → is_gap m ≡ false
  Holds-whole (ok a) h = refl
  Holds-whole (err StreamError.event_gap) h = h
  Holds-whole (err StreamError.protocol_error) h = refl
  Holds-whole (err StreamError.refused_payload) h = refl

  pub All-append : (xs ys : List A) → All P xs → All P ys → All P (xs ++ ys)
  All-append [] ys h k = k
  All-append (x ∷ xs) ys h k = (h.0, All-append xs ys h.1 k)

  pub All-select : (p : A → Bool) (xs : List A) → All P xs → All P (select p xs)
  unfolding select
  All-select p [] h = tt
  All-select p (x ∷ xs) h =
      if_both (All P) (p x) (x ∷ select p xs) (select p xs) (h.0, All-select p xs h.1)
        (All-select p xs h.1)

  pub All-map : (f : A → A) (xs : List A) → ((x : A) → P x → P (f x)) → All P xs → All P (map f xs)
  All-map f [] k h = tt
  All-map f (x ∷ xs) k h = (k x h.0, All-map f xs k h.1)

  module _ (p : A → Bool) (f : A → Applied A) (fresh : A) (k : (x : A) → P x → Holds P (f x))
      (new : P fresh) where
    changed : (x : A) (xs : List A) → P x → All P xs → Holds (All P) (f x >>= λ y. ok (y ∷ xs))
    changed x xs h hs = bind-Holds P (All P) (f x) (λ y. ok (y ∷ xs)) (k x h) (λ y z. (z, hs))

    behind :
        (x : A) (m : Applied (List A))
        → P x
        → Holds (All P) m
        → Holds (All P) (m >>= λ ys. ok (x ∷ ys))
    behind x m h hs = bind-Holds (All P) (All P) m (λ ys. ok (x ∷ ys)) hs (λ ys z. (h, z))

    pub upsert-Holds : (xs : List A) → All P xs → Holds (All P) (upsert p f fresh xs)
    unfolding upsert
    upsert-Holds [] h = changed fresh [] new tt
    upsert-Holds (x ∷ xs) h =
        if_both (Holds (All P)) (p x) _ _ (changed x xs h.0 h.1)
          (behind x (upsert p f fresh xs) h.0 (upsert-Holds xs h.1))

    pub upsert_last-Holds : (xs : List A) → All P xs → Holds (All P) (upsert_last p f fresh xs)
    unfolding upsert_last
    upsert_last-Holds [] h = changed fresh [] new tt
    upsert_last-Holds (x ∷ []) h = if_both (Holds (All P)) (p x) _ _ (changed x [] h.0 tt) (
        bind-Holds P (All P) (f fresh) (λ y. ok (x ∷ y ∷ [])) (k fresh new) (λ y z. (h.0, (z, tt))))
    upsert_last-Holds (x ∷ y ∷ ys) h =
        behind x (upsert_last p f fresh (y ∷ ys)) h.0 (upsert_last-Holds (y ∷ ys) h.1)
