-- ===== src/Base/Keeps.antt =====
-- What a transaction does to the state when it succeeds: one rule for each way to build an action.
use mathlib.Core.Path.{◌≡◌, refl}
use mathlib.Core.Bool.{Bool, true, false}
use mathlib.Core.Option.{Option, none, some}
use mathlib.Core.List.{List, [], ◌∷◌}
use cloud_swe.Base.Tests.{if◌then◌else◌}
use cloud_swe.Base.Transaction.{
  Result, ok, err, Tx, pure, fail, gets, modify, fail_if, require, continue, ◌>>=◌, for_each,
}

-- A relation between the states before and after.
pub record IsPreorder {S : Type 0} (R : S → S → Type 0) : Type 0 where
  pub same : (s : S) → R s s
  pub next : (s t u : S) → R s t → R t u → R s u

-- Each success of `m` goes from a state to a related one.
pub record Keeps {E S A : Type 0} (R : S → S → Type 0) (m : Tx E S A) : Type 0 where
  pub at : (s : S) (a : A) (s' : S) → m s ≡ ok (a, s') → R s s'

module _ {E S A B : Type 0} where
  -- The two halves of a success.
  pub >>=-eq-ok :
      (m : Tx E S A) (f : A → Tx E S B) (s : S) {b : B} {s' : S}
      → (m >>= f) s ≡ ok (b, s')
      → (a : A) × (t : S) × (m s ≡ ok (a, t)) × (f a t ≡ ok (b, s'))
  unfolding ◌>>=◌
  >>=-eq-ok m f s {b} {s'} h = go (m s) refl h
    where
      go :
          (r : Result E (A × S))
          → m s ≡ r
          → continue r f ≡ ok (b, s')
          → (a : A) × (t : S) × (m s ≡ ok (a, t)) × (f a t ≡ ok (b, s'))
      go (ok (a, t)) e k = (a, t, e, k)
      go (err x) e k = cc

module _ {E S A : Type 0} where
  pub ok_state : {a b : A} {s s' : S} → ◌≡◌ {A = Result E (A × S)} (ok (a, s)) (ok (b, s')) → s ≡ s'
  ok_state h = cc

module _ {E S : Type 0} {R : S → S → Type 0} (p : IsPreorder R) where
  pub Keeps-pure : {A : Type 0} (a : A) → Keeps {E = E} R (pure a)
  unfolding pure
  Keeps-pure a = record { at = λ s b s' h. rw (← ok_state h) (p.same s) }

  pub Keeps-gets : {A : Type 0} (f : S → A) → Keeps {E = E} R (gets f)
  unfolding gets
  Keeps-gets f = record { at = λ s b s' h. rw (← ok_state h) (p.same s) }

  pub Keeps-fail : {A : Type 0} (e : E) → Keeps {A = A} R (fail e)
  unfolding fail
  Keeps-fail e = record { at = λ s b s' h. cc }

  pub Keeps-fail_if : (b : Bool) (e : E) → Keeps R (fail_if b e)
  unfolding fail_if
  Keeps-fail_if true e = record { at = λ s b s' h. cc }
  Keeps-fail_if false e = record { at = λ s b s' h. rw (← ok_state h) (p.same s) }

  pub Keeps-require : {A : Type 0} (o : Option A) (e : E) → Keeps R (require o e)
  unfolding require
  Keeps-require none e = record { at = λ s b s' h. cc }
  Keeps-require (some a) e = record { at = λ s b s' h. rw (← ok_state h) (p.same s) }

  pub Keeps-bind :
      {A B : Type 0} (m : Tx E S A) (f : A → Tx E S B)
      → Keeps R m
      → ((a : A) → Keeps R (f a))
      → Keeps R (m >>= f)
  Keeps-bind m f km kf = record {
    at = λ s b s' h.
        let (a, t, first, second) = >>=-eq-ok m f s h in
        p.next s t s' (km.at s a t first) ((kf a).at t b s' second);
  }

  pub Keeps-for_each :
      {A : Type 0} (xs : List A) (f : A → Tx E S Unit)
      → ((a : A) → Keeps R (f a))
      → Keeps R (for_each xs f)
  unfolding for_each
  Keeps-for_each [] f kf = Keeps-pure tt
  Keeps-for_each (x ∷ xs) f kf = Keeps-bind (f x) _ (kf x) (λ _. Keeps-for_each xs f kf)

module _ {E S A : Type 0} {R : S → S → Type 0} where
  pub Keeps-if : (b : Bool) (m n : Tx E S A) → Keeps R m → Keeps R n → Keeps R (if b then m else n)
  Keeps-if true m n km kn = km
  Keeps-if false m n km kn = kn

module _ {E S : Type 0} {R : S → S → Type 0} where
  pub Keeps-modify : (f : S → S) → ((s : S) → R s (f s)) → Keeps {E = E} R (modify f)
  unfolding modify
  Keeps-modify f h = record { at = λ s b s' e. rw (← ok_state e) (h s) }

pub ruleset keeps_rules = (
  Keeps-pure, Keeps-gets, Keeps-fail, Keeps-fail_if, Keeps-require, Keeps-bind, Keeps-for_each,
  Keeps-if,
)
