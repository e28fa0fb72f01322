-- ===== src/Base/Triples.antt =====
-- What a transaction does from states where a condition holds, and what holds of its value and of the
-- state after it.
use mathlib.Core.Path.{◌≡◌, refl}
use mathlib.Core.Bool.{Bool, true, false}
use cloud_swe.Base.Tests.{if◌then◌else◌}
use cloud_swe.Base.Transaction.{Result, ok, Tx, pure, gets, modify, fail_if, ◌>>=◌}
use cloud_swe.Base.Keeps.{IsPreorder, Keeps, ok_state, >>=-eq-ok}

-- The same, from the states where `P` holds: what a transaction has read stays true until it writes.
pub record Under {E S A : Type 0} (P : S → Type 0) (R : S → S → Type 0) (m : Tx E S A)
    : Type 0 where
  pub at : (s : S) (a : A) (s' : S) → P s → m s ≡ ok (a, s') → R s s'

module _ {E S : Type 0} {P : S → Type 0} {R : S → S → Type 0} where
  pub Under-Keeps : {A : Type 0} {m : Tx E S A} → Keeps R m → Under P R m
  Under-Keeps k = record { at = λ s a s' _ h. k.at s a s' h }

  pub Under-modify : (f : S → S) → ((s : S) → P s → R s (f s)) → Under {E = E} P R (modify f)
  unfolding modify
  Under-modify f h = record { at = λ s b s' k e. rw (← ok_state e) (h s k) }

  -- A test that passed.
  pub Under-fail_if :
      {B : Type 0} (b : Bool) (e : E) (f : Unit {0} → Tx E S B)
      → (b ≡ false → Under P R (f tt))
      → Under P R (fail_if b e >>= f)
  unfolding ◌>>=◌
  Under-fail_if true e f k = record { at = λ s a s' _ h. cc }
  Under-fail_if false e f k = record { at = (k refl).at }

  pub Under-if :
      {A : Type 0} (b : Bool) (m n : Tx E S A)
      → (b ≡ true → Under P R m)
      → (b ≡ false → Under P R n)
      → Under P R (if b then m else n)
  Under-if true m n km kn = km refl
  Under-if false m n km kn = kn refl

module _ {E S : Type 0} {P : S → Type 0} {R : S → S → Type 0} (p : IsPreorder R) where
  -- The write, and then what needs no more of the reading.
  pub Under-write :
      {A B : Type 0} (m : Tx E S A) (f : A → Tx E S B)
      → Under P R m
      → ((a : A) → Keeps R (f a))
      → Under P R (m >>= f)
  Under-write m f km kf = record {
    at = λ s b s' k h.
        let (a, t, first, second) = >>=-eq-ok m f s h in
        p.next s t s' (km.at s a t k first) ((kf a).at t b s' second);
  }

  -- An action that leaves what was read as it is.
  pub Under-quiet :
      {A B : Type 0} (m : Tx E S A) (f : A → Tx E S B)
      → Keeps (λ s t. P s → P t) m
      → Keeps R m
      → ((a : A) → Under P R (f a))
      → Under P R (m >>= f)
  Under-quiet m f quiet km kf = record {
    at = λ s b s' k h.
        let (a, t, first, second) = >>=-eq-ok m f s h in
        p.next s t s' (km.at s a t first) ((kf a).at t b s' (quiet.at s a t first k) second);
  }

-- A success from a state where `P` holds leads to one where `Q` does.
abbrev pub Leads : {E S A : Type 0} → (S → Type 0) → (S → Type 0) → Tx E S A → Type 0
Leads P Q m = Under P (λ _ t. Q t) m

module _ {E S : Type 0} {P Q : S → Type 0} where
  -- What holds between two actions.
  pub Leads-bind :
      {A B : Type 0} (M : S → Type 0) (m : Tx E S A) (f : A → Tx E S B)
      → Leads P M m
      → ((a : A) → Leads M Q (f a))
      → Leads P Q (m >>= f)
  Leads-bind M m f km kf = record {
    at = λ s b s' k h.
        let (a, t, first, second) = >>=-eq-ok m f s h in
        (kf a).at t b s' (km.at s a t k first) second;
  }

-- The same, of the value returned too.
pub record Gives {E S A : Type 0} (P : S → Type 0) (Q : A → S → Type 0) (m : Tx E S A)
    : Type 0 where
  pub at : (s : S) (a : A) (s' : S) → P s → m s ≡ ok (a, s') → Q a s'

module _ {E S : Type 0} {P : S → Type 0} where
  pub Gives-bind :
      {A B : Type 0} (M : A → S → Type 0) {Q : B → S → Type 0} (m : Tx E S A) (f : A → Tx E S B)
      → Gives P M m
      → ((a : A) → Gives (M a) Q (f a))
      → Gives P Q (m >>= f)
  Gives-bind M m f km kf = record {
    at = λ s b s' k h.
        let (a, t, first, second) = >>=-eq-ok m f s h in
        (kf a).at t b s' (km.at s a t k first) second;
  }

  pub Gives-pure :
      {A : Type 0} {Q : A → S → Type 0} (a : A)
      → ((s : S) → P s → Q a s)
      → Gives {E = E} P Q (pure a)
  unfolding pure
  Gives-pure {Q = Q} a k = record {
    at = λ s b s' p h. let (same, is) = both h in rw (← same, ← is) (k s p);
  }
    where
      both :
          {b : _} {s s' : S}
          → ◌≡◌ {A = Result E (_ × S)} (ok (a, s)) (ok (b, s'))
          → (a ≡ b) × (s ≡ s')
      both h = (cc, cc)

  pub Gives-modify :
      {Q : Unit {0} → S → Type 0} (f : S → S)
      → ((s : S) → P s → Q tt (f s))
      → Gives {E = E} P Q (modify f)
  unfolding modify
  Gives-modify f k = record { at = λ s a s' p h. rw (← ok_state h) (k s p) }

  pub Gives-gets :
      {A : Type 0} {Q : A → S → Type 0} (f : S → A)
      → ((s : S) → P s → Q (f s) s)
      → Gives {E = E} P Q (gets f)
  unfolding gets
  Gives-gets {A = A} f k = record {
    at = λ s a s' p h. let (same, is) = both s h in rw (← same, ← is) (k s p);
  }
    where
      both :
          (s : S) {b : A} {s' : S}
          → ◌≡◌ {A = Result E (A × S)} (ok (f s, s)) (ok (b, s'))
          → (f s ≡ b) × (s ≡ s')
      both s h = (cc, cc)
