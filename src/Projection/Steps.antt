-- ===== src/Projection/Steps.antt =====
-- The steps of a client of apps/web/src/lib/thread-projection.ts: one event, and many.
use cloud_swe.Base.{
  ℕ, suc, ◌≤◌, false, Option, List, [], ◌∷◌, ok, err, ◌≡◌, refl, arith, All, inl, inr, ◌⊎◌, subst,
  sym, ◌∙◌,
}
use cloud_swe.Projection.Data.{Applied, ◌>>=◌, ProjectedRun, Projection}
use cloud_swe.Projection.Events.{Event}
use cloud_swe.Projection.Apply.{empty_projection}
use cloud_swe.Projection.Cases.{apply_body, apply_event, apply_events, apply_events}
use cloud_swe.Projection.Holds.{is_gap, Holds-whole, Holds-at}
use cloud_swe.Projection.Sound.{RunSound, SoundAt, IsSound}
use cloud_swe.Projection.Kept.{apply_body-Sound}

RunSound-later :
    (m n : ℕ) → m ≤ n → (rs : List ProjectedRun) → All (RunSound m) rs → All (RunSound n) rs
RunSound-later m n h [] k = tt
RunSound-later m n h (r ∷ rs) k = ((omega arith, k.0.1), RunSound-later m n h rs k.1)

later : (p : Projection) (n : ℕ) → p.cursor ≤ n → IsSound p → SoundAt n (record p { cursor = n })
later p n h k = record {
  cursor = refl;
  titled = let a = k.titled in omega arith;
  placed = let a = k.placed in omega arith;
  edited = let a = k.edited in omega arith;
  noted = k.noted;
  ran = RunSound-later p.cursor n h p.runs k.ran;
}

-- An event that is applied is an earlier one, which changes nothing, or the next one.
pub apply_event-cases :
    (p : Projection) (e : Event) (q : Projection)
    → apply_event p e ≡ ok q
    → (q ≡ p)
      ⊎ ((e.sequence ≡ suc p.cursor)
          × (apply_body (record p { cursor = e.sequence }) e.sequence e.body ≡ ok q))
unfolding apply_event
apply_event-cases p e q h = ground arith

pub apply_event-Sound :
    (p : Projection) (e : Event) (q : Projection)
    → IsSound p
    → apply_event p e ≡ ok q
    → IsSound q × ((q ≡ p) ⊎ ((e.sequence ≡ suc p.cursor) × (q.cursor ≡ suc p.cursor)))
apply_event-Sound p e q k h = elim (apply_event-cases p e q h) [
  | inl same ↦ (subst IsSound (sym same) k, inl same)
  | inr (next, done) ↦
      let s =
        Holds-at (SoundAt e.sequence) _ q
          (apply_body-Sound e.sequence _ e.body (later p e.sequence (omega arith) k)) done in
      (subst (λ m. SoundAt m q) (sym s.cursor) s, inr (next, s.cursor ∙ next))
]

pub apply_event-next :
    (p : Projection) (e : Event) (q : Projection)
    → IsSound p
    → e.sequence ≡ suc p.cursor
    → apply_event p e ≡ ok q
    → IsSound q × (q.cursor ≡ suc p.cursor)
unfolding apply_event
apply_event-next p e q k next h =
    let done : apply_body (record p { cursor = e.sequence }) e.sequence e.body ≡ ok q =
      ground arith in
    let s =
      Holds-at (SoundAt e.sequence) _ q
        (apply_body-Sound e.sequence _ e.body (later p e.sequence (omega arith) k)) done in
    (subst (λ m. SoundAt m q) (sym s.cursor) s, s.cursor ∙ next)

-- The next event does not come after a gap.
pub apply_event-whole :
    (p : Projection) (e : Event)
    → IsSound p
    → e.sequence ≡ suc p.cursor
    → is_gap (apply_event p e) ≡ false
unfolding apply_event
apply_event-whole p e k next =
    let kept =
      Holds-whole (SoundAt e.sequence) _
        (apply_body-Sound e.sequence _ e.body (later p e.sequence (omega (arith, next)) k)) in
    ground (arith, kept)

pub empty-IsSound : (thread_id : Option ℕ) → IsSound (empty_projection thread_id)
empty-IsSound thread_id = record {
  cursor = refl;
  titled = omega arith;
  placed = omega arith;
  edited = omega arith;
  noted = omega arith;
  ran = tt;
}

pub one_result : {A : Type 0} (m : Applied A) (a b : A) → m ≡ ok a → m ≡ ok b → a ≡ b
one_result (ok c) a b h k = ground arith
one_result (err e) a b h k = absurd (ground arith)

bind-ok :
    {A B : Type 0} (m : Applied A) (f : A → Applied B) (b : B)
    → (m >>= f) ≡ ok b
    → (a : A) × ((m ≡ ok a) × (f a ≡ ok b))
bind-ok (ok a) f b h = (a, (refl, h))
bind-ok (err e) f b h = absurd (ground arith)

pub All-everything : {A : Type 0} (xs : List A) → All {0, 0} (λ _. Unit) xs
All-everything [] = tt
All-everything (x ∷ xs) = (tt, All-everything xs)

-- What each application of an event of a kind keeps, the application of many of them keeps.
pub apply_events-carries :
    (C : Event → Type 0) (P : Projection → Type 0)
    → ((p : Projection) (e : Event) (q : Projection) → C e → P p → apply_event p e ≡ ok q → P q)
    → (es : List Event) (p q : Projection) → All C es
    → P p
    → apply_events p es ≡ ok q
    → P q
unfolding apply_events
apply_events-carries C P step [] p q c k h = subst P (one_result (ok p) p q refl h) k
apply_events-carries C P step (e ∷ es) p q c k h =
    let (next, (applied, rest)) = bind-ok (apply_event p e) (λ r. apply_events r es) q h in
    apply_events-carries C P step es next q c.1 (step p e next c.0 k applied) rest
