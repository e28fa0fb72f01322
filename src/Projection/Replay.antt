-- ===== src/Projection/Replay.antt =====
-- The projection of apps/web/src/lib/thread-projection.ts and the log of the thread that it follows.
use cloud_swe.Base.{ℕ, zero, suc, Option, List, ok, ◌≡◌, refl, ap, sym, ◌∙◌, subst, inl, inr, All}
use cloud_swe.Projection.Data.{Projection, Applied, ◌>>=◌}
use cloud_swe.Projection.Events.{Body, Event}
use cloud_swe.Projection.Apply.{empty_projection}
use cloud_swe.Projection.Cases.{apply_event, apply_events}
use cloud_swe.Projection.Sound.{IsSound}
use cloud_swe.Projection.Steps.{
  apply_events-carries, All-everything, empty-IsSound, apply_event-Sound,
}

module _ (log : ℕ → Body) (thread_id : Option ℕ) where
  -- The event that the log has under a number.
  abbrev pub logged : ℕ → Event
  logged n = record { sequence = n; body = log n }

  -- The first `n` events of the log, applied once each in their order.
  abbrev pub replay : ℕ → Applied Projection
  replay zero = ok (empty_projection thread_id)
  replay (suc n) = replay n >>= λ p. apply_event p (logged (suc n))

  abbrev pub IsLogged : Event → Type 0
  IsLogged e = e.body ≡ log e.sequence

  abbrev pub IsReplay : Projection → Type 0
  IsReplay p = IsSound p × (replay p.cursor ≡ ok p)

  as_logged : (e : Event) (n : ℕ) → IsLogged e → e.sequence ≡ n → logged n ≡ e
  as_logged e n known same =
      let at_own : logged e.sequence ≡ e =
        ap (λ (b : Body). record { sequence = e.sequence; body = b }) (sym known) in
      subst (λ m. logged m ≡ e) same at_own

  next-IsReplay :
      (p : Projection) (e : Event) (q : Projection)
      → IsLogged e
      → IsReplay p
      → apply_event p e ≡ ok q
      → IsReplay q
  next-IsReplay p e q known k h =
      let (s, either) = apply_event-Sound p e q k.0 h in
      elim either [
        | inl same ↦ (s, subst (λ (r : Projection). replay r.cursor ≡ ok r) (sym same) k.1)
        | inr (next, at) ↦
            let applied : replay (suc p.cursor) ≡ ok q =
              ap (λ m. m >>= λ r. apply_event r (logged (suc p.cursor))) k.1
              ∙ (ap (apply_event p) (as_logged e (suc p.cursor) known next) ∙ h) in
            (s, subst (λ n. replay n ≡ ok q) (sym at) applied)
      ]

  -- Whatever events of the thread's log a client applies, in whatever batches and however often, its
  -- projection is that of the log's events up to its cursor, each applied once in their order.
  pub apply_events-replay :
      (es : List Event) (p : Projection)
      → All IsLogged es
      → apply_events (empty_projection thread_id) es ≡ ok p
      → replay p.cursor ≡ ok p
  apply_events-replay es p known h =
      (apply_events-carries IsLogged IsReplay next-IsReplay es (empty_projection thread_id) p known
        (empty-IsSound thread_id, refl) h).1

-- Every projection that a client builds has live texts of at most 64000 units for each tool, at most 8
-- markers of unknown events, and no version beyond its cursor.
pub apply_events-IsSound :
    (thread_id : Option ℕ) (es : List Event) (p : Projection)
    → apply_events (empty_projection thread_id) es ≡ ok p
    → IsSound p
apply_events-IsSound thread_id es p h =
    apply_events-carries (λ e. Unit) IsSound (λ p e q u k a. (apply_event-Sound p e q k a).0) es
      (empty_projection thread_id) p (All-everything es) (empty-IsSound thread_id) h
