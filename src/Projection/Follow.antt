-- ===== src/Projection/Follow.antt =====
-- A client of apps/web/src/lib/thread-projection.ts that reads the pages of events of
-- packages/db/src/threads/queries.ts.
use cloud_swe.Base.{
  ℕ, zero, suc, Option, some, List, [], ◌∷◌, ok, err, ◌≡◌, refl, false, arith, find,
}
use cloud_swe.Store.Schema.{Db, Thread, ThreadEvent}
use cloud_swe.Store.Shared.{thread_is}
use cloud_swe.Store.Queries.{list_events}
use cloud_swe.Store.Log.Sequence.{IsGapless}
use cloud_swe.Store.Log.Pages.{numbers, ranged, list_events-numbers}
use cloud_swe.Store.History.{Call, history}
use cloud_swe.Store.History.Gapless.{history-IsGapless}
use cloud_swe.Projection.Data.{Projection, Applied, StreamError, ◌>>=◌}
use cloud_swe.Projection.Events.{Body, Event}
use cloud_swe.Projection.Apply.{empty_projection}
use cloud_swe.Projection.Cases.{apply_event, apply_events}
use cloud_swe.Projection.Sound.{IsSound}
use cloud_swe.Projection.Steps.{apply_event-whole, apply_event-next}
use cloud_swe.Projection.Holds.{is_gap}
use cloud_swe.Projection.Replay.{apply_events-IsSound}

module _ (shown : ThreadEvent → Body) where
  -- The events as they are sent, with what the client's schemas make of their payloads.
  abbrev pub sent : List ThreadEvent → List Event
  sent [] = []
  sent (e ∷ es) = record { sequence = e.sequence; body = shown e } ∷ sent es

  further :
      (m : Applied Projection) (f : Projection → Applied Projection)
      → is_gap m ≡ false
      → ((q : Projection) → m ≡ ok q → is_gap (f q) ≡ false)
      → is_gap (m >>= f) ≡ false
  further (ok q) f h k = k q refl
  further (err StreamError.event_gap) f h k = absurd (ground arith)
  further (err StreamError.protocol_error) f h k = refl
  further (err StreamError.refused_payload) f h k = refl

  ranged-whole :
      (es : List ThreadEvent) (k : ℕ) (p : Projection)
      → IsSound p
      → numbers es ≡ ranged (suc p.cursor) k
      → is_gap (apply_events p (sent es)) ≡ false
  unfolding apply_events
  ranged-whole [] k p s h = refl
  ranged-whole (e ∷ es) zero p s h = absurd (ground arith)
  ranged-whole (e ∷ es) (suc k) p s h =
      let next : e.sequence ≡ suc p.cursor = ground arith in
      let x : Event = record { sequence = e.sequence; body = shown e } in
      further (apply_event p x) (λ q. apply_events q (sent es)) (apply_event-whole p x s next)
        (λ q done.
          let (sound, at) = apply_event-next p x q s next done in
          ranged-whole es k q sound (ground (arith, at)))

  -- A client that has applied some events of a thread that is there, and then reads a page of the
  -- thread's events after its cursor from the store, does not come upon a gap, after any history of
  -- calls that began with numbers that have no gap, whatever the events hold.
  pub list_events-follows :
      (d : Db) (cs : List Call) (thread_id : ℕ) (t : Thread) (limit : Option ℕ) (es : List Event)
      (p : Projection)
      → IsGapless d
      → find (thread_is thread_id) (history d cs).threads ≡ some t
      → apply_events (empty_projection (some thread_id)) es ≡ ok p
      → is_gap (apply_events p (sent (list_events thread_id (some p.cursor) limit (history d cs))))
        ≡ false
  list_events-follows d cs thread_id t limit es p v there applied =
      ranged-whole (list_events thread_id (some p.cursor) limit (history d cs)) _ p
        (apply_events-IsSound (some thread_id) es p applied)
        (list_events-numbers (history d cs) thread_id p.cursor limit t (history-IsGapless d cs v)
          there)
