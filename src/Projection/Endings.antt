-- ===== src/Projection/Endings.antt =====
-- How a run ends for a client, of `applyThreadEvent` of apps/web/src/lib/thread-projection.ts.
use cloud_swe.Base.{
  suc, Bool, true, false, some, List, [], ◌∷◌, map, ok, ◌≡◌, refl, arith, if◌then◌else◌, find, any,
  ==-refl, leb, ◌==◌,
}
use cloud_swe.Store.Schema.{RunStatus}
use cloud_swe.Projection.Data.{Projection, ProjectedRun, Part}
use cloud_swe.Projection.Events.{RunEvent, RunPayload, run_event}
use cloud_swe.Projection.Parts.{upsert, is_run, fresh_run, update_run}
use cloud_swe.Projection.Apply.{with_run, interrupted, is_streaming}
use cloud_swe.Projection.Cases.{apply_event, apply_body, moved, status_from, parts_after}

module _ (p : ProjectedRun → Bool) (g : ProjectedRun → ProjectedRun) (fresh : ProjectedRun)
    (keeps : (x : ProjectedRun) → p x ≡ true → p (g x) ≡ true) (new : p fresh ≡ true) where
  -- The changed run is the first that matches.
  abbrev Found : List ProjectedRun → Type 0
  Found xs =
      (ys : List ProjectedRun) × ((upsert p (λ r. ok (g r)) fresh xs ≡ ok ys)
        × ((r : ProjectedRun) × (find p ys ≡ some (g r))))

  upsert-Found : (xs : List ProjectedRun) → Found xs
  unfolding upsert find
  upsert-Found [] = let k = keeps fresh new in (g fresh ∷ [], (refl, (fresh, ground arith)))
  upsert-Found (x ∷ xs) = go (p x) refl (upsert-Found xs)
    where
      go : (b : Bool) → p x ≡ b → Found xs → Found (x ∷ xs)
      go true here (ys, (made, (r, found))) =
          let k = keeps x here in (g x ∷ xs, (rw here, (x, ground arith)))
      go false here (ys, (made, (r, found))) = (x ∷ ys, (rw (here, made), (r, ground arith)))

abbrev pub is_streaming_part : Part → Bool
is_streaming_part (Part.text t) = is_streaming t.state
is_streaming_part _ = false

interrupted-quiet : (xs : List Part) → any is_streaming_part (map interrupted xs) ≡ false
unfolding any
interrupted-quiet [] = refl
interrupted-quiet (Part.text t ∷ xs) = ground (arith, interrupted-quiet xs)
interrupted-quiet (Part.tool t ∷ xs) = interrupted-quiet xs
interrupted-quiet (Part.marker t ∷ xs) = interrupted-quiet xs
interrupted-quiet (Part.user t ∷ xs) = interrupted-quiet xs

-- Statuses that end a run before its end.
abbrev pub is_interruption : RunStatus → Bool
is_interruption RunStatus.failed = true
is_interruption RunStatus.cancelled = true
is_interruption _ = false

parts_after-quiet :
    (s : RunStatus) (ps : List Part)
    → (if is_interruption s then any is_streaming_part (parts_after (some s) ps) else false) ≡ false
parts_after-quiet RunStatus.failed ps = interrupted-quiet ps
parts_after-quiet RunStatus.cancelled ps = interrupted-quiet ps
parts_after-quiet RunStatus.queued ps = refl
parts_after-quiet RunStatus.running ps = refl
parts_after-quiet RunStatus.completed ps = refl

-- The next event of a thread, where it tells a run's status, is always applied: the client then has the
-- run with this status, of the event's number, and no text of a failed or cancelled run is still
-- streaming.
pub apply_event-status :
    (p : Projection) (k : RunEvent) (e : RunPayload) (s : RunStatus)
    → status_from k ≡ some s
    → (q : Projection) × ((apply_event p
            (record { sequence = suc p.cursor; body = run_event k (some e) })
          ≡ ok q)
        × ((r : ProjectedRun) × ((find (is_run e.run_id) q.runs ≡ some r)
              × ((r.status ≡ some s)
                  × ((r.status_sequence ≡ suc p.cursor)
                      × ((if is_interruption s then any is_streaming_part r.parts else false)
                          ≡ false))))))
unfolding apply_event apply_body with_run update_run
apply_event-status p k e s told =
    let g : ProjectedRun → ProjectedRun = moved (suc p.cursor) (some s) e.error in
    let (ys, (made, (r, found))) =
      upsert-Found (is_run e.run_id) g (fresh_run e.run_id) (λ x h. h) (==-refl e.run_id) p.runs in
    let ahead : leb (suc p.cursor) p.cursor ≡ false = ground arith in
    let next : (suc p.cursor == suc p.cursor) ≡ true = ==-refl (suc p.cursor) in
    (
      record p { cursor = suc p.cursor; runs = ys },
      (rw (ahead, next, told, made), (g r, (found, (refl, (refl, parts_after-quiet s r.parts))))),
    )
