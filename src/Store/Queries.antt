-- ===== src/Store/Queries.antt =====
-- `listEvents` of packages/db/src/threads/queries.ts: a page of a thread's events.
use cloud_swe.Base.{
  ℕ, min, max, Option, none, some, Bool, List, [], ◌∷◌, ◌==◌, ◌&&◌, ltb, leb, if◌then◌else◌, select,
  or_else,
}
use cloud_swe.Store.Schema.{Db, ThreadEvent}
use cloud_swe.Store.Workspaces.{take}

abbrev pub event_after : ℕ → Option ℕ → ThreadEvent → Bool
event_after thread_id none e = e.thread_id == thread_id
event_after thread_id (some after) e = (e.thread_id == thread_id) && ltb after e.sequence

-- `orderBy(asc(threadEvent.sequence))`
unfoldable pub insert_in_order : ThreadEvent → List ThreadEvent → List ThreadEvent
insert_in_order e [] = e ∷ []
insert_in_order e (x ∷ xs) =
    if leb e.sequence x.sequence then e ∷ x ∷ xs else x ∷ insert_in_order e xs

unfoldable pub in_order : List ThreadEvent → List ThreadEvent
unfolding insert_in_order
in_order [] = []
in_order (e ∷ es) = insert_in_order e (in_order es)

abbrev pub page_size : Option ℕ → ℕ
page_size limit = min (max (or_else limit 100) 1) 500

unfoldable pub list_events : ℕ → Option ℕ → Option ℕ → Db → List ThreadEvent
unfolding in_order take
list_events thread_id after limit d =
    take (page_size limit) (in_order (select (event_after thread_id after) d.events))
