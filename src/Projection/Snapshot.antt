-- ===== src/Projection/Snapshot.antt =====
-- What a client keeps of a snapshot and of a projection, and what it fetches again:
-- `retainNewestSnapshot`, `reconcileThreadSnapshot` and `staleQueries` of
-- apps/web/src/lib/thread-projection.ts.
use cloud_swe.Base.{
  ℕ, Bool, true, false, Option, none, some, List, [], ◌∷◌, ◌==◌, ◌&&◌, ◌||◌, ltb, if◌then◌else◌,
  any, is_some, or_else, map, max,
}
use cloud_swe.Store.Schema.{Text, RunStatus, WorkspaceState}
use cloud_swe.Projection.Data.{Projection, ProjectedRun, ProjectedWorkspace}
use cloud_swe.Projection.Texts.{starts_with}
use cloud_swe.Projection.Parts.{is_run}
use cloud_swe.Projection.Events.{
  Body, Event, run_event, message_pending, message_steered, questions_requested, other,
  questions_answered, questions_cancelled, workspace_state, workspace_reset, title_updated,
}

pub record SnapshotRun : Type 0 where
  pub id : ℕ
  pub status : RunStatus
  pub error : Option ℕ

pub record SnapshotWorkspace : Type 0 where
  pub state : WorkspaceState
  pub generation : ℕ

-- Of `ThreadSnapshot`, what the functions read or write; `rest` stands for the other fields.
pub record Snapshot : Type 0 where
  pub id : ℕ
  pub title : Option ℕ
  pub runs : List SnapshotRun
  pub workspace : Option SnapshotWorkspace
  pub latest_event_id : Option ℕ
  pub rest : ℕ

abbrev pub is_older : Snapshot → Snapshot → Bool
is_older incoming previous =
    (previous.id == incoming.id)
    && ltb (or_else incoming.latest_event_id 0) (or_else previous.latest_event_id 0)

unfoldable pub retain_newest_snapshot : Option Snapshot → Snapshot → Snapshot
retain_newest_snapshot none incoming = incoming
retain_newest_snapshot (some previous) incoming =
    if is_older incoming previous then previous else incoming

abbrev pub run_with : ℕ → SnapshotRun → ProjectedRun → Option RunStatus → SnapshotRun
run_with watermark r projected none = r
run_with watermark r projected (some status) =
    if ltb watermark projected.status_sequence
    then record r { status = status; error = projected.error }
    else r

abbrev pub newer_run : ℕ → SnapshotRun → Option ProjectedRun → SnapshotRun
newer_run watermark r none = r
newer_run watermark r (some projected) = run_with watermark r projected projected.status

abbrev pub workspace_with : SnapshotWorkspace → Option ProjectedWorkspace → SnapshotWorkspace
workspace_with w none = w
workspace_with w (some projected) = record w {
  state = projected.state;
  generation = max w.generation (or_else projected.generation 0);
}

abbrev pub newer_workspace :
    ℕ → ℕ → Option SnapshotWorkspace → Option ProjectedWorkspace → Option SnapshotWorkspace
newer_workspace watermark sequence none projected = none
newer_workspace watermark sequence (some w) projected =
    some (if ltb watermark sequence then workspace_with w projected else w)

abbrev pub is_of : Snapshot → Option ℕ → Bool
is_of s none = false
is_of s (some thread_id) = s.id == thread_id

-- `new Map(projection.runs.map((run) => [run.runId, run]))`, which keeps the last run of an id.
unfoldable pub projected_run : ℕ → List ProjectedRun → Option ProjectedRun
projected_run id [] = none
projected_run id (r ∷ rs) =
    let later = projected_run id rs in
    if is_some later then later else if is_run id r then some r else none

unfoldable pub reconcile : Snapshot → Projection → ℕ → Snapshot
reconcile s p watermark = record s {
  title = if ltb watermark p.title_version then p.title else s.title;
  runs = map (λ (r : SnapshotRun). newer_run watermark r (projected_run r.id p.runs)) s.runs;
  workspace = newer_workspace watermark p.workspace_sequence s.workspace p.workspace;
}

unfoldable pub reconcile_thread_snapshot : Snapshot → Projection → Snapshot
unfolding reconcile projected_run
reconcile_thread_snapshot s p =
    if is_of s p.thread_id then reconcile s p (or_else s.latest_event_id 0) else s

abbrev pub run_prefix : Text
run_prefix = 114 ∷ 117 ∷ 110 ∷ 46 ∷ []

abbrev pub message_prefix : Text
message_prefix = 109 ∷ 101 ∷ 115 ∷ 115 ∷ 97 ∷ 103 ∷ 101 ∷ 46 ∷ []

abbrev pub questions_prefix : Text
questions_prefix = 113 ∷ 117 ∷ 101 ∷ 115 ∷ 116 ∷ 105 ∷ 111 ∷ 110 ∷ 115 ∷ 46 ∷ []

abbrev pub workspace_prefix : Text
workspace_prefix = 119 ∷ 111 ∷ 114 ∷ 107 ∷ 115 ∷ 112 ∷ 97 ∷ 99 ∷ 101 ∷ 46 ∷ []

-- An event of an unknown type has the text of its type.
abbrev pub is_question : Body → Bool
is_question (questions_requested accepted q) = true
is_question (questions_answered q) = true
is_question (questions_cancelled q) = true
is_question (other kind) = starts_with kind questions_prefix
is_question _ = false

abbrev pub is_summarised : Body → Bool
is_summarised (run_event kind e) = true
is_summarised (message_pending accepted) = true
is_summarised (message_steered s) = true
is_summarised (workspace_state state w) = true
is_summarised (workspace_reset reset) = true
is_summarised (title_updated title) = true
is_summarised (other kind) =
    starts_with kind run_prefix
    || (starts_with kind message_prefix
        || (starts_with kind questions_prefix || starts_with kind workspace_prefix))
is_summarised body = is_question body

pub record Stale : Type 0 where
  pub snapshot : Bool
  pub questions : Bool

abbrev pub outdates : ℕ → Event → Bool
outdates watermark e = ltb watermark e.sequence && is_summarised e.body

unfoldable pub stale_queries : List Event → ℕ → Stale
stale_queries events watermark = record {
  snapshot = any (outdates watermark) events;
  questions = any (λ (e : Event). is_question e.body) events;
}
