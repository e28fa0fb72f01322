-- ===== src/Store/Workspaces/Review.antt =====
-- `requestWorkspaceWake`, the review reads, `resolvePreview` and `recordDiffStat` of
-- packages/db/src/threads/workspaces.ts; `reachableSandbox` of packages/db/src/thread-contracts.ts.
-- An instant is a number of milliseconds.
use cloud_swe.Base.{
  ℕ, ◌+◌, ◌-◌, Bool, true, false, Option, none, some, List, [], ◌∷◌, ◌==◌, ◌&&◌, not, ltb,
  if◌then◌else◌, find, select, any, update, pure, gets, ◌>>=◌, ◌>>◌, is_some,
}
use cloud_swe.Store.Schema.{
  Db, Thread, Run, Workspace, WorkspaceState, Provider, Outbox, workspace_wake, QuestionRequest,
  ThreadEvent, EventType, Payload, DiffStat, of_diff, diff_key, diff_updated, same_outbox_type,
  is_pending_question,
}
use cloud_swe.Store.Shared.{
  Action, fresh, append_event, lock_thread_and_workspace, active_in, workspace_of,
}
use cloud_swe.Store.Queue.{insert_outbox}
use cloud_swe.Store.Workspaces.Reset.{is_reset, newest_first}
use cloud_swe.Store.Workspaces.Cleanup.{is_paused}

pub data WakeResult : Type 0 where
  queued not_paused active_run : WakeResult

abbrev pub is_handoff : ℕ → QuestionRequest → Bool
is_handoff run_id q = (q.run_id == run_id) && (is_pending_question q.state && q.browser_handoff)

abbrev pub is_wake : ℕ → Outbox → Bool
is_wake thread_id o =
    (o.thread_id == thread_id)
    && (same_outbox_type o.kind workspace_wake && not (is_some o.delivered_at))

-- No active run, or one that has handed the browser to the user.
abbrev pub may_wake : Option Run → List QuestionRequest → Bool
may_wake none questions = true
may_wake (some r) questions = any (is_handoff r.id) questions

abbrev pub can_wake : Option Workspace → Bool
can_wake none = false
can_wake (some w) = is_paused w.state && not (is_some w.lifecycle_transition_id)

unfoldable pub request_workspace_wake : ℕ → Action WakeResult
request_workspace_wake thread_id = do
  current ← lock_thread_and_workspace thread_id
  if not (can_wake current) then pure not_paused else do
    active ← gets (λ d. find (active_in thread_id) d.runs)
    questions ← gets (λ d. d.questions)
    if not (may_wake active questions) then pure active_run else do
      waiting ← gets (λ d. any (is_wake thread_id) d.outbox)
      if waiting then pure tt else insert_outbox workspace_wake thread_id none
      pure WakeResult.queued

abbrev pub is_running_workspace : WorkspaceState → Bool
is_running_workspace WorkspaceState.running = true
is_running_workspace _ = false

-- Not reviewed in the last minute.
abbrev pub is_due : ℕ → Option ℕ → Bool
is_due now none = true
is_due now (some reviewed) = ltb (reviewed + 60000) now

unfoldable pub touch_workspace_review : ℕ → Db → Db
touch_workspace_review thread_id d = record d {
  workspaces =
      update
        (λ w.
          workspace_of thread_id w
          && (is_running_workspace w.state && is_due d.clock w.reviewed_at))
        (λ w. record w { reviewed_at = some d.clock }) d.workspaces;
}

abbrev pub is_reviewed : ℕ → Workspace → Bool
is_reviewed thread_id w = workspace_of thread_id w && is_some w.reviewed_at

-- `greatest(0, idleMs - (now - reviewedAt))`, and 0 with no review
abbrev pub remaining_since : ℕ → ℕ → Option ℕ → ℕ
remaining_since idle_ms now none = 0
remaining_since idle_ms now (some reviewed) = (idle_ms + reviewed) - now

abbrev pub reviewed_at_of : Option Workspace → Option ℕ
reviewed_at_of none = none
reviewed_at_of (some w) = w.reviewed_at

unfoldable pub review_idle_remaining_ms : ℕ → ℕ → Db → ℕ
review_idle_remaining_ms thread_id idle_ms d =
    remaining_since idle_ms d.clock (reviewed_at_of (find (is_reviewed thread_id) d.workspaces))

abbrev pub is_modal : Provider → Bool
is_modal Provider.modal = true
is_modal Provider.docker = false

pub record Sandbox : Type 0 where
  pub provider_id : ℕ
  pub generation : ℕ

-- `reachableSandbox`; the empty provider id is none.
unfoldable pub reachable_sandbox : Option Workspace → Option Sandbox
reachable_sandbox none = none
reachable_sandbox (some w) =
    if is_running_workspace w.state
      && (not (is_some w.lifecycle_transition_id) && is_modal w.provider)
    then elim w.provider_id [
      | none ↦ none
      | some id ↦
          if id == 0 then none else some (record { provider_id = id; generation = w.generation })
    ]
    else none

abbrev pub has_slug : ℕ → Thread → Bool
has_slug slug t = (t.preview_slug == slug) && not (is_some t.deleted_at)

-- The workspace of the thread that the slug names.
abbrev pub previewed : ℕ → Db → Option Workspace
previewed slug d = elim (find (has_slug slug) d.threads) [
  | none ↦ none
  | some t ↦ find (workspace_of t.id) d.workspaces
]

pub record Preview : Type 0 where
  pub thread_id : ℕ
  pub provider_id : ℕ

abbrev pub preview_of : Option Workspace → Option Sandbox → Option Preview
preview_of (some w) (some s) =
    some (record { thread_id = w.thread_id; provider_id = s.provider_id })
preview_of _ _ = none

unfoldable pub resolve_preview : ℕ → Db → Option Preview
unfolding reachable_sandbox
resolve_preview slug d = preview_of (previewed slug d) (reachable_sandbox (previewed slug d))

-- `workspaceDiffStatSchema.safeParse(payload).data`
abbrev pub diff_stat_of : Payload → Option DiffStat
diff_stat_of (of_diff s) = some s
diff_stat_of (Payload.custom j) = j.diff_stat
diff_stat_of _ = none

abbrev pub same_stat : Option DiffStat → DiffStat → Bool
same_stat none t = false
same_stat (some s) t =
    (s.files == t.files) && ((s.additions == t.additions) && (s.deletions == t.deletions))

abbrev pub counts_diff : EventType → Bool
counts_diff diff_updated = true
counts_diff kind = is_reset kind

abbrev pub diff_in : ℕ → ThreadEvent → Bool
diff_in thread_id e = (e.thread_id == thread_id) && counts_diff e.kind

abbrev pub first_stat : List ThreadEvent → Option DiffStat
first_stat [] = none
first_stat (e ∷ es) = diff_stat_of e.payload

unfoldable pub latest_stat : ℕ → Db → Option DiffStat
unfolding newest_first
latest_stat thread_id d = first_stat (newest_first (select (diff_in thread_id) d.events))

abbrev pub has_generation : Option Workspace → ℕ → Bool
has_generation none generation = false
has_generation (some w) generation = w.generation == generation

unfoldable pub record_diff_stat : ℕ → ℕ → DiffStat → Action Unit
unfolding latest_stat
record_diff_stat thread_id generation stat = do
  current ← lock_thread_and_workspace thread_id
  if not (has_generation current generation) then pure tt else do
    previous ← gets (latest_stat thread_id)
    if same_stat previous stat then pure tt else do
      id ← fresh
      append_event thread_id diff_updated (of_diff stat) (diff_key id)
      pure tt
