-- ===== src/Store/History.antt =====
-- A history of the store: the calls of its clients, one transaction after another, and the passing of
-- time. A call that throws leaves the database as it was.
pub mod Gapless
pub mod Lifecycle
use Prim.Native.String.{String}
use cloud_swe.Base.{
  ℕ, ◌+◌, ◌≡◌, refl, Bool, true, false, Option, List, [], ◌∷◌, Result, ok, err, pure, modify, ◌>>=◌,
  ◌>>◌,
}
use cloud_swe.Base.Keeps.{IsPreorder, Keeps}
use cloud_swe.Store.Schema.{Db, Text, EventType, Payload, DedupeKey, WorkspaceState, DiffStat}
use cloud_swe.Store.Shared.{Action, StoreError}
use cloud_swe.Store.Runs.{
  begin_agent_execution, start_run, request_cancel, claim_execution_ownership, append_run_event,
  complete_run, fail_run, cancel_run,
}
use cloud_swe.Store.Submission.{start_queued_message}
use cloud_swe.Store.Submit.{Catalog, SubmitInput, submit, update_pending_message}
use cloud_swe.Store.GitStore.{Decision, WriteOutcome, git_decide, git_expire, git_claim, git_finish}
use cloud_swe.Store.Commands.{
  CommandBeginInput, CommandUpdateInput, begin_command, admit_command, update_command,
}
use cloud_swe.Store.Deletion.{delete_thread, purge_thread}
use cloud_swe.Store.Workspaces.{
  WorkspaceUpdate, ResetInput, CleanupInput, update_workspace, persist_recovered_provider_id,
  begin_lifecycle_transition, cancel_lifecycle_transition, reset_workspace, cleanup_transition,
  request_workspace_wake, touch_workspace_review, record_diff_stat,
}
use cloud_swe.Store.Delivery.{mark_delivered, record_failure}

-- The methods of the store, with their arguments.
pub data Call : Type 0 where
  begins_agent : ℕ → ℕ → Call
  starts cancels_run : ℕ → Call
  requests_cancel claims starts_queued : ℕ → ℕ → ℕ → Call
  completes : ℕ → Text → ℕ → Call
  decides : ℕ → ℕ → ℕ → Decision → ℕ → Call
  expires_proposals : ℕ → Call
  claims_write : ℕ → ℕ → ℕ → ℕ → Call
  finishes_write : ℕ → WriteOutcome → ℕ → Bool → Call
  appends : ℕ → ℕ → EventType → Payload → DedupeKey → Call
  fails_run : ℕ → String → Option String → Call
  begins_command : CommandBeginInput → Call
  admits : ℕ → Call
  updates_command : CommandUpdateInput → Call
  deletes : ℕ → ℕ → Call
  purges : ℕ → Call
  updates_workspace : WorkspaceUpdate → Call
  recovers_provider : ℕ → ℕ → Call
  begins_transition : ℕ → Option ℕ → WorkspaceState → Call
  cancels_transition : ℕ → ℕ → Call
  resets : ResetInput → Call
  cleans_up : CleanupInput → ℕ → Call
  wakes reviews : ℕ → Call
  counts_diff : ℕ → ℕ → DiffStat → Call
  delivers : ℕ → Call
  records_failure : ℕ → String → Option ℕ → Call
  submits : Catalog → SubmitInput → Option ℕ → Call
  updates_message : ℕ → ℕ → ℕ → Option Text → Call
  passes : ℕ → Call

unfoldable pub advance : ℕ → Db → Db
advance ms d = record d { clock = d.clock + ms }

unfoldable pub perform : Call → Action Unit
perform (begins_agent run token) = begin_agent_execution run token >> pure tt
perform (starts run) = start_run run
perform (cancels_run run) = cancel_run run
perform (requests_cancel user thread run) = request_cancel user thread run
perform (claims run attempt generation) =
    claim_execution_ownership run attempt generation >> pure tt
perform (completes run content token) = complete_run run content token
perform (starts_queued user thread message) = start_queued_message user thread message >> pure tt
perform (decides user thread id decision digest) =
    git_decide user thread id decision digest >> pure tt
perform (expires_proposals run) = git_expire run
perform (claims_write id run token generation) = git_claim id run token generation >> pure tt
perform (finishes_write id outcome result expected) =
    git_finish id outcome result expected >> pure tt
perform (appends run token kind payload key) =
    append_run_event run token kind payload key >> pure tt
perform (fails_run run error code) = fail_run run error code
perform (begins_command input) = begin_command input >> pure tt
perform (admits command) = admit_command command >> pure tt
perform (updates_command input) = update_command input >> pure tt
perform (deletes user thread) = delete_thread user thread
perform (purges thread) = purge_thread thread
perform (updates_workspace input) = update_workspace input >> pure tt
perform (recovers_provider workspace provider) =
    persist_recovered_provider_id workspace provider >> pure tt
perform (begins_transition thread asked state) =
    begin_lifecycle_transition thread asked state >> pure tt
perform (cancels_transition thread transition) =
    cancel_lifecycle_transition thread transition >> pure tt
perform (resets input) = reset_workspace input >> pure tt
perform (cleans_up input transition) = cleanup_transition input transition >> pure tt
perform (wakes thread) = request_workspace_wake thread >> pure tt
perform (reviews thread) = modify (touch_workspace_review thread)
perform (counts_diff thread generation stat) = record_diff_stat thread generation stat
perform (delivers id) = modify (mark_delivered id)
perform (records_failure id error retry) = modify (record_failure id error retry)
perform (submits catalog input thread) = submit catalog input thread >> pure tt
perform (updates_message user thread message prompt) =
    update_pending_message user thread message prompt
perform (passes ms) = modify (advance ms)

-- The database after a transaction.
abbrev pub after : Db → Result StoreError (Unit {0} × Db) → Db
after d (ok (_, d')) = d'
after d (err e) = d

unfoldable pub history : Db → List Call → Db
history d [] = d
history d (c ∷ cs) = history (after d (perform c d)) cs

-- A relation that every call keeps holds between the ends of every history.
module _ {R : Db → Db → Type 0} (p : IsPreorder R) (keeps : (c : Call) → Keeps R (perform c)) where
  step_related :
      (d : Db) (c : Call) (r : Result StoreError (Unit {0} × Db))
      → perform c d ≡ r
      → R d (after d r)
  step_related d c (ok (a, d')) e = (keeps c).at d a d' e
  step_related d c (err x) e = p.same d

  pub history_related : (d : Db) (cs : List Call) → R d (history d cs)
  unfolding history
  history_related d [] = p.same d
  history_related d (c ∷ cs) =
      p.next d _ _ (step_related d c (perform c d) refl)
        (history_related (after d (perform c d)) cs)
