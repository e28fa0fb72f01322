-- ===== src/Store/Submission.antt =====
-- packages/db/src/threads/submission.ts: a user starts the first queued message, and a run's owner
-- reads the messages that steer it.
use cloud_swe.Base.{
  ℕ, Bool, true, false, Option, none, some, List, [], ◌∷◌, ◌==◌, ◌&&◌, ◌||◌, not, leb,
  if◌then◌else◌, find, any, pure, fail_if, gets, require, ◌>>=◌, ◌>>◌, is_some,
}
use cloud_swe.Store.Schema.{
  Message, MessageDelivery, DeliveryMode, DeliveryState, Run, RunStatus, is_pending_delivery,
}
use cloud_swe.Store.Shared.{
  Action, thrown, thread_not_found, thread_busy, message_not_pending, active_run_limit,
  owned_thread, active_in, lock_run_context, assert_execution_ownership, generation_of,
}
use cloud_swe.Store.Queue.{deliveries_of, next_pending, Started, start_next_queued_message}
use cloud_swe.Store.Runs.{attempt_of}

abbrev pub accepted_is : ℕ → ℕ → Message × MessageDelivery → Bool
accepted_is thread_id message_id (m, x) = (m.id == message_id) && (m.thread_id == thread_id)

abbrev pub first_row : List (Message × MessageDelivery) → Option (Message × MessageDelivery)
first_row [] = none
first_row (x ∷ xs) = some x

abbrev pub is_started : DeliveryState → Bool
is_started DeliveryState.started = true
is_started _ = false

-- `accepted?.delivery.state === "started" && accepted.message.runId`
abbrev pub started_run : Option (Message × MessageDelivery) → Option ℕ
started_run none = none
started_run (some (m, x)) = if is_started x.state then m.run_id else none

abbrev pub next_is : ℕ → Option (Message × MessageDelivery) → Bool
next_is message_id none = false
next_is message_id (some (m, x)) = m.id == message_id

-- A message that was started before has its answer; another one must be the first of the queue.
unfoldable pub start_accepted : ℕ → ℕ → ℕ → Option ℕ → Action Started
start_accepted user_id thread_id message_id (some run_id) =
    pure (record { thread_id = thread_id; run_id = run_id; message_id = message_id })
start_accepted user_id thread_id message_id none = do
  fail_if (← gets (λ d. any (active_in thread_id) d.runs)) (thrown thread_busy 409)
  next ← gets (next_pending thread_id)
  fail_if (not (next_is message_id next)) (thrown message_not_pending 409)
  started ← start_next_queued_message thread_id user_id
  require started (thrown active_run_limit 429)

unfoldable pub start_queued_message : ℕ → ℕ → ℕ → Action Started
start_queued_message user_id thread_id message_id = do
  owned ← gets (λ d. find (owned_thread thread_id user_id) d.threads)
  require owned (thrown thread_not_found 404)
  accepted ←
      gets
        (λ d. first_row (deliveries_of (accepted_is thread_id message_id) d.messages d.deliveries))
  start_accepted user_id thread_id message_id (started_run accepted)

abbrev pub is_steer : DeliveryMode → Bool
is_steer DeliveryMode.steer = true
is_steer DeliveryMode.queue = false

abbrev pub steers : ℕ → Message × MessageDelivery → Bool
steers run_id (m, x) =
    (x.target_run_id == run_id) && (is_steer x.mode && is_pending_delivery x.state)

abbrev pub is_running_run : RunStatus → Bool
is_running_run RunStatus.running = true
is_running_run _ = false

-- `current.cancelRequestedAt || current.status !== "running" || …`
abbrev pub takes_no_steer : Run → Bool
takes_no_steer r =
    is_some r.cancel_requested_at
    || (not (is_running_run r.status)
        || (is_some r.approval_wait_started_at || is_some r.question_wait_started_at))

-- `orderBy(asc(messageDelivery.sequence))`
unfoldable pub insert_by_sequence :
    Message × MessageDelivery → List (Message × MessageDelivery) → List (Message × MessageDelivery)
insert_by_sequence x [] = x ∷ []
insert_by_sequence x (y ∷ ys) =
    if leb x.1.sequence y.1.sequence then x ∷ y ∷ ys else y ∷ insert_by_sequence x ys

unfoldable pub by_sequence : List (Message × MessageDelivery) → List (Message × MessageDelivery)
unfolding insert_by_sequence
by_sequence [] = []
by_sequence (x ∷ xs) = insert_by_sequence x (by_sequence xs)

unfoldable pub pending_steers : ℕ → ℕ → Action (List (Message × MessageDelivery))
pending_steers run_id token = do
  (current, workspace) ← lock_run_context run_id true
  assert_execution_ownership current token (attempt_of current) (generation_of workspace)
  if takes_no_steer current
      then pure []
      else gets (λ d. by_sequence (deliveries_of (steers run_id) d.messages d.deliveries))
