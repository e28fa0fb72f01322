-- ===== src/Store/Queue.antt =====
-- The message queue of a thread: `startNextQueuedMessage` of packages/db/src/threads/submission.ts.
use cloud_swe.Base.{
  ℕ, Bool, Option, none, some, List, [], ◌∷◌, ◌++◌, ◌==◌, ◌&&◌, leb, if◌then◌else◌, find, any,
  count, update, pure, fail_if, gets, modify, ◌>>=◌, ◌>>◌,
}
use cloud_swe.Store.Schema.{
  Db, Text, Message, MessageDelivery, DeliveryState, Run, RunStatus, RunMoment, run_event, run_key,
  of_queued, run_requested, OutboxType, is_active_run, is_pending_delivery,
}
use cloud_swe.Store.Shared.{Action, fresh, append_event, active_in, unique_index, StoreError}

abbrev pub message_is : ℕ → Message → Bool
message_is id m = m.id == id

abbrev pub delivery_of : ℕ → MessageDelivery → Bool
delivery_of message_id x = x.message_id == message_id

-- The join of `messageDelivery` with `message`.
unfoldable pub deliveries_of :
    (Message × MessageDelivery → Bool)
    → List Message
    → List MessageDelivery
    → List (Message × MessageDelivery)
deliveries_of p messages [] = []
deliveries_of p messages (x ∷ xs) =
    let rest = deliveries_of p messages xs in
    elim (find (message_is x.message_id) messages) [
      | none ↦ rest
      | some m ↦ if p (m, x) then (m, x) ∷ rest else rest
    ]

-- `orderBy(asc(messageDelivery.sequence)).limit(1)`
unfoldable pub earliest : List (Message × MessageDelivery) → Option (Message × MessageDelivery)
earliest [] = none
earliest (x ∷ xs) = elim (earliest xs) [
  | none ↦ some x
  | some y ↦ if leb x.1.sequence y.1.sequence then some x else some y
]

abbrev pub pending_in : ℕ → Message × MessageDelivery → Bool
pending_in thread_id (m, x) = (m.thread_id == thread_id) && is_pending_delivery x.state

unfoldable pub next_pending : ℕ → Db → Option (Message × MessageDelivery)
unfolding deliveries_of earliest
next_pending thread_id d = earliest (deliveries_of (pending_in thread_id) d.messages d.deliveries)

abbrev pub is_active : Run → Bool
is_active r = is_active_run r.status

abbrev pub new_run : ℕ → ℕ → ℕ → Text → Option ℕ → ℕ → Run
new_run id thread_id user_id prompt selection now = record {
  id = id;
  thread_id = thread_id;
  user_id = user_id;
  status = RunStatus.queued;
  prompt = prompt;
  model_selection = selection;
  agent_started_at = none;
  approval_wait_started_at = none;
  approval_wait_ms = 0;
  question_wait_started_at = none;
  question_wait_ms = 0;
  cancel_requested_at = none;
  started_at = none;
  completed_at = none;
  execution_owner_attempt_id = none;
  execution_owner_token = none;
  execution_owner_generation = none;
  error = none;
  updated_at = now;
}

-- An insert into `run`; `run_one_active_thread_idx` refuses a second active run of a thread.
unfoldable pub insert_run : ℕ → ℕ → Text → Option ℕ → StoreError → Action ℕ
insert_run thread_id user_id prompt selection refused = do
  fail_if (← gets (λ d. any (active_in thread_id) d.runs)) refused
  id ← fresh
  modify (λ d. record d {
    runs = d.runs ++ new_run id thread_id user_id prompt selection d.clock ∷ [];
  })
  pure id

unfoldable pub insert_outbox : OutboxType → ℕ → Option ℕ → Action Unit
insert_outbox kind thread_id run_id = do
  id ← fresh
  modify (λ d. record d {
    outbox =
        d.outbox
        ++ record {
          id = id;
          kind = kind;
          thread_id = thread_id;
          run_id = run_id;
          attempts = 0;
          available_at = d.clock;
          delivered_at = none;
          last_error = none;
          created_at = d.clock;
        }
          ∷ [];
  })

pub record Started : Type 0 where
  pub thread_id : ℕ
  pub run_id : ℕ
  pub message_id : ℕ

unfoldable pub start_message : ℕ → ℕ → Message × MessageDelivery → Action (Option Started)
start_message thread_id user_id (message, delivery) = do
  run_id ← insert_run thread_id user_id message.content (some delivery.model_selection) unique_index
  modify (λ d. record d {
    messages = update (message_is message.id) (λ m. record m { run_id = some run_id }) d.messages;
    deliveries =
        update (delivery_of message.id) (λ x. record x { state = DeliveryState.started })
          d.deliveries;
  })
  append_event thread_id (run_event RunMoment.queued) (of_queued run_id message.id)
      (run_key run_id RunMoment.queued)
  insert_outbox run_requested thread_id (some run_id)
  pure (some (record { thread_id = thread_id; run_id = run_id; message_id = message.id }))

unfoldable pub start_if_admitted :
    ℕ → ℕ → ℕ → Option (Message × MessageDelivery) → Action (Option Started)
start_if_admitted thread_id user_id active none = pure none
start_if_admitted thread_id user_id active (some next) =
    if leb next.1.max_active_runs active then pure none else start_message thread_id user_id next

-- `startNextQueuedMessage`; `none` where it returns nothing.
unfoldable pub start_next_queued_message : ℕ → ℕ → Action (Option Started)
unfolding next_pending
start_next_queued_message thread_id user_id = do
  next ← gets (next_pending thread_id)
  active ← gets (λ d. count is_active d.runs)
  start_if_admitted thread_id user_id active next
