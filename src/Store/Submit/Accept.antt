-- ===== src/Store/Submit/Accept.antt =====
-- `submit` of packages/db/src/threads/submission.ts: what it writes of a new request.
use cloud_swe.Base.{
  ℕ, suc, for_each, Bool, false, Option, none, some, List, [], ◌∷◌, ◌++◌, ◌==◌, ◌&&◌, ◌||◌, not,
  if◌then◌else◌, find, any, update, pure, fail_if, gets, modify, ◌>>=◌, ◌>>◌, is_some, or_else,
}
use cloud_swe.Store.Schema.{
  Db, Thread, Message, MessageDelivery, DeliveryMode, DeliveryState, Role, Attachment, Run,
  RunMoment, BrowserOwner, run_event, run_key, of_queued, of_pending, message_pending,
  message_pending_key, run_requested,
}
use cloud_swe.Store.Shared.{
  Action, thrown, fresh, append_event, owned_thread, unique_index, failed_check, thread_not_found,
  parse_failure, attachment_not_available, thread_busy,
}
use cloud_swe.Store.Queue.{insert_run, insert_outbox}
use cloud_swe.Store.Submit.Request.{
  Catalog, SubmitInput, SubmitResult, Prior, as_pending, as_run, kind_of, client_is, find_prior,
  replay_request,
}
use cloud_swe.Store.Submit.Checks.{
  is_ready, check_request, check_active, active_run_of, ensure_admission,
}

abbrev pub new_thread : ℕ → ℕ → SubmitInput → ℕ → Thread
new_thread id slug input now = record {
  id = id;
  user_id = input.user_id;
  repository_url = input.repository_url;
  repository_branch = input.repository_branch;
  event_sequence = 0;
  preview_slug = slug;
  browser_owner = BrowserOwner.agent;
  deleted_at = none;
  updated_at = now;
}

unfoldable pub insert_thread : SubmitInput → Action ℕ
insert_thread input = do
  slug ← fresh
  id ← fresh
  modify (λ d. record d { threads = d.threads ++ new_thread id slug input d.clock ∷ [] })
  pure id

unfoldable pub target_thread : SubmitInput → Option ℕ → Action ℕ
target_thread input none = insert_thread input
target_thread input (some requested) = pure requested

unfoldable pub target_run : SubmitInput → ℕ → Option Run → Action ℕ
target_run input thread_id (some active) = pure active.id
target_run input thread_id none =
    insert_run thread_id input.user_id input.prompt input.model_selection (thrown thread_busy 409)

abbrev pub new_message : ℕ → SubmitInput → Option ℕ → ℕ → Option ℕ → Message
new_message id input requested thread_id run_id = record {
  id = id;
  thread_id = thread_id;
  run_id = run_id;
  user_id = input.user_id;
  role = Role.user;
  content = input.prompt;
  client_message_id = some input.client_message_id;
  request_kind = kind_of requested;
}

unfoldable pub insert_message : SubmitInput → Option ℕ → ℕ → Option ℕ → Action ℕ
insert_message input requested thread_id run_id = do
  fail_if (← gets (λ d. any (client_is input.user_id input.client_message_id) d.messages))
      unique_index
  id ← fresh
  modify (λ d. record d {
    messages = d.messages ++ new_message id input requested thread_id run_id ∷ [];
  })
  pure id

abbrev pub bindable : ℕ → ℕ → Attachment → Bool
bindable user_id id a =
    (a.id == id) && ((a.user_id == user_id) && (is_ready a.state && not (is_some a.message_id)))

abbrev pub bound : ℕ → ℕ → ℕ → Attachment → Attachment
bound message_id ordinal now a = record a {
  message_id = some message_id;
  ordinal = some ordinal;
  updated_at = now;
}

unfoldable pub bind_attachment : ℕ → ℕ → ℕ × Attachment → Action Unit
bind_attachment user_id message_id (ordinal, a) = do
  there ← gets (λ d. any (bindable user_id a.id) d.attachments)
  fail_if (not there) (thrown attachment_not_available 409)
  modify (λ d. record d {
    attachments = update (bindable user_id a.id) (bound message_id ordinal d.clock) d.attachments;
  })

-- `attachments.entries()`
unfoldable pub entries : ℕ → List Attachment → List (ℕ × Attachment)
entries n [] = []
entries n (a ∷ as') = (n, a) ∷ entries (suc n) as'

unfoldable pub bind_attachments : ℕ → ℕ → List Attachment → Action Unit
unfolding entries
bind_attachments user_id message_id attachments =
    for_each (entries 0 attachments) (bind_attachment user_id message_id)

-- `message_delivery_admission_check` and `message_delivery_sequence_check`
unfoldable pub insert_delivery : MessageDelivery → Action Unit
insert_delivery x = do
  fail_if ((x.max_active_runs == 0) || (x.sequence == 0)) failed_check
  modify (λ d. record d { deliveries = d.deliveries ++ x ∷ [] })

abbrev pub new_delivery : SubmitInput → ℕ → ℕ → DeliveryMode → ℕ → Bool → ℕ → MessageDelivery
new_delivery input message_id run_id mode selection waits sequence = record {
  message_id = message_id;
  target_run_id = run_id;
  mode = mode;
  state = if waits then DeliveryState.pending else DeliveryState.started;
  accepted_as_pending = waits;
  consumed_entry_id = none;
  original_prompt = input.prompt;
  original_attachment_ids = input.attachment_ids;
  model_selection = selection;
  sequence = sequence;
  max_active_runs = or_else input.max_active_runs 5;
}

-- `if (input.mode && input.modelSelection)`
unfoldable pub deliver :
    SubmitInput → ℕ → ℕ → ℕ → Bool → Option DeliveryMode → Option ℕ → Action Unit
deliver input thread_id message_id run_id waits (some mode) (some selection) = do
  accepted ←
      append_event thread_id message_pending (of_pending message_id run_id mode)
        (message_pending_key message_id)
  insert_delivery (new_delivery input message_id run_id mode selection waits accepted.sequence)
deliver input thread_id message_id run_id waits _ _ = pure tt

abbrev pub accepted_result : ℕ → ℕ → ℕ → Option DeliveryMode → SubmitResult
accepted_result thread_id run_id message_id none = record {
  thread_id = thread_id;
  run_id = run_id;
  message_id = none;
  delivery = none;
}
accepted_result thread_id run_id message_id (some mode) = record {
  thread_id = thread_id;
  run_id = run_id;
  message_id = some message_id;
  delivery = some as_run;
}

-- The message waits for the active run, or the run that was made for it is requested.
unfoldable pub finish_submission : SubmitInput → ℕ → ℕ → ℕ → Option Run → Action SubmitResult
finish_submission input thread_id message_id run_id (some active) = pure (record {
  thread_id = thread_id;
  run_id = active.id;
  message_id = some message_id;
  delivery = some as_pending;
})
finish_submission input thread_id message_id run_id none = do
  append_event thread_id (run_event RunMoment.queued) (of_queued run_id message_id)
      (run_key run_id RunMoment.queued)
  insert_outbox run_requested thread_id (some run_id)
  pure (accepted_result thread_id run_id message_id input.mode)

unfoldable pub accept_message :
    SubmitInput → Option ℕ → List Attachment → Option Run → ℕ → Action SubmitResult
accept_message input requested attachments active thread_id = do
  run_id ← target_run input thread_id active
  message_id ←
      insert_message input requested thread_id (if is_some active then none else some run_id)
  bind_attachments input.user_id message_id attachments
  deliver input thread_id message_id run_id (is_some active) input.mode input.model_selection
  finish_submission input thread_id message_id run_id active

unfoldable pub accept_request : Catalog → SubmitInput → Option ℕ → Action SubmitResult
accept_request catalog input requested = do
  attachments ← check_request catalog input requested
  found ← gets (active_run_of requested)
  active ← check_active input found
  ensure_admission input active
  thread_id ← target_thread input requested
  accept_message input requested attachments active thread_id

abbrev pub is_unsupported : Catalog → Option ℕ → Bool
is_unsupported catalog none = false
is_unsupported catalog (some selection) = not (catalog.is_supported selection)

abbrev pub is_foreign : SubmitInput → Option ℕ → Db → Bool
is_foreign input none d = false
is_foreign input (some requested) d =
    not (is_some (find (owned_thread requested input.user_id) d.threads))

unfoldable pub submit_found : Catalog → SubmitInput → Option ℕ → Option Prior → Action SubmitResult
submit_found catalog input requested (some prior) = replay_request input requested prior
submit_found catalog input requested none = accept_request catalog input requested

unfoldable pub submit : Catalog → SubmitInput → Option ℕ → Action SubmitResult
submit catalog input requested = do
  fail_if (is_unsupported catalog input.model_selection) (thrown parse_failure 500)
  fail_if (← gets (is_foreign input requested)) (thrown thread_not_found 404)
  prior ← gets (find_prior input.user_id input.client_message_id)
  submit_found catalog input requested prior
