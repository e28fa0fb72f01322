-- ===== src/Store/Tests/Submission.antt =====
-- A user sends messages to an idle thread, and to one that has a run.
use cloud_swe.Base.{
  List, is_some, ◌≡◌, refl, true, none, some, [], ◌∷◌, ok, arith, find, any, select, update, count,
  for_each, has_duplicate, ℕ_discrete, ◌>>=◌,
}
use cloud_swe.Store.Schema.{
  Db, DedupeKey-discrete, DeliveryMode, DeliveryState, Role, RequestKind, message_pending,
  of_pending, message_pending_key,
}
use cloud_swe.Store.Shared.{
  owned_thread, append_event, append_found, add_event, insert_event, fresh,
}
use cloud_swe.Store.Queue.{deliveries_of, insert_run, insert_outbox}
use cloud_swe.Store.Submit.{
  Catalog, SubmitInput, SubmitResult, as_pending, find_prior, validate_attachments, check_request,
  check_active, ensure_admission, target_thread, target_run, insert_message, bind_attachments,
  insert_delivery, deliver, finish_submission, accept_message, accept_request, submit_found, submit,
}
use cloud_swe.Store.Idempotency.Ids.{IdsGiven}
use cloud_swe.Store.Idempotency.Again.{history-answers}
use cloud_swe.Store.History.{Call, updates_message, requests_cancel, history, perform}
use cloud_swe.Store.Approvals.{invalidate_git_approvals, cancel_pending_questions}
use cloud_swe.Store.Runs.{request_cancel}
use cloud_swe.Store.Submit.{update_pending_message, edit_message, trim}
use cloud_swe.Store.Tests.Data.{start, thread}

abbrev catalog : Catalog
catalog = record { is_supported = λ s. true; accepts_images = λ s. true; provider = λ s. 1 }

abbrev request : SubmitInput
request = record {
  user_id = 7;
  prompt = 104 ∷ 105 ∷ [];
  client_message_id = 900;
  model_selection = some 2;
  repository_url = none;
  repository_branch = none;
  attachment_ids = [];
  max_active_runs = none;
  mode = some DeliveryMode.queue;
}

abbrev accepted : SubmitResult
accepted = record { thread_id = 1; run_id = 11; message_id = some 101; delivery = some as_pending }

abbrev sent : Db
sent = record start {
  threads =
      record (thread 1 none) { event_sequence = 1 } ∷ thread 2 (some 800) ∷ thread 3 none ∷ [];
  messages =
      record {
        id = 101;
        thread_id = 1;
        run_id = none;
        user_id = 7;
        role = Role.user;
        content = 104 ∷ 105 ∷ [];
        client_message_id = some 900;
        request_kind = RequestKind.followup;
      }
      ∷ [];
  deliveries =
      record {
        message_id = 101;
        target_run_id = 11;
        mode = DeliveryMode.queue;
        state = DeliveryState.pending;
        accepted_as_pending = true;
        consumed_entry_id = none;
        original_prompt = 104 ∷ 105 ∷ [];
        original_attachment_ids = [];
        model_selection = 2;
        sequence = 1;
        max_active_runs = 5;
      }
      ∷ [];
  events =
      record {
        id = 102;
        thread_id = 1;
        sequence = 1;
        kind = message_pending;
        payload = of_pending 101 11 DeliveryMode.queue;
        dedupe_key = message_pending_key 101;
        created_at = 1000;
      }
      ∷ [];
  next_id = 102;
}

sends : submit catalog request (some 1) start ≡ ok (accepted, sent)
unfolding submit submit_found accept_request check_request validate_attachments check_active
    ensure_admission target_thread accept_message target_run insert_message bind_attachments
    insert_delivery deliver finish_submission find_prior append_event append_found add_event
    insert_event insert_run insert_outbox fresh has_duplicate find any select update count for_each
    DedupeKey-discrete ℕ_discrete ◌>>=◌
sends = refl

start-IdsGiven : IdsGiven start
unfolding find any count
start-IdsGiven = record {
  threads = λ i h. ground arith;
  messages = λ i k h. refl;
  deliveries = λ i h. refl;
  runs = λ i h. ground arith;
  one_run = λ i. ground arith;
}

is_new : find_prior 7 900 start ≡ none
unfolding find_prior find
is_new = refl

-- The message is edited, and the run before it is cancelled.
abbrev later : List Call
later = updates_message 7 1 101 (some (32 ∷ 111 ∷ [])) ∷ requests_cancel 7 1 11 ∷ []

still_there : is_some (find (owned_thread 1 7) (history sent later).threads) ≡ true
unfolding history perform update_pending_message edit_message trim request_cancel deliveries_of
    append_event append_found add_event insert_event insert_outbox fresh find any update
    DedupeKey-discrete ℕ_discrete ◌>>=◌ invalidate_git_approvals for_each select
    cancel_pending_questions
still_there = refl

history-answers_example :
    submit catalog request (some 1) (history sent later) ≡ ok (accepted, history sent later)
history-answers_example =
    history-answers catalog request (some 1) DeliveryMode.queue start accepted sent later
      start-IdsGiven refl is_new sends still_there
