-- ===== src/Store/Submit/Request.antt =====
-- A request of packages/db/src/threads/submission.ts, and the request that was accepted before under
-- the same client id (`existingClientMessage`).
use cloud_swe.Base.{
  ℕ, Bool, true, false, Option, none, some, List, [], ◌∷◌, ◌==◌, ◌&&◌, ◌||◌, not, leb,
  if◌then◌else◌, find, select, pure, fail_if, require, ◌>>=◌, ◌>>◌, holds, same_option,
  same_numbers, map, or_else,
}
use cloud_swe.Store.Schema.{
  Db, Text, Thread, Message, MessageDelivery, DeliveryMode, RequestKind, Attachment, Run,
}
use cloud_swe.Store.Shared.{
  Action, thrown, idempotency_conflict, idempotency_state, thread_is, run_is,
}
use cloud_swe.Store.Queue.{delivery_of}

-- What the model catalog of the AI library says of a selection.
pub record Catalog : Type 0 where
  pub is_supported : ℕ → Bool
  pub accepts_images : ℕ → Bool
  pub provider : ℕ → ℕ

-- `SubmitInput & { mode?: "steer" | "queue" }`
pub record SubmitInput : Type 0 where
  pub user_id : ℕ
  pub prompt : Text
  pub client_message_id : ℕ
  pub model_selection : Option ℕ
  pub repository_url : Option ℕ
  pub repository_branch : Option ℕ
  pub attachment_ids : List ℕ
  pub max_active_runs : Option ℕ
  pub mode : Option DeliveryMode

pub data Accepted : Type 0 where
  as_pending as_run : Accepted

pub record SubmitResult : Type 0 where
  pub thread_id : ℕ
  pub run_id : ℕ
  pub message_id : Option ℕ
  pub delivery : Option Accepted

-- `expectedKind`
abbrev pub kind_of : Option ℕ → RequestKind
kind_of none = RequestKind.initial
kind_of (some t) = RequestKind.followup

abbrev pub same_kind : RequestKind → RequestKind → Bool
same_kind RequestKind.initial RequestKind.initial = true
same_kind RequestKind.followup RequestKind.followup = true
same_kind _ _ = false

abbrev pub same_mode : Option DeliveryMode → Option DeliveryMode → Bool
same_mode none none = true
same_mode (some DeliveryMode.steer) (some DeliveryMode.steer) = true
same_mode (some DeliveryMode.queue) (some DeliveryMode.queue) = true
same_mode _ _ = false

-- The joined row, and the ids of the message's attachments in their order.
pub record Prior : Type 0 where
  pub message : Message
  pub delivery : Option MessageDelivery
  pub run : Option Run
  pub thread : Thread
  pub bound_ids : List ℕ

abbrev pub client_is : ℕ → ℕ → Message → Bool
client_is user_id client_message_id m =
    (m.user_id == user_id) && holds m.client_message_id client_message_id

abbrev pub bound_to : ℕ → Attachment → Bool
bound_to message_id a = holds a.message_id message_id

-- `orderBy(asc(attachment.ordinal))`
unfoldable pub insert_by_ordinal : Attachment → List Attachment → List Attachment
insert_by_ordinal a [] = a ∷ []
insert_by_ordinal a (b ∷ bs) =
    if leb (or_else a.ordinal 0) (or_else b.ordinal 0)
    then a ∷ b ∷ bs
    else b ∷ insert_by_ordinal a bs

unfoldable pub by_ordinal : List Attachment → List Attachment
unfolding insert_by_ordinal
by_ordinal [] = []
by_ordinal (a ∷ as') = insert_by_ordinal a (by_ordinal as')

abbrev pub run_of : Option ℕ → List Run → Option Run
run_of none runs = none
run_of (some id) runs = find (run_is id) runs

unfoldable pub find_prior : ℕ → ℕ → Db → Option Prior
unfolding by_ordinal
find_prior user_id client_message_id d =
    elim (find (client_is user_id client_message_id) d.messages) [
      | none ↦ none
      | some m ↦ elim (find (thread_is m.thread_id) d.threads) [
        | none ↦ none
        | some t ↦ some (record {
          message = m;
          delivery = find (delivery_of m.id) d.deliveries;
          run = run_of m.run_id d.runs;
          thread = t;
          bound_ids =
              map (λ (a : Attachment). a.id) (by_ordinal (select (bound_to m.id) d.attachments));
        })
      ]
    ]

abbrev pub selection_of_run : Option Run → Option ℕ
selection_of_run none = none
selection_of_run (some r) = r.model_selection

-- What the request was when it was accepted: the delivery keeps it, where there is one.
abbrev pub prior_selection : Prior → Option MessageDelivery → Option ℕ
prior_selection p none = selection_of_run p.run
prior_selection p (some x) = some x.model_selection

abbrev pub prior_prompt : Prior → Option MessageDelivery → Text
prior_prompt p none = p.message.content
prior_prompt p (some x) = x.original_prompt

abbrev pub prior_mode : Option MessageDelivery → Option DeliveryMode
prior_mode none = none
prior_mode (some x) = some x.mode

abbrev pub prior_attachment_ids : Prior → Option MessageDelivery → List ℕ
prior_attachment_ids p none = p.bound_ids
prior_attachment_ids p (some x) = x.original_attachment_ids

-- `prior.delivery?.targetRunId ?? prior.runId`
abbrev pub accepted_run : Prior → Option MessageDelivery → Option ℕ
accepted_run p none = p.message.run_id
accepted_run p (some x) = some x.target_run_id

abbrev pub other_thread : Option ℕ → ℕ → Bool
other_thread none t = false
other_thread (some requested) t = not (t == requested)

-- A follow-up compares the repository of the thread with itself.
abbrev pub other_repository : Option ℕ → SubmitInput → Thread → Bool
other_repository none input t =
    not (same_option t.repository_url input.repository_url)
    || not (same_option t.repository_branch input.repository_branch)
other_repository (some requested) input t = false

unfoldable pub is_other_request : SubmitInput → Option ℕ → Prior → Bool
is_other_request input requested p =
    not (same_option (prior_selection p p.delivery) input.model_selection)
    || (not (same_numbers (prior_prompt p p.delivery) input.prompt)
        || (not (same_mode (prior_mode p.delivery) input.mode)
            || (other_thread requested p.message.thread_id
                || (not (same_kind p.message.request_kind (kind_of requested))
                    || (other_repository requested input p.thread
                        || not (
                            same_numbers (prior_attachment_ids p p.delivery)
                              input.attachment_ids))))))

abbrev pub result_of : Prior → ℕ → Option MessageDelivery → SubmitResult
result_of p run_id none = record {
  thread_id = p.message.thread_id;
  run_id = run_id;
  message_id = none;
  delivery = none;
}
result_of p run_id (some x) = record {
  thread_id = p.message.thread_id;
  run_id = run_id;
  message_id = some p.message.id;
  delivery = some (if x.accepted_as_pending then as_pending else as_run);
}

unfoldable pub replay_request : SubmitInput → Option ℕ → Prior → Action SubmitResult
unfolding is_other_request
replay_request input requested p = do
  fail_if (is_other_request input requested p) (thrown idempotency_conflict 409)
  run_id ← require (accepted_run p p.delivery) (thrown idempotency_state 500)
  pure (result_of p run_id p.delivery)
