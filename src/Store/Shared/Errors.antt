-- ===== src/Store/Shared/Errors.antt =====
-- `ThreadStoreError` of packages/db/src/thread-contracts.ts: a code and an HTTP status. The text of
-- the message is left out.
use cloud_swe.Base.{ℕ, suc, ok, Tx}
use cloud_swe.Store.Schema.{Db}

pub data Code : Type 0 where
  thread_not_found run_not_found workspace_not_found command_not_found : Code
  checkpoint_ownership_lost run_terminal run_not_active run_cancelled : Code
  attempt_required command_attempt_required ownership_claim_failed : Code
  workspace_generation_mismatch workspace_unavailable workspace_provider_required : Code
  lifecycle_transition_pending lifecycle_transition_conflict lifecycle_transition_required : Code
  command_ownership_conflict command_queue_full command_unsettled command_queue_required : Code
  command_not_queued command_terminal : Code
  reset_not_confirmed reset_state_unknown : Code
  thread_busy active_run_limit message_not_pending message_not_editable invalid_payload : Code
  idempotency_conflict idempotency_state onboarding_required invalid_attachments : Code
  attachment_not_available attachment_message_too_large model_image_unsupported : Code
  model_credential_required model_selection_required model_selection_conflict : Code
  git_operation_not_found git_proposal_stale git_decision_conflict git_operation_unknown : Code
  unique_violation check_violation parse_failure : Code

pub record StoreError : Type 0 where
  pub code : Code
  pub status_code : ℕ

abbrev pub thrown : Code → ℕ → StoreError
thrown c n = record { code = c; status_code = n }

-- `db.transaction`: what it throws undoes what it wrote.
abbrev pub Action : Type 0 → Type 0
Action A = Tx StoreError Db A

-- `defaultRandom()` and `randomUUID()`: a number that was not given out before, and not 0.
unfoldable pub fresh : Action ℕ
fresh d = ok (suc d.next_id, record d { next_id = suc d.next_id })

-- The unique indexes and checks of the schema; their errors come from the driver.
abbrev pub unique_index : StoreError
unique_index = thrown unique_violation 500

abbrev pub failed_check : StoreError
failed_check = thrown check_violation 500
