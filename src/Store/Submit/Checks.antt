-- ===== src/Store/Submit/Checks.antt =====
-- What `submit` of packages/db/src/threads/submission.ts checks before it writes.
use cloud_swe.Base.{
  ℕ, ◌+◌, Bool, true, false, Option, none, some, List, [], ◌∷◌, ◌==◌, ◌&&◌, ◌||◌, not, leb, ltb,
  if◌then◌else◌, length, find, any, count, pure, fail_if, gets, require, ◌>>=◌, ◌>>◌, is_some,
  same_option, has_duplicate, or_else,
}
use cloud_swe.Store.Schema.{
  Db, User, ModelCredential, Message, DeliveryMode, Attachment, AttachmentState, Classification,
  Run,
}
use cloud_swe.Store.Shared.{
  Action, thrown, active_in, onboarding_required, invalid_attachments, attachment_not_available,
  attachment_message_too_large, model_image_unsupported, model_credential_required,
  model_selection_required, model_selection_conflict, thread_busy, active_run_limit,
}
use cloud_swe.Store.Queue.{is_active}
use cloud_swe.Store.Submit.Request.{Catalog, SubmitInput}

-- `ATTACHMENT_MESSAGE_MAX_FILES` and `ATTACHMENT_MESSAGE_MAX_BYTES`
abbrev pub max_files : ℕ
max_files = 10

abbrev pub max_bytes : ℕ
max_bytes = 52_428_800

abbrev pub is_ready : AttachmentState → Bool
is_ready AttachmentState.ready = true
is_ready _ = false

abbrev pub is_image : Attachment → Bool
is_image a = elim a.classification [ Classification.image ↦ true | Classification.file ↦ false ]

-- The attachment is the user's, complete, and of no message.
abbrev pub is_available : ℕ → Attachment → Bool
is_available user_id a =
    (a.user_id == user_id)
    && (is_ready a.state
        && (not (is_some a.message_id) && (is_some a.original_size && is_some a.original_sha256)))

abbrev pub attachment_is : ℕ → Attachment → Bool
attachment_is id a = a.id == id

-- The rows of the ids in their order, or nothing where one is not available.
unfoldable pub ordered : ℕ → List Attachment → List ℕ → Option (List Attachment)
ordered user_id rows [] = some []
ordered user_id rows (id ∷ ids) =
    let rest = ordered user_id rows ids in
    elim (find (attachment_is id) rows) [
      | none ↦ none
      | some a ↦
          if is_available user_id a
          then elim rest [ none ↦ none | some as' ↦ some (a ∷ as') ]
          else none
    ]

unfoldable pub total_size : List Attachment → ℕ
total_size [] = 0
total_size (a ∷ as') = or_else a.original_size 0 + total_size as'

-- The join of `attachment` with `message`.
abbrev pub attached_in : ℕ → List Message → Option ℕ → Bool
attached_in thread_id messages none = false
attached_in thread_id messages (some id) =
    any (λ m. (m.id == id) && (m.thread_id == thread_id)) messages

abbrev pub image_in : Option ℕ → Db → Bool
image_in none d = false
image_in (some thread_id) d =
    any (λ a. is_image a && attached_in thread_id d.messages a.message_id) d.attachments

abbrev pub refuses_images : Catalog → Option ℕ → Bool
refuses_images catalog none = false
refuses_images catalog (some selection) = not (catalog.accepts_images selection)

unfoldable pub validate_attachments : Catalog → SubmitInput → Option ℕ → Action (List Attachment)
unfolding ordered total_size
validate_attachments catalog input requested = do
  fail_if (ltb max_files (length input.attachment_ids) || has_duplicate input.attachment_ids)
      (thrown invalid_attachments 400)
  found ← gets (λ d. ordered input.user_id d.attachments input.attachment_ids)
  attachments ← require found (thrown attachment_not_available 409)
  fail_if (ltb max_bytes (total_size attachments)) (thrown attachment_message_too_large 400)
  earlier ← gets (image_in requested)
  fail_if ((any is_image attachments || earlier) && refuses_images catalog input.model_selection)
      (thrown model_image_unsupported 409)
  pure attachments

abbrev pub has_onboarded : ℕ → List User → Bool
has_onboarded user_id users = any (λ u. (u.id == user_id) && u.onboarding_completed) users

abbrev pub credential_is : ℕ → ℕ → ModelCredential → Bool
credential_is user_id provider c = (c.user_id == user_id) && (c.provider == provider)

abbrev pub lacks_onboarding : SubmitInput → Db → Bool
lacks_onboarding input d =
    is_some input.model_selection && not (has_onboarded input.user_id d.users)

abbrev pub lacks_credential : Catalog → SubmitInput → Option ℕ → Db → Bool
lacks_credential catalog input none d = false
lacks_credential catalog input (some selection) d =
    not (any (credential_is input.user_id (catalog.provider selection)) d.credentials)

unfoldable pub check_request : Catalog → SubmitInput → Option ℕ → Action (List Attachment)
check_request catalog input requested = do
  fail_if (← gets (lacks_onboarding input)) (thrown onboarding_required 403)
  attachments ← validate_attachments catalog input requested
  fail_if (← gets (lacks_credential catalog input input.model_selection))
      (thrown model_credential_required 409)
  fail_if (is_some input.mode && not (is_some input.model_selection))
      (thrown model_selection_required 400)
  pure attachments

abbrev pub is_steer_mode : Option DeliveryMode → Bool
is_steer_mode (some DeliveryMode.steer) = true
is_steer_mode _ = false

-- The run that the message waits for, or that it steers.
unfoldable pub check_active : SubmitInput → Option Run → Action (Option Run)
check_active input none = pure none
check_active input (some active) = do
  fail_if (not (is_some input.mode)) (thrown thread_busy 409)
  fail_if
      (is_steer_mode input.mode && not (same_option active.model_selection input.model_selection))
      (thrown model_selection_conflict 409)
  pure (some active)

abbrev pub active_run_of : Option ℕ → Db → Option Run
active_run_of none d = none
active_run_of (some thread_id) d = find (active_in thread_id) d.runs

-- `ensureGlobalAdmission`, where no run of the thread is active.
unfoldable pub ensure_admission : SubmitInput → Option Run → Action Unit
ensure_admission input (some active) = pure tt
ensure_admission input none = do
  active ← gets (λ d. count is_active d.runs)
  fail_if (leb (or_else input.max_active_runs 5) active) (thrown active_run_limit 429)
