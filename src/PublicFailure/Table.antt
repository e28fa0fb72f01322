-- ===== src/PublicFailure/Table.antt =====
-- The `messages` table of packages/db/src/public-failure.ts, in its order.
use cloud_swe.Base.{List, [], ◌∷◌}
use Prim.Native.String.{String}

unfoldable pub messages : List (String × String)
messages =
    ("MODEL_SELECTION_REQUIRED", "Choose a provider, model, and supported thinking level.")
    ∷ ("MODEL_CREDENTIAL_REQUIRED", "Connect your model provider before starting a task.")
    ∷ ("GIT_DISABLED", "GitHub proxy is not configured.")
    ∷ (
      "GIT_ACCESS_DENIED",
      "GitHub access is unavailable. Reconnect GitHub or grant the app repository access.",
    )
    ∷ ("GIT_UPSTREAM_FAILED", "GitHub could not complete the request.")
    ∷ ("GIT_OPERATION_NOT_FOUND", "Git operation not found.")
    ∷ ("GIT_PROPOSAL_STALE", "The Git proposal has expired or changed. A new proposal is required.")
    ∷ ("GIT_APPROVAL_PENDING", "This run is waiting for Git approval.")
    ∷ ("GIT_DECISION_CONFLICT", "This approval already has a different decision.")
    ∷ (
      "GIT_OPERATION_UNKNOWN",
      "A Git operation has an uncertain outcome. Reconcile it before another write.",
    )
    ∷ ("GIT_BUNDLE_INVALID", "The Git bundle is invalid, missing, or exceeds its limits.")
    ∷ ("GIT_NON_FAST_FORWARD", "Only fast-forward branch pushes are supported.")
    ∷ ("PROVIDER_CAPACITY", "No workspace is available right now. Please try again shortly.")
    ∷ ("PROVIDER_UNAVAILABLE", "The workspace provider is temporarily unavailable.")
    ∷ (
      "RESOURCE_DISCOVERY_LIMIT",
      "Project instructions could not be loaded within the discovery limits.",
    )
    ∷ ("MODEL_SERVICE_FAILED", "The model service could not complete this task.")
    ∷ ("ACTIVITY_FAILED", "Agent execution failed")
    ∷ ("ACTIVITY_RESOURCE_FAILED", "An activity resource failed")
    ∷ ("ACTIVE_RUN_LIMIT", "The active run limit has been reached")
    ∷ ("CHECKPOINT_CREATE_FAILED", "Could not save checkpoint")
    ∷ ("CHECKPOINT_INCOMPLETE", "Saved session entries are incomplete")
    ∷ ("COMMAND_ATTEMPT_REQUIRED", "Command attemptId is required")
    ∷ ("COMMAND_CREATE_FAILED", "Could not create command operation")
    ∷ ("COMMAND_NOT_FOUND", "Command operation not found")
    ∷ ("COMMAND_OWNERSHIP_CONFLICT", "Command run does not belong to the workspace thread")
    ∷ ("COMMAND_TERMINAL", "A terminal command operation cannot change state")
    ∷ ("COMMAND_UNSETTLED", "The workspace generation already has an unsettled command operation")
    ∷ ("CREATE_FAILED", "Could not create the requested resource")
    ∷ ("EVENT_CREATE_FAILED", "Could not append event")
    ∷ ("IDEMPOTENCY_CONFLICT", "clientMessageId was already used for a different request")
    ∷ ("IDEMPOTENCY_STATE", "The original request has no run")
    ∷ ("INVALID_CONFIGURATION", "The runner configuration is invalid")
    ∷ (
      "LIFECYCLE_TRANSITION_CONFLICT",
      "The workspace lifecycle transition conflicts with another attempt",
    )
    ∷ ("LIFECYCLE_TRANSITION_PENDING", "A workspace lifecycle transition is pending")
    ∷ (
      "LIFECYCLE_TRANSITION_REQUIRED", "A workspace state transition needs a durable transition ID",
    )
    ∷ ("RESET_NOT_CONFIRMED", "A workspace reset requires provider confirmation")
    ∷ ("RESET_STATE_UNKNOWN", "The workspace reset state is unknown")
    ∷ (
      "REPOSITORY_INITIALIZATION",
      "Could not prepare this GitHub repository. Check repository access, the URL, and the branch.",
    )
    ∷ ("REPOSITORY_PROVIDER_UNSUPPORTED", "The repository provider is unsupported")
    ∷ ("RUN_NOT_ACTIVE", "The run is not active")
    ∷ ("RUN_NOT_FOUND", "Run not found")
    ∷ ("RUN_TERMINAL", "Run is no longer active")
    ∷ ("RUN_TIMEOUT", "Run exceeded its active execution time limit")
    ∷ ("MESSAGE_NOT_PENDING", "Message was already delivered or removed.")
    ∷ ("MESSAGE_NOT_EDITABLE", "An active steer cannot be edited.")
    ∷ (
      "MODEL_SELECTION_CONFLICT",
      "Steering uses the active run's model. Queue this message to change models.",
    )
    ∷ ("THREAD_BUSY", "This thread already has an active run")
    ∷ ("THREAD_NOT_FOUND", "Thread not found")
    ∷ (
      "WORKSPACE_QUARANTINED",
      "The workspace was quarantined after a command with an unknown outcome",
    )
    ∷ ("WORKSPACE_GENERATION_MISMATCH", "The workspace generation does not match")
    ∷ ("WORKSPACE_NOT_FOUND", "Workspace not found")
    ∷ ("WORKSPACE_PROVIDER_REQUIRED", "Creating a workspace requires its provider")
    ∷ (
      "WORKSPACE_REPREPARE",
      "The workspace was replaced and must be prepared before execution can continue",
    )
    ∷ ("WORKSPACE_UNAVAILABLE", "The workspace is unavailable for commands")
    ∷ ("CHECKPOINT_OWNERSHIP_LOST", "Checkpoint ownership was lost")
    ∷ ("CHECKPOINT_TOO_LARGE", "The agent session checkpoint exceeded its storage limit")
    ∷ ("INVALID_CHECKPOINT", "The agent checkpoint is invalid")
    ∷ ("INVALID_ATTACHMENTS", "The attachment list is invalid")
    ∷ ("INVALID_UPLOAD", "Upload exactly one file and no form fields")
    ∷ ("INVALID_IMAGE", "The image is corrupt or unsupported")
    ∷ ("IMAGE_VARIANT_TOO_LARGE", "The processed image exceeds 3 MiB")
    ∷ ("MODEL_IMAGE_UNSUPPORTED", "The selected model does not accept images")
    ∷ ("ATTACHMENT_BOUND", "An attachment already used by a message cannot be deleted")
    ∷ ("ATTACHMENT_CREATE_FAILED", "Could not create attachment")
    ∷ ("ATTACHMENT_INVALID", "Attachment metadata is invalid")
    ∷ ("ATTACHMENT_MESSAGE_TOO_LARGE", "Message attachments exceed 50 MiB")
    ∷ ("ATTACHMENT_NOT_AVAILABLE", "An attachment is not available")
    ∷ ("ATTACHMENT_NOT_FOUND", "Attachment not found")
    ∷ ("ATTACHMENT_QUOTA_EXCEEDED", "Stored attachment allowance exceeded")
    ∷ ("ATTACHMENT_STATE", "The attachment state changed")
    ∷ ("ATTACHMENT_TOO_LARGE", "The attachment exceeds 25 MiB")
    ∷ ("ATTACHMENT_OBJECT_INVALID", "A stored attachment is missing or corrupt")
    ∷ ("ATTACHMENT_REFERENCE_INVALID", "The saved attachment reference is invalid")
    ∷ ("ATTACHMENT_MATERIALIZATION_FAILED", "Could not restore an attachment into the workspace")
    ∷ ("PERSISTENCE_OVERFLOW", "The agent persistence queue exceeded its limit")
    ∷ ("PERSISTENCE_CLEANUP_FAILED", "The agent persistence cleanup could not finish")
    ∷ []
