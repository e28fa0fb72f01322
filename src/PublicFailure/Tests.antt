-- ===== src/PublicFailure/Tests.antt =====
-- Failures that were caught, and their texts.
use cloud_swe.Base.{◌≡◌, refl, some}
use cloud_swe.PublicFailure.{
  FailureRecord, messages, message_of, public_failure, public_failure_for_code,
  public_failure_message, public_failure_code_for_message,
}
use cloud_swe.PublicFailure.Allowlist.{
  IsPublic, public_failure-IsPublic, public_failure_for_code-message,
  public_failure_code_for_message-message_of, public_failure_message-message_of,
}

abbrev caught : FailureRecord
caught = record { code = some "GIT_DISABLED"; status_code = some 700 }

public_failure-IsPublic_example : IsPublic (public_failure (some caught))
public_failure-IsPublic_example = public_failure-IsPublic (some caught)

public_failure_for_code-message_example :
    ((public_failure_for_code (public_failure_code_for_message "ECONNREFUSED 10.0.0.1")).message
      ≡ public_failure_message "ECONNREFUSED 10.0.0.1")
    × ((public_failure_for_code
          (public_failure_code_for_message "ECONNREFUSED 10.0.0.1")).status_code
        ≡ 500)
public_failure_for_code-message_example = public_failure_for_code-message "ECONNREFUSED 10.0.0.1"

disabled_text : message_of "GIT_DISABLED" messages ≡ some "GitHub proxy is not configured."
unfolding message_of messages
disabled_text = refl

public_failure_code_for_message-message_of_example :
    public_failure_code_for_message "GitHub proxy is not configured." ≡ "GIT_DISABLED"
public_failure_code_for_message-message_of_example =
    public_failure_code_for_message-message_of "GIT_DISABLED" "GitHub proxy is not configured."
      disabled_text

public_failure_message-message_of_example :
    message_of (public_failure_code_for_message "ECONNREFUSED 10.0.0.1") messages
    ≡ some (public_failure_message "ECONNREFUSED 10.0.0.1")
public_failure_message-message_of_example =
    public_failure_message-message_of "ECONNREFUSED 10.0.0.1"
