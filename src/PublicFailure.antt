-- ===== src/PublicFailure.antt =====
-- packages/db/src/public-failure.ts: the allowlist of failures that a client may see.
mod Table
mod Tests
pub mod Allowlist
unfoldable pub use Table.{messages}
use text.Mathlib.Text.{◌==◌}
use cloud_swe.Base.{
  ℕ, Bool, true, false, Option, none, some, List, [], ◌∷◌, ◌&&◌, leb, if◌then◌else◌,
}
use Prim.Native.String.{String}

pub record PublicFailure : Type 0 where
  pub code : String
  pub message : String
  pub status_code : ℕ

-- A caught value: no object, or an object with the two fields where they are a string and a number
-- without sign or fraction.
pub record FailureRecord : Type 0 where
  pub code : Option String
  pub status_code : Option ℕ

unfoldable pub status_code_of : Option FailureRecord → ℕ
status_code_of none = 500
status_code_of (some value) = elim value.status_code [
  | none ↦ 500
  | some status ↦ if leb 400 status && leb status 599 then status else 500
]

-- `messages[code]`, for a code of the table
unfoldable pub message_of : String → List (String × String) → Option String
message_of key [] = none
message_of key ((code, text) ∷ rest) = if code == key then some text else message_of key rest

-- `knownCode`
unfoldable pub known_code : Option String → List (String × String) → Option (String × String)
unfolding message_of
known_code none table = none
known_code (some key) table = elim (message_of key table) [
  | none ↦ none
  | some text ↦ some (key, text)
]

abbrev pub code_field : Option FailureRecord → Option String
code_field none = none
code_field (some value) = value.code

unfoldable pub public_failure : Option FailureRecord → PublicFailure
unfolding status_code_of known_code messages
public_failure error =
    let status = status_code_of error in
    elim (known_code (code_field error) messages) [
      | some (key, text) ↦ record { code = key; message = text; status_code = status }
      | none ↦ record {
        code = if leb 500 status then "INTERNAL_ERROR" else "REQUEST_FAILED";
        message =
            if leb 500 status
            then "Unable to process request"
            else "The request could not be completed";
        status_code = status;
      }
    ]

unfoldable pub public_failure_for_code : String → PublicFailure
unfolding public_failure
public_failure_for_code key =
    public_failure (some (record { code = some key; status_code = some 500 }))

-- `Object.values(messages)` searched for the text itself
unfoldable pub has_message : String → List (String × String) → Bool
has_message text [] = false
has_message text ((code, other) ∷ rest) = if other == text then true else has_message text rest

unfoldable pub public_failure_message : String → String
unfolding has_message messages
public_failure_message value =
    if has_message value messages then value else "Agent execution failed"

unfoldable pub code_for_message : String → List (String × String) → String
code_for_message message [] = "ACTIVITY_FAILED"
code_for_message message ((code, text) ∷ rest) =
    if text == message then code else code_for_message message rest

unfoldable pub public_failure_code_for_message : String → String
unfolding code_for_message messages
public_failure_code_for_message message = code_for_message message messages
