-- ===== src/PublicFailure/Allowlist.antt =====
-- What packages/db/src/public-failure.ts lets a client see of a failure: the code, the text and the
-- status, and the table that relates the first two.
use text.Mathlib.Text.{◌==◌}
use text.Mathlib.TextEquality.{eq_iff}
use Prim.Native.String.{String}
use cloud_swe.Base.{
  ◌≡◌, ◌∙◌, ◌≤◌, ◌<◌, ◌⊎◌, inl, inr, refl, subst, Bool, true, false, ◌&&◌, Option, none, some, List,
  [], ◌∷◌, arith, leb, if◌then◌else◌, Option-cases, Bool-cases,
}
use cloud_swe.PublicFailure.{
  PublicFailure, FailureRecord, messages, message_of, known_code, has_message, code_field,
  status_code_of, public_failure, public_failure_for_code, public_failure_message,
  public_failure_code_for_message, code_for_message,
}

-- What a client may see: a code of the table with its text, or one of the two general codes with its
-- text, each for its statuses; and a status of an error.
pub record IsPublic (f : PublicFailure) : Type 0 where
  pub pair :
      (message_of f.code messages ≡ some f.message)
      ⊎ (((f.code ≡ "INTERNAL_ERROR")
            × ((f.message ≡ "Unable to process request") × (500 ≤ f.status_code)))
          ⊎ ((f.code ≡ "REQUEST_FAILED")
              × ((f.message ≡ "The request could not be completed") × (f.status_code < 500))))
  pub low : 400 ≤ f.status_code
  pub high : f.status_code ≤ 599

status-bounds :
    (error : Option FailureRecord) → (400 ≤ status_code_of error) × (status_code_of error ≤ 599)
unfolding status_code_of
status-bounds none = (omega arith, omega arith)
status-bounds (some value) = elim (Option-cases value.status_code) [
  | inl no_status ↦ ground arith
  | inr (status, is) ↦ ground arith
]

known-pair :
    (key : Option String) (table : List (String × String)) {code text : String}
    → known_code key table ≡ some (code, text)
    → message_of code table ≡ some text
unfolding known_code
known-pair none table h = cc
known-pair (some key) table h = elim (Option-cases (message_of key table)) [
  | inl unknown ↦ absurd (ground arith)
  | inr (words, there) ↦ ground arith
]

-- Whatever was caught, `publicFailure` answers with a code of the table and the text of this code, or
-- with INTERNAL_ERROR and its general text for a status from 500, or with REQUEST_FAILED and its
-- general text for one below, and the status is from 400 to 599.
pub public_failure-IsPublic : (error : Option FailureRecord) → IsPublic (public_failure error)
unfolding public_failure
public_failure-IsPublic error = elim (Option-cases (known_code (code_field error) messages)) [
  | inl unknown ↦ elim (Bool-cases (leb 500 (status_code_of error))) [
    | inl server ↦ record {
      pair = inr (inl (ground arith, (ground arith, ground arith)));
      low = ground (arith, status-bounds error);
      high = ground (arith, status-bounds error);
    }
    | inr request ↦ record {
      pair = inr (inr (ground arith, (ground arith, ground arith)));
      low = ground (arith, status-bounds error);
      high = ground (arith, status-bounds error);
    }
  ]
  | inr ((code, words), known) ↦ record {
    pair =
        inl (
          ground
            (arith, known-pair (code_field error) messages {code = code} {text = words} known));
    low = ground (arith, status-bounds error);
    high = ground (arith, status-bounds error);
  }
]

abbrev is_text_of : Option String → String → Bool
is_text_of none text = false
is_text_of (some words) text = words == text

same_text : (s t : String) → (s == t) ≡ true → s ≡ t
same_text s t = (eq_iff s t).0

abbrev found_again : List (String × String) → List (String × String) → Bool
found_again [] table = true
found_again ((code, text) ∷ rest) table =
    (code_for_message text table == code) && found_again rest table

-- The texts of the table are all different.
all_found_again : found_again messages messages ≡ true
unfolding messages code_for_message
all_found_again = refl

code-found :
    (code : String) (table rest : List (String × String)) {text : String}
    → found_again rest table ≡ true
    → message_of code rest ≡ some text
    → code_for_message text table ≡ code
unfolding message_of
code-found code table [] again h = cc
code-found code table ((other, words) ∷ rest) {text} again h = ground (
  arith,
  same_text other code,
  same_text (code_for_message words table) other,
  code-found code table rest {text = text},
)

-- For each code of the table, `publicFailureCodeForMessage` finds the code by its text.
pub public_failure_code_for_message-message_of :
    (code text : String)
    → message_of code messages ≡ some text
    → public_failure_code_for_message text ≡ code
unfolding public_failure_code_for_message
public_failure_code_for_message-message_of code text h =
    code-found code messages messages all_found_again h

-- Each text of a list is the one that a table has for the code that is found by the text.
abbrev paired : List (String × String) → List (String × String) → Bool
paired [] table = true
paired ((code, text) ∷ rest) table =
    is_text_of (message_of (code_for_message text table) table) text && paired rest table

all_paired : paired messages messages ≡ true
unfolding messages message_of code_for_message
all_paired = refl

its_text : (o : Option String) (text : String) → is_text_of o text ≡ true → o ≡ some text
its_text none text h = cc
its_text (some words) text h = ground (arith, same_text words text)

text-paired :
    (text : String) (rest table : List (String × String))
    → paired rest table ≡ true
    → has_message text rest ≡ true
    → message_of (code_for_message text table) table ≡ some text
unfolding has_message
text-paired text [] table again h = cc
text-paired text ((code, words) ∷ rest) table again h = elim (Bool-cases (words == text)) [
  | inl same ↦
      subst (λ t. message_of (code_for_message t table) table ≡ some t) (same_text words text same)
        (its_text (message_of (code_for_message words table) table) words (ground arith))
  | inr other ↦ text-paired text rest table (ground arith) (ground arith)
]

code-unknown :
    (text : String) (table : List (String × String))
    → has_message text table ≡ false
    → code_for_message text table ≡ "ACTIVITY_FAILED"
unfolding has_message code_for_message
code-unknown text [] h = refl
code-unknown text ((code, words) ∷ rest) h = ground (arith, code-unknown text rest)

general : message_of "ACTIVITY_FAILED" messages ≡ some "Agent execution failed"
unfolding messages message_of
general = refl

left-paired :
    (text : String) (table : List (String × String))
    → paired table table ≡ true
    → message_of "ACTIVITY_FAILED" table ≡ some "Agent execution failed"
    → message_of (code_for_message text table) table
      ≡ some (if has_message text table then text else "Agent execution failed")
left-paired text table again named = elim (Bool-cases (has_message text table)) [
  | inl here ↦ rw (here, text-paired text table table again here)
  | inr other ↦ rw (other, code-unknown text table other, named)
]

-- What is left of any text is the text of the table for the code that `publicFailureCodeForMessage`
-- gives the text: nothing that is not in the table gets through, and no text is left with another's
-- code.
pub public_failure_message-message_of :
    (text : String)
    → message_of (public_failure_code_for_message text) messages
      ≡ some (public_failure_message text)
unfolding public_failure_message public_failure_code_for_message
public_failure_message-message_of text = left-paired text messages all_paired general

pair-known :
    (code : String) (table : List (String × String)) {text : String}
    → message_of code table ≡ some text
    → known_code (some code) table ≡ some (code, text)
unfolding known_code
pair-known code table {text} h = ground (arith, h)

keeps_status :
    (error : Option FailureRecord) → (public_failure error).status_code ≡ status_code_of error
unfolding public_failure
keeps_status error = elim (Option-cases (known_code (code_field error) messages)) [
  | inl unknown ↦ ground arith
  | inr ((code, words), known) ↦ ground arith
]

server_status :
    (code : String)
    → status_code_of (some (record { code = some code; status_code = some 500 })) ≡ 500
unfolding status_code_of
server_status code = refl

shows_text :
    (error : Option FailureRecord) (code text : String)
    → known_code (code_field error) messages ≡ some (code, text)
    → (public_failure error).message ≡ text
unfolding public_failure
shows_text error code text known = ground (arith, known)

for_code-message :
    (code text : String)
    → message_of code messages ≡ some text
    → ((public_failure_for_code code).message ≡ text)
      × ((public_failure_for_code code).status_code ≡ 500)
unfolding public_failure_for_code
for_code-message code text h = (
  shows_text (some (record { code = some code; status_code = some 500 })) code text
      (pair-known code messages {text = text} h),
  keeps_status (some (record { code = some code; status_code = some 500 })) ∙ server_status code,
)

-- The failure of a text's code is shown with what `publicFailureMessage` leaves of the text, whatever
-- the text is, and with status 500.
pub public_failure_for_code-message :
    (text : String)
    → ((public_failure_for_code (public_failure_code_for_message text)).message
        ≡ public_failure_message text)
      × ((public_failure_for_code (public_failure_code_for_message text)).status_code ≡ 500)
public_failure_for_code-message text =
    for_code-message (public_failure_code_for_message text) (public_failure_message text)
      (public_failure_message-message_of text)
