-- ===== src/Store/Steps/Submit.antt =====
-- The submission and the edits of messages.
use cloud_swe.Base.{ℕ, Bool, Option, none, some, List}
use cloud_swe.Base.Keeps.{Keeps}
use cloud_swe.Store.Schema.{Db, Text, Run, Attachment, DeliveryMode}
use cloud_swe.Store.Submit.{
  Catalog, SubmitInput, Prior, validate_attachments, check_request, check_active, ensure_admission,
  target_thread, target_run, bind_attachment, bind_attachments, deliver, finish_submission,
  accept_message, accept_request, replay_request, submit_found, submit, update_pending_message,
}
use cloud_swe.Store.Steps.Writes.{Writes}
use cloud_swe.Store.Steps.Parts.{part_rules}

module _ {R : Db → Db → Type 0} (writes : Writes R) where
  validate_attachments-Keeps :
      (c : Catalog) (x : SubmitInput) (t : Option ℕ) → Keeps R (validate_attachments c x t)
  unfolding validate_attachments
  validate_attachments-Keeps c x t = search part_rules depth 20

  check_request-Keeps :
      (c : Catalog) (x : SubmitInput) (t : Option ℕ) → Keeps R (check_request c x t)
  unfolding check_request
  check_request-Keeps c x t = search (part_rules, validate_attachments-Keeps) depth 20

  check_active-Keeps : (x : SubmitInput) (r : Option Run) → Keeps R (check_active x r)
  unfolding check_active
  check_active-Keeps x none = search part_rules depth 20
  check_active-Keeps x (some r) = search part_rules depth 20

  ensure_admission-Keeps : (x : SubmitInput) (r : Option Run) → Keeps R (ensure_admission x r)
  unfolding ensure_admission
  ensure_admission-Keeps x none = search part_rules depth 20
  ensure_admission-Keeps x (some r) = search part_rules depth 20

  target_thread-Keeps : (x : SubmitInput) (t : Option ℕ) → Keeps R (target_thread x t)
  unfolding target_thread
  target_thread-Keeps x none = search (part_rules) depth 20
  target_thread-Keeps x (some t) = search part_rules depth 20

  target_run-Keeps : (x : SubmitInput) (t : ℕ) (r : Option Run) → Keeps R (target_run x t r)
  unfolding target_run
  target_run-Keeps x t none = search part_rules depth 20
  target_run-Keeps x t (some r) = search part_rules depth 20

  bind_attachment-Keeps : (u m : ℕ) (x : ℕ × Attachment) → Keeps R (bind_attachment u m x)
  unfolding bind_attachment
  bind_attachment-Keeps u m x = search part_rules depth 20

  bind_attachments-Keeps : (u m : ℕ) (rows : List Attachment) → Keeps R (bind_attachments u m rows)
  unfolding bind_attachments
  bind_attachments-Keeps u m rows = search (part_rules, bind_attachment-Keeps) depth 20

  deliver-Keeps :
      (x : SubmitInput) (t m r : ℕ) (b : Bool) (o : Option DeliveryMode) (s : Option ℕ)
      → Keeps R (deliver x t m r b o s)
  unfolding deliver
  deliver-Keeps x t m r b none s = search part_rules depth 20
  deliver-Keeps x t m r b (some o) none = search part_rules depth 20
  deliver-Keeps x t m r b (some o) (some s) = search (part_rules) depth 20

  finish_submission-Keeps :
      (x : SubmitInput) (t m r : ℕ) (a : Option Run) → Keeps R (finish_submission x t m r a)
  unfolding finish_submission
  finish_submission-Keeps x t m r none = search part_rules depth 20
  finish_submission-Keeps x t m r (some a) = search part_rules depth 20

  accept_message-Keeps :
      (x : SubmitInput) (q : Option ℕ) (rows : List Attachment) (a : Option Run) (t : ℕ)
      → Keeps R (accept_message x q rows a t)
  unfolding accept_message
  accept_message-Keeps x q rows a t =
      search
        (
          part_rules, target_run-Keeps, bind_attachments-Keeps, deliver-Keeps,
          finish_submission-Keeps,
        )
        depth 20

  accept_request-Keeps :
      (c : Catalog) (x : SubmitInput) (t : Option ℕ) → Keeps R (accept_request c x t)
  unfolding accept_request
  accept_request-Keeps c x t =
      search
        (
          part_rules, check_request-Keeps, check_active-Keeps, ensure_admission-Keeps,
          target_thread-Keeps, accept_message-Keeps,
        )
        depth 20

  replay_request-Keeps :
      (x : SubmitInput) (t : Option ℕ) (p : Prior) → Keeps R (replay_request x t p)
  unfolding replay_request
  replay_request-Keeps x t p = search part_rules depth 20

  submit_found-Keeps :
      (c : Catalog) (x : SubmitInput) (t : Option ℕ) (p : Option Prior)
      → Keeps R (submit_found c x t p)
  unfolding submit_found
  submit_found-Keeps c x t none = search (part_rules, accept_request-Keeps) depth 20
  submit_found-Keeps c x t (some p) = search (part_rules, replay_request-Keeps) depth 20

  pub submit-Keeps : (c : Catalog) (x : SubmitInput) (t : Option ℕ) → Keeps R (submit c x t)
  unfolding submit
  submit-Keeps c x t = search (part_rules, submit_found-Keeps) depth 20

  pub update_pending_message-Keeps :
      (u t m : ℕ) (x : Option Text) → Keeps R (update_pending_message u t m x)
  unfolding update_pending_message
  update_pending_message-Keeps u t m x = search (part_rules) depth 20
