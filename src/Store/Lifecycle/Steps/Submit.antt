-- ===== src/Store/Lifecycle/Steps/Submit.antt =====
-- The submission and the edits of messages keep the life of the runs.
use cloud_swe.Base.{ℕ, Bool, Option, none, some, List}
use cloud_swe.Base.Keeps.{Keeps}
use cloud_swe.Store.Schema.{Text, Run, Attachment, DeliveryMode, MessageDelivery}
use cloud_swe.Store.Submit.{
  Catalog, SubmitInput, Prior, validate_attachments, check_request, check_active, ensure_admission,
  insert_thread, target_thread, target_run, insert_message, bind_attachment, bind_attachments,
  insert_delivery, deliver, finish_submission, accept_message, accept_request, replay_request,
  submit_found, submit, edit_message, update_pending_message,
}
use cloud_swe.Store.Lifecycle.{Lives}
use cloud_swe.Store.Lifecycle.Steps.Parts.{life_part_rules}

validate_attachments-Lives :
    (c : Catalog) (x : SubmitInput) (t : Option ℕ) → Keeps Lives (validate_attachments c x t)
unfolding validate_attachments
validate_attachments-Lives c x t = search life_part_rules depth 20

check_request-Lives :
    (c : Catalog) (x : SubmitInput) (t : Option ℕ) → Keeps Lives (check_request c x t)
unfolding check_request
check_request-Lives c x t = search (life_part_rules, validate_attachments-Lives) depth 20

check_active-Lives : (x : SubmitInput) (r : Option Run) → Keeps Lives (check_active x r)
unfolding check_active
check_active-Lives x none = search life_part_rules depth 20
check_active-Lives x (some r) = search life_part_rules depth 20

ensure_admission-Lives : (x : SubmitInput) (r : Option Run) → Keeps Lives (ensure_admission x r)
unfolding ensure_admission
ensure_admission-Lives x none = search life_part_rules depth 20
ensure_admission-Lives x (some r) = search life_part_rules depth 20

insert_thread-Lives : (x : SubmitInput) → Keeps Lives (insert_thread x)
unfolding insert_thread
insert_thread-Lives x = search life_part_rules depth 20

target_thread-Lives : (x : SubmitInput) (t : Option ℕ) → Keeps Lives (target_thread x t)
unfolding target_thread
target_thread-Lives x none = search (life_part_rules, insert_thread-Lives) depth 20
target_thread-Lives x (some t) = search life_part_rules depth 20

target_run-Lives : (x : SubmitInput) (t : ℕ) (r : Option Run) → Keeps Lives (target_run x t r)
unfolding target_run
target_run-Lives x t none = search life_part_rules depth 20
target_run-Lives x t (some r) = search life_part_rules depth 20

insert_message-Lives :
    (x : SubmitInput) (q : Option ℕ) (t : ℕ) (r : Option ℕ) → Keeps Lives (insert_message x q t r)
unfolding insert_message
insert_message-Lives x q t r = search life_part_rules depth 20

bind_attachment-Lives : (u m : ℕ) (x : ℕ × Attachment) → Keeps Lives (bind_attachment u m x)
unfolding bind_attachment
bind_attachment-Lives u m x = search life_part_rules depth 20

bind_attachments-Lives :
    (u m : ℕ) (rows : List Attachment) → Keeps Lives (bind_attachments u m rows)
unfolding bind_attachments
bind_attachments-Lives u m rows = search (life_part_rules, bind_attachment-Lives) depth 20

insert_delivery-Lives : (x : MessageDelivery) → Keeps Lives (insert_delivery x)
unfolding insert_delivery
insert_delivery-Lives x = search life_part_rules depth 20

deliver-Lives :
    (x : SubmitInput) (t m r : ℕ) (b : Bool) (o : Option DeliveryMode) (s : Option ℕ)
    → Keeps Lives (deliver x t m r b o s)
unfolding deliver
deliver-Lives x t m r b none s = search life_part_rules depth 20
deliver-Lives x t m r b (some o) none = search life_part_rules depth 20
deliver-Lives x t m r b (some o) (some s) = search (life_part_rules, insert_delivery-Lives) depth 20

finish_submission-Lives :
    (x : SubmitInput) (t m r : ℕ) (a : Option Run) → Keeps Lives (finish_submission x t m r a)
unfolding finish_submission
finish_submission-Lives x t m r none = search life_part_rules depth 20
finish_submission-Lives x t m r (some a) = search life_part_rules depth 20

accept_message-Lives :
    (x : SubmitInput) (q : Option ℕ) (rows : List Attachment) (a : Option Run) (t : ℕ)
    → Keeps Lives (accept_message x q rows a t)
unfolding accept_message
accept_message-Lives x q rows a t =
    search
      (
        life_part_rules, target_run-Lives, insert_message-Lives, bind_attachments-Lives,
        deliver-Lives, finish_submission-Lives,
      )
      depth 20

accept_request-Lives :
    (c : Catalog) (x : SubmitInput) (t : Option ℕ) → Keeps Lives (accept_request c x t)
unfolding accept_request
accept_request-Lives c x t =
    search
      (
        life_part_rules, check_request-Lives, check_active-Lives, ensure_admission-Lives,
        target_thread-Lives, accept_message-Lives,
      )
      depth 20

replay_request-Lives :
    (x : SubmitInput) (t : Option ℕ) (p : Prior) → Keeps Lives (replay_request x t p)
unfolding replay_request
replay_request-Lives x t p = search life_part_rules depth 20

submit_found-Lives :
    (c : Catalog) (x : SubmitInput) (t : Option ℕ) (p : Option Prior)
    → Keeps Lives (submit_found c x t p)
unfolding submit_found
submit_found-Lives c x t none = search (life_part_rules, accept_request-Lives) depth 20
submit_found-Lives c x t (some p) = search (life_part_rules, replay_request-Lives) depth 20

pub submit-Lives : (c : Catalog) (x : SubmitInput) (t : Option ℕ) → Keeps Lives (submit c x t)
unfolding submit
submit-Lives c x t = search (life_part_rules, submit_found-Lives) depth 20

edit_message-Lives : (m : ℕ) (t : Option Text) → Keeps Lives (edit_message m t)
unfolding edit_message
edit_message-Lives m none = search life_part_rules depth 20
edit_message-Lives m (some t) = search life_part_rules depth 20

pub update_pending_message-Lives :
    (u t m : ℕ) (x : Option Text) → Keeps Lives (update_pending_message u t m x)
unfolding update_pending_message
update_pending_message-Lives u t m x = search (life_part_rules, edit_message-Lives) depth 20
