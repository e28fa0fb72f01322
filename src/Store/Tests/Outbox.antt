-- ===== src/Store/Tests/Outbox.antt =====
-- An outbox with two signals that are due.
use cloud_swe.Base.{ℕ, ◌≡◌, false, none, some, [], ◌∷◌, any, arith}
use cloud_swe.Store.Schema.{Db, Outbox, OutboxType}
use cloud_swe.Store.History.{advance}
use cloud_swe.Store.Delivery.{outbox_is, list_pending_outbox, mark_delivered, record_failure}
use cloud_swe.Store.Retries.{mark_delivered-final, record_failure-waits}
use cloud_swe.Store.Tests.Data.{start}

abbrev signal : ℕ → Outbox
signal id = record {
  id = id;
  kind = OutboxType.workspace_wake;
  thread_id = 1;
  run_id = none;
  attempts = 0;
  available_at = 900;
  delivered_at = none;
  last_error = none;
  created_at = 900;
}

abbrev due : Db
due = record start { outbox = signal 91 ∷ signal 92 ∷ [] }

mark_delivered-final_example :
    any (outbox_is 91) (list_pending_outbox 10 (advance 5000 (mark_delivered 91 due))) ≡ false
mark_delivered-final_example = mark_delivered-final 91 10 5000 due

record_failure-waits_example :
    any
      (outbox_is 92)
      (list_pending_outbox 10 (advance 700 (record_failure 92 "timeout" (some 2000) due)))
    ≡ false
record_failure-waits_example =
    record_failure-waits 92 10 700 "timeout" (some 2000) due (omega arith)
