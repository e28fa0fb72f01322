-- ===== src/Store/Delivery.antt =====
-- packages/db/src/threads/outbox.ts: the signals that the dispatcher delivers.
use Prim.Native.String.{String}
use cloud_swe.Base.{
  ℕ, suc, ◌+◌, Bool, Option, none, some, List, [], ◌∷◌, ◌==◌, ◌&&◌, not, ltb, zero, is_some, select,
  update,
}
use cloud_swe.PublicFailure.{public_failure_message}
use cloud_swe.Store.Schema.{Db, Outbox}

abbrev pub outbox_is : ℕ → Outbox → Bool
outbox_is id o = o.id == id

-- Undelivered, and due before now.
abbrev pub is_deliverable : ℕ → Outbox → Bool
is_deliverable now o = not (is_some o.delivered_at) && ltb o.available_at now

unfoldable pub first_rows : ℕ → List Outbox → List Outbox
first_rows zero os = []
first_rows (suc n) [] = []
first_rows (suc n) (o ∷ os) = o ∷ first_rows n os

-- The table is in the order of creation.
unfoldable pub list_pending_outbox : ℕ → Db → List Outbox
unfolding first_rows
list_pending_outbox limit d = first_rows limit (select (is_deliverable d.clock) d.outbox)

unfoldable pub mark_delivered : ℕ → Db → Db
mark_delivered id d = record d {
  outbox = update (outbox_is id) (λ o. record o { delivered_at = some d.clock }) d.outbox;
}

abbrev pub retry_time : Option ℕ → ℕ → ℕ
retry_time none now = now + 1000
retry_time (some t) now = t

unfoldable pub record_failure : ℕ → String → Option ℕ → Db → Db
record_failure id error retry_at d = record d {
  outbox =
      update (outbox_is id)
        (λ o. record o {
          attempts = suc o.attempts;
          last_error = some (public_failure_message error);
          available_at = retry_time retry_at d.clock;
        })
        d.outbox;
}
