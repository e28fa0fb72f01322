-- ===== src/Store/Retries.antt =====
-- When packages/db/src/threads/outbox.ts hands out a row again.
use cloud_swe.Base.{
  ℕ, zero, suc, ◌+◌, ◌≤◌, ◌≡◌, refl, Bool, false, Option, List, [], ◌∷◌, arith, any, select, update,
}
use Prim.Native.String.{String}
use cloud_swe.Store.Schema.{Db, Outbox}
use cloud_swe.Store.History.{advance}
use cloud_swe.Store.Delivery.{
  outbox_is, is_deliverable, first_rows, list_pending_outbox, mark_delivered, retry_time,
  record_failure,
}

any-first_rows :
    (p : Outbox → Bool) (n : ℕ) (xs : List Outbox)
    → any p xs ≡ false
    → any p (first_rows n xs) ≡ false
unfolding any first_rows
any-first_rows p zero xs h = refl
any-first_rows p (suc n) [] h = refl
any-first_rows p (suc n) (x ∷ xs) h = ground (arith, any-first_rows p n xs)

-- The row that a write makes undeliverable is not among the deliverable ones.
any-select_written :
    (id now : ℕ) (f : Outbox → Outbox) (xs : List Outbox)
    → ((x : Outbox) → is_deliverable now (f x) ≡ false)
    → any (outbox_is id) (select (is_deliverable now) (update (outbox_is id) f xs)) ≡ false
unfolding any select update
any-select_written id now f [] h = refl
any-select_written id now f (x ∷ xs) h = ground (arith, h x, any-select_written id now f xs h)

-- A row that was delivered is not handed out again, however much time passes.
pub mark_delivered-final :
    (id limit ms : ℕ) (d : Db)
    → any (outbox_is id) (list_pending_outbox limit (advance ms (mark_delivered id d))) ≡ false
unfolding list_pending_outbox advance mark_delivered
mark_delivered-final id limit ms d =
    any-first_rows (outbox_is id) limit _
      (any-select_written id (d.clock + ms) _ d.outbox λ x. refl)

-- A row that failed is not handed out before its time to be tried again has passed.
pub record_failure-waits :
    (id limit ms : ℕ) (error : String) (retry : Option ℕ) (d : Db)
    → d.clock + ms ≤ retry_time retry d.clock
    → any (outbox_is id) (list_pending_outbox limit (advance ms (record_failure id error retry d)))
      ≡ false
unfolding list_pending_outbox advance record_failure
record_failure-waits id limit ms error retry d h =
    any-first_rows (outbox_is id) limit _
      (any-select_written id (d.clock + ms) _ d.outbox λ x. ground arith)
