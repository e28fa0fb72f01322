-- ===== src/Store/Restart.antt =====
-- That `startQueuedMessage` of packages/db/src/threads/submission.ts may be retried.
mod Mail
mod Rows
use cloud_swe.Base.{
  ℕ, suc, ◌≡◌, subst, refl, ◌∙◌, inl, inr, Bool, true, false, ◌==◌, ◌&&◌, not, leb, is_some, Option,
  none, some, List, [], ◌∷◌, ◌++◌, arith, ok, modify, ◌>>=◌, ==-refl, find, any, update, find-p,
  find-update, find-update_self, rewritten, map_option, Option-cases, Bool-cases, if◌then◌else◌,
}
use cloud_swe.Base.Keeps.{IsPreorder, Keeps, Keeps-modify, keeps_rules}
use cloud_swe.Base.Triples.{Gives, Gives-bind, Gives-pure, Gives-modify}
use cloud_swe.Store.Schema.{
  Db, Thread, Message, MessageDelivery, DeliveryState, OutboxType, EventType, Payload, DedupeKey,
}
use cloud_swe.Store.Shared.{
  StoreError, Action, fresh, append_event, owned_thread, thread_is, set_sequence,
}
use cloud_swe.Store.Log.{Appended, repeated, written, append_event-Appended}
use cloud_swe.Store.Queue.{
  message_is, delivery_of, deliveries_of, earliest, pending_in, next_pending, insert_run,
  insert_outbox, Started, start_message, start_if_admitted, start_next_queued_message,
}
use cloud_swe.Store.Submission.{
  accepted_is, first_row, started_run, is_started, start_accepted, start_queued_message, next_is,
}
use cloud_swe.Store.Restart.Mail.{
  SameMail, SameMail-preorder, modify-SameMail, fresh-SameMail, append_event-SameMail,
  insert_outbox-SameMail, insert_run-SameMail,
}
use cloud_swe.Store.Restart.Rows.{
  Queued, by_name, later, earliest-Queued, two_ends, one_message, first_row-started,
}

-- A message has been given to a run.
record Given (m : Message) (run_id : ℕ) (d e : Db) : Type 0 where
  messages :
      e.messages ≡ update (message_is m.id) (λ m. record m { run_id = some run_id }) d.messages
  deliveries :
      e.deliveries
      ≡ update (delivery_of m.id) (λ x. record x { state = DeliveryState.started }) d.deliveries
  owned :
      (i u : ℕ)
      → is_some (find (owned_thread i u) d.threads) ≡ true
      → is_some (find (owned_thread i u) e.threads) ≡ true

Given-SameMail :
    {m : Message} {run_id : ℕ} {d e f : Db} → Given m run_id d e → SameMail e f → Given m run_id d f
Given-SameMail g s = record {
  messages = s.messages ∙ g.messages;
  deliveries = s.deliveries ∙ g.deliveries;
  owned = λ i u h. s.owned i u (g.owned i u h);
}

abbrev Answers : ℕ → Message → Db → Option Started → Db → Type 0
Answers t m d r e =
    (s : Started)
    → r ≡ some s
    → (s ≡ record { thread_id = t; run_id = s.run_id; message_id = m.id }) × Given m s.run_id d e

from_start : {d e f : Db} → e ≡ d → SameMail e f → SameMail d f
from_start is k = rw (← is) k

renamed : {m : Message} {a b : ℕ} {d e : Db} → a ≡ b → Given m a d e → Given m b d e
renamed is k = rw (← is) k

module _ (t u : ℕ) (m : Message) (x : MessageDelivery) (d : Db) where
  start_message-Answers : Gives (λ e. e ≡ d) (Answers t m d) (start_message t u (m, x))
  unfolding start_message
  start_message-Answers =
      Gives-bind (λ _ e. SameMail d e) _ _
        (record {
          at = λ e a f is h. from_start is ((insert_run-SameMail t u m.content _ _).at e a f h);
        })
        λ run_id.
          Gives-bind (λ _ e. Given m run_id d e) _ _
            (Gives-modify _ λ e k. record {
              messages = ground (arith, k.messages);
              deliveries = ground (arith, k.deliveries);
              owned = k.owned;
            })
            λ _.
              Gives-bind (λ _ e. Given m run_id d e) _ _
                (record {
                  at = λ e a f k h. Given-SameMail k ((append_event-SameMail _ _ _ _).at e a f h);
                })
                λ _.
                  Gives-bind (λ _ e. Given m run_id d e) _ _
                    (record {
                      at =
                          λ e a f k h. Given-SameMail k ((insert_outbox-SameMail _ _ _).at e a f h);
                    })
                    λ _. Gives-pure _ λ e k s is. (ground arith, renamed (ground arith) k)

-- The answer is found again in the rows that it wrote.
give-started :
    (t run_id : ℕ) (m : Message) (d e : Db)
    → Queued t d.messages d.deliveries m
    → Given m run_id d e
    → started_run (first_row (deliveries_of (accepted_is t m.id) e.messages e.deliveries))
      ≡ some run_id
give-started t run_id m d e q g =
    let row =
      find-update_self (message_is m.id) (λ m. record m { run_id = some run_id }) d.messages {a = m}
        (λ y. refl) q.there in
    rw (g.messages, g.deliveries)
      (first_row-started t m.id
        (update (message_is m.id) (λ m. record m { run_id = some run_id }) d.messages)
        (record m { run_id = some run_id }) d.deliveries row q.its q.delivered)

pending-Queued :
    (t : ℕ) (d : Db) {m : Message} {x : MessageDelivery}
    → next_pending t d ≡ some (m, x)
    → Queued t d.messages d.deliveries m
unfolding next_pending
pending-Queued t d {m} {x} h = earliest-Queued t d.messages d.deliveries {m = m} {x = x} h

-- A start of a queued message that returned, made again with nothing else between, answers with the
-- same run and starts nothing.
pub start_queued_message-again :
    (u t i : ℕ) (d : Db) (s : Started) (d' : Db)
    → start_queued_message u t i d ≡ ok (s, d')
    → start_queued_message u t i d' ≡ ok (s, d')
unfolding start_queued_message start_accepted start_next_queued_message start_if_admitted ◌>>=◌
start_queued_message-again u t i d s d' h =
    elim (Option-cases
      (started_run (first_row (deliveries_of (accepted_is t i) d.messages d.deliveries)))) [
        | inr (r, started) ↦ ground arith
        | inl new ↦ elim (Option-cases (next_pending t d)) [
          | inl nothing ↦ absurd (ground arith)
          | inr ((m, x), next) ↦
              (let (is, g) =
                  (start_message-Answers t u m x d).at d (some s) d' refl (ground arith) s refl in
                let named : m.id ≡ i = ground arith in
                let found =
                  give-started t s.run_id m d d' (pending-Queued t d {m = m} {x = x} next) g in
                let again =
                  subst
                    (λ j.
                      started_run
                        (first_row (deliveries_of (accepted_is t j) d'.messages d'.deliveries))
                      ≡ some s.run_id)
                    named found in
                let mine = g.owned t u (ground arith) in ground (arith, again, mine, is))
        ]
      ]
