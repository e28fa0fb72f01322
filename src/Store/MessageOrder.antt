-- ===== src/Store/MessageOrder.antt =====
-- Which message `startNextQueuedMessage` of packages/db/src/threads/submission.ts starts, and when.
use cloud_swe.Base.{
  ℕ, suc, ◌≤◌, ◌≡◌, refl, inl, inr, Bool, false, ltb, Option, none, some, List, [], ◌∷◌, arith, ok,
  ◌>>=◌, any, count, Option-cases, any-weaker, count-append,
}
use cloud_swe.Base.Keeps.{Keeps}
use cloud_swe.Base.Triples.{Gives, Gives-bind, Gives-pure}
use cloud_swe.Store.Schema.{Db, Text, Message, MessageDelivery}
use cloud_swe.Store.Shared.{StoreError, Action, fresh, active_in}
use cloud_swe.Store.Queue.{
  deliveries_of, earliest, pending_in, next_pending, is_active, new_run, insert_run, Started,
  start_message, start_if_admitted, start_next_queued_message,
}
use cloud_swe.Store.Lifecycle.{Still, still_rules, insert_outbox-Still}

abbrev sooner : Message × MessageDelivery → Message × MessageDelivery → Bool
sooner x y = ltb y.1.sequence x.1.sequence

earliest-none :
    (q : Message × MessageDelivery → Bool) (xs : List (Message × MessageDelivery))
    → earliest xs ≡ none
    → any q xs ≡ false
unfolding earliest any
earliest-none q [] h = refl
earliest-none q (y ∷ ys) h = absurd (ground arith)

-- No other has a smaller number.
earliest-least :
    (xs : List (Message × MessageDelivery)) {x : Message × MessageDelivery}
    → earliest xs ≡ some x
    → any (sooner x) xs ≡ false
unfolding earliest any
earliest-least [] h = cc
earliest-least (y ∷ ys) {x} h = elim (Option-cases (earliest ys)) [
  | inl last ↦ ground (arith, earliest-none (sooner x) ys last)
  | inr (z, there) ↦
      let least : any (sooner z) ys ≡ false = earliest-least ys there in
      ground (arith, least, any-weaker (sooner y) (sooner z) ys)
]

-- The message that is started next: pending in the thread with no other of them accepted before it,
-- while the thread is idle and there is room for one more run.
pub record Next (thread_id : ℕ) (d : Db) (s : Started) (d' : Db) : Type 0 where
  pub message : Message
  pub delivery : MessageDelivery
  pub queued : next_pending thread_id d ≡ some (message, delivery)
  pub first :
      any
        (sooner (message, delivery))
        (deliveries_of (pending_in thread_id) d.messages d.deliveries)
      ≡ false
  pub named : s.message_id ≡ message.id
  pub idle : any (active_in thread_id) d.runs ≡ false
  pub one_more : count is_active d'.runs ≡ suc (count is_active d.runs)
  pub room : count is_active d'.runs ≤ delivery.max_active_runs

-- What a message that starts has found and left.
abbrev OneMore : ℕ → Db → Db → Type 0
OneMore t d e =
    (any (active_in t) d.runs ≡ false) × (count is_active e.runs ≡ suc (count is_active d.runs))

abbrev Starts : ℕ → ℕ → Db → Option Started → Db → Type 0
Starts t m d r e = ((s : Started) → r ≡ some s → s.message_id ≡ m) × OneMore t d e

module _ (t : ℕ) (d : Db) where
  insert_run-OneMore :
      (u : ℕ) (p : Text) (s : Option ℕ) (x : StoreError)
      → Gives (λ e. e ≡ d) (λ _. OneMore t d) (insert_run t u p s x)
  unfolding insert_run fresh count ◌>>=◌
  insert_run-OneMore u p s x = record {
    at = λ e a d' is h. (
      ground arith,
      ground (arith, count-append is_active d.runs (new_run (suc d.next_id) t u p s d.clock ∷ [])),
    );
  }

  -- What leaves the runs as they are.
  quiet : {A : Type 0} (m : Action A) → Keeps Still m → Gives (OneMore t d) (λ _. OneMore t d) m
  quiet m k = record { at = λ e a e' (idle, more) h. (idle, rw (k.at e a e' h) more) }

  start_message-Starts :
      (u : ℕ) (x : Message × MessageDelivery)
      → Gives (λ e. e ≡ d) (Starts t x.0.id d) (start_message t u x)
  unfolding start_message
  start_message-Starts u (m, x) =
      Gives-bind (λ _. OneMore t d) _ _ (insert_run-OneMore u m.content _ _)
        λ run_id.
          Gives-bind (λ _. OneMore t d) _ _ (quiet _ (search still_rules depth 8))
            λ _.
              Gives-bind (λ _. OneMore t d) _ _ (quiet _ (search still_rules depth 8))
                λ _.
                  Gives-bind (λ _. OneMore t d) _ _
                    (quiet _ (search (still_rules, insert_outbox-Still) depth 8))
                    λ _. Gives-pure _ λ e more. ((λ s is. ground arith), more)

first_of_all :
    (t : ℕ) (d : Db) {x : Message × MessageDelivery}
    → next_pending t d ≡ some x
    → any (sooner x) (deliveries_of (pending_in t) d.messages d.deliveries) ≡ false
unfolding next_pending
first_of_all t d h = earliest-least (deliveries_of (pending_in t) d.messages d.deliveries) h

-- Where a call starts a message, it is the earliest that is pending in the thread, the thread had no
-- active run, and with the new one there are at most as many active runs as the message allows.
pub start_next_queued_message-Next :
    (t u : ℕ) (d : Db) (s : Started) (d' : Db)
    → start_next_queued_message t u d ≡ ok (some s, d')
    → Next t d s d'
unfolding start_next_queued_message start_if_admitted ◌>>=◌
start_next_queued_message-Next t u d s d' h = elim (Option-cases (next_pending t d)) [
  | inl nothing ↦ absurd (ground arith)
  | inr ((m, x), next) ↦
      (let (names, (idle, more)) =
          (start_message-Starts t d u (m, x)).at d (some s) d' refl (ground arith) in
        record {
          message = m;
          delivery = x;
          queued = next;
          first = first_of_all t d next;
          named = names s refl;
          idle = idle;
          one_more = more;
          room = ground arith;
        })
]
