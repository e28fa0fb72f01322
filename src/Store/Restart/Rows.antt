-- ===== src/Store/Restart/Rows.antt =====
-- The rows that a start of a message reads and writes.
use cloud_swe.Base.{
  ℕ, ◌≡◌, inl, inr, true, false, ◌==◌, leb, Option, none, some, List, [], ◌∷◌, arith, find, any,
  update, find-p, Option-cases, Bool-cases,
}
use cloud_swe.Store.Schema.{Message, MessageDelivery, DeliveryState}
use cloud_swe.Store.Queue.{message_is, delivery_of, deliveries_of, earliest, pending_in}
use cloud_swe.Store.Submission.{accepted_is, first_row, started_run}

-- The earliest pending message is one of the thread, and has a delivery.
pub record Queued (t : ℕ) (ms : List Message) (xs : List MessageDelivery) (m : Message)
    : Type 0 where
  pub there : find (message_is m.id) ms ≡ some m
  pub its : m.thread_id ≡ t
  pub delivered : any (delivery_of m.id) xs ≡ true

pub by_name :
    (a b : ℕ) (ms : List Message) {o : Option Message}
    → a ≡ b
    → find (message_is b) ms ≡ o
    → find (message_is a) ms ≡ o
by_name a b ms e p = cc

pub later :
    {t : ℕ} (ms : List Message) (y : MessageDelivery) {ys : List MessageDelivery} {m : Message}
    → Queued t ms ys m
    → Queued t ms (y ∷ ys) m
unfolding any
later ms y q = record { there = q.there; its = q.its; delivered = ground (arith, q.delivered) }

pub earliest-Queued :
    (t : ℕ) (ms : List Message) (xs : List MessageDelivery) {m : Message} {x : MessageDelivery}
    → earliest (deliveries_of (pending_in t) ms xs) ≡ some (m, x)
    → Queued t ms xs m
unfolding earliest deliveries_of any
earliest-Queued t ms [] h = cc
earliest-Queued t ms (y ∷ ys) {m} {x} h = elim (Option-cases (find (message_is y.message_id) ms)) [
  | inl gone ↦ later ms y (earliest-Queued t ms ys {m = m} {x = x} (ground arith))
  | inr (w, found) ↦ elim (Bool-cases (pending_in t (w, y))) [
    | inr other ↦ later ms y (earliest-Queued t ms ys {m = m} {x = x} (ground arith))
    | inl pending ↦ elim (Option-cases (earliest (deliveries_of (pending_in t) ms ys))) [
      | inl last ↦ (let is : m ≡ w = ground arith in rw is (here w found pending))
      | inr (z, next) ↦ elim (Bool-cases (leb y.sequence z.1.sequence)) [
        | inl sooner ↦ (let is : m ≡ w = ground arith in rw is (here w found pending))
        | inr after ↦ later ms y (earliest-Queued t ms ys {m = m} {x = x} (ground arith))
      ]
    ]
  ]
]
  where
    here :
        (w : Message)
        → find (message_is y.message_id) ms ≡ some w
        → pending_in t (w, y) ≡ true
        → Queued t ms (y ∷ ys) w
    here w found pending =
        let named : w.id ≡ y.message_id =
          ground (arith, find-p (message_is y.message_id) ms {a = w} found) in
        record {
          there = by_name w.id y.message_id ms named found;
          its = ground arith;
          delivered = ground (arith, named);
        }

pub two_ends : (o : Option Message) {r : Message} → o ≡ none → o ≡ some r → ⊥
two_ends o p q = cc

pub one_message :
    (a b : ℕ) (ms : List Message) {w r : Message}
    → a ≡ b
    → find (message_is a) ms ≡ some w
    → find (message_is b) ms ≡ some r
    → w ≡ r
one_message a b ms e p q = cc

-- The delivery of a started message, as it is read again.
pub first_row-started :
    (t m : ℕ) (ms : List Message) (row : Message) (xs : List MessageDelivery)
    → find (message_is m) ms ≡ some row
    → row.thread_id ≡ t
    → any (delivery_of m) xs ≡ true
    → started_run (
        first_row (
          deliveries_of
            (accepted_is t m)
            ms
            (update (delivery_of m) (λ x. record x { state = DeliveryState.started }) xs)))
      ≡ row.run_id
unfolding deliveries_of any update
first_row-started t m ms row [] there its has = cc
first_row-started t m ms row (y ∷ ys) there its has =
    elim (Option-cases (find (message_is y.message_id) ms)) [
      | inl gone ↦
          (let other : (y.message_id == m) ≡ false = elsewhere gone in
            ground (arith, first_row-started t m ms row ys there its))
      | inr (w, found) ↦ elim (Bool-cases (y.message_id == m)) [
        | inr other ↦ ground (
          arith,
          find-p (message_is y.message_id) ms {a = w} found,
          first_row-started t m ms row ys there its,
        )
        | inl named ↦
            (let same : w ≡ row = one_message y.message_id m ms (ground arith) found there in
              ground (arith, find-p (message_is m) ms {a = row} there))
      ]
    ]
  where
    elsewhere : find (message_is y.message_id) ms ≡ none → (y.message_id == m) ≡ false
    elsewhere gone = elim (Bool-cases (y.message_id == m)) [
      | inr other ↦ other
      | inl named ↦
          (let is : y.message_id ≡ m = ground arith in
            absurd (two_ends (find (message_is m) ms) (rw is at gone) there))
    ]
