-- ===== src/Store/Steps/Writes.antt =====
-- The writes that the operations are made of, and the laws of a relation that they keep.
use cloud_swe.Base.{
  ℕ, Bool, ◌≡◌, refl, true, false, ◌==◌, ◌&&◌, Option, none, some, List, [], ◌∷◌, arith, modify,
  any, update, any-update, if◌then◌else◌,
}
use cloud_swe.Base.Keeps.{IsPreorder, Keeps, keeps_rules}
use cloud_swe.Store.Schema.{
  Db, Text, BrowserOwner, Thread, Run, DeliveryState, MessageDelivery, EventType, Payload,
  DedupeKey,
}
use cloud_swe.Store.Shared.{StoreError, append_event, append_git_event, fresh}
use cloud_swe.Store.Queue.{insert_run, message_is, delivery_of}
use cloud_swe.Store.Runs.{insert_answer}
use cloud_swe.Store.Deletion.{cascade_thread}
use cloud_swe.Store.Submit.{
  SubmitInput, insert_thread, insert_message, insert_delivery, edit_message,
}

-- Whose run an id is, as far as the table says.
abbrev pub run_of_thread : ℕ → ℕ → Run → Bool
run_of_thread id thread_id r = (r.id == id) && (r.thread_id == thread_id)

-- The runs after are runs of the same threads as those before.
pub record SameOwners (before after : List Run) : Type 0 where
  pub at :
      (id thread_id : ℕ)
      → any (run_of_thread id thread_id) after ≡ any (run_of_thread id thread_id) before

pub SameOwners-refl : (rs : List Run) → SameOwners rs rs
SameOwners-refl rs = record { at = λ i t. refl }

pub SameOwners-update :
    (q : Run → Bool) (f : Run → Run) (rs : List Run)
    → ((r : Run) → (f r).id ≡ r.id)
    → ((r : Run) → (f r).thread_id ≡ r.thread_id)
    → SameOwners rs (update q f rs)
SameOwners-update q f rs id thread = record {
  at = λ i t. any-update (run_of_thread i t) q f rs (λ r. ground (arith, id r, thread r));
}

-- A relation between databases that each write of the store keeps.
pub record Writes (R : Db → Db → Type 0) : Type 0 where
  pub preorder : IsPreorder R
  pub elsewhere :
      (f : Db → Db)
      → ((d : Db) → (f d).threads ≡ d.threads)
      → ((d : Db) → (f d).messages ≡ d.messages)
      → ((d : Db) → (f d).deliveries ≡ d.deliveries)
      → ((d : Db) → (f d).events ≡ d.events)
      → ((d : Db) → (f d).next_id ≡ d.next_id)
      → ((d : Db) → SameOwners d.runs (f d).runs)
      → Keeps {E = StoreError} R (modify f)
  pub new_id : Keeps R fresh
  pub event :
      (i : ℕ) (kind : EventType) (payload : Payload) (key : DedupeKey)
      → Keeps R (append_event i kind payload key)
  pub git_event :
      (i : ℕ) (kind : EventType) (op : ℕ) (payload : Payload)
      → Keeps R (append_git_event i kind op payload)
  pub browser_owner :
      (q : Thread → Bool) (o : BrowserOwner)
      → Keeps {E = StoreError} R (
          modify
            (λ d. record d { threads = update q (λ t. record t { browser_owner = o }) d.threads }))
  pub tombstone :
      (q : Thread → Bool)
      → Keeps {E = StoreError} R (
          modify (λ d. record d {
            threads = update q (λ t. record t { deleted_at = some d.clock }) d.threads;
          }))
  pub cascade : (k : ℕ) → Keeps {E = StoreError} R (modify (cascade_thread k))
  pub thread : (x : SubmitInput) → Keeps R (insert_thread x)
  pub run : (i j : ℕ) (k : Text) (s : Option ℕ) (e : StoreError) → Keeps R (insert_run i j k s e)
  pub answer : (r : Run) (content : Text) → Keeps R (insert_answer r content)
  pub message :
      (x : SubmitInput) (q : Option ℕ) (t : ℕ) (r : Option ℕ) → Keeps R (insert_message x q t r)
  pub delivery : (x : MessageDelivery) → Keeps R (insert_delivery x)
  pub edit : (m : ℕ) (t : Option Text) → Keeps R (edit_message m t)
  pub started :
      (m r : ℕ)
      → Keeps {E = StoreError} R (
          modify (λ d. record d {
            messages = update (message_is m) (λ m. record m { run_id = some r }) d.messages;
            deliveries =
                update
                  (delivery_of m)
                  (λ x. record x { state = DeliveryState.started })
                  d.deliveries;
          }))

-- The laws as rules.
module _ {R : Db → Db → Type 0} (writes : Writes R) where
  pub Writes-preorder : IsPreorder R
  Writes-preorder = writes.preorder

  pub modify-Keeps :
      (f : Db → Db)
      → ((d : Db) → (f d).threads ≡ d.threads)
      → ((d : Db) → (f d).messages ≡ d.messages)
      → ((d : Db) → (f d).deliveries ≡ d.deliveries)
      → ((d : Db) → (f d).events ≡ d.events)
      → ((d : Db) → (f d).next_id ≡ d.next_id)
      → ((d : Db) → SameOwners d.runs (f d).runs)
      → Keeps {E = StoreError} R (modify f)
  modify-Keeps = writes.elsewhere

  pub fresh-Keeps : Keeps R fresh
  fresh-Keeps = writes.new_id

  pub append_event-Keeps :
      (i : ℕ) (kind : EventType) (payload : Payload) (key : DedupeKey)
      → Keeps R (append_event i kind payload key)
  append_event-Keeps = writes.event

  pub append_git_event-Keeps :
      (i : ℕ) (kind : EventType) (op : ℕ) (payload : Payload)
      → Keeps R (append_git_event i kind op payload)
  append_git_event-Keeps = writes.git_event

  pub owner-Keeps :
      (q : Thread → Bool) (o : BrowserOwner)
      → Keeps {E = StoreError} R (
          modify
            (λ d. record d { threads = update q (λ t. record t { browser_owner = o }) d.threads }))
  owner-Keeps = writes.browser_owner

  pub tombstone-Keeps :
      (q : Thread → Bool)
      → Keeps {E = StoreError} R (
          modify (λ d. record d {
            threads = update q (λ t. record t { deleted_at = some d.clock }) d.threads;
          }))
  tombstone-Keeps = writes.tombstone

  pub cascade_thread-Keeps : (k : ℕ) → Keeps {E = StoreError} R (modify (cascade_thread k))
  cascade_thread-Keeps = writes.cascade

  pub insert_thread-Keeps : (x : SubmitInput) → Keeps R (insert_thread x)
  insert_thread-Keeps = writes.thread

  pub insert_run-Keeps :
      (i j : ℕ) (k : Text) (s : Option ℕ) (e : StoreError) → Keeps R (insert_run i j k s e)
  insert_run-Keeps = writes.run

  pub insert_answer-Keeps : (r : Run) (content : Text) → Keeps R (insert_answer r content)
  insert_answer-Keeps = writes.answer

  pub insert_message-Keeps :
      (x : SubmitInput) (q : Option ℕ) (t : ℕ) (r : Option ℕ) → Keeps R (insert_message x q t r)
  insert_message-Keeps = writes.message

  pub insert_delivery-Keeps : (x : MessageDelivery) → Keeps R (insert_delivery x)
  insert_delivery-Keeps = writes.delivery

  pub edit_message-Keeps : (m : ℕ) (t : Option Text) → Keeps R (edit_message m t)
  edit_message-Keeps = writes.edit

  pub started-Keeps :
      (m r : ℕ)
      → Keeps {E = StoreError} R (
          modify (λ d. record d {
            messages = update (message_is m) (λ m. record m { run_id = some r }) d.messages;
            deliveries =
                update
                  (delivery_of m)
                  (λ x. record x { state = DeliveryState.started })
                  d.deliveries;
          }))
  started-Keeps = writes.started

pub ruleset write_rules = (
  keeps_rules, SameOwners-refl, SameOwners-update, refl, Writes-preorder, modify-Keeps, fresh-Keeps,
  append_event-Keeps, append_git_event-Keeps, owner-Keeps, tombstone-Keeps, cascade_thread-Keeps,
  insert_thread-Keeps, insert_run-Keeps, insert_answer-Keeps, insert_message-Keeps,
  insert_delivery-Keeps, edit_message-Keeps, started-Keeps,
)
