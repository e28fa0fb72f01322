-- ===== src/Store/Idempotency/Memory.antt =====
-- What the database remembers of an accepted request: its thread, its message and its delivery, up to
-- the columns that later calls may change.
use cloud_swe.Base.{ℕ, Bool, ◌≤◌, ◌≡◌, true, none, some, List, any, find, ◌⊎◌, inl, inr, ◌==◌, ◌&&◌}
use cloud_swe.Base.Keeps.{IsPreorder}
use cloud_swe.Store.Schema.{Db, Thread, Message, MessageDelivery, Run}
use cloud_swe.Store.Shared.{thread_is}
use cloud_swe.Store.Queue.{delivery_of}
use cloud_swe.Store.Submit.{client_is}
use cloud_swe.Store.Steps.Writes.{run_of_thread}

pub record SameThread (old new : Thread) : Type 0 where
  pub url : new.repository_url ≡ old.repository_url
  pub branch : new.repository_branch ≡ old.repository_branch

pub record SameMessage (old new : Message) : Type 0 where
  pub id : new.id ≡ old.id
  pub thread_id : new.thread_id ≡ old.thread_id
  pub kind : new.request_kind ≡ old.request_kind

pub record SameDelivery (old new : MessageDelivery) : Type 0 where
  pub target : new.target_run_id ≡ old.target_run_id
  pub mode : new.mode ≡ old.mode
  pub waits : new.accepted_as_pending ≡ old.accepted_as_pending
  pub prompt : new.original_prompt ≡ old.original_prompt
  pub attachments : new.original_attachment_ids ≡ old.original_attachment_ids
  pub selection : new.model_selection ≡ old.model_selection

abbrev pub message_of_thread : ℕ → ℕ → Message → Bool
message_of_thread id thread_id m = (m.id == id) && (m.thread_id == thread_id)

-- The request as it was accepted: `home` is its thread, `note` its message, `row` its delivery.
pub record Request : Type 0 where
  pub user : ℕ
  pub client : ℕ
  pub home : Thread
  pub note : Message
  pub row : MessageDelivery

module _ (q : Request) where
  pub record HasThread (ts : List Thread) : Type 0 where
    pub thread : Thread
    pub found : find (thread_is q.home.id) ts ≡ some thread
    pub same : SameThread q.home thread

  pub record HasMessage (ms : List Message) : Type 0 where
    pub message : Message
    pub found : find (client_is q.user q.client) ms ≡ some message
    pub same : SameMessage q.note message
    pub only : (k : ℕ) → any (message_of_thread q.note.id k) ms ≡ true → k ≡ q.home.id

  pub record HasDelivery (xs : List MessageDelivery) : Type 0 where
    pub delivery : MessageDelivery
    pub found : find (delivery_of q.note.id) xs ≡ some delivery
    pub same : SameDelivery q.row delivery

  -- The run that was accepted for it is a run of its thread, if it is there.
  pub record HasRun (rs : List Run) : Type 0 where
    pub only : (k : ℕ) → any (run_of_thread q.row.target_run_id k) rs ≡ true → k ≡ q.home.id

  pub record Given (n : ℕ) : Type 0 where
    pub home : q.home.id ≤ n
    pub note : q.note.id ≤ n
    pub run : q.row.target_run_id ≤ n

  pub record Remembered (d : Db) : Type 0 where
    pub thread : HasThread d.threads
    pub message : HasMessage d.messages
    pub delivery : HasDelivery d.deliveries
    pub run : HasRun d.runs
    pub given : Given d.next_id

  -- The thread was purged, and its id is not given again.
  pub record Gone (d : Db) : Type 0 where
    pub gone : find (thread_is q.home.id) d.threads ≡ none
    pub past : q.home.id ≤ d.next_id

  abbrev pub Survives : Db → Db → Type 0
  Survives d e = Remembered d ⊎ Gone d → Remembered e ⊎ Gone e

  pub Survives-preorder : IsPreorder Survives
  Survives-preorder = record { same = λ d v. v; next = λ d e f p q v. q (p v) }

  -- A write that keeps the memory, or the absence.
  pub survives : (d e : Db) → (Remembered d → Remembered e) → (Gone d → Gone e) → Survives d e
  survives d e f g (inl r) = inl (f r)
  survives d e f g (inr r) = inr (g r)
