-- ===== src/Store/Idempotency/Files.antt =====
-- What leaves the messages, the deliveries and the runs as they are.
use cloud_swe.Base.{ℕ, ◌≤◌, ◌≡◌, refl, ◌∙◌, Option, List, arith, modify}
use cloud_swe.Base.Keeps.{IsPreorder, Keeps, Keeps-modify, keeps_rules}
use cloud_swe.Store.Schema.{Db, Attachment, OutboxType, EventType, Payload, DedupeKey}
use cloud_swe.Store.Shared.{StoreError, fresh, append_event}
use cloud_swe.Store.Log.{repeated, written, append_event-Appended}
use cloud_swe.Store.Queue.{insert_outbox}
use cloud_swe.Store.Submit.{bind_attachment, bind_attachments}

-- The messages and the deliveries stay, and ids grow.
pub record SameFile (d e : Db) : Type 0 where
  pub messages : e.messages ≡ d.messages
  pub deliveries : e.deliveries ≡ d.deliveries
  pub runs : e.runs ≡ d.runs
  pub grows : d.next_id ≤ e.next_id

SameFile-preorder : IsPreorder SameFile
SameFile-preorder = record {
  same = λ d. record { messages = refl; deliveries = refl; runs = refl; grows = omega arith };
  next = λ d e f p q. record {
    messages = q.messages ∙ p.messages;
    deliveries = q.deliveries ∙ p.deliveries;
    runs = q.runs ∙ p.runs;
    grows = omega (arith, p.grows, q.grows);
  };
}

pub modify-SameFile :
    (f : Db → Db)
    → ((d : Db) → (f d).messages ≡ d.messages)
    → ((d : Db) → (f d).deliveries ≡ d.deliveries)
    → ((d : Db) → (f d).runs ≡ d.runs)
    → ((d : Db) → (f d).next_id ≡ d.next_id)
    → Keeps {E = StoreError} SameFile (modify f)
modify-SameFile f m x r n =
    Keeps-modify f
      λ d. record { messages = m d; deliveries = x d; runs = r d; grows = rw (n d) (omega arith) }

pub fresh-SameFile : Keeps SameFile fresh
unfolding fresh
fresh-SameFile = record {
  at = λ d a d' h. record {
    messages = ground arith;
    deliveries = ground arith;
    runs = ground arith;
    grows = ground arith;
  };
}

pub append_event-SameFile :
    (i : ℕ) (kind : EventType) (payload : Payload) (key : DedupeKey)
    → Keeps SameFile (append_event i kind payload key)
append_event-SameFile i kind payload key = record {
  at = λ d e d' h. elim (append_event-Appended i kind payload key d h) [
    | repeated t there found same ↦ rw same (SameFile-preorder.same d)
    | written t there new free is same ↦
        rw same (record { messages = refl; deliveries = refl; runs = refl; grows = omega arith })
  ];
}

ruleset file_rules =
    (keeps_rules, SameFile-preorder, modify-SameFile, fresh-SameFile, append_event-SameFile, refl)

pub insert_outbox-SameFile :
    (k : OutboxType) (i : ℕ) (r : Option ℕ) → Keeps SameFile (insert_outbox k i r)
unfolding insert_outbox
insert_outbox-SameFile k i r = search file_rules depth 20

pub bind_attachment-SameFile :
    (u m : ℕ) (x : ℕ × Attachment) → Keeps SameFile (bind_attachment u m x)
unfolding bind_attachment
bind_attachment-SameFile u m x = search file_rules depth 20

pub bind_attachments-SameFile :
    (u m : ℕ) (rows : List Attachment) → Keeps SameFile (bind_attachments u m rows)
unfolding bind_attachments
bind_attachments-SameFile u m rows = search (file_rules, bind_attachment-SameFile) depth 20
