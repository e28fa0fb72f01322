-- ===== src/Store/Restart/Mail.antt =====
-- What leaves the messages and their deliveries as they are.
use cloud_swe.Base.{ℕ, suc, ◌≡◌, refl, ◌∙◌, true, is_some, Option, arith, modify, find, find-update}
use cloud_swe.Base.Keeps.{IsPreorder, Keeps, Keeps-modify, keeps_rules}
use cloud_swe.Store.Schema.{Db, Text, OutboxType, EventType, Payload, DedupeKey}
use cloud_swe.Store.Shared.{StoreError, fresh, append_event, owned_thread, thread_is, set_sequence}
use cloud_swe.Store.Log.{repeated, written, append_event-Appended}
use cloud_swe.Store.Queue.{insert_run, insert_outbox}

-- The messages and their deliveries stay, and what a user owns.
pub record SameMail (d d' : Db) : Type 0 where
  pub messages : d'.messages ≡ d.messages
  pub deliveries : d'.deliveries ≡ d.deliveries
  pub owned :
      (i u : ℕ)
      → is_some (find (owned_thread i u) d.threads) ≡ true
      → is_some (find (owned_thread i u) d'.threads) ≡ true

pub SameMail-preorder : IsPreorder SameMail
SameMail-preorder = record {
  same = λ d. record { messages = refl; deliveries = refl; owned = λ i u h. h };
  next = λ d e f p q. record {
    messages = q.messages ∙ p.messages;
    deliveries = q.deliveries ∙ p.deliveries;
    owned = λ i u h. q.owned i u (p.owned i u h);
  };
}

pub modify-SameMail :
    (f : Db → Db)
    → ((d : Db) → (f d).messages ≡ d.messages)
    → ((d : Db) → (f d).deliveries ≡ d.deliveries)
    → ((d : Db) → (f d).threads ≡ d.threads)
    → Keeps {E = StoreError} SameMail (modify f)
modify-SameMail f m x t =
    Keeps-modify f λ d. record { messages = m d; deliveries = x d; owned = λ i u h. rw (t d) h }

pub fresh-SameMail : Keeps SameMail fresh
unfolding fresh
fresh-SameMail = record {
  at = λ d a d' h. record {
    messages = ground arith;
    deliveries = ground arith;
    owned = λ i u k. ground arith;
  };
}

pub append_event-SameMail :
    (i : ℕ) (kind : EventType) (payload : Payload) (key : DedupeKey)
    → Keeps SameMail (append_event i kind payload key)
append_event-SameMail i kind payload key = record {
  at = λ d e d' h. elim (append_event-Appended i kind payload key d h) [
    | repeated t there found same ↦ rw same (SameMail-preorder.same d)
    | written t there new free is same ↦ record {
      messages = ground arith;
      deliveries = ground arith;
      owned = λ j u k. ground (
        arith,
        find-update (owned_thread j u) (thread_is i)
            (set_sequence (suc t.event_sequence) kind d.clock) d.threads (λ x. refl),
      );
    }
  ];
}

ruleset mail_rules =
    (keeps_rules, SameMail-preorder, modify-SameMail, fresh-SameMail, append_event-SameMail, refl)

pub insert_outbox-SameMail :
    (k : OutboxType) (i : ℕ) (r : Option ℕ) → Keeps SameMail (insert_outbox k i r)
unfolding insert_outbox
insert_outbox-SameMail k i r = search mail_rules depth 20

pub insert_run-SameMail :
    (i j : ℕ) (k : Text) (s : Option ℕ) (e : StoreError) → Keeps SameMail (insert_run i j k s e)
unfolding insert_run
insert_run-SameMail i j k s e = search mail_rules depth 20
