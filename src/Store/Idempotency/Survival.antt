-- ===== src/Store/Idempotency/Survival.antt =====
-- Every write of the store keeps what is remembered of an accepted request, until its thread is purged.
use cloud_swe.Base.{
  ℕ, suc, ◌<◌, ◌≡◌, ◌≢◌, refl, Option, none, some, [], ◌∷◌, ◌++◌, arith, find, update, delete,
  modify, find-append, still_unfound, none_matches, any-delete_self, ◌==◌, inl, inr, Bool-cases,
  ◌>>=◌,
}
use cloud_swe.Base.Keeps.{Keeps, Keeps-modify}
use cloud_swe.Store.Schema.{Db, Text, Message, MessageDelivery, DeliveryState, Run}
use cloud_swe.Store.Shared.{StoreError, thread_is, fresh}
use cloud_swe.Store.Queue.{message_is, delivery_of, insert_run, new_run}
use cloud_swe.Store.Runs.{insert_answer, new_answer}
use cloud_swe.Store.Deletion.{cascade_thread}
use cloud_swe.Store.Submit.{
  SubmitInput, insert_thread, new_thread, insert_message, new_message, insert_delivery,
  edit_message, trim,
}
use cloud_swe.Store.Steps.Writes.{Writes}
use cloud_swe.Store.Idempotency.Memory.{
  Request, SameDelivery, Survives, Survives-preorder, survives,
}
use cloud_swe.Store.Idempotency.Rows.{
  HasThread-append, HasThread-delete, HasMessage-update, HasMessage-append, HasMessage-delete,
  HasDelivery-update, HasDelivery-append, HasDelivery-delete, HasRun-append, HasRun-delete,
  Given-grows,
}
use cloud_swe.Store.Idempotency.Writes.{
  modify-Survives, fresh-Survives, append_event-Survives, append_git_event-Survives,
  threads-Survives,
}

module _ (q : Request) (its : q.note.thread_id ≡ q.home.id) where
  cascade_thread-Survives :
      (k : ℕ) → Keeps {E = StoreError} (Survives q) (modify (cascade_thread k))
  unfolding cascade_thread
  cascade_thread-Survives k = Keeps-modify _ λ d v. elim v [
    | inr g ↦ inr (record {
      gone = still_unfound (thread_is q.home.id) (thread_is k) d.threads g.gone;
      past = g.past;
    })
    | inl m ↦ elim (Bool-cases (q.home.id == k)) [
      | inl here ↦ inr (record {
        gone = ground (
          arith,
          none_matches (thread_is k) (delete (thread_is k) d.threads)
              (any-delete_self (thread_is k) d.threads),
        );
        past = m.given.home;
      })
      | inr there ↦
          (let other : k ≢ q.home.id = ground arith in
            inl (record {
              thread = HasThread-delete q k d.threads other m.thread;
              message =
                  HasMessage-update q _ (λ m. record m { run_id = none }) _ (λ x. refl) (λ x. refl)
                    (λ x. refl) (λ x. refl) (λ x. refl)
                    (HasMessage-delete q k d.messages its other m.message);
              delivery =
                  HasDelivery-delete q k d.messages d.runs d.deliveries other m.message m.run
                    m.delivery;
              run = HasRun-delete q k d.runs m.run;
              given = m.given;
            }))
    ]
  ]

  insert_thread-Survives : (x : SubmitInput) → Keeps (Survives q) (insert_thread x)
  unfolding insert_thread fresh ◌>>=◌ find
  insert_thread-Survives x = record {
    at = λ d a e h.
        let new = new_thread (suc (suc d.next_id)) (suc d.next_id) x d.clock in
        let same : e ≡ record d { threads = d.threads ++ new ∷ []; next_id = suc (suc d.next_id) } =
          ground arith in
        rw same (
          survives q d _
            (λ k. record {
              thread = HasThread-append q d.threads new k.thread;
              message = k.message;
              delivery = k.delivery;
              run = k.run;
              given = Given-grows q d.next_id (suc (suc d.next_id)) (omega arith) k.given;
            })
            λ k. record {
              gone =
                  ground
                    (arith, find-append (thread_is q.home.id) d.threads (new ∷ []), k.gone, k.past);
              past = omega (arith, k.past);
            });
  }

  insert_run-Survives :
      (i j : ℕ) (c : Text) (s : Option ℕ) (x : StoreError)
      → Keeps (Survives q) (insert_run i j c s x)
  unfolding insert_run fresh ◌>>=◌
  insert_run-Survives i j c s x = record {
    at = λ d a e h.
        let new = new_run (suc d.next_id) i j c s d.clock in
        let same : e ≡ record d { runs = d.runs ++ new ∷ []; next_id = suc d.next_id } =
          ground arith in
        rw same (
          survives q d _
            (λ k. record {
              thread = k.thread;
              message = k.message;
              delivery = k.delivery;
              run = HasRun-append q d.next_id d.runs new k.given (omega arith) k.run;
              given = Given-grows q d.next_id (suc d.next_id) (omega arith) k.given;
            })
            λ k. record { gone = k.gone; past = omega (arith, k.past) });
  }

  -- A new message.
  added_message :
      (d e : Db) (m : Message)
      → d.next_id < m.id
      → e ≡ record d { messages = d.messages ++ m ∷ []; next_id = suc d.next_id }
      → Survives q d e
  added_message d e m new same = rw same (
      survives q d _
        (λ k. record {
          thread = k.thread;
          message = HasMessage-append q d.next_id d.messages m k.given new k.message;
          delivery = k.delivery;
          run = k.run;
          given = Given-grows q d.next_id (suc d.next_id) (omega arith) k.given;
        })
        λ k. record { gone = k.gone; past = omega (arith, k.past) })

  insert_message-Survives :
      (x : SubmitInput) (a : Option ℕ) (t : ℕ) (r : Option ℕ)
      → Keeps (Survives q) (insert_message x a t r)
  unfolding insert_message fresh ◌>>=◌
  insert_message-Survives x a t r = record {
    at = λ d i e h.
        added_message d e (new_message (suc d.next_id) x a t r) (omega arith) (ground arith);
  }

  insert_delivery-Survives : (x : MessageDelivery) → Keeps (Survives q) (insert_delivery x)
  unfolding insert_delivery ◌>>=◌
  insert_delivery-Survives x = record {
    at = λ d a e h.
        let same : e ≡ record d { deliveries = d.deliveries ++ x ∷ [] } = ground arith in
        rw same (
          survives q d _
            (λ k. record {
              thread = k.thread;
              message = k.message;
              delivery = HasDelivery-append q d.deliveries x k.delivery;
              run = k.run;
              given = k.given;
            })
            λ k. record { gone = k.gone; past = k.past });
  }

  insert_answer-Survives : (r : Run) (c : Text) → Keeps (Survives q) (insert_answer r c)
  unfolding insert_answer fresh ◌>>=◌
  insert_answer-Survives r [] = record {
    at = λ d a e h. let same : e ≡ d = ground arith in rw same ((Survives-preorder q).same d);
  }
  insert_answer-Survives r (x ∷ c) = record {
    at = λ d i e h.
        added_message d e (new_answer (suc d.next_id) r (x ∷ c)) (omega arith) (ground arith);
  }

  in_state : (s : DeliveryState) (x : MessageDelivery) → SameDelivery x (record x { state = s })
  in_state s x = record {
    target = refl;
    mode = refl;
    waits = refl;
    prompt = refl;
    attachments = refl;
    selection = refl;
  }

  started-Survives :
      (m r : ℕ)
      → Keeps {E = StoreError} (Survives q) (
          modify (λ d. record d {
            messages = update (message_is m) (λ m. record m { run_id = some r }) d.messages;
            deliveries =
                update
                  (delivery_of m)
                  (λ x. record x { state = DeliveryState.started })
                  d.deliveries;
          }))
  started-Survives m r = Keeps-modify _ λ d.
      survives q d _
        (λ k. record {
          thread = k.thread;
          message =
              HasMessage-update q (message_is m) (λ m. record m { run_id = some r }) d.messages
                (λ x. refl) (λ x. refl) (λ x. refl) (λ x. refl) (λ x. refl) k.message;
          delivery =
              HasDelivery-update q (delivery_of m) (λ x. record x { state = DeliveryState.started })
                d.deliveries (λ x. refl) (in_state DeliveryState.started) k.delivery;
          run = k.run;
          given = k.given;
        })
        λ k. record { gone = k.gone; past = k.past }

  edit_message-Survives : (m : ℕ) (t : Option Text) → Keeps (Survives q) (edit_message m t)
  unfolding edit_message ◌>>=◌
  edit_message-Survives m none = Keeps-modify _ λ d v. elim v [
    | inr g ↦ inr (record { gone = g.gone; past = g.past })
    | inl k ↦ inl (record {
      thread = k.thread;
      message = k.message;
      delivery =
          HasDelivery-update q (delivery_of m) (λ x. record x { state = DeliveryState.removed })
            d.deliveries (λ x. refl) (in_state DeliveryState.removed) k.delivery;
      run = k.run;
      given = k.given;
    })
  ]
  edit_message-Survives m (some t) = record {
    at = λ d a e h.
        let f = λ (x : Message). record x { content = trim t } in
        let same : e ≡ record d { messages = update (message_is m) f d.messages } = ground arith in
        rw same (
          survives q d _
            (λ k. record {
              thread = k.thread;
              message =
                  HasMessage-update q (message_is m) f d.messages (λ x. refl) (λ x. refl)
                    (λ x. refl) (λ x. refl) (λ x. refl) k.message;
              delivery = k.delivery;
              run = k.run;
              given = k.given;
            })
            λ k. record { gone = k.gone; past = k.past });
  }

  pub Survives-Writes : Writes (Survives q)
  Survives-Writes = record {
    preorder = Survives-preorder q;
    elsewhere = λ f t m x e n r. modify-Survives q f t m x n r;
    new_id = fresh-Survives q;
    event = append_event-Survives q;
    git_event = append_git_event-Survives q;
    browser_owner = λ p o.
        threads-Survives q p (λ _ t. record t { browser_owner = o }) (λ _ t. refl) (λ _ t. refl)
          (λ _ t. refl);
    tombstone = λ p.
        threads-Survives q p (λ n t. record t { deleted_at = some n }) (λ _ t. refl) (λ _ t. refl)
          (λ _ t. refl);
    cascade = cascade_thread-Survives;
    thread = insert_thread-Survives;
    run = insert_run-Survives;
    answer = insert_answer-Survives;
    message = insert_message-Survives;
    delivery = insert_delivery-Survives;
    edit = edit_message-Survives;
    started = started-Survives;
  }
