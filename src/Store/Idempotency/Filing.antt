-- ===== src/Store/Idempotency/Filing.antt =====
-- What `submit` writes of a request that has a mode: its message and its delivery.
use cloud_swe.Base.{
  any, any-append, ℕ, suc, Bool, ◌<◌, ◌≤◌, ◌≡◌, refl, true, false, is_some, Option, none, some,
  List, [], ◌∷◌, ◌++◌, arith, ◌>>=◌, find, none_matches, find-append, ==-refl, if◌then◌else◌,
}
use cloud_swe.Base.Triples.{Gives, Gives-bind, Gives-pure}
use cloud_swe.Store.Schema.{Db, Message, Attachment, Run, DeliveryMode}
use cloud_swe.Store.Shared.{active_in, fresh}
use cloud_swe.Store.Queue.{new_run, insert_run, delivery_of}
use cloud_swe.Store.Steps.Writes.{run_of_thread}
use cloud_swe.Store.Idempotency.Ids.{IdsGiven, any_none, any_one, active-given}
use cloud_swe.Store.Idempotency.Memory.{message_of_thread}
use cloud_swe.Store.Submit.{
  SubmitInput, SubmitResult, as_pending, as_run, kind_of, client_is, target_run, insert_message,
  new_message, insert_delivery, deliver, new_delivery, finish_submission, accept_message,
}
use cloud_swe.Store.Idempotency.Files.{
  SameFile, append_event-SameFile, bind_attachments-SameFile, insert_outbox-SameFile,
}

module _ (input : SubmitInput) (requested : Option ℕ) (thread_id : ℕ) where
  -- A run of the thread, and ids that were given.
  pub record RunIn (run_id : ℕ) (e : Db) : Type 0 where
    pub only : (k : ℕ) → any (run_of_thread run_id k) e.runs ≡ true → k ≡ thread_id
    pub given : run_id ≤ e.next_id

  pub record Noted (id : ℕ) (e : Db) : Type 0 where
    pub message : Message
    pub found : find (client_is input.user_id input.client_message_id) e.messages ≡ some message
    pub named : message.id ≡ id
    pub its_thread : message.thread_id ≡ thread_id
    pub its_kind : message.request_kind ≡ kind_of requested
    pub only : (k : ℕ) → any (message_of_thread id k) e.messages ≡ true → k ≡ thread_id
    pub given : id ≤ e.next_id

  record Ready (run_id : ℕ) (e : Db) : Type 0 where
    messages : (i k : ℕ) → e.next_id < i → any (message_of_thread i k) e.messages ≡ false
    deliveries : (i : ℕ) → e.next_id < i → find (delivery_of i) e.deliveries ≡ none
    run : RunIn run_id e

  record Undelivered (id run_id : ℕ) (e : Db) : Type 0 where
    note : Noted id e
    run : RunIn run_id e
    none_yet : find (delivery_of id) e.deliveries ≡ none

  pub record Filed (id run_id selection : ℕ) (mode : DeliveryMode) (waits : Bool) (e : Db)
      : Type 0 where
    pub note : Noted id e
    pub run : RunIn run_id e
    pub sequence : ℕ
    pub delivered :
        find (delivery_of id) e.deliveries
        ≡ some (new_delivery input id run_id mode selection waits sequence)

  RunIn-same : {r : ℕ} {d e : Db} → e.runs ≡ d.runs → d.next_id ≤ e.next_id → RunIn r d → RunIn r e
  RunIn-same runs grows n = record {
    only = λ k. rw runs (n.only k);
    given = omega (arith, n.given);
  }

  Noted-same :
      {id : ℕ} {d e : Db}
      → e.messages ≡ d.messages
      → d.next_id ≤ e.next_id
      → Noted id d
      → Noted id e
  Noted-same messages grows n = record {
    message = n.message;
    found = rw messages n.found;
    named = n.named;
    its_thread = n.its_thread;
    its_kind = n.its_kind;
    only = λ k. rw messages (n.only k);
    given = omega (arith, n.given);
  }

  Undelivered-SameFile :
      {id r : ℕ} {d e : Db} → SameFile d e → Undelivered id r d → Undelivered id r e
  Undelivered-SameFile s u = record {
    note = Noted-same s.messages s.grows u.note;
    run = RunIn-same s.runs s.grows u.run;
    none_yet = rw s.deliveries u.none_yet;
  }

  Filed-SameFile :
      {id r s : ℕ} {o : DeliveryMode} {w : Bool} {d e : Db}
      → SameFile d e
      → Filed id r s o w d
      → Filed id r s o w e
  Filed-SameFile k u = record {
    note = Noted-same k.messages k.grows u.note;
    run = RunIn-same k.runs k.grows u.run;
    sequence = u.sequence;
    delivered = rw k.deliveries u.delivered;
  }

  insert_message-Undelivered :
      (run_id : ℕ) (o : Option ℕ)
      → Gives
          (Ready run_id)
          (λ id e. Undelivered id run_id e)
          (insert_message input requested thread_id o)
  unfolding insert_message fresh find any ◌>>=◌
  insert_message-Undelivered run_id o = record {
    at = λ d id e c h.
        let new = new_message (suc d.next_id) input requested thread_id o in
        let p = client_is input.user_id input.client_message_id in
        let named : suc d.next_id ≡ id = ground arith in
        let absent : find p d.messages ≡ none = none_matches p d.messages (ground arith) in
        let messages : e.messages ≡ d.messages ++ new ∷ [] = ground arith in
        let there : find p e.messages ≡ some new =
          rw (messages, find-append p d.messages (new ∷ []), absent)
            (ground (arith, ==-refl input.user_id, ==-refl input.client_message_id)) in
        record {
          note = record {
            message = new;
            found = there;
            named = named;
            its_thread = refl;
            its_kind = refl;
            only = λ k seen.
                ground (
                  arith,
                  any-append (message_of_thread id k) d.messages (new ∷ []),
                  c.messages id k,
                );
            given = ground arith;
          };
          run = RunIn-same (ground arith) (ground arith) c.run;
          none_yet = ground (arith, c.deliveries id);
        };
  }

  insert_delivery-Filed :
      (id r s : ℕ) (o : DeliveryMode) (w : Bool) (n : ℕ)
      → Gives
          (Undelivered id r)
          (λ _ e. Filed id r s o w e)
          (insert_delivery (new_delivery input id r o s w n))
  unfolding insert_delivery ◌>>=◌ find
  insert_delivery-Filed id r s o w n = record {
    at = λ d a e u h.
        let x = new_delivery input id r o s w n in
        let deliveries : e.deliveries ≡ d.deliveries ++ x ∷ [] = ground arith in
        record {
          note = Noted-same (ground arith) (ground arith) u.note;
          run = RunIn-same (ground arith) (ground arith) u.run;
          sequence = n;
          delivered =
              rw (deliveries, find-append (delivery_of id) d.deliveries (x ∷ []), u.none_yet)
                (ground (arith, ==-refl id));
        };
  }

  deliver-Filed :
      (id r s : ℕ) (o : DeliveryMode) (w : Bool)
      → Gives
          (Undelivered id r)
          (λ _ e. Filed id r s o w e)
          (deliver input thread_id id r w (some o) (some s))
  unfolding deliver
  deliver-Filed id r s o w =
      Gives-bind (λ _ e. Undelivered id r e) _ _
        (record {
          at = λ d a e u h. Undelivered-SameFile ((append_event-SameFile _ _ _ _).at d a e h) u;
        })
        λ event. insert_delivery-Filed id r s o w event.sequence

  deliver_moded :
      (id r s : ℕ) (o : DeliveryMode) (w : Bool) (mode : Option DeliveryMode) (selection : Option ℕ)
      → mode ≡ some o
      → selection ≡ some s
      → Gives
          (Undelivered id r)
          (λ _ e. Filed id r s o w e)
          (deliver input thread_id id r w mode selection)
  deliver_moded id r s o w mode selection moded chosen =
      rw (moded, chosen) (deliver-Filed id r s o w)

  -- What `submit` answers of a message with a mode.
  abbrev pub answer : ℕ → ℕ → Bool → SubmitResult
  answer id run_id waits = record {
    thread_id = thread_id;
    run_id = run_id;
    message_id = some id;
    delivery = some (if waits then as_pending else as_run);
  }

  pub record Answered (s : ℕ) (o : DeliveryMode) (r : SubmitResult) (e : Db) : Type 0 where
    pub id : ℕ
    pub run_id : ℕ
    pub waits : Bool
    pub filed : Filed id run_id s o waits e
    pub is : r ≡ answer id run_id waits

  finish_submission-Answered :
      (id r s : ℕ) (o : DeliveryMode) (a : Option Run)
      → input.mode ≡ some o
      → ((x : Run) → a ≡ some x → r ≡ x.id)
      → Gives (Filed id r s o (is_some a)) (Answered s o) (finish_submission input thread_id id r a)
  unfolding finish_submission
  finish_submission-Answered id r s o none moded target =
      Gives-bind (λ _ e. Filed id r s o false e) _ _
        (record { at = λ d a e u h. Filed-SameFile ((append_event-SameFile _ _ _ _).at d a e h) u })
        λ _.
          Gives-bind (λ _ e. Filed id r s o false e) _ _
            (record {
              at = λ d a e u h. Filed-SameFile ((insert_outbox-SameFile _ _ _).at d a e h) u;
            })
            λ _.
              Gives-pure _
                λ e k. record { id = id; run_id = r; waits = false; filed = k; is = rw moded }
  finish_submission-Answered id r s o (some x) moded target =
      Gives-pure _
        λ e k. record { id = id; run_id = r; waits = true; filed = k; is = rw (target x refl) }

  -- The run that is active, or the new one, is one of the thread.
  target_run-Ready :
      (a : Option Run)
      → Gives
          (λ e. IdsGiven e × ((x : Run) → a ≡ some x → find (active_in thread_id) e.runs ≡ some x))
          (λ r e. Ready r e × ((x : Run) → a ≡ some x → r ≡ x.id))
          (target_run input thread_id a)
  unfolding target_run insert_run fresh any ◌>>=◌
  target_run-Ready none = record {
    at = λ d r e c h.
        let new = new_run r thread_id input.user_id input.prompt input.model_selection d.clock in
        (
          record {
            messages = λ i k n. ground (arith, c.0.messages i k);
            deliveries = λ i n. ground (arith, c.0.deliveries i);
            run = record {
              only = λ k seen. ground (
                arith,
                any-append (run_of_thread r k) d.runs (new ∷ []),
                any_none r k d.runs,
                c.0.runs r,
              );
              given = ground arith;
            };
          },
          λ x k. cc,
        );
  }
  target_run-Ready (some x) = Gives-pure _ λ e c. (
    record {
      messages = c.0.messages;
      deliveries = c.0.deliveries;
      run = record {
        only = λ k seen. any_one k thread_id x e.runs (c.0.one_run x.id) (c.1 x refl) seen;
        given = active-given thread_id x e.next_id e.runs (c.0.runs x.id) (c.1 x refl);
      };
    },
    λ y k. cc,
  )

  -- The whole of the writing.
  pub accept_message-Answered :
      (s : ℕ) (o : DeliveryMode) (rows : List Attachment) (a : Option Run)
      → input.mode ≡ some o
      → input.model_selection ≡ some s
      → Gives
          (λ e. IdsGiven e × ((x : Run) → a ≡ some x → find (active_in thread_id) e.runs ≡ some x))
          (Answered s o)
          (accept_message input requested rows a thread_id)
  unfolding accept_message
  accept_message-Answered s o rows a moded chosen =
      Gives-bind (λ r e. Ready r e × ((x : Run) → a ≡ some x → r ≡ x.id)) _ _ (target_run-Ready a)
        λ r. record {
          at = λ d x e k h.
              (Gives-bind (λ id e. Undelivered id r e) _ _ (insert_message-Undelivered r _)
                  λ id.
                    Gives-bind (λ _ e. Undelivered id r e) _ _
                      (record {
                        at = λ d a e u h.
                            Undelivered-SameFile ((bind_attachments-SameFile _ _ _).at d a e h) u;
                      })
                      λ _.
                        Gives-bind (λ _ e. Filed id r s o (is_some a) e) _ _
                          (deliver_moded id r s o (is_some a) _ _ moded chosen)
                          λ _. finish_submission-Answered id r s o a moded k.1).at
                d x e k.0 h;
        }
