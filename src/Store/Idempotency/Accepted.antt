-- ===== src/Store/Idempotency/Accepted.antt =====
-- What `submit` leaves of a request that it accepts.
use cloud_swe.Base.{
  ℕ, Bool, ltb, ◌≤◌, ◌≡◌, refl, sym, subst, ap, ◌∙◌, false, Option, none, some, arith, ok, find,
  find-p, Bool-cases, inl, inr,
}
use cloud_swe.Base.Triples.{Gives, Gives-bind, Gives-gets}
use cloud_swe.Store.Schema.{Db, Run, DeliveryMode}
use cloud_swe.Store.Shared.{thread_is, active_in}
use cloud_swe.Store.Queue.{delivery_of}
use cloud_swe.Store.Submit.{
  Catalog, SubmitInput, SubmitResult, kind_of, new_delivery, target_thread, accept_request,
  active_run_of, other_thread, other_repository, is_foreign,
}
use cloud_swe.Store.Idempotency.Homes.{
  Home, Home-SameHomes, accept_message-SameHomes, target_thread-Home, target_thread-runs,
  target_thread-threads,
}
use cloud_swe.Store.Idempotency.Filing.{Answered, answer, accept_message-Answered}
use cloud_swe.Store.Idempotency.Ids.{IdsGiven}
use cloud_swe.Store.Idempotency.Memory.{Request, Remembered}
use cloud_swe.Store.Idempotency.Reading.{
  check_request-Reads, check_active-Reads, ensure_admission-Reads, checked_active,
}

-- What a request that was accepted has to do with its answer.
pub record Accepts (input : SubmitInput) (requested : Option ℕ) (s : ℕ) (o : DeliveryMode)
    (q : Request) (r : SubmitResult) : Type 0 where
  pub run_id : ℕ
  pub waits : Bool
  pub sequence : ℕ
  pub its_row : q.row ≡ new_delivery input q.note.id run_id o s waits sequence
  pub its_user : q.user ≡ input.user_id
  pub its_client : q.client ≡ input.client_message_id
  pub its_thread : q.note.thread_id ≡ q.home.id
  pub its_kind : q.note.request_kind ≡ kind_of requested
  pub matches : other_repository requested input q.home ≡ false
  pub mine : other_thread requested q.home.id ≡ false
  pub is : r ≡ answer input requested q.home.id q.note.id run_id waits

-- It was accepted, and the database has its rows.
pub record Stands (input : SubmitInput) (requested : Option ℕ) (s : ℕ) (o : DeliveryMode)
    (r : SubmitResult) (e : Db) : Type 0 where
  pub request : Request
  pub accepts : Accepts input requested s o request r
  pub rows : Remembered request e

module _ (input : SubmitInput) (requested : Option ℕ) (s : ℕ) (o : DeliveryMode) where
  record Settled (d : Db) (thread_id : ℕ) (e : Db) : Type 0 where
    home : Home input requested thread_id e
    ids : IdsGiven e
    runs : e.runs ≡ d.runs

  stands :
      (i : ℕ) (r : SubmitResult) (e : Db)
      → Answered input requested i s o r e
      → Home input requested i e
      → i ≤ e.next_id
      → Stands input requested s o r e
  stands i r e a h given =
      let named : h.thread.id ≡ i =
        ground (arith, find-p (thread_is i) e.threads {a = h.thread} h.found) in
      let note = a.filed.note in
      record {
        request = record {
          user = input.user_id;
          client = input.client_message_id;
          home = h.thread;
          note = note.message;
          row = new_delivery input note.message.id a.run_id o s a.waits a.filed.sequence;
        };
        accepts = record {
          run_id = a.run_id;
          waits = a.waits;
          sequence = a.filed.sequence;
          its_row = refl;
          its_user = refl;
          its_client = refl;
          its_thread = note.its_thread ∙ sym named;
          its_kind = note.its_kind;
          matches = h.matches;
          mine = rw named h.mine;
          is = rw (named, note.named) a.is;
        };
        rows = record {
          thread = record {
            thread = h.thread;
            found = subst (λ k. find (thread_is k) e.threads ≡ some h.thread) (sym named) h.found;
            same = record { url = refl; branch = refl };
          };
          message = record {
            message = note.message;
            found = note.found;
            same = record { id = refl; thread_id = refl; kind = refl };
            only = rw (named, note.named) note.only;
          };
          delivery = record {
            delivery = new_delivery input note.message.id a.run_id o s a.waits a.filed.sequence;
            found =
                subst
                  (λ k.
                    find (delivery_of k) e.deliveries
                    ≡ some (new_delivery input k a.run_id o s a.waits a.filed.sequence))
                  (sym note.named) a.filed.delivered;
            same = record {
              target = refl;
              mode = refl;
              waits = refl;
              prompt = refl;
              attachments = refl;
              selection = refl;
            };
          };
          run = record { only = rw named a.filed.run.only };
          given = record {
            home = rw named given;
            note = rw note.named note.given;
            run = a.filed.run.given;
          };
        };
      }

  settled :
      (d : Db) (i : ℕ) (b : Db)
      → IdsGiven d
      → is_foreign input requested d ≡ false
      → target_thread input requested d ≡ ok (i, b)
      → Settled d i b
  settled d i b given allowed h =
      let (home, messages, deliveries, grows) =
        target_thread-Home input requested d i b allowed given.threads h in
      let runs : b.runs ≡ d.runs = target_thread-runs input requested d i b h in
      record {
        home = home;
        ids = record {
          threads = target_thread-threads input requested d i b given.threads h;
          messages = λ k j n. rw messages (given.messages k j (omega (arith, grows)));
          deliveries = λ k n. rw deliveries (given.deliveries k (omega (arith, grows)));
          runs = λ k n. rw runs (given.runs k (omega (arith, grows)));
          one_run = λ k. rw runs (given.one_run k);
        };
        runs = runs;
      }

  active-found :
      (i : ℕ) (a d : Db) (active : Option Run) (x : Run)
      → other_thread requested i ≡ false
      → a.runs ≡ d.runs
      → active ≡ active_run_of requested d
      → active ≡ some x
      → find (active_in i) a.runs ≡ some x
  active-found i a d active x mine runs is there = go requested mine is
    where
      go :
          (t : Option ℕ)
          → other_thread t i ≡ false
          → active ≡ active_run_of t d
          → find (active_in i) a.runs ≡ some x
      go none m e = cc
      go (some t) m e = (let named : i ≡ t = ground arith in rw (named, runs) (sym e ∙ there))

  thread-given : (i : ℕ) (e : Db) → Home input requested i e → IdsGiven e → i ≤ e.next_id
  thread-given i e h ids = elim (Bool-cases (ltb e.next_id i)) [
    | inl past ↦ absurd (ground (arith, h.found, ids.threads i (ground arith)))
    | inr there ↦ ground arith
  ]

  pub accept_request-Stands :
      (catalog : Catalog) (d : Db)
      → IdsGiven d
      → is_foreign input requested d ≡ false
      → input.mode ≡ some o
      → input.model_selection ≡ some s
      → Gives (λ e. e ≡ d) (Stands input requested s o) (accept_request catalog input requested)
  unfolding accept_request
  accept_request-Stands catalog d given allowed moded chosen =
      Gives-bind (λ _ e. e ≡ d) _ _
        (record { at = λ a x b is h. (check_request-Reads _ _ _).at a x b h ∙ is })
        λ rows.
          Gives-bind (λ f e. (e ≡ d) × (f ≡ active_run_of requested d)) _ _
            (Gives-gets _ λ a is. (is, ap (active_run_of requested) is))
            λ found.
              Gives-bind (λ a e. (e ≡ d) × (a ≡ active_run_of requested d)) _ _
                (record {
                  at = λ a x b is h. (
                    (check_active-Reads _ _).at a x b h ∙ is.0,
                    (checked_active input found).at a x b tt h ∙ is.1,
                  );
                })
                λ active.
                  Gives-bind (λ _ e. (e ≡ d) × (active ≡ active_run_of requested d)) _ _
                    (record {
                      at = λ a x b is h. ((ensure_admission-Reads _ _).at a x b h ∙ is.0, is.1);
                    })
                    λ _.
                      Gives-bind (λ i e. Settled d i e × (active ≡ active_run_of requested d)) _ _
                        (record {
                          at = λ a i b is h. (settled d i b given allowed (rw is.0 at h), is.1);
                        })
                        λ i. record {
                          at = λ a r b k h.
                              let homes =
                                (accept_message-SameHomes input requested rows active i).at a r b
                                  h in
                              stands i r b
                                ((accept_message-Answered input requested i s o rows active moded
                                    chosen).at
                                  a r b
                                  (
                                    k.0.ids,
                                    λ x there.
                                        active-found i a d active x k.0.home.mine k.0.runs k.1
                                          there,
                                  )
                                  h)
                                (Home-SameHomes input requested i a b k.0.home homes)
                                (omega (arith, thread-given i a k.0.home k.0.ids, homes.grows));
                        }
