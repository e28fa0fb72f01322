-- ===== src/Store/Idempotency/Rows.antt =====
-- The writes to single tables keep what is remembered.
use cloud_swe.Base.{
  ℕ, Bool, ◌||◌, still_found, still_matched, find-p, ◌≤◌, ◌<◌, ◌≡◌, ◌≢◌, ◌∙◌, sym, List, [], ◌∷◌,
  ◌++◌, arith, any, update, delete, find-update, find-append, any-append, any-update, rewritten,
  ◌==◌,
}
use cloud_swe.Store.Schema.{Thread, Message, MessageDelivery, Run}
use cloud_swe.Store.Shared.{thread_is}
use cloud_swe.Store.Queue.{delivery_of}
use cloud_swe.Store.Submit.{client_is}
use cloud_swe.Store.Steps.Writes.{run_of_thread, SameOwners}
use cloud_swe.Store.Idempotency.Memory.{
  Request, SameDelivery, HasThread, HasMessage, HasDelivery, HasRun, Given, message_of_thread,
}

module _ (r : Request) where
  pub HasThread-update :
      (p : Thread → Bool) (f : Thread → Thread) (ts : List Thread)
      → ((t : Thread) → (f t).id ≡ t.id)
      → ((t : Thread) → (f t).repository_url ≡ t.repository_url)
      → ((t : Thread) → (f t).repository_branch ≡ t.repository_branch)
      → HasThread r ts
      → HasThread r (update p f ts)
  HasThread-update p f ts id url branch h = record {
    thread = rewritten p f h.thread;
    found =
        ground
          (arith, find-update (thread_is r.home.id) p f ts (λ t. ground (arith, id t)), h.found);
    same = record {
      url = ground (arith, url h.thread, h.same.url);
      branch = ground (arith, branch h.thread, h.same.branch);
    };
  }

  pub HasThread-append :
      (ts : List Thread) (t : Thread) → HasThread r ts → HasThread r (ts ++ t ∷ [])
  HasThread-append ts t h = record {
    thread = h.thread;
    found = ground (arith, find-append (thread_is r.home.id) ts (t ∷ []), h.found);
    same = h.same;
  }

  pub HasMessage-update :
      (p : Message → Bool) (f : Message → Message) (ms : List Message)
      → ((m : Message) → (f m).id ≡ m.id)
      → ((m : Message) → (f m).thread_id ≡ m.thread_id)
      → ((m : Message) → (f m).request_kind ≡ m.request_kind)
      → ((m : Message) → (f m).user_id ≡ m.user_id)
      → ((m : Message) → (f m).client_message_id ≡ m.client_message_id)
      → HasMessage r ms
      → HasMessage r (update p f ms)
  HasMessage-update p f ms id thread kind user client h = record {
    message = rewritten p f h.message;
    found =
        ground
          (arith, find-update (client_is r.user r.client) p f ms (λ m. client_same m), h.found);
    same = record {
      id = ground (arith, id h.message, h.same.id);
      thread_id = ground (arith, thread h.message, h.same.thread_id);
      kind = ground (arith, kind h.message, h.same.kind);
    };
    only = λ k e. h.only k (
        sym (
          any-update (message_of_thread r.note.id k) p f ms (λ m _. ground (arith, id m, thread m)))
        ∙ e);
  }
    where
      client_same : (m : Message) → client_is r.user r.client (f m) ≡ client_is r.user r.client m
      client_same m = rw (user m, client m)

  pub HasMessage-append :
      (n : ℕ) (ms : List Message) (m : Message)
      → Given r n
      → n < m.id
      → HasMessage r ms
      → HasMessage r (ms ++ m ∷ [])
  unfolding any
  HasMessage-append n ms m given new h = record {
    message = h.message;
    found = ground (arith, find-append (client_is r.user r.client) ms (m ∷ []), h.found);
    same = h.same;
    only = λ k e.
        h.only k
          (ground (arith, any-append (message_of_thread r.note.id k) ms (m ∷ []), given.note));
  }

  pub HasDelivery-update :
      (p : MessageDelivery → Bool) (f : MessageDelivery → MessageDelivery)
      (xs : List MessageDelivery)
      → ((x : MessageDelivery) → (f x).message_id ≡ x.message_id)
      → ((x : MessageDelivery) → SameDelivery x (f x))
      → HasDelivery r xs
      → HasDelivery r (update p f xs)
  HasDelivery-update p f xs id keeps h =
      let k = keeps h.delivery in
      record {
        delivery = rewritten p f h.delivery;
        found = ground (
          arith,
          find-update (delivery_of r.note.id) p f xs (λ x. ground (arith, id x)),
          h.found,
        );
        same = record {
          target = ground (arith, h.same.target, k.target);
          mode = ground (arith, h.same.mode, k.mode);
          waits = ground (arith, h.same.waits, k.waits);
          prompt = ground (arith, h.same.prompt, k.prompt);
          attachments = ground (arith, h.same.attachments, k.attachments);
          selection = ground (arith, h.same.selection, k.selection);
        };
      }

  pub HasDelivery-append :
      (xs : List MessageDelivery) (x : MessageDelivery)
      → HasDelivery r xs
      → HasDelivery r (xs ++ x ∷ [])
  HasDelivery-append xs x h = record {
    delivery = h.delivery;
    found = ground (arith, find-append (delivery_of r.note.id) xs (x ∷ []), h.found);
    same = h.same;
  }

  pub HasRun-append :
      (n : ℕ) (rs : List Run) (x : Run)
      → Given r n
      → n < x.id
      → HasRun r rs
      → HasRun r (rs ++ x ∷ [])
  unfolding any
  HasRun-append n rs x given new h = record {
    only = λ k e.
        h.only k
          (ground (arith, any-append (run_of_thread r.row.target_run_id k) rs (x ∷ []), given.run));
  }

  pub HasRun-owners :
      (before after : List Run) → SameOwners before after → HasRun r before → HasRun r after
  HasRun-owners before after s h = record {
    only = λ k e. h.only k (sym (s.at r.row.target_run_id k) ∙ e);
  }

  pub Given-grows : (n m : ℕ) → n ≤ m → Given r n → Given r m
  Given-grows n m le g = record {
    home = omega (arith, g.home);
    note = omega (arith, g.note);
    run = omega (arith, g.run);
  }

  -- The purge of another thread.
  pub HasThread-delete :
      (k : ℕ) (ts : List Thread)
      → k ≢ r.home.id
      → HasThread r ts
      → HasThread r (delete (thread_is k) ts)
  HasThread-delete k ts other h = record {
    thread = h.thread;
    found =
        still_found (thread_is r.home.id) (thread_is k) ts h.found
          (ground (arith, find-p (thread_is r.home.id) ts {a = h.thread} h.found));
    same = h.same;
  }

  pub HasMessage-delete :
      (k : ℕ) (ms : List Message)
      → r.note.thread_id ≡ r.home.id
      → k ≢ r.home.id
      → HasMessage r ms
      → HasMessage r (delete (λ m. m.thread_id == k) ms)
  HasMessage-delete k ms its other h = record {
    message = h.message;
    found =
        still_found (client_is r.user r.client) (λ m. m.thread_id == k) ms h.found
          (ground (arith, h.same.thread_id));
    same = h.same;
    only = λ j e.
        h.only j (still_matched (message_of_thread r.note.id j) (λ m. m.thread_id == k) ms e);
  }

  pub HasRun-delete :
      (k : ℕ) (rs : List Run) → HasRun r rs → HasRun r (delete (λ x. x.thread_id == k) rs)
  HasRun-delete k rs h = record {
    only = λ j e.
        h.only j (still_matched (run_of_thread r.row.target_run_id j) (λ x. x.thread_id == k) rs e);
  }

  -- Its delivery hangs on its message and on its run, which are of its thread.
  pub HasDelivery-delete :
      (k : ℕ) (ms : List Message) (rs : List Run) (xs : List MessageDelivery)
      → k ≢ r.home.id
      → HasMessage r ms
      → HasRun r rs
      → HasDelivery r xs
      → HasDelivery r (
          delete
            (λ x.
              any (message_of_thread x.message_id k) ms || any (run_of_thread x.target_run_id k) rs)
            xs)
  HasDelivery-delete k ms rs xs other m n h = record {
    delivery = h.delivery;
    found = still_found (delivery_of r.note.id) _ xs h.found (
        ground (
          arith,
          find-p (delivery_of r.note.id) xs {a = h.delivery} h.found,
          h.same.target,
          m.only k,
          n.only k,
        ));
    same = h.same;
  }
