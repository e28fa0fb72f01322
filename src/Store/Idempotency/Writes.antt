-- ===== src/Store/Idempotency/Writes.antt =====
-- The writes to threads and to tables that a request has no row in keep what is remembered of it.
use cloud_swe.Base.{ℕ, Bool, suc, ◌≤◌, ◌≡◌, refl, arith, update, modify, find-update, ◌>>=◌}
use cloud_swe.Base.Keeps.{Keeps, Keeps-modify}
use cloud_swe.Store.Schema.{Db, Thread, EventType, Payload, DedupeKey}
use cloud_swe.Store.Shared.{
  StoreError, thread_is, fresh, append_event, append_git_event, insert_event, set_sequence,
}
use cloud_swe.Store.Log.{repeated, written, append_event-Appended, bump}
use cloud_swe.Store.Steps.Writes.{SameOwners, SameOwners-refl}
use cloud_swe.Store.Idempotency.Memory.{Request, Survives, Survives-preorder, survives}
use cloud_swe.Store.Idempotency.Rows.{HasThread-update, HasRun-owners, Given-grows}

module _ (q : Request) where
  -- A write to threads that leaves id and repository.
  relabelled :
      (p : Thread → Bool) (f : Thread → Thread) (d e : Db)
      → ((t : Thread) → (f t).id ≡ t.id)
      → ((t : Thread) → (f t).repository_url ≡ t.repository_url)
      → ((t : Thread) → (f t).repository_branch ≡ t.repository_branch)
      → e.threads ≡ update p f d.threads
      → e.messages ≡ d.messages
      → e.deliveries ≡ d.deliveries
      → e.runs ≡ d.runs
      → d.next_id ≤ e.next_id
      → Survives q d e
  relabelled p f d e id url branch threads messages deliveries runs grows =
      survives q d e
        (λ k. record {
          thread = rw threads (HasThread-update q p f d.threads id url branch k.thread);
          message = rw messages k.message;
          delivery = rw deliveries k.delivery;
          run = rw runs k.run;
          given = Given-grows q d.next_id e.next_id grows k.given;
        })
        λ k. record {
          gone = rw threads (
              ground (
                arith,
                find-update (thread_is q.home.id) p f d.threads (λ t. ground (arith, id t)),
                k.gone,
              ));
          past = omega (arith, k.past);
        }

  -- A write to other tables, and an id given.
  elsewhere :
      (d e : Db)
      → e.threads ≡ d.threads
      → e.messages ≡ d.messages
      → e.deliveries ≡ d.deliveries
      → SameOwners d.runs e.runs
      → d.next_id ≤ e.next_id
      → Survives q d e
  elsewhere d e threads messages deliveries runs grows =
      survives q d e
        (λ k. record {
          thread = rw threads k.thread;
          message = rw messages k.message;
          delivery = rw deliveries k.delivery;
          run = HasRun-owners q d.runs e.runs runs k.run;
          given = Given-grows q d.next_id e.next_id grows k.given;
        })
        λ k. record { gone = rw threads k.gone; past = omega (arith, k.past) }

  pub modify-Survives :
      (f : Db → Db)
      → ((d : Db) → (f d).threads ≡ d.threads)
      → ((d : Db) → (f d).messages ≡ d.messages)
      → ((d : Db) → (f d).deliveries ≡ d.deliveries)
      → ((d : Db) → (f d).next_id ≡ d.next_id)
      → ((d : Db) → SameOwners d.runs (f d).runs)
      → Keeps {E = StoreError} (Survives q) (modify f)
  modify-Survives f t m x n r =
      Keeps-modify f λ d. elsewhere d (f d) (t d) (m d) (x d) (r d) (rw (n d) (omega arith))

  pub fresh-Survives : Keeps (Survives q) fresh
  unfolding fresh
  fresh-Survives = record {
    at = λ d a e h.
        let same : e ≡ record d { next_id = suc d.next_id } = ground arith in
        rw same (elsewhere d _ refl refl refl (SameOwners-refl d.runs) (omega arith));
  }

  pub append_event-Survives :
      (i : ℕ) (kind : EventType) (payload : Payload) (key : DedupeKey)
      → Keeps (Survives q) (append_event i kind payload key)
  append_event-Survives i kind payload key = record {
    at = λ d e d' h. elim (append_event-Appended i kind payload key d h) [
      | repeated t there found same ↦ rw same ((Survives-preorder q).same d)
      | written t there new free is same ↦ rw same (
          relabelled (thread_is i) (set_sequence (suc t.event_sequence) kind d.clock) d _
            (λ x. refl) (λ x. refl) (λ x. refl) refl refl refl refl (omega arith))
    ];
  }

  pub append_git_event-Survives :
      (i : ℕ) (kind : EventType) (op : ℕ) (payload : Payload)
      → Keeps (Survives q) (append_git_event i kind op payload)
  unfolding append_git_event insert_event fresh ◌>>=◌
  append_git_event-Survives i kind op payload = record {
    at = λ d a e h.
        relabelled (thread_is i) bump d e (λ x. refl) (λ x. refl) (λ x. refl) (ground arith)
          (ground arith) (ground arith) (ground arith) (ground arith);
  }

  pub threads-Survives :
      (p : Thread → Bool) (f : ℕ → Thread → Thread)
      → ((n : ℕ) (t : Thread) → (f n t).id ≡ t.id)
      → ((n : ℕ) (t : Thread) → (f n t).repository_url ≡ t.repository_url)
      → ((n : ℕ) (t : Thread) → (f n t).repository_branch ≡ t.repository_branch)
      → Keeps {E = StoreError}
          (Survives q)
          (modify (λ d. record d { threads = update p (f d.clock) d.threads }))
  threads-Survives p f id url branch = Keeps-modify _ λ d.
      relabelled p (f d.clock) d _ (id d.clock) (url d.clock) (branch d.clock) refl refl refl refl
        (omega arith)
