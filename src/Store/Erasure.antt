-- ===== src/Store/Erasure.antt =====
-- What is left after `deleteThread` and `purgeDeletedThread` of packages/db/src/threads/deletion.ts.
use cloud_swe.Base.{
  ℕ, ◌≡◌, ◌≢◌, refl, inl, inr, false, ◌==◌, none, some, List, [], ◌∷◌, arith, ok, err, ◌>>=◌, find,
  any, update, delete, select, any-update, any-delete_self, any-delete, select-delete, Option-cases,
}
use cloud_swe.Store.Schema.{Db, Thread}
use cloud_swe.Store.Shared.{thrown, thread_not_found, thread_is, owned_thread, fresh}
use cloud_swe.Store.Queue.{insert_outbox}
use cloud_swe.Store.Runs.{request_cancel}
use cloud_swe.Store.Deletion.{
  delete_thread, assert_settled, purge_thread, purge_deleted, detach_attachments, cascade_thread,
  is_tombstone, refers_to_run,
}

-- A thread whose row has the time of its deletion belongs to nobody.
hidden :
    (i u now : ℕ) (ts : List Thread)
    → find (owned_thread i u) (update (thread_is i) (λ t. record t { deleted_at = some now }) ts)
      ≡ none
unfolding find update
hidden i u now [] = refl
hidden i u now (t ∷ ts) = ground (arith, hidden i u now ts)

-- After a deletion that succeeded, no user owns the thread: to delete it again and to cancel one of
-- its runs both answer that there is no such thread.
pub delete_thread-hides :
    (user other i run : ℕ) (d : Db) (a : Unit {0}) (d' : Db)
    → delete_thread user i d ≡ ok (a, d')
    → (delete_thread other i d' ≡ err (thrown thread_not_found 404))
      × (request_cancel other i run d' ≡ err (thrown thread_not_found 404))
unfolding delete_thread assert_settled insert_outbox fresh request_cancel ◌>>=◌
delete_thread-hides user other i run d a d' h = (
  ground (arith, hidden i other d.clock d.threads),
  ground (arith, hidden i other d.clock d.threads),
)

-- No row of the thread.
pub record Erased (i : ℕ) (d : Db) : Type 0 where
  pub threads : any (thread_is i) d.threads ≡ false
  pub events : any (λ e. e.thread_id == i) d.events ≡ false
  pub messages : any (λ m. m.thread_id == i) d.messages ≡ false
  pub runs : any (λ r. r.thread_id == i) d.runs ≡ false
  pub workspaces : any (λ w. w.thread_id == i) d.workspaces ≡ false
  pub git_operations : any (λ g. g.thread_id == i) d.git_operations ≡ false
  pub questions : any (λ q. q.thread_id == i) d.questions ≡ false
  pub outbox : any (λ o. o.thread_id == i) d.outbox ≡ false

cascade_thread-Erased : (i : ℕ) (d : Db) → Erased i (cascade_thread i d)
unfolding cascade_thread
cascade_thread-Erased i d = record {
  threads = any-delete_self _ d.threads;
  events = any-delete_self _ d.events;
  messages = ground (
    arith,
    any-update (λ m. m.thread_id == i) (λ m. refers_to_run i d m.run_id)
        (λ m. record m { run_id = none }) (delete (λ m. m.thread_id == i) d.messages) (λ m h. refl),
    any-delete_self (λ m. m.thread_id == i) d.messages,
  );
  runs = any-delete_self _ d.runs;
  workspaces = any-delete_self _ d.workspaces;
  git_operations = any-delete _ _ d.git_operations (λ x h. ground arith);
  questions = any-delete _ _ d.questions (λ x h. ground arith);
  outbox = any-delete _ _ d.outbox (λ x h. ground arith);
}

-- A purge of a deleted thread that succeeds leaves no row that names the thread in any of the tables
-- that refer to it by its id.
pub purge_thread-Erased :
    (i : ℕ) (t : Thread) (d : Db) (a : Unit {0}) (d' : Db)
    → find (is_tombstone i) d.threads ≡ some t
    → purge_thread i d ≡ ok (a, d')
    → Erased i d'
unfolding purge_thread purge_deleted assert_settled ◌>>=◌
purge_thread-Erased i t d a d' dead h =
    let erased = cascade_thread-Erased i (detach_attachments i d) in
    let is : d' ≡ cascade_thread i (detach_attachments i d) = ground arith in rw is erased

-- The rows of one thread.
pub record SameRows (k : ℕ) (d d' : Db) : Type 0 where
  pub threads : select (thread_is k) d'.threads ≡ select (thread_is k) d.threads
  pub events : select (λ e. e.thread_id == k) d'.events ≡ select (λ e. e.thread_id == k) d.events
  pub runs : select (λ r. r.thread_id == k) d'.runs ≡ select (λ r. r.thread_id == k) d.runs
  pub workspaces :
      select (λ w. w.thread_id == k) d'.workspaces ≡ select (λ w. w.thread_id == k) d.workspaces

cascade_thread-SameRows :
    (i k : ℕ) (d : Db) → k ≢ i → SameRows k d (cascade_thread i (detach_attachments i d))
unfolding cascade_thread detach_attachments
cascade_thread-SameRows i k d other = record {
  threads = select-delete _ _ d.threads (λ x h. ground arith);
  events = select-delete _ _ d.events (λ x h. ground arith);
  runs = select-delete _ _ d.runs (λ x h. ground arith);
  workspaces = select-delete _ _ d.workspaces (λ x h. ground arith);
}

-- A purge that succeeds leaves every other thread with its row, its events, its runs and its
-- workspace, in their order.
pub purge_thread-SameRows :
    (i k : ℕ) (d : Db) (a : Unit {0}) (d' : Db)
    → k ≢ i
    → purge_thread i d ≡ ok (a, d')
    → SameRows k d d'
unfolding purge_thread purge_deleted assert_settled ◌>>=◌
purge_thread-SameRows i k d a d' other h = elim (Option-cases (find (is_tombstone i) d.threads)) [
  | inl none_dead ↦
      (let is : d' ≡ d = ground arith in
        rw is (record { threads = refl; events = refl; runs = refl; workspaces = refl }))
  | inr (t, dead) ↦
      (let is : d' ≡ cascade_thread i (detach_attachments i d) = ground arith in
        rw is (cascade_thread-SameRows i k d other))
]
