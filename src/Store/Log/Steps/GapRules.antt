-- ===== src/Store/Log/Steps/GapRules.antt =====
-- What leaves no gap in the event numbers: the writes that the operations are made of.
use cloud_swe.Base.{
  ℕ, suc, ◌≡◌, ◌≢◌, refl, Bool, true, false, ◌==◌, Option, none, some, List, [], ◌∷◌, arith, modify,
  find, update, delete, find-p, find-update, still_unfound, find-append, ◌++◌, ◌>>=◌, rewritten,
  map_option, Option-cases, inl, inr,
}
use cloud_swe.Base.Keeps.{IsPreorder, Keeps, Keeps-modify, keeps_rules}
use cloud_swe.Store.Schema.{
  Text, BrowserOwner, Db, Thread, ThreadEvent, EventType, Payload, DedupeKey,
}
use cloud_swe.Store.Shared.{StoreError, append_event, append_git_event, fresh, thread_is}
use cloud_swe.Store.Log.Effect.{bump, append_git_event-effect}
use cloud_swe.Store.Log.Sequence.{IsGapless, sequences, first, append_event-IsGapless, append_step}
use cloud_swe.Store.Deletion.{cascade_thread}
use cloud_swe.Store.Submit.{SubmitInput, insert_thread, new_thread, edit_message}

abbrev pub GapFree : Db → Db → Type 0
GapFree d d' = IsGapless d → IsGapless d'

pub GapFree-preorder : IsPreorder GapFree
GapFree-preorder = record { same = λ d v. v; next = λ d e f p q v. q (p v) }

pub append_event-GapFree :
    (i : ℕ) (kind : EventType) (payload : Payload) (key : DedupeKey)
    → Keeps GapFree (append_event i kind payload key)
append_event-GapFree i kind payload key = record {
  at = λ d e d' h v. append_event-IsGapless i kind payload key d v h;
}

pub append_git_event-GapFree :
    (i : ℕ) (kind : EventType) (op : ℕ) (payload : Payload)
    → Keeps GapFree (append_git_event i kind op payload)
append_git_event-GapFree i kind op payload = record {
  at = λ d a d' h v.
      let (t, e, there, owner, number, threads, events, grows) =
        append_git_event-effect i kind op payload d h in
      append_step d i t bump e d' v there (λ x. refl) refl owner number threads events grows;
}

-- A write to other tables.
pub modify-GapFree :
    (f : Db → Db)
    → ((d : Db) → (f d).threads ≡ d.threads)
    → ((d : Db) → (f d).events ≡ d.events)
    → ((d : Db) → (f d).next_id ≡ d.next_id)
    → Keeps {E = StoreError} GapFree (modify f)
modify-GapFree f threads events next = Keeps-modify f λ d v. record {
  at = λ i t h. rw (events d) (v.at i t (rw (threads d) at h));
  unused = λ i h. rw (events d) (v.unused i (rw (next d) at h));
  unknown = λ i h. rw (threads d) (v.unknown i (rw (next d) at h));
}

pub fresh-GapFree : Keeps GapFree fresh
unfolding fresh
fresh-GapFree = record {
  at = λ d a d' h v. record {
    at = λ i t k. ground (arith, v.at i t);
    unused = λ i k. ground (arith, v.unused i);
    unknown = λ i k. ground (arith, v.unknown i);
  };
}

-- A write to the columns of threads other than the id and the number.
relabelled :
    (q : Thread → Bool) (f : Thread → Thread) (ts : List Thread) (i : ℕ) (t' : Thread)
    → ((t : Thread) → (f t).id ≡ t.id)
    → ((t : Thread) → (f t).event_sequence ≡ t.event_sequence)
    → find (thread_is i) (update q f ts) ≡ some t'
    → (t : Thread) × (find (thread_is i) ts ≡ some t) × (t'.event_sequence ≡ t.event_sequence)
relabelled q f ts i t' id number h = elim (Option-cases (find (thread_is i) ts)) [
  | inl gone ↦ absurd (ground (arith, same))
  | inr (t, there) ↦ (t, there, ground (arith, same, number t))
]
  where
    same : find (thread_is i) (update q f ts) ≡ map_option (rewritten q f) (find (thread_is i) ts)
    same = find-update (thread_is i) q f ts (λ x. ground (arith, id x))

threads-GapFree :
    (q : Thread → Bool) (f : ℕ → Thread → Thread)
    → ((n : ℕ) (t : Thread) → (f n t).id ≡ t.id)
    → ((n : ℕ) (t : Thread) → (f n t).event_sequence ≡ t.event_sequence)
    → Keeps {E = StoreError} GapFree
        (modify (λ d. record d { threads = update q (f d.clock) d.threads }))
threads-GapFree q f id number = Keeps-modify _ λ d v. record {
  at = λ i t' h.
      let (t, there, same) =
        relabelled q (f d.clock) d.threads i t' (id d.clock) (number d.clock) h in
      rw same (v.at i t there);
  unused = v.unused;
  unknown = λ i h. ground (
    arith,
    find-update (thread_is i) q (f d.clock) d.threads (λ x. ground (arith, id d.clock x)),
    v.unknown i h,
  );
}

pub owner-GapFree :
    (q : Thread → Bool) (o : BrowserOwner)
    → Keeps {E = StoreError} GapFree (
        modify
          (λ d. record d { threads = update q (λ t. record t { browser_owner = o }) d.threads }))
owner-GapFree q o =
    threads-GapFree q (λ _ t. record t { browser_owner = o }) (λ _ _. refl) (λ _ _. refl)

pub tombstone-GapFree :
    (q : Thread → Bool)
    → Keeps {E = StoreError} GapFree (
        modify (λ d. record d {
          threads = update q (λ t. record t { deleted_at = some d.clock }) d.threads;
        }))
tombstone-GapFree q =
    threads-GapFree q (λ n t. record t { deleted_at = some n }) (λ _ _. refl) (λ _ _. refl)

-- The purge of one thread leaves the others.
survivor :
    (i k : ℕ) (ts : List Thread) (t : Thread)
    → find (thread_is i) (delete (thread_is k) ts) ≡ some t
    → (i ≢ k) × (find (thread_is i) ts ≡ some t)
unfolding find delete
survivor i k [] t h = (λ _. cc, cc)
survivor i k (x ∷ ts) t h = ground (arith, survivor i k ts t)

sequences-delete :
    (i k : ℕ) (es : List ThreadEvent)
    → i ≢ k
    → sequences i (delete (λ e. e.thread_id == k) es) ≡ sequences i es
unfolding sequences delete
sequences-delete i k [] h = refl
sequences-delete i k (e ∷ es) h = ground (arith, sequences-delete i k es h)

sequences-delete_none :
    (i k : ℕ) (es : List ThreadEvent)
    → sequences i es ≡ []
    → sequences i (delete (λ e. e.thread_id == k) es) ≡ []
unfolding sequences delete
sequences-delete_none i k [] h = refl
sequences-delete_none i k (e ∷ es) h = ground (arith, sequences-delete_none i k es)

pub cascade_thread-GapFree : (k : ℕ) → Keeps {E = StoreError} GapFree (modify (cascade_thread k))
unfolding cascade_thread
cascade_thread-GapFree k = Keeps-modify _ λ d v. record {
  at = λ i t h.
      let (other, there) = survivor i k d.threads t h in
      rw (sequences-delete i k d.events other) (v.at i t there);
  unused = λ i h. sequences-delete_none i k d.events (v.unused i h);
  unknown = λ i h. still_unfound (thread_is i) (thread_is k) d.threads (v.unknown i h);
}

-- A new thread has an id that no event names.
pub insert_thread-GapFree : (x : SubmitInput) → Keeps GapFree (insert_thread x)
unfolding insert_thread fresh ◌>>=◌ first find
insert_thread-GapFree x = record {
  at = λ d a d' h v.
      let new = new_thread (suc (suc d.next_id)) (suc d.next_id) x d.clock in
      let threads : d'.threads ≡ d.threads ++ new ∷ [] = ground arith in
      let events : d'.events ≡ d.events = ground arith in
      record {
        at = λ i t there.
            ground (arith, find-append (thread_is i) d.threads (new ∷ []), v.at i t, v.unused i);
        unused = λ i k. ground (arith, v.unused i);
        unknown =
            λ i k. ground (arith, find-append (thread_is i) d.threads (new ∷ []), v.unknown i);
      };
}

pub ruleset gap_rules = (
  keeps_rules, GapFree-preorder, append_event-GapFree, append_git_event-GapFree, modify-GapFree,
  fresh-GapFree, owner-GapFree, tombstone-GapFree, cascade_thread-GapFree, refl,
)

pub edit_message-GapFree : (m : ℕ) (t : Option Text) → Keeps GapFree (edit_message m t)
unfolding edit_message
edit_message-GapFree m none = search gap_rules depth 20
edit_message-GapFree m (some t) = search gap_rules depth 20
