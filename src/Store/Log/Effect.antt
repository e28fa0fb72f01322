-- ===== src/Store/Log/Effect.antt =====
-- The two outcomes of an append, as equations about the database.
use cloud_swe.Base.{
  find-p, find-update, map_option, rewritten, refl, ℕ, suc, ◌≡◌, ◌≤◌, inl, inr, false, none, some,
  [], ◌∷◌, ◌++◌, arith, ok, ◌>>=◌, find, any, update, Option-cases,
}
use cloud_swe.Store.Schema.{git_key, Db, Thread, ThreadEvent, EventType, Payload, DedupeKey}
use cloud_swe.Store.Shared.{
  append_git_event, append_event, append_found, add_event, insert_event, fresh, thread_is, event_is,
  event_clashes, set_sequence,
}

abbrev pub new_event : ℕ → ℕ → EventType → Payload → DedupeKey → Db → ThreadEvent
new_event thread_id sequence kind payload key d = record {
  id = suc d.next_id;
  thread_id = thread_id;
  sequence = sequence;
  kind = kind;
  payload = payload;
  dedupe_key = key;
  created_at = d.clock;
}

abbrev pub with_event : ℕ → ℕ → EventType → Payload → DedupeKey → Db → Db
with_event thread_id sequence kind payload key d = record d {
  threads = update (thread_is thread_id) (set_sequence sequence kind d.clock) d.threads;
  events = d.events ++ new_event thread_id sequence kind payload key d ∷ [];
  next_id = suc d.next_id;
}

-- What a successful append did: it found the event, or it wrote the next one.
pub data Appended (thread_id : ℕ) (kind : EventType) (payload : Payload) (key : DedupeKey) (d : Db)
    (e : ThreadEvent) (d' : Db) : Type 0 where
  repeated :
      (t : Thread)
      → find (thread_is thread_id) d.threads ≡ some t
      → find (event_is thread_id key) d.events ≡ some e
      → d' ≡ d
      → Appended thread_id kind payload key d e d'
  written :
      (t : Thread)
      → find (thread_is thread_id) d.threads ≡ some t
      → find (event_is thread_id key) d.events ≡ none
      → any (event_clashes (new_event thread_id (suc t.event_sequence) kind payload key d)) d.events
        ≡ false
      → e ≡ new_event thread_id (suc t.event_sequence) kind payload key d
      → d' ≡ with_event thread_id (suc t.event_sequence) kind payload key d
      → Appended thread_id kind payload key d e d'

module _ (thread_id : ℕ) (kind : EventType) (payload : Payload) (key : DedupeKey) where
  pub append_event-Appended :
      (d : Db) {e : ThreadEvent} {d' : Db}
      → append_event thread_id kind payload key d ≡ ok (e, d')
      → Appended thread_id kind payload key d e d'
  unfolding append_event append_found add_event insert_event fresh ◌>>=◌
  append_event-Appended d {e} {d'} h = elim (Option-cases (find (thread_is thread_id) d.threads)) [
    | inl gone ↦ absurd (ground arith)
    | inr (t, there) ↦ elim (Option-cases (find (event_is thread_id key) d.events)) [
      | inl new ↦ written t there new (ground arith) (ground arith) (ground arith)
      | inr (old, found) ↦ repeated t there (ground arith) (ground arith)
    ]
  ]

  -- Where the event is there already, it is the result.
  pub append_event-found :
      (d : Db) (t : Thread) (e : ThreadEvent)
      → find (thread_is thread_id) d.threads ≡ some t
      → find (event_is thread_id key) d.events ≡ some e
      → append_event thread_id kind payload key d ≡ ok (e, d)
  unfolding append_event append_found add_event insert_event fresh ◌>>=◌
  append_event-found d t e there found = ground arith

  -- Where it is not there and clashes with nothing, it is written.
  pub append_event-new :
      (d : Db) (t : Thread)
      → find (thread_is thread_id) d.threads ≡ some t
      → find (event_is thread_id key) d.events ≡ none
      → any (event_clashes (new_event thread_id (suc t.event_sequence) kind payload key d)) d.events
        ≡ false
      → append_event thread_id kind payload key d
        ≡ ok (
          new_event thread_id (suc t.event_sequence) kind payload key d,
          with_event thread_id (suc t.event_sequence) kind payload key d,
        )
  unfolding append_event append_found add_event insert_event fresh ◌>>=◌
  append_event-new d t there new free = ground arith

-- The row that `appendGitEvent` writes its number to.
abbrev pub bump : Thread → Thread
bump t = record t { event_sequence = suc t.event_sequence }

pub append_git_event-effect :
    (thread_id : ℕ) (kind : EventType) (operation_id : ℕ) (payload : Payload) (d : Db) {a : Unit}
    {d' : Db}
    → append_git_event thread_id kind operation_id payload d ≡ ok (a, d')
    → (t : Thread) × (e : ThreadEvent) × (find (thread_is thread_id) d.threads ≡ some t)
      × (e.thread_id ≡ thread_id)
      × (e.sequence ≡ suc t.event_sequence)
      × (d'.threads ≡ update (thread_is thread_id) bump d.threads)
      × (d'.events ≡ d.events ++ e ∷ [])
      × (d.next_id ≤ d'.next_id)
unfolding append_git_event insert_event fresh ◌>>=◌
append_git_event-effect thread_id kind operation_id payload d h =
    elim (Option-cases (find (thread_is thread_id) d.threads)) [
      | inl gone ↦ absurd (ground (arith, same))
      | inr (t, there) ↦ (
        t,
        record (new_event thread_id (suc t.event_sequence) kind payload
            (git_key operation_id kind (suc t.event_sequence)) d) { thread_id = thread_id },
        there,
        refl,
        refl,
        ground (arith, same),
        ground (arith, same, find-p (thread_is thread_id) d.threads {a = t} there),
        ground (arith, same),
      )
    ]
  where
    same :
        find (thread_is thread_id) (update (thread_is thread_id) bump d.threads)
        ≡ map_option (rewritten (thread_is thread_id) bump) (find (thread_is thread_id) d.threads)
    same = find-update _ _ bump d.threads (λ x. refl)
