-- ===== src/Store/Shared/Events.antt =====
-- `appendEvent` of packages/db/src/threads/shared.ts, `appendGitEvent` of
-- packages/db/src/git-store.ts and `setBrowserOwner` of packages/db/src/threads/browser.ts.
use cloud_swe.Base.{
  ℕ, suc, Bool, true, false, none, some, Option, [], ◌∷◌, ◌++◌, ◌==◌, ◌&&◌, ◌||◌, not,
  if◌then◌else◌, find, any, update, pure, fail_if, gets, modify, require, ◌>>=◌, ◌>>◌,
}
use cloud_swe.Store.Schema.{
  Thread, ThreadEvent, EventType, RunMoment, DedupeKey, DedupeKey-discrete, git_key, owner_key,
  Payload, of_owner, run_event, browser_owner_changed, BrowserOwner, same_owner,
}
use cloud_swe.Store.Shared.Errors.{Action, thrown, thread_not_found, unique_index, fresh}

abbrev pub same_key : DedupeKey → DedupeKey → Bool
same_key a b = elim (DedupeKey-discrete a b) [ yes _ ↦ true | no _ ↦ false ]

-- `activityEvents`
abbrev pub is_activity : EventType → Bool
is_activity (run_event RunMoment.queued) = true
is_activity (run_event RunMoment.completed) = true
is_activity (run_event RunMoment.failed) = true
is_activity (run_event RunMoment.cancelled) = true
is_activity _ = false

abbrev pub thread_is : ℕ → Thread → Bool
thread_is id t = t.id == id

abbrev pub event_is : ℕ → DedupeKey → ThreadEvent → Bool
event_is thread_id key e = (e.thread_id == thread_id) && same_key e.dedupe_key key

-- `thread_event_sequence_idx` and `thread_event_dedupe_idx`
abbrev pub event_clashes : ThreadEvent → ThreadEvent → Bool
event_clashes new e =
    (e.thread_id == new.thread_id)
    && ((e.sequence == new.sequence) || same_key e.dedupe_key new.dedupe_key)

unfoldable pub insert_event : ThreadEvent → Action ThreadEvent
insert_event new = do
  fail_if (← gets (λ d. any (event_clashes new) d.events)) unique_index
  modify (λ d. record d { events = d.events ++ new ∷ [] })
  pure new

-- `{ eventSequence: sequence, ...(activityEvents.has(type) && { updatedAt: new Date() }) }`
abbrev pub set_sequence : ℕ → EventType → ℕ → Thread → Thread
set_sequence sequence kind now t = record t {
  event_sequence = sequence;
  updated_at = if is_activity kind then now else t.updated_at;
}

unfoldable pub add_event : ℕ → ℕ → EventType → Payload → DedupeKey → Action ThreadEvent
add_event thread_id sequence kind payload key = do
  modify (λ d. record d {
    threads = update (thread_is thread_id) (set_sequence sequence kind d.clock) d.threads;
  })
  id ← fresh
  now ← gets (λ d. d.clock)
  insert_event (record {
    id = id;
    thread_id = thread_id;
    sequence = sequence;
    kind = kind;
    payload = payload;
    dedupe_key = key;
    created_at = now;
  })

unfoldable pub append_found :
    ℕ → ℕ → EventType → Payload → DedupeKey → Option ThreadEvent → Action ThreadEvent
append_found thread_id sequence kind payload key (some event) = pure event
append_found thread_id sequence kind payload key none =
    add_event thread_id sequence kind payload key

unfoldable pub append_event : ℕ → EventType → Payload → DedupeKey → Action ThreadEvent
append_event thread_id kind payload key = do
  locked ← gets (λ d. find (thread_is thread_id) d.threads)
  thread ← require locked (thrown thread_not_found 404)
  found ← gets (λ d. find (event_is thread_id key) d.events)
  append_found thread_id (suc thread.event_sequence) kind payload key found

-- `appendGitEvent`: no search for an earlier event, and no activity.
unfoldable pub append_git_event : ℕ → EventType → ℕ → Payload → Action Unit
append_git_event thread_id kind operation_id payload = do
  modify (λ d. record d {
    threads =
        update (thread_is thread_id) (λ t. record t { event_sequence = suc t.event_sequence })
          d.threads;
  })
  updated ← gets (λ d. find (thread_is thread_id) d.threads)
  thread ← require updated (thrown thread_not_found 404)
  id ← fresh
  now ← gets (λ d. d.clock)
  insert_event (record {
    id = id;
    thread_id = thread_id;
    sequence = thread.event_sequence;
    kind = kind;
    payload = payload;
    dedupe_key = git_key operation_id kind thread.event_sequence;
    created_at = now;
  })
  pure tt

-- `setBrowserOwner`
unfoldable pub set_browser_owner : ℕ → BrowserOwner → Action Unit
set_browser_owner thread_id owner = do
  let other = λ (t : Thread). (t.id == thread_id) && not (same_owner t.browser_owner owner)
  changed ← gets (λ d. any other d.threads)
  modify
      (λ d. record d { threads = update other (λ t. record t { browser_owner = owner }) d.threads })
  if changed
      then (do
        id ← fresh
        append_event thread_id browser_owner_changed (of_owner owner) (owner_key id)
        pure tt)
      else pure tt
