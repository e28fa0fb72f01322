-- ===== src/Store/Log/Dedupe.antt =====
-- Appending is idempotent in the dedupe key.
use cloud_swe.Base.{
  ℕ, ◌≡◌, refl, true, false, some, [], ◌∷◌, arith, ok, find, find-append, find-update, rewritten,
  map_option, ap, ◌∙◌,
}
use cloud_swe.Store.Schema.{Db, ThreadEvent, EventType, Payload, DedupeKey, DedupeKey-discrete}
use cloud_swe.Store.Shared.{append_event, thread_is, event_is, same_key, set_sequence}
use cloud_swe.Store.Log.Effect.{
  Appended, repeated, written, append_event-Appended, append_event-found, new_event,
}

pub same_key_refl : (k : DedupeKey) → same_key k k ≡ true
same_key_refl k = go (DedupeKey-discrete k k)
  where
    go : (r : Dec (k ≡ k)) → (elim r [ yes _ ↦ true | no _ ↦ false ]) ≡ true
    go (yes e) = refl
    go (no e) = absurd (e refl)

pub same_key→eq : (a b : DedupeKey) → same_key a b ≡ true → a ≡ b
same_key→eq a b h = go (DedupeKey-discrete a b) h
  where
    go : (r : Dec (a ≡ b)) → (elim r [ yes _ ↦ true | no _ ↦ false ]) ≡ true → a ≡ b
    go (yes e) _ = e
    go (no e) p = cc

module _ (thread_id : ℕ) (kind : EventType) (payload : Payload) (key : DedupeKey) (d : Db) where
  pub event_is-new_event :
      (sequence : ℕ)
      → event_is thread_id key (new_event thread_id sequence kind payload key d) ≡ true
  event_is-new_event sequence = ground (arith, same_key_refl key)

  find_new :
      (sequence : ℕ)
      → find (event_is thread_id key) (new_event thread_id sequence kind payload key d ∷ [])
        ≡ some (new_event thread_id sequence kind payload key d)
  unfolding find
  find_new sequence = rw (event_is-new_event sequence)

  appended-twice :
      (kind' : EventType) (payload' : Payload) {e : ThreadEvent} {d' : Db}
      → append_event thread_id kind payload key d ≡ ok (e, d')
      → append_event thread_id kind' payload' key d' ≡ ok (e, d')
  appended-twice kind' payload' {e} {d'} h =
      go (append_event-Appended thread_id kind payload key d h)
    where
      go :
          Appended thread_id kind payload key d e d'
          → append_event thread_id kind' payload' key d' ≡ ok (e, d')
      go (repeated t there found same) =
          rw same (append_event-found thread_id kind' payload' key d t e there found)
      go (written t there new _ made after) = rw after (
          append_event-found thread_id kind' payload' key _
            (rewritten (thread_is thread_id) (set_sequence _ kind d.clock) t) e
            (find-update _ _ _ d.threads (λ x. refl) ∙ ap (map_option _) there)
            (find-append _ d.events _ ∙ rw (new, made) (rw (find_new _))))

-- After an append to a thread, another to it with the same key, whatever its type and payload, returns
-- the same event and changes nothing.
pub append_event-twice :
    (thread_id : ℕ) (kind kind' : EventType) (payload payload' : Payload) (key : DedupeKey) (d : Db)
    (e : ThreadEvent) (d' : Db)
    → append_event thread_id kind payload key d ≡ ok (e, d')
    → append_event thread_id kind' payload' key d' ≡ ok (e, d')
append_event-twice thread_id kind kind' payload payload' key d e d' h =
    appended-twice thread_id kind payload key d kind' payload' h
