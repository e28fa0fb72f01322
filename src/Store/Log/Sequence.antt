-- ===== src/Store/Log/Sequence.antt =====
-- The events of a thread are numbered 1, 2, 3, … up to the thread's `eventSequence`, with no gap.
use cloud_swe.Base.{
  ℕ, zero, suc, ◌≤◌, ◌<◌, none, ◌≡◌, ◌≢◌, refl, false, ◌==◌, if◌then◌else◌, some, List, [], ◌∷◌,
  ◌++◌, arith, ok, Option-cases, Bool-cases, find, any, update, find-update, find-none, find-p,
  rewritten, map_option, All, inl, inr,
}
use cloud_swe.Store.Schema.{Db, Thread, ThreadEvent, EventType, Payload, DedupeKey}
use cloud_swe.Store.Shared.{append_event, thread_is, event_is, event_clashes, set_sequence}
use cloud_swe.Store.Log.Effect.{
  Appended, repeated, written, append_event-Appended, append_event-found, append_event-new,
  new_event,
}

-- The numbers of a thread's events, oldest first.
unfoldable pub sequences : ℕ → List ThreadEvent → List ℕ
sequences thread_id [] = []
sequences thread_id (e ∷ es) =
    if e.thread_id == thread_id then e.sequence ∷ sequences thread_id es else sequences thread_id es

-- 1, 2, …, n
unfoldable pub first : ℕ → List ℕ
first zero = []
first (suc n) = first n ++ suc n ∷ []

pub record IsGapless (d : Db) : Type 0 where
  pub at :
      (thread_id : ℕ) (t : Thread)
      → find (thread_is thread_id) d.threads ≡ some t
      → sequences thread_id d.events ≡ first t.event_sequence
  -- An id that was not given yet is of no thread, and no event names it.
  pub unused : (thread_id : ℕ) → d.next_id < thread_id → sequences thread_id d.events ≡ []
  pub unknown :
      (thread_id : ℕ) → d.next_id < thread_id → find (thread_is thread_id) d.threads ≡ none

pub sequences-append :
    (i : ℕ) (es : List ThreadEvent) (e : ThreadEvent)
    → sequences i (es ++ e ∷ [])
      ≡ (if e.thread_id == i then sequences i es ++ e.sequence ∷ [] else sequences i es)
unfolding sequences
sequences-append i [] e = ground arith
sequences-append i (x ∷ es) e = ground (arith, sequences-append i es e)

-- A thread's row after a write to thread `j`, seen through the number that it holds.
written_row :
    (i j : ℕ) (f : Thread → Thread) (ts : List Thread) (t' : Thread)
    → ((t : Thread) → (f t).id ≡ t.id)
    → find (thread_is i) (update (thread_is j) f ts) ≡ some t'
    → (t : Thread) × (find (thread_is i) ts ≡ some t)
      × (t'.event_sequence ≡ (if i == j then (f t).event_sequence else t.event_sequence))
written_row i j f ts t' keeps h = elim (Option-cases (find (thread_is i) ts)) [
  | inl gone ↦ absurd (ground (arith, same))
  | inr (t, there) ↦
      (t, there, ground (arith, same, keeps t, find-p (thread_is i) ts {a = t} there))
]
  where
    same :
        find (thread_is i) (update (thread_is j) f ts)
        ≡ map_option (rewritten (thread_is j) f) (find (thread_is i) ts)
    same = find-update (thread_is i) (thread_is j) f ts (λ x. ground (arith, keeps x))

-- The row of the thread that was written to, and of another.
append_self :
    (d d' : Db) (i : ℕ) (t t' : Thread) (e : ThreadEvent)
    → IsGapless d
    → find (thread_is i) d.threads ≡ some t
    → e.thread_id ≡ i
    → e.sequence ≡ suc t.event_sequence
    → d'.events ≡ d.events ++ e ∷ []
    → t'.event_sequence ≡ suc t.event_sequence
    → sequences i d'.events ≡ first t'.event_sequence
unfolding first
append_self d d' i t t' e v there owner number events next =
    rw (events, sequences-append i d.events e, next) (ground (arith, v.at i t there))

append_other :
    (d d' : Db) (i : ℕ) (s t' : Thread) (e : ThreadEvent)
    → IsGapless d
    → find (thread_is i) d.threads ≡ some s
    → e.thread_id ≢ i
    → d'.events ≡ d.events ++ e ∷ []
    → t'.event_sequence ≡ s.event_sequence
    → sequences i d'.events ≡ first t'.event_sequence
append_other d d' i s t' e v there owner events same =
    rw (events, sequences-append i d.events e) (ground (arith, v.at i s there))

pub append_step :
    (d : Db) (j : ℕ) (t : Thread) (f : Thread → Thread) (e : ThreadEvent) (d' : Db)
    → IsGapless d
    → find (thread_is j) d.threads ≡ some t
    → ((x : Thread) → (f x).id ≡ x.id)
    → (f t).event_sequence ≡ suc t.event_sequence
    → e.thread_id ≡ j
    → e.sequence ≡ suc t.event_sequence
    → d'.threads ≡ update (thread_is j) f d.threads
    → d'.events ≡ d.events ++ e ∷ []
    → d.next_id ≤ d'.next_id
    → IsGapless d'
append_step d j t f e d' v there keeps sets owner number threads events grows = record {
  at = λ i t' h.
      let (s, was, next) = written_row i j f d.threads t' keeps (rw threads at h) in
      elim (Bool-cases (i == j)) [
        | inl here ↦
            append_self d d' i t t' e v (ground arith) (ground arith) number events (ground arith)
        | inr there ↦ append_other d d' i s t' e v was (ground arith) events (ground arith)
      ];
  unused = λ i h.
      rw (events, sequences-append i d.events e)
        (ground (arith, v.unused i (omega (arith, grows)), v.unknown i (omega (arith, grows))));
  unknown = λ i h. rw threads (
      ground (
        arith,
        find-update (thread_is i) (thread_is j) f d.threads (λ x. ground (arith, keeps x)),
        v.unknown i (omega (arith, grows)),
      ));
}

module _ (thread_id : ℕ) (kind : EventType) (payload : Payload) (key : DedupeKey) where
  -- An append keeps every thread's events numbered from 1 with no gap.
  pub append_event-IsGapless :
      (d : Db) {e : ThreadEvent} {d' : Db}
      → IsGapless d
      → append_event thread_id kind payload key d ≡ ok (e, d')
      → IsGapless d'
  append_event-IsGapless d {e} {d'} v h = go (append_event-Appended thread_id kind payload key d h)
    where
      go : Appended thread_id kind payload key d e d' → IsGapless d'
      go (repeated t _ _ same) = rw same v
      go (written t there new _ made after) =
          append_step d thread_id t (set_sequence (suc t.event_sequence) kind d.clock) e d' v there
            (λ x. refl) refl (rw made) (rw made) (rw after) (rw (after, made))
            (rw after (omega arith))

-- Numbers up to `n`.
All-snoc : (n m : ℕ) (xs : List ℕ) → All (λ x. x ≤ n) xs → n ≤ m → All (λ x. x ≤ m) (xs ++ m ∷ [])
All-snoc n m [] h le = (omega arith, tt)
All-snoc n m (x ∷ xs) h le = (omega arith, All-snoc n m xs h.1 le)

All-first : (n : ℕ) → All (λ x. x ≤ n) (first n)
unfolding first
All-first zero = tt
All-first (suc n) = All-snoc n (suc n) (first n) (All-first n) (omega arith)

no_clash :
    (e : ThreadEvent) (n : ℕ) (es : List ThreadEvent)
    → any (event_is e.thread_id e.dedupe_key) es ≡ false
    → All (λ x. x ≤ n) (sequences e.thread_id es)
    → e.sequence ≡ suc n
    → any (event_clashes e) es ≡ false
unfolding any sequences
no_clash e n [] new low next = refl
no_clash e n (x ∷ es) new low next = ground (arith, no_clash e n es)

-- On a log with no gap an append to a thread that exists never meets a unique index: it succeeds.
pub append_event-total :
    (d : Db) (thread_id : ℕ) (t : Thread) (kind : EventType) (payload : Payload) (key : DedupeKey)
    → IsGapless d
    → find (thread_is thread_id) d.threads ≡ some t
    → (e : ThreadEvent) × (d' : Db) × (append_event thread_id kind payload key d ≡ ok (e, d'))
append_event-total d thread_id t kind payload key v there =
    elim (Option-cases (find (event_is thread_id key) d.events)) [
      | inr (e, found) ↦ (e, d, append_event-found thread_id kind payload key d t e there found)
      | inl new ↦ (
        _,
        _,
        append_event-new thread_id kind payload key d t there new (
            no_clash (new_event thread_id (suc t.event_sequence) kind payload key d)
              t.event_sequence d.events (find-none _ d.events new)
              (rw (v.at thread_id t there) (All-first t.event_sequence)) refl),
      )
    ]
