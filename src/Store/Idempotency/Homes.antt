-- ===== src/Store/Idempotency/Homes.antt =====
-- Threads keep their repository and their owner while a request is accepted.
use cloud_swe.Base.{
  ℕ, suc, Bool, inl, inr, ◌==◌, ==-refl, Bool-cases, same_option_refl, ◌<◌, ◌≤◌, ◌≡◌, refl, true,
  false, is_some, Option, none, some, List, [], ◌∷◌, arith, ok, ◌>>=◌, modify, find, find-update,
  find-append, rewritten,
}
use cloud_swe.Base.Keeps.{IsPreorder, Keeps, Keeps-modify, keeps_rules}
use cloud_swe.Store.Schema.{
  Db, Text, Thread, Attachment, Run, DeliveryMode, MessageDelivery, OutboxType, EventType, Payload,
  DedupeKey,
}
use cloud_swe.Store.Shared.{StoreError, fresh, append_event, owned_thread, thread_is, set_sequence}
use cloud_swe.Store.Log.{repeated, written, append_event-Appended}
use cloud_swe.Store.Queue.{insert_run, insert_outbox}
use cloud_swe.Store.Submit.{
  SubmitInput, insert_thread, target_thread, target_run, insert_message, bind_attachment,
  bind_attachments, insert_delivery, deliver, finish_submission, accept_message, new_thread,
  other_repository, other_thread, is_foreign,
}

-- Ids grow, a thread that is there stays with its repository, and what a user owns stays so.
pub record SameHomes (d e : Db) : Type 0 where
  pub grows : d.next_id ≤ e.next_id
  pub row :
      (i : ℕ) (t : Thread)
      → find (thread_is i) d.threads ≡ some t
      → (t' : Thread) × (find (thread_is i) e.threads ≡ some t')
        × (t'.repository_url ≡ t.repository_url)
        × (t'.repository_branch ≡ t.repository_branch)
  pub owned :
      (i u : ℕ)
      → is_some (find (owned_thread i u) d.threads) ≡ true
      → is_some (find (owned_thread i u) e.threads) ≡ true

SameHomes-preorder : IsPreorder SameHomes
SameHomes-preorder = record {
  same = λ d. record { grows = omega arith; row = λ i t h. (t, h, refl, refl); owned = λ i u h. h };
  next = λ d e f p q. record {
    grows = omega (arith, p.grows, q.grows);
    row = λ i t h.
        let (t', h', url, branch) = p.row i t h in
        let (t'', h'', url', branch') = q.row i t' h' in (t'', h'', cc, cc);
    owned = λ i u h. q.owned i u (p.owned i u h);
  };
}

modify-SameHomes :
    (f : Db → Db)
    → ((d : Db) → (f d).threads ≡ d.threads)
    → ((d : Db) → (f d).next_id ≡ d.next_id)
    → Keeps {E = StoreError} SameHomes (modify f)
modify-SameHomes f t n = Keeps-modify f λ d. record {
  grows = rw (n d) (omega arith);
  row = λ i s h. (s, rw (t d) h, refl, refl);
  owned = λ i u h. rw (t d) h;
}

fresh-SameHomes : Keeps SameHomes fresh
unfolding fresh
fresh-SameHomes = record {
  at = λ d a d' h. record {
    grows = ground arith;
    row = λ i t k. (t, ground arith, refl, refl);
    owned = λ i u k. ground arith;
  };
}

append_event-SameHomes :
    (i : ℕ) (kind : EventType) (payload : Payload) (key : DedupeKey)
    → Keeps SameHomes (append_event i kind payload key)
append_event-SameHomes i kind payload key = record {
  at = λ d e d' h. elim (append_event-Appended i kind payload key d h) [
    | repeated t there found same ↦ rw same (SameHomes-preorder.same d)
    | written t there new free is same ↦
        (let f = set_sequence (suc t.event_sequence) kind d.clock in
          rw same (record {
            grows = omega arith;
            row = λ j s k. (
              rewritten (thread_is i) f s,
              ground (arith, find-update (thread_is j) (thread_is i) f d.threads (λ x. refl)),
              ground arith,
              ground arith,
            );
            owned = λ j u k.
                ground
                  (arith, find-update (owned_thread j u) (thread_is i) f d.threads (λ x. refl));
          }))
  ];
}

ruleset home_rules = (
  keeps_rules, SameHomes-preorder, modify-SameHomes, fresh-SameHomes, append_event-SameHomes, refl,
)

insert_outbox-SameHomes :
    (k : OutboxType) (i : ℕ) (r : Option ℕ) → Keeps SameHomes (insert_outbox k i r)
unfolding insert_outbox
insert_outbox-SameHomes k i r = search home_rules depth 20

pub insert_run-SameHomes :
    (i j : ℕ) (k : Text) (s : Option ℕ) (e : StoreError) → Keeps SameHomes (insert_run i j k s e)
unfolding insert_run
insert_run-SameHomes i j k s e = search home_rules depth 20

pub target_run-SameHomes :
    (x : SubmitInput) (t : ℕ) (r : Option Run) → Keeps SameHomes (target_run x t r)
unfolding target_run
target_run-SameHomes x t none = search (home_rules, insert_run-SameHomes) depth 20
target_run-SameHomes x t (some r) = search home_rules depth 20

insert_message-SameHomes :
    (x : SubmitInput) (q : Option ℕ) (t : ℕ) (r : Option ℕ)
    → Keeps SameHomes (insert_message x q t r)
unfolding insert_message
insert_message-SameHomes x q t r = search home_rules depth 20

bind_attachment-SameHomes : (u m : ℕ) (x : ℕ × Attachment) → Keeps SameHomes (bind_attachment u m x)
unfolding bind_attachment
bind_attachment-SameHomes u m x = search home_rules depth 20

pub bind_attachments-SameHomes :
    (u m : ℕ) (rows : List Attachment) → Keeps SameHomes (bind_attachments u m rows)
unfolding bind_attachments
bind_attachments-SameHomes u m rows = search (home_rules, bind_attachment-SameHomes) depth 20

insert_delivery-SameHomes : (x : MessageDelivery) → Keeps SameHomes (insert_delivery x)
unfolding insert_delivery
insert_delivery-SameHomes x = search home_rules depth 20

deliver-SameHomes :
    (x : SubmitInput) (t m r : ℕ) (b : Bool) (o : Option DeliveryMode) (s : Option ℕ)
    → Keeps SameHomes (deliver x t m r b o s)
unfolding deliver
deliver-SameHomes x t m r b none s = search home_rules depth 20
deliver-SameHomes x t m r b (some o) none = search home_rules depth 20
deliver-SameHomes x t m r b (some o) (some s) =
    search (home_rules, insert_delivery-SameHomes) depth 20

finish_submission-SameHomes :
    (x : SubmitInput) (t m r : ℕ) (a : Option Run) → Keeps SameHomes (finish_submission x t m r a)
unfolding finish_submission
finish_submission-SameHomes x t m r none = search (home_rules, insert_outbox-SameHomes) depth 20
finish_submission-SameHomes x t m r (some a) = search home_rules depth 20

pub accept_message-SameHomes :
    (x : SubmitInput) (q : Option ℕ) (rows : List Attachment) (a : Option Run) (t : ℕ)
    → Keeps SameHomes (accept_message x q rows a t)
unfolding accept_message
accept_message-SameHomes x q rows a t =
    search
      (
        home_rules, target_run-SameHomes, insert_message-SameHomes, bind_attachments-SameHomes,
        deliver-SameHomes, finish_submission-SameHomes,
      )
      depth 20

-- The thread of a request: it is there, it is the one that was asked for, and it has the repository.
pub record Home (input : SubmitInput) (requested : Option ℕ) (thread_id : ℕ) (e : Db) : Type 0 where
  pub thread : Thread
  pub found : find (thread_is thread_id) e.threads ≡ some thread
  pub matches : other_repository requested input thread ≡ false
  pub allowed : is_foreign input requested e ≡ false
  pub mine : other_thread requested thread_id ≡ false

pub Home-SameHomes :
    (input : SubmitInput) (requested : Option ℕ) (i : ℕ) (d e : Db)
    → Home input requested i d
    → SameHomes d e
    → Home input requested i e
Home-SameHomes input none i d e h s =
    let (t, found, url, branch) = s.row i h.thread h.found in
    record {
      thread = t;
      found = found;
      matches = rw (url, branch) h.matches;
      allowed = refl;
      mine = refl;
    }
Home-SameHomes input (some q) i d e h s =
    let (t, found, url, branch) = s.row i h.thread h.found in
    record {
      thread = t;
      found = found;
      matches = refl;
      allowed = ground (arith, s.owned q input.user_id, h.allowed);
      mine = h.mine;
    }

pub owned-there :
    (q u : ℕ) (ts : List Thread)
    → is_some (find (owned_thread q u) ts) ≡ true
    → (t : Thread) × (find (thread_is q) ts ≡ some t)
unfolding find
owned-there q u [] h = cc
owned-there q u (t ∷ ts) h = elim (Bool-cases (t.id == q)) [
  | inl here ↦ (t, rw here)
  | inr other ↦ rw other (owned-there q u ts (ground arith))
]

-- The thread that `submit` finds or makes.
pub target_thread-Home :
    (input : SubmitInput) (requested : Option ℕ) (d : Db) (i : ℕ) (e : Db)
    → is_foreign input requested d ≡ false
    → ((k : ℕ) → d.next_id < k → find (thread_is k) d.threads ≡ none)
    → target_thread input requested d ≡ ok (i, e)
    → Home input requested i e
      × (e.messages ≡ d.messages)
      × (e.deliveries ≡ d.deliveries)
      × (d.next_id ≤ e.next_id)
unfolding target_thread insert_thread fresh find ◌>>=◌
target_thread-Home input none d i e allowed unknown h =
    let new = new_thread (suc (suc d.next_id)) (suc d.next_id) input d.clock in
    (
      record {
        thread = new;
        found = ground (arith, find-append (thread_is i) d.threads (new ∷ []), unknown i);
        matches = ground (
          arith,
          same_option_refl input.repository_url,
          same_option_refl input.repository_branch,
        );
        allowed = refl;
        mine = refl;
      },
      ground arith,
      ground arith,
      ground arith,
    )
target_thread-Home input (some q) d i e allowed unknown h =
    let (t, found) = owned-there q input.user_id d.threads (ground arith) in
    let same : i ≡ q = ground arith in
    let still : e ≡ d = ground arith in
    (
      rw (same, still)
          (record {
            thread = t;
            found = found;
            matches = refl;
            allowed = allowed;
            mine = ground (arith, ==-refl q);
          }),
      ground arith,
      ground arith,
      ground arith,
    )

pub target_thread-runs :
    (input : SubmitInput) (requested : Option ℕ) (d : Db) (i : ℕ) (e : Db)
    → target_thread input requested d ≡ ok (i, e)
    → e.runs ≡ d.runs
unfolding target_thread insert_thread fresh ◌>>=◌
target_thread-runs input none d i e h = ground arith
target_thread-runs input (some q) d i e h = ground arith

pub target_thread-threads :
    (input : SubmitInput) (requested : Option ℕ) (d : Db) (i : ℕ) (e : Db)
    → ((k : ℕ) → d.next_id < k → find (thread_is k) d.threads ≡ none)
    → target_thread input requested d ≡ ok (i, e)
    → (k : ℕ) → e.next_id < k
    → find (thread_is k) e.threads ≡ none
unfolding target_thread insert_thread fresh find ◌>>=◌
target_thread-threads input none d i e unknown h k n =
    let new = new_thread (suc (suc d.next_id)) (suc d.next_id) input d.clock in
    ground (arith, find-append (thread_is k) d.threads (new ∷ []), unknown k)
target_thread-threads input (some q) d i e unknown h k n = ground (arith, unknown k)
