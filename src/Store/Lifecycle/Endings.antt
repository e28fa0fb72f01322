-- ===== src/Store/Lifecycle/Endings.antt =====
-- How a run ends: `completeRun` and `finish` of packages/db/src/threads/runs.ts.
use Prim.Native.String.{String}
use cloud_swe.Base.{
  subst, ℕ, suc, ◌≡◌, refl, Bool, true, false, Option, none, some, [], ◌∷◌, arith, ok, modify,
  ◌>>=◌, is_some, if◌then◌else◌, find, find-append, find-update_self,
}
use cloud_swe.Base.Keeps.{IsPreorder, Keeps, Keeps-modify, keeps_rules, >>=-eq-ok}
use cloud_swe.Base.Triples.{Under-modify, Under-if, Leads, Leads-bind}
use cloud_swe.Store.Schema.{
  Db, Text, Run, RunStatus, Message, MessageDelivery, OutboxType, Workspace, EventType, Payload,
  DedupeKey, is_terminal_run,
}
use cloud_swe.Store.Shared.{StoreError, Action, run_is, fresh, append_event, lock_run_context}
use cloud_swe.Store.Queue.{
  insert_outbox, insert_run, new_run, new_run, new_run, new_run, start_if_admitted, start_message,
  start_next_queued_message,
}
use cloud_swe.Store.Runs.{
  set_run, end_run, Ending, fails, cancels, status_of, terminal_status, complete_run, finish,
  start_after,
}
use cloud_swe.Store.Lifecycle.Quiet.{
  Holds, lock_reads, lock_reads, lock_reads, Still, still_rules, append_event-Still,
  assert_execution_ownership-Still, invalidate_git_approvals-Still, cancel_pending_questions-Still,
  insert_answer-Still,
}

-- Each row of a run that is there stays as it is.
abbrev Kept : ℕ → Db → Db → Type 0
Kept i d d' = (c : Run) → Holds i c d → Holds i c d'

Kept-preorder : (i : ℕ) → IsPreorder (Kept i)
Kept-preorder i = record { same = λ d c h. h; next = λ d e f p q c h. q c (p c h) }

modify-Kept :
    (i : ℕ) (f : Db → Db)
    → ((d : Db) → (f d).runs ≡ d.runs)
    → Keeps {E = StoreError} (Kept i) (modify f)
modify-Kept i f h = Keeps-modify f λ d c there. rw (h d) there

fresh-Kept : (i : ℕ) → Keeps (Kept i) fresh
unfolding fresh
fresh-Kept i = record { at = λ d a d' h c there. ground arith }

append_event-Kept :
    (i t : ℕ) (kind : EventType) (payload : Payload) (key : DedupeKey)
    → Keeps (Kept i) (append_event t kind payload key)
append_event-Kept i t kind payload key = record {
  at = λ d a d' h c there. rw ((append_event-Still t kind payload key).at d a d' h) there;
}

insert_run-Kept :
    (i j k : ℕ) (l : Text) (s : Option ℕ) (e : StoreError) → Keeps (Kept i) (insert_run j k l s e)
unfolding insert_run fresh ◌>>=◌
insert_run-Kept i j k l s e = record {
  at = λ d a d' h c there.
      ground (arith, find-append (run_is i) d.runs (new_run (suc d.next_id) j k l s d.clock ∷ []));
}

ruleset kept_rules =
    (keeps_rules, Kept-preorder, modify-Kept, fresh-Kept, append_event-Kept, insert_run-Kept, refl)

insert_outbox-Kept :
    (i : ℕ) (k : OutboxType) (t : ℕ) (r : Option ℕ) → Keeps (Kept i) (insert_outbox k t r)
unfolding insert_outbox
insert_outbox-Kept i k t r = search kept_rules depth 20

start_message-Kept :
    (i t u : ℕ) (x : Message × MessageDelivery) → Keeps (Kept i) (start_message t u x)
unfolding start_message
start_message-Kept i t u x = search (kept_rules, insert_outbox-Kept) depth 20

start_if_admitted-Kept :
    (i t u k : ℕ) (o : Option (Message × MessageDelivery))
    → Keeps (Kept i) (start_if_admitted t u k o)
unfolding start_if_admitted
start_if_admitted-Kept i t u k none = search kept_rules depth 20
start_if_admitted-Kept i t u k (some x) = search (kept_rules, start_message-Kept) depth 20

start_next_queued_message-Kept : (i t u : ℕ) → Keeps (Kept i) (start_next_queued_message t u)
unfolding start_next_queued_message
start_next_queued_message-Kept i t u = search (kept_rules, start_if_admitted-Kept) depth 20

start_after-Kept : (i : ℕ) (e : Ending) (r : Run) → Keeps (Kept i) (start_after e r)
unfolding start_after
start_after-Kept i fails r = search (kept_rules, start_next_queued_message-Kept) depth 20
start_after-Kept i cancels r = search kept_rules depth 20

one_row : (o : Option Run) {r s : Run} → o ≡ some r → o ≡ some s → r ≡ s
one_row o p q = cc

-- The run is there, with this status.
abbrev pub HasStatus : ℕ → RunStatus → Db → Type 0
HasStatus i s d = (r : Run) × (find (run_is i) d.runs ≡ some r) × (r.status ≡ s)

module _ (i : ℕ) (c : Run) where
  -- What leaves the row as it is, after the write that ended the run.
  after_end :
      {A : Type 0} (r : Run) (s : RunStatus) {m : Action A}
      → r.status ≡ s
      → Keeps (Kept i) m
      → Leads (Holds i r) (HasStatus i s) m
  after_end r s is k = record { at = λ d a d' there h. (r, k.at d a d' h r there, is) }

  -- What leaves the table as it is, before that write.
  before_end :
      {A B : Type 0} (s : RunStatus) (m : Action A) (f : A → Action B)
      → Keeps Still m
      → ((a : A) → Leads (Holds i c) (HasStatus i s) (f a))
      → Leads (Holds i c) (HasStatus i s) (m >>= f)
  before_end s m f still kf =
      Leads-bind (Holds i c) m f (record { at = λ d a d' there h. rw (still.at d a d' h) there }) kf

  write_end :
      {B : Type 0} (s : RunStatus) (f : ℕ → Run → Run) (k : Unit {0} → Action B)
      → ((n : ℕ) (r : Run) → (f n r).id ≡ r.id)
      → ((n : ℕ) → (f n c).status ≡ s)
      → Keeps (Kept i) (k tt)
      → Leads (Holds i c) (HasStatus i s) (modify (set_run i f) >>= k)
  write_end s f k id is kept =
      Leads-bind (λ d. (n : ℕ) × Holds i (f n c) d) _ k
        (Under-modify _ λ d there. (
          d.clock,
          find-update_self (run_is i) (f d.clock) d.runs (λ r. ground (arith, id d.clock r)) there,
        ))
        λ _. record {
          at = λ d b d' (n, there) h. (after_end (f n c) s (is n) kept).at d b d' there h;
        }

  locked_end :
      {A : Type 0} (b : Bool) (s : RunStatus) (f : Run × Option Workspace → Action A)
      → ((w : Option Workspace) → Leads (Holds i c) (HasStatus i s) (f (c, w)))
      → Leads (Holds i c) (HasStatus i s) (lock_run_context i b >>= f)
  locked_end b s f kf = record {
    at = λ d a d' there h.
        let ((r, w), t, first, second) = >>=-eq-ok (lock_run_context i b) f d h in
        let (found, same) = lock_reads i b d first in
        let is : r ≡ c = one_row (find (run_is i) d.runs) found there in (kf w).at d a d' there cc;
  }

-- What `completeRun` makes of a run that has not ended.
abbrev pub completion : Run → RunStatus
completion c = if is_some c.cancel_requested_at then RunStatus.cancelled else RunStatus.completed

complete_run-Leads :
    (i : ℕ) (content : Text) (token : ℕ) (c : Run)
    → is_terminal_run c.status ≡ false
    → Leads (Holds i c) (HasStatus i (completion c)) (complete_run i content token)
unfolding complete_run
complete_run-Leads i content token c live = locked_end i c true _ _ λ w.
    before_end i c _ _ _ (search (still_rules, assert_execution_ownership-Still) depth 3) λ _.
      Under-if _ _ _ (λ (ended : is_terminal_run c.status ≡ true). absurd (ground arith))
        λ _.
          Under-if _ _ _
            (λ (asked : is_some c.cancel_requested_at ≡ true).
              write_end i c _ (end_run RunStatus.cancelled) _ (λ n r. refl)
                (λ n. ground (arith, asked)) (search kept_rules depth 20))
            (λ (kept : is_some c.cancel_requested_at ≡ false).
              before_end i c _ _ _ (search (still_rules, insert_answer-Still) depth 3) λ _.
                write_end i c _ (end_run RunStatus.completed) _ (λ n r. refl)
                  (λ n. ground (arith, kept))
                  (search (kept_rules, start_next_queued_message-Kept) depth 20))

-- A completion that returns, of a run that had not ended, ends it: as cancelled where its cancellation
-- was requested, and as completed otherwise.
pub complete_run-completion :
    (i : ℕ) (content : Text) (token : ℕ) (c : Run) (d d' : Db) (a : Unit {0})
    → find (run_is i) d.runs ≡ some c
    → is_terminal_run c.status ≡ false
    → complete_run i content token d ≡ ok (a, d')
    → HasStatus i (completion c) d'
complete_run-completion i content token c d d' a there live h =
    (complete_run-Leads i content token c live).at d a d' there h

finish-Leads :
    (i : ℕ) (e : Ending) (error code : Option String) (c : Run)
    → is_terminal_run c.status ≡ false
    → Leads (Holds i c) (HasStatus i (status_of (terminal_status c e))) (finish i e error code)
unfolding finish
finish-Leads i e error code c live = locked_end i c false _ _ λ w.
    Under-if _ _ _ (λ (ended : is_terminal_run c.status ≡ true). absurd (ground arith))
      λ _. before_end i c _ _ _ (search (still_rules, invalidate_git_approvals-Still) depth 3) λ _.
        before_end i c _ _ _ (search (still_rules, cancel_pending_questions-Still) depth 3) λ _.
          before_end i c _ _ _ (search still_rules depth 8) λ _.
            write_end i c _ _ _ (λ n r. refl) (λ n. refl)
              (search (kept_rules, start_after-Kept) depth 20)

-- How such a run ends.
abbrev pub ending_status : Run → Ending → RunStatus
ending_status c e = if is_some c.cancel_requested_at then RunStatus.cancelled else status_of e

ending_status-eq : (c : Run) (e : Ending) → status_of (terminal_status c e) ≡ ending_status c e
ending_status-eq c e = ground arith

-- A failure or a cancellation that returns, of a run that had not ended, ends it: as cancelled where
-- its cancellation was requested, and as told otherwise.
pub finish-status :
    (i : ℕ) (e : Ending) (error code : Option String) (c : Run) (d d' : Db) (a : Unit {0})
    → find (run_is i) d.runs ≡ some c
    → is_terminal_run c.status ≡ false
    → finish i e error code d ≡ ok (a, d')
    → HasStatus i (ending_status c e) d'
finish-status i e error code c d d' a there live h =
    subst (λ s. HasStatus i s d') (ending_status-eq c e)
      ((finish-Leads i e error code c live).at d a d' there h)
