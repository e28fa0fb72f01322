-- ===== src/Store/Lifecycle/Quiet.antt =====
-- The actions that leave the table of runs as it is, so that what was read of it still holds.
use cloud_swe.Base.{ℕ, Bool, ◌≡◌, refl, ◌∙◌, Option, none, some, arith, find, ok, modify, ◌>>=◌}
use cloud_swe.Base.Keeps.{IsPreorder, Keeps, Keeps-modify, keeps_rules, >>=-eq-ok}
use cloud_swe.Base.Triples.{Under, Under-quiet, Under-modify}
use cloud_swe.Store.Schema.{
  Text, OutboxType, Db, Run, Workspace, BrowserOwner, EventType, Payload, DedupeKey,
}
use cloud_swe.Store.Shared.{
  Action, StoreError, run_is, fresh, append_event, append_git_event, insert_event,
  set_browser_owner, lock_run_context, assert_execution_ownership,
}
use cloud_swe.Store.Log.{repeated, written, append_event-Appended}
use cloud_swe.Store.Queue.{insert_outbox}
use cloud_swe.Store.Approvals.{cancel_pending_questions, invalidate_git_approvals}
use cloud_swe.Store.Runs.{insert_answer, set_run}
use cloud_swe.Store.Lifecycle.Defs.{Evolves, Lives, Lives-preorder}
use cloud_swe.Store.Lifecycle.Writes.{set_run-Lives}

-- The runs after are the runs before.
abbrev pub Still : Db → Db → Type 0
Still d d' = d'.runs ≡ d.runs

pub Still-preorder : IsPreorder Still
Still-preorder = record { same = λ d. refl; next = λ d e f p q. q ∙ p }

pub fresh-Still : Keeps Still fresh
unfolding fresh
fresh-Still = record { at = λ d a d' h. ground arith }

pub modify-Still :
    (f : Db → Db) → ((d : Db) → (f d).runs ≡ d.runs) → Keeps {E = StoreError} Still (modify f)
modify-Still f h = Keeps-modify f h

pub append_event-Still :
    (i : ℕ) (kind : EventType) (payload : Payload) (key : DedupeKey)
    → Keeps Still (append_event i kind payload key)
append_event-Still i kind payload key = record {
  at = λ d e d' h. elim (append_event-Appended i kind payload key d h) [
    | repeated t there found same ↦ ground arith
    | written t there new free is same ↦ ground arith
  ];
}

pub append_git_event-Still :
    (i : ℕ) (kind : EventType) (op : ℕ) (payload : Payload)
    → Keeps Still (append_git_event i kind op payload)
unfolding append_git_event insert_event fresh ◌>>=◌
append_git_event-Still i kind op payload = record { at = λ d e d' h. ground arith }

pub ruleset still_rules = (
  keeps_rules, Still-preorder, fresh-Still, modify-Still, append_event-Still,
  append_git_event-Still, refl,
)

pub assert_execution_ownership-Still :
    (r : Run) (i j k : ℕ) → Keeps Still (assert_execution_ownership r i j k)
unfolding assert_execution_ownership
assert_execution_ownership-Still r i j k = search still_rules depth 20

set_browser_owner-Still : (i : ℕ) (o : BrowserOwner) → Keeps Still (set_browser_owner i o)
unfolding set_browser_owner
set_browser_owner-Still i o = search still_rules depth 20

pub invalidate_git_approvals-Still : (r : Run) → Keeps Still (invalidate_git_approvals r)
unfolding invalidate_git_approvals
invalidate_git_approvals-Still r = search still_rules depth 20

pub cancel_pending_questions-Still : (r : Run) → Keeps Still (cancel_pending_questions r)
unfolding cancel_pending_questions
cancel_pending_questions-Still r = search (still_rules, set_browser_owner-Still) depth 20

pub insert_outbox-Still :
    (k : OutboxType) (i : ℕ) (r : Option ℕ) → Keeps Still (insert_outbox k i r)
unfolding insert_outbox
insert_outbox-Still k i r = search still_rules depth 20

pub insert_answer-Still : (r : Run) (i : Text) → Keeps Still (insert_answer r i)
unfolding insert_answer
insert_answer-Still r i = search still_rules depth 20

-- The database holds this row of the run.
abbrev pub Holds : ℕ → Run → Db → Type 0
Holds i c d = find (run_is i) d.runs ≡ some c

module _ (i : ℕ) (c : Run) where
  -- After an action that leaves the runs, the row that was read is there.
  pub after_quiet :
      {A B : Type 0} (m : Action A) (f : A → Action B)
      → Keeps Still m
      → Keeps Lives m
      → ((a : A) → Under (Holds i c) Lives (f a))
      → Under (Holds i c) Lives (m >>= f)
  after_quiet m f still km kf =
      Under-quiet Lives-preorder m f (record { at = λ s a t h k. rw (still.at s a t h) k }) km kf

  pub write_run :
      (f : ℕ → Run → Run)
      → ((n : ℕ) (r : Run) → (f n r).id ≡ r.id)
      → ((n : ℕ) → Evolves c (f n c))
      → Under {E = StoreError} (Holds i c) Lives (modify (set_run i f))
  write_run f id evolves =
      Under-modify _ λ d found. set_run-Lives i c f d id found (evolves d.clock)

module _ (i : ℕ) (b : Bool) where
  pub lock_reads :
      (d : Db) {c : Run} {w : Option Workspace} {t : Db}
      → lock_run_context i b d ≡ ok ((c, w), t)
      → (find (run_is i) d.runs ≡ some c) × (t ≡ d)
  unfolding lock_run_context ◌>>=◌
  lock_reads d h = (ground arith, ground arith)

  -- What follows the lock starts from the row that the lock has read.
  pub locked :
      {A : Type 0} (f : Run × Option Workspace → Action A)
      → ((c : Run) (w : Option Workspace) → Under (Holds i c) Lives (f (c, w)))
      → Keeps Lives (lock_run_context i b >>= f)
  locked f kf = record {
    at = λ s r s' h.
        let ((c, w), t, first, second) = >>=-eq-ok (lock_run_context i b) f s h in
        let (found, same) = lock_reads s first in (kf c w).at s r s' found (rw same at second);
  }
