-- ===== src/Store/ThreadRows.antt =====
-- The workspace of a thread in the table, and the writes that leave commands and workspaces alone:
-- packages/db/src/threads/workspaces.ts.
use cloud_swe.Base.{
  ℕ, ◌+◌, ◌≡◌, refl, ◌∙◌, inl, inr, true, false, ◌==◌, Option, some, arith, ok, modify, ◌>>=◌, find,
  any, update, any-update_out, find-update, find-p, rewritten, map_option, Option-cases, Bool-cases,
}
use cloud_swe.Base.Keeps.{IsPreorder, Keeps, Keeps-modify, keeps_rules}
use cloud_swe.Store.Schema.{Db, Workspace, OutboxType, EventType, Payload, DedupeKey}
use cloud_swe.Store.Shared.{
  StoreError, fresh, append_event, append_git_event, insert_event, workspace_of,
}
use cloud_swe.Store.Log.{repeated, written, append_event-Appended}
use cloud_swe.Store.Queue.{insert_outbox}
use cloud_swe.Store.Approvals.{invalidate_thread_approvals}
use cloud_swe.Store.Transitions.{by_thread}
use cloud_swe.Store.Workspaces.{set_workspace}

-- The commands and the workspaces stay.
abbrev pub SameWork : Db → Db → Type 0
SameWork d d' = (d'.commands ≡ d.commands) × (d'.workspaces ≡ d.workspaces)

pub SameWork-preorder : IsPreorder SameWork
SameWork-preorder = record { same = λ d. (refl, refl); next = λ d e f p q. (q.0 ∙ p.0, q.1 ∙ p.1) }

pub modify-SameWork :
    (f : Db → Db)
    → ((d : Db) → (f d).commands ≡ d.commands)
    → ((d : Db) → (f d).workspaces ≡ d.workspaces)
    → Keeps {E = StoreError} SameWork (modify f)
modify-SameWork f c w = Keeps-modify f λ d. (c d, w d)

pub fresh-SameWork : Keeps SameWork fresh
unfolding fresh
fresh-SameWork = record { at = λ d a d' h. (ground arith, ground arith) }

pub append_event-SameWork :
    (i : ℕ) (kind : EventType) (payload : Payload) (key : DedupeKey)
    → Keeps SameWork (append_event i kind payload key)
append_event-SameWork i kind payload key = record {
  at = λ d e d' h. elim (append_event-Appended i kind payload key d h) [
    | repeated t there found same ↦ (ground arith, ground arith)
    | written t there new free is same ↦ (ground arith, ground arith)
  ];
}

pub append_git_event-SameWork :
    (i : ℕ) (kind : EventType) (op : ℕ) (payload : Payload)
    → Keeps SameWork (append_git_event i kind op payload)
unfolding append_git_event insert_event fresh ◌>>=◌
append_git_event-SameWork i kind op payload = record {
  at = λ d e d' h. (ground arith, ground arith);
}

pub ruleset work_rules = (
  append_git_event-SameWork, keeps_rules, SameWork-preorder, modify-SameWork, fresh-SameWork,
  append_event-SameWork, refl,
)

insert_outbox-SameWork :
    (k : OutboxType) (i : ℕ) (r : Option ℕ) → Keeps SameWork (insert_outbox k i r)
unfolding insert_outbox
insert_outbox-SameWork k i r = search work_rules depth 20

pub invalidate_thread_approvals-SameWork : (i : ℕ) → Keeps SameWork (invalidate_thread_approvals i)
unfolding invalidate_thread_approvals
invalidate_thread_approvals-SameWork i = search (work_rules, insert_outbox-SameWork) depth 20

-- The workspace of the thread, as the database has it, meets `Q`.
abbrev pub ThreadRow : ℕ → (Workspace → Type 0) → Db → Type 0
ThreadRow i Q d = (w : Workspace) × (find (workspace_of i) d.workspaces ≡ some w) × Q w

pub set_workspace-ThreadRow :
    (i : ℕ) (w : Workspace) (f : ℕ → Workspace → Workspace) (Q : Workspace → Type 0) (d : Db)
    → ((x : Workspace) → (f d.clock x).id ≡ x.id)
    → ((x : Workspace) → (f d.clock x).thread_id ≡ x.thread_id)
    → find (workspace_of i) d.workspaces ≡ some w
    → Q (f d.clock w)
    → ThreadRow i Q (set_workspace w.id f d)
set_workspace-ThreadRow i w f Q d same_id same_thread there meets =
    (f d.clock w, by_thread i w (f d.clock) d.workspaces same_id same_thread there, meets)

pub SameWork-ThreadRow :
    (i : ℕ) (Q : Workspace → Type 0) (d d' : Db)
    → SameWork d d'
    → ThreadRow i Q d
    → ThreadRow i Q d'
SameWork-ThreadRow i Q d d' same (w, there, meets) = (w, rw same.1 there, meets)
