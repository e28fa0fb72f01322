-- ===== src/Store/Lifecycle/Rows.antt =====
-- The actions that give ids, and those that add runs or take them away.
use native.Mathlib.Nat.{le_trans}
use cloud_swe.Base.{
  ℕ, suc, ◌+◌, ◌≤◌, ◌<◌, ◌≡◌, refl, inl, inr, Bool, true, false, ◌==◌, Option, none, some, List, [],
  ◌∷◌, ◌++◌, arith, Option-cases, Bool-cases, ok, modify, ◌>>=◌, find, any, count, delete,
  find-append, count-append, any-count, count-none, count-delete, find-delete_one, find-p, first_of,
}
use cloud_swe.Base.Keeps.{Keeps, Keeps-modify, keeps_rules}
use cloud_swe.Store.Schema.{Db, Text, Run, EventType, Payload, DedupeKey}
use cloud_swe.Store.Shared.{
  StoreError, run_is, active_in, fresh, append_event, append_git_event, insert_event,
}
use cloud_swe.Store.Queue.{insert_run, new_run}
use cloud_swe.Store.Deletion.{cascade_thread}
use cloud_swe.Store.Log.{repeated, written, append_event-Appended}
use cloud_swe.Store.Lifecycle.Defs.{Evolves-refl, RunsOk, RunStep, Lives, Lives-preorder}
use cloud_swe.Store.Lifecycle.Writes.{untouched, modify-Lives}

pub fresh-Lives : Keeps Lives fresh
unfolding fresh
fresh-Lives = record { at = λ d a d' h. untouched d d' (ground arith) (ground arith) }

pub append_event-Lives :
    (i : ℕ) (kind : EventType) (payload : Payload) (key : DedupeKey)
    → Keeps Lives (append_event i kind payload key)
append_event-Lives i kind payload key = record {
  at = λ d e d' h. elim (append_event-Appended i kind payload key d h) [
    | repeated t there found same ↦ untouched d d' (ground arith) (ground arith)
    | written t there new free is same ↦ untouched d d' (ground arith) (ground arith)
  ];
}

pub append_git_event-Lives :
    (i : ℕ) (kind : EventType) (op : ℕ) (payload : Payload)
    → Keeps Lives (append_git_event i kind op payload)
unfolding append_git_event insert_event fresh ◌>>=◌
append_git_event-Lives i kind op payload = record {
  at = λ d e d' h. untouched d d' (ground arith) (ground arith);
}

-- A run that is not there yet, in a thread with no active one.
module _ (d : Db) (r : Run) where
  added-Lives :
      (d' : Db)
      → r.id ≡ suc d.next_id
      → any (active_in r.thread_id) d.runs ≡ false
      → d'.runs ≡ d.runs ++ r ∷ []
      → d'.next_id ≡ suc d.next_id
      → Lives d d'
  unfolding count find
  added-Lives d' id none_active rows next v = (
    record {
      unique = λ i. ground (arith, v.unique i, v.given i, count-append (run_is i) d.runs (r ∷ []));
      given = λ i h. ground (arith, v.given i, count-append (run_is i) d.runs (r ∷ []));
      one_active = λ t. ground (
        arith,
        v.one_active t,
        any-count (active_in r.thread_id) d.runs,
        count-append (active_in t) d.runs (r ∷ []),
      );
    },
    record {
      grows = omega arith;
      row = λ i r' h. elim (Option-cases (find (run_is i) d.runs)) [
        | inl new ↦ inl (ground (arith, find-append (run_is i) d.runs (r ∷ [])))
        | inr (old, there) ↦
            (let same : r' ≡ old = ground (arith, find-append (run_is i) d.runs (r ∷ [])) in
              inr (old, there, rw same (Evolves-refl old)))
      ];
    },
  )

pub insert_run-Lives :
    (i j : ℕ) (k : Text) (s : Option ℕ) (e : StoreError) → Keeps Lives (insert_run i j k s e)
unfolding insert_run fresh ◌>>=◌
insert_run-Lives i j k s e = record {
  at = λ d a d' h.
      added-Lives d (new_run (suc d.next_id) i j k s d.clock) d' refl (ground arith) (ground arith)
        (ground arith);
}

pub cascade_thread-Lives : (k : ℕ) → Keeps {E = StoreError} Lives (modify (cascade_thread k))
unfolding cascade_thread
cascade_thread-Lives k = Keeps-modify _ λ d v. (
  record {
    unique = λ i. le_trans (count-delete (run_is i) (λ r. r.thread_id == k) d.runs) (v.unique i);
    given =
        λ i h. omega (arith, count-delete (run_is i) (λ r. r.thread_id == k) d.runs, v.given i h);
    one_active =
        λ t. le_trans (count-delete (active_in t) (λ r. r.thread_id == k) d.runs) (v.one_active t);
  },
  record {
    grows = omega arith;
    row = λ i r h. inr (
      r,
      find-delete_one (run_is i) (λ r. r.thread_id == k) d.runs (v.unique i) h,
      Evolves-refl r,
    );
  },
)

pub ruleset life_rules = (
  keeps_rules, Lives-preorder, append_event-Lives, append_git_event-Lives, modify-Lives,
  fresh-Lives, insert_run-Lives, cascade_thread-Lives, refl,
)
