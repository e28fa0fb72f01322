-- ===== src/Store/Lifecycle/Defs.antt =====
-- What a run's row may become, and what holds of the table of runs.
use cloud_swe.Base.{ℕ, ◌≤◌, ◌<◌, ◌≡◌, refl, ◌⊎◌, inl, inr, true, some, arith, is_some, find, count}
use cloud_swe.Base.Keeps.{IsPreorder}
use cloud_swe.Store.Schema.{Db, Run, RunStatus, is_terminal_run}
use cloud_swe.Store.Shared.{run_is, active_in}

-- Queued, running, ended.
abbrev pub rank : RunStatus → ℕ
rank RunStatus.queued = 0
rank RunStatus.running = 1
rank _ = 2

-- An ended run stays as it is; a run never goes back, and changes neither thread nor user; a request
-- to cancel stays, and a run that has one is not completed.
pub record Evolves (r r' : Run) : Type 0 where
  pub frozen : is_terminal_run r.status ≡ true → r' ≡ r
  pub forward : rank r.status ≤ rank r'.status
  pub same_thread : r'.thread_id ≡ r.thread_id
  pub same_user : r'.user_id ≡ r.user_id
  pub stays_cancelled :
      is_some r.cancel_requested_at ≡ true → r'.cancel_requested_at ≡ r.cancel_requested_at
  pub not_completed :
      is_some r.cancel_requested_at ≡ true
      → r'.status ≡ RunStatus.completed
      → r.status ≡ RunStatus.completed

pub Evolves-refl : (r : Run) → Evolves r r
Evolves-refl r = record {
  frozen = λ _. refl;
  forward = omega arith;
  same_thread = refl;
  same_user = refl;
  stays_cancelled = λ _. refl;
  not_completed = λ _ e. e;
}

pub Evolves-trans : (r s t : Run) → Evolves r s → Evolves s t → Evolves r t
Evolves-trans r s t a b = ground arith

-- Ids are given once and come from the source of ids; a thread has one active run at most.
pub record RunsOk (d : Db) : Type 0 where
  pub unique : (i : ℕ) → count (run_is i) d.runs ≤ 1
  pub given : (i : ℕ) → d.next_id < i → count (run_is i) d.runs ≡ 0
  pub one_active : (t : ℕ) → count (active_in t) d.runs ≤ 1

-- Each run after is new, or evolved from the run of that id before.
pub record RunStep (d d' : Db) : Type 0 where
  pub grows : d.next_id ≤ d'.next_id
  pub row :
      (i : ℕ) (r' : Run)
      → find (run_is i) d'.runs ≡ some r'
      → (d.next_id < i) ⊎ ((r : Run) × (find (run_is i) d.runs ≡ some r) × Evolves r r')

abbrev pub Lives : Db → Db → Type 0
Lives d d' = RunsOk d → RunsOk d' × RunStep d d'

RunStep-refl : (d : Db) → RunStep d d
RunStep-refl d = record { grows = omega arith; row = λ i r h. inr (r, h, Evolves-refl r) }

RunStep-trans : (d e f : Db) → RunStep d e → RunStep e f → RunStep d f
RunStep-trans d e f p q = record {
  grows = omega (arith, p.grows, q.grows);
  row = λ i r'' h. elim (q.row i r'' h) [
    | inl new ↦ inl (omega (arith, p.grows))
    | inr (r', h', e') ↦ elim (p.row i r' h') [
      | inl new ↦ inl new
      | inr (r, h'', e'') ↦ inr (r, h'', Evolves-trans r r' r'' e'' e')
    ]
  ];
}

pub Lives-preorder : IsPreorder Lives
Lives-preorder = record {
  same = λ d v. (v, RunStep-refl d);
  next =
      λ d e f p q v. let (v', s) = p v in let (v'', s') = q v' in (v'', RunStep-trans d e f s s');
}
