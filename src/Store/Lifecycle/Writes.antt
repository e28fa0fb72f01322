-- ===== src/Store/Lifecycle/Writes.antt =====
-- The writes to the table of runs.
use native.Mathlib.Nat.{le_trans}
use cloud_swe.Base.{
  sym, ◌∙◌, ℕ, ◌≤◌, ◌≡◌, refl, ap, inl, inr, true, false, ◌==◌, some, arith, Option-cases,
  Bool-cases, modify, find, count, update, find-update, find-p, count-update, count-update_one,
  rewritten, map_option,
}
use cloud_swe.Base.Keeps.{Keeps, Keeps-modify}
use cloud_swe.Store.Schema.{Db, Run, RunStatus, is_active_run}
use cloud_swe.Store.Shared.{StoreError, run_is, active_in}
use cloud_swe.Store.Runs.{set_run}
use cloud_swe.Store.Lifecycle.Defs.{Evolves, Evolves-refl, Lives, rank}

-- Where the runs stay as they are, and ids are only given.
pub untouched : (d d' : Db) → d'.runs ≡ d.runs → d.next_id ≤ d'.next_id → Lives d d'
untouched d d' same grows v = (
  record {
    unique = λ i. rw same (v.unique i);
    given = λ i h. rw same (v.given i (omega arith));
    one_active = λ t. rw same (v.one_active t);
  },
  record { grows = grows; row = λ i r h. inr (r, rw same at h, Evolves-refl r) },
)

pub modify-Lives :
    (f : Db → Db)
    → ((d : Db) → (f d).runs ≡ d.runs)
    → ((d : Db) → (f d).next_id ≡ d.next_id)
    → Keeps {E = StoreError} Lives (modify f)
modify-Lives f runs next =
    Keeps-modify f λ d. untouched d (f d) (runs d) (rw (next d) (omega arith))

same_value : {r s : Run} → some r ≡ some s → r ≡ s
same_value e = cc

active_back : (s t : RunStatus) → rank s ≤ rank t → is_active_run t ≡ true → is_active_run s ≡ true
active_back RunStatus.queued t h a = refl
active_back RunStatus.running t h a = refl
active_back RunStatus.completed t h a = ground arith
active_back RunStatus.failed t h a = ground arith
active_back RunStatus.cancelled t h a = ground arith

-- What one transaction writes to the run that it has read.
module _ (i : ℕ) (c : Run) (f : ℕ → Run → Run) (d : Db) where
  id_row :
      (k : ℕ) (r : Run)
      → find (run_is i) d.runs ≡ some c
      → find (run_is k) d.runs ≡ some r
      → (r.id == i) ≡ true
      → r ≡ c
  id_row k r found there mine =
      let named : k ≡ i = ground (arith, find-p (run_is k) d.runs {a = r} there) in
      same_value (sym there ∙ ap (λ j. find (run_is j) d.runs) named ∙ found)

  set_run_row :
      ((n : ℕ) (r : Run) → (f n r).id ≡ r.id)
      → find (run_is i) d.runs ≡ some c
      → Evolves c (f d.clock c)
      → (k : ℕ) (r' : Run) → find (run_is k) (set_run i f d).runs ≡ some r'
      → (r : Run) × (find (run_is k) d.runs ≡ some r) × Evolves r r'
  set_run_row id found evolves k r' h = elim (Option-cases (find (run_is k) d.runs)) [
    | inl gone ↦ absurd (ground (arith, same))
    | inr (r, there) ↦ (
      r,
      there,
      elim (Bool-cases (r.id == i)) [
        | inl mine ↦ rw (new r there mine, id_row k r found there mine) evolves
        | inr other ↦ rw (old r there other) (Evolves-refl r)
      ],
    )
  ]
    where
      same :
          find (run_is k) (update (run_is i) (f d.clock) d.runs)
          ≡ map_option (rewritten (run_is i) (f d.clock)) (find (run_is k) d.runs)
      same =
          find-update (run_is k) (run_is i) (f d.clock) d.runs (λ x. ground (arith, id d.clock x))

      new : (r : Run) → find (run_is k) d.runs ≡ some r → (r.id == i) ≡ true → r' ≡ f d.clock r
      new r there mine = ground (arith, same)

      old : (r : Run) → find (run_is k) d.runs ≡ some r → (r.id == i) ≡ false → r' ≡ r
      old r there other = ground (arith, same)

  -- A write that lets the run evolve.
  pub set_run-Lives :
      ((n : ℕ) (r : Run) → (f n r).id ≡ r.id)
      → find (run_is i) d.runs ≡ some c
      → Evolves c (f d.clock c)
      → Lives d (set_run i f d)
  set_run-Lives id found evolves v = (
    record {
      unique = λ k. rw (ids k) (v.unique k);
      given = λ k h. rw (ids k) (v.given k h);
      one_active = λ t.
          le_trans
            (count-update_one (active_in t) (run_is i) (f d.clock) d.runs c (v.unique i) found
              (still_active t))
            (v.one_active t);
    },
    record { grows = omega arith; row = λ k r' h. inr (set_run_row id found evolves k r' h) },
  )
    where
      ids :
          (k : ℕ)
          → count (run_is k) (update (run_is i) (f d.clock) d.runs) ≡ count (run_is k) d.runs
      ids k =
          count-update (run_is k) (run_is i) (f d.clock) d.runs λ x _. ground (arith, id d.clock x)

      -- A run that is active after the write was so before.
      still_active : (t : ℕ) → active_in t (f d.clock c) ≡ true → active_in t c ≡ true
      still_active t h =
          ground
            (arith, evolves.same_thread, evolves.forward, active_back c.status (f d.clock c).status)
