-- ===== src/Store/Generations.antt =====
-- What a reset of packages/db/src/threads/workspaces.ts leaves of the generation before.
use cloud_swe.Base.{
  ℕ, ◌+◌, ◌≡◌, ◌⊎◌, refl, inl, inr, true, false, ◌==◌, some, arith, ok, ◌>>=◌, find, any, update,
  any-update_out, find-update, find-p, rewritten, map_option, Option-cases, Bool-cases,
}
use cloud_swe.Base.Triples.{Gives, Gives-bind, Gives-pure, Gives-modify, Gives-gets}
use cloud_swe.Store.Schema.{Db, Workspace}
use cloud_swe.Store.Shared.{lock_thread_and_workspace, workspace_is, workspace_of}
use cloud_swe.Store.ThreadRows.{
  append_event-SameWork, invalidate_thread_approvals-SameWork, ThreadRow, set_workspace-ThreadRow,
  SameWork-ThreadRow,
}
use cloud_swe.Store.Workspaces.{
  ResetInput, ResetResult, reset_workspace, apply_reset, replay_reset, reset_row, stale_command,
  fail_stale, returned, set_workspace,
}

-- The new generation, in the answer and in the row of the database, with nothing unsettled of the old ones.
pub record Renewed (thread_id expected : ℕ) (r : ResetResult) (d' : Db) : Type 0 where
  pub numbers : (r.old_generation ≡ expected) × (r.new_generation ≡ expected + 1)
  pub current : r.workspace.generation ≡ expected + 1
  pub row : ThreadRow thread_id (λ w. (w.id ≡ r.workspace.id) × (w.generation ≡ expected + 1)) d'
  pub first :
      (r.already_applied ≡ true) ⊎ (any (stale_command r.workspace.id expected) d'.commands ≡ false)

module _ (x : ResetInput) (w : Workspace) (d : Db) {r : ResetResult} {d' : Db} where
  replay_reset-Renewed :
      find (workspace_of x.thread_id) d.workspaces ≡ some w
      → replay_reset x w d ≡ ok (r, d')
      → Renewed x.thread_id x.expected_generation r d'
  unfolding replay_reset ◌>>=◌
  replay_reset-Renewed there h = record {
    numbers = (ground arith, ground arith);
    current = ground arith;
    row = (w, ground arith, (ground arith, ground arith));
    first = inl (ground arith);
  }

-- No unsettled command of an old generation.
abbrev Cleared : ℕ → ℕ → Db → Type 0
Cleared w e d = any (stale_command w e) d.commands ≡ false

-- The workspace's row, if it is there, has the new generation.
abbrev Numbered : ℕ → ℕ → Db → Type 0
Numbered w e d =
    (r : Workspace) → find (workspace_is w) d.workspaces ≡ some r → r.generation ≡ e + 1

-- The thread's workspace has it.
abbrev Rowed : ℕ → ℕ → ℕ → Db → Type 0
Rowed i w e d = ThreadRow i (λ r. (r.id ≡ w) × (r.generation ≡ e + 1)) d

-- So has the row that the update returned.
abbrev Returned : ℕ → ℕ → ℕ → Workspace → Db → Type 0
Returned i w e next d =
    Cleared w e d × (Rowed i w e d × ((next.id ≡ w) × (next.generation ≡ e + 1)))

returned-Gives :
    (i w e : ℕ)
    → Gives (λ d. Cleared w e d × (Rowed i w e d × Numbered w e d)) (Returned i w e) (returned w)
unfolding returned ◌>>=◌
returned-Gives i w e = record {
  at = λ d next d' (clear, (rowed, numbered)) h.
      elim (Option-cases (find (workspace_is w) d.workspaces)) [
        | inl gone ↦ absurd (ground arith)
        | inr (row, there) ↦
            (let still : d' ≡ d = ground arith in
              rw still (
                clear,
                (
                  rowed,
                  (
                    ground (arith, find-p (workspace_is w) d.workspaces {a = row} there),
                    ground (arith, numbered row there),
                  ),
                ),
              ))
      ];
}

row-Numbered :
    (x : ResetInput) (w : ℕ) (d : Db)
    → Numbered w x.expected_generation (set_workspace w (reset_row x) d)
row-Numbered x w d r there = elim (Option-cases (find (workspace_is w) d.workspaces)) [
  | inl gone ↦ absurd (ground (arith, same))
  | inr (old, found) ↦ ground (arith, same, find-p (workspace_is w) d.workspaces {a = old} found)
]
  where
    same :
        find (workspace_is w) (update (workspace_is w) (reset_row x d.clock) d.workspaces)
        ≡ map_option
            (rewritten (workspace_is w) (reset_row x d.clock))
            (find (workspace_is w) d.workspaces)
    same = find-update _ _ (reset_row x d.clock) d.workspaces (λ r. refl)

module _ (x : ResetInput) (w : Workspace) where
  -- What the reset has read of the thread's workspace.
  abbrev Found : Db → Type 0
  Found d = find (workspace_of x.thread_id) d.workspaces ≡ some w

  abbrev Empty : Db → Type 0
  Empty d = Cleared w.id x.expected_generation d

  abbrev Row : Db → Type 0
  Row d = Rowed x.thread_id w.id x.expected_generation d

  abbrev Answered : Workspace → Db → Type 0
  Answered next d = Returned x.thread_id w.id x.expected_generation next d

  apply_reset-Gives : Gives Found (Renewed x.thread_id x.expected_generation) (apply_reset x w)
  unfolding apply_reset
  apply_reset-Gives =
      Gives-bind (λ _ d. Found d) _ _ (Gives-gets _ λ d found. found)
        λ older.
          Gives-bind (λ _ d. Empty d × Found d) _ _
            (Gives-modify _ λ d found. (
              any-update_out (stale_command w.id x.expected_generation) (fail_stale d.clock)
                  d.commands (λ c. ground arith),
              found,
            ))
            λ _.
              Gives-bind (λ _ d. Empty d × Found d) _ _
                (record {
                  at = λ d a d' (clear, found) h.
                      let same = (invalidate_thread_approvals-SameWork x.thread_id).at d a d' h in
                      (rw same.0 clear, rw same.1 found);
                })
                λ _.
                  Gives-bind (λ _ d. Empty d × (Row d × Numbered w.id x.expected_generation d)) _ _
                    (Gives-modify _ λ d (clear, found). (
                      clear,
                      (
                        set_workspace-ThreadRow x.thread_id w (reset_row x) _ d (λ y. refl)
                            (λ y. refl) found (refl, refl),
                        row-Numbered x w.id d,
                      ),
                    ))
                    λ _.
                      Gives-bind Answered _ _
                        (returned-Gives x.thread_id w.id x.expected_generation)
                        λ next.
                          Gives-bind (λ _. Answered next) _ _
                            (record {
                              at = λ d a d' (clear, (row, answer)) h.
                                  let same = (append_event-SameWork _ _ _ _).at d a d' h in
                                  (
                                    rw same.0 clear,
                                    (SameWork-ThreadRow x.thread_id _ d d' same row, answer),
                                  );
                            })
                            λ event. Gives-pure _ λ d (clear, (row, (named, numbered))). record {
                              numbers = (refl, refl);
                              current = numbered;
                              row = rw named row;
                              first = inr (rw named clear);
                            }

-- A reset that returns had the provider's confirmation, and answers with the expected generation and
-- the next one, which the thread's workspace has in the database and in the answer; the first time,
-- no command of the workspace's old generations is left unsettled.
pub reset_workspace-Renewed :
    (x : ResetInput) (d : Db) (r : ResetResult) (d' : Db)
    → reset_workspace x d ≡ ok (r, d')
    → (x.confirmed_missing ≡ true) × Renewed x.thread_id x.expected_generation r d'
unfolding reset_workspace lock_thread_and_workspace ◌>>=◌
reset_workspace-Renewed x d r d' h =
    elim (Option-cases (find (workspace_of x.thread_id) d.workspaces)) [
      | inl gone ↦ absurd (ground arith)
      | inr (w, there) ↦ elim (Bool-cases (w.generation == x.expected_generation)) [
        | inl now ↦ (ground arith, (apply_reset-Gives x w).at d r d' there (ground arith))
        | inr later ↦ (ground arith, replay_reset-Renewed x w d there (ground arith))
      ]
    ]
