-- ===== src/Store/Exclusion/Begin.antt =====
-- That `beginCommand` keeps the commands in flight apart, and the queue within its bound.
use cloud_swe.Base.{
  ℕ, suc, ◌≤◌, ◌<◌, ◌≡◌, inl, inr, true, false, ◌==◌, ◌&&◌, [], ◌∷◌, ◌++◌, arith, ok, ◌>>=◌, length,
  or_else, find, any, count, select, Option-cases, Bool-cases, count-append, count-stronger,
  any-append, length-select,
}
use cloud_swe.Store.Schema.{Db, Run, CommandOperation}
use cloud_swe.Store.Shared.{
  unsettled_in, fresh, workspace_is, lock_workspace_context, assert_execution_ownership,
}
use cloud_swe.Store.Commands.{
  CommandBeginInput, begin_command, begin_with, resume_command, insert_command, new_command,
  find_command, wants_read,
}
use cloud_swe.Store.Exclusion.Step.{Exclusion, in_flight, all_in_flight, on_slot}

-- What a call did to the table: nothing, or it added a command that the queue had room for.
data Began (x : CommandBeginInput) (d d' : Db) : Type 0 where
  there_already : d'.commands ≡ d.commands → Began x d d'
  added :
      (id order : ℕ)
      → d'.commands ≡ d.commands ++ new_command x id order d.clock ∷ []
      → length (select (unsettled_in x.workspace_id x.generation) d.commands) < 36
      → (x.queued ≡ false
          → (length (select (unsettled_in x.workspace_id x.generation) d.commands) ≡ 0)
            × (wants_read x.access ≡ false))
      → Began x d d'

module _ (x : CommandBeginInput) (c : Run) (d : Db) {r : CommandOperation} {d' : Db} where
  inserted : insert_command x c d ≡ ok (r, d') → Began x d d'
  unfolding insert_command fresh ◌>>=◌
  inserted h =
      added (or_else x.command_id (suc d.next_id)) (suc (suc d.next_id)) (ground arith)
        (ground arith) (λ direct. (ground arith, ground arith))

module _ (x : CommandBeginInput) (d : Db) {r : CommandOperation} {d' : Db} where
  began : begin_command x d ≡ ok (r, d') → Began x d d'
  unfolding begin_command lock_workspace_context assert_execution_ownership begin_with
      resume_command ◌>>=◌
  began h = elim (Option-cases (find_command x.command_id d.commands)) [
    | inr (old, there) ↦ there_already (ground arith)
    | inl new ↦ elim (Option-cases (find (workspace_is x.workspace_id) d.workspaces)) [
      | inl gone ↦ absurd (ground arith)
      | inr (w, place) ↦
          elim (Option-cases
            (find (λ (r : Run). (r.id == x.run_id) && (r.thread_id == w.thread_id)) d.runs)) [
              | inl gone ↦ absurd (ground arith)
              | inr (c, run) ↦ inserted x c d {r = r} (ground arith)
            ]
    ]
  ]

module _ (x : CommandBeginInput) (d d' : Db) where
  -- A command that is new is on no slot, and in flight only where nothing else is unsettled.
  begun-Exclusion : (w g : ℕ) → Began x d d' → Exclusion w g d.commands → Exclusion w g d'.commands
  unfolding count any
  begun-Exclusion w g (there_already same) v = rw same v
  begun-Exclusion w g (added id order same room direct) v =
      let c = new_command x id order d.clock in
      rw same (record {
        alone = λ h. elim (Bool-cases (in_flight w g c)) [
          | inl runs ↦ ground (
            arith,
            direct,
            count-append (in_flight w g) d.commands (c ∷ []),
            count-stronger (in_flight w g) (unsettled_in x.workspace_id x.generation) d.commands
                (λ y k. here runs y k),
            length-select (unsettled_in x.workspace_id x.generation) d.commands,
          )
          | inr waits ↦ ground (
            arith,
            v.alone,
            count-append (in_flight w g) d.commands (c ∷ []),
            any-append (all_in_flight w g) d.commands (c ∷ []),
          )
        ];
        apart = λ n. ground (arith, v.apart n, count-append (on_slot w g n) d.commands (c ∷ []));
      })
    where
      here :
          in_flight w g (new_command x id order d.clock) ≡ true
          → (y : CommandOperation) → in_flight w g y ≡ true
          → unsettled_in x.workspace_id x.generation y ≡ true
      here runs y k = ground arith

  bounded :
      Began x d d'
      → count (unsettled_in x.workspace_id x.generation) d.commands ≤ 36
      → count (unsettled_in x.workspace_id x.generation) d'.commands ≤ 36
  unfolding count
  bounded (there_already same) k = rw same k
  bounded (added id order same room direct) k = rw same (
      ground (
        arith,
        length-select (unsettled_in x.workspace_id x.generation) d.commands,
        count-append (unsettled_in x.workspace_id x.generation) d.commands
            (new_command x id order d.clock ∷ []),
      ))

-- A call of `beginCommand` that returns keeps this on every generation of every workspace: an exclusive
-- command in flight is the only one, and no two commands in flight have the same read slot. On its
-- own generation it keeps the bound of 36 unsettled commands.
pub begin_command-Exclusion :
    (x : CommandBeginInput) (w g : ℕ) (d : Db) (r : CommandOperation) (d' : Db)
    → begin_command x d ≡ ok (r, d')
    → (Exclusion w g d.commands → Exclusion w g d'.commands)
      × (count (unsettled_in x.workspace_id x.generation) d.commands ≤ 36
          → count (unsettled_in x.workspace_id x.generation) d'.commands ≤ 36)
begin_command-Exclusion x w g d r d' h =
    (begun-Exclusion x d d' w g (began x d h), bounded x d d' (began x d h))
