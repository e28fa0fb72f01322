-- ===== src/Store/Exclusion/Settle.antt =====
-- That `updateCommand` of packages/db/src/threads/commands.ts keeps the end of a command.
use cloud_swe.Base.{
  ℕ, ◌≡◌, refl, inl, inr, true, some, arith, ok, ◌>>=◌, find, find-update_self, Option-cases,
}
use cloud_swe.Store.Schema.{Db, CommandOperation, is_terminal_command, same_command_state_eq}
use cloud_swe.Store.Commands.{CommandUpdateInput, update_command, apply_update, command_is}

-- What is left of a command that had ended.
pub record StillEnded (c r : CommandOperation) : Type 0 where
  pub state : r.state ≡ c.state
  pub completed_at : (t : ℕ) → c.completed_at ≡ some t → r.completed_at ≡ some t

-- An update that returns, of a command that had ended, writes the row that it answers with, and keeps the
-- command's state and the time of its end.
pub update_command-StillEnded :
    (x : CommandUpdateInput) (c : CommandOperation) (d : Db) (r : CommandOperation) (d' : Db)
    → find (command_is x.command_id) d.commands ≡ some c
    → is_terminal_command c.state ≡ true
    → update_command x d ≡ ok (r, d')
    → StillEnded c r × (find (command_is x.command_id) d'.commands ≡ some r)
unfolding update_command apply_update ◌>>=◌
update_command-StillEnded x c d r d' there ended h =
    let row =
      find-update_self (command_is x.command_id) (apply_update x d.clock) d.commands {a = c}
        (λ y. refl) there in
    elim (Option-cases x.state) [
      | inl same ↦
          (record { state = ground arith; completed_at = λ t k. ground arith }, ground (arith, row))
      | inr (s, is) ↦ (
        record {
          state = ground (arith, same_command_state_eq s c.state);
          completed_at = λ t k. ground arith;
        },
        ground (arith, row),
      )
    ]
