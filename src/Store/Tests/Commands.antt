-- ===== src/Store/Tests/Commands.antt =====
-- The queue of commands.
use cloud_swe.Base.{
  ◌≡◌, ◌≤◌, refl, true, Option, none, some, List, [], ◌∷◌, ◌++◌, arith, ok, find, any, select,
  update, count, is_some, ◌>>=◌,
}
use cloud_swe.Store.Schema.{Db, CommandOperation, Access}
use cloud_swe.Store.Shared.{
  fresh, lock_workspace_context, assert_execution_ownership, owns, unsettled_in,
}
use cloud_swe.Store.Commands.{
  CommandBeginInput, begin_command, begin_with, insert_command, admit_command, admission, must_wait,
  free_slot, dispatch_with,
}
use cloud_swe.Store.Exclusion.Rule.{Turn, admission-Turn}
use cloud_swe.Store.Exclusion.Progress.{admission-progress}
use cloud_swe.Store.Exclusion.Step.{Exclusion, admit_command-Exclusion}
use cloud_swe.Store.Exclusion.Begin.{begin_command-Exclusion}
use cloud_swe.Store.Tests.Data.{start, waiting_command, outcome}

start-Exclusion : Exclusion 21 1 start.commands
unfolding any count
start-Exclusion = record { alone = λ h. ground arith; apart = λ n. ground arith }

abbrev admitted : Option CommandOperation × Db
admitted = outcome none (admit_command 31 start)

abbrev reading : CommandBeginInput
reading = record {
  ownership_token = 41;
  access = some Access.read;
  queued = true;
  command_id = none;
  workspace_id = 21;
  generation = 1;
  run_id = 11;
  attempt_id = 5;
  metadata = 0;
}

abbrev begun : CommandOperation × Db
begun = outcome waiting_command (begin_command reading start)

admits : admit_command 31 start ≡ ok (admitted.0, admitted.1)
unfolding admit_command lock_workspace_context assert_execution_ownership owns admission must_wait
    free_slot dispatch_with find any select update ◌>>=◌
admits = refl

admit_command-Exclusion_example : Exclusion 21 1 admitted.1.commands
unfolding count
admit_command-Exclusion_example =
    admit_command-Exclusion 21 1 31 start admitted.0 admitted.1 (ground arith) start-Exclusion
      admits

begins : begin_command reading start ≡ ok (begun.0, begun.1)
unfolding begin_command begin_with insert_command fresh lock_workspace_context
    assert_execution_ownership owns find any select update ◌>>=◌
begins = refl

begin_command-Exclusion_example :
    (Exclusion 21 1 start.commands → Exclusion 21 1 begun.1.commands)
    × (count (unsettled_in 21 1) start.commands ≤ 36
        → count (unsettled_in 21 1) begun.1.commands ≤ 36)
begin_command-Exclusion_example = begin_command-Exclusion reading 21 1 start begun.0 begun.1 begins

first_in_line : admission waiting_command (waiting_command ∷ []) ≡ some none
unfolding admission must_wait free_slot any select
first_in_line = refl

admission-Turn_example : Turn waiting_command (waiting_command ∷ []) none
admission-Turn_example = admission-Turn waiting_command (waiting_command ∷ []) none first_in_line

admission-progress_example :
    (mine : CommandOperation) × ((left : List CommandOperation) × (right : List CommandOperation)
      × (waiting_command ∷ [] ≡ left ++ mine ∷ right))
    × (is_some (admission mine (waiting_command ∷ [])) ≡ true)
unfolding any
admission-progress_example = admission-progress waiting_command [] refl
