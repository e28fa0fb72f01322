-- ===== src/Store/Lifecycle/Steps/Commands.antt =====
-- The operations on commands and the deletion keep the life of the runs.
use cloud_swe.Base.{ℕ, Option, none, some}
use cloud_swe.Base.Keeps.{Keeps}
use cloud_swe.Store.Schema.{CommandOperation, Run, Thread}
use cloud_swe.Store.Commands.{
  CommandBeginInput, CommandUpdateInput, admit_command, begin_command, begin_with, dispatch_with,
  insert_command, resume_command, update_command,
}
use cloud_swe.Store.Deletion.{
  assert_settled, delete_thread, detach_attachments, purge_deleted, purge_thread,
}
use cloud_swe.Store.Lifecycle.{Lives}
use cloud_swe.Store.Lifecycle.Steps.Parts.{life_part_rules}

pub resume_command-Lives :
    (x : CommandBeginInput) (r : Run) (c : CommandOperation) → Keeps Lives (resume_command x r c)
unfolding resume_command
resume_command-Lives x r c = search life_part_rules depth 20

pub insert_command-Lives : (x : CommandBeginInput) (r : Run) → Keeps Lives (insert_command x r)
unfolding insert_command
insert_command-Lives x r = search life_part_rules depth 20

pub begin_with-Lives :
    (x : CommandBeginInput) (r : Run) (o : Option CommandOperation) → Keeps Lives (begin_with x r o)
unfolding begin_with
begin_with-Lives x r (some c) = search (life_part_rules, resume_command-Lives) depth 20
begin_with-Lives x r none = search (life_part_rules, insert_command-Lives) depth 20

pub begin_command-Lives : (x : CommandBeginInput) → Keeps Lives (begin_command x)
unfolding begin_command
begin_command-Lives x = search (life_part_rules, begin_with-Lives) depth 20

pub dispatch_with-Lives : (i : ℕ) (o : Option (Option ℕ)) → Keeps Lives (dispatch_with i o)
unfolding dispatch_with
dispatch_with-Lives i none = search life_part_rules depth 20
dispatch_with-Lives i (some s) = search life_part_rules depth 20

pub admit_command-Lives : (i : ℕ) → Keeps Lives (admit_command i)
unfolding admit_command
admit_command-Lives i = search (life_part_rules, dispatch_with-Lives) depth 20

pub update_command-Lives : (x : CommandUpdateInput) → Keeps Lives (update_command x)
unfolding update_command
update_command-Lives x = search life_part_rules depth 20

pub assert_settled-Lives : (i : ℕ) → Keeps Lives (assert_settled i)
unfolding assert_settled
assert_settled-Lives i = search life_part_rules depth 20

pub delete_thread-Lives : (i j : ℕ) → Keeps Lives (delete_thread i j)
unfolding delete_thread
delete_thread-Lives i j = search (life_part_rules, assert_settled-Lives) depth 20

pub purge_deleted-Lives : (i : ℕ) (o : Option Thread) → Keeps Lives (purge_deleted i o)
unfolding purge_deleted detach_attachments
purge_deleted-Lives i none = search life_part_rules depth 20
purge_deleted-Lives i (some t) = search (life_part_rules, assert_settled-Lives) depth 20

pub purge_thread-Lives : (i : ℕ) → Keeps Lives (purge_thread i)
unfolding purge_thread
purge_thread-Lives i = search (life_part_rules, purge_deleted-Lives) depth 20
