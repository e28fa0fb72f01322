-- ===== src/Store/Steps/Commands.antt =====
-- The operations on commands and the deletion.
use cloud_swe.Base.{ℕ, Option, none, some}
use cloud_swe.Base.Keeps.{Keeps}
use cloud_swe.Store.Schema.{Db, CommandOperation, Run, Thread}
use cloud_swe.Store.Commands.{
  CommandBeginInput, CommandUpdateInput, admit_command, begin_command, begin_with, dispatch_with,
  insert_command, resume_command, update_command,
}
use cloud_swe.Store.Deletion.{
  assert_settled, delete_thread, detach_attachments, purge_deleted, purge_thread,
}
use cloud_swe.Store.Steps.Writes.{Writes, tombstone-Keeps}
use cloud_swe.Store.Steps.Parts.{part_rules}

module _ {R : Db → Db → Type 0} (writes : Writes R) where
  pub resume_command-Keeps :
      (x : CommandBeginInput) (r : Run) (c : CommandOperation) → Keeps R (resume_command x r c)
  unfolding resume_command
  resume_command-Keeps x r c = search part_rules depth 20

  pub insert_command-Keeps : (x : CommandBeginInput) (r : Run) → Keeps R (insert_command x r)
  unfolding insert_command
  insert_command-Keeps x r = search part_rules depth 20

  pub begin_with-Keeps :
      (x : CommandBeginInput) (r : Run) (o : Option CommandOperation) → Keeps R (begin_with x r o)
  unfolding begin_with
  begin_with-Keeps x r (some c) = search (part_rules, resume_command-Keeps) depth 20
  begin_with-Keeps x r none = search (part_rules, insert_command-Keeps) depth 20

  pub begin_command-Keeps : (x : CommandBeginInput) → Keeps R (begin_command x)
  unfolding begin_command
  begin_command-Keeps x = search (part_rules, begin_with-Keeps) depth 20

  pub dispatch_with-Keeps : (i : ℕ) (o : Option (Option ℕ)) → Keeps R (dispatch_with i o)
  unfolding dispatch_with
  dispatch_with-Keeps i none = search part_rules depth 20
  dispatch_with-Keeps i (some s) = search part_rules depth 20

  pub admit_command-Keeps : (i : ℕ) → Keeps R (admit_command i)
  unfolding admit_command
  admit_command-Keeps i = search (part_rules, dispatch_with-Keeps) depth 20

  pub update_command-Keeps : (x : CommandUpdateInput) → Keeps R (update_command x)
  unfolding update_command
  update_command-Keeps x = search part_rules depth 20

  pub assert_settled-Keeps : (i : ℕ) → Keeps R (assert_settled i)
  unfolding assert_settled
  assert_settled-Keeps i = search part_rules depth 20

  pub delete_thread-Keeps : (i j : ℕ) → Keeps R (delete_thread i j)
  unfolding delete_thread
  delete_thread-Keeps i j =
      search (part_rules, tombstone-Keeps writes, assert_settled-Keeps) depth 20

  pub purge_deleted-Keeps : (i : ℕ) (o : Option Thread) → Keeps R (purge_deleted i o)
  unfolding purge_deleted detach_attachments
  purge_deleted-Keeps i none = search part_rules depth 20
  purge_deleted-Keeps i (some t) = search (part_rules, assert_settled-Keeps) depth 20

  pub purge_thread-Keeps : (i : ℕ) → Keeps R (purge_thread i)
  unfolding purge_thread
  purge_thread-Keeps i = search (part_rules, purge_deleted-Keeps) depth 20
