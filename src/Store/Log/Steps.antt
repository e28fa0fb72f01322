-- ===== src/Store/Log/Steps.antt =====
-- No write of the store leaves a gap in a thread's event numbers.
mod GapRules
use cloud_swe.Base.{refl}
use cloud_swe.Base.Keeps.{keeps_rules}
use cloud_swe.Store.Queue.{insert_run}
use cloud_swe.Store.Runs.{insert_answer}
use cloud_swe.Store.Submit.{insert_message, insert_delivery, edit_message}
use cloud_swe.Store.Steps.Writes.{Writes}
use cloud_swe.Store.Log.Steps.GapRules.{
  GapFree, GapFree-preorder, modify-GapFree, fresh-GapFree, append_event-GapFree,
  append_git_event-GapFree, owner-GapFree, tombstone-GapFree, cascade_thread-GapFree,
  insert_thread-GapFree, edit_message-GapFree, gap_rules,
}

pub GapFree-Writes : Writes GapFree
unfolding insert_run insert_answer insert_message insert_delivery edit_message
GapFree-Writes = record {
  preorder = GapFree-preorder;
  elsewhere = λ f t m x e n r. modify-GapFree f t e n;
  new_id = fresh-GapFree;
  event = append_event-GapFree;
  git_event = append_git_event-GapFree;
  browser_owner = owner-GapFree;
  tombstone = tombstone-GapFree;
  cascade = cascade_thread-GapFree;
  thread = insert_thread-GapFree;
  run = λ i j k s e. search gap_rules depth 20;
  answer = λ r c. search gap_rules depth 20;
  message = λ x q t r. search gap_rules depth 20;
  delivery = λ x. search gap_rules depth 20;
  edit = edit_message-GapFree;
  started = λ m r. search gap_rules depth 20;
}
