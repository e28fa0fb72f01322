-- ===== src/Store/Submit/Pending.antt =====
-- `updatePendingMessage` of packages/db/src/threads/submission.ts: a user edits or removes a message
-- that is still to be delivered.
use cloud_swe.Base.{
  ℕ, Bool, false, Option, none, some, [], ◌∷◌, ◌==◌, ◌&&◌, ◌||◌, leb, ltb, if◌then◌else◌, length,
  find, update, pure, fail_if, gets, modify, require, ◌>>=◌, ◌>>◌,
}
use cloud_swe.Store.Schema.{
  Db, Text, is_blank, Message, MessageDelivery, DeliveryState, Attachment, is_pending_delivery,
  is_active_run, message_pending_updated, message_update_key, of_message,
}
use cloud_swe.Store.Shared.{
  Action, thrown, fresh, append_event, owned_thread, run_is, thread_not_found, message_not_pending,
  message_not_editable, invalid_payload,
}
use cloud_swe.Store.Queue.{message_is, delivery_of, deliveries_of}
use cloud_swe.Store.Submission.{first_row, is_steer}
use cloud_swe.Store.Submit.Request.{bound_to}

-- White space and line ends, as `String.prototype.trim` has them.
abbrev pub is_space : ℕ → Bool
is_space c =
    (leb 9 c && leb c 13)
    || (c == 32
        || (c == 0xA0
            || (c == 0x1680
                || ((leb 0x2000 c && leb c 0x200A)
                    || ((c == 0x2028 || c == 0x2029)
                        || (c == 0x202F || (c == 0x205F || (c == 0x3000 || c == 0xFEFF))))))))

unfoldable pub trim_start : Text → Text
trim_start [] = []
trim_start (c ∷ cs) = if is_space c then trim_start cs else c ∷ cs

unfoldable pub trim_end : Text → Text
trim_end [] = []
trim_end (c ∷ cs) = let rest = trim_end cs in if is_blank rest && is_space c then [] else c ∷ rest

unfoldable pub trim : Text → Text
unfolding trim_start trim_end
trim text = trim_end (trim_start text)

abbrev pub pending_is : ℕ → ℕ → Message × MessageDelivery → Bool
pending_is thread_id message_id (m, x) =
    (m.id == message_id) && ((m.thread_id == thread_id) && is_pending_delivery x.state)

abbrev pub steers_active : MessageDelivery → Db → Bool
steers_active x d = is_steer x.mode && elim (find (run_is x.target_run_id) d.runs) [
  | none ↦ false
  | some r ↦ is_active_run r.status
]

abbrev pub detached : ℕ → Attachment → Attachment
detached now a = record a { message_id = none; ordinal = none; updated_at = now }

-- With no text the message is removed, and its attachments are free again.
unfoldable pub edit_message : ℕ → Option Text → Action Unit
unfolding trim
edit_message message_id none = modify (λ d. record d {
  deliveries =
      update (delivery_of message_id) (λ x. record x { state = DeliveryState.removed })
        d.deliveries;
  attachments = update (bound_to message_id) (detached d.clock) d.attachments;
})
edit_message message_id (some prompt) = do
  let text = trim prompt
  fail_if (is_blank text || ltb 100_000 (length text)) (thrown invalid_payload 400)
  modify (λ d. record d {
    messages = update (message_is message_id) (λ m. record m { content = text }) d.messages;
  })

unfoldable pub update_pending_message : ℕ → ℕ → ℕ → Option Text → Action Unit
update_pending_message user_id thread_id message_id prompt = do
  owned ← gets (λ d. find (owned_thread thread_id user_id) d.threads)
  require owned (thrown thread_not_found 404)
  row ←
      gets
        (λ d. first_row (deliveries_of (pending_is thread_id message_id) d.messages d.deliveries))
  pending ← require row (thrown message_not_pending 409)
  fail_if (← gets (steers_active pending.1)) (thrown message_not_editable 409)
  edit_message message_id prompt
  id ← fresh
  append_event thread_id message_pending_updated (of_message message_id)
      (message_update_key message_id id)
  pure tt
