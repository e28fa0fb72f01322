-- ===== src/Projection/Kept.antt =====
-- Each event keeps what every projection of apps/web/src/lib/thread-projection.ts has.
use cloud_swe.Base.{
  ℕ, suc, ◌≤◌, Bool, true, false, Option, none, some, List, [], ◌∷◌, ◌++◌, ok, ◌≡◌, refl, length,
  arith, leb, if◌then◌else◌,
}
use cloud_swe.Store.Schema.{Text, DiffStat}
use cloud_swe.Projection.Data.{
  MarkerText, MarkerPart, ThreadUsage, ProjectedWorkspace, Browser, Projection, compaction_key,
  git_key, question_key, question_waiting, question_accepted,
}
use cloud_swe.Projection.Events.{
  context_compacted, RunPayload, ToolCompleted, RunEvent, Body, run_event, assistant_started,
  assistant_delta, reasoning_delta, assistant_message, message_pending, message_steered,
  tool_started, tool_output, tool_completed, questions_requested, questions_answered,
  questions_cancelled, git_event, workspace_state, workspace_reset, title_updated, diff_updated,
  skills_discovered, browser_activity, browser_owner_changed, other,
}
use cloud_swe.Projection.Parts.{max_unsupported}
use cloud_swe.Projection.Apply.{
  add_part, marker_of, user_of, usage_after, start_assistant, with_reasoning, first_text, spoken,
  start_tool,
}
use cloud_swe.Projection.Cases.{mutates, complete_tool, status_from, git_text, apply_body}
use cloud_swe.Projection.Holds.{Holds, if_both}
use cloud_swe.Projection.Sound.{
  SoundAt, add_part-Sound, start_assistant-Sound, speak-Sound, start_tool-Sound,
  complete_tool-Sound, moved-Sound, with_run-Sound, tool_output_applied-Sound, delta_applied-Sound,
  settled_marker-Sound,
}

length-append_one : (xs : List Text) (x : Text) → length (xs ++ x ∷ []) ≡ suc (length xs)
length-append_one [] x = refl
length-append_one (y ∷ xs) x = ground (arith, length-append_one xs x)

module _ (n : ℕ) where
  abbrev Kept : Projection → Body → Type 0
  Kept p b = SoundAt n p → Holds (SoundAt n) (apply_body p n b)

  -- What carries no number is as it may.
  with_rest :
      (p : Projection) (title : Option ℕ) (workspace : Option ProjectedWorkspace)
      (diff_stat : Option DiffStat) (browser : Browser) (usage : Option ThreadUsage)
      (notices : List MarkerPart)
      → SoundAt n p
      → SoundAt n (record p {
        title = title;
        workspace = workspace;
        diff_stat = diff_stat;
        browser = browser;
        usage = usage;
        notices = notices;
      })
  with_rest p title workspace diff_stat browser usage notices h = record {
    cursor = h.cursor;
    titled = h.titled;
    placed = h.placed;
    edited = h.edited;
    noted = h.noted;
    ran = h.ran;
  }

  used :
      (p : Projection) (usage : Option ThreadUsage)
      → SoundAt n p
      → SoundAt n (record p { usage = usage })
  used p usage h = with_rest p p.title p.workspace p.diff_stat p.browser usage p.notices h

  driven :
      (p : Projection) (browser : Browser)
      → SoundAt n p
      → SoundAt n (record p { browser = browser })
  driven p browser h = with_rest p p.title p.workspace p.diff_stat browser p.usage p.notices h

  numbered :
      (p : Projection) (t w e : ℕ)
      → t ≤ n
      → w ≤ n
      → e ≤ n
      → SoundAt n p
      → SoundAt n (record p { title_version = t; workspace_sequence = w; edit_sequence = e })
  numbered p t w e i j k h = record {
    cursor = h.cursor;
    titled = i;
    placed = j;
    edited = k;
    noted = h.noted;
    ran = h.ran;
  }

  run_event-Sound : (k : RunEvent) (p : Projection) (o : Option RunPayload) → Kept p (run_event k o)
  unfolding apply_body
  run_event-Sound k p none h = h
  run_event-Sound k p (some e) h =
      with_run-Sound n p e.run_id _ h (moved-Sound n (status_from k) e.error)

  noting :
      (p : Projection) (kind : Text)
      → leb max_unsupported (length p.unsupported) ≡ false
      → SoundAt n p
      → SoundAt n (record p { unsupported = p.unsupported ++ kind ∷ [] })
  noting p kind room h = record {
    cursor = h.cursor;
    titled = h.titled;
    placed = h.placed;
    edited = h.edited;
    noted = let one = length-append_one p.unsupported kind in ground arith;
    ran = h.ran;
  }

  other-Sound : (p : Projection) (kind : Text) → Kept p (other kind)
  unfolding apply_body
  other-Sound p kind h = go (leb max_unsupported (length p.unsupported)) refl
    where
      go :
          (b : Bool)
          → leb max_unsupported (length p.unsupported) ≡ b
          → Holds
              (SoundAt n)
              (if b then ok p else ok (record p { unsupported = p.unsupported ++ kind ∷ [] }))
      go true full = h
      go false room = noting p kind room h

  tool_completed-Sound : (p : Projection) (c : ToolCompleted) → Kept p (tool_completed (some c))
  unfolding apply_body
  tool_completed-Sound p c h =
      let b : (if mutates c.name then n else p.edit_sequence) ≤ n =
        if_both (λ k. k ≤ n) (mutates c.name) n p.edit_sequence (omega arith) h.edited in
      with_run-Sound n _ c.run_id (complete_tool c)
        (numbered p p.title_version p.workspace_sequence _ h.titled h.placed b h)
        (complete_tool-Sound n c)

  pub apply_body-Sound : (p : Projection) (b : Body) → Kept p b
  unfolding apply_body
  apply_body-Sound p (skills_discovered a) h = h
  apply_body-Sound p (browser_activity a b) h = driven p (record p.browser { active = a }) h
  apply_body-Sound p (browser_owner_changed none) h = tt
  apply_body-Sound p (browser_owner_changed (some o)) h =
      driven p (record p.browser { owner = o }) h
  apply_body-Sound p (diff_updated none) h = h
  apply_body-Sound p (diff_updated (some d)) h =
      with_rest p p.title p.workspace (some d) p.browser p.usage p.notices h
  apply_body-Sound p (title_updated none) h = h
  apply_body-Sound p (title_updated (some t)) h =
      with_rest _ (some t) p.workspace p.diff_stat p.browser p.usage p.notices
        (numbered p n p.workspace_sequence p.edit_sequence (omega arith) h.placed h.edited h)
  apply_body-Sound p (message_pending a) h = h
  apply_body-Sound p (message_steered none) h = tt
  apply_body-Sound p (message_steered (some s)) h =
      with_run-Sound n p s.run_id (add_part (user_of s)) h (add_part-Sound n (user_of s) tt)
  apply_body-Sound p (context_compacted none) h = tt
  apply_body-Sound p (context_compacted (some c)) h = with_run-Sound n _ c.run_id _ (used p _ h) (
      add_part-Sound n (marker_of none (compaction_key c.entry_id) MarkerText.context_compacted) tt)
  apply_body-Sound p (assistant_started none) h = h
  apply_body-Sound p (assistant_started (some u)) h =
      with_run-Sound n p u.run_id (start_assistant u) h (start_assistant-Sound n u)
  apply_body-Sound p (assistant_delta none) h = h
  apply_body-Sound p (assistant_delta (some d)) h =
      delta_applied-Sound n p d.of (first_text d.delta d.content) h
  apply_body-Sound p (reasoning_delta none) h = h
  apply_body-Sound p (reasoning_delta (some d)) h =
      with_run-Sound n p d.of.run_id _ h (speak-Sound n d.of (with_reasoning d.delta))
  apply_body-Sound p (assistant_message none) h = h
  apply_body-Sound p (assistant_message (some s)) h =
      with_run-Sound n _ s.of.run_id _ (used p (usage_after p.usage s.usage) h)
        (speak-Sound n s.of (spoken s))
  apply_body-Sound p (tool_started none) h = h
  apply_body-Sound p (tool_started (some s)) h =
      with_run-Sound n p s.run_id (start_tool s) h (start_tool-Sound n s)
  apply_body-Sound p (tool_output o) h = tool_output_applied-Sound n p o o.identity h
  apply_body-Sound p (tool_completed none) h = tt
  apply_body-Sound p (tool_completed (some c)) h = tool_completed-Sound p c h
  apply_body-Sound p (run_event k o) h = run_event-Sound k p o h
  apply_body-Sound p (git_event k none) h = tt
  apply_body-Sound p (git_event k (some e)) h =
      with_run-Sound n p e.run_id _ h
        (add_part-Sound n (marker_of none (git_key n) (git_text k)) tt)
  apply_body-Sound p (workspace_reset none) h = h
  apply_body-Sound p (workspace_reset (some r)) h =
      with_rest _ p.title _ none _ p.usage _
        (numbered p p.title_version n p.edit_sequence h.titled (omega arith) h.edited h)
  apply_body-Sound p (questions_requested a none) h = tt
  apply_body-Sound p (questions_requested a (some q)) h =
      with_run-Sound n p q.run_id _ h
        (add_part-Sound n (marker_of (some q.request_id) (question_key n) question_waiting) tt)
  apply_body-Sound p (questions_answered q) h = settled_marker-Sound n p question_accepted q h
  apply_body-Sound p (questions_cancelled q) h =
      settled_marker-Sound n p MarkerText.question_cancelled q h
  apply_body-Sound p (workspace_state s none) h = h
  apply_body-Sound p (workspace_state s (some w)) h =
      with_rest _ p.title _ p.diff_stat p.browser p.usage p.notices
        (numbered p p.title_version n p.edit_sequence h.titled (omega arith) h.edited h)
  apply_body-Sound p (other kind) h = other-Sound p kind h
