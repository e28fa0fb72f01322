-- ===== src/Projection/Sound.antt =====
-- What every projection that apps/web/src/lib/thread-projection.ts builds has, kept by each event.
use cloud_swe.Base.{
  ℕ, ◌≤◌, Option, none, some, List, [], ◌∷◌, map, ok, err, ◌≡◌, All, length, arith, select, or_else,
}
use cloud_swe.Store.Schema.{Text, RunStatus}
use cloud_swe.Projection.Data.{
  Applied, ◌>>=◌, StreamError, TextPart, MarkerText, Part, ProjectedRun, Projection, question_key,
}
use cloud_swe.Projection.Events.{
  Utterance, ToolStarted, Chunk, FinalOutput, ToolOutput, ToolCompleted, QuestionRef,
}
use cloud_swe.Projection.Parts.{max_unsupported, is_run, fresh_run, update_run, append_live}
use cloud_swe.Projection.Apply.{
  with_run, with_parts, with_attempt, add_part, marker_of, is_settled_part, kept_parts,
  start_assistant, speak, with_delta, finalised, interrupted, start_tool, extend_tool, finally,
  finish_output,
}
use cloud_swe.Projection.Cases.{
  final_applied, completed_with, complete_tool, parts_after, moved, output_applied,
  tool_output_applied, delta_applied, settled_marker,
}
use cloud_swe.Projection.Holds.{
  Holds, if_both, bind-Holds, All-append, All-select, All-map, upsert-Holds,
}
use cloud_swe.Projection.Bounds.{
  IsBounded, append_live-Bounded, upsert_text_part-Bounded, upsert_tool_part-Bounded,
}

-- The run's status came with an event up to number `c`, and its live texts are within their limits.
abbrev pub RunSound : ℕ → ProjectedRun → Type 0
RunSound c r = (r.status_sequence ≤ c) × All IsBounded r.parts

-- The cursor is `n`, what is versioned came with an event up to it, and the markers are within their
-- limit.
pub record SoundAt (n : ℕ) (p : Projection) : Type 0 where
  pub cursor : p.cursor ≡ n
  pub titled : p.title_version ≤ n
  pub placed : p.workspace_sequence ≤ n
  pub edited : p.edit_sequence ≤ n
  pub noted : length p.unsupported ≤ max_unsupported
  pub ran : All (RunSound n) p.runs

abbrev pub IsSound : Projection → Type 0
IsSound p = SoundAt p.cursor p

finalised-Bounded : (x : Part) → IsBounded x → IsBounded (finalised x)
finalised-Bounded (Part.text t) h = tt
finalised-Bounded (Part.tool t) h = h
finalised-Bounded (Part.marker t) h = tt
finalised-Bounded (Part.user t) h = tt

interrupted-Bounded : (x : Part) → IsBounded x → IsBounded (interrupted x)
interrupted-Bounded (Part.text t) h = tt
interrupted-Bounded (Part.tool t) h = h
interrupted-Bounded (Part.marker t) h = tt
interrupted-Bounded (Part.user t) h = tt

module _ (c : ℕ) where
  abbrev KeepsRun : (ProjectedRun → Applied ProjectedRun) → Type 0
  KeepsRun f = (r : ProjectedRun) → RunSound c r → Holds (RunSound c) (f r)

  pub parts-Sound :
      (r : ProjectedRun)
      → RunSound c r
      → (m : Applied (List Part)) → Holds (All IsBounded) m
      → Holds (RunSound c) (m >>= λ ps. ok (with_parts r ps))
  parts-Sound r h m k =
      bind-Holds (All IsBounded) (RunSound c) m (λ ps. ok (with_parts r ps)) k (λ ps z. (h.0, z))

  pub attempt-Sound :
      (a : ℕ) (r : ProjectedRun)
      → RunSound c r
      → (m : Applied (List Part)) → Holds (All IsBounded) m
      → Holds (RunSound c) (m >>= λ ps. ok (with_attempt a r ps))
  attempt-Sound a r h m k =
      bind-Holds (All IsBounded) (RunSound c) m (λ ps. ok (with_attempt a r ps)) k
        (λ ps z. (h.0, z))

  pub add_part-Sound : (x : Part) → IsBounded x → KeepsRun (add_part x)
  unfolding add_part
  add_part-Sound x k r h = (h.0, All-append IsBounded r.parts (x ∷ []) h.1 (k, tt))

  pub start_assistant-Sound : (u : Utterance) → KeepsRun (start_assistant u)
  unfolding start_assistant kept_parts
  start_assistant-Sound u r h = attempt-Sound u.attempt_id r h _ (
      upsert_text_part-Bounded r.run_id (kept_parts u r) u _ (
        if_both (All IsBounded) _ (select is_settled_part r.parts) r.parts
          (All-select IsBounded is_settled_part r.parts h.1) h.1))

  pub speak-Sound : (u : Utterance) (f : TextPart → TextPart) → KeepsRun (speak u f)
  unfolding speak
  speak-Sound u f r h =
      attempt-Sound u.attempt_id r h _ (upsert_text_part-Bounded r.run_id r.parts u f h.1)

  pub start_tool-Sound : (s : ToolStarted) → KeepsRun (start_tool s)
  unfolding start_tool
  start_tool-Sound s r h = attempt-Sound s.attempt_id r h _ (
      upsert_tool_part-Bounded r.run_id (map finalised r.parts) s.tool_call_id s.attempt_id s.name
        (λ t. ok (record t { args = s.args })) (λ t z. z)
        (All-map IsBounded finalised r.parts finalised-Bounded h.1))

  pub extend_tool-Sound : (a : ℕ) (x : Chunk) → KeepsRun (extend_tool a x)
  unfolding extend_tool
  extend_tool-Sound a x r h = parts-Sound r h _ (
      upsert_tool_part-Bounded r.run_id r.parts x.tool_call_id a x.tool_call_id
        (λ t. append_live t x) (λ t. append_live-Bounded t x) h.1)

  pub finish_output-Sound : (a : ℕ) (o : FinalOutput) → KeepsRun (finish_output a o)
  unfolding finish_output
  finish_output-Sound a o r h = parts-Sound r h _ (
      upsert_tool_part-Bounded r.run_id r.parts o.tool_call_id a o.tool_call_id
        (λ t. ok (finally o t)) (λ t z. z) h.1)

  pub complete_tool-Sound : (x : ToolCompleted) → KeepsRun (complete_tool x)
  unfolding complete_tool
  complete_tool-Sound x r h = attempt-Sound x.attempt_id r h _ (
      upsert_tool_part-Bounded r.run_id r.parts x.tool_call_id x.attempt_id
        (or_else x.name x.tool_call_id) (λ t. ok (completed_with x t))
        (λ t z. (omega arith, omega arith)) h.1)

  parts_after-Bounded :
      (s : Option RunStatus) (ps : List Part) → All IsBounded ps → All IsBounded (parts_after s ps)
  parts_after-Bounded none ps h = h
  parts_after-Bounded (some RunStatus.failed) ps h =
      All-map IsBounded interrupted ps interrupted-Bounded h
  parts_after-Bounded (some RunStatus.cancelled) ps h =
      All-map IsBounded interrupted ps interrupted-Bounded h
  parts_after-Bounded (some RunStatus.queued) ps h = h
  parts_after-Bounded (some RunStatus.running) ps h = h
  parts_after-Bounded (some RunStatus.completed) ps h = h

  pub moved-Sound :
      (s : Option RunStatus) (e : Option ℕ) (r : ProjectedRun)
      → RunSound c r
      → RunSound c (moved c s e r)
  moved-Sound none e r h = h
  moved-Sound (some s) e r h = (omega arith, parts_after-Bounded (some s) r.parts h.1)

module _ (n : ℕ) where
  pub with_run-Sound :
      (p : Projection) (id : ℕ) (f : ProjectedRun → Applied ProjectedRun)
      → SoundAt n p
      → KeepsRun n f
      → Holds (SoundAt n) (with_run p id f)
  unfolding with_run update_run
  with_run-Sound p id f h k =
      bind-Holds (All (RunSound n)) (SoundAt n) (update_run p id f)
        (λ rs. ok (record p { runs = rs }))
        (upsert-Holds (RunSound n) (is_run id) f (fresh_run id) k (omega arith, tt) p.runs h.ran)
        (λ rs z. record {
          cursor = h.cursor;
          titled = h.titled;
          placed = h.placed;
          edited = h.edited;
          noted = h.noted;
          ran = z;
        })

  pub final_applied-Sound :
      (p : Projection) (i a : ℕ) (o : Option FinalOutput)
      → SoundAt n p
      → Holds (SoundAt n) (final_applied p i a o)
  final_applied-Sound p i a none h = h
  final_applied-Sound p i a (some o) h =
      with_run-Sound p i (finish_output a o) h (finish_output-Sound n a o)

  pub output_applied-Sound :
      (p : Projection) (i a : ℕ) (o : ToolOutput) (x : Option Chunk)
      → SoundAt n p
      → Holds (SoundAt n) (output_applied p i a o x)
  output_applied-Sound p i a o (some c) h =
      with_run-Sound p i (extend_tool a c) h (extend_tool-Sound n a c)
  output_applied-Sound p i a o none h =
      if_both (Holds (SoundAt n)) o.says_incremental (err StreamError.protocol_error)
        (final_applied p i a o.final) tt (final_applied-Sound p i a o.final h)

  pub tool_output_applied-Sound :
      (p : Projection) (o : ToolOutput) (x : Option (ℕ × ℕ))
      → SoundAt n p
      → Holds (SoundAt n) (tool_output_applied p o x)
  tool_output_applied-Sound p o none h = tt
  tool_output_applied-Sound p o (some (i, a)) h = output_applied-Sound p i a o o.chunk h

  pub delta_applied-Sound :
      (p : Projection) (u : Utterance) (o : Option Text)
      → SoundAt n p
      → Holds (SoundAt n) (delta_applied p u o)
  delta_applied-Sound p u none h = tt
  delta_applied-Sound p u (some d) h =
      with_run-Sound p u.run_id (speak u (with_delta d)) h (speak-Sound n u (with_delta d))

  pub settled_marker-Sound :
      (p : Projection) (t : MarkerText) (q : Option QuestionRef)
      → SoundAt n p
      → Holds (SoundAt n) (settled_marker p n t q)
  settled_marker-Sound p t none h = tt
  settled_marker-Sound p t (some q) h =
      with_run-Sound p q.run_id _ h (add_part-Sound n (marker_of none (question_key n) t) tt)
