-- ===== src/Projection/Parts.antt =====
-- The copies with one part or run changed, of apps/web/src/lib/thread-projection.ts.
use cloud_swe.Base.{
  ℕ, ◌+◌, Bool, true, false, Option, none, some, List, [], ◌∷◌, ◌++◌, ok, err, ◌==◌, ◌&&◌, ◌||◌,
  ltb, if◌then◌else◌, length, or_else, is_some, not, same_numbers,
}
use cloud_swe.Store.Schema.{Text}
use cloud_swe.Projection.Data.{
  Applied, StreamError, ◌>>=◌, Key, text_key, tool_key, Part, TextPart, ToolPart, ProjectedRun,
  Projection, TextState, ToolState, Live, Offsets, live_gap, Usage, ThreadUsage,
}
use cloud_swe.Projection.Events.{Utterance, Stream, Chunk}
use cloud_swe.Projection.Texts.{last_units, byte_length}

-- `MAX_LIVE_TEXT` and `MAX_UNSUPPORTED_MARKERS`
abbrev pub max_live_text : ℕ
max_live_text = 64_000

abbrev pub max_unsupported : ℕ
max_unsupported = 8

module _ {A : Type 0} where
  -- The first element that matches is changed, or the changed `fresh` one is added.
  unfoldable pub upsert : (A → Bool) → (A → Applied A) → A → List A → Applied (List A)
  upsert p f fresh [] = f fresh >>= λ y. ok (y ∷ [])
  upsert p f fresh (x ∷ xs) =
      let rest = upsert p f fresh xs in
      if p x then f x >>= (λ y. ok (y ∷ xs)) else rest >>= (λ ys. ok (x ∷ ys))

  -- The same, where only the last element can match.
  unfoldable pub upsert_last : (A → Bool) → (A → Applied A) → A → List A → Applied (List A)
  upsert_last p f fresh [] = f fresh >>= λ y. ok (y ∷ [])
  upsert_last p f fresh (x ∷ []) =
      if p x then f x >>= (λ y. ok (y ∷ [])) else f fresh >>= (λ y. ok (x ∷ y ∷ []))
  upsert_last p f fresh (x ∷ y ∷ ys) = upsert_last p f fresh (y ∷ ys) >>= λ zs. ok (x ∷ zs)

abbrev pub is_run : ℕ → ProjectedRun → Bool
is_run id r = r.run_id == id

abbrev pub fresh_run : ℕ → ProjectedRun
fresh_run id = record {
  run_id = id;
  status = none;
  status_sequence = 0;
  error = none;
  attempt_id = none;
  parts = [];
}

unfoldable pub update_run :
    Projection → ℕ → (ProjectedRun → Applied ProjectedRun) → Applied (List ProjectedRun)
unfolding upsert
update_run p id f = upsert (is_run id) f (fresh_run id) p.runs

abbrev pub add_usage : Option ThreadUsage → Usage → ThreadUsage
add_usage none call = record {
  totals = call;
  context_tokens = call.input + call.output + call.cache_read + call.cache_write;
}
add_usage (some before) call = record {
  totals = record {
    input = before.totals.input + call.input;
    output = before.totals.output + call.output;
    cache_read = before.totals.cache_read + call.cache_read;
    cache_write = before.totals.cache_write + call.cache_write;
  };
  context_tokens = call.input + call.output + call.cache_read + call.cache_write;
}

abbrev pub on_text : (TextPart → TextPart) → Part → Applied Part
on_text f (Part.text t) = ok (Part.text (f t))
on_text f x = ok x

abbrev pub same_text_key : Key → Key → Bool
same_text_key (text_key r a n i) (text_key s b m j) =
    (r == s) && ((a == b) && ((n == m) && (i == j)))
same_text_key _ _ = false

abbrev pub text_is : Key → Part → Bool
text_is k (Part.text t) = same_text_key t.key k
text_is k _ = false

-- The last part, where it is a text of an event without an index.
abbrev pub legacy_is : Utterance → Part → Bool
legacy_is u (Part.text t) =
    t.legacy && ((t.attempt_id == u.attempt_id) && (t.assistant_attempt == u.assistant_attempt))
legacy_is u _ = false

abbrev pub new_text : ℕ → Utterance → ℕ → TextPart
new_text run_id u index = record {
  key = text_key run_id u.attempt_id u.assistant_attempt index;
  attempt_id = u.attempt_id;
  assistant_attempt = u.assistant_attempt;
  message_index = index;
  legacy = not (is_some u.message_index);
  text = [];
  reasoning = none;
  state = TextState.streaming;
  truncated = false;
  stop_reason = none;
}

abbrev pub upsert_text_at :
    ℕ → List Part → Utterance → (TextPart → TextPart) → Option ℕ → Applied (List Part)
upsert_text_at run_id parts u f (some index) =
    upsert (text_is (text_key run_id u.attempt_id u.assistant_attempt index)) (on_text f)
      (Part.text (new_text run_id u index)) parts
upsert_text_at run_id parts u f none =
    upsert_last (legacy_is u) (on_text f) (Part.text (new_text run_id u (length parts + 1))) parts

unfoldable pub upsert_text_part :
    ℕ → List Part → Utterance → (TextPart → TextPart) → Applied (List Part)
unfolding upsert upsert_last
upsert_text_part run_id parts u f = upsert_text_at run_id parts u f u.message_index

abbrev pub wrapped : ToolPart → Applied Part
wrapped t = ok (Part.tool t)

abbrev pub on_tool : (ToolPart → Applied ToolPart) → Part → Applied Part
on_tool f (Part.tool t) = f t >>= wrapped
on_tool f x = ok x

abbrev pub tool_is : Text → ℕ → Part → Bool
tool_is call attempt (Part.tool t) = same_numbers t.tool_call_id call && (t.attempt_id == attempt)
tool_is call attempt _ = false

abbrev pub new_tool : ℕ → Text → ℕ → Text → ToolPart
new_tool run_id call attempt name = record {
  key = tool_key run_id attempt call;
  tool_call_id = call;
  attempt_id = attempt;
  name = name;
  state = ToolState.running;
  args = none;
  structured = none;
  legacy = none;
  live = record { stdout = []; stderr = []; truncated = false };
  next_offset = record { stdout = 0; stderr = 0 };
  final_output = none;
  diagnostic = none;
}

unfoldable pub upsert_tool_part :
    ℕ → List Part → Text → ℕ → Text → (ToolPart → Applied ToolPart) → Applied (List Part)
unfolding upsert
upsert_tool_part run_id parts call attempt name f =
    upsert (tool_is call attempt) (on_tool f) (Part.tool (new_tool run_id call attempt name)) parts

abbrev pub offset_of : Stream → Offsets → ℕ
offset_of Stream.stdout o = o.stdout
offset_of Stream.stderr o = o.stderr

abbrev pub with_offset : Stream → ℕ → Offsets → Offsets
with_offset Stream.stdout n o = record o { stdout = n }
with_offset Stream.stderr n o = record o { stderr = n }

abbrev pub live_of : Stream → Live → Text
live_of Stream.stdout l = l.stdout
live_of Stream.stderr l = l.stderr

abbrev pub with_live : Stream → Text → Live → Live
with_live Stream.stdout t l = record l { stdout = t }
with_live Stream.stderr t l = record l { stderr = t }

-- The live text with the chunk's, cut to its last units.
abbrev pub cut_live : Text → Text
cut_live text = if ltb max_live_text (length text) then last_units max_live_text text else text

abbrev pub extended : Chunk → Live → Live
extended c l = with_live c.stream (cut_live (live_of c.stream l ++ c.text)) (record l {
  truncated = l.truncated || ltb max_live_text (length (live_of c.stream l ++ c.text));
})

abbrev pub is_backward : Option ℕ → ℕ → Bool
is_backward none offset = false
is_backward (some next) offset = ltb next offset

-- A chunk behind the cursor is a duplicate, one ahead of it leaves a gap.
unfoldable pub append_live : ToolPart → Chunk → Applied ToolPart
unfolding last_units byte_length
append_live t c =
    if ltb c.offset (offset_of c.stream t.next_offset)
    then ok t
    else (if ltb (offset_of c.stream t.next_offset) c.offset
        then ok (record t { live = record t.live { truncated = true }; diagnostic = some live_gap })
        else (if is_backward c.next_offset c.offset
            then err StreamError.protocol_error
            else ok (record t {
              live = extended c t.live;
              next_offset =
                  with_offset c.stream (or_else c.next_offset (c.offset + byte_length c.text))
                    t.next_offset;
            })))
