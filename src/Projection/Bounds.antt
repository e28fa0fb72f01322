-- ===== src/Projection/Bounds.antt =====
-- The bound on the live output of tools that a client keeps, through the changes of
-- apps/web/src/lib/thread-projection.ts to the parts of a run.
use cloud_swe.Base.{
  ℕ, zero, suc, ◌+◌, ◌-◌, ◌≤◌, Bool, Option, none, some, List, [], ◌∷◌, ◌++◌, ◌≡◌, All, length,
  ◌||◌, arith, ltb,
}
use cloud_swe.Store.Schema.{Text}
use cloud_swe.Projection.Data.{Applied, Part, TextPart, ToolPart, Live, text_key}
use cloud_swe.Projection.Events.{Utterance, Stream, Chunk}
use cloud_swe.Projection.Texts.{drop, last_units}
use cloud_swe.Projection.Parts.{
  max_live_text, on_text, text_is, legacy_is, new_text, upsert_text_at, upsert_text_part, wrapped,
  on_tool, tool_is, new_tool, upsert_tool_part, live_of, with_live, cut_live, append_live,
}
use cloud_swe.Projection.Holds.{Holds, if_both, bind-Holds, upsert-Holds, upsert_last-Holds}

length-drop {ℓ} : {A : Type ℓ} (n : ℕ) (xs : List A) → length (drop n xs) ≡ length xs - n
unfolding drop
length-drop zero xs = omega arith
length-drop (suc n) [] = omega arith
length-drop (suc n) (x ∷ xs) = ground (arith, length-drop n xs)

length-cut_live : (t : Text) → length (cut_live t) ≤ max_live_text
unfolding last_units
length-cut_live t = let cut = length-drop (length t - max_live_text) t in ground arith

-- The live text of each stream of a tool is within its limit.
abbrev pub IsBounded : Part → Type 0
IsBounded (Part.tool t) =
    (length t.live.stdout ≤ max_live_text) × (length t.live.stderr ≤ max_live_text)
IsBounded _ = Unit

abbrev pub ToolBounded : ToolPart → Type 0
ToolBounded t = IsBounded (Part.tool t)

abbrev LiveBounded : Live → Type 0
LiveBounded l = (length l.stdout ≤ max_live_text) × (length l.stderr ≤ max_live_text)

extended-LiveBounded :
    (c : Chunk) (s : Stream) (b : Bool) (t : Text) (l : Live)
    → LiveBounded l
    → LiveBounded (with_live s (cut_live t) (record l { truncated = b }))
extended-LiveBounded c Stream.stdout b t l h = (length-cut_live t, h.1)
extended-LiveBounded c Stream.stderr b t l h = (h.0, length-cut_live t)

pub append_live-Bounded :
    (t : ToolPart) (c : Chunk) → ToolBounded t → Holds ToolBounded (append_live t c)
unfolding append_live
append_live-Bounded t c h = search (
  if_both (Holds ToolBounded),
  h,
  extended-LiveBounded c c.stream
      (t.live.truncated || ltb max_live_text (length (live_of c.stream t.live ++ c.text)))
      (live_of c.stream t.live ++ c.text) t.live h,
)

on_text-Bounded : (f : TextPart → TextPart) (x : Part) → IsBounded x → Holds IsBounded (on_text f x)
on_text-Bounded f (Part.text t) h = tt
on_text-Bounded f (Part.tool t) h = h
on_text-Bounded f (Part.marker t) h = tt
on_text-Bounded f (Part.user t) h = tt

on_tool-Bounded :
    (f : ToolPart → Applied ToolPart)
    → ((t : ToolPart) → ToolBounded t → Holds ToolBounded (f t))
    → (x : Part) → IsBounded x
    → Holds IsBounded (on_tool f x)
on_tool-Bounded f k (Part.text t) h = tt
on_tool-Bounded f k (Part.tool t) h =
    bind-Holds ToolBounded IsBounded (f t) wrapped (k t h) (λ u z. z)
on_tool-Bounded f k (Part.marker t) h = tt
on_tool-Bounded f k (Part.user t) h = tt

pub upsert_text_part-Bounded :
    (i : ℕ) (parts : List Part) (u : Utterance) (f : TextPart → TextPart)
    → All IsBounded parts
    → Holds (All IsBounded) (upsert_text_part i parts u f)
unfolding upsert_text_part
upsert_text_part-Bounded i parts u f h = go u.message_index
  where
    go : (o : Option ℕ) → Holds (All IsBounded) (upsert_text_at i parts u f o)
    go none =
        upsert_last-Holds IsBounded (legacy_is u) (on_text f)
          (Part.text (new_text i u (length parts + 1))) (on_text-Bounded f) tt parts h
    go (some index) =
        upsert-Holds IsBounded (text_is (text_key i u.attempt_id u.assistant_attempt index))
          (on_text f) (Part.text (new_text i u index)) (on_text-Bounded f) tt parts h

pub upsert_tool_part-Bounded :
    (i : ℕ) (parts : List Part) (call : Text) (attempt : ℕ) (name : Text)
    (f : ToolPart → Applied ToolPart)
    → ((t : ToolPart) → ToolBounded t → Holds ToolBounded (f t))
    → All IsBounded parts
    → Holds (All IsBounded) (upsert_tool_part i parts call attempt name f)
unfolding upsert_tool_part
upsert_tool_part-Bounded i parts call attempt name f k h =
    upsert-Holds IsBounded (tool_is call attempt) (on_tool f)
      (Part.tool (new_tool i call attempt name)) (on_tool-Bounded f k) (omega arith, omega arith)
      parts h
