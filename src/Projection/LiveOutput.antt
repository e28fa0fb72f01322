-- ===== src/Projection/LiveOutput.antt =====
-- The live output of a tool, from the chunks that `appendLive` of
-- apps/web/src/lib/thread-projection.ts is given.
use cloud_swe.Base.{
  ℕ, ◌+◌, ◌≤◌, ◌<◌, Bool, true, false, none, List, [], ◌∷◌, ◌++◌, ◌||◌, ok, ◌≡◌, refl, ap, sym, ◌∙◌,
  arith, or_else, length,
}
use cloud_swe.Store.Schema.{Text}
use cloud_swe.Projection.Data.{Applied, ToolPart, Offsets, ◌>>=◌}
use cloud_swe.Projection.Events.{Stream, Chunk}
use cloud_swe.Projection.Texts.{byte_length}
use cloud_swe.Projection.Parts.{
  append_live, offset_of, with_offset, live_of, with_live, max_live_text,
}

offset_of-with_offset : (s : Stream) (n : ℕ) (o : Offsets) → offset_of s (with_offset s n o) ≡ n
offset_of-with_offset Stream.stdout n o = refl
offset_of-with_offset Stream.stderr n o = refl

-- A chunk that carries a byte, applied again at once, changes nothing.
pub append_live-again :
    (t : ToolPart) (c : Chunk) (u : ToolPart)
    → c.offset < or_else c.next_offset (c.offset + byte_length c.text)
    → append_live t c ≡ ok u
    → append_live u c ≡ ok u
unfolding append_live
append_live-again t c u some_byte h =
    let at =
      offset_of-with_offset c.stream (or_else c.next_offset (c.offset + byte_length c.text))
        t.next_offset in
    ground arith

-- The chunks of a stream that carry these texts one after another, from a byte on.
abbrev pub chunks_of : Text → Stream → ℕ → List Text → List Chunk
chunks_of call s from [] = []
chunks_of call s from (x ∷ xs) =
    record { tool_call_id = call; stream = s; offset = from; next_offset = none; text = x }
    ∷ chunks_of call s (from + byte_length x) xs

abbrev pub after_chunks : ToolPart → List Chunk → Applied ToolPart
after_chunks t [] = ok t
after_chunks t (c ∷ cs) = append_live t c >>= λ u. after_chunks u cs

abbrev pub joined : List Text → Text
joined [] = []
joined (x ∷ xs) = x ++ joined xs

abbrev pub bytes_of : List Text → ℕ
bytes_of [] = 0
bytes_of (x ∷ xs) = byte_length x + bytes_of xs

-- The part with a text and the bytes of it added to the live output of a stream.
abbrev pub grown : ToolPart → Stream → Text → ℕ → ToolPart
grown t s x bytes = record t {
  live = with_live s (live_of s t.live ++ x) t.live;
  next_offset = with_offset s (offset_of s t.next_offset + bytes) t.next_offset;
}

length-append : (xs ys : Text) → length (xs ++ ys) ≡ length xs + length ys
length-append [] ys = omega arith
length-append (x ∷ xs) ys = ground (arith, length-append xs ys)

append_assoc : (xs ys zs : Text) → (xs ++ ys) ++ zs ≡ xs ++ (ys ++ zs)
append_assoc [] ys zs = refl
append_assoc (x ∷ xs) ys zs = ap (λ r. x ∷ r) (append_assoc xs ys zs)

append_nil : (xs : Text) → xs ++ [] ≡ xs
append_nil [] = refl
append_nil (x ∷ xs) = ap (λ r. x ∷ r) (append_nil xs)

or_false : (b : Bool) → (b || false) ≡ b
or_false true = refl
or_false false = refl

append_live-grown :
    (t : ToolPart) (call : Text) (s : Stream) (x : Text)
    → length (live_of s t.live) + length x ≤ max_live_text
    → append_live t (record {
      tool_call_id = call;
      stream = s;
      offset = offset_of s t.next_offset;
      next_offset = none;
      text = x;
    })
      ≡ ok (grown t s x (byte_length x))
unfolding append_live
append_live-grown t call Stream.stdout x fits =
    let size = length-append t.live.stdout x in ground (arith, or_false t.live.truncated)
append_live-grown t call Stream.stderr x fits =
    let size = length-append t.live.stderr x in ground (arith, or_false t.live.truncated)

grown-grown :
    (t : ToolPart) (s : Stream) (x y : Text) (m n : ℕ)
    → grown (grown t s x m) s y n ≡ grown t s (x ++ y) (m + n)
grown-grown t Stream.stdout x y m n =
    let sum : t.next_offset.stdout + m + n ≡ t.next_offset.stdout + (m + n) = omega arith in
    rw (append_assoc t.live.stdout x y, sum)
grown-grown t Stream.stderr x y m n =
    let sum : t.next_offset.stderr + m + n ≡ t.next_offset.stderr + (m + n) = omega arith in
    rw (append_assoc t.live.stderr x y, sum)

grown-none : (t : ToolPart) (s : Stream) → grown t s [] 0 ≡ t
grown-none t Stream.stdout =
    let sum : t.next_offset.stdout + 0 ≡ t.next_offset.stdout = omega arith in
    rw (append_nil t.live.stdout, sum)
grown-none t Stream.stderr =
    let sum : t.next_offset.stderr + 0 ≡ t.next_offset.stderr = omega arith in
    rw (append_nil t.live.stderr, sum)

grown-offset :
    (t : ToolPart) (s : Stream) (x : Text) (n : ℕ)
    → offset_of s (grown t s x n).next_offset ≡ offset_of s t.next_offset + n
grown-offset t Stream.stdout x n = refl
grown-offset t Stream.stderr x n = refl

grown-live :
    (t : ToolPart) (s : Stream) (x : Text) (n : ℕ)
    → live_of s (grown t s x n).live ≡ live_of s t.live ++ x
grown-live t Stream.stdout x n = refl
grown-live t Stream.stderr x n = refl

-- Chunks that follow one another add their texts in full, as long as the live output stays within its
-- limit, and change nothing else of the tool but the stream's offset.
pub append_live-chunks :
    (t : ToolPart) (call : Text) (s : Stream) (xs : List Text)
    → length (live_of s t.live) + length (joined xs) ≤ max_live_text
    → after_chunks t (chunks_of call s (offset_of s t.next_offset) xs)
      ≡ ok (grown t s (joined xs) (bytes_of xs))
append_live-chunks t call s [] fits = ap ok (sym (grown-none t s))
append_live-chunks t call s (x ∷ xs) fits =
    let u = grown t s x (byte_length x) in
    let both = length-append x (joined xs) in
    let live : length (live_of s u.live) ≡ length (live_of s t.live) + length x =
      ap length (grown-live t s x (byte_length x)) ∙ length-append (live_of s t.live) x in
    let rest = append_live-chunks u call s xs (omega arith) in
    let from = grown-offset t s x (byte_length x) in
    let first = append_live-grown t call s x (omega arith) in
    ap
      (λ m.
        m >>= λ v. after_chunks v (chunks_of call s (offset_of s t.next_offset + byte_length x) xs))
      first
    ∙ (ap (λ n. after_chunks u (chunks_of call s n xs)) (sym from)
        ∙ (rest ∙ ap ok (grown-grown t s x (joined xs) (byte_length x) (bytes_of xs))))
