-- ===== src/Store/Log/Pages.antt =====
-- The pages of events that `listEvents` of packages/db/src/threads/queries.ts reads of a log that has
-- no gap.
use cloud_swe.Base.{
  ℕ, zero, suc, ◌+◌, ◌-◌, min, true, false, Option, some, List, [], ◌∷◌, ◌++◌, ◌≡◌, refl, ap, sym,
  ◌∙◌, arith, ltb, if◌then◌else◌, find, select, ◌⊎◌, inl, inr, Bool-cases,
}
use cloud_swe.Store.Schema.{Db, Thread, ThreadEvent}
use cloud_swe.Store.Shared.{thread_is}
use cloud_swe.Store.Workspaces.{take}
use cloud_swe.Store.Queries.{event_after, insert_in_order, in_order, page_size, list_events}
use cloud_swe.Store.Log.Sequence.{IsGapless, sequences, first}

-- `count` numbers from `from` on.
abbrev pub ranged : ℕ → ℕ → List ℕ
ranged from zero = []
ranged from (suc count) = from ∷ ranged (suc from) count

abbrev pub numbers : List ThreadEvent → List ℕ
numbers [] = []
numbers (e ∷ es) = e.sequence ∷ numbers es

above : ℕ → List ℕ → List ℕ
above n [] = []
above n (x ∷ xs) = if ltb n x then x ∷ above n xs else above n xs

numbers-select :
    (t n : ℕ) (es : List ThreadEvent)
    → numbers (select (event_after t (some n)) es) ≡ above n (sequences t es)
unfolding select above sequences
numbers-select t n [] = refl
numbers-select t n (e ∷ es) = ground (arith, numbers-select t n es)

above-append : (n : ℕ) (xs ys : List ℕ) → above n (xs ++ ys) ≡ above n xs ++ above n ys
unfolding above
above-append n [] ys = refl
above-append n (x ∷ xs) ys = ground (arith, above-append n xs ys)

ranged-snoc : (a k : ℕ) → ranged a (suc k) ≡ ranged a k ++ (a + k) ∷ []
ranged-snoc a zero = let s : a + 0 ≡ a = omega arith in rw s
ranged-snoc a (suc k) =
    let s : suc a + k ≡ a + suc k = omega arith in
    ap (λ xs. a ∷ xs) (ranged-snoc (suc a) k ∙ ap (λ m. ranged (suc a) k ++ m ∷ []) s)

last_above :
    (n m : ℕ)
    → (ltb n (suc m) ≡ true) ⊎ (ltb n (suc m) ≡ false)
    → ranged (suc n) (m - n) ++ above n (suc m ∷ []) ≡ ranged (suc n) (suc m - n)
unfolding above
last_above n m (inl here) =
    let some_left : suc m - n ≡ suc (m - n) = ground arith in
    let end : suc n + (m - n) ≡ suc m = ground arith in
    rw (here, some_left)
      (sym (ranged-snoc (suc n) (m - n) ∙ ap (λ k. ranged (suc n) (m - n) ++ k ∷ []) end))
last_above n m (inr past) =
    let none_left : suc m - n ≡ 0 = ground arith in
    let none_before : m - n ≡ 0 = ground arith in rw (past, none_left, none_before)

above-first : (n m : ℕ) → above n (first m) ≡ ranged (suc n) (m - n)
unfolding first above
above-first n zero = let s : 0 - n ≡ 0 = omega arith in rw s
above-first n (suc m) =
    above-append n (first m) (suc m ∷ [])
    ∙ (ap (λ xs. xs ++ above n (suc m ∷ [])) (above-first n m)
        ∙ last_above n m (Bool-cases (ltb n (suc m))))

in_order-ranged : (es : List ThreadEvent) (a k : ℕ) → numbers es ≡ ranged a k → in_order es ≡ es
unfolding in_order insert_in_order
in_order-ranged [] a k h = refl
in_order-ranged (e ∷ es) a zero h = absurd (ground arith)
in_order-ranged (e ∷ []) a (suc k) h = refl
in_order-ranged (e ∷ x ∷ es) a (suc zero) h = absurd (ground arith)
in_order-ranged (e ∷ x ∷ es) a (suc (suc k)) h =
    let rest = in_order-ranged (x ∷ es) (suc a) (suc k) (ground arith) in rw rest (ground arith)

numbers-take :
    (c : ℕ) (es : List ThreadEvent) (a k : ℕ)
    → numbers es ≡ ranged a k
    → numbers (take c es) ≡ ranged a (min c k)
unfolding take
numbers-take zero es a k h = let s : min 0 k ≡ 0 = omega arith in rw s
numbers-take (suc c) [] a zero h = let s : min (suc c) 0 ≡ 0 = omega arith in rw s
numbers-take (suc c) [] a (suc k) h = absurd (ground arith)
numbers-take (suc c) (e ∷ es) a zero h = absurd (ground arith)
numbers-take (suc c) (e ∷ es) a (suc k) h =
    let rest = numbers-take c es (suc a) k (ground arith) in
    let s : min (suc c) (suc k) ≡ suc (min c k) = omega arith in rw s (ground arith)

-- A page of a thread's events after a number has the next numbers, with no gap: as many as the limit
-- allows, and as there are.
pub list_events-numbers :
    (d : Db) (thread_id after : ℕ) (limit : Option ℕ) (t : Thread)
    → IsGapless d
    → find (thread_is thread_id) d.threads ≡ some t
    → numbers (list_events thread_id (some after) limit d)
      ≡ ranged (suc after) (min (page_size limit) (t.event_sequence - after))
unfolding list_events
list_events-numbers d thread_id after limit t v there =
    let rows = select (event_after thread_id (some after)) d.events in
    let all : numbers rows ≡ ranged (suc after) (t.event_sequence - after) =
      numbers-select thread_id after d.events
      ∙ (ap (above after) (v.at thread_id t there) ∙ above-first after t.event_sequence) in
    ap (λ es. numbers (take (page_size limit) es)) (in_order-ranged rows (suc after) _ all)
    ∙ numbers-take (page_size limit) rows (suc after) _ all
