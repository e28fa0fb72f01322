-- ===== src/Store/Idempotency/Ids.antt =====
-- The ids of rows come from the source of ids, and the runs have one row each.
use cloud_swe.Base.{
  ℕ, ◌<◌, ◌≤◌, ◌≡◌, refl, true, false, none, some, List, [], ◌∷◌, arith, any, count, find,
  Bool-cases, inl, inr, ==-refl, ◌==◌, ltb,
}
use cloud_swe.Store.Schema.{Db, Run}
use cloud_swe.Store.Shared.{thread_is, run_is, active_in}
use cloud_swe.Store.Queue.{delivery_of}
use cloud_swe.Store.Steps.Writes.{run_of_thread}
use cloud_swe.Store.Idempotency.Memory.{message_of_thread}

-- No row has an id that was not given yet.
pub record IdsGiven (d : Db) : Type 0 where
  pub threads : (i : ℕ) → d.next_id < i → find (thread_is i) d.threads ≡ none
  pub messages : (i k : ℕ) → d.next_id < i → any (message_of_thread i k) d.messages ≡ false
  pub deliveries : (i : ℕ) → d.next_id < i → find (delivery_of i) d.deliveries ≡ none
  pub runs : (i : ℕ) → d.next_id < i → count (run_is i) d.runs ≡ 0
  pub one_run : (i : ℕ) → count (run_is i) d.runs ≤ 1

pub any_none :
    (i k : ℕ) (rs : List Run) → count (run_is i) rs ≡ 0 → any (run_of_thread i k) rs ≡ false
unfolding any count
any_none i k [] h = refl
any_none i k (r ∷ rs) h = ground (arith, any_none i k rs)

found-counted :
    (t : ℕ) (x : Run) (rs : List Run)
    → find (active_in t) rs ≡ some x
    → count (run_is x.id) rs ≡ 0
    → ⊥
unfolding find count
found-counted t x [] f z = cc
found-counted t x (r ∷ rs) f z = elim (Bool-cases (active_in t r)) [
  | inl here ↦ (let same : r ≡ x = ground arith in ground (arith, ==-refl x.id))
  | inr other ↦ found-counted t x rs (ground arith) (ground arith)
]

-- With one row of an id, the row that is found says whose run it is.
pub any_one :
    (k t : ℕ) (x : Run) (rs : List Run)
    → count (run_is x.id) rs ≤ 1
    → find (active_in t) rs ≡ some x
    → any (run_of_thread x.id k) rs ≡ true
    → k ≡ t
unfolding any count find
any_one k t x [] one found h = cc
any_one k t x (r ∷ rs) one found h = elim (Bool-cases (active_in t r)) [
  | inl here ↦ (let same : r ≡ x = ground arith in ground (arith, any_none x.id k rs))
  | inr other ↦ elim (Bool-cases (r.id == x.id)) [
    | inl twin ↦
        (let none_left : count (run_is x.id) rs ≡ 0 = ground arith in
          absurd (found-counted t x rs (ground arith) none_left))
    | inr apart ↦ any_one k t x rs (ground arith) (ground arith) (ground arith)
  ]
]

pub active-given :
    (t : ℕ) (x : Run) (n : ℕ) (rs : List Run)
    → (n < x.id → count (run_is x.id) rs ≡ 0)
    → find (active_in t) rs ≡ some x
    → x.id ≤ n
active-given t x n rs given found = elim (Bool-cases (ltb n x.id)) [
  | inl past ↦ absurd (found-counted t x rs found (given (ground arith)))
  | inr there ↦ ground arith
]
