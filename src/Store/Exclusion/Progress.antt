-- ===== src/Store/Exclusion/Progress.antt =====
-- That the queue of packages/db/src/threads/commands.ts moves when nothing runs.
use cloud_swe.Base.{
  ◌≡◌, refl, inl, inr, Bool, true, false, ltb, none, some, List, [], ◌∷◌, ◌++◌, arith, any,
  Bool-cases, select-none, any-weaker, is_some, if◌then◌else◌,
}
use cloud_swe.Store.Schema.{CommandOperation}
use cloud_swe.Store.Commands.{admission, must_wait, free_slot, is_in_flight, is_earlier, takes_all}

abbrev before : CommandOperation → CommandOperation → Bool
before c x = ltb x.queue_order c.queue_order

-- A place of the list, with no smaller number anywhere.
abbrev pub Oldest : List CommandOperation → CommandOperation → Type 0
Oldest cs c =
    ((left : List CommandOperation) × (right : List CommandOperation) × (cs ≡ left ++ c ∷ right))
    × (any (before c) cs ≡ false)

oldest :
    (c : CommandOperation) (cs : List CommandOperation) → (a : CommandOperation) × Oldest (c ∷ cs) a
unfolding any
oldest c [] = (c, (([], [], refl), ground arith))
oldest c (d ∷ ds) =
    let (a, ((left, right, place), least)) = oldest d ds in
    elim (Bool-cases (before a c)) [
      | inl older ↦ (
        c,
        (
          ([], d ∷ ds, refl),
          ground (arith, any-weaker (before c) (before a) (d ∷ ds) (λ x h. ground arith) least),
        ),
      )
      | inr younger ↦ (a, ((c ∷ left, right, cc), ground (arith, least)))
    ]

-- Where nothing runs, the first of the queue gets its turn.
first_turn :
    (mine : CommandOperation) (cs : List CommandOperation)
    → any is_in_flight cs ≡ false
    → any (is_earlier mine) cs ≡ false
    → admission mine cs ≡ some (if takes_all mine then none else some 1)
unfolding admission must_wait free_slot any
first_turn mine cs idle first =
    ground (arith, select-none is_in_flight cs idle, select-none (is_earlier mine) cs first)

-- Where commands are outstanding and none is in flight, the rule lets one of them go.
pub admission-progress :
    (c : CommandOperation) (cs : List CommandOperation)
    → any is_in_flight (c ∷ cs) ≡ false
    → (mine : CommandOperation) × ((left : List CommandOperation) × (right : List CommandOperation)
        × (c ∷ cs ≡ left ++ mine ∷ right))
      × (is_some (admission mine (c ∷ cs)) ≡ true)
admission-progress c cs idle =
    let (mine, (place, least)) = oldest c cs in
    (
      mine,
      place,
      ground (
        arith,
        first_turn mine (c ∷ cs) idle
            (any-weaker (is_earlier mine) (before mine) (c ∷ cs) (λ x h. ground arith) least),
      ),
    )
