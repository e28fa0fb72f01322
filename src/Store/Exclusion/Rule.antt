-- ===== src/Store/Exclusion/Rule.antt =====
-- The dispatch rule: when `admitCommand` gives a command its turn, and that the queue moves.
use cloud_swe.Base.{
  ℕ, ◌≤◌, ◌≡◌, refl, inl, inr, Bool, true, false, ◌&&◌, leb, Option, none, some, List, [], ◌∷◌,
  arith, select, any, length, Option-cases, any-select,
}
use cloud_swe.Store.Schema.{CommandOperation}
use cloud_swe.Store.Commands.{
  admission, must_wait, free_slot, read_slots, slot_is, is_in_flight, is_unreconciled, is_earlier,
  takes_all,
}

-- The turn of `mine` among the unsettled commands of its workspace: what runs is known and of its
-- owner; an exclusive command runs alone and after every earlier one; a read runs with reads, after
-- the earlier exclusive ones, on a slot of its own.
pub record Turn (mine : CommandOperation) (cs : List CommandOperation) (slot : Option ℕ)
    : Type 0 where
  pub reconciled : any (λ c. is_in_flight c && is_unreconciled mine c) cs ≡ false
  pub alone :
      takes_all mine ≡ true
      → (slot ≡ none) × (any is_in_flight cs ≡ false) × (any (is_earlier mine) cs ≡ false)
  pub shared :
      takes_all mine ≡ false
      → (n : ℕ) × (slot ≡ some n)
        × (1 ≤ n)
        × (n ≤ 4)
        × (any (λ c. is_in_flight c && slot_is n c) cs ≡ false)
        × (any (λ c. is_in_flight c && takes_all c) cs ≡ false)
        × (any (λ c. is_earlier mine c && takes_all c) cs ≡ false)

some-any :
    (p : CommandOperation → Bool) (cs : List CommandOperation)
    → leb 1 (length (select p cs)) ≡ any p cs
unfolding select any
some-any p [] = refl
some-any p (c ∷ cs) = ground (arith, some-any p cs)

free :
    (active : List CommandOperation) (n : ℕ)
    → free_slot read_slots active ≡ some n
    → (1 ≤ n) × (n ≤ 4) × (any (slot_is n) active ≡ false)
unfolding free_slot
free active n h = ground arith

module _ (mine : CommandOperation) (cs : List CommandOperation) where
  -- The tests of the rule, on all the unsettled commands.
  in_flight-any :
      (p : CommandOperation → Bool)
      → any p (select is_in_flight cs) ≡ any (λ c. is_in_flight c && p c) cs
  in_flight-any p = any-select p is_in_flight cs

  -- A command that the rule lets go has its turn: all that runs is known and of its owner; an exclusive
  -- one runs alone, with no earlier one queued, and takes no slot; a read runs with no exclusive one
  -- and with no earlier exclusive one queued, on a free slot from 1 to 4.
  pub admission-Turn : (slot : Option ℕ) → admission mine cs ≡ some slot → Turn mine cs slot
  unfolding admission must_wait
  admission-Turn slot h = record {
    reconciled = ground (arith, in_flight-any (is_unreconciled mine));
    alone = λ all. ground (arith, some-any is_in_flight cs, some-any (is_earlier mine) cs);
    shared = λ reads. elim (Option-cases (free_slot read_slots (select is_in_flight cs))) [
      | inl full ↦ absurd (ground arith)
      | inr (n, found) ↦
          let (low, high, own) = free (select is_in_flight cs) n found in
          (
            n,
            ground arith,
            low,
            high,
            ground (arith, in_flight-any (slot_is n)),
            ground (arith, in_flight-any takes_all),
            ground (arith, any-select takes_all (is_earlier mine) cs),
          )
    ];
  }
