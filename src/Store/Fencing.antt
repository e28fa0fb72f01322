-- ===== src/Store/Fencing.antt =====
-- What a claim of packages/db/src/threads/runs.ts means for the attempts that claimed before.
use cloud_swe.Base.{
  ℕ, ◌≡◌, ◌≢◌, refl, inl, inr, true, none, some, [], ◌∷◌, ◌++◌, arith, ok, err, ◌>>=◌, find, update,
  find-added, find-update_self, Option-cases, is_some,
}
use cloud_swe.Store.Schema.{
  Db, Text, Run, RunExecutionOwner, EventType, Payload, DedupeKey, is_active_run,
}
use cloud_swe.Store.Shared.{
  thrown, checkpoint_ownership_lost, run_is, thread_is, owns, fresh, lock_run_context,
  assert_execution_ownership,
}
use cloud_swe.Store.Runs.{
  Ownership, claim_of, claim_execution_ownership, claim_with, reclaim, take_ownership,
  begin_agent_execution, append_run_event, complete_run,
}

-- The run is active, and the token is that of its owner.
pub record Owned (i token : ℕ) (d : Db) : Type 0 where
  pub run : Run
  pub there : find (run_is i) d.runs ≡ some run
  pub thread : is_some (find (thread_is run.thread_id) d.threads) ≡ true
  pub active : is_active_run run.status ≡ true
  pub owner : run.execution_owner_token ≡ some token

-- The row of an owner.
abbrev owned_by : ℕ → ℕ → ℕ → ℕ → Run → Run
owned_by a g token now r = record r {
  execution_owner_attempt_id = some a;
  execution_owner_token = some token;
  execution_owner_generation = some g;
  updated_at = now;
}

abbrev owner_row : ℕ → ℕ → ℕ → ℕ → RunExecutionOwner
owner_row i a g token = record { run_id = i; attempt_id = a; token = token; generation = g }

-- What a first claim writes.
record Took (i a g : ℕ) (d : Db) (o : Ownership) (d' : Db) : Type 0 where
  runs : d'.runs ≡ update (run_is i) (owned_by a g o.token d.clock) d.runs
  threads : d'.threads ≡ d.threads
  workspaces : d'.workspaces ≡ d.workspaces
  owners : d'.owners ≡ d.owners ++ owner_row i a g o.token ∷ []
  result : o ≡ record { attempt_id = a; token = o.token; generation = g }

module _ (i a g : ℕ) (d : Db) {o : Ownership} {d' : Db} where
  took : take_ownership i a g d ≡ ok (o, d') → Took i a g d o d'
  unfolding take_ownership fresh ◌>>=◌
  took h = record {
    runs = ground arith;
    threads = ground arith;
    workspaces = ground arith;
    owners = ground arith;
    result = ground arith;
  }

-- What a claim that succeeded had read, and what it did.
data Claimed (i a g : ℕ) (d : Db) (o : Ownership) (d' : Db) : Type 0 where
  again :
      (prior : RunExecutionOwner)
      → find (claim_of i a) d.owners ≡ some prior
      → d' ≡ d
      → Claimed i a g d o d'
  first : find (claim_of i a) d.owners ≡ none → Took i a g d o d' → Claimed i a g d o d'

module _ (i a g : ℕ) (d : Db) {o : Ownership} {d' : Db} where
  claimed : claim_execution_ownership i a g d ≡ ok (o, d') → Claimed i a g d o d'
  unfolding claim_execution_ownership claim_with reclaim lock_run_context ◌>>=◌
  claimed h = elim (Option-cases (find (claim_of i a) d.owners)) [
    | inr (prior, found) ↦ again prior found (ground arith)
    | inl new ↦ first new (took i a g d (ground arith))
  ]

  -- Who claims with success owns the run, which is active.
  claim_execution_ownership-Owned :
      claim_execution_ownership i a g d ≡ ok (o, d') → Owned i o.token d'
  unfolding claim_execution_ownership claim_with reclaim lock_run_context ◌>>=◌
  claim_execution_ownership-Owned h = elim (Option-cases (find (run_is i) d.runs)) [
    | inl gone ↦ absurd (ground arith)
    | inr (c, there) ↦ elim (claimed h) [
      | again prior found same ↦ record {
        run = c;
        there = ground arith;
        thread = ground arith;
        active = ground arith;
        owner = ground arith;
      }
      | first new t ↦ record {
        run = owned_by a g o.token d.clock c;
        there =
            rw t.runs
              (find-update_self (run_is i) (owned_by a g o.token d.clock) d.runs (λ r. refl) there);
        thread = ground (arith, t.threads);
        active = ground arith;
        owner = refl;
      }
    ]
  ]

  claimed-again :
      claim_execution_ownership i a g d ≡ ok (o, d')
      → claim_execution_ownership i a g d' ≡ ok (o, d')
  unfolding claim_execution_ownership claim_with reclaim lock_run_context ◌>>=◌
  claimed-again h = elim (Option-cases (find (run_is i) d.runs)) [
    | inl gone ↦ absurd (ground arith)
    | inr (c, there) ↦ elim (claimed h) [
      | again prior found same ↦ ground arith
      | first new t ↦
          let row : find (run_is i) d'.runs ≡ some (owned_by a g o.token d.clock c) =
            rw t.runs (
              find-update_self (run_is i) (owned_by a g o.token d.clock) d.runs (λ r. refl)
                there) in
          let prior : find (claim_of i a) d'.owners ≡ some (owner_row i a g o.token) =
            rw t.owners
              (find-added (claim_of i a) d.owners (owner_row i a g o.token) new (ground arith)) in
          ground (arith, row, prior, t.threads, t.workspaces, t.result)
    ]
  ]

-- A claim that succeeded, made again by the same attempt on the same generation with nothing between,
-- succeeds with the same result and changes nothing.
pub claim_execution_ownership-again :
    (i a g : ℕ) (d : Db) (o : Ownership) (d' : Db)
    → claim_execution_ownership i a g d ≡ ok (o, d')
    → claim_execution_ownership i a g d' ≡ ok (o, d')
claim_execution_ownership-again i a g d o d' h = claimed-again i a g d h

-- After a claim, an attempt with another token can neither begin the agent, nor append an event, nor
-- complete the run: each call answers that the ownership is lost.
pub claim-fences :
    (i a g : ℕ) (d : Db) (o : Ownership) (d' : Db) (old : ℕ) (content : Text) (kind : EventType)
    (payload : Payload) (key : DedupeKey)
    → claim_execution_ownership i a g d ≡ ok (o, d')
    → old ≢ o.token
    → (begin_agent_execution i old d' ≡ err (thrown checkpoint_ownership_lost 409))
      × (append_run_event i old kind payload key d' ≡ err (thrown checkpoint_ownership_lost 409))
      × (complete_run i content old d' ≡ err (thrown checkpoint_ownership_lost 409))
unfolding begin_agent_execution append_run_event complete_run lock_run_context
    assert_execution_ownership owns ◌>>=◌
claim-fences i a g d o d' old content kind payload key h other =
    let own = claim_execution_ownership-Owned i a g d h in
    (
      ground (arith, own.there, own.thread, own.active, own.owner),
      ground (arith, own.there, own.thread, own.active, own.owner),
      ground (arith, own.there, own.thread, own.active, own.owner),
    )
