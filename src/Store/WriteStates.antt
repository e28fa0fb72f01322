-- ===== src/Store/WriteStates.antt =====
-- The states of a write to a repository, and when a report of its result comes too late:
-- packages/db/src/git-store.ts.
use cloud_swe.Base.{
  ◌≡◌, ◌≢◌, refl, any, inl, inr, Bool, true, false, ◌&&◌, not, ◌==◌, arith, ◌⊎◌, ◌||◌, Bool-cases,
}
use cloud_swe.Store.Schema.{Db, GitOperation, Execution, is_not_started, is_settling}
use cloud_swe.Store.GitStore.{WriteOutcome, execution_of, is_finished, is_unknown}

-- The state in which a report leaves a write.
pub data Reports : WriteOutcome → Execution → Type 0 where
  succeeds : Reports WriteOutcome.succeeded Execution.succeeded
  fails : Reports WriteOutcome.failed Execution.failed
  is_unsure : Reports WriteOutcome.unknown Execution.unknown

pub execution_of-Reports : (outcome : WriteOutcome) → Reports outcome (execution_of outcome)
execution_of-Reports WriteOutcome.succeeded = succeeds
execution_of-Reports WriteOutcome.failed = fails
execution_of-Reports WriteOutcome.unknown = is_unsure

-- The write has succeeded or failed.
abbrev pub HasEnded : Execution → Type 0
HasEnded e = (e ≡ Execution.succeeded) ⊎ (e ≡ Execution.failed)

-- The report comes too late: the write has ended, or is another than the one that was expected not to have started.
abbrev pub IsLate : Bool → Execution → Type 0
IsLate expected e = HasEnded e ⊎ ((expected ≡ true) × (e ≢ Execution.not_started))

-- No other write to the repository is executing or unsure.
abbrev pub IsAlone : GitOperation → Db → Type 0
IsAlone op d =
    any
      (λ other.
        not (other.id == op.id)
        && ((other.repository_id == op.repository_id) && is_settling other.execution))
      d.git_operations
    ≡ false

finished_ended : (e : Execution) → is_finished e ≡ true → HasEnded e
finished_ended Execution.succeeded h = inl refl
finished_ended Execution.failed h = inr refl
finished_ended Execution.not_started h = cc
finished_ended Execution.executing h = cc
finished_ended Execution.unknown h = cc

started : (e : Execution) → is_not_started e ≡ false → e ≢ Execution.not_started
started e h is = cc

pub not_started_eq : (e : Execution) → is_not_started e ≡ true → e ≡ Execution.not_started
not_started_eq Execution.not_started h = refl
not_started_eq Execution.executing h = cc
not_started_eq Execution.succeeded h = cc
not_started_eq Execution.failed h = cc
not_started_eq Execution.unknown h = cc

pub settled-IsLate :
    (expected : Bool) (e : Execution)
    → (is_finished e || (expected && not (is_not_started e))) ≡ true
    → IsLate expected e
settled-IsLate expected e h = elim (Bool-cases (is_finished e)) [
  | inl ended ↦ inl (finished_ended e ended)
  | inr going ↦ inr (ground arith, started e (ground arith))
]

pub open_if :
    (expected : Bool) (e : Execution)
    → (is_finished e || (expected && not (is_not_started e))) ≡ false
    → ¬ IsLate expected e
open_if expected e h (inl (inl done)) = ground arith
open_if expected e h (inl (inr done)) = ground arith
open_if true e h (inr (is, other)) = other (not_started_eq e (ground arith))
open_if false e h (inr (is, other)) = cc

pub free_if :
    (outcome : WriteOutcome) (held : Bool)
    → (is_unknown outcome && held) ≡ false
    → (outcome ≢ WriteOutcome.unknown) ⊎ (held ≡ false)
free_if WriteOutcome.succeeded held h = inl λ is. cc
free_if WriteOutcome.failed held h = inl λ is. cc
free_if WriteOutcome.unknown held h = inr h
