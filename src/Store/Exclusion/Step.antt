-- ===== src/Store/Exclusion/Step.antt =====
-- That `admitCommand` keeps one exclusive command alone and the slots of the reads apart.
use cloud_swe.Base.{
  find-select_one, ℕ, ◌≤◌, ◌≡◌, inl, inr, Bool, holds, count-any, true, false, ◌&&◌, Option, some,
  List, arith, ok, ◌>>=◌, find, any, count, select, update, Option-cases, Bool-cases, any-select,
  any-count, count-update-suc, count-update_one,
}
use cloud_swe.Store.Schema.{Db, CommandOperation}
use cloud_swe.Store.Shared.{unsettled_in, lock_workspace_context, assert_execution_ownership}
use cloud_swe.Store.Commands.{
  admit_command, dispatch_with, dispatched, admission, command_is, is_in_flight, takes_all, slot_is,
}
use cloud_swe.Store.Exclusion.Rule.{Turn, admission-Turn}

abbrev pub in_flight : ℕ → ℕ → CommandOperation → Bool
in_flight w g c = unsettled_in w g c && is_in_flight c

abbrev pub all_in_flight : ℕ → ℕ → CommandOperation → Bool
all_in_flight w g c = unsettled_in w g c && (is_in_flight c && takes_all c)

abbrev pub on_slot : ℕ → ℕ → ℕ → CommandOperation → Bool
on_slot w g n c = unsettled_in w g c && (is_in_flight c && slot_is n c)

-- On one generation of one workspace: an exclusive command in flight is the only one in flight, and
-- no two in flight have the same slot.
pub record Exclusion (w g : ℕ) (cs : List CommandOperation) : Type 0 where
  pub alone : any (all_in_flight w g) cs ≡ true → count (in_flight w g) cs ≤ 1
  pub apart : (n : ℕ) → count (on_slot w g n) cs ≤ 1

-- What a command that got its turn does to the table.
module _ (w g i : ℕ) (mine : CommandOperation) (slot : Option ℕ) (cs : List CommandOperation) where
  none_in :
      (p : CommandOperation → Bool)
      → any p (select (unsettled_in w g) cs) ≡ false
      → count (λ c. unsettled_in w g c && p c) cs ≡ 0
  none_in p h = any-count _ cs (ground (arith, any-select p (unsettled_in w g) cs))

  module _ (unique : count (command_is i) cs ≤ 1) (found : find (command_is i) cs ≡ some mine)
      (turn : Turn mine (select (unsettled_in w g) cs) slot) (v : Exclusion w g cs) where
    kept_out :
        (p : CommandOperation → Bool)
        → p (dispatched slot mine) ≡ false
        → count p (update (command_is i) (dispatched slot) cs) ≤ count p cs
    kept_out p h =
        count-update_one p (command_is i) (dispatched slot) cs mine unique found
          (λ k. absurd (ground arith))

    still_alone :
        any (all_in_flight w g) (update (command_is i) (dispatched slot) cs) ≡ true
        → count (in_flight w g) (update (command_is i) (dispatched slot) cs) ≤ 1
    still_alone h = elim (Bool-cases (takes_all mine)) [
      | inl all ↦
          (let (_, idle, _) = turn.alone all in
            ground (
              arith,
              none_in is_in_flight idle,
              count-update-suc (in_flight w g) (command_is i) (dispatched slot) cs unique,
            ))
      | inr reads ↦
          (let (n, _, _, _, _, reading, _) = turn.shared reads in
            absurd (
              ground (
                arith,
                none_in (λ c. is_in_flight c && takes_all c) reading,
                kept_out (all_in_flight w g) (ground arith),
                count-any (all_in_flight w g) (update (command_is i) (dispatched slot) cs),
              )))
    ]

    still_apart : (n : ℕ) → count (on_slot w g n) (update (command_is i) (dispatched slot) cs) ≤ 1
    still_apart n = elim (Bool-cases (holds slot n)) [
      | inr other ↦ ground (arith, kept_out (on_slot w g n) (ground arith), v.apart n)
      | inl its ↦ elim (Bool-cases (takes_all mine)) [
        | inl all ↦ (let (nothing, _, _) = turn.alone all in absurd (ground arith))
        | inr reads ↦
            (let (m, is, _, _, unused, _, _) = turn.shared reads in
              let same : m ≡ n = ground arith in
              ground (
                arith,
                none_in (λ c. is_in_flight c && slot_is n c) (rw same at unused),
                count-update-suc (on_slot w g n) (command_is i) (dispatched slot) cs unique,
              ))
      ]
    ]

-- What a call did to the table: nothing, or it dispatched a command that had its turn.
data Admitted (i : ℕ) (d d' : Db) : Type 0 where
  waits : d'.commands ≡ d.commands → Admitted i d d'
  goes :
      (candidate mine : CommandOperation) (slot : Option ℕ)
      → find (command_is i) d.commands ≡ some candidate
      → find
          (command_is i)
          (select (unsettled_in candidate.workspace_id candidate.generation) d.commands)
        ≡ some mine
      → admission mine
          (select (unsettled_in candidate.workspace_id candidate.generation) d.commands)
        ≡ some slot
      → d'.commands ≡ update (command_is i) (dispatched slot) d.commands
      → Admitted i d d'

module _ (i : ℕ) (d : Db) {r : Option CommandOperation} {d' : Db}
    (h : admit_command i d ≡ ok (r, d')) where
  admitted : Admitted i d d'
  unfolding admit_command lock_workspace_context assert_execution_ownership dispatch_with ◌>>=◌
  admitted = elim (Option-cases (find (command_is i) d.commands)) [
    | inl gone ↦ absurd (ground arith)
    | inr (c, there) ↦
        elim (Option-cases
          (find (command_is i) (select (unsettled_in c.workspace_id c.generation) d.commands))) [
            | inl gone ↦ absurd (ground arith)
            | inr (mine, found) ↦
                elim (Option-cases
                  (admission mine (select (unsettled_in c.workspace_id c.generation) d.commands))) [
                    | inl no_turn ↦ waits (ground arith)
                    | inr (slot, turn) ↦ goes c mine slot there found turn (ground arith)
                  ]
          ]
  ]

elsewhere :
    (w g i : ℕ) (mine : CommandOperation) (slot : Option ℕ) (cs : List CommandOperation)
    → count (command_is i) cs ≤ 1
    → find (command_is i) cs ≡ some mine
    → unsettled_in w g (dispatched slot mine) ≡ false
    → Exclusion w g cs
    → Exclusion w g (update (command_is i) (dispatched slot) cs)
elsewhere w g i mine slot cs unique found away v = record {
  alone = λ h. ground (
    arith,
    v.alone,
    out (all_in_flight w g) (ground arith),
    out (in_flight w g) (ground arith),
    any-count (all_in_flight w g) cs,
    count-any (all_in_flight w g) (update (command_is i) (dispatched slot) cs),
  );
  apart = λ n. ground (arith, v.apart n, out (on_slot w g n) (ground arith));
}
  where
    out :
        (p : CommandOperation → Bool)
        → p (dispatched slot mine) ≡ false
        → count p (update (command_is i) (dispatched slot) cs) ≤ count p cs
    out p h =
        count-update_one p (command_is i) (dispatched slot) cs mine unique found
          (λ k. absurd (ground arith))

-- Where no two commands have one id, a call of `admitCommand` that returns keeps this on every
-- generation of every workspace: an exclusive command in flight is the only command in flight, and
-- no two commands in flight have the same read slot.
pub admit_command-Exclusion :
    (w g i : ℕ) (d : Db) (r : Option CommandOperation) (d' : Db)
    → count (command_is i) d.commands ≤ 1
    → Exclusion w g d.commands
    → admit_command i d ≡ ok (r, d')
    → Exclusion w g d'.commands
admit_command-Exclusion w g i d r d' unique v h = elim (admitted i d h) [
  | waits same ↦ rw same v
  | goes c mine slot there found turn same ↦
      let one =
        find-select_one (command_is i) (unsettled_in c.workspace_id c.generation) d.commands unique
          found in
      let its =
        admission-Turn mine (select (unsettled_in c.workspace_id c.generation) d.commands) slot
          turn in
      let is : c ≡ mine = ground arith in
      elim (Bool-cases (unsettled_in w g (dispatched slot mine))) [
        | inr away ↦ rw same (elsewhere w g i mine slot d.commands unique one away v)
        | inl here ↦
            (let ww : c.workspace_id ≡ w = ground (arith, is) in
              let gg : c.generation ≡ g = ground (arith, is) in
              let mine_turn : Turn mine (select (unsettled_in w g) d.commands) slot =
                rw (ww, gg) at its in
              rw same (record {
                alone = still_alone w g i mine slot d.commands unique one mine_turn v;
                apart = still_apart w g i mine slot d.commands unique one mine_turn v;
              }))
      ]
]
