-- ===== src/Examples/Ledgers.antt =====
-- The theorems on the ledger, applied to a project with a budget of 10 under hard_reject.
use gateyes.Common.{
  ◌≡◌, refl, String, true, false, none, some, List, [], ◌∷◌, pos, ◌+ℤ◌, ◌-ℤ◌, ◌≤ℤ◌, lookup, insert,
  arith, if◌then◌else◌, ◌==◌, string_eq,
}
use gateyes.Ledger.{
  BudgetHash, Redis, budget_at, or_else, no_budget, exceeds, any_exceeds, adjust_all, spend, hold,
  consume_budget_ledger, reserve_budget_ledger, commit_budget_ledger, Script, consume, reserve,
  commit, eval, eval_all,
}
use gateyes.Ledger.Bound.{IsBounded, within}
use gateyes.Ledger.Spent.{IsHeld, AllCovered, overspent, eval_all-overspent}
use gateyes.Ledger.Holds.{eval-refused, commit-reserve}
use gateyes.Ledger.Flush.{
  Row, World, idle, Event, script_runs, flush_goes_on, flush_drops_error, drop_error, spending,
  step, run, load, charge, flush_step, update_row,
}
use gateyes.Ledger.Flush.Settled.{all_left, left_spent, left_reserved, run-load}

abbrev project : BudgetHash
project = record {
  budget = pos 10;
  spent = pos 4;
  reserved = pos 0;
  policy = "hard_reject";
  delta_spent = pos 3;
  delta_reserved = pos 0;
}

abbrev ledger : Redis
ledger = record { budgets = ("budget:ledger:project:p", project) ∷ []; quotas = [] }

abbrev keys : List String
keys = "budget:ledger:project:p" ∷ "budget:ledger:tenant:t" ∷ []

ledger-IsBounded : IsBounded ledger.budgets
unfolding budget_at lookup ◌+ℤ◌ IsBounded
ledger-IsBounded k =
    elim ("budget:ledger:project:p" == k)
      as (λ b. within (or_else no_budget (if b then some project else none)) ≡ true) [
        | true ↦ refl
        | false ↦ refl
      ]

abbrev scripts : List Script
scripts = reserve (pos 5) keys ∷ consume (pos 2) (pos 0) none keys ∷ commit (pos 5) keys ∷ []

ledger-IsHeld : IsHeld ledger.budgets
unfolding budget_at lookup IsHeld
ledger-IsHeld k =
    elim ("budget:ledger:project:p" == k)
      as (λ b. pos 0 ≤ℤ (or_else no_budget (if b then some project else none)).reserved) [
        | true ↦ omega arith
        | false ↦ omega arith
      ]

scripts-AllCovered : AllCovered scripts ledger
unfolding AllCovered eval consume_budget_ledger reserve_budget_ledger commit_budget_ledger
    any_exceeds exceeds adjust_all hold budget_at lookup insert ◌+ℤ◌
scripts-AllCovered = (tt, (tt, ((omega arith, (omega arith, tt)), tt)))

eval_all-overspent_example :
    (within (budget_at "budget:ledger:project:p" (eval_all scripts ledger).budgets) ≡ true)
    × (overspent (budget_at "budget:ledger:project:p" (eval_all scripts ledger).budgets) ≡ false)
eval_all-overspent_example =
    eval_all-overspent scripts ledger (refl, (refl, (refl, tt))) scripts-AllCovered ledger-IsBounded
      ledger-IsHeld "budget:ledger:project:p"

too_much : (eval (consume (pos 7) (pos 0) none keys) ledger).1.0 ≡ false
unfolding eval consume_budget_ledger any_exceeds exceeds budget_at lookup ◌+ℤ◌
too_much = refl

eval-refused_example : (eval (consume (pos 7) (pos 0) none keys) ledger).0 ≡ ledger
eval-refused_example = eval-refused (consume (pos 7) (pos 0) none keys) ledger too_much

granted : (reserve_budget_ledger (pos 5) keys ledger).1.0 ≡ true
unfolding reserve_budget_ledger any_exceeds exceeds budget_at lookup ◌+ℤ◌
granted = refl

commit-reserve_example :
    budget_at "budget:ledger:project:p"
      (commit_budget_ledger (pos 5) keys (reserve_budget_ledger (pos 5) keys ledger).0).0.budgets
    ≡ budget_at "budget:ledger:project:p"
        (consume_budget_ledger (pos 5) (pos 0) none keys ledger).0.budgets
commit-reserve_example =
    commit-reserve (pos 5) (pos 0) keys ledger "budget:ledger:project:p" refl refl granted

abbrev row : Row
row = record { spent_usd = pos 1; reserved_usd = pos 0 }

-- A charge comes between the reads of a flush and its update, and the error of its next command is
-- dropped.
abbrev events : List Event
events =
    script_runs (spending (pos 3))
    ∷ flush_goes_on
    ∷ flush_goes_on
    ∷ script_runs (spending (pos 2))
    ∷ flush_goes_on
    ∷ flush_drops_error
    ∷ flush_goes_on
    ∷ []

abbrev after : World
after = run events (load (pos 10) "grace" row)

after_idle : after.phase ≡ idle
unfolding run step load charge flush_step drop_error update_row spend ◌+ℤ◌ ◌-ℤ◌
after_idle = refl

run-load_example :
    (after.row.spent_usd +ℤ after.hash.delta_spent
      ≡ after.hash.spent +ℤ all_left left_spent events (load (pos 10) "grace" row))
    × (after.hash.reserved +ℤ all_left left_reserved events (load (pos 10) "grace" row)
        ≤ℤ after.row.reserved_usd +ℤ after.hash.delta_reserved)
run-load_example = run-load (pos 10) "grace" row events after_idle
