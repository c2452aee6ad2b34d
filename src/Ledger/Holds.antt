-- ===== src/Ledger/Holds.antt =====
-- The scripts of internal/repository/sqlstore/budget_ledger.go together: a refused script changes
-- nothing, and a reservation ends as a charge or as if it had not been made.
use gateyes.Common.{
  ◌≡◌, refl, String, true, false, none, some, List, if◌then◌else◌, ℤ, ◌+ℤ◌, ◌-ℤ◌, arith, ints,
}
use gateyes.Ledger.{
  BudgetHash, Redis, budget_at, positive, any_exceeds, spend, hold, unhold, consume_budget_ledger,
  reserve_budget_ledger, commit_budget_ledger, release_budget_ledger, Script, consume, reserve,
  commit, release, eval,
}
use gateyes.Ledger.Bound.{is_in, distinct, budget_at-adjust_all}

-- A script that is refused, for a quota or a budget of any of its scopes, changes nothing.
pub eval-refused : (s : Script) (r : Redis) → (eval s r).1.0 ≡ false → (eval s r).0 ≡ r
unfolding eval
eval-refused (consume amount tokens none keys) r h = ground arith
eval-refused (consume amount tokens (some q) keys) r h = ground arith
eval-refused (reserve amount keys) r h = ground arith
eval-refused (commit amount keys) r h = ground arith
eval-refused (release amount keys) r h = ground arith

add_sub : (a b : ℤ) → a +ℤ b -ℤ b ≡ a
add_sub a b = omega ints

unhold-hold : (amount : ℤ) (h : BudgetHash) → unhold amount (hold amount h) ≡ h
unfolding unhold hold
unhold-hold amount h = rw (add_sub h.reserved amount, add_sub h.delta_reserved amount) refl

reserve-budget_at :
    (amount : ℤ) (ks : List String) (r : Redis) (k : String)
    → positive amount ≡ true
    → distinct ks ≡ true
    → (reserve_budget_ledger amount ks r).1.0 ≡ true
    → budget_at k (reserve_budget_ledger amount ks r).0.budgets
      ≡ (if is_in k ks then hold amount (budget_at k r.budgets) else budget_at k r.budgets)
unfolding reserve_budget_ledger
reserve-budget_at amount ks r k p d a =
    ground (arith, budget_at-adjust_all (hold amount) k ks r.budgets d)

reserve_fits :
    (amount : ℤ) (ks : List String) (r : Redis)
    → positive amount ≡ true
    → (reserve_budget_ledger amount ks r).1.0 ≡ true
    → any_exceeds amount ks r.budgets ≡ false
unfolding reserve_budget_ledger
reserve_fits amount ks r p a = ground arith

-- A reservation that was granted and is then released leaves every budget as it was.
pub release-reserve :
    (amount : ℤ) (ks : List String) (r : Redis) (k : String)
    → positive amount ≡ true
    → distinct ks ≡ true
    → (reserve_budget_ledger amount ks r).1.0 ≡ true
    → budget_at k (release_budget_ledger amount ks (reserve_budget_ledger amount ks r).0).0.budgets
      ≡ budget_at k r.budgets
unfolding release_budget_ledger
release-reserve amount ks r k p d a = ground (
  arith,
  budget_at-adjust_all (unhold amount) k ks (reserve_budget_ledger amount ks r).0.budgets d,
  reserve-budget_at amount ks r k p d a,
  unhold-hold amount (budget_at k r.budgets),
)

-- A reservation that was granted and is then committed leaves every budget as if its amount had been
-- consumed outright, with no quota.
pub commit-reserve :
    (amount tokens : ℤ) (ks : List String) (r : Redis) (k : String)
    → positive amount ≡ true
    → distinct ks ≡ true
    → (reserve_budget_ledger amount ks r).1.0 ≡ true
    → budget_at k (commit_budget_ledger amount ks (reserve_budget_ledger amount ks r).0).0.budgets
      ≡ budget_at k (consume_budget_ledger amount tokens none ks r).0.budgets
unfolding commit_budget_ledger consume_budget_ledger
commit-reserve amount tokens ks r k p d a = ground (
  arith,
  reserve_fits amount ks r p a,
  reserve-budget_at amount ks r k p d a,
  budget_at-adjust_all (λ h. spend amount (unhold amount h)) k ks
      (reserve_budget_ledger amount ks r).0.budgets d,
  budget_at-adjust_all (spend amount) k ks r.budgets d,
  unhold-hold amount (budget_at k r.budgets),
  reserve-budget_at amount ks r k p d a,
)
