-- ===== src/Ledger/Spent.antt =====
-- What the scripts of internal/repository/sqlstore/budget_ledger.go let a budget spend, when holds are
-- given back no more than they were taken.
use gateyes.Common.{
  ◌≡◌, String, true, false, ◌&&◌, Bool, Bool-cases, inl, inr, List, [], ◌∷◌, Map, All, ℤ, pos, ◌≤ℤ◌,
  ltb_ℤ, ◌==◌, string_eq, arith, ints, subst, ==→≡, add_parts,
}
use gateyes.Ledger.{
  BudgetHash, Redis, budget_at, adjust_all, any_exceeds, positive, spend, hold, unhold, Script,
  consume, reserve, commit, release, eval, eval_all,
}
use gateyes.Ledger.Bound.{
  is_in, distinct, budget_at-adjust_all, within, IsBounded, keys_of, consume-budgets,
  eval-IsBounded,
}

-- An enforced budget of which more is spent than it has.
abbrev pub overspent : BudgetHash → Bool
overspent h = positive h.budget && h.policy == "hard_reject" && ltb_ℤ h.budget h.spent

-- A script gives back no more than is reserved under each of its keys.
abbrev pub Covered : Script → Redis → Type 0
Covered (commit amount ks) r = All (λ k. amount ≤ℤ (budget_at k r.budgets).reserved) ks
Covered (release amount ks) r = All (λ k. amount ≤ℤ (budget_at k r.budgets).reserved) ks
Covered (consume amount tokens q ks) r = Unit
Covered (reserve amount ks) r = Unit

-- Each of the scripts does, when it runs after those before it.
unfoldable pub AllCovered : List Script → Redis → Type 0
unfolding eval
AllCovered [] r = Unit
AllCovered (s ∷ ss) r = Covered s r × AllCovered ss (eval s r).0

-- Nothing is reserved less than zero.
unfoldable pub IsHeld : Map String BudgetHash → Type 0
IsHeld m = (k : String) → pos 0 ≤ℤ (budget_at k m).reserved

adjust_all-IsHeld :
    (f : BudgetHash → BudgetHash) (ks : List String) (m : Map String BudgetHash)
    → distinct ks ≡ true
    → ((k : String) → is_in k ks ≡ true → pos 0 ≤ℤ (f (budget_at k m)).reserved)
    → IsHeld m
    → IsHeld (adjust_all f ks m)
unfolding IsHeld
adjust_all-IsHeld f ks m d h b k = elim (Bool-cases (is_in k ks)) [
  | inl y ↦ rw (budget_at-adjust_all f k ks m d, y) (h k y)
  | inr n ↦ rw (budget_at-adjust_all f k ks m d, n) (b k)
]

covered_key :
    (amount : ℤ) (m : Map String BudgetHash) (k : String) (ks : List String)
    → All (λ j. amount ≤ℤ (budget_at j m).reserved) ks
    → is_in k ks ≡ true
    → amount ≤ℤ (budget_at k m).reserved
covered_key amount m k [] a i = absurd (ground arith)
covered_key amount m k (j ∷ js) (h, a) i = elim (Bool-cases (j == k)) [
  | inl y ↦ subst (λ x. amount ≤ℤ (budget_at x m).reserved) (==→≡ j k y) h
  | inr n ↦ covered_key amount m k js a (ground (arith, i))
]

hold-reserved :
    (amount : ℤ) (h : BudgetHash)
    → positive amount ≡ true
    → pos 0 ≤ℤ h.reserved
    → pos 0 ≤ℤ (hold amount h).reserved
unfolding hold
hold-reserved amount h p r = ground (arith, add_parts h.reserved amount)

unhold-reserved :
    (amount : ℤ) (h : BudgetHash) → amount ≤ℤ h.reserved → pos 0 ≤ℤ (unhold amount h).reserved
unfolding unhold
unhold-reserved amount h c = omega ints

eval-IsHeld :
    (s : Script) (r : Redis)
    → distinct (keys_of s) ≡ true
    → Covered s r
    → IsHeld r.budgets
    → IsHeld (eval s r).0.budgets
unfolding eval IsHeld spend
eval-IsHeld (consume amount tokens q ks) r d c b = elim (consume-budgets amount tokens q ks r) [
  | inl e ↦ rw e b
  | inr (x, e) ↦ rw e (adjust_all-IsHeld (spend amount) ks r.budgets d (λ k i. b k) b)
]
eval-IsHeld (reserve amount ks) r d c b = elim (Bool-cases (positive amount)) [
  | inr n ↦ rw n b
  | inl p ↦ elim (Bool-cases (any_exceeds amount ks r.budgets)) [
    | inl x ↦ rw (p, x) b
    | inr x ↦
        rw (p, x)
          (adjust_all-IsHeld (hold amount) ks r.budgets d
            (λ k i. hold-reserved amount (budget_at k r.budgets) p (b k)) b)
  ]
]
eval-IsHeld (commit amount ks) r d c b = elim (Bool-cases (positive amount)) [
  | inr n ↦ rw n b
  | inl p ↦ rw p (
      adjust_all-IsHeld (λ h. spend amount (unhold amount h)) ks r.budgets d
        (λ k i.
          unhold-reserved amount (budget_at k r.budgets) (covered_key amount r.budgets k ks c i))
        b)
]
eval-IsHeld (release amount ks) r d c b = elim (Bool-cases (positive amount)) [
  | inr n ↦ rw n b
  | inl p ↦ rw p (
      adjust_all-IsHeld (unhold amount) ks r.budgets d
        (λ k i.
          unhold-reserved amount (budget_at k r.budgets) (covered_key amount r.budgets k ks c i))
        b)
]

within_lem : (h : BudgetHash) → within h ≡ true → pos 0 ≤ℤ h.reserved → overspent h ≡ false
within_lem h w r = ground (arith, add_parts h.spent h.reserved)

-- Whatever scripts run, in whatever order, on distinct keys each, of which none gives back more than
-- is reserved: if at the start no budget under hard_reject is used beyond its amount, by what is spent
-- and reserved, and nothing reserved is below zero, then none is at the end, and what is spent of it
-- alone is no more than its amount either.
pub eval_all-overspent :
    (ss : List Script) (r : Redis)
    → All (λ s. distinct (keys_of s) ≡ true) ss
    → AllCovered ss r
    → IsBounded r.budgets
    → IsHeld r.budgets
    → (k : String)
    → (within (budget_at k (eval_all ss r).budgets) ≡ true)
      × (overspent (budget_at k (eval_all ss r).budgets) ≡ false)
unfolding eval_all AllCovered IsHeld IsBounded
eval_all-overspent [] r d c w b k = (w k, within_lem (budget_at k r.budgets) (w k) (b k))
eval_all-overspent (s ∷ ss) r (d, ds) (c, cs) w b k =
    eval_all-overspent ss (eval s r).0 ds cs (eval-IsBounded s r d w) (eval-IsHeld s r d c b) k
