-- ===== src/Ledger/Bound.antt =====
-- The scripts of internal/repository/sqlstore/budget_ledger.go keep what is spent and reserved
-- within an enforced budget.
use gateyes.Common.{
  ◌≡◌, refl, String, Bool, true, false, ◌&&◌, ◌||◌, Option, none, some, List, [], ◌∷◌, ◌==◌,
  string_eq, if◌then◌else◌, Map, insert, ℤ, ◌+ℤ◌, ◌-ℤ◌, ltb_ℤ, arith, All, lookup-insert,
  Bool-cases, inl, inr, ◌⊎◌, add_parts, sub_parts, ==→≡,
}
use gateyes.Ledger.{
  BudgetHash, Redis, budget_at, positive, exceeds, any_exceeds, adjust_all, spend, hold, unhold,
  consume_budget_ledger, Script, consume, reserve, commit, release, eval, eval_all,
}

abbrev pub is_in : String → List String → Bool
is_in k [] = false
is_in k (j ∷ js) = j == k || is_in k js

abbrev pub distinct : List String → Bool
distinct [] = true
distinct (k ∷ ks) = if is_in k ks then false else distinct ks

budget_at-insert :
    (k j : String) (h : BudgetHash) (m : Map String BudgetHash)
    → budget_at j (insert k h m) ≡ (if k == j then h else budget_at j m)
unfolding budget_at
budget_at-insert k j h m = ground (arith, lookup-insert k j h m)

pub budget_at-adjust_all :
    (f : BudgetHash → BudgetHash) (k : String) (ks : List String) (m : Map String BudgetHash)
    → distinct ks ≡ true
    → budget_at k (adjust_all f ks m) ≡ (if is_in k ks then f (budget_at k m) else budget_at k m)
unfolding adjust_all
budget_at-adjust_all f k [] m d = refl
budget_at-adjust_all f k (j ∷ js) m d = ground (
  arith,
  budget_at-adjust_all f k js (insert j (f (budget_at j m)) m),
  budget_at-insert j k (f (budget_at j m)) m,
  ==→≡ j k,
)

fits-any_exceeds :
    (amount : ℤ) (k : String) (ks : List String) (m : Map String BudgetHash)
    → any_exceeds amount ks m ≡ false
    → is_in k ks ≡ true
    → exceeds amount (budget_at k m) ≡ false
unfolding any_exceeds
fits-any_exceeds amount k [] m h i = ground arith
fits-any_exceeds amount k (j ∷ js) m h i = ground (arith, fits-any_exceeds amount k js m, ==→≡ j k)

-- An enforced budget that is not used beyond its amount.
abbrev pub within : BudgetHash → Bool
within h =
    if positive h.budget && h.policy == "hard_reject"
    then (if ltb_ℤ h.budget (h.spent +ℤ h.reserved) then false else true)
    else true

within-spend :
    (amount : ℤ) (h : BudgetHash) → exceeds amount h ≡ false → within (spend amount h) ≡ true
unfolding spend exceeds
within-spend amount h e = ground (
  arith,
  add_parts (h.spent +ℤ amount) h.reserved,
  add_parts h.spent amount,
  add_parts h.spent h.reserved,
  add_parts (h.spent +ℤ h.reserved) amount,
)

within-hold :
    (amount : ℤ) (h : BudgetHash) → exceeds amount h ≡ false → within (hold amount h) ≡ true
unfolding hold exceeds
within-hold amount h e = ground (
  arith,
  add_parts h.spent (h.reserved +ℤ amount),
  add_parts h.reserved amount,
  add_parts h.spent h.reserved,
  add_parts (h.spent +ℤ h.reserved) amount,
)

within-commit :
    (amount : ℤ) (h : BudgetHash) → within h ≡ true → within (spend amount (unhold amount h)) ≡ true
unfolding spend unhold
within-commit amount h e = ground (
  arith,
  add_parts (h.spent +ℤ amount) (h.reserved -ℤ amount),
  add_parts h.spent amount,
  sub_parts h.reserved amount,
  add_parts h.spent h.reserved,
)

within-unhold :
    (amount : ℤ) (h : BudgetHash)
    → positive amount ≡ true
    → within h ≡ true
    → within (unhold amount h) ≡ true
unfolding unhold
within-unhold amount h p e = ground (
  arith,
  add_parts h.spent (h.reserved -ℤ amount),
  sub_parts h.reserved amount,
  add_parts h.spent h.reserved,
)

-- No enforced budget is used beyond its amount.
unfoldable pub IsBounded : Map String BudgetHash → Type 0
IsBounded m = (k : String) → within (budget_at k m) ≡ true

adjust_all-IsBounded :
    (f : BudgetHash → BudgetHash) (ks : List String) (m : Map String BudgetHash)
    → distinct ks ≡ true
    → ((k : String) → is_in k ks ≡ true → within (f (budget_at k m)) ≡ true)
    → IsBounded m
    → IsBounded (adjust_all f ks m)
unfolding IsBounded
adjust_all-IsBounded f ks m d h b k = ground (arith, budget_at-adjust_all f k ks m d, h k, b k)

-- The keys of a script, which the code builds from scopes of different names.
abbrev pub keys_of : Script → List String
keys_of (consume amount tokens q ks) = ks
keys_of (reserve amount ks) = ks
keys_of (commit amount ks) = ks
keys_of (release amount ks) = ks

-- The script leaves the budgets, or charges them all when none is exceeded.
pub consume-budgets :
    (amount tokens : ℤ) (q : Option String) (ks : List String) (r : Redis)
    → ((consume_budget_ledger amount tokens q ks r).0.budgets ≡ r.budgets)
      ⊎ ((any_exceeds amount ks r.budgets ≡ false)
          × ((consume_budget_ledger amount tokens q ks r).0.budgets
              ≡ adjust_all (spend amount) ks r.budgets))
unfolding consume_budget_ledger
consume-budgets amount tokens none ks r = ground arith
consume-budgets amount tokens (some q) ks r = ground arith

consume-IsBounded :
    (amount tokens : ℤ) (q : Option String) (ks : List String) (r : Redis)
    → distinct ks ≡ true
    → IsBounded r.budgets
    → IsBounded (consume_budget_ledger amount tokens q ks r).0.budgets
consume-IsBounded amount tokens q ks r d b = elim (consume-budgets amount tokens q ks r) [
  | inl e ↦ rw e b
  | inr (x, e) ↦ rw e (
      adjust_all-IsBounded (spend amount) ks r.budgets d
        (λ k i.
          within-spend amount (budget_at k r.budgets) (fits-any_exceeds amount k ks r.budgets x i))
        b)
]

pub eval-IsBounded :
    (s : Script) (r : Redis)
    → distinct (keys_of s) ≡ true
    → IsBounded r.budgets
    → IsBounded (eval s r).0.budgets
unfolding eval IsBounded
eval-IsBounded (consume amount tokens q ks) r d b = consume-IsBounded amount tokens q ks r d b
eval-IsBounded (reserve amount ks) r d b = elim (Bool-cases (positive amount)) [
  | inr n ↦ rw n b
  | inl p ↦ elim (Bool-cases (any_exceeds amount ks r.budgets)) [
    | inl x ↦ rw (p, x) b
    | inr x ↦
        rw (p, x)
          (adjust_all-IsBounded (hold amount) ks r.budgets d
            (λ k i.
              within-hold amount (budget_at k r.budgets)
                (fits-any_exceeds amount k ks r.budgets x i))
            b)
  ]
]
eval-IsBounded (commit amount ks) r d b = elim (Bool-cases (positive amount)) [
  | inr n ↦ rw n b
  | inl p ↦ rw p (
      adjust_all-IsBounded (λ h. spend amount (unhold amount h)) ks r.budgets d
        (λ k i. within-commit amount (budget_at k r.budgets) (ground (arith, b k))) b)
]
eval-IsBounded (release amount ks) r d b = elim (Bool-cases (positive amount)) [
  | inr n ↦ rw n b
  | inl p ↦ rw p (
      adjust_all-IsBounded (unhold amount) ks r.budgets d
        (λ k i. within-unhold amount (budget_at k r.budgets) p (ground (arith, b k))) b)
]

-- Whatever scripts run, in whatever order, on distinct keys each: a budget under hard_reject that
-- was not used beyond its amount, by what is spent and reserved, never is.
eval_all-IsBounded :
    (ss : List Script) (r : Redis)
    → All (λ s. distinct (keys_of s) ≡ true) ss
    → IsBounded r.budgets
    → IsBounded (eval_all ss r).budgets
unfolding eval_all
eval_all-IsBounded [] r _ b = b
eval_all-IsBounded (s ∷ ss) r (d, ds) b =
    eval_all-IsBounded ss (eval s r).0 ds (eval-IsBounded s r d b)
